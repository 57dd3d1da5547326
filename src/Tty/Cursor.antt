-- ===== src/Tty/Cursor.antt =====
-- src/tty.c: tty_update keeps the cursor on the screen and writes inside of the buffer.
use wuros.Prelude.{
  ℕ, zero, suc, ◌+◌, ◌-◌, ◌*◌, ◌<◌, ◌≡◌, refl, ap, ◌∙◌, inl, inr, Bool, true, false, Bool-cases,
  leb, ◌==◌, ◌&&◌, if◌then◌else◌, List, get_or, set, length, length-set, Outcome, ok, ◌>>=◌, arith,
}
use wuros.Screen.{screen_width, screen_height, screen_size, load, store}
use wuros.Screen.Scroll.{length-scroll_rows}
use wuros.Tty.{Tty, cell, tty_scroll_up, next_row, backspace, print, put_char, spaces, update}

-- The cursor is on the screen, and the buffer is as large as the screen.
pub record OnScreen (t : Tty) : Type 0 where
  pub column : t.pos_x < screen_width
  pub row : t.pos_y < screen_height
  pub size : length t.buf ≡ screen_size

-- A routine ends with a terminal whose cursor is on the screen and whose ring buffers are as before.
abbrev pub Stays : Tty → Outcome Tty → Type 0
Stays t r =
    (t' : Tty) × (r ≡ ok t')
    × OnScreen t'
    × (t'.io_input ≡ t.io_input)
    × (t'.io_output ≡ t.io_output)

store-eq-ok : (buf : List ℕ) (i v : ℕ) → i < length buf → store buf i v ≡ ok (set buf i v)
store-eq-ok buf i v lt = ground arith

load-eq-ok : (buf : List ℕ) (i : ℕ) → i < length buf → load buf i ≡ ok (get_or buf i 0)
load-eq-ok buf i lt = ground arith

refresh-OnScreen : (t : Tty) → OnScreen t → OnScreen (record t { refresh = 1 })
refresh-OnScreen t v = record { column = v.column; row = v.row; size = v.size }

scroll_up-size : (t : Tty) → length t.buf ≡ screen_size → length (tty_scroll_up t).buf ≡ screen_size
unfolding tty_scroll_up
scroll_up-size t size = length-scroll_rows (cell t 0) t.buf size

scroll_up-row : (t : Tty) → (tty_scroll_up t).pos_y ≡ t.pos_y
unfolding tty_scroll_up
scroll_up-row t = refl

scroll_up-input : (t : Tty) → (tty_scroll_up t).io_input ≡ t.io_input
unfolding tty_scroll_up
scroll_up-input t = refl

scroll_up-output : (t : Tty) → (tty_scroll_up t).io_output ≡ t.io_output
unfolding tty_scroll_up
scroll_up-output t = refl

next_row-Stays :
    (t : Tty) → t.pos_y < screen_height → length t.buf ≡ screen_size → Stays t (ok (next_row t))
unfolding next_row
next_row-Stays t lt size = elim (Bool-cases (t.pos_y == (screen_height - 1))) [
  | inl last ↦
      let same = scroll_up-row t in
      (
        record (tty_scroll_up t) { pos_x = 0 },
        ap
            (λ b. ok (record (if b then tty_scroll_up t else record t { pos_y = t.pos_y + 1 }) {
              pos_x = 0;
            }))
            last,
        record { column = omega arith; row = omega arith; size = scroll_up-size t size },
        scroll_up-input t,
        scroll_up-output t,
      )
  | inr above ↦ (
    record t { pos_y = t.pos_y + 1; pos_x = 0 },
    ap
        (λ b.
          ok (record (if b then tty_scroll_up t else record t { pos_y = t.pos_y + 1 }) {
            pos_x = 0;
          }))
        above,
    record { column = omega arith; row = ground arith; size = size },
    refl,
    refl,
  )
]

print-Stays : (t : Tty) (place c : ℕ) → OnScreen t → place < screen_size → Stays t (print t place c)
unfolding print
print-Stays t place c v inside =
    let h = store-eq-ok t.buf place (cell t c) (omega (arith, v.size)) in
    let buf = set t.buf place (cell t c) in
    let t' : Tty = record t { buf = buf; pos_x = t.pos_x + 1 } in
    let run : print t place c ≡ ok (if t'.pos_x == screen_width then next_row t' else t') =
      rw (h, print) refl in
    elim (Bool-cases (t'.pos_x == screen_width)) [
      | inl end ↦
          let (t2, e, v2, i, o) =
            next_row-Stays t' v.row (length-set t.buf place (cell t c) ∙ v.size) in
          (t2, run ∙ ap (λ b. ok (if b then next_row t' else t')) end ∙ e, v2, i, o)
      | inr more ↦ (
        t',
        run ∙ ap (λ b. ok (if b then next_row t' else t')) more,
        record {
          column = column_after t.pos_x v.column more;
          row = v.row;
          size = length-set t.buf place (cell t c) ∙ v.size;
        },
        refl,
        refl,
      )
    ]
  where
    column_after :
        (x : ℕ) → x < screen_width → (x + 1) == screen_width ≡ false → x + 1 < screen_width
    column_after x lt ne = ground arith

backspace-Stays :
    (t : Tty) (place : ℕ)
    → OnScreen t
    → place ≡ screen_width * t.pos_y + t.pos_x
    → ((t.pos_y == 0) && (t.pos_x == 0)) ≡ false
    → Stays t (backspace t place)
unfolding backspace
backspace-Stays t place v at moved =
    let old = get_or t.buf place 0 in
    let buf1 = set t.buf (place - 1) old in
    let t' : Tty = record t { buf = set buf1 place (cell t 0) } in
    let l = load-eq-ok t.buf place (omega (arith, v.size, v.row, v.column)) in
    let s1 = store-eq-ok t.buf (place - 1) old (omega (arith, v.size, v.row, v.column)) in
    let size1 = length-set t.buf (place - 1) old in
    let s2 = store-eq-ok buf1 place (cell t 0) (omega (arith, v.size, v.row, v.column, size1)) in
    let size : length t'.buf ≡ screen_size = length-set buf1 place (cell t 0) ∙ size1 ∙ v.size in
    let finish : Bool → Outcome Tty = λ b. ok (
      if b
      then record t' { pos_y = t'.pos_y - 1; pos_x = screen_width - 1 }
      else record t' { pos_x = t'.pos_x - 1 }) in
    let run : backspace t place ≡ finish (t'.pos_x == 0) = rw (l, backspace) (rw s1 (rw s2 refl)) in
    elim (Bool-cases (t'.pos_x == 0)) [
      | inl start ↦ (
        record t' { pos_y = t'.pos_y - 1; pos_x = screen_width - 1 },
        run ∙ ap finish start,
        record { column = omega arith; row = omega (arith, v.row); size = size },
        refl,
        refl,
      )
      | inr inside ↦ (
        record t' { pos_x = t'.pos_x - 1 },
        run ∙ ap finish inside,
        record { column = omega (arith, v.column); row = v.row; size = size },
        refl,
        refl,
      )
    ]

-- What holds behind a test, whichever way it goes
either_way {ℓ} :
    {A : Type ℓ} (P : A → Type 0) (b : Bool) (x y : A) → P x → P y → P (if b then x else y)
either_way P true x y px py = px
either_way P false x y px py = py

put_char-Stays : (t : Tty) (c : ℕ) → OnScreen t → Stays t (put_char t c)
unfolding put_char
put_char-Stays t0 c v0 =
    let t : Tty = record t0 { refresh = 1 } in
    let v : OnScreen t = refresh-OnScreen t0 v0 in
    let place = screen_width * t.pos_y + t.pos_x in
    let erase : Stays t0 (if (t.pos_y == 0) && (t.pos_x == 0) then ok t else backspace t place) =
      elim (Bool-cases ((t.pos_y == 0) && (t.pos_x == 0))) [
        | inl home ↦ rw home (t, refl, v, refl, refl)
        | inr moved ↦ rw moved (backspace-Stays t place v refl moved)
      ] in
    either_way (Stays t0) (c == 8) _ _ erase (
      either_way (Stays t0) (c == 13) _ _
        (
          record t { pos_x = 0 },
          refl,
          record { column = omega arith; row = v.row; size = v.size },
          refl,
          refl,
        )
        (either_way (Stays t0) (c == 10) _ _ (next_row-Stays t v.row v.size)
          (print-Stays t place c v (omega (arith, v.row, v.column)))))

spaces-Stays : (n : ℕ) (t : Tty) → OnScreen t → Stays t (spaces n t)
unfolding spaces
spaces-Stays zero t v = (t, refl, v, refl, refl)
spaces-Stays (suc n) t v =
    let (t1, e1, v1, i1, o1) = put_char-Stays t 32 v in
    let (t2, e2, v2, i2, o2) = spaces-Stays n t1 v1 in
    (t2, ap (λ r. r >>= spaces n) e1 ∙ e2, v2, i2 ∙ i1, o2 ∙ o1)

-- tty_update on a terminal whose cursor is on the screen succeeds for every character, tabs and
-- backspaces included: each access to the buffer is inside of it, and afterwards the cursor is still
-- on the screen, the buffer as large as the screen, and the input and output buffers untouched.
pub update-Stays : (t : Tty) (c : ℕ) → OnScreen t → Stays t (update t c)
unfolding update
update-Stays t0 c v0 =
    let t : Tty = record t0 { refresh = 1 } in
    let v : OnScreen t = refresh-OnScreen t0 v0 in
    either_way (Stays t0) (c == 9) _ _
      (either_way (Stays t0) (leb 75 t.pos_x) _ _ (put_char-Stays t 10 v) (spaces-Stays 4 t v))
      (put_char-Stays t c v)
