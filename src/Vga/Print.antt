-- ===== src/Vga/Print.antt =====
-- src/vga.c: printing stays on the screen.
use wuros.Prelude.{
  ℕ, zero, suc, ◌+◌, ◌-◌, ◌*◌, ◌<◌, ◌≡◌, refl, ap, ◌∙◌, inl, inr, pos, decr, ltb, ◌==◌, ◌&&◌, not,
  Bool, true, false, Bool-cases, if◌then◌else◌, List, [], ◌∷◌, get_or, set, length, length-set,
  Outcome, ok, ◌>>=◌, arith,
}
use wuros.Screen.{screen_width, screen_height, screen_size, store}
use wuros.Vga.{
  Vga, vga_cell, place, load_cell, store_cell, vga_cursor_update, next_row, backspace, print,
  put_char, spaces, tab, vga_putc, vga_puts,
}
use wuros.Vga.Cursor.{at, Stays, next_row-Stays, store-eq-ok, load-eq-ok}

print-Stays :
    (s : Vga) (buf : List ℕ) (x y c : ℕ)
    → x < screen_width
    → y < screen_height
    → length buf ≡ screen_size
    → Stays s (print (at s buf x y) c)
unfolding print place store_cell vga_cursor_update
print-Stays s buf x y c column row size =
    let cell = vga_cell s.color_bg s.color_fg c in
    let buf1 = set buf (screen_width * y + x) cell in
    let size1 : length buf1 ≡ screen_size = length-set buf (screen_width * y + x) cell ∙ size in
    let run = ap (λ r. r >>= finish) (store-eq-ok buf (screen_width * y + x) cell (omega arith)) in
    elim (Bool-cases ((x + 1) == screen_width)) [
      | inl end ↦
          let (buf2, x2, y2, e, lt_x, lt_y, size2) = next_row-Stays s buf1 (x + 1) y row size1 in
          (
            buf2,
            x2,
            y2,
            run
                ∙ ap
                    (λ b. ok (
                      vga_cursor_update
                        (if b then next_row (at s buf1 (x + 1) y) else at s buf1 (x + 1) y)))
                    end
                ∙ ap (λ r. r >>= λ t. ok (vga_cursor_update t)) e,
            lt_x,
            lt_y,
            size2,
          )
      | inr more ↦ (
        buf1,
        x + 1,
        y,
        run
            ∙ ap
                (λ b. ok (
                  vga_cursor_update
                    (if b then next_row (at s buf1 (x + 1) y) else at s buf1 (x + 1) y)))
                more,
        ground arith,
        row,
        size1,
      )
    ]
  where
    finish : List ℕ → Outcome Vga
    finish buf1 = ok (
        vga_cursor_update
          (if (x + 1) == screen_width then next_row (at s buf1 (x + 1) y) else at s buf1 (x + 1) y))

decr-pos : (n : ℕ) → 0 < n → decr (pos n) ≡ pos (n - 1)
decr-pos zero h = absurd (omega arith)
decr-pos (suc n) h = ap pos (omega arith)

backspace-Stays :
    (s : Vga) (buf : List ℕ) (x y : ℕ)
    → x < screen_width
    → y < screen_height
    → length buf ≡ screen_size
    → 0 < screen_width * y + x
    → Stays s (backspace (at s buf x y))
unfolding backspace place store_cell load_cell vga_cursor_update
backspace-Stays s buf x y column row size moved =
    let p = screen_width * y + x in
    let old = get_or buf p 0 in
    let buf1 = set buf (p - 1) old in
    let buf2 = set buf1 p (vga_cell s.color_bg s.color_fg 0) in
    let size1 : length buf1 ≡ screen_size = length-set buf (p - 1) old ∙ size in
    let size2 : length buf2 ≡ screen_size =
      length-set buf1 p (vga_cell s.color_bg s.color_fg 0) ∙ size1 in
    let run : backspace (at s buf x y) ≡ finish buf2 =
      ap (λ r. r >>= third) (load-eq-ok buf p (omega arith))
      ∙ ap (λ i. store_cell buf i old >>= second) (decr-pos p moved)
      ∙ ap (λ r. r >>= second) (store-eq-ok buf (p - 1) old (omega arith))
      ∙ ap (λ r. r >>= finish)
          (store-eq-ok buf1 p (vga_cell s.color_bg s.color_fg 0) (omega arith)) in
    elim (Bool-cases (x == 0)) [
      | inl first ↦ (
        buf2,
        screen_width - 1,
        y - 1,
        run
            ∙ ap (λ b. ok (vga_cursor_update (if b then up buf2 else back buf2))) first
            ∙ ap (λ z. ok (record (at s buf2 (screen_width - 1) y) { pos_y = z }))
                (decr-pos y (ground arith)),
        omega arith,
        omega arith,
        size2,
      )
      | inr inside ↦ (
        buf2,
        x - 1,
        y,
        run
            ∙ ap (λ b. ok (vga_cursor_update (if b then up buf2 else back buf2))) inside
            ∙ ap (λ z. ok (record (at s buf2 x y) { pos_x = z })) (decr-pos x (ground arith)),
        omega arith,
        row,
        size2,
      )
    ]
  where
    up : List ℕ → Vga
    up b = record (at s b x y) { pos_y = decr (pos y); pos_x = pos (screen_width - 1) }

    back : List ℕ → Vga
    back b = record (at s b x y) { pos_x = decr (pos x) }

    finish : List ℕ → Outcome Vga
    finish b = ok (vga_cursor_update (if x == 0 then up b else back b))

    second : List ℕ → Outcome Vga
    second b = store b (screen_width * y + x) (vga_cell s.color_bg s.color_fg 0) >>= finish

    third : ℕ → Outcome Vga
    third v = store_cell buf (decr (pos (screen_width * y + x))) v >>= second

-- What holds behind a test, whichever way it goes
if-Stays :
    (s : Vga) (b : Bool) (r1 r2 : Outcome Vga)
    → (b ≡ true → Stays s r1)
    → (b ≡ false → Stays s r2)
    → Stays s (if b then r1 else r2)
if-Stays s true r1 r2 h1 h2 = h1 refl
if-Stays s false r1 r2 h1 h2 = h2 refl

put_char-Stays :
    (s : Vga) (buf : List ℕ) (x y c : ℕ)
    → x < screen_width
    → y < screen_height
    → length buf ≡ screen_size
    → Stays s (put_char (at s buf x y) c)
unfolding put_char vga_cursor_update
put_char-Stays s buf x y c column row size =
    if-Stays s (c == 8) _ _
      (λ b.
        if-Stays s ((y == 0) && (x == 0)) _ _ (λ home. (buf, x, y, refl, column, row, size))
          (λ other. backspace-Stays s buf x y column row size (ground arith)))
      (λ b.
        if-Stays s (c == 13) _ _ (λ return. (buf, 0, y, refl, omega arith, row, size))
          (λ b.
            if-Stays s (c == 10) _ _
              (λ feed.
                let (buf', x', y', e, lt_x, lt_y, size') = next_row-Stays s buf x y row size in
                (buf', x', y', ap (λ r. r >>= λ t. ok (vga_cursor_update t)) e, lt_x, lt_y, size'))
              (λ b. print-Stays s buf x y c column row size)))

spaces-Stays :
    (n : ℕ) (s : Vga) (buf : List ℕ) (x y : ℕ)
    → x < screen_width
    → y < screen_height
    → length buf ≡ screen_size
    → Stays s (spaces n (at s buf x y))
unfolding spaces
spaces-Stays zero s buf x y column row size = (buf, x, y, refl, column, row, size)
spaces-Stays (suc n) s buf x y column row size =
    let (buf1, x1, y1, e1, lt_x1, lt_y1, size1) = put_char-Stays s buf x y 32 column row size in
    let (buf2, x2, y2, e2, lt_x2, lt_y2, size2) = spaces-Stays n s buf1 x1 y1 lt_x1 lt_y1 size1 in
    (buf2, x2, y2, ap (λ r. r >>= spaces n) e1 ∙ e2, lt_x2, lt_y2, size2)

vga_putc-Stays :
    (s : Vga) (buf : List ℕ) (x y c : ℕ)
    → x < screen_width
    → y < screen_height
    → length buf ≡ screen_size
    → Stays s (vga_putc (at s buf x y) c)
unfolding vga_putc tab vga_cursor_update
vga_putc-Stays s buf x y c column row size =
    if-Stays s (c == 9) _ _
      (λ is_tab.
        let (buf', x', y', e, lt_x, lt_y, size') =
          if-Stays s (not (ltb x 75)) _ _ (λ b. put_char-Stays s buf x y 10 column row size)
            (λ b. spaces-Stays 4 s buf x y column row size) in
        (buf', x', y', ap (λ r. r >>= λ t. ok (vga_cursor_update t)) e, lt_x, lt_y, size'))
      (λ other. put_char-Stays s buf x y c column row size)

-- vga_puts with the cursor off and on the screen succeeds for every text: it writes inside of the
-- screen only, leaves the cursor on the screen, and changes neither the colours nor the ports.
pub vga_puts-Stays :
    (s : Vga) (buf : List ℕ) (x y : ℕ) (text : List ℕ)
    → x < screen_width
    → y < screen_height
    → length buf ≡ screen_size
    → Stays s (vga_puts (at s buf x y) text)
unfolding vga_puts
vga_puts-Stays s buf x y [] column row size = (buf, x, y, refl, column, row, size)
vga_puts-Stays s buf x y (c ∷ text) column row size =
    let (buf1, x1, y1, e1, lt_x1, lt_y1, size1) = vga_putc-Stays s buf x y c column row size in
    let (buf2, x2, y2, e2, lt_x2, lt_y2, size2) =
      vga_puts-Stays s buf1 x1 y1 text lt_x1 lt_y1 size1 in
    (buf2, x2, y2, ap (λ r. r >>= λ s'. vga_puts s' text) e1 ∙ e2, lt_x2, lt_y2, size2)
