-- ===== src/Vga/At.antt =====
-- src/vga.c: printing a character at a position of its own.
use wuros.Prelude.{
  Bool-cases, inl, inr, ◌==◌, length-set, ℕ, ◌+◌, ◌*◌, ◌<◌, ◌≡◌, refl, sym, ap, ◌∙◌, ℤ, pos, negsuc,
  ltb, List, length, set, Outcome, ok, stop, fault, ◌>>=◌, Keeps, Keeps-bind, Keeps-if,
}
use wuros.Screen.{screen_width}
use wuros.Vga.{Vga, vga_cell, place, store_cell, vga_cursor_update, vga_putc_at}
use wuros.Vga.Cursor.{store-eq-ok}

abbrev pub AnyBuf : List ℕ → Type 0
AnyBuf b = Unit

abbrev pub AnyScreen : Vga → Type 0
AnyScreen v = Unit

-- The writes to the screen memory end, or are undefined behaviour.
pub store_cell-ends : (buf : List ℕ) (i : ℤ) (c : ℕ) → Keeps AnyBuf (store_cell buf i c)
unfolding store_cell
store_cell-ends buf (pos i) c = Keeps-if AnyBuf (ltb i (length buf)) _ (stop fault) tt tt
store_cell-ends buf (negsuc i) c = tt

pub vga_putc_at-ends :
    (v : Vga) (x y : ℤ) (bg fg c : ℕ) → Keeps AnyScreen (vga_putc_at v x y bg fg c)
unfolding vga_putc_at
vga_putc_at-ends v x y bg fg c =
    Keeps-bind AnyBuf AnyScreen (store_cell v.buf (place x y) (vga_cell bg fg c)) _
      (store_cell-ends v.buf (place x y) (vga_cell bg fg c)) (λ buf u. tt)

cursor_off : (v : Vga) → vga_cursor_update (record v { cursor = 0 }) ≡ record v { cursor = 0 }
unfolding vga_cursor_update
cursor_off v = refl

cursor_off-same : (v : Vga) → v.cursor ≡ 0 → vga_cursor_update v ≡ v
cursor_off-same v off =
    let same : v ≡ record v { cursor = 0 } = ap (λ n. record v { cursor = n }) off in
    ap vga_cursor_update same ∙ cursor_off v ∙ sym same

-- With the cursor off, only the cell is written.
pub vga_putc_at-eq-ok :
    (v : Vga) (x y bg fg c : ℕ)
    → v.cursor ≡ 0
    → screen_width * y + x < length v.buf
    → vga_putc_at v (pos x) (pos y) bg fg c
      ≡ ok (record v { buf = set v.buf (screen_width * y + x) (vga_cell bg fg c) })
unfolding vga_putc_at place store_cell
vga_putc_at-eq-ok v x y bg fg c off inside =
    ap (λ r. r >>= finish) (store-eq-ok v.buf (screen_width * y + x) (vga_cell bg fg c) inside)
    ∙ ap ok (cursor_off-same _ off)
  where
    finish : List ℕ → Outcome Vga
    finish buf = ok (vga_cursor_update (record v { buf = buf }))

cursor_update-buf : (v : Vga) → (vga_cursor_update v).buf ≡ v.buf
unfolding vga_cursor_update
cursor_update-buf v = elim (Bool-cases (v.cursor == 0)) [
  | inl off ↦ rw (off, vga_cursor_update) refl
  | inr on ↦ rw (on, vga_cursor_update) refl
]

-- With the cursor on or off, a cell on the display is written.
pub vga_putc_at-ok :
    (v : Vga) (x y bg fg c : ℕ)
    → screen_width * y + x < length v.buf
    → (v' : Vga) × (vga_putc_at v (pos x) (pos y) bg fg c ≡ ok v') × (length v'.buf ≡ length v.buf)
unfolding vga_putc_at place store_cell
vga_putc_at-ok v x y bg fg c inside =
    let p = screen_width * y + x in
    let v1 : Vga = record v { buf = set v.buf p (vga_cell bg fg c) } in
    (
      vga_cursor_update v1,
      ap (λ r. r >>= finish) (store-eq-ok v.buf p (vga_cell bg fg c) inside),
      ap length (cursor_update-buf v1) ∙ length-set v.buf p (vga_cell bg fg c),
    )
  where
    finish : List ℕ → Outcome Vga
    finish buf = ok (vga_cursor_update (record v { buf = buf }))
