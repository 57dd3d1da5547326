-- ===== src/Vga/Cursor.antt =====
-- src/vga.c: where the cursor goes, and that printing stays on the screen.
use wuros.Prelude.{
  ℕ, ◌+◌, ◌-◌, ◌<◌, ◌≡◌, refl, ap, ◌∙◌, inl, inr, ℤ, pos, negsuc, ◌==◌, Bool-cases, if◌then◌else◌,
  List, get_or, set, length, Outcome, ok, arith,
}
use wuros.Screen.{screen_width, screen_height, screen_size, load, store, scroll_rows}
use wuros.Screen.Scroll.{length-scroll_rows}
use wuros.Vga.{Vga, vga_cell, vga_cursor_update, corrected, vga_set_xy, scroll_up, next_row}

corrected-eq : (x : ℤ) (bound : ℕ) → corrected x bound ≡ x
unfolding corrected
corrected-eq (pos x) bound = refl
corrected-eq (negsuc x) bound = refl

-- vga_set_xy stores every position as it is given, also one outside of the screen: with the cursor off,
-- nothing else changes.
pub vga_set_xy-keeps :
    (s : Vga) (x y : ℤ) → s.cursor ≡ 0 → vga_set_xy s x y ≡ record s { pos_x = x; pos_y = y }
unfolding vga_set_xy vga_cursor_update
vga_set_xy-keeps s x y off =
    ap (λ x1. vga_cursor_update (record s { pos_x = x1; pos_y = corrected y (screen_height - 1) }))
      (corrected-eq x (screen_width - 1))
    ∙ ap (λ y1. vga_cursor_update (record s { pos_x = x; pos_y = y1 }))
        (corrected-eq y (screen_height - 1))
    ∙ rw (off, vga_cursor_update) refl

-- The display with this screen and cursor position, and with the cursor off
abbrev pub at : Vga → List ℕ → ℕ → ℕ → Vga
at s buf x y = record s { buf = buf; pos_x = pos x; pos_y = pos y; cursor = 0 }

-- A routine ends, and changes the screen and the position of the cursor only, which is on the screen.
abbrev pub Stays : Vga → Outcome Vga → Type 0
Stays s r =
    (buf : List ℕ) × (x : ℕ) × (y : ℕ) × (r ≡ ok (at s buf x y))
    × (x < screen_width)
    × (y < screen_height)
    × (length buf ≡ screen_size)

scroll_up-at :
    (s : Vga) (buf : List ℕ) (x y : ℕ)
    → length buf ≡ screen_size
    → (buf' : List ℕ) × (scroll_up (at s buf x y) ≡ at s buf' x y) × (length buf' ≡ screen_size)
unfolding scroll_up
scroll_up-at s buf x y size = elim (Bool-cases (s.scrolling_enabled == 1)) [
  | inl on ↦
      let blank = vga_cell s.color_bg s.color_fg 0 in
      (
        scroll_rows blank buf,
        ap (λ b. if b then at s (scroll_rows blank buf) x y else at s buf x y) on,
        length-scroll_rows blank buf size,
      )
  | inr off ↦ (
    buf,
    ap
        (λ b.
          if b then at s (scroll_rows (vga_cell s.color_bg s.color_fg 0) buf) x y else at s buf x y)
        off,
    size,
  )
]

pub next_row-Stays :
    (s : Vga) (buf : List ℕ) (x y : ℕ)
    → y < screen_height
    → length buf ≡ screen_size
    → Stays s (ok (next_row (at s buf x y)))
unfolding next_row
next_row-Stays s buf x y lt size = elim (Bool-cases (y == (screen_height - 1))) [
  | inl last ↦
      let (buf', e, size') = scroll_up-at s buf x y size in
      (
        buf',
        0,
        y,
        ap (λ b. ok (start (if b then scroll_up (at s buf x y) else at s buf x (y + 1)))) last
            ∙ ap (λ t. ok (start t)) e,
        omega arith,
        lt,
        size',
      )
  | inr above ↦ (
    buf,
    0,
    y + 1,
    ap (λ b. ok (start (if b then scroll_up (at s buf x y) else at s buf x (y + 1)))) above,
    omega arith,
    ground arith,
    size,
  )
]
  where
    start : Vga → Vga
    start t = record t { pos_x = pos 0 }

pub store-eq-ok : (buf : List ℕ) (i v : ℕ) → i < length buf → store buf i v ≡ ok (set buf i v)
store-eq-ok buf i v lt = ground arith

pub load-eq-ok : (buf : List ℕ) (i : ℕ) → i < length buf → load buf i ≡ ok (get_or buf i 0)
load-eq-ok buf i lt = ground arith
