-- ===== src/Vga/Ends.antt =====
-- src/vga.c: printing at any position ends, or is undefined behaviour.
use wuros.Prelude.{
  ℕ, zero, suc, ◌==◌, ◌&&◌, not, ℤ, pos, negsuc, decr, eq_ℤ, lt_ℤ, ltb, if◌then◌else◌, List, [],
  ◌∷◌, length, ok, stop, fault, Keeps, Keeps-bind, Keeps-if,
}
use wuros.Vga.{
  Vga, vga_cell, place, load_cell, store_cell, backspace, print, put_char, spaces, tab, vga_putc,
  vga_puts, vga_putc_at, vga_puts_at,
}
use wuros.Vga.At.{AnyBuf, AnyScreen, store_cell-ends, vga_putc_at-ends}

abbrev AnyCell : ℕ → Type 0
AnyCell c = Unit

load_cell-ends : (buf : List ℕ) (i : ℤ) → Keeps AnyCell (load_cell buf i)
unfolding load_cell
load_cell-ends buf (pos i) = Keeps-if AnyCell (ltb i (length buf)) _ (stop fault) tt tt
load_cell-ends buf (negsuc i) = tt

backspace-ends : (s : Vga) → Keeps AnyScreen (backspace s)
unfolding backspace
backspace-ends s =
    Keeps-bind AnyCell AnyScreen (load_cell s.buf (place s.pos_x s.pos_y)) _
      (load_cell-ends s.buf (place s.pos_x s.pos_y))
      (λ old u.
        Keeps-bind AnyBuf AnyScreen (store_cell s.buf (decr (place s.pos_x s.pos_y)) old) _
          (store_cell-ends s.buf (decr (place s.pos_x s.pos_y)) old)
          (λ buf u.
            Keeps-bind AnyBuf AnyScreen
              (store_cell buf (place s.pos_x s.pos_y) (vga_cell s.color_bg s.color_fg 0)) _
              (store_cell-ends buf (place s.pos_x s.pos_y) (vga_cell s.color_bg s.color_fg 0))
              (λ buf u. tt)))

print-ends : (s : Vga) (c : ℕ) → Keeps AnyScreen (print s c)
unfolding print
print-ends s c =
    Keeps-bind AnyBuf AnyScreen
      (store_cell s.buf (place s.pos_x s.pos_y) (vga_cell s.color_bg s.color_fg c)) _
      (store_cell-ends s.buf (place s.pos_x s.pos_y) (vga_cell s.color_bg s.color_fg c))
      (λ buf u. tt)

put_char-ends : (s : Vga) (c : ℕ) → Keeps AnyScreen (put_char s c)
unfolding put_char
put_char-ends s c =
    Keeps-if AnyScreen (c == 8) _ _
      (Keeps-if AnyScreen (eq_ℤ s.pos_y (pos 0) && eq_ℤ s.pos_x (pos 0)) (ok s) (backspace s) tt
        (backspace-ends s))
      (Keeps-if AnyScreen (c == 13) _ _ tt
        (Keeps-if AnyScreen (c == 10) _ (print s c) tt (print-ends s c)))

spaces-ends : (n : ℕ) (s : Vga) → Keeps AnyScreen (spaces n s)
unfolding spaces
spaces-ends zero s = tt
spaces-ends (suc n) s =
    Keeps-bind AnyScreen AnyScreen (put_char s 32) (spaces n) (put_char-ends s 32)
      (λ s' u. spaces-ends n s')

vga_putc-ends : (s : Vga) (c : ℕ) → Keeps AnyScreen (vga_putc s c)
unfolding vga_putc tab
vga_putc-ends s c =
    Keeps-if AnyScreen (c == 9) _ (put_char s c)
      (Keeps-bind AnyScreen AnyScreen
        (if not (lt_ℤ s.pos_x (pos 75)) then put_char s 10 else spaces 4 s) _
        (Keeps-if AnyScreen (not (lt_ℤ s.pos_x (pos 75))) (put_char s 10) (spaces 4 s)
          (put_char-ends s 10) (spaces-ends 4 s))
        (λ s' u. tt))
      (put_char-ends s c)

pub vga_puts-ends : (s : Vga) (text : List ℕ) → Keeps AnyScreen (vga_puts s text)
unfolding vga_puts
vga_puts-ends s [] = tt
vga_puts-ends s (c ∷ text) =
    Keeps-bind AnyScreen AnyScreen (vga_putc s c) _ (vga_putc-ends s c)
      (λ s' u. vga_puts-ends s' text)

pub vga_puts_at-ends :
    (text : List ℕ) (s : Vga) (x y : ℤ) (bg fg : ℕ) → Keeps AnyScreen (vga_puts_at s x y bg fg text)
unfolding vga_puts_at
vga_puts_at-ends [] s x y bg fg = tt
vga_puts_at-ends (c ∷ text) s x y bg fg =
    Keeps-bind AnyScreen AnyScreen (vga_putc_at s x y bg fg c) _ (vga_putc_at-ends s x y bg fg c)
      (λ s1 u. vga_puts_at-ends text _ _ _ bg fg)
