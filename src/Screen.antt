-- ===== src/Screen.antt =====
-- include/vga.h: the screen cells, and the loops over them that src/tty.c and src/vga.c have in
-- common.
pub mod Scroll
mod Examples
use wuros.Prelude.{
  ℕ, zero, suc, ◌+◌, ◌-◌, ◌*◌, ◌%◌, ◌^◌, ltb, if◌then◌else◌, List, length, get_or, set, fill,
  Outcome, ok, stop, fault,
}

-- VGA_WIDTH and TTY_WIDTH, VGA_HEIGHT and TTY_HEIGHT
abbrev pub screen_width : ℕ
screen_width = 80

abbrev pub screen_height : ℕ
screen_height = 25

-- VGA_WIDTH * VGA_HEIGHT and TTY_BUF_SIZE, without lines to scroll back
abbrev pub screen_size : ℕ
screen_size = 2000

-- VGA_ATTR
unfoldable pub vga_attr : ℕ → ℕ → ℕ
vga_attr bg fg = (bg % 16) * 16 + fg % 16

-- VGA_CHAR for a character of 8 bits; `char` is signed, so from 128 on its sign fills the other
-- bits of the int.
unfoldable pub vga_char : ℕ → ℕ → ℕ → ℕ
unfolding vga_attr
vga_char bg fg c = if ltb c 128 then vga_attr bg fg * 256 + c else 2 ^ 32 - 256 + c

-- buf[i] and buf[i] = v
abbrev pub load : List ℕ → ℕ → Outcome ℕ
load buf i = if ltb i (length buf) then ok (get_or buf i 0) else stop fault

abbrev pub store : List ℕ → ℕ → ℕ → Outcome (List ℕ)
store buf i v = if ltb i (length buf) then ok (set buf i v) else stop fault

-- The loop that copies `n` cells, from `i` on, one row up and blanks them.
pub move_up : ℕ → ℕ → ℕ → List ℕ → List ℕ
move_up zero i blank buf = buf
move_up (suc n) i blank buf =
    move_up n (i + 1) blank (set (set buf (i - screen_width) (get_or buf i 0)) i blank)

-- The two loops of scroll_up and of tty_scroll_up, where scrolling is enabled
unfoldable pub scroll_rows : ℕ → List ℕ → List ℕ
unfolding move_up
scroll_rows blank buf =
    move_up (screen_size - screen_width) screen_width blank (fill screen_width 0 blank buf)
