-- ===== src/Vga.antt =====
-- src/vga.c: the display in text mode. A write outside of the screen is treated as undefined behaviour.
-- What a port reads is an argument, and the bytes that are written to ports are a part of the state.
pub mod Cursor
pub mod Print
pub mod At
pub mod Ends
mod Examples
use wuros.Prelude.{
  ℕ, zero, suc, ◌+◌, ◌-◌, ◌*◌, ◌/◌, ◌%◌, ◌^◌, ℤ, pos, negsuc, to_ℕ, incr, decr, neg_ℕ, eq_ℤ, lt_ℤ,
  is_neg, ltb, ◌==◌, ◌&&◌, ◌||◌, not, Bool, if◌then◌else◌, List, [], ◌∷◌, ◌++◌, fill, Outcome, ok,
  stop, fault, ◌>>=◌, get_or, set, length,
}
use wuros.Screen.{screen_width, screen_height, screen_size, vga_char, load, store, scroll_rows}

-- VGA_COLOR_LIGHT_GREY, VGA_COLOR_WHITE
abbrev pub light_grey : ℕ
light_grey = 7

abbrev pub white : ℕ
white = 15

-- The globals of src/vga.c. The colours are set within their ranges only.
pub record Vga : Type 0 where
  pub buf : List ℕ
  pub pos_x : ℤ
  pub pos_y : ℤ
  pub color_bg : ℕ
  pub color_fg : ℕ
  pub cursor : ℕ
  pub scrolling_enabled : ℕ
  pub ports : List (ℕ × ℕ)

-- outportb
abbrev out : ℕ → ℕ → Vga → Vga
out port byte s = record s { ports = s.ports ++ (port, byte) ∷ [] }

-- VGA_PORT_ADDR, VGA_PORT_DATA
abbrev addr_port : ℕ
addr_port = 980

abbrev data_port : ℕ
data_port = 981

-- VGA_CHAR stored in an unsigned short
unfoldable pub vga_cell : ℕ → ℕ → ℕ → ℕ
unfolding vga_char
vga_cell bg fg c = vga_char bg fg c % 2 ^ 16

-- a - b
abbrev pub minus : ℕ → ℕ → ℤ
minus a b = if ltb a b then neg_ℕ (b - a) else pos (a - b)

-- VGA_WIDTH * y + x
pub place : ℤ → ℤ → ℤ
place (pos x) (pos y) = pos (screen_width * y + x)
place (negsuc x) (pos y) = minus (screen_width * y) (x + 1)
place (pos x) (negsuc y) = minus x (screen_width * (y + 1))
place (negsuc x) (negsuc y) = negsuc (screen_width * (y + 1) + x)

-- The cells of the screen memory
load_cell : List ℕ → ℤ → Outcome ℕ
load_cell buf (pos i) = load buf i
load_cell buf (negsuc i) = stop fault

pub store_cell : List ℕ → ℤ → ℕ → Outcome (List ℕ)
store_cell buf (pos i) v = store buf i v
store_cell buf (negsuc i) v = stop fault

-- The position as an unsigned short
word : ℤ → ℕ
word (pos n) = n % 2 ^ 16
word (negsuc n) = 2 ^ 16 - 1 - n % 2 ^ 16

pub vga_cursor_update : Vga → Vga
unfolding word place
vga_cursor_update s =
    if s.cursor == 0
    then s
    else let at = word (place s.pos_x s.pos_y) in
      out data_port (at / 256) (out addr_port 14 (out data_port (at % 256) (out addr_port 15 s)))

-- `r1` and `r2` are what the two inportb return.
pub vga_cursor_enable : ℕ → ℕ → Vga → Vga
vga_cursor_enable r1 r2 s =
    let s' = record s { cursor = 0 } in
    out data_port (r2 % 256 / 32 * 32 + 15)
      (out addr_port 11 (out data_port (r1 % 256 / 64 * 64 + 14) (out addr_port 10 s')))

pub vga_cursor_disable : Vga → Vga
vga_cursor_disable s = out data_port 32 (out addr_port 10 (record s { cursor = 0 }))

pub vga_scrolling_enable : Vga → Vga
vga_scrolling_enable s = record s { scrolling_enabled = 1 }

pub vga_scrolling_disable : Vga → Vga
vga_scrolling_disable s = record s { scrolling_enabled = 0 }

-- The new coordinate, where `bound` is the greatest one. The first test holds for every number.
corrected : ℤ → ℕ → ℤ
corrected x bound =
    if not (is_neg x) || not (lt_ℤ (pos bound) x) then x else if is_neg x then pos 0 else pos bound

pub vga_set_xy : Vga → ℤ → ℤ → Vga
unfolding corrected vga_cursor_update
vga_set_xy s x y =
    vga_cursor_update
      (record s { pos_x = corrected x (screen_width - 1); pos_y = corrected y (screen_height - 1) })

pub vga_clear : Vga → Vga
unfolding vga_set_xy vga_cell
vga_clear s =
    vga_set_xy (record s { buf = fill screen_size 0 (vga_cell s.color_bg s.color_fg 0) s.buf })
      (pos 0) (pos 0)

pub vga_init : Vga → Vga
unfolding vga_cursor_disable vga_scrolling_disable vga_clear
vga_init s = vga_clear (
    vga_scrolling_disable (
      vga_cursor_disable (record s {
        pos_x = pos 0;
        pos_y = pos 0;
        color_bg = 0;
        color_fg = light_grey;
        scrolling_enabled = 0;
      })))

pub vga_set_bg : Vga → ℤ → Vga
vga_set_bg s bg =
    if not (is_neg bg) && not (lt_ℤ (pos light_grey) bg) then record s { color_bg = to_ℕ bg } else s

pub vga_set_fg : Vga → ℤ → Vga
vga_set_fg s fg =
    if not (is_neg fg) && not (lt_ℤ (pos white) fg) then record s { color_fg = to_ℕ fg } else s

unfoldable pub scroll_up : Vga → Vga
unfolding vga_cell
scroll_up s =
    if s.scrolling_enabled == 1
    then record s { buf = scroll_rows (vga_cell s.color_bg s.color_fg 0) s.buf }
    else s

pub vga_setc : Vga → ℕ → Outcome Vga
unfolding place store_cell vga_cell vga_cursor_update
vga_setc s c = do
  buf ← store_cell s.buf (place s.pos_x s.pos_y) (vga_cell s.color_bg s.color_fg c)
  ok (vga_cursor_update (record s { buf = buf }))

-- The next row, or the last one after scrolling, from its start
pub next_row : Vga → Vga
unfolding scroll_up
next_row s =
    let s' =
      if eq_ℤ s.pos_y (pos (screen_height - 1))
      then scroll_up s
      else record s { pos_y = incr s.pos_y } in
    record s' { pos_x = pos 0 }

-- The branch of vga_putc for the backspace, behind the test of the position
backspace : Vga → Outcome Vga
unfolding place load_cell store_cell vga_cell vga_cursor_update
backspace s = do
  v ← load_cell s.buf (place s.pos_x s.pos_y)
  buf1 ← store_cell s.buf (decr (place s.pos_x s.pos_y)) v
  buf2 ← store_cell buf1 (place s.pos_x s.pos_y) (vga_cell s.color_bg s.color_fg 0)
  let s' = record s { buf = buf2 }
  ok (
      vga_cursor_update (
        if eq_ℤ s'.pos_x (pos 0)
        then record s' { pos_y = decr s'.pos_y; pos_x = pos (screen_width - 1) }
        else record s' { pos_x = decr s'.pos_x }))

-- The branch of vga_putc for a character that is printed
print : Vga → ℕ → Outcome Vga
unfolding place store_cell vga_cell vga_cursor_update next_row
print s c = do
  buf ← store_cell s.buf (place s.pos_x s.pos_y) (vga_cell s.color_bg s.color_fg c)
  let s' = record s { buf = buf; pos_x = incr s.pos_x }
  ok (vga_cursor_update (if eq_ℤ s'.pos_x (pos screen_width) then next_row s' else s'))

-- vga_putc for a character that is not a tab
put_char : Vga → ℕ → Outcome Vga
unfolding backspace print next_row vga_cursor_update
put_char s c =
    if c == 8
    then if eq_ℤ s.pos_y (pos 0) && eq_ℤ s.pos_x (pos 0) then ok s else backspace s
    else if c == 13
    then ok (vga_cursor_update (record s { pos_x = pos 0 }))
    else if c == 10
    then ok (vga_cursor_update (next_row s))
    else print s c

spaces : ℕ → Vga → Outcome Vga
unfolding put_char
spaces zero s = ok s
spaces (suc n) s = put_char s 32 >>= spaces n

-- The branch of vga_putc for the tabulator
tab : Vga → Outcome Vga
unfolding put_char spaces vga_cursor_update
tab s = do
  s' ← if not (lt_ℤ s.pos_x (pos 75)) then put_char s 10 else spaces 4 s
  ok (vga_cursor_update s')

pub vga_putc : Vga → ℕ → Outcome Vga
unfolding put_char tab
vga_putc s c = if c == 9 then tab s else put_char s c

-- `text` is without the closing NUL.
pub vga_puts : Vga → List ℕ → Outcome Vga
unfolding vga_putc
vga_puts s [] = ok s
vga_puts s (c ∷ text) = vga_putc s c >>= λ s'. vga_puts s' text

pub vga_putc_at : Vga → ℤ → ℤ → ℕ → ℕ → ℕ → Outcome Vga
unfolding place store_cell vga_cell vga_cursor_update
vga_putc_at s x y bg fg c = do
  buf ← store_cell s.buf (place x y) (vga_cell bg fg c)
  ok (vga_cursor_update (record s { buf = buf }))

-- The loop of vga_puts_at
pub vga_puts_at : Vga → ℤ → ℤ → ℕ → ℕ → List ℕ → Outcome Vga
unfolding vga_putc_at scroll_up
vga_puts_at s x y bg fg [] = ok s
vga_puts_at s x y bg fg (c ∷ text) = do
  s1 ← vga_putc_at s x y bg fg c
  let wraps = not (lt_ℤ (incr x) (pos screen_width))
  let x1 = if wraps then pos 0 else incr x
  let y1 = if wraps then incr y else y
  let below = not (lt_ℤ y1 (pos screen_height))
  vga_puts_at (if below then scroll_up s1 else s1) x1 (if below then decr y1 else y1) bg fg text
