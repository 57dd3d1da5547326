-- ===== src/Tty.antt =====
-- include/tty.h and src/tty.c: the virtual terminals. The log messages are left out. tty_refresh is in
-- Draw.
pub mod Cursor
pub mod Output
pub mod Select
pub mod Start
pub mod Draw
pub mod Invariant
pub mod Shown
pub mod Refresh
mod Examples
use wuros.Prelude.{
  ℕ, zero, suc, ◌+◌, ◌-◌, ◌*◌, ◌%◌, ℤ, pos, minus_one, eq_ℤ, lt_ℤ, is_neg, ltb, leb, ◌==◌, ◌&&◌,
  ◌||◌, not, Bool, true, false, if◌then◌else◌, List, [], ◌∷◌, Option, none, some, get_or, get_elem?,
  set, replicate, Outcome, ok, stop, fault, no_fuel, panic, ◌>>=◌, fill,
}
use wuros.Ringbuf.{
  Ringbuf, ringbuf_size, ringbuf_init, ringbuf_write, ringbuf_read, ringbuf_is_empty, ringbuf_flush,
}
use wuros.Screen.{screen_width, screen_height, screen_size, vga_char, load, store, scroll_rows}

-- TTY_MAX
abbrev pub tty_max : ℕ
tty_max = 10

-- VGA_COLOR_BLACK, VGA_COLOR_LIGHT_GREY
abbrev pub black : ℕ
black = 0

abbrev pub light_grey : ℕ
light_grey = 7

-- `tty_t`. The positions start at 0 and go down only from above 0.
pub record Tty : Type 0 where
  pub id : ℤ
  pub buf : List ℕ
  pub refresh : ℕ
  pub color_bg : ℕ
  pub color_fg : ℕ
  pub pos_x : ℕ
  pub pos_y : ℕ
  pub pos_scroll : ℕ
  pub echo : ℕ
  pub io_input : Ringbuf
  pub io_output : Ringbuf

-- The globals of src/tty.c. A pointer into the table is an index.
pub record Ttys : Type 0 where
  pub tty_table : List Tty
  pub active_tty : Option ℕ

-- VGA_CHAR with the colours of the terminal, stored in a `char`
unfoldable pub cell : Tty → ℕ → ℕ
unfolding vga_char
cell t c = vga_char t.color_bg t.color_fg c % 256

pub tty_get : ℤ → Option ℕ
tty_get (pos n) = if leb tty_max n then none else some n
tty_get n = none

id_of : Ttys → ℕ → Outcome ℤ
id_of s n = elim (get_elem? s.tty_table n) [ none ↦ stop fault | some t ↦ ok t.id ]

pub tty_get_active : Ttys → Outcome ℤ
unfolding id_of
tty_get_active s = elim s.active_tty [ none ↦ ok minus_one | some n ↦ id_of s n ]

unfoldable pub tty_scroll_up : Tty → Tty
unfolding cell
tty_scroll_up t = record t { buf = scroll_rows (cell t 0) t.buf }

-- The next row, or the last one after scrolling, from its start
next_row : Tty → Tty
unfolding tty_scroll_up
next_row t =
    let t' =
      if t.pos_y == (screen_height - 1)
      then tty_scroll_up t
      else record t { pos_y = t.pos_y + 1 } in
    record t' { pos_x = 0 }

-- The branch of tty_update for the backspace, behind the test of the position
backspace : Tty → ℕ → Outcome Tty
unfolding cell
backspace t place = do
  v ← load t.buf place
  buf1 ← store t.buf (place - 1) v
  buf2 ← store buf1 place (cell t 0)
  let t' = record t { buf = buf2 }
  ok (
      if t'.pos_x == 0
      then record t' { pos_y = t'.pos_y - 1; pos_x = screen_width - 1 }
      else record t' { pos_x = t'.pos_x - 1 })

-- The branch of tty_update for a character that is printed
print : Tty → ℕ → ℕ → Outcome Tty
unfolding next_row cell
print t place c = do
  buf ← store t.buf place (cell t c)
  let t' = record t { buf = buf; pos_x = t.pos_x + 1 }
  ok (if t'.pos_x == screen_width then next_row t' else t')

-- tty_update for a character that is not a tab
put_char : Tty → ℕ → Outcome Tty
unfolding backspace print
put_char t0 c =
    let t = record t0 { refresh = 1 } in
    let place = screen_width * t.pos_y + t.pos_x in
    if c == 8
    then if (t.pos_y == 0) && (t.pos_x == 0) then ok t else backspace t place
    else if c == 13
    then ok (record t { pos_x = 0 })
    else if c == 10
    then ok (next_row t)
    else print t place c

-- The loop of tty_update for a tab
spaces : ℕ → Tty → Outcome Tty
unfolding put_char
spaces zero t = ok t
spaces (suc n) t = put_char t 32 >>= spaces n

-- tty_update on a terminal. Its calls of itself for a tab have other characters.
pub update : Tty → ℕ → Outcome Tty
unfolding put_char spaces
update t0 c =
    let t = record t0 { refresh = 1 } in
    if c == 9 then if leb 75 t.pos_x then put_char t 10 else spaces 4 t else put_char t c

-- The active terminal after `f`
on_active : (Tty → Outcome Tty) → Ttys → ℕ → Outcome Ttys
on_active f s n = elim (get_elem? s.tty_table n) [
  | none ↦ stop fault
  | some t ↦ do t' ← f t; ok (record s { tty_table = set s.tty_table n t' })
]

pub tty_update : Ttys → ℕ → Outcome Ttys
unfolding update on_active
tty_update s c = elim s.active_tty [ none ↦ ok s | some n ↦ on_active (λ t. update t c) s n ]

-- What `r` stored, or the buffer as it was
kept : Ringbuf → Option Ringbuf → Ringbuf
kept b none = b
kept b (some b') = b'

take_input : ℕ → Tty → Tty
unfolding kept
take_input c t0 =
    let t = record t0 { io_input = kept t0.io_input (ringbuf_write t0.io_input c) } in
    if t.echo == 1
    then record t { io_output = kept t.io_output (ringbuf_write t.io_output c) }
    else t

-- Without an active terminal the code goes on and writes through the null pointer.
pub tty_input : Ttys → ℕ → Outcome Ttys
unfolding take_input on_active
tty_input s c = elim s.active_tty [
  | none ↦ stop fault
  | some n ↦ on_active (λ t. ok (take_input c t)) s n
]

-- The entry `n` becomes the active one. Behind the table the write is undefined behaviour.
select : Ttys → ℤ → Outcome Ttys
unfolding on_active
select s (pos n) = do
  s' ← on_active (λ t. ok (record t { refresh = 1 })) s n
  ok (record s' { active_tty = some n })
select s n = stop fault

select_other : Ttys → ℤ → Option ℕ → Outcome Ttys
unfolding select tty_get_active
select_other s n none = select s n
select_other s n (some a) = do id ← tty_get_active s; if eq_ℤ id n then ok s else select s n

-- A number out of range is only logged.
pub tty_select : Ttys → ℤ → Outcome Ttys
unfolding select_other
tty_select s n = select_other s n s.active_tty

-- The loop of tty_refresh over the output buffer
pub drain : ℕ → Tty → Outcome Tty
unfolding update
drain zero t = if ringbuf_is_empty t.io_output then ok t else stop no_fuel
drain (suc fuel) t = elim (ringbuf_is_empty t.io_output) [
  | true ↦ ok t
  | false ↦ elim (ringbuf_read t.io_output) [
    | none ↦ drain fuel t
    | some (c, b) ↦ update (record t { io_output = b }) c >>= drain fuel
  ]
]

clear_tty : ℕ → Tty → Tty
clear_tty i t = record {
  id = pos i;
  buf = fill screen_size 0 0 t.buf;
  refresh = 0;
  color_bg = black;
  color_fg = light_grey;
  pos_x = 0;
  pos_y = 0;
  pos_scroll = 0;
  echo = 0;
  io_input = ringbuf_init t.io_input;
  io_output = ringbuf_init t.io_output;
}

clear_ttys : ℕ → List Tty → List Tty
clear_ttys i [] = []
clear_ttys i (t ∷ ts) = clear_tty i t ∷ clear_ttys (i + 1) ts

-- tty_init, before it registers tty_refresh with the timer
pub tty_init : Ttys → Outcome Ttys
tty_init s = tty_select (record s { tty_table = clear_ttys 0 s.tty_table }) (pos 0)
