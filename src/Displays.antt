-- ===== src/Displays.antt =====
-- include/test.h: the displays over the screen that the kernel draws from callbacks of the timer: a
-- spinner, the seconds since the start and the list of the processes. What snprintf writes is a list of
-- characters, cut where the buffer ends.
pub mod Ends
mod Examples
use wuros.Prelude.{
  ℕ, zero, suc, ◌+◌, ◌-◌, ◌*◌, ◌/◌, ◌%◌, ◌==◌, ltb, ℤ, pos, negsuc, neg_ℕ, eq_ℤ, rem_ℤ, Bool, true,
  false, not, if◌then◌else◌, List, [], ◌∷◌, ◌++◌, length, take, replicate, codes, none, some,
  Outcome, ok, ◌>>=◌,
}
use wuros.Proc.{
  Procs, Proc, ProcState, no_state, idle, active, sleeping, waiting, proc_max, proc_at,
  entry_to_proc,
}
use wuros.Tty.{Ttys, tty_get_active}
use wuros.Screen.{screen_width, screen_height, screen_size}
use wuros.Vga.{Vga, light_grey, white, vga_set_xy, vga_puts, vga_putc_at, vga_puts_at}

-- VGA_COLOR_BLACK, VGA_COLOR_GREEN, VGA_COLOR_BROWN, VGA_COLOR_DARK_GREY, VGA_COLOR_YELLOW
abbrev black : ℕ
black = 0

abbrev green : ℕ
green = 2

abbrev brown : ℕ
brown = 6

abbrev dark_grey : ℕ
dark_grey = 8

abbrev yellow : ℕ
yellow = 14

-- The decimal digits of a number below 10 ^ fuel, and of any number
digits : ℕ → ℕ → List ℕ
digits zero n = []
digits (suc fuel) n = elim (ltb n 10) [
  | true ↦ (48 + n) ∷ []
  | false ↦ digits fuel (n / 10) ++ (48 + n % 10) ∷ []
]

decimal : ℕ → List ℕ
unfolding digits
decimal n = digits (suc n) n

-- What %d writes
signed_decimal : ℤ → List ℕ
unfolding decimal
signed_decimal (pos n) = decimal n
signed_decimal (negsuc n) = 45 ∷ decimal (suc n)

-- The field width of a conversion
abbrev padded : ℕ → List ℕ → List ℕ
padded width text = replicate (width - length text) 32 ++ text

-- %5d and the like
number_field : ℕ → ℤ → List ℕ
unfolding signed_decimal
number_field width n = padded width (signed_decimal n)

-- a / 100, rounded toward 0
hundredth : ℤ → ℤ
hundredth (pos n) = pos (n / 100)
hundredth (negsuc n) = neg_ℕ (suc n / 100)

-- spin[i]
spin : ℕ → ℕ
spin i = if i == 0 then 124 else if i == 1 then 47 else if i == 2 then 45 else 92

-- `count` is the static variable of the function.
pub test_spinner : ℕ → Vga → Outcome (ℕ × Vga)
unfolding spin
test_spinner count v = do
  v' ← vga_putc_at v (pos (screen_width - 1)) (pos 0) black green (spin (count % 4))
  ok (count + 1, v')

-- `ticks` is the result of timer_get_ticks.
pub test_timer : ℤ → Vga → Outcome Vga
unfolding number_field hundredth
test_timer ticks v =
    vga_puts (vga_set_xy v (pos 73) (pos 0))
      (take (screen_size - 1) (number_field 5 (hundredth ticks)))

-- The loop over the columns of the row `r`, and the loop over the rows
clear_row : ℕ → ℕ → ℕ → Vga → Outcome Vga
clear_row zero c r v = ok v
clear_row (suc n) c r v = do
  v' ← vga_putc_at v (pos c) (pos r) black light_grey 32
  clear_row n (c + 1) r v'

clear_rows : ℕ → ℕ → Vga → Outcome Vga
unfolding clear_row
clear_rows zero r v = ok v
clear_rows (suc n) r v = do v' ← clear_row screen_width 0 r v; clear_rows n (r + 1) v'

-- The letter of a state and its colour
state_letter : ProcState → ℕ
state_letter idle = 73
state_letter active = 65
state_letter sleeping = 83
state_letter waiting = 87
state_letter no_state = 63

state_color : ProcState → ℕ
state_color idle = white
state_color active = green
state_color sleeping = yellow
state_color waiting = brown
state_color no_state = dark_grey

-- snprintf into a buffer of VGA_WIDTH characters
abbrev cut : List ℕ → List ℕ
cut text = take (screen_width - 1) text

heading : List ℕ
heading = cut (codes "Entry    PID   State    Time     CPU    Name")

-- "%*s" of a space
blank_line : List ℕ
blank_line = cut (padded screen_width (32 ∷ []))

-- "%5d  %5d  %4c  %8d  %6d    %s"
proc_line : ℕ → Proc → List ℕ
unfolding number_field state_letter
proc_line i p = cut (
    number_field 5 (pos i)
    ++ codes "  "
    ++ number_field 5 p.pid
    ++ codes "  "
    ++ padded 4 (state_letter p.state ∷ [])
    ++ codes "  "
    ++ number_field 8 p.run_time
    ++ codes "  "
    ++ number_field 6 p.cpu_time
    ++ codes "    "
    ++ p.name)

has_no_state : ProcState → Bool
has_no_state no_state = true
has_no_state state = false

-- A round of the loop: the row and the colour for the next one, and the display. An entry that
-- entry_to_proc finds and that has no state blanks the row, which is used again.
list_proc : Procs → ℕ → ℕ → ℕ → Vga → Outcome (ℕ × ℕ × Vga)
unfolding blank_line proc_line state_color has_no_state
list_proc s i row fg v = entry_to_proc s (pos i) >>= λ found. elim found [
  | none ↦ ok (row, fg, v)
  | some e ↦
      let p = proc_at s e in
      if has_no_state p.state
      then (vga_puts_at v (pos 0) (pos row) black fg blank_line >>= λ v'. ok (row, fg, v'))
      else (vga_puts_at v (pos 0) (pos row) black (state_color p.state) (proc_line i p) >>= λ v'.
          ok (row + 1, state_color p.state, v'))
]

-- The rounds from the entry `i` on
list_procs : ℕ → Procs → ℕ → ℕ → ℕ → Vga → Outcome Vga
unfolding list_proc
list_procs zero s i row fg v = ok v
list_procs (suc n) s i row fg v = do r ← list_proc s i row fg v; list_procs n s (i + 1) r.0 r.1 r.2

pub test_proc_list : Procs → Ttys → ℤ → Vga → Outcome Vga
unfolding clear_rows list_procs heading
test_proc_list s t ticks v = do
  shown ← tty_get_active t
  if not (eq_ℤ shown (pos 0)) then ok v else do
    v1 ← if eq_ℤ (rem_ℤ ticks 100) (pos 0) then clear_rows (screen_height - 1) 1 v else ok v
    v2 ← vga_puts_at v1 (pos 0) (pos 0) black light_grey heading
    list_procs proc_max s 0 1 light_grey v2
