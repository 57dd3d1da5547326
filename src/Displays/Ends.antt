-- ===== src/Displays/Ends.antt =====
-- include/test.h: the displays come to their end, or are undefined behaviour.
use wuros.Prelude.{
  ℕ, zero, suc, ◌+◌, ◌-◌, ◌%◌, ℤ, pos, eq_ℤ, rem_ℤ, not, if◌then◌else◌, none, ok, stop, fault,
  get_elem?, lt_ℤ, Keeps, Keeps-bind, Keeps-if, Keeps-elim,
}
use wuros.Proc.{Procs, proc_at, proc_max, entry_to_proc}
use wuros.Tty.{Ttys, tty_get_active}
use wuros.Tty.Invariant.{AnyId, tty_get_active-ends}
use wuros.Screen.{screen_width, screen_height}
use wuros.Vga.{Vga, light_grey, vga_set_xy, vga_puts_at, vga_putc_at}
use wuros.Vga.At.{AnyScreen, vga_putc_at-ends}
use wuros.Vga.Ends.{vga_puts-ends, vga_puts_at-ends}
use wuros.Displays.{
  black, green, spin, heading, blank_line, proc_line, state_color, has_no_state, clear_row,
  clear_rows, list_proc, list_procs, test_spinner, test_timer, test_proc_list,
}

abbrev pub Anything : {A : Type 0} → A → Type 0
Anything a = Unit

pub test_spinner-ends : (count : ℕ) (v : Vga) → Keeps Anything (test_spinner count v)
unfolding test_spinner
test_spinner-ends count v =
    Keeps-bind AnyScreen Anything
      (vga_putc_at v (pos (screen_width - 1)) (pos 0) black green (spin (count % 4))) _
      (vga_putc_at-ends v (pos (screen_width - 1)) (pos 0) black green (spin (count % 4)))
      (λ v' u. tt)

pub test_timer-ends : (ticks : ℤ) (v : Vga) → Keeps AnyScreen (test_timer ticks v)
unfolding test_timer
test_timer-ends ticks v = vga_puts-ends (vga_set_xy v (pos 73) (pos 0)) _

clear_row-ends : (n c r : ℕ) (v : Vga) → Keeps AnyScreen (clear_row n c r v)
unfolding clear_row
clear_row-ends zero c r v = tt
clear_row-ends (suc n) c r v =
    Keeps-bind AnyScreen AnyScreen (vga_putc_at v (pos c) (pos r) black light_grey 32) _
      (vga_putc_at-ends v (pos c) (pos r) black light_grey 32)
      (λ v' u. clear_row-ends n (c + 1) r v')

clear_rows-ends : (n r : ℕ) (v : Vga) → Keeps AnyScreen (clear_rows n r v)
unfolding clear_rows
clear_rows-ends zero r v = tt
clear_rows-ends (suc n) r v =
    Keeps-bind AnyScreen AnyScreen (clear_row screen_width 0 r v) _
      (clear_row-ends screen_width 0 r v) (λ v' u. clear_rows-ends n (r + 1) v')

entry_to_proc-ends : (s : Procs) (i : ℕ) → Keeps Anything (entry_to_proc s (pos i))
unfolding entry_to_proc
entry_to_proc-ends s i =
    Keeps-if Anything (lt_ℤ (pos proc_max) (pos i)) (ok none) _ tt
      (Keeps-elim Anything (get_elem? s.proc_table i) (stop fault) _ tt (λ p e. tt))

list_proc-ends : (s : Procs) (i row fg : ℕ) (v : Vga) → Keeps Anything (list_proc s i row fg v)
unfolding list_proc
list_proc-ends s i row fg v =
    Keeps-bind Anything Anything (entry_to_proc s (pos i)) _ (entry_to_proc-ends s i) (λ found u.
      Keeps-elim Anything found (ok (row, fg, v)) _ tt (λ e h.
        let p = proc_at s e in
        Keeps-if Anything (has_no_state p.state) _ _
          (Keeps-bind AnyScreen Anything (vga_puts_at v (pos 0) (pos row) black fg blank_line) _
            (vga_puts_at-ends blank_line v (pos 0) (pos row) black fg) (λ v' u. tt))
          (Keeps-bind AnyScreen Anything
            (vga_puts_at v (pos 0) (pos row) black (state_color p.state) (proc_line i p)) _
            (vga_puts_at-ends (proc_line i p) v (pos 0) (pos row) black (state_color p.state))
            (λ v' u. tt))))

list_procs-ends :
    (n : ℕ) (s : Procs) (i row fg : ℕ) (v : Vga) → Keeps AnyScreen (list_procs n s i row fg v)
unfolding list_procs
list_procs-ends zero s i row fg v = tt
list_procs-ends (suc n) s i row fg v =
    Keeps-bind Anything AnyScreen (list_proc s i row fg v) _ (list_proc-ends s i row fg v)
      (λ r u. list_procs-ends n s (i + 1) r.0 r.1 r.2)

pub test_proc_list-ends :
    (s : Procs) (t : Ttys) (ticks : ℤ) (v : Vga) → Keeps AnyScreen (test_proc_list s t ticks v)
unfolding test_proc_list
test_proc_list-ends s t ticks v =
    Keeps-bind AnyId AnyScreen (tty_get_active t) _ (tty_get_active-ends t) (λ shown u.
      Keeps-if AnyScreen (not (eq_ℤ shown (pos 0))) (ok v) _ tt (
        Keeps-bind AnyScreen AnyScreen
          (if eq_ℤ (rem_ℤ ticks 100) (pos 0) then clear_rows (screen_height - 1) 1 v else ok v) _
          (Keeps-if AnyScreen (eq_ℤ (rem_ℤ ticks 100) (pos 0)) (clear_rows (screen_height - 1) 1 v)
            (ok v) (clear_rows-ends (screen_height - 1) 1 v) tt)
          (λ v1 u.
            Keeps-bind AnyScreen AnyScreen (vga_puts_at v1 (pos 0) (pos 0) black light_grey heading)
              _ (vga_puts_at-ends heading v1 (pos 0) (pos 0) black light_grey)
              (λ v2 u. list_procs-ends proc_max s 0 1 light_grey v2))))
