-- ===== src/Keyboard/Input.antt =====
-- src/keyboard.c: polling the keyboard, with the calls into the rest of the kernel that the decoder
-- makes, and the handler of its interrupt.
pub mod Invariant
use wuros.Prelude.{
  ℕ, zero, suc, ◌+◌, ◌-◌, ◌%◌, ℤ, pos, incr, decr, to_ℕ, ◌==◌, Bool, true, false, if◌then◌else◌,
  List, ltb, [], ◌∷◌, codes, none, some, Outcome, ok, stop, no_fuel, ◌>>=◌,
}
use wuros.Proc.{user}
use wuros.Kproc.{kproc_create, kproc_destroy}
use wuros.Tty.{tty_select, tty_input}
use wuros.BitUtil.{bit_test}
use wuros.Kernel.{Platform, Kernel}
use wuros.Kernel.Log.{kernel_set_log_level}
use wuros.Keyboard.{
  Call, no_call, lower_log_level, raise_log_level, create, destroy, select, keyboard_decode,
}

module _ (w : Platform) where
  -- The call of the decoder, whose result is not looked at
  pub call_out : Call → Kernel → Outcome Kernel
  call_out no_call k = ok k
  call_out lower_log_level k =
      ok (record k { log_level = kernel_set_log_level k.log_level (decr k.log_level) })
  call_out raise_log_level k =
      ok (record k { log_level = kernel_set_log_level k.log_level (incr k.log_level) })
  call_out (select n) k = do ttys ← tty_select k.ttys (pos n); ok (record k { ttys = ttys })
  call_out create k = do
    r ←
        kproc_create w.machine (to_ℕ k.timers.timer_ticks) w.stale k.procs w.test_proc
          (codes "test") user
    ok (record k { procs = r.1 })
  call_out destroy k = do
    r ← kproc_destroy k.procs k.procs.active_proc
    ok (record k { procs = r.1 })

  -- keyboard_decode on the code that keyboard_scan reads, and its call
  decode_scan : Kernel → Outcome (ℕ × Kernel)
  unfolding call_out
  decode_scan k = do
    r ← keyboard_decode k.keyboard k.kbd_data
    k' ← call_out r.1 (record k { keyboard = r.2 })
    ok (r.0, k')

  -- The status is a `char`: from 128 on its sign fills the other bits of the int.
  pub keyboard_poll : Kernel → Outcome (ℕ × Kernel)
  unfolding decode_scan
  keyboard_poll k = do
    ready ←
        bit_test (if ltb k.kbd_status 128 then k.kbd_status else 4294967040 + k.kbd_status) (pos 1)
    if ready == 0 then ok (0, k) else decode_scan k

  -- char c = keyboard_poll()
  pub keyboard_irq_handler : Kernel → Outcome Kernel
  unfolding keyboard_poll
  keyboard_irq_handler k = do
    r ← keyboard_poll k
    let c = r.0 % 256
    if c == 0 then ok r.1 else do ttys ← tty_input r.1.ttys c; ok (record r.1 { ttys = ttys })

  -- The loop of keyboard_getc, with what the two ports read on each round. It does not end where no
  -- round gives a character.
  pub keyboard_getc : List (ℕ × ℕ) → Kernel → Outcome (ℕ × Kernel)
  unfolding keyboard_poll
  keyboard_getc [] k = stop no_fuel
  keyboard_getc ((status, code) ∷ rest) k = do
    r ← keyboard_poll (record k { kbd_status = status; kbd_data = code })
    elim (r.0 == 0) [ true ↦ keyboard_getc rest r.1 | false ↦ ok r ]
