-- ===== src/Keyboard/Input/Invariant.antt =====
-- src/keyboard.c: the handler of the keyboard keeps the processes well formed and the terminals usable.
use wuros.Prelude.{
  ℕ, ◌+◌, ◌%◌, ℤ, pos, to_ℕ, ltb, ◌==◌, if◌then◌else◌, codes, ok, stop, fault, exited, Keeps,
  Keeps-bind, Keeps-if, zero, suc, negsuc,
}
use wuros.Proc.{user}
use wuros.Kproc.{kproc_create, kproc_destroy}
use wuros.Kproc.Invariant.{WithProcs, kproc_create-IsWellFormed, kproc_destroy-IsWellFormed}
use wuros.Tty.{tty_select, tty_input}
use wuros.Tty.Invariant.{TtysUsable, tty_select-Keeps, tty_input-Keeps}
use wuros.BitUtil.{bit_test, shift_of}
use wuros.Kernel.{Platform, Kernel}
use wuros.Ksyscall.Calls.Invariant.{KernelSound}
use wuros.Keyboard.{
  Keyboard, Call, no_call, lower_log_level, raise_log_level, create, destroy, select, find_key,
  apply_key, count_esc, keyboard_decode,
}
use wuros.Keyboard.Keys.{keys}
use wuros.Keyboard.Input.{call_out, decode_scan, keyboard_poll, keyboard_irq_handler}

abbrev AnyState : Keyboard → Type 0
AnyState k = Unit

abbrev AnyDecoded : ℕ × Call × Keyboard → Type 0
AnyDecoded r = Unit

abbrev AnyBit : ℕ → Type 0
AnyBit b = Unit

abbrev WithChar : ℕ × Kernel → Type 0
WithChar r = KernelSound r.1

count_esc-ends : (c d : ℕ) (k : Keyboard) → Keeps AnyState (count_esc c d k)
unfolding count_esc
count_esc-ends c d k =
    Keeps-if AnyState (d == 27) _ _
      (Keeps-if AnyState ((k.esc_counter + 1) == 3) (stop exited)
        (ok (record k { esc_counter = k.esc_counter + 1 })) tt tt)
      (Keeps-if AnyState (c == 129) (ok k) (ok (record k { esc_counter = 0 })) tt tt)

decode-ends : (k : Keyboard) (c : ℕ) → Keeps AnyDecoded (keyboard_decode k c)
unfolding keyboard_decode
decode-ends k c =
    let r = apply_key (find_key keys c) k in
    Keeps-bind AnyState AnyDecoded (count_esc c r.0 r.1) _ (count_esc-ends c r.0 r.1) (λ k' u. tt)

shift_of-ends : (n : ℤ) → Keeps AnyBit (shift_of n)
unfolding shift_of
shift_of-ends (pos zero) = tt
shift_of-ends (pos (suc n)) = Keeps-if AnyBit (ltb n 32) (ok n) (stop fault) tt tt
shift_of-ends (negsuc n) = tt

bit_test-ends : (v : ℕ) (n : ℤ) → Keeps AnyBit (bit_test v n)
unfolding bit_test
bit_test-ends v n = Keeps-bind AnyBit AnyBit (shift_of n) _ (shift_of-ends n) (λ m u. tt)

module _ (w : Platform) where
  call_out-Keeps : (c : Call) (k : Kernel) → KernelSound k → Keeps KernelSound (call_out w c k)
  unfolding call_out
  call_out-Keeps no_call k s = s
  call_out-Keeps lower_log_level k s = s
  call_out-Keeps raise_log_level k s = s
  call_out-Keeps (select n) k s =
      Keeps-bind TtysUsable KernelSound (tty_select k.ttys (pos n)) _
        (tty_select-Keeps k.ttys (pos n) s.1) (λ ttys all. (s.0, all))
  call_out-Keeps create k s =
      Keeps-bind WithProcs KernelSound
        (kproc_create w.machine (to_ℕ k.timers.timer_ticks) w.stale k.procs w.test_proc
          (codes "test") user)
        _
        (kproc_create-IsWellFormed w.machine (to_ℕ k.timers.timer_ticks) w.stale k.procs w.test_proc
          (codes "test") user s.0)
        (λ r wr. (wr, s.1))
  call_out-Keeps destroy k s =
      Keeps-bind WithProcs KernelSound (kproc_destroy k.procs k.procs.active_proc) _
        (kproc_destroy-IsWellFormed k.procs k.procs.active_proc s.0) (λ r wr. (wr, s.1))

  decode_scan-Keeps : (k : Kernel) → KernelSound k → Keeps WithChar (decode_scan w k)
  unfolding decode_scan
  decode_scan-Keeps k s =
      Keeps-bind AnyDecoded WithChar (keyboard_decode k.keyboard k.kbd_data) _
        (decode-ends k.keyboard k.kbd_data)
        (λ r u.
          Keeps-bind KernelSound WithChar (call_out w r.1 (record k { keyboard = r.2 })) _
            (call_out-Keeps r.1 (record k { keyboard = r.2 }) s) (λ k' s'. s'))

  poll-Keeps : (k : Kernel) → KernelSound k → Keeps WithChar (keyboard_poll w k)
  unfolding keyboard_poll
  poll-Keeps k s =
      let status = if ltb k.kbd_status 128 then k.kbd_status else 4294967040 + k.kbd_status in
      Keeps-bind AnyBit WithChar (bit_test status (pos 1)) _ (bit_test-ends status (pos 1))
        (λ ready u.
          Keeps-if WithChar (ready == 0) (ok (0, k)) (decode_scan w k) s (decode_scan-Keeps k s))

  pub keyboard_irq_handler-Keeps :
      (k : Kernel) → KernelSound k → Keeps KernelSound (keyboard_irq_handler w k)
  unfolding keyboard_irq_handler
  keyboard_irq_handler-Keeps k s =
      Keeps-bind WithChar KernelSound (keyboard_poll w k) _ (poll-Keeps k s) (λ r sr.
        Keeps-if KernelSound ((r.0 % 256) == 0) (ok r.1) _ sr (
          Keeps-bind TtysUsable KernelSound (tty_input r.1.ttys (r.0 % 256)) _
            (tty_input-Keeps r.1.ttys (r.0 % 256) sr.1) (λ ttys all. (sr.0, all))))
