-- ===== src/Kernel/Invariant.antt =====
-- src/kernel.c: what every entry of the kernel keeps, whatever the interrupt is.
use wuros.Prelude.{
  ℕ, ◌≡◌, refl, ap, ◌∙◌, ◌==◌, Option, some, stop, panic, fault, Keeps, Keeps-bind, Keeps-of_Ends,
  Keeps-if, Keeps-elim, holds-elim, sym,
}
use wuros.Proc.{Procs, Trapframe, active, proc_at}
use wuros.Proc.Valid.{IsWellFormed, put_proc-IsWellFormed}
use wuros.Scheduler.{scheduler_timer, scheduler_run}
use wuros.Scheduler.Run.{IsRunning, scheduler_run-IsRunning}
use wuros.Scheduler.Wake.{scheduler_timer-Ends}
use wuros.Tty.Draw.{tty_refresh}
use wuros.Tty.Invariant.{AllUsable, WithTtys, tty_refresh-Keeps}
use wuros.Vga.At.{AnyScreen}
use wuros.Displays.{test_spinner, test_timer, test_proc_list}
use wuros.Displays.Ends.{Anything, test_spinner-ends, test_timer-ends, test_proc_list-ends}
use wuros.Timer.{timer_irq_handler}
use wuros.Timer.Invariant.{timer_irq_handler-Keeps}
use wuros.Keyboard.Input.{keyboard_irq_handler}
use wuros.Keyboard.Input.Invariant.{keyboard_irq_handler-Keeps}
use wuros.Ksyscall.Calls.Invariant.{KernelSound}
use wuros.Ksyscall.Dispatch.{int_of_word, ksyscall_irq_handler}
use wuros.Ksyscall.Dispatch.Invariant.{ksyscall_irq_handler-Keeps}
use wuros.Interrupts.{interrupts_irq_handler}
use wuros.Interrupts.Invariant.{interrupts_irq_handler-Keeps}
use wuros.Kernel.{Platform, Kernel}
use wuros.Kernel.Enter.{
  scheduler_timer_address, tty_refresh_address, timer_irq_handler_address,
  keyboard_irq_handler_address, ksyscall_irq_handler_address, test_spinner_address,
  test_timer_address, test_proc_list_address, ticked, run_callback, timer_handler, run_handler,
  save_frame, leave, kernel_context_enter,
}

run_callback-Keeps : (f : ℕ) (k : Kernel) → KernelSound k → Keeps KernelSound (run_callback f k)
unfolding run_callback
run_callback-Keeps f k s =
    Keeps-if KernelSound (f == scheduler_timer_address) _ _
      (Keeps-bind IsWellFormed KernelSound (scheduler_timer k.procs) _
        (Keeps-of_Ends IsWellFormed _ (scheduler_timer-Ends k.procs s.0)) (λ procs w. (w, s.1)))
      (Keeps-if KernelSound (f == tty_refresh_address) _ _
        (Keeps-bind WithTtys KernelSound (tty_refresh k.ttys k.screen) _
          (tty_refresh-Keeps k.ttys k.screen s.1) (λ r all. (s.0, all)))
        (Keeps-if KernelSound (f == test_spinner_address) _ _
          (Keeps-bind Anything KernelSound (test_spinner k.spin_count k.screen) _
            (test_spinner-ends k.spin_count k.screen) (λ r u. s))
          (Keeps-if KernelSound (f == test_timer_address) _ _
            (Keeps-bind AnyScreen KernelSound (test_timer k.timers.timer_ticks k.screen) _
              (test_timer-ends k.timers.timer_ticks k.screen) (λ v u. s))
            (Keeps-if KernelSound (f == test_proc_list_address) _ (stop fault)
              (Keeps-bind AnyScreen KernelSound
                (test_proc_list k.procs k.ttys k.timers.timer_ticks k.screen) _
                (test_proc_list-ends k.procs k.ttys k.timers.timer_ticks k.screen) (λ v u. s))
              tt))))

timer_handler-Keeps : (k : Kernel) → KernelSound k → Keeps KernelSound (timer_handler k)
unfolding timer_handler
timer_handler-Keeps k s =
    Keeps-bind (λ r. KernelSound r.1) KernelSound
      (timer_irq_handler run_callback k.timers (ticked k)) _
      (timer_irq_handler-Keeps run_callback KernelSound run_callback-Keeps k.timers (ticked k) s)
      (λ r sr. sr)

save_frame-IsWellFormed :
    (s : Procs) (f : Trapframe) → IsWellFormed s → IsWellFormed (save_frame s f)
unfolding save_frame
save_frame-IsWellFormed s f w =
    holds-elim IsWellFormed s.active_proc s _ w (λ a. put_proc-IsWellFormed s a _ w)

-- What the kernel leaves: sound, with a process that is active and marked so, whose saved registers
-- are those that are restored
abbrev pub Leaves : Kernel × Option Trapframe → Type 0
Leaves (k, regs) =
    KernelSound k
    × ((a : ℕ) × (k.procs.active_proc ≡ some a)
        × ((proc_at k.procs a).state ≡ active)
        × (regs ≡ (proc_at k.procs a).trapframe))

some-inj : {a b : ℕ} → some b ≡ some a → b ≡ a
some-inj e = cc

leave-Leaves :
    (k : Kernel) → IsRunning k.procs → AllUsable k.ttys.tty_table → Keeps Leaves (leave k)
unfolding leave
leave-Leaves k (w, a, act, on) all = Keeps-elim Leaves k.procs.active_proc (stop panic) _ tt (λ b e.
    ((w, all), (b, e, ap (λ p. p.state) (ap (proc_at k.procs) (same a b act e)) ∙ on, refl)))
  where
    same : (a b : ℕ) → k.procs.active_proc ≡ some a → k.procs.active_proc ≡ some b → b ≡ a
    same a b p q = some-inj (sym q ∙ p)

module _ (w : Platform) where
  run_handler-Keeps : (h : ℕ) (k : Kernel) → KernelSound k → Keeps KernelSound (run_handler w h k)
  unfolding run_handler
  run_handler-Keeps h k s =
      Keeps-if KernelSound (h == timer_irq_handler_address) (timer_handler k) _
        (timer_handler-Keeps k s)
        (Keeps-if KernelSound (h == keyboard_irq_handler_address) (keyboard_irq_handler w k) _
          (keyboard_irq_handler-Keeps w k s)
          (Keeps-if KernelSound (h == ksyscall_irq_handler_address)
            (ksyscall_irq_handler w.after_free_mutex w.after_free_sem k) (stop fault)
            (ksyscall_irq_handler-Keeps w.after_free_mutex w.after_free_sem k s) tt))

  -- kernel_context_enter on well-formed processes and usable terminals, for every interrupt: it leaves
  -- such, and the registers that are restored are those of a process that is active and marked so; or the
  -- machine stops, by a panic, the exit, or undefined behaviour. No loop on the way runs out of fuel.
  pub kernel_context_enter-Leaves :
      (k : Kernel) (f : Trapframe) → KernelSound k → Keeps Leaves (kernel_context_enter w k f)
  unfolding kernel_context_enter
  kernel_context_enter-Leaves k f s =
      let k0 = record k { procs = save_frame k.procs f } in
      Keeps-bind (λ r. KernelSound r.1) Leaves
        (interrupts_irq_handler (run_handler w) k.interrupts (int_of_word f.interrupt) k0) _
        (interrupts_irq_handler-Keeps (run_handler w) KernelSound run_handler-Keeps k.interrupts
          (int_of_word f.interrupt) k0 (save_frame-IsWellFormed k.procs f s.0, s.1))
        (λ r sr.
          Keeps-bind IsRunning Leaves (scheduler_run r.1.procs) _
            (Keeps-of_Ends IsRunning _ (scheduler_run-IsRunning r.1.procs sr.0))
            (λ procs running.
              leave-Leaves (record r.1 { interrupts = r.0; procs = procs }) running sr.1))
