-- ===== src/Kernel/Enter.antt =====
-- src/kernel.c: kernel_context_enter, with the handlers that the kernel registers. The switch of the
-- stacks around it is assembly.
use wuros.Prelude.{
  ℕ, incr, ◌==◌, if◌then◌else◌, Option, none, some, Outcome, ok, stop, panic, fault, ◌>>=◌,
}
use wuros.Proc.{Procs, Trapframe, proc_at, put_proc}
use wuros.Scheduler.{scheduler_timer, scheduler_run}
use wuros.Tty.Draw.{tty_refresh}
use wuros.Timer.{timer_irq_handler}
use wuros.Displays.{test_spinner, test_timer, test_proc_list}
use wuros.Keyboard.Input.{keyboard_irq_handler}
use wuros.Ksyscall.Dispatch.{int_of_word, ksyscall_irq_handler}
use wuros.Interrupts.{interrupts_irq_handler}
use wuros.Kernel.{Platform, Kernel}

-- The functions that the kernel passes to timer_callback_register and interrupts_irq_register
abbrev pub scheduler_timer_address : ℕ
scheduler_timer_address = 1

abbrev pub tty_refresh_address : ℕ
tty_refresh_address = 2

abbrev pub timer_irq_handler_address : ℕ
timer_irq_handler_address = 3

abbrev pub keyboard_irq_handler_address : ℕ
keyboard_irq_handler_address = 4

abbrev pub ksyscall_irq_handler_address : ℕ
ksyscall_irq_handler_address = 5

abbrev pub test_spinner_address : ℕ
test_spinner_address = 6

abbrev pub test_timer_address : ℕ
test_timer_address = 7

abbrev pub test_proc_list_address : ℕ
test_proc_list_address = 8

-- A call of a callback of the timer. Any other address is not that of a callback of the kernel.
unfoldable pub run_callback : ℕ → Kernel → Outcome Kernel
run_callback f k =
    if f == scheduler_timer_address
    then (scheduler_timer k.procs >>= λ procs. ok (record k { procs = procs }))
    else if f == tty_refresh_address
    then (tty_refresh k.ttys k.screen >>= λ r. ok (record k { ttys = r.0; screen = r.1 }))
    else if f == test_spinner_address
    then (test_spinner k.spin_count k.screen >>= λ r.
        ok (record k { spin_count = r.0; screen = r.1 }))
    else if f == test_timer_address
    then (test_timer k.timers.timer_ticks k.screen >>= λ v. ok (record k { screen = v }))
    else if f == test_proc_list_address
    then (test_proc_list k.procs k.ttys k.timers.timer_ticks k.screen >>= λ v.
        ok (record k { screen = v }))
    else stop fault

-- The ticks that the callbacks read
abbrev pub ticked : Kernel → Kernel
ticked k = record k { timers = record k.timers { timer_ticks = incr k.timers.timer_ticks } }

-- timer_irq_handler with these callbacks, which see the tick already counted
unfoldable pub timer_handler : Kernel → Outcome Kernel
unfolding run_callback
timer_handler k = do
  r ← timer_irq_handler run_callback k.timers (ticked k)
  ok (record r.1 { timers = r.0 })

unfoldable pub save_frame : Procs → Trapframe → Procs
save_frame s f = elim s.active_proc [
  | none ↦ s
  | some a ↦ put_proc s a (record (proc_at s a) { trapframe = some f })
]

-- active_proc->trapframe, after the test that there is an active process
unfoldable pub leave : Kernel → Outcome (Kernel × Option Trapframe)
leave k = elim k.procs.active_proc [
  | none ↦ stop panic
  | some a ↦ ok (k, (proc_at k.procs a).trapframe)
]

module _ (w : Platform) where
  -- A call of a handler of an interrupt
  unfoldable pub run_handler : ℕ → Kernel → Outcome Kernel
  unfolding timer_handler
  run_handler h k =
      if h == timer_irq_handler_address
      then timer_handler k
      else if h == keyboard_irq_handler_address
      then keyboard_irq_handler w k
      else if h == ksyscall_irq_handler_address
      then ksyscall_irq_handler w.after_free_mutex w.after_free_sem k
      else stop fault

  -- The result has the registers that kernel_context_exit restores.
  unfoldable pub kernel_context_enter : Kernel → Trapframe → Outcome (Kernel × Option Trapframe)
  unfolding run_handler save_frame leave
  kernel_context_enter k f = do
    r ←
        interrupts_irq_handler run_handler k.interrupts (int_of_word f.interrupt)
          (record k { procs = save_frame k.procs f })
    let k1 = record r.1 { interrupts = r.0 }
    procs ← scheduler_run k1.procs
    leave (record k1 { procs = procs })
