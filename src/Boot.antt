-- ===== src/Boot.antt =====
-- src/main.c and the initialisers that it calls, with the handlers and the callbacks that they register.
pub mod Displays
pub mod Started
pub mod Turns
mod Examples
use wuros.Prelude.{ℕ, pos, minus_one, to_ℕ, some, Outcome, ok, ◌>>=◌}
use wuros.Scheduler.{scheduler_init}
use wuros.Kproc.Start.{Programs, kproc_init}
use wuros.Tty.{tty_init}
use wuros.Timer.{timer_init, timer_callback_register}
use wuros.Vga.{vga_init}
use wuros.Keyboard.{keyboard_init}
use wuros.Kmutex.{kmutexes_init}
use wuros.Ksem.{ksemaphores_init}
use wuros.Interrupts.{interrupts_init, interrupts_irq_register}
use wuros.Kernel.{Platform, Kernel, mutexes_of, with_mutexes, sems_of, with_sems}
use wuros.Kernel.Enter.{
  scheduler_timer_address, tty_refresh_address, timer_irq_handler_address,
  keyboard_irq_handler_address, ksyscall_irq_handler_address, test_spinner_address,
  test_timer_address, test_proc_list_address,
}

-- IRQ_TIMER, IRQ_KEYBOARD and IRQ_SYSCALL
abbrev pub irq_timer : ℕ
irq_timer = 32

abbrev pub irq_keyboard : ℕ
irq_keyboard = 33

abbrev pub irq_syscall : ℕ
irq_syscall = 128

-- The addresses of isr_entry_timer, isr_entry_keyboard and isr_entry_syscall
pub record Entries : Type 0 where
  pub isr_entry_timer : ℕ
  pub isr_entry_keyboard : ℕ
  pub isr_entry_syscall : ℕ

start_tty : Kernel → Outcome Kernel
start_tty k = do
  ttys ← tty_init k.ttys
  ok (record k {
    ttys = ttys;
    timers = (timer_callback_register k.timers (some tty_refresh_address) (pos 1) minus_one).1;
  })

abbrev pub start_scheduler : Kernel → Kernel
start_scheduler k = record k {
  procs = scheduler_init k.procs;
  timers = (timer_callback_register k.timers (some scheduler_timer_address) (pos 1) minus_one).1;
}

-- test_init
abbrev pub start_tests : Kernel → Kernel
start_tests k =
    let t1 = (timer_callback_register k.timers (some test_spinner_address) (pos 10) minus_one).1 in
    let t2 = (timer_callback_register t1 (some test_timer_address) (pos 25) minus_one).1 in
    record k {
      timers = (timer_callback_register t2 (some test_proc_list_address) (pos 10) minus_one).1;
    }

abbrev pub start_locks : Kernel → Kernel
start_locks k =
    let k1 = with_mutexes k (kmutexes_init (mutexes_of k)).1 in
    with_sems k1 (ksemaphores_init (sems_of k1)).1

module _ (w : Platform) (entries : Entries) (programs : Programs) where
  start_timer : Kernel → Outcome Kernel
  start_timer k = do
    irqs ←
        interrupts_irq_register k.interrupts (pos irq_timer) (some entries.isr_entry_timer)
          (some timer_irq_handler_address)
    ok (record k { timers = timer_init k.timers; interrupts = irqs })

  start_keyboard : Kernel → Outcome Kernel
  start_keyboard k = do
    irqs ←
        interrupts_irq_register k.interrupts (pos irq_keyboard) (some entries.isr_entry_keyboard)
          (some keyboard_irq_handler_address)
    ok (record k { keyboard = keyboard_init; interrupts = irqs })

  start_procs : Kernel → Outcome Kernel
  start_procs k = do
    procs ← kproc_init w.machine (to_ℕ k.timers.timer_ticks) w.stale programs k.procs
    ok (record k { procs = procs })

  start_syscalls : Kernel → Outcome Kernel
  start_syscalls k = do
    irqs ←
        interrupts_irq_register k.interrupts (pos irq_syscall) (some entries.isr_entry_syscall)
          (some ksyscall_irq_handler_address)
    ok (record k { interrupts = irqs })

  -- The calls of main in front of the welcome message, in order
  pub start : Kernel → Outcome Kernel
  unfolding start_timer start_tty start_keyboard start_procs start_syscalls
  start k = do
    k1 ← start_timer (record k { interrupts = interrupts_init k.interrupts })
    k2 ← start_tty k1
    k3 ← start_keyboard (record k2 { screen = vga_init k2.screen })
    k4 ← start_procs (start_scheduler k3)
    k5 ← start_syscalls (start_tests k4)
    ok (start_locks k5)
