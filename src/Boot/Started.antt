-- ===== src/Boot/Started.antt =====
-- src/main.c: the kernel when main has made its calls.
use wuros.Prelude.{
  ℕ, ◌+◌, ◌≡◌, refl, ap, ◌∙◌, pos, minus_one, List, [], ◌∷◌, none, some, get_or, sym, subst, length,
  Outcome, ok, ◌>>=◌, arith,
}
use wuros.Queue.{queue_size, queue_init}
use wuros.Queue.Valid.{contents, queue_init-IsValid, contents-queue_init}
use wuros.Queue.Ids.{ids}
use wuros.Proc.{Procs, proc_max}
use wuros.Proc.Valid.{IsWellFormed}
use wuros.Scheduler.{scheduler_init}
use wuros.Kproc.Start.{Programs}
use wuros.Kproc.Created.{Created}
use wuros.Kproc.Started.{IsFresh, kproc_init-Created}
use wuros.Tty.{Tty, tty_max, tty_init}
use wuros.Tty.Start.{AllReady, AllSized, tty_init-AllReady}
use wuros.Tty.Invariant.{AllUsable}
use wuros.Timer.{timer_init, timer_callback_register, zeroed_timer}
use wuros.Timer.Register.{timer_init-ids, register_first}
use wuros.Vga.{vga_init}
use wuros.Keyboard.{keyboard_init}
use wuros.Interrupts.{interrupts_init}
use wuros.Interrupts.Register.{registered, registers}
use wuros.Kernel.{Platform, Kernel, mutexes_of, with_mutexes, sems_of}
use wuros.Kmutex.{kmutexes_init}
use wuros.Kmutex.Invariant.{kmutexes_init-procs}
use wuros.Ksem.Invariant.{ksemaphores_init-procs}
use wuros.Kernel.Enter.{
  scheduler_timer_address, tty_refresh_address, timer_irq_handler_address,
  keyboard_irq_handler_address, ksyscall_irq_handler_address, test_spinner_address,
  test_timer_address, test_proc_list_address,
}
use wuros.Ksyscall.Calls.Invariant.{KernelSound}
use wuros.Boot.Displays.{with_callback, with_tests, start_tests-registers}
use wuros.Boot.{
  Entries, irq_timer, irq_keyboard, irq_syscall, start_timer, start_tty, start_keyboard,
  start_procs, start_syscalls, start_scheduler, start_tests, start_locks, start,
}

AllReady-AllUsable : (i : ℕ) (ts : List Tty) → AllReady i ts → AllUsable ts
AllReady-AllUsable i [] all = tt
AllReady-AllUsable i (t ∷ ts) (r, all) = (
  record { on_screen = r.on_screen; input = r.input; output = r.output },
  AllReady-AllUsable (i + 1) ts all,
)

-- The globals before main: the static arrays have their sizes, and no process and no terminal is active.
pub record IsUnstarted (k : Kernel) : Type 0 where
  pub table : length k.procs.proc_table ≡ proc_max
  pub allocator : length k.procs.proc_allocator.items ≡ queue_size
  pub runs : length k.procs.run_queue.items ≡ queue_size
  pub sleeps : length k.procs.sleep_queue.items ≡ queue_size
  pub no_proc : k.procs.active_proc ≡ none
  pub terminals : length k.ttys.tty_table ≡ tty_max
  pub sized : AllSized k.ttys.tty_table
  pub no_tty : k.ttys.active_tty ≡ none
  pub callbacks : length k.timers.timer_allocator.items ≡ queue_size

fresh :
    (s : Procs)
    → length s.proc_table ≡ proc_max
    → length s.proc_allocator.items ≡ queue_size
    → length s.run_queue.items ≡ queue_size
    → length s.sleep_queue.items ≡ queue_size
    → s.active_proc ≡ none
    → IsFresh (scheduler_init s)
unfolding scheduler_init queue_init
fresh s table allocator runs sleeps no_proc = record {
  table = table;
  allocator = allocator;
  runs = queue_init-IsValid s.run_queue runs;
  nobody = contents-queue_init s.run_queue;
  sleeps = queue_init-IsValid s.sleep_queue sleeps;
  no_proc = no_proc;
  awake = refl;
}

-- The handlers and the callbacks that are registered
pub record IsWired (k : Kernel) : Type 0 where
  pub timer : get_or k.interrupts.irq_handlers irq_timer none ≡ some timer_irq_handler_address
  pub keyboard :
      get_or k.interrupts.irq_handlers irq_keyboard none ≡ some keyboard_irq_handler_address
  pub syscall :
      get_or k.interrupts.irq_handlers irq_syscall none ≡ some ksyscall_irq_handler_address
  pub refresh :
      get_or k.timers.timers 0 zeroed_timer
      ≡ record { callback = some tty_refresh_address; interval = pos 1; repeat = minus_one }
  pub schedule :
      get_or k.timers.timers 1 zeroed_timer
      ≡ record { callback = some scheduler_timer_address; interval = pos 1; repeat = minus_one }
  pub spinner :
      get_or k.timers.timers 2 zeroed_timer
      ≡ record { callback = some test_spinner_address; interval = pos 10; repeat = minus_one }
  pub clock :
      get_or k.timers.timers 3 zeroed_timer
      ≡ record { callback = some test_timer_address; interval = pos 25; repeat = minus_one }
  pub proc_list :
      get_or k.timers.timers 4 zeroed_timer
      ≡ record { callback = some test_proc_list_address; interval = pos 10; repeat = minus_one }
  pub free_timers : contents k.timers.timer_allocator ≡ ids 27 5

start_locks-procs : (k : Kernel) → (start_locks k).procs ≡ k.procs
start_locks-procs k =
    ksemaphores_init-procs (sems_of (with_mutexes k (kmutexes_init (mutexes_of k)).1))
    ∙ kmutexes_init-procs (mutexes_of k)

module _ (w : Platform) (entries : Entries) (programs : Programs) where
  abbrev after_procs : Kernel → Outcome Kernel
  after_procs k = start_syscalls w entries programs (start_tests k) >>= λ k. ok (start_locks k)

  abbrev after_keyboard : Kernel → Outcome Kernel
  after_keyboard k = start_procs w entries programs (start_scheduler k) >>= after_procs

  abbrev after_tty : Kernel → Outcome Kernel
  after_tty k =
      start_keyboard w entries programs (record k { screen = vga_init k.screen }) >>= after_keyboard

  abbrev after_timer : Kernel → Outcome Kernel
  after_timer k = start_tty k >>= after_tty

  -- The calls of main in front of the welcome message, from globals whose arrays have their sizes, with no
  -- process and no terminal active: they come to their end. Then the processes and their queues are well
  -- formed and the terminals usable, the processes 0 to 10 are there, idle, each in the entry of its
  -- number, the other entries are free and in order in the allocator, the ids 1 to 10 stand in order in the
  -- run queue, the terminal 0 is the active one, the handlers of the timer, the keyboard and the system
  -- calls are registered, tty_refresh and scheduler_timer are callbacks of every tick, the displays of
  -- include/test.h are callbacks of every tenth, twenty-fifth and tenth tick, and the other timers are free.
  pub start-Sound :
      (k : Kernel)
      → IsUnstarted k
      → (k' : Kernel) × (start w entries programs k ≡ ok k')
        × KernelSound k'
        × Created 11 k'.procs
        × (k'.ttys.active_tty ≡ some 0)
        × IsWired k'
  unfolding start start_timer start_tty start_keyboard start_procs start_syscalls timer_init
      interrupts_init
  start-Sound k u =
      let s1 = interrupts_init k.interrupts in
      let s2 = registered s1 irq_timer entries.isr_entry_timer timer_irq_handler_address in
      let s3 = registered s2 irq_keyboard entries.isr_entry_keyboard keyboard_irq_handler_address in
      let s4 = registered s3 irq_syscall entries.isr_entry_syscall ksyscall_irq_handler_address in
      let (ttys, t, first, size, ready) = tty_init-AllReady k.ttys.tty_table u.terminals u.sized in
      let (v0, c0) = timer_init-ids k.timers u.callbacks in
      let (q1, h1, v1, c1) =
        register_first (timer_init k.timers) tty_refresh_address (pos 1) minus_one (pos 0)
          (ids 31 1) v0 c0 in
      let t1 = with_callback (timer_init k.timers) 0 tty_refresh_address 1 q1 in
      let (q2, h2, v2, c2) =
        register_first t1 scheduler_timer_address (pos 1) minus_one (pos 1) (ids 30 2) v1 c1 in
      let t2 = with_callback t1 1 scheduler_timer_address 1 q2 in
      let k1 : Kernel = record k { timers = timer_init k.timers; interrupts = s2 } in
      let k2 : Kernel = record k1 { ttys = ttys; timers = t1 } in
      let k3 : Kernel = record k2 {
        screen = vga_init k.screen;
        keyboard = keyboard_init;
        interrupts = s3;
      } in
      let (procs, r, created) =
        kproc_init-Created w.machine 0 w.stale programs (scheduler_init k.procs)
          (fresh k.procs u.table u.allocator u.runs u.sleeps u.no_proc) in
      let k4 : Kernel = record k3 { procs = procs; timers = t2 } in
      let (q3, h3, c3) = start_tests-registers k4 v2 c2 in
      let k5 : Kernel = record k4 { timers = with_tests t2 q3; interrupts = s4 } in
      let same = start_locks-procs k5 in
      (
        start_locks k5,
        ap
              (λ r.
                (r >>= λ irqs. ok (record k { timers = timer_init k.timers; interrupts = irqs }))
                >>= after_timer)
              (registers s1 irq_timer entries.isr_entry_timer timer_irq_handler_address
                (omega arith))
            ∙ ap
                (λ o.
                  (tty_init (record { tty_table = k.ttys.tty_table; active_tty = o }) >>= λ ttys.
                  ok (record k1 {
                    ttys = ttys;
                    timers =
                        (timer_callback_register k1.timers (some tty_refresh_address) (pos 1)
                          minus_one).1;
                  }))
                  >>= after_tty)
                u.no_tty
            ∙ ap
                (λ r.
                  (r >>= λ ttys. ok (record k1 {
                    ttys = ttys;
                    timers =
                        (timer_callback_register k1.timers (some tty_refresh_address) (pos 1)
                          minus_one).1;
                  }))
                  >>= after_tty)
                t
            ∙ ap (λ r. after_tty (record k1 { ttys = ttys; timers = r.1 })) h1
            ∙ ap
                (λ r.
                  (r >>= λ irqs. ok (record k2 {
                    screen = vga_init k.screen;
                    keyboard = keyboard_init;
                    interrupts = irqs;
                  }))
                  >>= after_keyboard)
                (registers s2 irq_keyboard entries.isr_entry_keyboard keyboard_irq_handler_address
                  (omega arith))
            ∙ ap
                (λ r.
                  start_procs w entries programs
                    (record k3 { procs = scheduler_init k.procs; timers = r.1 })
                  >>= after_procs)
                h2
            ∙ ap
                (λ r.
                  (r >>= λ procs. ok (record k3 { procs = procs; timers = t2 })) >>= after_procs)
                r
            ∙ ap (λ k. start_syscalls w entries programs k >>= λ k. ok (start_locks k)) h3
            ∙ ap
                (λ r.
                  (r >>= λ irqs. ok (record k4 { timers = with_tests t2 q3; interrupts = irqs }))
                  >>= λ k. ok (start_locks k))
                (registers s3 irq_syscall entries.isr_entry_syscall ksyscall_irq_handler_address
                  (omega arith)),
        (subst IsWellFormed (sym same) created.well, AllReady-AllUsable 0 ttys.tty_table ready),
        subst (Created 11) (sym same) created,
        first,
        record {
          timer = refl;
          keyboard = refl;
          syscall = refl;
          refresh = refl;
          schedule = refl;
          spinner = refl;
          clock = refl;
          proc_list = refl;
          free_timers = c3;
        },
      )
