-- ===== src/Syscall/Return.antt =====
-- src/syscall.c, src/kernel.c and src/ksyscall.c: a system call from the `int $0x80` of the program to the
-- value that it returns.
use wuros.Prelude.{
  ℕ, ◌<◌, ◌≡◌, refl, ap, ◌∙◌, ℤ, pos, lt_ℤ, true, Option, none, some, get_or, get_or-set_self,
  length, length-set, Outcome, ok, stop, panic, ◌>>=◌, arith,
}
use wuros.Proc.{Procs, Proc, Trapframe, active, blank_proc, proc_at, put_proc}
use wuros.Scheduler.{scheduler_run, scheduler_timeslice}
use wuros.Scheduler.Stay.{scheduler_run_stays}
use wuros.Interrupts.{Interrupts, interrupts_irq_handler}
use wuros.Interrupts.Register.{software_runs}
use wuros.Kernel.{Platform, Kernel}
use wuros.Kernel.Enter.{ksyscall_irq_handler_address, save_frame, leave, kernel_context_enter}
use wuros.Kernel.Enter
use wuros.Ksyscall.Dispatch.{int_of_word, word_of_int, set_eax, answer, ksyscall_irq_handler}
use wuros.Ksyscall.Dispatch.Answer.{answered}
use wuros.Syscall.{syscall_vector, syscall0, syscall1, syscall3, syscall_result}
use wuros.Syscall.Agree.{
  Call, get_time, get_pid, new_mutex, get_name, get_own_name, sleep, exit, flush, free_mutex, lock,
  unlock, new_sem, free_sem, wait, post, write, read, request, IsInt, Fits, word-int, meaning,
  request-served,
}

-- The kernel once the registers of the process `a` are saved
abbrev pub entered : Kernel → ℕ → Trapframe → Kernel
entered k a f = record k {
  procs = put_proc k.procs a (record (proc_at k.procs a) { trapframe = some f });
}

-- The registers `g` with the result `rc` of a call
abbrev pub returned : Trapframe → ℤ → Trapframe
returned g rc = record g { eax = word_of_int rc }

saved :
    (s : Procs) (a : ℕ) (f : Trapframe)
    → s.active_proc ≡ some a
    → save_frame s f ≡ put_proc s a (record (proc_at s a) { trapframe = some f })
unfolding save_frame
saved s a f act = ap save act
  where
    save : Option ℕ → Procs
    save o = elim o [
      | none ↦ s
      | some a ↦ put_proc s a (record (proc_at s a) { trapframe = some f })
    ]

left :
    (k : Kernel) (a : ℕ) (p : Proc)
    → k.procs.active_proc ≡ some a
    → proc_at k.procs a ≡ p
    → leave k ≡ ok (k, p.trapframe)
unfolding leave
left k a p act here = ap out act ∙ ap (λ p. ok (k, p.trapframe)) here
  where
    out : Option ℕ → Outcome (Kernel × Option Trapframe)
    out o = elim o [ none ↦ stop panic | some a ↦ ok (k, (proc_at k.procs a).trapframe) ]

vector : (f : Trapframe) (c : Call) → (request f c).interrupt ≡ syscall_vector
unfolding request syscall0 syscall1 syscall3
vector f get_time = refl
vector f get_pid = refl
vector f new_mutex = refl
vector f (get_name p) = refl
vector f (get_own_name p) = refl
vector f (sleep z) = refl
vector f (exit z) = refl
vector f (flush z) = refl
vector f (free_mutex z) = refl
vector f (lock z) = refl
vector f (unlock z) = refl
vector f (new_sem z) = refl
vector f (free_sem z) = refl
vector f (wait z) = refl
vector f (post z) = refl
vector f (write io p n) = refl
vector f (read io p n) = refl

module _ (w : Platform) where
  abbrev handler : Kernel → Outcome Kernel
  handler = ksyscall_irq_handler w.after_free_mutex w.after_free_sem

  abbrev means : Kernel → Call → Outcome (ℤ × Kernel)
  means = meaning w.after_free_mutex w.after_free_sem

  enters :
      (k k' k'' : Kernel) (f : Trapframe) (o : Option Trapframe) (procs : Procs)
      → f.interrupt ≡ syscall_vector
      → get_or k.interrupts.irq_handlers syscall_vector none ≡ some ksyscall_irq_handler_address
      → save_frame k.procs f ≡ k'.procs
      → handler (record k { procs = k'.procs }) ≡ ok k''
      → scheduler_run k''.procs ≡ ok procs
      → leave (record k'' { interrupts = k.interrupts; procs = procs })
        ≡ ok (record k'' { interrupts = k.interrupts; procs = procs }, o)
      → kernel_context_enter w k f ≡ ok (record k'' { interrupts = k.interrupts; procs = procs }, o)
  unfolding kernel_context_enter Enter.run_handler int_of_word
  enters k k' k'' f o procs vector wired save handles runs leaves =
      ap
        (λ v.
          interrupts_irq_handler run k.interrupts (int_of_word v)
            (record k { procs = save_frame k.procs f })
          >>= next)
        vector
      ∙ ap
          (λ p.
            interrupts_irq_handler run k.interrupts (pos syscall_vector) (record k { procs = p })
            >>= next)
          save
      ∙ ap (λ r. r >>= next)
          (software_runs run k.interrupts syscall_vector _ (record k { procs = k'.procs })
            (omega arith) refl wired)
      ∙ ap (λ r. (r >>= λ k1. ok (k.interrupts, k1)) >>= next) handles
      ∙ ap (λ r. r >>= λ procs. leave (record k'' { interrupts = k.interrupts; procs = procs }))
          runs
      ∙ leaves
    where
      run : ℕ → Kernel → Outcome Kernel
      run = Enter.run_handler w

      next : Interrupts × Kernel → Outcome (Kernel × Option Trapframe)
      next r = do
        let k1 = record r.1 { interrupts = r.0 }
        procs ← scheduler_run k1.procs
        leave (record k1 { procs = procs })

  -- A process within its time slice calls a function of src/syscall.c with arguments of the types of its
  -- parameters. Where the kernel's function for it comes back with a result that is an int, leaves the
  -- process active with registers saved, and the handler of system calls is registered,
  -- kernel_context_enter goes on with the same process: the registers are those, with the result in EAX,
  -- the function returns that result, and the memory of the programs and the terminals are as the
  -- kernel's function left them.
  pub calls_return :
      (k k' : Kernel) (a : ℕ) (f g : Trapframe) (c : Call) (rc : ℤ)
      → k.procs.active_proc ≡ some a
      → a < length k.procs.proc_table
      → get_or k.interrupts.irq_handlers syscall_vector none ≡ some ksyscall_irq_handler_address
      → Fits c
      → means (entered k a (request f c)) c ≡ ok (rc, k')
      → IsInt rc
      → k'.procs.active_proc ≡ some a
      → a < length k'.procs.proc_table
      → (proc_at k'.procs a).trapframe ≡ some g
      → (proc_at k'.procs a).state ≡ active
      → lt_ℤ (proc_at k'.procs a).cpu_time (pos scheduler_timeslice) ≡ true
      → (k'' : Kernel) × (kernel_context_enter w k (request f c) ≡ ok (k'', some (returned g rc)))
        × (syscall_result (returned g rc) ≡ rc)
        × (k''.memory ≡ k'.memory)
        × (k''.ttys ≡ k'.ttys)
  unfolding syscall_result
  calls_return k k' a f g c rc act inside wired fits does int still inside' regs on within =
      let k1 = entered k a (request f c) in
      let p1 : Proc = record (proc_at k'.procs a) { trapframe = some (returned g rc) } in
      let s1 = put_proc k'.procs a p1 in
      let p2 : Proc = record (proc_at s1 a) { state = active } in
      let here : proc_at s1 a ≡ p1 = get_or-set_self k'.procs.proc_table a p1 blank_proc inside' in
      let here2 : proc_at (put_proc s1 a p2) a ≡ p2 =
        get_or-set_self s1.proc_table a p2 blank_proc
          (omega (arith, inside', length-set k'.procs.proc_table a p1)) in
      let frame : (proc_at k1.procs a).trapframe ≡ some (request f c) =
        ap (λ p. p.trapframe)
          (get_or-set_self k.procs.proc_table a
            (record (proc_at k.procs a) { trapframe = some (request f c) }) blank_proc inside) in
      let k2 = set_eax k' a g (word_of_int rc) in
      let k3 : Kernel = record k2 { interrupts = k.interrupts; procs = put_proc s1 a p2 } in
      (
        k3,
        enters k k1 k2 (request f c) (some (returned g rc)) (put_proc s1 a p2) (vector f c) wired
            (saved k.procs a (request f c) act)
            (request-served w.after_free_mutex w.after_free_sem k1 a f c act frame fits
              ∙ ap (λ r. r >>= λ r. answer r.1 r.0) does
              ∙ answered k' a g rc still regs)
            (scheduler_run_stays s1 a still (ap (λ p. p.state) here ∙ on)
              (ap (λ p. lt_ℤ p.cpu_time (pos scheduler_timeslice)) here ∙ within))
            (left k3 a p2 still here2 ∙ ap (λ p. ok (k3, p.trapframe)) here),
        word-int rc int,
        refl,
        refl,
      )
