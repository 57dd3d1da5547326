-- ===== src/Ksyscall/Dispatch/Leave.antt =====
-- src/ksyscall.c: the system calls after which the caller is not active any more. Its EAX register is
-- not written then.
use wuros.Prelude.{
  minus_one, ℕ, ◌<◌, ◌≡◌, ◌≢◌, refl, ap, ◌∙◌, ℤ, pos, eq_ℤ, eq_ℤ_refl, if◌then◌else◌, [], ◌∷◌, ◌++◌,
  Option, none, some, Outcome, ok, ◌>>=◌, length, arith, subst, get_or-set_self,
}
use wuros.Queue.{Queue, queue_size}
use wuros.Queue.Valid.{contents}
use wuros.Proc.{Procs, Trapframe, sleeping, proc_to_entry, blank_proc, proc_at, put_proc}
use wuros.Proc.Valid.{IsWellFormed, InTable}
use wuros.Scheduler.Remove.{removed}
use wuros.Scheduler.Sleep.{unscheduled}
use wuros.Kproc.{kproc_destroy, reset_proc}
use wuros.Kproc.Destroy.{destroyed, kproc_destroy-eq-ok}
use wuros.Kmutex.{Mutex}
use wuros.Ksem.{Sem}
use wuros.Kernel.{Kernel}
use wuros.Ksyscall.Calls.{ksyscall_proc_exit}
use wuros.Ksyscall.Dispatch.{proc_exit, perform, on_procs, ksyscall_irq_handler}
use wuros.Ksyscall.Dispatch.Answer.{handler_blocks}

-- The process that is active is not active any more once it was removed.
pub removed-none :
    (s : Procs) (a : ℕ) (q : Queue) → s.active_proc ≡ some a → (removed s a q).active_proc ≡ none
removed-none s a q act =
    ap
      (λ o. elim o [
        | none ↦ none
        | some b ↦ if eq_ℤ (proc_at s a).pid (proc_at s b).pid then none else some b
      ])
      act
    ∙ ap (λ b. if b then none else some a) (eq_ℤ_refl (proc_at s a).pid)

pub active-lt :
    (s : Procs) (a : ℕ) → IsWellFormed s → s.active_proc ≡ some a → a < length s.proc_table
active-lt s a w act = omega (arith, w.table, subst InTable act w.active_in)

-- The state that a call of ksyscall_proc_sleep leaves
abbrev slept : Procs → ℕ → ℤ → Queue → Queue → Procs
slept s a seconds run q =
    record (put_proc (unscheduled s a seconds run) a
      (record (proc_at s a) { sleep_time = seconds; state = sleeping })) { sleep_queue = q }

module _ (after_free_mutex : Mutex → Mutex) (after_free_sem : Sem → Sem) where
  performs_exit :
      (k : Kernel) (a : ℕ) (f : Trapframe) (rc : ℤ) (s' : Procs)
      → k.procs.active_proc ≡ some a
      → kproc_destroy k.procs (some a) ≡ ok (rc, s')
      → perform after_free_mutex after_free_sem k f.ebx f.ecx f.edx proc_exit
        ≡ ok (rc, record k { procs = s' })
  unfolding perform ksyscall_proc_exit
  performs_exit k a f rc s' act gone = ap (λ o. exits o >>= done) act ∙ ap (λ r. r >>= done) gone
    where
      exits : Option ℕ → Outcome (ℤ × Procs)
      exits o = elim o [ none ↦ ok (minus_one, k.procs) | some a ↦ kproc_destroy k.procs (some a) ]

      done : ℤ × Procs → Outcome (ℤ × Kernel)
      done r = ok (on_procs k r)

  -- The system call to exit, made by a process other than the idle task of a well-formed state, which
  -- the lookup by its id finds at its own entry: no process is active afterwards, the entry is reset and
  -- goes to the end of the allocator, and no register is written.
  pub exit_call :
      (k : Kernel) (a : ℕ) (f : Trapframe)
      → IsWellFormed k.procs
      → k.procs.active_proc ≡ some a
      → (proc_at k.procs a).trapframe ≡ some f
      → f.eax ≡ 7
      → (proc_at k.procs a).pid ≢ pos 0
      → proc_to_entry k.procs (some a) ≡ some a
      → length (contents k.procs.proc_allocator) < queue_size
      → (s' : Procs) × (ksyscall_irq_handler after_free_mutex after_free_sem k
          ≡ ok (record k { procs = s' }))
        × (s'.active_proc ≡ none)
        × (proc_at s' a ≡ reset_proc (proc_at k.procs a))
        × (contents s'.proc_allocator ≡ contents k.procs.proc_allocator ++ pos a ∷ [])
  exit_call k a f w act frame eax other found room =
      let s = k.procs in
      let (run, allocator, r, vr, le, va, c) = kproc_destroy-eq-ok s a w other found room in
      let off = removed-none s a run act in
      (
        destroyed s a run allocator,
        handler_blocks after_free_mutex after_free_sem k
            (record k { procs = destroyed s a run allocator }) a 6 f proc_exit (pos 0) act frame eax
            refl (performs_exit k a f (pos 0) _ act r) off,
        off,
        get_or-set_self s.proc_table a _ blank_proc (active-lt s a w act),
        c,
      )
