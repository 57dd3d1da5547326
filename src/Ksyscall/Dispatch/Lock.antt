-- ===== src/Ksyscall/Dispatch/Lock.antt =====
-- src/ksyscall.c: the system call to lock a mutex, which may block.
use wuros.Prelude.{
  ◌⊎◌, minus_one, incr, ℕ, ◌<◌, ◌≡◌, refl, sym, ap, ◌∙◌, inl, inr, ℤ, pos, ltb, false,
  if◌then◌else◌, [], ◌∷◌, ◌++◌, none, some, Outcome, ok, ◌>>=◌, length, arith,
}
use wuros.Queue.{Queue, queue_size}
use wuros.Queue.Valid.{contents}
use wuros.Proc.{Trapframe, waiting, proc_at, put_proc}
use wuros.Proc.Valid.{IsWellFormed}
use wuros.Scheduler.Remove.{removed}
use wuros.Kmutex.{Mutex, Mutexes, mutex_max, mutex_at, put_mutex, kmutex_lock}
use wuros.Kmutex.Sound.{IsSound, lock-Locks, kmutex_lock-in_range}
use wuros.Ksem.{Sem}
use wuros.Kernel.{Kernel, mutexes_of, with_mutexes}
use wuros.Ksyscall.Calls.{ksyscall_mutex_lock}
use wuros.Ksyscall.Dispatch.{
  mutex_lock, set_eax, word_of_int, int_of_word, perform, ksyscall_irq_handler,
}
use wuros.Ksyscall.Dispatch.Leave.{removed-none}
use wuros.Ksyscall.Dispatch.Answer.{handler_blocks, handler_returns}

-- A sound mutex that is free has no locks.
free_locks : (m : Mutex) → IsSound m → m.owner ≡ none → m.locks ≡ pos 0
free_locks m sound free = elim sound.counted [
  | inl (no_owner, no_locks, nobody) ↦ no_locks
  | inr (o, held, count) ↦ absurd (none≢some o (sym free ∙ held))
]
  where
    none≢some : (o : ℕ) → none ≡ some o → ⊥
    none≢some o e = cc

-- What the system call to lock the mutex `id` does for the process `a` with the registers `f`
abbrev pub LocksOrBlocks : Kernel → ℕ → Trapframe → ℕ → Outcome Kernel → Type 0
LocksOrBlocks k a f id r =
    let m = mutex_at (mutexes_of k) id in
    let s1 = put_proc k.procs a (record (proc_at k.procs a) { state = waiting }) in
    ((m.owner ≡ none)
      × (r
          ≡ ok (
              set_eax
                (with_mutexes k (
                  put_mutex (mutexes_of k) id k.procs (record m { owner = some a; locks = pos 1 })))
                a f 1)))
    ⊎ ((o : ℕ) × (m.owner ≡ some o)
        × (q : Queue) × (run : Queue) × (r
            ≡ ok (
                with_mutexes k (
                  put_mutex (mutexes_of k) id (removed s1 a run)
                    (record m { wait_queue = q; locks = incr m.locks }))))
        × ((removed s1 a run).active_proc ≡ none)
        × (contents q ≡ contents m.wait_queue ++ (proc_at k.procs a).pid ∷ []))

module _ (after_free_mutex : Mutex → Mutex) (after_free_sem : Sem → Sem) where
  performs_lock :
      (k : Kernel) (f : Trapframe) (id : ℕ) (rc : ℤ) (s' : Mutexes)
      → f.ebx ≡ id
      → id < mutex_max
      → kmutex_lock (mutexes_of k) (pos id) ≡ ok (rc, s')
      → perform after_free_mutex after_free_sem k f.ebx f.ecx f.edx mutex_lock
        ≡ ok (rc, with_mutexes k s')
  unfolding perform int_of_word ksyscall_mutex_lock
  performs_lock k f id rc s' arg h locked =
      ap (λ w. ksyscall_mutex_lock (mutexes_of k) (int_of_word w) >>= done) arg
      ∙ ap (λ z. ksyscall_mutex_lock (mutexes_of k) z >>= done) as_int
      ∙ ap
          (λ b.
            (if b then ok (minus_one, mutexes_of k) else kmutex_lock (mutexes_of k) (pos id))
            >>= done)
          within
      ∙ ap (λ r. r >>= done) locked
    where
      done : ℤ × Mutexes → Outcome (ℤ × Kernel)
      done r = ok (r.0, with_mutexes k r.1)

      as_int : int_of_word id ≡ pos id
      as_int = ground arith

      within : ltb mutex_max id ≡ false
      within = ground arith

  -- The system call to lock a sound mutex whose wait queue has room, made by a process of a well-formed
  -- state: where the mutex is free, the caller owns it and finds the 1 in EAX; where it is owned, no
  -- process is active afterwards, the caller waits at the end of the mutex' wait queue, and no register is
  -- written.
  pub lock_call :
      (k : Kernel) (a id : ℕ) (f : Trapframe)
      → IsWellFormed k.procs
      → k.procs.active_proc ≡ some a
      → (proc_at k.procs a).trapframe ≡ some f
      → f.eax ≡ 12
      → f.ebx ≡ id
      → id < mutex_max
      → IsSound (mutex_at (mutexes_of k) id)
      → length (contents (mutex_at (mutexes_of k) id).wait_queue) < queue_size
      → LocksOrBlocks k a f id (ksyscall_irq_handler after_free_mutex after_free_sem k)
  unfolding word_of_int
  lock_call k a id f w act frame eax arg h sound room =
      let m = mutex_at (mutexes_of k) id in
      elim (lock-Locks k.procs a m sound w.runs act room) [
        | inl (free, r, sound') ↦
            let one : incr m.locks ≡ pos 1 = ap incr (free_locks m sound free) in
            let s' =
              put_mutex (mutexes_of k) id k.procs
                (record m { owner = some a; locks = incr m.locks }) in
            inl (
              free,
              handler_returns after_free_mutex after_free_sem k (with_mutexes k s') a a 11 f f
                    mutex_lock (incr m.locks) act frame eax refl
                    (performs_lock k f id (incr m.locks) s' arg h
                      (kmutex_lock-in_range (mutexes_of k) id _ _ _ h r))
                    act frame
                  ∙ ap
                      (λ z. ok (
                        set_eax
                          (with_mutexes k (
                            put_mutex (mutexes_of k) id k.procs
                              (record m { owner = some a; locks = z })))
                          a f (word_of_int z)))
                      one,
            )
        | inr (o, held, q, run, r, vr, c, sound') ↦
            let off =
              removed-none (put_proc k.procs a (record (proc_at k.procs a) { state = waiting })) a
                run act in
            inr (
              o,
              held,
              q,
              run,
              handler_blocks after_free_mutex after_free_sem k _ a 11 f mutex_lock (incr m.locks)
                  act frame eax refl
                  (performs_lock k f id (incr m.locks) _ arg h
                    (kmutex_lock-in_range (mutexes_of k) id _ _ _ h r))
                  off,
              off,
              c,
            )
      ]
