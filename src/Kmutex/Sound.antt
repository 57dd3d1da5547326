-- ===== src/Kmutex/Sound.antt =====
-- src/kmutex.c: the invariant of a mutex, and that kmutex_lock keeps it.
use wuros.Prelude.{
  minus_one, if◌then◌else◌, not, ltb, true, ◌>>=◌, ℕ, suc, ◌<◌, ◌≡◌, refl, sym, ap, ◌∙◌, ◌⊎◌, inl,
  inr, ℤ, pos, incr, [], ◌∷◌, ◌++◌, none, some, Outcome, ok, arith, length, length-append,
}
use wuros.Queue.{Queue, queue_size, queue_in}
use wuros.Queue.Valid.{IsValid, contents}
use wuros.Queue.Refine.{queue_in_last}
use wuros.Proc.{Procs, waiting, proc_at, put_proc}
use wuros.Scheduler.Remove.{removed, scheduler_remove_total}
use wuros.Scheduler.{scheduler_remove}
use wuros.Kmutex.{
  Mutex, Mutexes, mutex_max, mutex_at, put_mutex, kmutex_lock, on_mutex, lock, wait_as, wait_by,
  lock_by,
}

-- A mutex that nobody owns has no lock and no waiter; one that is owned counts its owner and its
-- waiters.
abbrev pub LockCount : Mutex → Type 0
LockCount m =
    ((m.owner ≡ none) × (m.locks ≡ pos 0) × (contents m.wait_queue ≡ []))
    ⊎ ((o : ℕ) × (m.owner ≡ some o) × (m.locks ≡ pos (suc (length (contents m.wait_queue)))))

pub record IsSound (m : Mutex) : Type 0 where
  pub waiters : IsValid m.wait_queue
  pub counted : LockCount m

-- What kmutex_lock may do for the active process `a`: take a free mutex, or wait behind the others
-- for one that keeps its owner, off the run queue and in the waiting state.
abbrev pub Locks : Procs → ℕ → Mutex → Outcome (ℤ × Procs × Mutex) → Type 0
Locks s a m r =
    ((m.owner ≡ none)
      × (r ≡ ok (incr m.locks, s, record m { owner = some a; locks = incr m.locks }))
      × IsSound (record m { owner = some a; locks = incr m.locks }))
    ⊎ ((o : ℕ) × (m.owner ≡ some o)
        × (q : Queue) × (run : Queue) × (r
            ≡ ok (
              incr m.locks,
              removed (put_proc s a (record (proc_at s a) { state = waiting })) a run,
              record m { wait_queue = q; locks = incr m.locks },
            ))
        × IsValid run
        × (contents q ≡ contents m.wait_queue ++ (proc_at s a).pid ∷ [])
        × IsSound (record m { wait_queue = q; locks = incr m.locks }))

wait_as-eq-ok :
    (s : Procs) (a : ℕ) (m : Mutex) (q run : Queue)
    → queue_in m.wait_queue (proc_at s a).pid ≡ some q
    → scheduler_remove (put_proc s a (record (proc_at s a) { state = waiting })) (some a)
      ≡ ok (removed (put_proc s a (record (proc_at s a) { state = waiting })) a run)
    → wait_as s a m
      ≡ ok (
        incr m.locks,
        removed (put_proc s a (record (proc_at s a) { state = waiting })) a run,
        record m { wait_queue = q; locks = incr m.locks },
      )
unfolding wait_as
wait_as-eq-ok s a m q run h r = rw (h, wait_as) (rw r)

-- kmutex_lock for the active process, on a sound mutex whose wait queue has room: a free mutex gets
-- that process as its owner; a mutex that is owned keeps its owner, and the process goes to the end
-- of the wait queue, is taken out of the scheduler and marked as waiting. The lock count stays the
-- number of the owner and the waiters.
pub lock-Locks :
    (s : Procs) (a : ℕ) (m : Mutex)
    → IsSound m
    → IsValid s.run_queue
    → s.active_proc ≡ some a
    → length (contents m.wait_queue) < queue_size
    → Locks s a m (lock s m)
unfolding lock
lock-Locks s a m v vr act room = elim v.counted [
  | inl (free, no_locks, nobody) ↦ inl (
    free,
    ap (lock_by s m) free
        ∙ ap (λ x. ok (incr m.locks, s, record m { owner = x; locks = incr m.locks })) act,
    record {
      waiters = v.waiters;
      counted = inr (a, refl, ap incr no_locks ∙ ap (λ xs. pos (suc (length xs))) (sym nobody));
    },
  )
  | inr (o, held, count) ↦
      let s1 = put_proc s a (record (proc_at s a) { state = waiting }) in
      let (q, h, vq, c) = queue_in_last m.wait_queue (proc_at s a).pid v.waiters room in
      let (run, r, vrun, le) = scheduler_remove_total s1 a vr in
      inr (
        o,
        held,
        q,
        run,
        ap (lock_by s m) held ∙ ap (wait_by s m) act ∙ wait_as-eq-ok s a m q run h r,
        vrun,
        c,
        record {
          waiters = vq;
          counted = inr (
            o,
            held,
            ap incr count
                ∙ ap pos (
                    omega (
                      arith,
                      ap length c,
                      length-append (contents m.wait_queue) ((proc_at s a).pid ∷ []),
                    )),
          );
        },
      )
]

-- kmutex_lock with an id of the table is `lock` on the mutex of that id.
pub kmutex_lock-in_range :
    (s : Mutexes) (id : ℕ) (rc : ℤ) (procs : Procs) (m : Mutex)
    → id < mutex_max
    → lock s.procs (mutex_at s id) ≡ ok (rc, procs, m)
    → kmutex_lock s (pos id) ≡ ok (rc, put_mutex s id procs m)
unfolding kmutex_lock on_mutex
kmutex_lock-in_range s id rc procs m h locked =
    ap (λ b. if not b then ok (minus_one, s) else (lock s.procs (mutex_at s id) >>= store)) within
    ∙ ap (λ r. r >>= store) locked
  where
    within : ltb id mutex_max ≡ true
    within = ground arith

    store : ℤ × Procs × Mutex → Outcome (ℤ × Mutexes)
    store r = ok (r.0, put_mutex s id r.1 r.2)
