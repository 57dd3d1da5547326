-- ===== src/Kmutex/Invariant.antt =====
-- src/kmutex.c: locking and unlocking keep the processes well formed.
use wuros.Prelude.{
  ℕ, ◌≡◌, refl, inl, inr, Option-cases, ℤ, pos, minus_one, to_ℕ, decr, eq_ℤ, Option, none, some,
  Outcome, ok, Keeps, Keeps-bind, Keeps-of_Ends, Keeps-if, Keeps-elim, holds-if, holds-elim, lt_ℤ,
}
use wuros.Queue.{queue_init, queue_in, queue_out}
use wuros.Proc.{Procs, waiting, proc_at, put_proc, pid_to_proc}
use wuros.Proc.Valid.{IsWellFormed, put_proc-IsWellFormed}
use wuros.Scheduler.{scheduler_add, scheduler_remove}
use wuros.Scheduler.Invariant.{scheduler_remove-IsWellFormed, scheduler_add-KeepsProcs}
use wuros.Kmutex.{
  Mutex, Mutexes, mutex_max, mutex_at, invalid_id, wait_as, wait_by, lock_by, lock, hand_over,
  unlock_by, unlock, on_mutex, kmutexes_init, fill_ids, kmutex_init, kmutex_destroy, kmutex_lock,
  kmutex_unlock,
}

abbrev OneMutex : ℤ × Procs × Mutex → Type 0
OneMutex r = IsWellFormed r.1

abbrev pub WithMutexes : ℤ × Mutexes → Type 0
WithMutexes r = IsWellFormed r.1.procs

wait_as-IsWellFormed :
    (s : Procs) (a : ℕ) (m : Mutex) → IsWellFormed s → Keeps OneMutex (wait_as s a m)
unfolding wait_as
wait_as-IsWellFormed s a m w =
    let s1 = put_proc s a (record (proc_at s a) { state = waiting }) in
    let w1 = put_proc-IsWellFormed s a (record (proc_at s a) { state = waiting }) w in
    Keeps-elim OneMutex (queue_in m.wait_queue (proc_at s a).pid) (ok (minus_one, s1, m)) _ w1
      (λ q e.
        Keeps-bind IsWellFormed OneMutex (scheduler_remove s1 (some a)) _
          (Keeps-of_Ends IsWellFormed _ (scheduler_remove-IsWellFormed s1 a w1)) (λ s2 w2. w2))

wait_by-IsWellFormed :
    (s : Procs) (m : Mutex) (o : Option ℕ) → IsWellFormed s → Keeps OneMutex (wait_by s m o)
unfolding wait_by
wait_by-IsWellFormed s m none w = w
wait_by-IsWellFormed s m (some a) w = wait_as-IsWellFormed s a m w

lock_by-IsWellFormed :
    (s : Procs) (m : Mutex) (o : Option ℕ) → IsWellFormed s → Keeps OneMutex (lock_by s m o)
unfolding lock_by
lock_by-IsWellFormed s m none w = w
lock_by-IsWellFormed s m (some a) w = wait_by-IsWellFormed s m s.active_proc w

hand_over-IsWellFormed : (s : Procs) (m : Mutex) → IsWellFormed s → Keeps OneMutex (hand_over s m)
unfolding hand_over
hand_over-IsWellFormed s m w =
    Keeps-elim OneMutex (queue_out m.wait_queue) (ok (minus_one, s, m)) _ w (λ r e.
      Keeps-bind IsWellFormed OneMutex (scheduler_add s (pid_to_proc s r.0)) _
        (scheduler_add-KeepsProcs s (pid_to_proc s r.0) w) (λ s2 w2. w2))

unlock_by-IsWellFormed :
    (s : Procs) (m : Mutex) (o : Option ℕ) → IsWellFormed s → Keeps OneMutex (unlock_by s m o)
unfolding unlock_by
unlock_by-IsWellFormed s m none w = w
unlock_by-IsWellFormed s m (some a) w =
    let m' = record m { locks = decr m.locks } in
    Keeps-if OneMutex (eq_ℤ (decr m.locks) (pos 0))
      (ok (decr m.locks, s, record m' { owner = none })) (hand_over s m') w
      (hand_over-IsWellFormed s m' w)

on_mutex-IsWellFormed :
    (f : Procs → Mutex → Outcome (ℤ × Procs × Mutex))
    → ((s : Procs) (m : Mutex) → IsWellFormed s → Keeps OneMutex (f s m))
    → (s : Mutexes) (id : ℤ) → IsWellFormed s.procs
    → Keeps WithMutexes (on_mutex f s id)
unfolding on_mutex
on_mutex-IsWellFormed f keep s id w =
    Keeps-if WithMutexes (invalid_id id mutex_max) (ok (minus_one, s)) _ w (
      Keeps-bind OneMutex WithMutexes (f s.procs (mutex_at s (to_ℕ id))) _
        (keep s.procs (mutex_at s (to_ℕ id)) w) (λ r wr. wr))

pub kmutex_lock-IsWellFormed :
    (s : Mutexes) (id : ℤ) → IsWellFormed s.procs → Keeps WithMutexes (kmutex_lock s id)
unfolding kmutex_lock lock
kmutex_lock-IsWellFormed = on_mutex-IsWellFormed lock (λ s m w. lock_by-IsWellFormed s m m.owner w)

pub kmutex_unlock-IsWellFormed :
    (s : Mutexes) (id : ℤ) → IsWellFormed s.procs → Keeps WithMutexes (kmutex_unlock s id)
unfolding kmutex_unlock unlock
kmutex_unlock-IsWellFormed =
    on_mutex-IsWellFormed unlock (λ s m w. unlock_by-IsWellFormed s m m.owner w)

-- The other operations do not touch the processes.
pub kmutex_init-IsWellFormed : (s : Mutexes) → IsWellFormed s.procs → WithMutexes (kmutex_init s)
unfolding kmutex_init
kmutex_init-IsWellFormed s w =
    holds-elim WithMutexes (queue_out s.mutex_queue) (minus_one, s) _ w
      (λ r. holds-if WithMutexes (invalid_id r.0 mutex_max) _ _ w w)

module _ (after_free : Mutex → Mutex) where
  pub kmutex_destroy-IsWellFormed :
      (s : Mutexes) (id : ℤ) → IsWellFormed s.procs → WithMutexes (kmutex_destroy after_free s id)
  unfolding kmutex_destroy
  kmutex_destroy-IsWellFormed s id w =
      holds-if WithMutexes (invalid_id id mutex_max) (minus_one, s) _ w
        (holds-if WithMutexes (lt_ℤ (pos 0) (mutex_at s (to_ℕ id)).locks) (minus_one, s) _ w
          (holds-elim WithMutexes (queue_in s.mutex_queue id) (minus_one, s) _ w (λ q. w)))

pub kmutexes_init-procs : (s : Mutexes) → (kmutexes_init s).1.procs ≡ s.procs
unfolding kmutexes_init
kmutexes_init-procs s = elim (Option-cases (fill_ids mutex_max 0 (queue_init s.mutex_queue))) [
  | inl e ↦ rw (e, kmutexes_init) refl
  | inr (q, e) ↦ rw (e, kmutexes_init) refl
]
