-- ===== src/Ksem/Invariant.antt =====
-- src/ksem.c: waiting and posting keep the processes well formed.
use wuros.Prelude.{
  ℕ, ◌≡◌, refl, inl, inr, Option-cases, ℤ, pos, negsuc, get_elem?, stop, fault, minus_one, to_ℕ,
  incr, eq_ℤ, Option, none, some, ok, Keeps, Keeps-bind, Keeps-of_Ends, Keeps-if, Keeps-elim,
  holds-if, holds-elim, lt_ℤ,
}
use wuros.Queue.{queue_init, queue_in, queue_out, queue_is_empty}
use wuros.Proc.{Procs, waiting, proc_at, put_proc, pid_to_proc}
use wuros.Proc.Valid.{IsWellFormed, put_proc-IsWellFormed}
use wuros.Scheduler.{scheduler_add, scheduler_remove}
use wuros.Scheduler.Invariant.{scheduler_remove-IsWellFormed, scheduler_add-KeepsProcs}
use wuros.Kmutex.{fill_ids}
use wuros.Ksem.{
  Sem, Sems, sem_at, invalid_sem, wait_as, wait_by, wait, wake_first, post, ksemaphores_init,
  sem_max, ksem_init, ksem_destroy, ksem_wait, ksem_post,
}

abbrev OneSem : ℤ × Procs × Sem → Type 0
OneSem r = IsWellFormed r.1

abbrev pub WithSems : ℤ × Sems → Type 0
WithSems r = IsWellFormed r.1.procs

wait_as-IsWellFormed : (s : Procs) (a : ℕ) (m : Sem) → IsWellFormed s → Keeps OneSem (wait_as s a m)
unfolding wait_as
wait_as-IsWellFormed s a m w =
    let s1 = put_proc s a (record (proc_at s a) { state = waiting }) in
    let w1 = put_proc-IsWellFormed s a (record (proc_at s a) { state = waiting }) w in
    Keeps-elim OneSem (queue_in m.wait_queue (proc_at s a).pid) (ok (minus_one, s1, m)) _ w1 (λ q e.
      Keeps-bind IsWellFormed OneSem (scheduler_remove s1 (some a)) _
        (Keeps-of_Ends IsWellFormed _ (scheduler_remove-IsWellFormed s1 a w1)) (λ s2 w2. w2))

wait_by-IsWellFormed :
    (s : Procs) (m : Sem) (o : Option ℕ) → IsWellFormed s → Keeps OneSem (wait_by s m o)
unfolding wait_by
wait_by-IsWellFormed s m none w = w
wait_by-IsWellFormed s m (some a) w = wait_as-IsWellFormed s a m w

wait-IsWellFormed : (s : Procs) (m : Sem) → IsWellFormed s → Keeps OneSem (wait s m)
unfolding wait
wait-IsWellFormed s m w = Keeps-if OneSem (eq_ℤ m.allocated (pos 0)) (ok (minus_one, s, m)) _ w (
    Keeps-if OneSem (eq_ℤ m.count (pos 0)) (wait_by s m s.active_proc) _
      (wait_by-IsWellFormed s m s.active_proc w)
      (Keeps-if OneSem (lt_ℤ (pos 0) m.count) _ (ok (minus_one, s, m)) w w))

pub ksem_wait-IsWellFormed :
    (s : Sems) (id : ℤ) → IsWellFormed s.procs → Keeps WithSems (ksem_wait s id)
unfolding ksem_wait
ksem_wait-IsWellFormed s id w = Keeps-if WithSems (invalid_sem id) (ok (minus_one, s)) _ w (
    Keeps-bind OneSem WithSems (wait s.procs (sem_at s (to_ℕ id))) _
      (wait-IsWellFormed s.procs (sem_at s (to_ℕ id)) w) (λ r wr. wr))

wake_first-IsWellFormed : (s : Procs) (m : Sem) → IsWellFormed s → Keeps OneSem (wake_first s m)
unfolding wake_first
wake_first-IsWellFormed s m w =
    Keeps-elim OneSem (queue_out m.wait_queue) (ok (minus_one, s, m)) _ w (λ r e.
      Keeps-bind IsWellFormed OneSem (scheduler_add s (pid_to_proc s r.0)) _
        (scheduler_add-KeepsProcs s (pid_to_proc s r.0) w) (λ s2 w2. w2))

post-IsWellFormed : (s : Procs) (m : Sem) → IsWellFormed s → Keeps OneSem (post s m)
unfolding post
post-IsWellFormed s m w =
    let m' = record m { count = incr m.count } in
    Keeps-if OneSem (eq_ℤ m.allocated (pos 0)) (ok (minus_one, s, m)) _ w (
      Keeps-if OneSem (queue_is_empty m.wait_queue) (ok (minus_one, s, m')) (wake_first s m') w
        (wake_first-IsWellFormed s m' w))

pub ksem_post-IsWellFormed :
    (s : Sems) (id : ℤ) → IsWellFormed s.procs → Keeps WithSems (ksem_post s id)
unfolding ksem_post
ksem_post-IsWellFormed s (negsuc n) w = tt
ksem_post-IsWellFormed s (pos id) w =
    Keeps-elim WithSems (get_elem? s.semaphores id) (stop fault) _ tt (λ m e.
      Keeps-bind OneSem WithSems (post s.procs m) _ (post-IsWellFormed s.procs m w) (λ r wr. wr))

-- The other operations do not touch the processes.
pub ksem_init-IsWellFormed :
    (s : Sems) (value : ℤ) → IsWellFormed s.procs → WithSems (ksem_init s value)
unfolding ksem_init
ksem_init-IsWellFormed s value w =
    holds-elim WithSems (queue_out s.sem_queue) (minus_one, s) _ w
      (λ r. holds-if WithSems (invalid_sem r.0) _ _ w w)

module _ (after_free : Sem → Sem) where
  pub ksem_destroy-IsWellFormed :
      (s : Sems) (id : ℤ) → IsWellFormed s.procs → WithSems (ksem_destroy after_free s id)
  unfolding ksem_destroy
  ksem_destroy-IsWellFormed s id w =
      holds-if WithSems (invalid_sem id) (minus_one, s) _ w
        (holds-if WithSems (eq_ℤ (sem_at s (to_ℕ id)).allocated (pos 0)) (minus_one, s) _ w
          (holds-if WithSems (eq_ℤ (sem_at s (to_ℕ id)).count (pos 0)) (minus_one, s) _ w
            (holds-elim WithSems (queue_in s.sem_queue id) (minus_one, s) _ w (λ q. w))))

pub ksemaphores_init-procs : (s : Sems) → (ksemaphores_init s).1.procs ≡ s.procs
unfolding ksemaphores_init
ksemaphores_init-procs s = elim (Option-cases (fill_ids sem_max 0 (queue_init s.sem_queue))) [
  | inl e ↦ rw (e, ksemaphores_init) refl
  | inr (q, e) ↦ rw (e, ksemaphores_init) refl
]
