-- ===== src/Ksem/Wait.antt =====
-- src/ksem.c: the invariant of a semaphore, and ksem_wait.
use wuros.Prelude.{
  ℕ, zero, suc, ◌<◌, ◌≡◌, refl, ap, ◌∙◌, ◌⊎◌, inl, inr, ℤ, pos, decr, eq_ℤ, [], ◌∷◌, ◌++◌, some,
  Outcome, ok, arith, length, minus_one, lt_ℤ, if◌then◌else◌,
}
use wuros.Queue.{Queue, queue_size, queue_in}
use wuros.Queue.Valid.{IsValid, contents}
use wuros.Queue.Refine.{queue_in_last}
use wuros.Proc.{Procs, waiting, proc_at, put_proc}
use wuros.Scheduler.{scheduler_remove}
use wuros.Scheduler.Remove.{removed, scheduler_remove_total}
use wuros.Ksem.{Sem, wait, wait_as, wait_by}

-- An allocated semaphore with a count of at least 0, where processes wait only at 0.
pub record IsSound (m : Sem) : Type 0 where
  pub in_use : m.allocated ≡ pos 1
  pub waiters : IsValid m.wait_queue
  pub counted : (c : ℕ) × (m.count ≡ pos c) × ((c ≡ 0) ⊎ (contents m.wait_queue ≡ []))

-- What ksem_wait may do for the active process `a`.
abbrev pub Waits : Procs → ℕ → Sem → Outcome (ℤ × Procs × Sem) → Type 0
Waits s a m r =
    ((c : ℕ) × (m.count ≡ pos (suc c))
      × (r ≡ ok (pos c, s, record m { count = pos c }))
      × IsSound (record m { count = pos c }))
    ⊎ ((m.count ≡ pos 0)
        × (q : Queue) × (run : Queue) × (r
            ≡ ok (
              pos 0,
              removed (put_proc s a (record (proc_at s a) { state = waiting })) a run,
              record m { wait_queue = q },
            ))
        × IsValid run
        × (contents q ≡ contents m.wait_queue ++ (proc_at s a).pid ∷ [])
        × IsSound (record m { wait_queue = q }))

wait_as-eq-ok :
    (s : Procs) (a : ℕ) (m : Sem) (q run : Queue)
    → queue_in m.wait_queue (proc_at s a).pid ≡ some q
    → scheduler_remove (put_proc s a (record (proc_at s a) { state = waiting })) (some a)
      ≡ ok (removed (put_proc s a (record (proc_at s a) { state = waiting })) a run)
    → wait_as s a m
      ≡ ok (
        pos 0,
        removed (put_proc s a (record (proc_at s a) { state = waiting })) a run,
        record m { wait_queue = q },
      )
unfolding wait_as
wait_as-eq-ok s a m q run h r = rw (h, wait_as) (rw r)

-- The tests of ksem_wait and of ksem_post, with the fields they read as arguments
wait_on : Procs → Sem → ℤ → ℤ → Outcome (ℤ × Procs × Sem)
wait_on s m allocated count =
    if eq_ℤ allocated (pos 0)
    then ok (minus_one, s, m)
    else if eq_ℤ count (pos 0)
    then wait_by s m s.active_proc
    else if lt_ℤ (pos 0) count
    then ok (decr count, s, record m { count = decr count })
    else ok (minus_one, s, m)

wait_by_count :
    (s : Procs) (m : Sem) (c : ℤ)
    → m.allocated ≡ pos 1
    → m.count ≡ c
    → wait s m ≡ wait_on s m (pos 1) c
unfolding wait wait_on
wait_by_count s m c used count =
    ap (λ z. wait_on s m z m.count) used ∙ ap (wait_on s m (pos 1)) count

wait_zero :
    (s : Procs) (m : Sem)
    → m.allocated ≡ pos 1
    → m.count ≡ pos 0
    → wait s m ≡ wait_by s m s.active_proc
unfolding wait_on
wait_zero s m used count = wait_by_count s m (pos 0) used count

wait_more :
    (s : Procs) (c : ℕ) (m : Sem)
    → m.allocated ≡ pos 1
    → m.count ≡ pos (suc c)
    → wait s m ≡ ok (pos c, s, record m { count = pos c })
unfolding wait_on
wait_more s c m used count = wait_by_count s m (pos (suc c)) used count ∙ ground arith

-- ksem_wait for the active process, on a sound semaphore whose wait queue has room: a count above 0
-- goes down by one; at 0 the process goes to the end of the wait queue, is taken out of the
-- scheduler and marked as waiting, and the count stays 0. The semaphore stays sound.
pub wait-Waits :
    (s : Procs) (a : ℕ) (m : Sem)
    → IsSound m
    → IsValid s.run_queue
    → s.active_proc ≡ some a
    → length (contents m.wait_queue) < queue_size
    → Waits s a m (wait s m)
unfolding wait_by
wait-Waits s a m v vr act room = wait_counted v.counted
  where
    wait_counted :
        (c : ℕ) × (m.count ≡ pos c) × ((c ≡ 0) ⊎ (contents m.wait_queue ≡ []))
        → Waits s a m (wait s m)
    wait_counted (zero, count, nobody) =
        let s1 = put_proc s a (record (proc_at s a) { state = waiting }) in
        let (q, h, vq, c) = queue_in_last m.wait_queue (proc_at s a).pid v.waiters room in
        let (run, r, vrun, le) = scheduler_remove_total s1 a vr in
        inr (
          count,
          q,
          run,
          wait_zero s m v.in_use count ∙ ap (wait_by s m) act ∙ wait_as-eq-ok s a m q run h r,
          vrun,
          c,
          record { in_use = v.in_use; waiters = vq; counted = (0, count, inl refl) },
        )
    wait_counted (suc c, count, inl none_left) = absurd (ground arith)
    wait_counted (suc c, count, inr nobody) = inl (
      c,
      count,
      wait_more s c m v.in_use count,
      record { in_use = v.in_use; waiters = v.waiters; counted = (c, refl, inr nobody) },
    )
