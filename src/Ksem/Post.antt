-- ===== src/Ksem/Post.antt =====
-- src/ksem.c: ksem_post wakes the first waiter or counts up.
use wuros.Prelude.{
  ℕ, suc, ◌+◌, ◌≤◌, ◌==◌, true, false, ◌≡◌, refl, ap, ◌∙◌, sym, ◌⊎◌, inl, inr, ℤ, pos, minus_one,
  incr, decr, eq_ℤ, [], ◌∷◌, Option, none, some, Outcome, ok, stop, fault, panic, ◌>>=◌, arith,
  if◌then◌else◌, Option-cases, length, get_elem?-none,
}
use wuros.Queue.{Queue, queue_out}
use wuros.Queue.Valid.{contents, length-contents}
use wuros.Queue.Refine.{queue_out-Popped}
use wuros.Proc.{Procs, pid_to_proc}
use wuros.Scheduler.{scheduler_add}
use wuros.Ksem.{Sem, Sems, wake_first, post, ksem_post, sem_max}
use wuros.Ksem.Wait.{IsSound}

-- What ksem_post may do on a semaphore of count `c`.
abbrev pub Posts : Procs → Sem → ℕ → Outcome (ℤ × Procs × Sem) → Type 0
Posts s m c r =
    ((contents m.wait_queue ≡ [])
      × (r ≡ ok (minus_one, s, record m { count = pos (suc c) }))
      × IsSound (record m { count = pos (suc c) }))
    ⊎ ((w : ℤ) × (q : Queue) × (contents m.wait_queue ≡ w ∷ contents q)
        × (((pid_to_proc s w ≡ none) × (r ≡ stop panic))
            ⊎ ((e : ℕ) × (pid_to_proc s w ≡ some e)
                × (r ≡ (
                    scheduler_add s (some e) >>= λ s'.
                    ok (pos c, s', record m { wait_queue = q; count = pos c })))))
        × IsSound (record m { wait_queue = q; count = pos c }))

wake_first_to :
    (s : Procs) (w : ℤ) (q : Queue) (m : Sem) (proc : Option ℕ)
    → queue_out m.wait_queue ≡ some (w, q)
    → pid_to_proc s w ≡ proc
    → wake_first s m ≡ (
        scheduler_add s proc >>= λ s'.
        ok (decr m.count, s', record m { wait_queue = q; count = decr m.count }))
unfolding wake_first
wake_first_to s w q m proc h found =
    rw (h, wake_first)
      (ap
        (λ p. scheduler_add s p >>= λ s'.
          ok (decr m.count, s', record m { wait_queue = q; count = decr m.count }))
        found)

-- The tests of ksem_post, with what they read as arguments
post_on : Procs → Sem → ℤ → ℤ → ℕ → Outcome (ℤ × Procs × Sem)
post_on s m allocated count size =
    if eq_ℤ allocated (pos 0)
    then ok (minus_one, s, m)
    else if if size == 0 then true else false
    then ok (minus_one, s, record m { count = incr count })
    else wake_first s (record m { count = incr count })

post_by_fields :
    (s : Procs) (m : Sem) (c n : ℕ)
    → m.allocated ≡ pos 1
    → m.count ≡ pos c
    → m.wait_queue.size ≡ n
    → post s m ≡ post_on s m (pos 1) (pos c) n
unfolding post post_on
post_by_fields s m c n used count size =
    ap (λ z. post_on s m z m.count m.wait_queue.size) used
    ∙ ap (λ z. post_on s m (pos 1) z m.wait_queue.size) count
    ∙ ap (post_on s m (pos 1) (pos c)) size

post_wakes :
    (s : Procs) (m : Sem) (c n : ℕ)
    → m.allocated ≡ pos 1
    → m.count ≡ pos c
    → m.wait_queue.size ≡ suc n
    → post s m ≡ wake_first s (record m { count = pos (suc c) })
unfolding post_on
post_wakes s m c n used count size = post_by_fields s m c (suc n) used count size ∙ ground arith

post_counts :
    (s : Procs) (m : Sem) (c : ℕ)
    → m.allocated ≡ pos 1
    → m.count ≡ pos c
    → m.wait_queue.size ≡ 0
    → post s m ≡ ok (minus_one, s, record m { count = pos (suc c) })
unfolding post_on
post_counts s m c used count size =
    post_by_fields s m c 0 used count size
    ∙ ap (λ z. ok (minus_one, s, record m { count = pos z })) one_more
  where
    one_more : c + 1 ≡ suc c
    one_more = omega arith

-- A semaphore with a waiter has the count 0.
still_counted :
    (m : Sem) (c : ℕ) (w : ℤ) (q : Queue)
    → IsSound m
    → m.count ≡ pos c
    → contents m.wait_queue ≡ w ∷ contents q
    → (c ≡ 0) ⊎ (contents q ≡ [])
still_counted m c w q v count split =
    let (d, same, either) = v.counted in
    elim either [
      | inl none_left ↦ inl (ground arith)
      | inr nobody ↦ absurd (ground (arith, nobody, split))
    ]

-- ksem_post on a sound semaphore of count `c`: without a waiter the count goes up by one, and the
-- result is -1 all the same; otherwise the count stays `c`, and the first waiter leaves the wait
-- queue, the others in order, and is passed to scheduler_add. When that process no longer exists the
-- kernel panics. The semaphore stays sound.
pub post-Posts :
    (s : Procs) (m : Sem) (c : ℕ) → IsSound m → m.count ≡ pos c → Posts s m c (post s m)
unfolding post_on scheduler_add
post-Posts s m c v count = elim (queue_out-Popped m.wait_queue v.waiters) [
  | inl (nobody, h) ↦ inl (
    nobody,
    post_counts s m c v.in_use count (sym (length-contents m.wait_queue) ∙ ap length nobody),
    record { in_use = v.in_use; waiters = v.waiters; counted = (suc c, refl, inr nobody) },
  )
  | inr (w, q, h, vq, split) ↦
      let n = length (contents q) in
      let size : m.wait_queue.size ≡ suc n = sym (length-contents m.wait_queue) ∙ ap length split in
      let m1 = record m { count = pos (suc c) } in
      let wakes = post_wakes s m c n v.in_use count size in
      inr (
        w,
        q,
        split,
        elim (Option-cases (pid_to_proc s w)) [
          | inl gone ↦ inl (gone, wakes ∙ wake_first_to s w q m1 none h gone)
          | inr (e, found) ↦ inr (e, found, wakes ∙ wake_first_to s w q m1 (some e) h found)
        ],
        record {
          in_use = v.in_use;
          waiters = vq;
          counted = (c, refl, still_counted m c w q v count split);
        },
      )
]

-- ksem_post tests no bound: for the id SEM_MAX, which the test of the system call lets pass, and
-- any greater one, the access to the table is undefined behaviour.
pub ksem_post_faults :
    (s : Sems) (id : ℕ)
    → length s.semaphores ≡ sem_max
    → sem_max ≤ id
    → ksem_post s (pos id) ≡ stop fault
unfolding ksem_post
ksem_post_faults s id size le = rw (get_elem?-none s.semaphores id (omega arith), ksem_post) refl
