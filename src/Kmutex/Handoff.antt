-- ===== src/Kmutex/Handoff.antt =====
-- src/kmutex.c: kmutex_unlock hands a mutex to its first waiter.
use wuros.Prelude.{
  ℕ, suc, ◌≡◌, refl, ap, ◌∙◌, ◌⊎◌, inl, inr, ℤ, pos, decr, eq_ℤ, eq_ℤ_ne, [], ◌∷◌, Option, none,
  some, Outcome, ok, stop, panic, ◌>>=◌, arith, length, if◌then◌else◌, Option-cases,
}
use wuros.Queue.{Queue, queue_out}
use wuros.Queue.Valid.{contents}
use wuros.Queue.Refine.{queue_out-Popped}
use wuros.Proc.{Procs, pid_to_proc}
use wuros.Scheduler.{scheduler_add}
use wuros.Kmutex.{Mutex, unlock, unlock_by, hand_over}
use wuros.Kmutex.Sound.{IsSound}

-- What kmutex_unlock may do.
abbrev pub Unlocks : Procs → Mutex → Outcome (ℤ × Procs × Mutex) → Type 0
Unlocks s m r =
    ((m.owner ≡ none) × (r ≡ ok (pos 0, s, m)))
    ⊎ ((contents m.wait_queue ≡ [])
        × (r ≡ ok (pos 0, s, record m { owner = none; locks = pos 0 }))
        × IsSound (record m { owner = none; locks = pos 0 }))
    ⊎ ((w : ℤ) × (q : Queue) × (contents m.wait_queue ≡ w ∷ contents q)
        × (((pid_to_proc s w ≡ none) × (r ≡ stop panic))
            ⊎ ((e : ℕ) × (pid_to_proc s w ≡ some e)
                × (r ≡ (
                    scheduler_add s (some e) >>= λ s'. ok (
                      pos (suc (length (contents q))),
                      s',
                      record m {
                        wait_queue = q;
                        owner = some e;
                        locks = pos (suc (length (contents q)));
                      },
                    )))
                × IsSound (record m {
                  wait_queue = q;
                  owner = some e;
                  locks = pos (suc (length (contents q)));
                }))))

unlock_last :
    (s : Procs) (o : ℕ) (m : Mutex)
    → m.owner ≡ some o
    → m.locks ≡ pos 1
    → unlock s m ≡ ok (pos 0, s, record m { owner = none; locks = pos 0 })
unfolding unlock
unlock_last s o m held count =
    ap (unlock_by s m) held
    ∙ ap
        (λ l.
          let m' = record m { locks = decr l } in
          if eq_ℤ m'.locks (pos 0)
          then ok (m'.locks, s, record m' { owner = none })
          else hand_over s m')
        count

unlock_more :
    (s : Procs) (o n : ℕ) (m : Mutex)
    → m.owner ≡ some o
    → m.locks ≡ pos (suc (suc n))
    → unlock s m ≡ hand_over s (record m { locks = pos (suc n) })
unfolding unlock
unlock_more s o n m held count =
    ap (unlock_by s m) held
    ∙ ap
        (λ l.
          let m' = record m { locks = decr l } in
          if eq_ℤ m'.locks (pos 0)
          then ok (m'.locks, s, record m' { owner = none })
          else hand_over s m')
        count
    ∙ ap
        (λ b.
          let m' = record m { locks = pos (suc n) } in
          if b then ok (m'.locks, s, record m' { owner = none }) else hand_over s m')
        (eq_ℤ_ne (pos (suc n)) (pos 0) (λ e. ground arith))

hand_over_to :
    (s : Procs) (w : ℤ) (q : Queue) (m : Mutex) (proc : Option ℕ)
    → queue_out m.wait_queue ≡ some (w, q)
    → pid_to_proc s w ≡ proc
    → hand_over s m
      ≡ (scheduler_add s proc >>= λ s'. ok (m.locks, s', record m { wait_queue = q; owner = proc }))
unfolding hand_over
hand_over_to s w q m proc h found =
    rw (h, hand_over)
      (ap
        (λ p. scheduler_add s p >>= λ s'. ok (m.locks, s', record m { wait_queue = q; owner = p }))
        found)

-- kmutex_unlock on a sound mutex: one that is free stays as it is; one without waiters becomes free;
-- otherwise the first waiter becomes the owner, the others stay in order, and the new owner is passed
-- to scheduler_add. When the first waiter no longer exists the kernel panics.
pub unlock-Unlocks : (s : Procs) (m : Mutex) → IsSound m → Unlocks s m (unlock s m)
unfolding unlock scheduler_add
unlock-Unlocks s m v = elim v.counted [
  | inl (free, no_locks, nobody) ↦ inl (free, ap (unlock_by s m) free)
  | inr (o, held, count) ↦ elim (queue_out-Popped m.wait_queue v.waiters) [
    | inl (nobody, h) ↦ inr (
        inl (
          nobody,
          unlock_last s o m held (count ∙ ap (λ xs. pos (suc (length xs))) nobody),
          record { waiters = v.waiters; counted = inl (refl, refl, nobody) },
        ))
    | inr (w, q, h, vq, c) ↦
        let n = length (contents q) in
        let more = unlock_more s o n m held (count ∙ ap (λ xs. pos (suc (length xs))) c) in
        inr (
          inr (
            w,
            q,
            c,
            elim (Option-cases (pid_to_proc s w)) [
              | inl gone ↦
                  inl
                    (gone, more ∙ hand_over_to s w q (record m { locks = pos (suc n) }) none h gone)
              | inr (e, found) ↦ inr (
                e,
                found,
                more ∙ hand_over_to s w q (record m { locks = pos (suc n) }) (some e) h found,
                record { waiters = vq; counted = inr (e, refl, refl) },
              )
            ],
          ))
  ]
]
