-- ===== src/Timer/Register.antt =====
-- src/timer.c: what timer_callback_register does.
use wuros.Prelude.{
  ℕ, zero, suc, pos, ◌+◌, ◌≤◌, ◌∙◌, sym, ap, List, ◌++◌, append_assoc, append-nil, length,
  length-append, arith, ◌≡◌, refl, ◌⊎◌, inl, inr, ℤ, minus_one, to_ℕ, [], ◌∷◌, some, set,
}
use wuros.Queue.{Queue, queue_size, queue_init}
use wuros.Queue.Valid.{IsValid, contents, queue_init-IsValid, contents-queue_init}
use wuros.Queue.Refine.{queue_out-Popped, queue_out_first, queue_in_last}
use wuros.Timer.{Timers, timers_max, timer_init, fill_timers, timer_callback_register}
use wuros.Queue.Ids.{ids}

-- What timer_callback_register may do.
abbrev pub Registers : Timers → ℕ → ℤ → ℤ → ℤ × Timers → Type 0
Registers s f interval repeat r =
    ((contents s.timer_allocator ≡ []) × (r ≡ (minus_one, s)))
    ⊎ ((id : ℤ) × (q : Queue) × (contents s.timer_allocator ≡ id ∷ contents q)
        × IsValid q
        × (r ≡ (
          id,
          record s {
            timer_allocator = q;
            timers =
                set s.timers (to_ℕ id)
                  (record { callback = some f; interval = interval; repeat = repeat });
          },
        )))

-- timer_callback_register of a callback that is not null, with a valid allocator: it takes the first
-- free id, and fills that entry only; it fails, with nothing changed, exactly when no id is free.
pub timer_callback_register-Registers :
    (s : Timers) (f : ℕ) (interval repeat : ℤ)
    → IsValid s.timer_allocator
    → Registers s f interval repeat (timer_callback_register s (some f) interval repeat)
unfolding timer_callback_register
timer_callback_register-Registers s f interval repeat v =
    elim (queue_out-Popped s.timer_allocator v) [
      | inl (nothing, h) ↦ inl (nothing, rw (h, timer_callback_register) refl)
      | inr (id, q, h, vq, split) ↦ inr (id, q, split, vq, rw (h, timer_callback_register) refl)
    ]

fills :
    (n i : ℕ) (q : Queue)
    → IsValid q
    → n + length (contents q) ≤ queue_size
    → IsValid (fill_timers n i q) × (contents (fill_timers n i q) ≡ contents q ++ ids n i)
unfolding fill_timers
fills zero i q v room = (v, sym (append-nil (contents q)))
fills (suc n) i q v room =
    let (q1, h, v1, c1) = queue_in_last q (pos i) v (omega arith) in
    let (v2, c2) =
      fills n (i + 1) q1 v1
        (omega (arith, ap length c1, length-append (contents q) (pos i ∷ []))) in
    rw (h, fill_timers)
      (
        v2,
        c2
            ∙ ap (λ l. l ++ ids n (i + 1)) c1
            ∙ append_assoc (contents q) (pos i ∷ []) (ids n (i + 1)),
      )

-- After timer_init every id of the table is free.
pub timer_init-ids :
    (s : Timers)
    → length s.timer_allocator.items ≡ queue_size
    → IsValid (timer_init s).timer_allocator
      × (contents (timer_init s).timer_allocator ≡ ids timers_max 0)
unfolding timer_init
timer_init-ids s h =
    let q = queue_init s.timer_allocator in
    let (v, c) =
      fills timers_max 0 q (queue_init-IsValid s.timer_allocator h)
        (omega (arith, ap length (contents-queue_init s.timer_allocator))) in
    (v, c ∙ ap (λ l. l ++ ids timers_max 0) (contents-queue_init s.timer_allocator))

-- timer_callback_register takes the first id that is free.
pub register_first :
    (s : Timers) (f : ℕ) (interval repeat : ℤ) (id : ℤ) (rest : List ℤ)
    → IsValid s.timer_allocator
    → contents s.timer_allocator ≡ id ∷ rest
    → (q : Queue) × (timer_callback_register s (some f) interval repeat ≡ (
      id,
      record s {
        timer_allocator = q;
        timers =
            set s.timers
              (to_ℕ id)
              (record { callback = some f; interval = interval; repeat = repeat });
      },
    ))
      × IsValid q
      × (contents q ≡ rest)
unfolding timer_callback_register
register_first s f interval repeat id rest v c =
    let (q, h, vq, cq) = queue_out_first s.timer_allocator id rest v c in
    (q, rw (h, timer_callback_register) refl, vq, cq)
