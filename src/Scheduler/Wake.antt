-- ===== src/Scheduler/Wake.antt =====
-- src/scheduler.c: the loop of scheduler_timer over the sleep queue.
use wuros.Prelude.{
  ℕ, zero, suc, ◌+◌, ◌≤◌, ◌<◌, ◌≡◌, sym, ap, ◌∙◌, ◌≢◌, inl, inr, ℤ, pos, decr, eq_ℤ, eq_ℤ_iff, ltb,
  false, true, Bool-cases, Option-cases, [], ◌∷◌, none, some, Outcome, ok, Ends, Ends-bind,
  Ends-of_eq, Ends-of_panic, Ends-map, arith, length, length-append,
}
use wuros.Queue.{Queue, queue_size, queue_is_empty}
use wuros.Queue.Valid.{IsValid, contents, length-contents, size-le}
use wuros.Queue.Refine.{queue_in-Pushed, queue_out-Popped}
use wuros.Proc.{Procs, proc_at, put_proc, pid_to_proc}
use wuros.Proc.Valid.{IsWellFormed, put_proc-IsWellFormed}
use wuros.Scheduler.{scheduler_timer, wake, sleep_on, wake_one, wake_loop, charge_active}
use wuros.Scheduler.Run.{scheduler_add-Adds, set_runs-IsWellFormed}

-- A rule for the loop: what each round keeps, the loop keeps, and it ends within the fuel.
abbrev Within : (Procs → Type 0) → ℕ → Procs → Type 0
Within P n s = P s × (s.sleep_queue.size ≤ n)

wake_loop_rule :
    (P : Procs → Type 0) (n : ℕ)
    → ((s : Procs) → Within P n s → Ends (Within P n) (wake_one s))
    → (fuel i : ℕ) (s : Procs) → n ≤ i + fuel
    → Within P n s
    → Ends (Within P n) (wake_loop fuel i s)
unfolding wake_loop
wake_loop_rule P n keep zero i s h w = elim (Bool-cases (ltb i s.sleep_queue.size)) [
  | inl more ↦ absurd (ground (arith, w.1))
  | inr done ↦ rw done w
]
wake_loop_rule P n keep (suc fuel) i s h w = elim (Bool-cases (ltb i s.sleep_queue.size)) [
  | inl more ↦
      rw (more, Ends)
        (Ends-bind (Within P n) (Within P n) (wake_one s) (wake_loop fuel (i + 1)) (keep s w)
          (λ s' w'. wake_loop_rule P n keep fuel (i + 1) s' (omega arith) w'))
  | inr done ↦ rw (done, Ends) w
]

-- The cases of one round: nothing was queued; the process is gone; it wakes; it sleeps on.
wake_one_rule :
    (P : Outcome Procs → Type 0) (s : Procs)
    → IsValid s.sleep_queue
    → (contents s.sleep_queue ≡ [] → P (ok s))
    → ((pid : ℤ) (q : Queue)
        → IsValid q
        → contents s.sleep_queue ≡ pid ∷ contents q
        → let s' = record s { sleep_queue = q } in
          (pid_to_proc s' pid ≡ none → P (ok s'))
          × ((e : ℕ)
              → pid_to_proc s' pid ≡ some e
              → ((proc_at s' e).sleep_time ≡ pos 1 → P (wake s' e))
                × ((proc_at s' e).sleep_time ≢ pos 1 → P (ok (sleep_on s' e pid)))))
    → P (wake_one s)
unfolding wake_one
wake_one_rule P s v nothing popped = elim (queue_out-Popped s.sleep_queue v) [
  | inl (none_left, h) ↦ rw (h, wake_one) (nothing none_left)
  | inr (pid, q, h, vq, c) ↦
      let s' = record s { sleep_queue = q } in
      let (gone, present) = popped pid q vq c in
      elim (Option-cases (pid_to_proc s' pid)) [
        | inl e ↦ rw (h, wake_one) (rw (e, wake_one) (gone e))
        | inr (e, found) ↦
            let (wakes, waits) = present e found in
            elim (Bool-cases (eq_ℤ (proc_at s' e).sleep_time (pos 1))) [
              | inl due ↦
                  rw (h, wake_one)
                    (rw (found, wake_one) (rw due (wakes ((eq_ℤ_iff _ (pos 1)).0 due))))
              | inr early ↦
                  rw (h, wake_one)
                    (rw (found, wake_one)
                      (rw early
                        (waits (λ same. true≢false' (sym ((eq_ℤ_iff _ (pos 1)).1 same) ∙ early)))))
            ]
      ]
]
  where
    true≢false' : true ≡ false → ⊥
    true≢false' e = cc

set_sleeps-IsWellFormed :
    (s : Procs) (q : Queue)
    → IsWellFormed s
    → IsValid q
    → IsWellFormed (record s { sleep_queue = q })
set_sleeps-IsWellFormed s q w vq = record {
  allocator = w.allocator;
  runs = w.runs;
  sleeps = vq;
  table = w.table;
  active_in = w.active_in;
}

wake-Within :
    (s : Procs) (e n : ℕ) → Within IsWellFormed n s → Ends (Within IsWellFormed n) (wake s e)
unfolding wake
wake-Within s e n (w, le) =
    let p = record (proc_at s e) { sleep_time = pos 0 } in
    let s1 = put_proc s e p in
    let w1 = put_proc-IsWellFormed s e p w in
    elim (scheduler_add-Adds s1 e w1.runs) [
      | inl (zero_pid, r) ↦ Ends-of_eq (Within IsWellFormed n) _ s1 r (w1, le)
      | inr (inl (full, r)) ↦ Ends-of_panic (Within IsWellFormed n) _ r
      | inr (inr (q, r, vq, c)) ↦
          Ends-of_eq (Within IsWellFormed n) _ _ r
            (put_proc-IsWellFormed _ e _ (set_runs-IsWellFormed s1 q w1 vq), le)
    ]

sleep_on-Within :
    (s : Procs) (e n : ℕ) (pid : ℤ)
    → Within IsWellFormed n s
    → s.sleep_queue.size < n
    → Within IsWellFormed n (sleep_on s e pid)
unfolding sleep_on
sleep_on-Within s e n pid (w, le) lt =
    let p = record (proc_at s e) { sleep_time = decr (proc_at s e).sleep_time } in
    let w1 = put_proc-IsWellFormed s e p w in
    elim (queue_in-Pushed s.sleep_queue pid w.sleeps) [
      | inl (full, h) ↦ rw (h, sleep_on) (w1, le)
      | inr (q, h, vq, c, room) ↦
          rw (h, sleep_on)
            (
              set_sleeps-IsWellFormed (put_proc s e p) q w1 vq,
              omega (
                arith,
                ap length c,
                length-append (contents s.sleep_queue) (pid ∷ []),
                length-contents q,
                length-contents s.sleep_queue,
              ),
            )
    ]

wake_one-Within :
    (n : ℕ) (s : Procs) → Within IsWellFormed n s → Ends (Within IsWellFormed n) (wake_one s)
wake_one-Within n s (w, le) =
    wake_one_rule (Ends (Within IsWellFormed n)) s w.sleeps (λ none_left. (w, le))
      λ pid q vq c.
        let shorter : q.size < s.sleep_queue.size =
          omega (arith, ap length c, length-contents q, length-contents s.sleep_queue) in
        let w' : Within IsWellFormed n (record s { sleep_queue = q }) =
          (set_sleeps-IsWellFormed s q w vq, omega arith) in
        (
          λ gone. w',
          λ e found.
              (λ due. wake-Within _ e n w', λ early. sleep_on-Within _ e n pid w' (omega arith)),
        )

charge_active-IsWellFormed : (s : Procs) → IsWellFormed s → IsWellFormed (charge_active s)
unfolding charge_active
charge_active-IsWellFormed s w = elim (Option-cases s.active_proc) [
  | inl e ↦ rw (e, charge_active) w
  | inr (a, e) ↦ rw (e, charge_active) (put_proc-IsWellFormed s a _ w)
]

-- A tick of scheduler_timer on a well-formed state ends with a well-formed state, or panics: the loop
-- over the sleep queue needs at most 32 rounds, and there is no undefined behaviour.
pub scheduler_timer-Ends : (s : Procs) → IsWellFormed s → Ends IsWellFormed (scheduler_timer s)
unfolding scheduler_timer
scheduler_timer-Ends s w =
    let s1 = charge_active s in
    let w1 = charge_active-IsWellFormed s w in
    elim (Bool-cases (queue_is_empty s1.sleep_queue)) [
      | inl nobody ↦ rw (nobody, Ends) w1
      | inr some_sleep ↦
          rw (some_sleep, Ends)
            (Ends-map (Within IsWellFormed queue_size) IsWellFormed (wake_loop queue_size 0 s1)
              (λ s' h. h.0)
              (wake_loop_rule IsWellFormed queue_size (wake_one-Within queue_size) queue_size 0 s1
                (omega arith) (w1, size-le s1.sleep_queue w1.sleeps)))
    ]
