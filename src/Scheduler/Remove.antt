-- ===== src/Scheduler/Remove.antt =====
-- src/scheduler.c: what scheduler_remove does to the order of the run queue.
use native.Mathlib.Decide.{dec_lt}
use wuros.Prelude.{
  ℕ, zero, suc, ◌+◌, ◌-◌, ◌≤◌, ◌<◌, ◌≡◌, sym, ap, ◌∙◌, ◌≢◌, inl, inr, ℤ, eq_ℤ, eq_ℤ_ne, eq_ℤ_refl,
  List, [], ◌∷◌, ◌++◌, append-nil, append_assoc, some, ok, arith, length, length-append, ap₂,
  Bool-cases, eq_ℤ_iff,
}
use wuros.Queue.{Queue, queue_size}
use wuros.Queue.Valid.{IsValid, contents, length-contents, size-le}
use wuros.Queue.Refine.{queue_out_first, queue_in_last, queue_out-Popped}
use wuros.Proc.{Procs, proc_at}
use wuros.Scheduler.{remove_loop, scheduler_remove, clear_active}

-- No item of the list is `pid`.
abbrev pub Avoids : ℤ → List ℤ → Type 0
Avoids pid [] = Unit {0}
Avoids pid (x ∷ xs) = (pid ≢ x) × Avoids pid xs

-- Where the loop goes on: after the same steps as from `r`, with these contents.
abbrev pub GoesOn : ℕ → ℕ → ℤ → Queue → List ℤ → ℕ → ℕ → Type 0
GoesOn fuel i pid q xs fuel' i' =
    (q' : Queue) × (remove_loop fuel i q pid ≡ remove_loop fuel' i' q' pid)
    × IsValid q'
    × (contents q' ≡ xs)

pub loop_keeps :
    (fuel i : ℕ) (pid x : ℤ) (xs : List ℤ) (q : Queue)
    → IsValid q
    → contents q ≡ x ∷ xs
    → pid ≢ x
    → i < q.size
    → GoesOn (suc fuel) i pid q (xs ++ x ∷ []) fuel (i + 1)
unfolding remove_loop
loop_keeps fuel i pid x xs q v c ne hi =
    let (q1, e1, v1, c1) = queue_out_first q x xs v c in
    let (q2, e2, v2, c2) =
      queue_in_last q1 x v1
        (omega (arith, ap length c, ap length c1, length-contents q, size-le q v)) in
    (q2, ground (arith, e1, e2, eq_ℤ_ne pid x ne), v2, c2 ∙ ap (λ l. l ++ x ∷ []) c1)

pub loop_drops :
    (fuel i : ℕ) (pid : ℤ) (xs : List ℤ) (q : Queue)
    → IsValid q
    → contents q ≡ pid ∷ xs
    → i < q.size
    → GoesOn (suc fuel) i pid q xs fuel (i + 1)
unfolding remove_loop
loop_drops fuel i pid xs q v c hi =
    let (q1, e1, v1, c1) = queue_out_first q pid xs v c in
    (q1, ground (arith, e1, eq_ℤ_refl pid), v1, c1)

pub loop_ends : (fuel i : ℕ) (pid : ℤ) (q : Queue) → q.size ≤ i → remove_loop fuel i q pid ≡ ok q
unfolding remove_loop
loop_ends zero i pid q h = ground arith
loop_ends (suc fuel) i pid q h = ground arith

-- As many rounds as there are other items in front put these behind the rest.
pub loop_rotates :
    (xs rest : List ℤ) (fuel i : ℕ) (pid : ℤ) (q : Queue)
    → IsValid q
    → contents q ≡ xs ++ rest
    → Avoids pid xs
    → i + length xs ≤ q.size
    → GoesOn (length xs + fuel) i pid q (rest ++ xs) fuel (i + length xs)
loop_rotates [] rest fuel i pid q v c a h = (
  q,
  ap₂ (λ f j. remove_loop f j q pid) (omega arith) (omega arith),
  v,
  c ∙ sym (append-nil rest),
)
loop_rotates (x ∷ xs) rest fuel i pid q v c a h =
    let (q1, e1, v1, c1) =
      loop_keeps (length xs + fuel) i pid x (xs ++ rest) q v c a.0 (omega arith) in
    let (q2, e2, v2, c2) =
      loop_rotates xs (rest ++ x ∷ []) fuel (i + 1) pid q1 v1 (c1 ∙ append_assoc xs rest (x ∷ []))
        a.1
        (omega (
          arith,
          ap length c,
          ap length c1,
          length-contents q,
          length-contents q1,
          length-append (xs ++ rest) (x ∷ []),
        )) in
    (
      q2,
      ap (λ f. remove_loop f i q pid) (omega arith)
          ∙ e1
          ∙ e2
          ∙ ap (λ j. remove_loop fuel j q2 pid) (omega arith),
      v2,
      c2 ∙ append_assoc rest (x ∷ []) xs,
    )

-- The loop ends, within the fuel, with a valid queue that is no longer than before.
loop_total :
    (fuel i : ℕ) (pid : ℤ) (q : Queue)
    → IsValid q
    → q.size ≤ i + fuel
    → (q' : Queue) × (remove_loop fuel i q pid ≡ ok q') × IsValid q' × (q'.size ≤ q.size)
loop_total zero i pid q v h = (q, loop_ends zero i pid q (omega arith), v, omega arith)
loop_total (suc fuel) i pid q v h = elim (queue_out-Popped q v) [
  | inl (none_left, e) ↦ (
    q,
    loop_ends (suc fuel) i pid q (omega (arith, ap length none_left, length-contents q)),
    v,
    omega arith,
  )
  | inr (x, r, e, vr, c) ↦ elim (dec_lt i q.size) [
    | no all ↦ (q, loop_ends (suc fuel) i pid q (omega arith), v, omega arith)
    | yes hi ↦ elim (Bool-cases (eq_ℤ pid x)) [
      | inl same ↦
          let (q1, e1, v1, c1) =
            loop_drops fuel i pid (contents r) q v
              (c ∙ ap (λ y. y ∷ contents r) (sym ((eq_ℤ_iff pid x).0 same))) hi in
          let (q2, e2, v2, s2) =
            loop_total fuel (i + 1) pid q1 v1
              (omega (arith, ap length c, ap length c1, length-contents q, length-contents q1)) in
          (
            q2,
            e1 ∙ e2,
            v2,
            omega (arith, ap length c, ap length c1, length-contents q, length-contents q1),
          )
      | inr other ↦
          let (q1, e1, v1, c1) =
            loop_keeps fuel i pid x (contents r) q v c
              (λ eq. absurd (ground (arith, other, (eq_ℤ_iff pid x).1 eq))) hi in
          let (q2, e2, v2, s2) = loop_total fuel (i + 1) pid q1 v1 (
            omega (
              arith,
              ap length c,
              ap length c1,
              length-contents q,
              length-contents q1,
              length-append (contents r) (x ∷ []),
            )) in
          (
            q2,
            e1 ∙ e2,
            v2,
            omega (
              arith,
              ap length c,
              ap length c1,
              length-contents q,
              length-contents q1,
              length-append (contents r) (x ∷ []),
            ),
          )
    ]
  ]
]

-- The state that scheduler_remove leaves, with `q` for the run queue.
abbrev pub removed : Procs → ℕ → Queue → Procs
removed s e q = clear_active (proc_at s e).pid (record s { run_queue = q })

pub removes_as :
    (s : Procs) (e : ℕ) (q : Queue)
    → remove_loop queue_size 0 s.run_queue (proc_at s e).pid ≡ ok q
    → scheduler_remove s (some e) ≡ ok (removed s e q)
unfolding scheduler_remove
removes_as s e q h = rw h

-- scheduler_remove ends without a panic on a valid run queue: its loop runs at most 32 rounds,
-- leaves a valid queue that is no longer, and touches nothing else but the active process.
pub scheduler_remove_total :
    (s : Procs) (e : ℕ)
    → IsValid s.run_queue
    → (q : Queue) × (scheduler_remove s (some e) ≡ ok (removed s e q))
      × IsValid q
      × (q.size ≤ s.run_queue.size)
scheduler_remove_total s e v =
    let (q, h, vq, le) =
      loop_total queue_size 0 (proc_at s e).pid s.run_queue v
        (omega (arith, size-le s.run_queue v)) in
    (q, removes_as s e q h, vq, le)

abbrev pub LeavesOrder : Procs → ℕ → List ℤ → Type 0
LeavesOrder s e xs =
    (q : Queue) × (scheduler_remove s (some e) ≡ ok (removed s e q)) × IsValid q × (contents q ≡ xs)

-- scheduler_remove of a process whose id is not in the run queue: every round puts one item back, and
-- the order is as before.
pub scheduler_remove_absent :
    (s : Procs) (e : ℕ)
    → IsValid s.run_queue
    → Avoids (proc_at s e).pid (contents s.run_queue)
    → LeavesOrder s e (contents s.run_queue)
scheduler_remove_absent s e v a =
    let pid = (proc_at s e).pid in
    let xs = contents s.run_queue in
    let fuel = queue_size - length xs in
    let le = size-le s.run_queue v in
    let (q, h, vq, c) =
      loop_rotates xs [] fuel 0 pid s.run_queue v (sym (append-nil xs)) a
        (omega (arith, length-contents s.run_queue)) in
    (
      q,
      removes_as s e q (
          ap (λ f. remove_loop f 0 s.run_queue pid) (omega (arith, length-contents s.run_queue, le))
          ∙ h
          ∙ loop_ends fuel (0 + length xs) pid q (omega (arith, ap length c, length-contents q))),
      vq,
      c,
    )
