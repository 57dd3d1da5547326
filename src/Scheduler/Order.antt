-- ===== src/Scheduler/Order.antt =====
-- src/scheduler.c: the order in which scheduler_remove leaves the other processes.
use wuros.Prelude.{
  ℕ, suc, ◌+◌, ◌-◌, ◌≤◌, ◌≡◌, ap, ◌∙◌, ℤ, List, [], ◌∷◌, ◌++◌, append_assoc, arith, length,
  length-append,
}
use wuros.Queue.{Queue, queue_size}
use wuros.Queue.Valid.{IsValid, contents, length-contents, size-le}
use wuros.Proc.{Procs, proc_at}
use wuros.Scheduler.{remove_loop}
use wuros.Scheduler.Remove.{
  Avoids, GoesOn, LeavesOrder, loop_drops, loop_ends, loop_rotates, removes_as,
}

-- The rounds up to the one that takes the process out.
loop_finds :
    (xs ys : List ℤ) (fuel : ℕ) (pid : ℤ) (q : Queue)
    → IsValid q
    → contents q ≡ xs ++ pid ∷ ys
    → Avoids pid xs
    → GoesOn (length xs + suc fuel) 0 pid q (ys ++ xs) fuel (length xs + 1)
loop_finds xs ys fuel pid q v c a =
    let (q1, e1, v1, c1) =
      loop_rotates xs (pid ∷ ys) (suc fuel) 0 pid q v c a
        (omega (arith, ap length c, length-append xs (pid ∷ ys), length-contents q)) in
    let (q2, e2, v2, c2) =
      loop_drops fuel (length xs) pid (ys ++ xs) q1 v1 c1
        (omega (arith, ap length c1, length-append ys xs, length-contents q1)) in
    (q2, e1 ∙ ap (λ j. remove_loop (suc fuel) j q1 pid) (omega arith) ∙ e2, v2, c2)

-- scheduler_remove of a process whose id stands last in the run queue, and nowhere else in it, takes
-- it out; the others keep their order.
pub scheduler_remove_last :
    (s : Procs) (e : ℕ) (xs : List ℤ)
    → IsValid s.run_queue
    → contents s.run_queue ≡ xs ++ (proc_at s e).pid ∷ []
    → Avoids (proc_at s e).pid xs
    → LeavesOrder s e xs
scheduler_remove_last s e xs v c a =
    let pid = (proc_at s e).pid in
    let fuel = queue_size - suc (length xs) in
    let fits = length-append xs (pid ∷ []) in
    let (q, h, vq, cq) = loop_finds xs [] fuel pid s.run_queue v c a in
    (
      q,
      removes_as s e q (
          ap (λ f. remove_loop f 0 s.run_queue pid)
            (omega (arith, fits, ap length c, length-contents s.run_queue, size-le s.run_queue v))
          ∙ h
          ∙ loop_ends fuel (length xs + 1) pid q (omega (arith, ap length cq, length-contents q))),
      vq,
      cq,
    )

-- scheduler_remove of a process whose id stands once in the run queue, and not last: the round that
-- takes it out makes the queue shorter, so that the loop stops one round early, and the process that
-- was last stands at the front.
pub scheduler_remove_middle :
    (s : Procs) (e : ℕ) (xs ys : List ℤ) (last : ℤ)
    → IsValid s.run_queue
    → contents s.run_queue ≡ xs ++ (proc_at s e).pid ∷ (ys ++ last ∷ [])
    → Avoids (proc_at s e).pid xs
    → Avoids (proc_at s e).pid ys
    → LeavesOrder s e (last ∷ xs ++ ys)
scheduler_remove_middle s e xs ys last v c a b =
    let pid = (proc_at s e).pid in
    let fuel = queue_size - suc (length xs + length ys) in
    let total : length xs + length ys + 2 ≤ queue_size = omega (
      arith,
      ap length c,
      length-append xs (pid ∷ (ys ++ last ∷ [])),
      length-append ys (last ∷ []),
      length-contents s.run_queue,
      size-le s.run_queue v,
    ) in
    let (q1, h1, v1, c1) =
      loop_finds xs (ys ++ last ∷ []) (length ys + fuel) pid s.run_queue v c a in
    let (q2, h2, v2, c2) =
      loop_rotates ys (last ∷ xs) fuel (length xs + 1) pid q1 v1
        (c1 ∙ append_assoc ys (last ∷ []) xs) b
        (omega (
          arith,
          ap length c1,
          length-append (ys ++ last ∷ []) xs,
          length-append ys (last ∷ []),
          length-contents q1,
        )) in
    (
      q2,
      removes_as s e q2 (
          ap (λ f. remove_loop f 0 s.run_queue pid) (omega (arith, total))
          ∙ h1
          ∙ h2
          ∙ loop_ends fuel (length xs + 1 + length ys) pid q2
              (omega (arith, ap length c2, length-append (last ∷ xs) ys, length-contents q2))),
      v2,
      c2,
    )
