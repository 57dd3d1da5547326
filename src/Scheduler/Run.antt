-- ===== src/Scheduler/Run.antt =====
-- src/scheduler.c: scheduler_add and the choice of the next process by scheduler_run.
use wuros.Prelude.{
  ℕ, ◌≡◌, sym, ap, ◌⊎◌, inl, inr, ℤ, pos, eq_ℤ, eq_ℤ_iff, lt_ℤ, Ends, Ends-bind, Ends-of_eq,
  Ends-of_panic, Bool-cases, Option-cases, List, [], ◌∷◌, ◌++◌, Option, none, some, Outcome, ok,
  stop, panic, arith, length, get_or-set_self, subst,
}
use wuros.Queue.{Queue, queue_size}
use wuros.Queue.Valid.{IsValid, contents}
use wuros.Queue.Refine.{queue_in-Pushed, queue_out-Popped, queue_out_first, queue_out-none}
use wuros.Proc.{Procs, idle, active, blank_proc, proc_at, put_proc, pid_to_proc}
use wuros.Proc.Lookup.{pid_to_proc-Resolves}
use wuros.Proc.Valid.{InTable, IsWellFormed, put_proc-IsWellFormed}
use wuros.Scheduler.{
  scheduler_add, scheduler_run, drop_inactive, end_slice, expire, pick_next, activate, is_active,
  scheduler_timeslice,
}

-- What scheduler_add may do with an entry of the table.
abbrev pub Adds : Procs → ℕ → Outcome Procs → Type 0
Adds s e r =
    (((proc_at s e).pid ≡ pos 0) × (r ≡ ok s))
    ⊎ ((length (contents s.run_queue) ≡ queue_size) × (r ≡ stop panic))
    ⊎ ((q : Queue) × (r
          ≡ ok (
              put_proc (record s { run_queue = q }) e
                (record (proc_at s e) { state = idle; cpu_time = pos 0 })))
        × IsValid q
        × (contents q ≡ contents s.run_queue ++ (proc_at s e).pid ∷ []))

-- scheduler_add leaves the idle task alone; it puts any other process at the end of the run queue,
-- idle and with a new time slice, and panics exactly when the queue is full.
pub scheduler_add-Adds :
    (s : Procs) (e : ℕ) → IsValid s.run_queue → Adds s e (scheduler_add s (some e))
unfolding scheduler_add
scheduler_add-Adds s e v = elim (Bool-cases (eq_ℤ (proc_at s e).pid (pos 0))) [
  | inl zero_pid ↦ inl ((eq_ℤ_iff (proc_at s e).pid (pos 0)).0 zero_pid, rw zero_pid)
  | inr other ↦ elim (queue_in-Pushed s.run_queue (proc_at s e).pid v) [
    | inl (full, h) ↦ inr (inl (full, rw (other, h)))
    | inr (q, h, vq, c, room) ↦ inr (inr (q, rw (other, h), vq, c))
  ]
]

pub set_runs-IsWellFormed :
    (s : Procs) (q : Queue) → IsWellFormed s → IsValid q → IsWellFormed (record s { run_queue = q })
set_runs-IsWellFormed s q w vq = record {
  allocator = w.allocator;
  runs = vq;
  sleeps = w.sleeps;
  table = w.table;
  active_in = w.active_in;
}

pub scheduler_add-IsWellFormed :
    (s : Procs) (e : ℕ) → IsWellFormed s → Ends IsWellFormed (scheduler_add s (some e))
scheduler_add-IsWellFormed s e w = elim (scheduler_add-Adds s e w.runs) [
  | inl (zero_pid, r) ↦ Ends-of_eq IsWellFormed _ s r w
  | inr (inl (full, r)) ↦ Ends-of_panic IsWellFormed _ r
  | inr (inr (q, r, vq, c)) ↦
      Ends-of_eq IsWellFormed _ _ r (put_proc-IsWellFormed _ e _ (set_runs-IsWellFormed s q w vq))
]

set_active-IsWellFormed :
    (s : Procs) (a : Option ℕ)
    → IsWellFormed s
    → InTable a
    → IsWellFormed (record s { active_proc = a })
set_active-IsWellFormed s a w h = record {
  allocator = w.allocator;
  runs = w.runs;
  sleeps = w.sleeps;
  table = w.table;
  active_in = h;
}

drop_inactive-IsWellFormed : (s : Procs) → IsWellFormed s → IsWellFormed (drop_inactive s)
unfolding drop_inactive
drop_inactive-IsWellFormed s w = elim (Option-cases s.active_proc) [
  | inl e ↦ rw (e, drop_inactive) w
  | inr (a, e) ↦ elim (Bool-cases (is_active (proc_at s a).state)) [
    | inl on ↦ rw (e, drop_inactive) (rw on w)
    | inr off ↦ rw (e, drop_inactive) (rw off (set_active-IsWellFormed s none w tt))
  ]
]

expire-IsWellFormed : (s : Procs) (a : ℕ) → IsWellFormed s → Ends IsWellFormed (expire s a)
unfolding expire
expire-IsWellFormed s a w = elim (Bool-cases (eq_ℤ (proc_at s a).pid (pos 0))) [
  | inl zero_pid ↦ rw zero_pid (put_proc-IsWellFormed s a _ w)
  | inr other ↦ rw other (scheduler_add-IsWellFormed _ a (put_proc-IsWellFormed s a _ w))
]

end_slice-IsWellFormed : (s : Procs) → IsWellFormed s → Ends IsWellFormed (end_slice s)
unfolding end_slice
end_slice-IsWellFormed s w = elim (Option-cases s.active_proc) [
  | inl e ↦ rw (e, end_slice) w
  | inr (a, e) ↦ elim (Bool-cases (lt_ℤ (proc_at s a).cpu_time (pos scheduler_timeslice))) [
    | inl within ↦ rw (e, end_slice) (rw within w)
    | inr over ↦
        rw (e, end_slice)
          (rw over (
            Ends-bind IsWellFormed IsWellFormed (expire s a) _ (expire-IsWellFormed s a w)
              (λ s' w'. set_active-IsWellFormed s' none w' tt)))
  ]
]

pub pid_to_proc-InTable : (s : Procs) (pid : ℤ) → IsWellFormed s → InTable (pid_to_proc s pid)
pid_to_proc-InTable s pid w = elim (pid_to_proc-Resolves s pid) [
  | inl (e, r, lt, same) ↦ subst InTable (sym r) (omega (arith, w.table))
  | inr (r, why) ↦ subst InTable (sym r) tt
]

pick_next-IsWellFormed : (s : Procs) → IsWellFormed s → IsWellFormed (pick_next s)
unfolding pick_next
pick_next-IsWellFormed s w = elim (Option-cases s.active_proc) [
  | inr (a, e) ↦ rw (e, pick_next) w
  | inl e ↦ elim (queue_out-Popped s.run_queue w.runs) [
    | inl (none_left, r) ↦
        rw (e, pick_next) (rw r (set_active-IsWellFormed s _ w (pid_to_proc-InTable s (pos 0) w)))
    | inr (pid, q, r, vq, c) ↦
        rw (e, pick_next)
          (rw r (
            set_active-IsWellFormed (record s { run_queue = q }) _ (set_runs-IsWellFormed s q w vq)
              (pid_to_proc-InTable s pid w)))
  ]
]

-- The state that scheduler_run leaves: well formed, with an active process that is in the active
-- state.
abbrev pub IsRunning : Procs → Type 0
IsRunning s = IsWellFormed s × (a : ℕ) × (s.active_proc ≡ some a) × ((proc_at s a).state ≡ active)

activate-IsRunning : (s : Procs) → IsWellFormed s → Ends IsRunning (activate s)
unfolding activate
activate-IsRunning s w = elim (Option-cases s.active_proc) [
  | inl e ↦ rw (e, activate) tt
  | inr (a, e) ↦
      rw (e, activate)
        (
          put_proc-IsWellFormed s a _ w,
          a,
          e,
          ap (λ p. p.state)
              (get_or-set_self s.proc_table a (record (proc_at s a) { state = active }) blank_proc
                (omega (arith, w.table, subst InTable e w.active_in))),
        )
]

-- scheduler_run keeps the process table and the queues well formed, and when it does not panic some
-- process is active and marked so.
pub scheduler_run-IsRunning : (s : Procs) → IsWellFormed s → Ends IsRunning (scheduler_run s)
unfolding scheduler_run
scheduler_run-IsRunning s w =
    Ends-bind IsWellFormed IsRunning (end_slice (drop_inactive s)) _
      (end_slice-IsWellFormed (drop_inactive s) (drop_inactive-IsWellFormed s w))
      (λ s' w'. activate-IsRunning (pick_next s') (pick_next-IsWellFormed s' w'))

-- The state after `e` was made active with `q` left to run.
abbrev pub switched : Procs → ℕ → Queue → Procs
switched s e q =
    put_proc (record s { run_queue = q; active_proc = some e }) e
      (record (proc_at s e) { state = active })

-- With no active process scheduler_run takes the process at the front of a valid run queue, if its id
-- belongs to an entry: that entry becomes active, and the others keep their order.
pub scheduler_run_next :
    (s : Procs) (pid : ℤ) (rest : List ℤ) (e : ℕ)
    → IsValid s.run_queue
    → s.active_proc ≡ none
    → contents s.run_queue ≡ pid ∷ rest
    → pid_to_proc s pid ≡ some e
    → (q : Queue) × (scheduler_run s ≡ ok (switched s e q)) × IsValid q × (contents q ≡ rest)
unfolding scheduler_run
scheduler_run_next s pid rest e v off c found =
    let (q, h, vq, cq) = queue_out_first s.run_queue pid rest v c in
    (
      q,
      rw (off, drop_inactive)
          (rw (off, end_slice)
            (rw (off, pick_next)
              (rw (h, pick_next)
                (ap (λ x. activate (record s { run_queue = q; active_proc = x })) found)))),
      vq,
      cq,
    )

-- With no active process and nothing to run it takes the process with the id 0.
pub scheduler_run_idle :
    (s : Procs) (e : ℕ)
    → IsValid s.run_queue
    → s.active_proc ≡ none
    → contents s.run_queue ≡ []
    → pid_to_proc s (pos 0) ≡ some e
    → scheduler_run s ≡ ok (switched s e s.run_queue)
unfolding scheduler_run
scheduler_run_idle s e v off c found =
    rw (off, drop_inactive)
      (rw (off, end_slice)
        (rw (off, pick_next)
          (rw (queue_out-none s.run_queue v c, pick_next)
            (ap (λ x. activate (record s { active_proc = x })) found))))
