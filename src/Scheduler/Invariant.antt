-- ===== src/Scheduler/Invariant.antt =====
-- src/scheduler.c: scheduler_remove and scheduler_sleep keep the processes well formed.
use wuros.Prelude.{
  ℕ, inl, inr, ℤ, eq_ℤ, Bool, true, false, Bool-cases, if◌then◌else◌, Option, none, some, Ends,
  Ends-bind, Ends-of_eq, Keeps, Keeps-of_Ends,
}
use wuros.Queue.{Queue}
use wuros.Queue.Valid.{IsValid}
use wuros.Queue.Refine.{queue_in-Pushed}
use wuros.Proc.{Procs, Proc, sleeping, proc_at, put_proc}
use wuros.Proc.Valid.{InTable, IsWellFormed, put_proc-IsWellFormed}
use wuros.Scheduler.Run.{scheduler_add-IsWellFormed}
use wuros.Scheduler.{scheduler_add, scheduler_remove, scheduler_sleep, enter_sleep, is_sleeping}
use wuros.Scheduler.Remove.{removed, scheduler_remove_total}

if-InTable : (b : Bool) (a : ℕ) → InTable (some a) → InTable (if b then none else some a)
if-InTable true a h = tt
if-InTable false a h = h

cleared-InTable :
    (o : Option ℕ) (f : ℕ → Bool)
    → InTable o
    → InTable (elim o [ none ↦ none | some a ↦ if f a then none else some a ])
cleared-InTable none f h = tt
cleared-InTable (some a) f h = if-InTable (f a) a h

pub removed-IsWellFormed :
    (s : Procs) (e : ℕ) (q : Queue) → IsWellFormed s → IsValid q → IsWellFormed (removed s e q)
removed-IsWellFormed s e q w vq = record {
  allocator = w.allocator;
  runs = vq;
  sleeps = w.sleeps;
  table = w.table;
  active_in =
      cleared-InTable s.active_proc (λ a. eq_ℤ (proc_at s e).pid (proc_at s a).pid) w.active_in;
}

pub scheduler_remove-IsWellFormed :
    (s : Procs) (e : ℕ) → IsWellFormed s → Ends IsWellFormed (scheduler_remove s (some e))
scheduler_remove-IsWellFormed s e w =
    let (q, r, vq, le) = scheduler_remove_total s e w.runs in
    Ends-of_eq IsWellFormed _ _ r (removed-IsWellFormed s e q w vq)

enter_sleep-IsWellFormed : (s : Procs) (e : ℕ) → IsWellFormed s → IsWellFormed (enter_sleep s e)
unfolding enter_sleep
enter_sleep-IsWellFormed s e w =
    let p : Proc = record (proc_at s e) { state = sleeping } in
    let w1 = put_proc-IsWellFormed s e p w in
    elim (queue_in-Pushed s.sleep_queue (proc_at s e).pid w.sleeps) [
      | inl (full, h) ↦ rw (h, enter_sleep) w1
      | inr (q, h, vq, c, room) ↦
          rw (h, enter_sleep)
            (record {
              allocator = w1.allocator;
              runs = w1.runs;
              sleeps = vq;
              table = w1.table;
              active_in = w1.active_in;
            })
    ]

pub scheduler_sleep-IsWellFormed :
    (s : Procs) (a : Option ℕ) (seconds : ℤ)
    → IsWellFormed s
    → Ends IsWellFormed (scheduler_sleep s a seconds)
unfolding scheduler_sleep
scheduler_sleep-IsWellFormed s none seconds w = tt
scheduler_sleep-IsWellFormed s (some e) seconds w =
    let s1 = put_proc s e (record (proc_at s e) { sleep_time = seconds }) in
    let w1 = put_proc-IsWellFormed s e (record (proc_at s e) { sleep_time = seconds }) w in
    elim (Bool-cases (is_sleeping (proc_at s e).state)) [
      | inl asleep ↦ rw (asleep, Ends) w1
      | inr awake ↦
          rw (awake, Ends)
            (Ends-bind IsWellFormed IsWellFormed (scheduler_remove s1 (some e)) _
              (scheduler_remove-IsWellFormed s1 e w1) (λ s2 w2. enter_sleep-IsWellFormed s2 e w2))
    ]

pub scheduler_add-KeepsProcs :
    (s : Procs) (o : Option ℕ) → IsWellFormed s → Keeps IsWellFormed (scheduler_add s o)
unfolding scheduler_add
scheduler_add-KeepsProcs s none w = tt
scheduler_add-KeepsProcs s (some e) w =
    Keeps-of_Ends IsWellFormed (scheduler_add s (some e)) (scheduler_add-IsWellFormed s e w)
