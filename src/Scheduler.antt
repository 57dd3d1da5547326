-- ===== src/Scheduler.antt =====
-- src/scheduler.c: the run queue, the sleep queue and the choice of the active process.
-- Boot registers the timer callback of scheduler_init.
pub mod Remove
pub mod Order
pub mod Wake
pub mod Run
pub mod Rotate
pub mod Stay
pub mod Ring
pub mod Fair
pub mod Sleep
pub mod Invariant
mod Examples
use wuros.Prelude.{
  ℕ, zero, suc, ◌+◌, ◌*◌, ℤ, pos, incr, decr, eq_ℤ, lt_ℤ, Bool, true, false, ltb, not,
  if◌then◌else◌, Option, none, some, Outcome, ok, stop, panic, fault, no_fuel, ◌>>=◌,
}
use wuros.Queue.{Queue, queue_size, queue_init, queue_in, queue_out, queue_is_empty}
use wuros.Proc.{Procs, Proc, ProcState, idle, active, sleeping, proc_at, put_proc, pid_to_proc}

-- SCHEDULER_TIMESLICE
abbrev pub scheduler_timeslice : ℕ
scheduler_timeslice = 10

unfoldable pub scheduler_add : Procs → Option ℕ → Outcome Procs
scheduler_add s none = stop panic
scheduler_add s (some e) =
    let p = proc_at s e in
    if eq_ℤ p.pid (pos 0) then ok s else elim (queue_in s.run_queue p.pid) [
      | none ↦ stop panic
      | some q ↦
          ok (put_proc (record s { run_queue = q }) e (record p { state = idle; cpu_time = pos 0 }))
    ]

-- The loop of scheduler_remove from `i` on; the size is read again on each round. The queue is not
-- empty where it is read: a failing queue_out would leave `pid` unset.
pub remove_loop : ℕ → ℕ → Queue → ℤ → Outcome Queue
remove_loop zero i q pid = if ltb i q.size then stop no_fuel else ok q
remove_loop (suc fuel) i q pid = elim (ltb i q.size) [
  | false ↦ ok q
  | true ↦ elim (queue_out q) [
    | none ↦ stop fault
    | some (x, q1) ↦ elim (eq_ℤ pid x) [
      | true ↦ remove_loop fuel (i + 1) q1 pid
      | false ↦ elim (queue_in q1 x) [
        | none ↦ stop panic
        | some q2 ↦ remove_loop fuel (i + 1) q2 pid
      ]
    ]
  ]
]

-- If the process is the active one, no process is active any more.
abbrev pub clear_active : ℤ → Procs → Procs
clear_active pid s = record s {
  active_proc = elim s.active_proc [
    | none ↦ none
    | some a ↦ if eq_ℤ pid (proc_at s a).pid then none else some a
  ];
}

pub scheduler_remove : Procs → Option ℕ → Outcome Procs
unfolding remove_loop
scheduler_remove s none = ok s
scheduler_remove s (some e) = do
  let pid = (proc_at s e).pid
  q ← remove_loop queue_size 0 s.run_queue pid
  ok (clear_active pid (record s { run_queue = q }))

-- A process that the sleep queue has no room for is left out of both queues.
enter_sleep : Procs → ℕ → Procs
enter_sleep s e =
    let p = proc_at s e in
    let s' = put_proc s e (record p { state = sleeping }) in
    elim (queue_in s'.sleep_queue p.pid) [ none ↦ s' | some q ↦ record s' { sleep_queue = q } ]

unfoldable pub is_sleeping : ProcState → Bool
is_sleeping sleeping = true
is_sleeping st = false

is_active : ProcState → Bool
is_active active = true
is_active st = false

pub scheduler_sleep : Procs → Option ℕ → ℤ → Outcome Procs
unfolding enter_sleep is_sleeping
scheduler_sleep s none seconds = stop panic
scheduler_sleep s (some e) seconds =
    let p = proc_at s e in
    let s1 = put_proc s e (record p { sleep_time = seconds }) in
    if is_sleeping p.state
    then ok s1
    else do s2 ← scheduler_remove s1 (some e); ok (enter_sleep s2 e)

-- A process whose sleep ends with this tick
wake : Procs → ℕ → Outcome Procs
wake s e = scheduler_add (put_proc s e (record (proc_at s e) { sleep_time = pos 0 })) (some e)

-- A process that sleeps on. The result of this queue_in is not looked at.
sleep_on : Procs → ℕ → ℤ → Procs
sleep_on s e pid =
    let s' = put_proc s e (record (proc_at s e) { sleep_time = decr (proc_at s e).sleep_time }) in
    elim (queue_in s'.sleep_queue pid) [ none ↦ s' | some q ↦ record s' { sleep_queue = q } ]

-- One round of scheduler_timer over the sleep queue
wake_one : Procs → Outcome Procs
unfolding wake sleep_on
wake_one s = elim (queue_out s.sleep_queue) [
  | none ↦ ok s
  | some (pid, q) ↦
      let s' = record s { sleep_queue = q } in
      elim (pid_to_proc s' pid) [
        | none ↦ ok s'
        | some e ↦
            if eq_ℤ (proc_at s' e).sleep_time (pos 1) then wake s' e else ok (sleep_on s' e pid)
      ]
]

-- The rounds from `i` on; the size of the queue is read again on each.
wake_loop : ℕ → ℕ → Procs → Outcome Procs
unfolding wake_one
wake_loop zero i s = if ltb i s.sleep_queue.size then stop no_fuel else ok s
wake_loop (suc fuel) i s = elim (ltb i s.sleep_queue.size) [
  | false ↦ ok s
  | true ↦ wake_one s >>= wake_loop fuel (i + 1)
]

charge_active : Procs → Procs
charge_active s = elim s.active_proc [
  | none ↦ s
  | some a ↦
      let p = proc_at s a in
      put_proc s a (record p { run_time = incr p.run_time; cpu_time = incr p.cpu_time })
]

pub scheduler_timer : Procs → Outcome Procs
unfolding wake_loop charge_active
scheduler_timer s =
    let s' = charge_active s in
    if queue_is_empty s'.sleep_queue then ok s' else wake_loop queue_size 0 s'

-- A process that is no longer in the active state is not scheduled any more.
pub drop_inactive : Procs → Procs
unfolding is_active
drop_inactive s = elim s.active_proc [
  | none ↦ s
  | some a ↦ if is_active (proc_at s a).state then s else record s { active_proc = none }
]

-- The active process goes back to the run queue; the idle task is only marked.
expire : Procs → ℕ → Outcome Procs
expire s a =
    let p = proc_at s a in
    if eq_ℤ p.pid (pos 0)
    then ok (put_proc s a (record p { cpu_time = pos 0; state = idle }))
    else scheduler_add (put_proc s a (record p { cpu_time = pos 0 })) (some a)

-- A process whose time slice is over is not active any more.
end_slice : Procs → Outcome Procs
end_slice s = elim s.active_proc [
  | none ↦ ok s
  | some a ↦
      if lt_ℤ (proc_at s a).cpu_time (pos scheduler_timeslice)
      then ok s
      else do s' ← expire s a; ok (record s' { active_proc = none })
]

-- The next process of the run queue, or the idle task
pick_next : Procs → Procs
pick_next s = elim s.active_proc [
  | some a ↦ s
  | none ↦ elim (queue_out s.run_queue) [
    | none ↦ record s { active_proc = pid_to_proc s (pos 0) }
    | some (pid, q) ↦ record s { run_queue = q; active_proc = pid_to_proc s pid }
  ]
]

activate : Procs → Outcome Procs
activate s = elim s.active_proc [
  | none ↦ stop panic
  | some a ↦ ok (put_proc s a (record (proc_at s a) { state = active }))
]

pub scheduler_run : Procs → Outcome Procs
unfolding drop_inactive end_slice expire pick_next activate
scheduler_run s = do s' ← end_slice (drop_inactive s); activate (pick_next s')

unfoldable pub scheduler_init : Procs → Procs
scheduler_init s = record s {
  run_queue = queue_init s.run_queue;
  sleep_queue = queue_init s.sleep_queue;
}
