-- ===== src/Scheduler/Examples.antt =====
-- src/scheduler.c at concrete inputs.
use wuros.Prelude.{
  ◌+◌, ◌*◌, ◌≡◌, refl, false, ℤ, pos, List, [], ◌∷◌, ◌++◌, ok, none, some, arith, ◌≤◌, Ends, ◌>>=◌,
  replicate, Outcome, Option, ℕ,
}
use wuros.Queue.{Queue, queue_in, queue_out, queue_init}
use wuros.Queue.Valid.{IsValid, contents}
use wuros.Proc.{Procs, find_pid, pid_to_proc, put_proc, proc_at, idle, active}
use wuros.Proc.Valid.{IsWellFormed}
use wuros.Scheduler.{
  scheduler_remove, scheduler_timer, scheduler_run, scheduler_sleep, scheduler_init, is_sleeping,
  scheduler_timeslice,
}
use wuros.Scheduler.Remove.{removed, LeavesOrder, scheduler_remove_total}
use wuros.Scheduler.Order.{scheduler_remove_middle}
use wuros.Scheduler.Run.{IsRunning, switched, scheduler_run-IsRunning}
use wuros.Scheduler.Wake.{scheduler_timer-Ends}
use wuros.Scheduler.Rotate.{scheduler_run_rotates}
use wuros.Scheduler.Ring.{AllPlaced, TakesTurns}
use wuros.Scheduler.Fair.{ticks, run_queue_served}
use wuros.Samples.{process, unused, demo, demo-IsWellFormed, running, three-IsValid, nobody}

abbrev lonely : Procs
lonely = record demo { run_queue = nobody }

scheduler_remove_total_example :
    (q : Queue) × (scheduler_remove demo (some 2) ≡ ok (removed demo 2 q))
    × IsValid q
    × (q.size ≤ demo.run_queue.size)
scheduler_remove_total_example = scheduler_remove_total demo 2 three-IsValid

-- 1, 2, 3 without 1 is 3, 2.
scheduler_remove_middle_example : LeavesOrder demo 1 (pos 3 ∷ pos 2 ∷ [])
scheduler_remove_middle_example =
    scheduler_remove_middle demo 1 [] (pos 2 ∷ []) (pos 3) three-IsValid refl tt
      (λ e. ground arith, tt)

scheduler_run-IsRunning_example : Ends IsRunning (scheduler_run demo)
scheduler_run-IsRunning_example = scheduler_run-IsRunning demo demo-IsWellFormed

pid_to_proc-1 : pid_to_proc demo (pos 1) ≡ some 1
unfolding pid_to_proc find_pid
pid_to_proc-1 = refl

pid_to_proc-0 : pid_to_proc lonely (pos 0) ≡ some 0
unfolding pid_to_proc find_pid
pid_to_proc-0 = refl

scheduler_timer-Ends_example : Ends IsWellFormed (scheduler_timer demo)
scheduler_timer-Ends_example = scheduler_timer-Ends demo demo-IsWellFormed

-- The process 4 has run for its whole time slice.
abbrev spent : Procs
spent = record running {
  proc_table =
      process 0 idle
      ∷ process 1 idle
      ∷ process 2 idle
      ∷ process 3 idle
      ∷ record (process 4 active) { cpu_time = pos 10 }
      ∷ replicate 15 unused;
}

found_in_spent : pid_to_proc spent (pos 1) ≡ some 1
unfolding pid_to_proc find_pid
found_in_spent = refl

scheduler_run_rotates_example :
    (q : Queue) × (scheduler_run spent
      ≡ ok (
          switched
            (put_proc spent 4 (record (proc_at spent 4) { state = idle; cpu_time = pos 0 }))
            1
            q))
    × IsValid q
    × (contents q ≡ (pos 2 ∷ pos 3 ∷ []) ++ pos 4 ∷ [])
scheduler_run_rotates_example =
    scheduler_run_rotates spent 4 1 (pos 1) (pos 2 ∷ pos 3 ∷ []) three-IsValid (omega arith) refl
      refl refl (λ e. ground arith) refl (omega arith) found_in_spent

awake : is_sleeping active ≡ false
unfolding is_sleeping
awake = refl

scheduler_init_empties : contents (scheduler_init demo).run_queue ≡ []
unfolding scheduler_init queue_init
scheduler_init_empties = refl

queues : Procs → Outcome (Option ℕ × List ℤ × List ℤ)
queues s = ok (s.active_proc, contents s.run_queue, contents s.sleep_queue)

-- The running process sleeps: it is not active any more, and it is in the sleep queue only.
falls_asleep :
    (scheduler_sleep running (some 4) (pos 30) >>= queues)
    ≡ ok (none, pos 1 ∷ pos 2 ∷ pos 3 ∷ [], pos 4 ∷ [])
unfolding scheduler_sleep queue_in queue_out queues scheduler_remove
falls_asleep = refl

running-AllPlaced : AllPlaced running (4 ∷ 1 ∷ 2 ∷ 3 ∷ [])
unfolding pid_to_proc find_pid
running-AllPlaced = (
  record { inside = omega arith; other = λ e. ground arith; found = refl; counted = (0, refl) },
  (
    record { inside = omega arith; other = λ e. ground arith; found = refl; counted = (0, refl) },
    (
      record { inside = omega arith; other = λ e. ground arith; found = refl; counted = (0, refl) },
      (
        record {
          inside = omega arith;
          other = λ e. ground arith;
          found = refl;
          counted = (0, refl);
        },
        tt,
      ),
    ),
  ),
)

running-TakesTurns : TakesTurns running 4 (1 ∷ 2 ∷ 3 ∷ [])
running-TakesTurns = record {
  valid = three-IsValid;
  quiet = refl;
  act = refl;
  on = refl;
  waits = refl;
  room = omega arith;
  own = running-AllPlaced.0;
  placed = running-AllPlaced.1;
}

run_queue_served_example :
    (n : ℕ) × (n ≤ (2 + 1) * scheduler_timeslice)
    × (s' : Procs) × (ticks n running ≡ ok s')
    × (s'.active_proc ≡ some 3)
    × TakesTurns s' 3 (4 ∷ 1 ∷ 2 ∷ [])
run_queue_served_example = run_queue_served (1 ∷ 2 ∷ []) [] running 4 3 running-TakesTurns
