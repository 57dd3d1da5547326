-- ===== src/Scheduler/Rotate.antt =====
-- src/scheduler.c: a process whose time slice is over goes to the end of the run queue.
use wuros.Prelude.{
  ℕ, zero, suc, ◌+◌, ◌<◌, ◌≡◌, ◌≢◌, refl, ap, ◌∙◌, ℤ, pos, eq_ℤ, eq_ℤ_ne, lt_ℤ, is_neg, ◌||◌, not,
  false, List, [], ◌∷◌, ◌++◌, Option, none, some, Outcome, ok, stop, panic, ◌>>=◌, length, get_or,
  set, get_or-set_self, set-set, if◌then◌else◌,
}
use wuros.Queue.{Queue, queue_size, queue_in}
use wuros.Queue.Valid.{IsValid, contents}
use wuros.Queue.Refine.{queue_in_last}
use wuros.Proc.{Procs, Proc, idle, active, blank_proc, proc_at, put_proc, find_pid, pid_to_proc}
use wuros.Scheduler.{
  scheduler_add, scheduler_run, drop_inactive, end_slice, expire, pick_next, activate, is_active,
  scheduler_timeslice,
}
use wuros.Scheduler.Run.{switched, scheduler_run_next}

-- A write that keeps the process id of an entry does not change what the lookup finds.
pub find_pid-set :
    (ps : List Proc) (e : ℕ) (p : Proc) (pid : ℤ) (i : ℕ)
    → p.pid ≡ (get_or ps e blank_proc).pid
    → find_pid (set ps e p) pid i ≡ find_pid ps pid i
unfolding find_pid
find_pid-set [] e p pid i same = refl
find_pid-set (x ∷ ps) zero p pid i same =
    ap
      (λ z.
        let rest = find_pid ps pid (i + 1) in
        if is_neg z then rest else if eq_ℤ z pid then some i else rest)
      same
find_pid-set (x ∷ ps) (suc e) p pid i same =
    ap (λ rest. if is_neg x.pid then rest else if eq_ℤ x.pid pid then some i else rest)
      (find_pid-set ps e p pid (i + 1) same)

-- The process `a` with a new time slice, at the end of the run queue `q`, and no process active
requeued : Procs → ℕ → Queue → Procs
requeued s a q = record (put_proc s a (record (proc_at s a) { state = idle; cpu_time = pos 0 })) {
  run_queue = q;
  active_proc = none;
}

pub drop_active :
    (s : Procs) (a : ℕ)
    → s.active_proc ≡ some a
    → (proc_at s a).state ≡ active
    → drop_inactive s ≡ s
unfolding drop_inactive is_active
drop_active s a act on =
    ap drop act ∙ ap (λ st. if is_active st then s else record s { active_proc = none }) on
  where
    drop : Option ℕ → Procs
    drop o = elim o [
      | none ↦ s
      | some a ↦ if is_active (proc_at s a).state then s else record s { active_proc = none }
    ]

add_entry :
    (s : Procs) (a : ℕ) (p : Proc) (q : Queue)
    → proc_at s a ≡ p
    → p.pid ≢ pos 0
    → queue_in s.run_queue p.pid ≡ some q
    → scheduler_add s (some a)
      ≡ ok (put_proc (record s { run_queue = q }) a (record p { state = idle; cpu_time = pos 0 }))
unfolding scheduler_add
add_entry s a p q here other h =
    ap add here
    ∙ ap (λ b. if b then ok s else into (queue_in s.run_queue p.pid)) (eq_ℤ_ne p.pid (pos 0) other)
    ∙ ap into h
  where
    into : Option Queue → Outcome Procs
    into o = elim o [
      | none ↦ stop panic
      | some q ↦
          ok (put_proc (record s { run_queue = q }) a (record p { state = idle; cpu_time = pos 0 }))
    ]

    add : Proc → Outcome Procs
    add p = if eq_ℤ p.pid (pos 0) then ok s else elim (queue_in s.run_queue p.pid) [
      | none ↦ stop panic
      | some q ↦
          ok (put_proc (record s { run_queue = q }) a (record p { state = idle; cpu_time = pos 0 }))
    ]

add_again :
    (s : Procs) (a : ℕ) (q : Queue)
    → a < length s.proc_table
    → (proc_at s a).pid ≢ pos 0
    → queue_in s.run_queue (proc_at s a).pid ≡ some q
    → expire s a
      ≡ ok (
          put_proc
            (record s { run_queue = q })
            a
            (record (proc_at s a) { state = idle; cpu_time = pos 0 }))
unfolding expire
add_again s a q inside other h =
    let p = proc_at s a in
    let p1 : Proc = record p { cpu_time = pos 0 } in
    ap
      (λ b.
        if b
        then ok (put_proc s a (record p { cpu_time = pos 0; state = idle }))
        else scheduler_add (put_proc s a p1) (some a))
      (eq_ℤ_ne p.pid (pos 0) other)
    ∙ add_entry (put_proc s a p1) a p1 q (get_or-set_self s.proc_table a p1 blank_proc inside) other
        h
    ∙ ap (λ table. ok (record s { run_queue = q; proc_table = table }))
        (set-set s.proc_table a p1 (record p { state = idle; cpu_time = pos 0 }))

end_expired :
    (s : Procs) (a : ℕ)
    → s.active_proc ≡ some a
    → lt_ℤ (proc_at s a).cpu_time (pos scheduler_timeslice) ≡ false
    → end_slice s ≡ (expire s a >>= λ s'. ok (record s' { active_proc = none }))
unfolding end_slice
end_expired s a act over =
    ap end act
    ∙ ap (λ b. if b then ok s else (expire s a >>= λ s'. ok (record s' { active_proc = none })))
        over
  where
    end : Option ℕ → Outcome Procs
    end o = elim o [
      | none ↦ ok s
      | some a ↦
          if lt_ℤ (proc_at s a).cpu_time (pos scheduler_timeslice)
          then ok s
          else (expire s a >>= λ s'. ok (record s' { active_proc = none }))
    ]

expired :
    (s : Procs) (a : ℕ) (q : Queue)
    → a < length s.proc_table
    → s.active_proc ≡ some a
    → (proc_at s a).state ≡ active
    → lt_ℤ (proc_at s a).cpu_time (pos scheduler_timeslice) ≡ false
    → (proc_at s a).pid ≢ pos 0
    → queue_in s.run_queue (proc_at s a).pid ≡ some q
    → scheduler_run s ≡ scheduler_run (requeued s a q)
unfolding scheduler_run drop_inactive end_slice requeued
expired s a q inside act on over other h =
    ap (λ s'. end_slice s' >>= next) (drop_active s a act on)
    ∙ ap (λ r. r >>= next)
        (end_expired s a act over ∙ ap (λ r. r >>= unscheduled) (add_again s a q inside other h))
  where
    next : Procs → Outcome Procs
    next s' = activate (pick_next s')

    unscheduled : Procs → Outcome Procs
    unscheduled s' = ok (record s' { active_proc = none })

requeued-lookup :
    (s : Procs) (a : ℕ) (q : Queue) (pid : ℤ) → pid_to_proc (requeued s a q) pid ≡ pid_to_proc s pid
unfolding pid_to_proc requeued
requeued-lookup s a q pid =
    ap (λ r. if is_neg pid || not (lt_ℤ pid (pos s.next_pid)) then none else r)
      (find_pid-set s.proc_table a (record (proc_at s a) { state = idle; cpu_time = pos 0 }) pid 0
        refl)

-- scheduler_run when the active process, not the idle task, has used up its time slice, the run queue
-- has room and is not empty, and the id at its front belongs to an entry: that entry becomes active, and
-- the process that was active is idle, with a new time slice, and last in the run queue.
pub scheduler_run_rotates :
    (s : Procs) (a e : ℕ) (pid : ℤ) (rest : List ℤ)
    → IsValid s.run_queue
    → a < length s.proc_table
    → s.active_proc ≡ some a
    → (proc_at s a).state ≡ active
    → lt_ℤ (proc_at s a).cpu_time (pos scheduler_timeslice) ≡ false
    → (proc_at s a).pid ≢ pos 0
    → contents s.run_queue ≡ pid ∷ rest
    → length (contents s.run_queue) < queue_size
    → pid_to_proc s pid ≡ some e
    → (q : Queue) × (scheduler_run s
        ≡ ok
            (switched (put_proc s a (record (proc_at s a) { state = idle; cpu_time = pos 0 })) e q))
      × IsValid q
      × (contents q ≡ rest ++ (proc_at s a).pid ∷ [])
unfolding requeued
scheduler_run_rotates s a e pid rest v inside act on over other c room found =
    let (q1, h, v1, c1) = queue_in_last s.run_queue (proc_at s a).pid v room in
    let (q2, run, v2, c2) =
      scheduler_run_next (requeued s a q1) pid (rest ++ (proc_at s a).pid ∷ []) e v1 refl
        (c1 ∙ ap (λ xs. xs ++ (proc_at s a).pid ∷ []) c) (requeued-lookup s a q1 pid ∙ found) in
    (q2, expired s a q1 inside act on over other h ∙ run, v2, c2)
