-- ===== src/Scheduler/Stay.antt =====
-- src/scheduler.c: a process whose time slice is not over stays the active one.
use wuros.Prelude.{
  ℕ, ◌≡◌, ap, ◌∙◌, pos, lt_ℤ, true, Bool, if◌then◌else◌, Option, none, some, Outcome, ok, stop,
  panic, ◌>>=◌,
}
use wuros.Queue.{queue_out}
use wuros.Proc.{Procs, active, proc_at, put_proc, pid_to_proc}
use wuros.Scheduler.{
  scheduler_run, drop_inactive, end_slice, expire, pick_next, activate, scheduler_timeslice,
}
use wuros.Scheduler.Rotate.{drop_active}

-- scheduler_run when the active process is in the active state and its time slice is not over
pub scheduler_run_stays :
    (s : Procs) (a : ℕ)
    → s.active_proc ≡ some a
    → (proc_at s a).state ≡ active
    → lt_ℤ (proc_at s a).cpu_time (pos scheduler_timeslice) ≡ true
    → scheduler_run s ≡ ok (put_proc s a (record (proc_at s a) { state = active }))
unfolding scheduler_run drop_inactive end_slice pick_next activate
scheduler_run_stays s a act on within =
    ap (λ s'. end_slice s' >>= next) (drop_active s a act on)
    ∙ ap (λ o. end o >>= next) act
    ∙ ap (λ b. kept b >>= next) within
    ∙ ap (λ o. activate (pick o)) act
    ∙ ap marked act
  where
    next : Procs → Outcome Procs
    next s' = activate (pick_next s')

    kept : Bool → Outcome Procs
    kept b = if b then ok s else (expire s a >>= λ s'. ok (record s' { active_proc = none }))

    end : Option ℕ → Outcome Procs
    end o = elim o [
      | none ↦ ok s
      | some a ↦
          if lt_ℤ (proc_at s a).cpu_time (pos scheduler_timeslice)
          then ok s
          else (expire s a >>= λ s'. ok (record s' { active_proc = none }))
    ]

    pick : Option ℕ → Procs
    pick o = elim o [
      | some a ↦ s
      | none ↦ elim (queue_out s.run_queue) [
        | none ↦ record s { active_proc = pid_to_proc s (pos 0) }
        | some (pid, q) ↦ record s { run_queue = q; active_proc = pid_to_proc s pid }
      ]
    ]

    marked : Option ℕ → Outcome Procs
    marked o = elim o [
      | none ↦ stop panic
      | some a ↦ ok (put_proc s a (record (proc_at s a) { state = active }))
    ]
