-- ===== src/Scheduler/Sleep.antt =====
-- src/scheduler.c: what scheduler_sleep does.
use wuros.Prelude.{
  ℕ, ◌<◌, ◌≡◌, refl, ap, ◌∙◌, ℤ, false, if◌then◌else◌, [], ◌∷◌, ◌++◌, some, Outcome, ok, ◌>>=◌,
  length, get_or-set_self,
}
use wuros.Queue.{Queue, queue_size, queue_in}
use wuros.Queue.Valid.{IsValid, contents}
use wuros.Queue.Refine.{queue_in_last}
use wuros.Proc.{Procs, Proc, blank_proc, sleeping, proc_at, put_proc}
use wuros.Scheduler.{scheduler_remove, scheduler_sleep, enter_sleep, is_sleeping}
use wuros.Scheduler.Remove.{removed, scheduler_remove_total}

-- The process `e` with its time to sleep, taken out of the scheduler with `run` left to run
abbrev pub unscheduled : Procs → ℕ → ℤ → Queue → Procs
unscheduled s e seconds run =
    removed (put_proc s e (record (proc_at s e) { sleep_time = seconds })) e run

enter_sleep-eq :
    (s : Procs) (e : ℕ) (q : Queue)
    → queue_in s.sleep_queue (proc_at s e).pid ≡ some q
    → enter_sleep s e
      ≡ record (put_proc s e (record (proc_at s e) { state = sleeping })) { sleep_queue = q }
unfolding enter_sleep
enter_sleep-eq s e q h = rw (h, enter_sleep) refl

sleep_awake :
    (s : Procs) (e : ℕ) (seconds : ℤ)
    → is_sleeping (proc_at s e).state ≡ false
    → scheduler_sleep s (some e) seconds ≡ (
        scheduler_remove (put_proc s e (record (proc_at s e) { sleep_time = seconds })) (some e)
        >>= λ s2. ok (enter_sleep s2 e))
unfolding scheduler_sleep
sleep_awake s e seconds awake =
    ap
      (λ b.
        let s1 = put_proc s e (record (proc_at s e) { sleep_time = seconds }) in
        if b then ok s1 else (scheduler_remove s1 (some e) >>= λ s2. ok (enter_sleep s2 e)))
      awake

-- scheduler_sleep of a process of the table that does not sleep yet, where the sleep queue has room:
-- the process gets its time to sleep and is marked as sleeping, it is taken out of the scheduler, and
-- its id goes to the end of the sleep queue.
pub scheduler_sleep-eq-ok :
    (s : Procs) (e : ℕ) (seconds : ℤ)
    → e < length s.proc_table
    → is_sleeping (proc_at s e).state ≡ false
    → IsValid s.run_queue
    → IsValid s.sleep_queue
    → length (contents s.sleep_queue) < queue_size
    → (run : Queue) × (q : Queue) × (scheduler_sleep s (some e) seconds
        ≡ ok
            (record (put_proc
              (unscheduled s e seconds run)
              e
              (record (proc_at s e) { sleep_time = seconds; state = sleeping })) {
                sleep_queue = q;
              }))
      × IsValid run
      × IsValid q
      × (contents q ≡ contents s.sleep_queue ++ (proc_at s e).pid ∷ [])
scheduler_sleep-eq-ok s e seconds inside awake vr vs room =
    let p1 : Proc = record (proc_at s e) { sleep_time = seconds } in
    let s1 = put_proc s e p1 in
    let here : proc_at s1 e ≡ p1 = get_or-set_self s.proc_table e p1 blank_proc inside in
    let (run, r, v_run, le) = scheduler_remove_total s1 e vr in
    let (q, h, vq, c) = queue_in_last s.sleep_queue (proc_at s1 e).pid vs room in
    (
      run,
      q,
      sleep_awake s e seconds awake
          ∙ ap (λ m. m >>= entered) r
          ∙ ap ok (enter_sleep-eq (unscheduled s e seconds run) e q h)
          ∙ ap (asleep run q) here,
      v_run,
      vq,
      c ∙ ap (λ p. contents s.sleep_queue ++ p.pid ∷ []) here,
    )
  where
    entered : Procs → Outcome Procs
    entered s2 = ok (enter_sleep s2 e)

    asleep : Queue → Queue → Proc → Outcome Procs
    asleep run q p =
        ok (record (put_proc (unscheduled s e seconds run) e (record p { state = sleeping })) {
          sleep_queue = q;
        })
