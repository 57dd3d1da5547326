-- ===== src/Scheduler/Fair.antt =====
-- src/scheduler.c: every process of the run queue gets its turn, as scheduler_timer and scheduler_run
-- follow each other on every tick of the timer.
use native.Mathlib.Decide.{dec_lt}
use wuros.Prelude.{
  ℕ, zero, suc, ◌+◌, ◌*◌, ◌<◌, ◌≤◌, ◌==◌, ◌≡◌, refl, sym, subst, ap, ◌∙◌, pos, incr, lt_ℤ, true,
  false, if◌then◌else◌, List, [], ◌∷◌, ◌++◌, append_assoc, Option, none, some, Outcome, ok, stop,
  ◌>>=◌, length, length-append, get_or-set_self, length-set, arith,
}
use wuros.Queue.{queue_size}
use wuros.Proc.{Procs, Proc, active, idle, blank_proc, proc_at, put_proc, pid_to_proc}
use wuros.Scheduler.{scheduler_timer, charge_active, wake_loop, scheduler_run, scheduler_timeslice}
use wuros.Scheduler.Run.{switched}
use wuros.Scheduler.Stay.{scheduler_run_stays}
use wuros.Scheduler.Rotate.{scheduler_run_rotates}
use wuros.Scheduler.Ring.{
  Alike, Alike-trans, write-Alike, Alike-IsPlaced, AllPlaced-last, pids_of, Alike-AllPlaced,
  Alike-pids_of, pids_of-last, length-pids_of, TakesTurns,
}

-- A tick of the timer and the way out of the kernel behind it, and `n` of them
unfoldable pub tick : Procs → Outcome Procs
tick s = scheduler_timer s >>= scheduler_run

unfoldable pub ticks : ℕ → Procs → Outcome Procs
unfolding tick
ticks zero s = ok s
ticks (suc n) s = tick s >>= ticks n

-- The active process with one more tick
abbrev charged_proc : Proc → Proc
charged_proc p = record p { run_time = incr p.run_time; cpu_time = incr p.cpu_time }

abbrev charged : Procs → ℕ → Procs
charged s a = put_proc s a (charged_proc (proc_at s a))

timer_charges :
    (s : Procs) (a : ℕ)
    → s.active_proc ≡ some a
    → s.sleep_queue.size ≡ 0
    → scheduler_timer s ≡ ok (charged s a)
unfolding scheduler_timer charge_active
timer_charges s a act quiet =
    ap (λ o. look (charge o)) act
    ∙ ap
        (λ n.
          if (if n == 0 then true else false)
          then ok (charged s a)
          else wake_loop queue_size 0 (charged s a))
        quiet
  where
    charge : Option ℕ → Procs
    charge o = elim o [ none ↦ s | some a ↦ charged s a ]

    look : Procs → Outcome Procs
    look s' =
        if (if s'.sleep_queue.size == 0 then true else false)
        then ok s'
        else wake_loop queue_size 0 s'

-- What a tick does with the active process `a`, whose time on the processor is `c`
module _ (s : Procs) (a c : ℕ) (ring : List ℕ) (t : TakesTurns s a ring)
    (time : (proc_at s a).cpu_time ≡ pos c) where
  abbrev p1 : Proc
  p1 = charged_proc (proc_at s a)

  here : proc_at (charged s a) a ≡ p1
  here = get_or-set_self s.proc_table a p1 blank_proc t.own.inside

  later : p1.cpu_time ≡ pos (c + 1)
  later = ap incr time

  charged-Alike : Alike s (charged s a)
  charged-Alike = write-Alike s a p1 s.run_queue s.active_proc refl (c + 1, later)

  tests :
      lt_ℤ (proc_at (charged s a) a).cpu_time (pos scheduler_timeslice)
      ≡ lt_ℤ (pos (c + 1)) (pos scheduler_timeslice)
  tests =
      ap (λ p. lt_ℤ p.cpu_time (pos scheduler_timeslice)) here
      ∙ ap (λ z. lt_ℤ z (pos scheduler_timeslice)) later

  -- Its time slice goes on.
  tick_stays :
      c + 1 < scheduler_timeslice
      → (s' : Procs) × (tick s ≡ ok s')
        × TakesTurns s' a ring
        × ((proc_at s' a).cpu_time ≡ pos (c + 1))
  unfolding tick
  tick_stays within =
      let s1 = charged s a in
      let p2 : Proc = record (proc_at s1 a) { state = active } in
      let s2 = put_proc s1 a p2 in
      let count2 : p2.cpu_time ≡ pos (c + 1) = ap (λ p. p.cpu_time) here ∙ later in
      let alike =
        Alike-trans s s1 s2 charged-Alike
          (write-Alike s1 a p2 s1.run_queue s1.active_proc refl (c + 1, count2)) in
      let here2 : proc_at s2 a ≡ p2 =
        get_or-set_self s1.proc_table a p2 blank_proc
          (omega (arith, t.own.inside, length-set s.proc_table a p1)) in
      (
        s2,
        ap (λ r. r >>= scheduler_run) (timer_charges s a t.act t.quiet)
            ∙ scheduler_run_stays s1 a t.act (ap (λ p. p.state) here ∙ t.on) (tests ∙ ground arith),
        record {
          valid = t.valid;
          quiet = t.quiet;
          act = t.act;
          on = ap (λ p. p.state) here2;
          waits = t.waits ∙ sym (Alike-pids_of s s2 ring alike);
          room = t.room;
          own = Alike-IsPlaced s s2 a alike t.own;
          placed = Alike-AllPlaced s s2 ring alike t.placed;
        },
        ap (λ p. p.cpu_time) here2 ∙ count2,
      )

-- Its time slice is over: the first of the ring is next, and it goes to the end.
tick_turns :
    (s : Procs) (a e c : ℕ) (rest : List ℕ)
    → TakesTurns s a (e ∷ rest)
    → (proc_at s a).cpu_time ≡ pos c
    → scheduler_timeslice ≤ c + 1
    → (s' : Procs) × (tick s ≡ ok s') × TakesTurns s' e (rest ++ a ∷ [])
unfolding tick
tick_turns s a e c rest t time over =
    let s1 = charged s a in
    let ring = e ∷ rest in
    let here1 = here s a c ring t time in
    let alike1 = charged-Alike s a c ring t time in
    let own1 = Alike-IsPlaced s s1 a alike1 t.own in
    let first1 = Alike-IsPlaced s s1 e alike1 t.placed.0 in
    let idle_p : Proc = record (proc_at s1 a) { state = idle; cpu_time = pos 0 } in
    let s2 = put_proc s1 a idle_p in
    let (q, run, vq, cq) =
      scheduler_run_rotates s1 a e (proc_at s e).pid (pids_of s rest) t.valid own1.inside t.act
        (ap (λ p. p.state) here1 ∙ t.on) (tests s a c ring t time ∙ ground arith) own1.other t.waits
        (omega (arith, ap length t.waits, length-pids_of s ring, t.room))
        (ap (pid_to_proc s1) (sym (alike1.pids e)) ∙ first1.found) in
    let s3 = switched s2 e q in
    let alike2 : Alike s1 s2 = write-Alike s1 a idle_p s1.run_queue s1.active_proc refl (0, refl) in
    let own2 = Alike-IsPlaced s1 s2 e alike2 first1 in
    let p3 : Proc = record (proc_at s2 e) { state = active } in
    let alike3 : Alike s2 s3 = write-Alike s2 e p3 q (some e) refl own2.counted in
    let alike = Alike-trans s s1 s3 alike1 (Alike-trans s1 s2 s3 alike2 alike3) in
    (
      s3,
      ap (λ r. r >>= scheduler_run) (timer_charges s a t.act t.quiet) ∙ run,
      record {
        valid = vq;
        quiet = t.quiet;
        act = refl;
        on = ap (λ p. p.state) (get_or-set_self s2.proc_table e p3 blank_proc own2.inside);
        waits =
            cq
            ∙ ap (λ z. pids_of s rest ++ z ∷ []) (alike1.pids a)
            ∙ sym (Alike-pids_of s s3 (rest ++ a ∷ []) alike ∙ pids_of-last s rest a);
        room = omega (arith, t.room, length-append rest (a ∷ []));
        own = Alike-IsPlaced s s3 e alike t.placed.0;
        placed =
            Alike-AllPlaced s s3 (rest ++ a ∷ []) alike (AllPlaced-last s rest a t.placed.1 t.own);
      },
    )

-- The rest of a time slice, and the turn of the next process
slice :
    (m c : ℕ) (s : Procs) (a e : ℕ) (rest : List ℕ)
    → scheduler_timeslice ≤ c + 1 + m
    → TakesTurns s a (e ∷ rest)
    → (proc_at s a).cpu_time ≡ pos c
    → (n : ℕ) × (n ≤ m + 1) × (s' : Procs) × (ticks n s ≡ ok s') × TakesTurns s' e (rest ++ a ∷ [])
unfolding ticks
slice zero c s a e rest enough t time =
    let (s', r, t') = tick_turns s a e c rest t time (omega arith) in
    (1, omega arith, s', ap (λ r. r >>= ticks 0) r, t')
slice (suc m) c s a e rest enough t time = elim (dec_lt (c + 1) scheduler_timeslice) [
  | no over ↦
      let (s', r, t') = tick_turns s a e c rest t time (omega (arith, over)) in
      (1, omega arith, s', ap (λ r. r >>= ticks 0) r, t')
  | yes within ↦
      let (s1, r1, t1, time1) = tick_stays s a c (e ∷ rest) t time within in
      let (n, le, s', r, t') = slice m (c + 1) s1 a e rest (omega arith) t1 time1 in
      (suc n, omega (arith, le), s', ap (λ r. r >>= ticks n) r1 ∙ r, t')
]

bind_after :
    {A B C : Type 0}
    → (r : Outcome A) (f : A → Outcome C) (g : A → Outcome B) (h : B → Outcome C)
    → ((x : A) → f x ≡ (g x >>= h))
    → (r >>= f) ≡ ((r >>= g) >>= h)
bind_after (ok x) f g h same = same x
bind_after (stop e) f g h same = refl

ticks_add : (n k : ℕ) (s : Procs) → ticks (n + k) s ≡ (ticks n s >>= ticks k)
unfolding ticks
ticks_add zero k s = ap (λ j. ticks j s) (omega arith)
ticks_add (suc n) k s =
    let more : suc n + k ≡ suc (n + k) = omega arith in
    ap (λ j. ticks j s) more
    ∙ bind_after (tick s) (ticks (n + k)) (ticks n) (ticks k) (ticks_add n k)

-- When processes take turns and none sleeps, the process behind `before` others in the run queue is the
-- active one after at most ten ticks of the timer for each of them and ten for itself; neither
-- scheduler_timer nor scheduler_run panics until then, and the processes still take turns.
pub run_queue_served :
    (before after : List ℕ) (s : Procs) (a e : ℕ)
    → TakesTurns s a (before ++ e ∷ after)
    → (n : ℕ) × (n ≤ (length before + 1) * scheduler_timeslice)
      × (s' : Procs) × (ticks n s ≡ ok s')
      × (s'.active_proc ≡ some e)
      × TakesTurns s' e (after ++ a ∷ before)
run_queue_served [] after s a e t =
    let (c, time) = t.own.counted in
    let (n, le, s', r, t') = slice 9 c s a e after (omega arith) t time in
    (n, omega (arith, le), s', r, t'.act, t')
run_queue_served (x ∷ xs) after s a e t =
    let (c, time) = t.own.counted in
    let (n, le, s1, r1, t1) = slice 9 c s a x (xs ++ e ∷ after) (omega arith) t time in
    let (k, le', s', r, act, t') =
      run_queue_served xs (after ++ a ∷ []) s1 x e
        (subst (TakesTurns s1 x) (append_assoc xs (e ∷ after) (a ∷ [])) t1) in
    (
      n + k,
      omega (arith, le, le'),
      s',
      ticks_add n k s ∙ ap (λ r. r >>= ticks k) r1 ∙ r,
      act,
      subst (TakesTurns s' e) (append_assoc after (a ∷ []) (x ∷ xs)) t',
    )
