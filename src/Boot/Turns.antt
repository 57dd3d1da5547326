-- ===== src/Boot/Turns.antt =====
-- src/main.c and src/scheduler.c: the processes that kproc_init creates take turns.
use native.Mathlib.Decide.{dec_lt}
use wuros.Prelude.{
  ℕ, zero, suc, ◌+◌, ◌-◌, ◌<◌, ◌≤◌, ◌≡◌, ◌≢◌, refl, sym, ap, ap₂, subst, ◌∙◌, inl, inr, pos,
  minus_one, to_ℕ, is_neg, lt_ℤ, true, false, List, [], ◌∷◌, ◌++◌, some, ok, length,
  get_or-set_self, arith,
}
use wuros.Queue.Ids.{ids}
use wuros.Proc.{Procs, Proc, active, blank_proc, proc_at, proc_max, pid_to_proc}
use wuros.Proc.Lookup.{pid_to_proc-Resolves}
use wuros.Scheduler.{scheduler_run}
use wuros.Scheduler.Run.{switched, scheduler_run_next}
use wuros.Scheduler.Ring.{
  Alike, write-Alike, IsPlaced, Alike-IsPlaced, AllPlaced, Alike-AllPlaced, pids_of, Alike-pids_of,
  TakesTurns,
}
use wuros.Scheduler.Fair.{ticks, run_queue_served}
use wuros.Kproc.Created.{Created}
use wuros.Kproc.Start.{Programs}
use wuros.Kernel.{Platform, Kernel}
use wuros.Boot.{Entries, start}
use wuros.Boot.Started.{IsUnstarted, start-Sound}

-- n entries of the table, from `i` on
abbrev pub entries_from : ℕ → ℕ → List ℕ
entries_from zero i = []
entries_from (suc n) i = i ∷ entries_from n (i + 1)

module _ (n : ℕ) (s : Procs) (c : Created n s) (fits : n ≤ proc_max) where
  alone : (e k : ℕ) → e < n → k < length s.proc_table → (proc_at s k).pid ≡ pos e → k ≡ e
  alone e k lt inside same = elim (dec_lt k n) [
    | yes below ↦ ap to_ℕ (sym (c.pids k below) ∙ same)
    | no above ↦ absurd (
        not_minus_one
          (sym (c.unused k (omega (arith, above)) (omega (arith, inside, c.well.table))) ∙ same))
  ]
    where
      not_minus_one : minus_one ≢ pos e
      not_minus_one h = cc

  looked_up : (e : ℕ) → e < n → pid_to_proc s (pos e) ≡ some e
  looked_up e lt = elim (pid_to_proc-Resolves s (pos e)) [
    | inl (k, r, inside, same) ↦ r ∙ ap some (alone e k lt inside same)
    | inr (r, inl neg) ↦ absurd (positive neg)
    | inr (r, inr (inl never)) ↦
        absurd (given (ap (λ k. lt_ℤ (pos e) (pos k)) (sym c.next) ∙ never))
    | inr (r, inr (inr absent)) ↦
        absurd (absent e (omega (arith, c.well.table, fits)) (c.pids e lt))
  ]
    where
      positive : is_neg (pos e) ≢ true
      positive h = cc

      given : lt_ℤ (pos e) (pos n) ≢ false
      given h = ground arith

  created-IsPlaced : (e : ℕ) → 0 < e → e < n → IsPlaced s e
  created-IsPlaced e lo lt = record {
    inside = omega (arith, c.well.table, fits);
    other = λ h. nonzero (sym (c.pids e lt) ∙ h);
    found = ap (pid_to_proc s) (c.pids e lt) ∙ looked_up e lt;
    counted = (0, c.counts e lt);
  }
    where
      nonzero : pos e ≢ pos 0
      nonzero h = omega (arith, ap to_ℕ h)

  created-AllPlaced : (k i : ℕ) → 0 < i → k + i ≤ n → AllPlaced s (entries_from k i)
  created-AllPlaced zero i lo hi = tt
  created-AllPlaced (suc k) i lo hi =
      (created-IsPlaced i lo (omega arith), created-AllPlaced k (i + 1) (omega arith) (omega arith))

  created-pids : (k i : ℕ) → k + i ≤ n → ids k i ≡ pids_of s (entries_from k i)
  created-pids zero i hi = refl
  created-pids (suc k) i hi =
      ap₂ (λ x xs. x ∷ xs) (sym (c.pids i (omega arith))) (created-pids k (i + 1) (omega arith))

-- After kproc_init the scheduler starts with the process 1, and the others wait.
first_turn :
    (s : Procs)
    → Created 11 s
    → (s' : Procs) × (scheduler_run s ≡ ok s') × TakesTurns s' 1 (entries_from 9 2)
first_turn s c =
    let (q, run, vq, cq) =
      scheduler_run_next s (pos 1) (ids 9 2) 1 c.well.runs c.nobody c.runs
        (looked_up 11 s c (omega arith) 1 (omega arith)) in
    let s' = switched s 1 q in
    let p : Proc = record (proc_at s 1) { state = active } in
    let alike : Alike s s' = write-Alike s 1 p q (some 1) refl (0, c.counts 1 (omega arith)) in
    (
      s',
      run,
      record {
        valid = vq;
        quiet = c.awake;
        act = refl;
        on =
            ap (λ p. p.state)
              (get_or-set_self s.proc_table 1 p blank_proc (omega (arith, c.well.table)));
        waits =
            cq
            ∙ created-pids 11 s c (omega arith) 9 2 (omega arith)
            ∙ sym (Alike-pids_of s s' (entries_from 9 2) alike);
        room = omega arith;
        own =
            Alike-IsPlaced s s' 1 alike
              (created-IsPlaced 11 s c (omega arith) 1 (omega arith) (omega arith));
        placed =
            Alike-AllPlaced s s' (entries_from 9 2) alike
              (created-AllPlaced 11 s c (omega arith) 9 2 (omega arith) (omega arith));
      },
    )

split_entries :
    (k j i : ℕ)
    → entries_from (k + suc j) i ≡ entries_from k i ++ (i + k) ∷ entries_from j (i + k + 1)
split_entries zero j i =
    let start : zero + suc j ≡ suc j = omega arith in
    let here : i ≡ i + 0 = omega arith in
    ap (λ m. entries_from m i) start ∙ ap (λ x. x ∷ entries_from j (x + 1)) here
split_entries (suc k) j i =
    let more : suc k + suc j ≡ suc (k + suc j) = omega arith in
    let there : i + 1 + k ≡ i + suc k = omega arith in
    ap (λ m. entries_from m i) more
    ∙ ap (λ l. i ∷ l)
        (split_entries k j (i + 1)
          ∙ ap (λ x. entries_from k (i + 1) ++ x ∷ entries_from j (x + 1)) there)

length-entries_from : (k i : ℕ) → length (entries_from k i) ≡ k
length-entries_from zero i = refl
length-entries_from (suc k) i = ap suc (length-entries_from k (i + 1))

-- One of the processes 1 to 10 as the one that runs after at most 90 ticks
turn_of :
    (s : Procs) (e : ℕ)
    → TakesTurns s 1 (entries_from 9 2)
    → 0 < e
    → e < 11
    → (n : ℕ) × (n ≤ 90) × (s' : Procs) × (ticks n s ≡ ok s') × (s'.active_proc ≡ some e)
unfolding ticks
turn_of s zero t lo hi = absurd (omega arith)
turn_of s (suc zero) t lo hi = (0, omega arith, s, refl, t.act)
turn_of s (suc (suc k)) t lo hi =
    let nine : 9 ≡ k + suc (8 - k) = omega arith in
    let after = entries_from (8 - k) (2 + k + 1) in
    let place : entries_from 9 2 ≡ entries_from k 2 ++ (2 + k) ∷ after =
      ap (λ m. entries_from m 2) nine ∙ split_entries k (8 - k) 2 in
    let (n, le, s', r, act, t') =
      run_queue_served (entries_from k 2) after s 1 (2 + k) (subst (TakesTurns s 1) place t) in
    let same : 2 + k ≡ suc (suc k) = omega arith in
    (n, omega (arith, le, length-entries_from k 2), s', r, act ∙ ap some same)

module _ (w : Platform) (entries : Entries) (programs : Programs) where
  -- From globals whose arrays have their sizes, with no process and no terminal active, main makes its
  -- calls in front of the welcome message to the end, and the scheduler then takes up a process. From there
  -- on each of the ten processes that kproc_init creates beside the idle task is the active one after at
  -- most 90 ticks of the timer, if nothing but scheduler_timer and scheduler_run works on the processes.
  pub every_process_runs :
      (k : Kernel) (e : ℕ)
      → IsUnstarted k
      → 0 < e
      → e < 11
      → (k' : Kernel) × (start w entries programs k ≡ ok k')
        × (s : Procs) × (scheduler_run k'.procs ≡ ok s)
        × (n : ℕ) × (n ≤ 90)
        × (s' : Procs) × (ticks n s ≡ ok s')
        × (s'.active_proc ≡ some e)
  every_process_runs k e u lo hi =
      let (k', r, sound, created, tty, wired) = start-Sound w entries programs k u in
      let (s, run, turns) = first_turn k'.procs created in
      let (n, le, s', r', act) = turn_of s e turns lo hi in (k', r, s, run, n, le, s', r', act)
