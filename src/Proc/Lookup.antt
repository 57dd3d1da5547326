-- ===== src/Proc/Lookup.antt =====
-- src/kproc.c: what pid_to_proc, proc_to_entry and entry_to_proc find.
use native.Mathlib.Decide.{dec_lt}
use wuros.Prelude.{
  ℕ, zero, suc, ◌+◌, ◌-◌, ◌≤◌, ◌<◌, ◌≡◌, refl, ◌≢◌, ◌⊎◌, inl, inr, ℤ, pos, eq_ℤ, eq_ℤ_iff, is_neg,
  lt_ℤ, false, Bool-cases, List, [], ◌∷◌, Option, none, some, Outcome, ok, stop, fault, arith,
  length, get_or, get_elem?-eq-get_or, get_elem?-none, subst, true,
}
use wuros.Proc.{Proc, Procs, blank_proc, proc_at, find_pid, pid_to_proc, entry_to_proc, proc_max}

-- What the loop over the table may find: the first entry in use with the process id, or that there
-- is none.
abbrev pub Finds : List Proc → ℤ → ℕ → Option ℕ → Type 0
Finds ps pid i r =
    ((e : ℕ) × (r ≡ some e)
      × (i ≤ e)
      × (e - i < length ps)
      × ((get_or ps (e - i) blank_proc).pid ≡ pid)
      × (is_neg pid ≡ false))
    ⊎ ((r ≡ none)
        × ((k : ℕ) → k < length ps → is_neg pid ≡ false → (get_or ps k blank_proc).pid ≢ pid))

skip_entry :
    (p : Proc) (ps : List Proc) (pid : ℤ) (i : ℕ) (r : Option ℕ)
    → (is_neg pid ≡ false → p.pid ≢ pid)
    → Finds ps pid (i + 1) r
    → Finds (p ∷ ps) pid i r
skip_entry p ps pid i r ne (inl (e, h, le, lt, same, used)) =
    let step : e - i ≡ suc (e - (i + 1)) = omega arith in
    inl (e, h, omega arith, omega arith, rw step same, used)
skip_entry p ps pid i r ne (inr (h, others)) = inr (h, all)
  where
    all :
        (k : ℕ)
        → k < suc (length ps)
        → is_neg pid ≡ false
        → (get_or (p ∷ ps) k blank_proc).pid ≢ pid
    all zero lt used = ne used
    all (suc k) lt used = others k (omega arith) used

found_here :
    (p : Proc) (ps : List Proc) (pid : ℤ) (i : ℕ)
    → is_neg p.pid ≡ false
    → p.pid ≡ pid
    → Finds (p ∷ ps) pid i (some i)
found_here p ps pid i used same =
    let here : i - i ≡ 0 = omega arith in
    inl (i, refl, omega arith, omega arith, rw here same, subst (λ z. is_neg z ≡ false) same used)

-- The loop of pid_to_proc and proc_to_entry finds the first entry in use with the process id, and
-- fails only when no entry has it.
pub find_pid-Finds : (ps : List Proc) (pid : ℤ) (i : ℕ) → Finds ps pid i (find_pid ps pid i)
unfolding find_pid
find_pid-Finds [] pid i = inr (refl, λ k h. absurd (omega arith))
find_pid-Finds (p ∷ ps) pid i = elim (Bool-cases (is_neg p.pid)) [
  | inl unused ↦
      rw (unused, find_pid)
        (skip_entry p ps pid i (find_pid ps pid (i + 1)) (λ used e. cc)
          (find_pid-Finds ps pid (i + 1)))
  | inr used ↦ elim (Bool-cases (eq_ℤ p.pid pid)) [
    | inl same ↦
        rw (used, same, find_pid) (found_here p ps pid i used ((eq_ℤ_iff p.pid pid).0 same))
    | inr other ↦
        rw (used, other, find_pid)
          (skip_entry p ps pid i (find_pid ps pid (i + 1))
            (λ u e. absurd (ground (arith, (eq_ℤ_iff p.pid pid).1 e, other)))
            (find_pid-Finds ps pid (i + 1)))
  ]
]

-- What pid_to_proc may answer.
abbrev pub Resolves : Procs → ℤ → Option ℕ → Type 0
Resolves s pid r =
    ((e : ℕ) × (r ≡ some e) × (e < length s.proc_table) × ((proc_at s e).pid ≡ pid))
    ⊎ ((r ≡ none)
        × ((is_neg pid ≡ true)
            ⊎ (lt_ℤ pid (pos s.next_pid) ≡ false)
            ⊎ ((k : ℕ) → k < length s.proc_table → (proc_at s k).pid ≢ pid)))

-- pid_to_proc answers with an entry of the table that has the process id; it answers with a null
-- pointer only for an id that is negative, was never given out, or stands in no entry.
pub pid_to_proc-Resolves : (s : Procs) (pid : ℤ) → Resolves s pid (pid_to_proc s pid)
unfolding pid_to_proc
pid_to_proc-Resolves s pid = elim (Bool-cases (is_neg pid)) [
  | inl neg ↦ inr (rw neg, inl neg)
  | inr nonneg ↦ elim (Bool-cases (lt_ℤ pid (pos s.next_pid))) [
    | inr never ↦ inr (rw (nonneg, never), inr (inl never))
    | inl given ↦ elim (find_pid-Finds s.proc_table pid 0) [
      | inl (e, h, le, lt, same, used) ↦ inl (e, rw (nonneg, given) h, omega arith, at_entry e same)
      | inr (h, others) ↦ inr (rw (nonneg, given) h, inr (inr (λ k lt. others k lt nonneg)))
    ]
  ]
]
  where
    at_entry :
        (e : ℕ) → (get_or s.proc_table (e - 0) blank_proc).pid ≡ pid → (proc_at s e).pid ≡ pid
    at_entry e same =
        let same_index : e - 0 ≡ e = omega arith in
        subst (λ j. (get_or s.proc_table j blank_proc).pid ≡ pid) same_index same

-- What entry_to_proc may answer. The table has `proc_max` entries.
abbrev pub EntryAnswer : Procs → ℕ → Outcome (Option ℕ) → Type 0
EntryAnswer s e r =
    ((e < proc_max)
      × (((is_neg (proc_at s e).pid ≡ false) × (r ≡ ok (some e)))
          ⊎ ((is_neg (proc_at s e).pid ≡ true) × (r ≡ ok none))))
    ⊎ ((e ≡ proc_max) × (r ≡ stop fault))
    ⊎ ((proc_max < e) × (r ≡ ok none))

-- entry_to_proc answers for an entry in use with its pointer, for a free one and for an index above
-- the table's size with a null pointer; the index PROC_MAX itself passes the test, and the read
-- behind the table is undefined behaviour.
pub entry_to_proc-EntryAnswer :
    (s : Procs) (e : ℕ) → length s.proc_table ≡ proc_max → EntryAnswer s e (entry_to_proc s (pos e))
unfolding entry_to_proc
entry_to_proc-EntryAnswer s e size = elim (dec_lt e proc_max) [
  | yes lt ↦
      let known = get_elem?-eq-get_or s.proc_table e blank_proc (omega arith) in
      inl (
        lt,
        elim (Bool-cases (is_neg (proc_at s e).pid)) [
          | inl unused ↦ inr (unused, ground (arith, known, unused))
          | inr used ↦ inl (used, ground (arith, known, used))
        ],
      )
  | no ge ↦
      let unknown = get_elem?-none s.proc_table e (omega arith) in
      elim (dec_lt proc_max e) [
        | yes gt ↦ inr (inr (gt, ground arith))
        | no le ↦ inr (inl (omega arith, ground (arith, unknown)))
      ]
]
