-- ===== src/Ksyscall/Dispatch/Answer.antt =====
-- src/ksyscall.c: what ksyscall_irq_handler leaves in the EAX register of the caller.
use native.Mathlib.Decide.{dec_le}
use wuros.Prelude.{
  zero, sym, List, [], ◌∷◌, ◌+◌, Bool-cases, ◌⊎◌, ℕ, ◌^◌, ◌≤◌, ◌<◌, ◌≡◌, refl, ap, ◌∙◌, inl, inr, ℤ,
  pos, negsuc, suc, inl, inr, Bool, Option-cases, ◌==◌, if◌then◌else◌, Option, none, some,
  get_elem?, get_elem?-none, get_elem?-of_lt, false, Outcome, ok, stop, panic, ◌>>=◌, arith,
}
use wuros.Proc.{Trapframe, proc_at}
use wuros.Kmutex.{Mutex}
use wuros.Ksem.{Sem}
use wuros.Kernel.{Kernel}
use wuros.Ksyscall.Dispatch.{
  Syscall, number, syscalls, int_of_word, word_of_int, set_eax, answer, answer_in, perform, serve,
  ksyscall_irq_handler,
}

-- A value of type int survives the way through the register, and a register value the way through an
-- int.
pub int_of_word-word_of_int :
    (n : ℕ)
    → (n < 2 ^ 31)
    → (int_of_word (word_of_int (pos n)) ≡ pos n)
      × (int_of_word (word_of_int (negsuc n)) ≡ negsuc n)
unfolding int_of_word word_of_int
int_of_word-word_of_int n h = (ground arith, ground arith)

nonzero : (v : ℕ) → 0 < v → (v == 0) ≡ false
nonzero v h = ground arith

abbrev answer_by : Kernel → ℤ → Option ℕ → Outcome Kernel
answer_by k rc o = elim o [ none ↦ ok k | some a ↦ answer_in k a (proc_at k.procs a).trapframe rc ]

-- The result of a call goes to EAX of the active process.
pub answered :
    (k : Kernel) (a : ℕ) (g : Trapframe) (rc : ℤ)
    → k.procs.active_proc ≡ some a
    → (proc_at k.procs a).trapframe ≡ some g
    → answer k rc ≡ ok (set_eax k a g (word_of_int rc))
unfolding answer answer_in
answered k a g rc act regs = ap (answer_by k rc) act ∙ ap (λ o. answer_in k a o rc) regs

-- The calls stand in the table at their numbers, from `i` on.
abbrev Numbered : ℕ → List Syscall → Type 0
Numbered i [] = Unit {0}
Numbered i (c ∷ cs) = (number c ≡ i) × Numbered (i + 1) cs

at_number :
    (cs : List Syscall) (i v : ℕ) (call : Syscall)
    → Numbered i cs
    → get_elem? cs v ≡ some call
    → number call ≡ i + v
at_number [] i v call all found = absurd (none≢some call found)
  where
    none≢some : (call : Syscall) → none ≡ some call → ⊥
    none≢some call e = cc
at_number (c ∷ cs) i zero call (first, others) found =
    ap number (sym (same c call found)) ∙ first ∙ omega arith
  where
    same : (c call : Syscall) → some c ≡ some call → c ≡ call
    same c call e = cc
at_number (c ∷ cs) i (suc v) call (first, others) found =
    at_number cs (i + 1) v call others found ∙ omega arith

all-Numbered : Numbered 0 syscalls
unfolding number
all-Numbered = (
  refl,
  (
    refl,
    (
      refl,
      (
        refl,
        (
          refl,
          (
            refl,
            (
              refl,
              (
                refl,
                (refl, (refl, (refl, (refl, (refl, (refl, (refl, (refl, (refl, (refl, tt)))))))))),
              ),
            ),
          ),
        ),
      ),
    ),
  ),
)

number-get_elem? : (v : ℕ) (call : Syscall) → get_elem? syscalls v ≡ some call → number call ≡ v
number-get_elem? v call found = at_number syscalls 0 v call all-Numbered found ∙ omega arith

module _ (after_free_mutex : Mutex → Mutex) (after_free_sem : Sem → Sem) where
  abbrev handler : Kernel → Outcome Kernel
  handler = ksyscall_irq_handler after_free_mutex after_free_sem

  abbrev performs : Kernel → ℕ → ℕ → ℕ → Syscall → Outcome (ℤ × Kernel)
  performs = perform after_free_mutex after_free_sem

  abbrev finish : ℤ × Kernel → Outcome Kernel
  finish r = answer r.1 r.0

  abbrev by_active : Kernel → Option ℕ → Outcome Kernel
  by_active k o = elim o [
    | none ↦ stop panic
    | some a ↦ serve after_free_mutex after_free_sem k (proc_at k.procs a).trapframe
  ]

  abbrev run : Kernel → Trapframe → Option Syscall → Outcome Kernel
  run k f none = stop panic
  run k f (some call) = performs k f.ebx f.ecx f.edx call >>= finish

  abbrev tested : Kernel → Trapframe → ℕ → Bool → Outcome Kernel
  tested k f v b = if b then ok k else run k f (get_elem? syscalls v)

  -- How the handler starts: with the registers that were saved
  starts :
      (k : Kernel) (a v : ℕ) (f : Trapframe)
      → k.procs.active_proc ≡ some a
      → (proc_at k.procs a).trapframe ≡ some f
      → f.eax ≡ v
      → handler k ≡ tested k f v (v == 0)
  unfolding ksyscall_irq_handler serve
  starts k a v f act frame eax =
      ap (by_active k) act
      ∙ ap (serve after_free_mutex after_free_sem k) frame
      ∙ served
      ∙ ap (λ v. tested k f v (v == 0)) eax
    where
      served : serve after_free_mutex after_free_sem k (some f) ≡ tested k f f.eax (f.eax == 0)
      served = elim (Option-cases (get_elem? syscalls f.eax)) [
        | inl e ↦ rw (e, serve) refl
        | inr (call, e) ↦ rw (e, serve) refl
      ]

  -- A call with a number of the table runs, and then its result is passed on.
  pub handler_runs :
      (k : Kernel) (a n : ℕ) (f : Trapframe) (call : Syscall)
      → k.procs.active_proc ≡ some a
      → (proc_at k.procs a).trapframe ≡ some f
      → f.eax ≡ suc n
      → get_elem? syscalls (suc n) ≡ some call
      → handler k ≡ (performs k f.ebx f.ecx f.edx call >>= finish)
  handler_runs k a n f call act frame eax found =
      starts k a (suc n) f act frame eax
      ∙ ap (tested k f (suc n)) (nonzero (suc n) (omega arith))
      ∙ ap (run k f) found

  -- The two endings of a call that came back with a result
  pub handler_returns :
      (k k' : Kernel) (a b n : ℕ) (f g : Trapframe) (call : Syscall) (rc : ℤ)
      → k.procs.active_proc ≡ some a
      → (proc_at k.procs a).trapframe ≡ some f
      → f.eax ≡ suc n
      → get_elem? syscalls (suc n) ≡ some call
      → performs k f.ebx f.ecx f.edx call ≡ ok (rc, k')
      → k'.procs.active_proc ≡ some b
      → (proc_at k'.procs b).trapframe ≡ some g
      → handler k ≡ ok (set_eax k' b g (word_of_int rc))
  handler_returns k k' a b n f g call rc act frame eax found done still regs =
      handler_runs k a n f call act frame eax found
      ∙ ap (λ r. r >>= finish) done
      ∙ answered k' b g rc still regs

  pub handler_blocks :
      (k k' : Kernel) (a n : ℕ) (f : Trapframe) (call : Syscall) (rc : ℤ)
      → k.procs.active_proc ≡ some a
      → (proc_at k.procs a).trapframe ≡ some f
      → f.eax ≡ suc n
      → get_elem? syscalls (suc n) ≡ some call
      → performs k f.ebx f.ecx f.edx call ≡ ok (rc, k')
      → k'.procs.active_proc ≡ none
      → handler k ≡ ok k'
  unfolding answer
  handler_blocks k k' a n f call rc act frame eax found done off =
      handler_runs k a n f call act frame eax found
      ∙ ap (λ r. r >>= finish) done
      ∙ ap (answer_by k' rc) off

  unsaved :
      (k : Kernel) (a : ℕ)
      → (proc_at k.procs a).trapframe ≡ none
      → serve after_free_mutex after_free_sem k (proc_at k.procs a).trapframe ≡ stop panic
  unfolding serve
  unsaved k a e = ap (serve after_free_mutex after_free_sem k) e

  -- What the handler may do, with `r` for its outcome
  abbrev pub Handles : Kernel → Outcome Kernel → Type 0
  Handles k r =
      ((k.procs.active_proc ≡ none) × (r ≡ stop panic))
      ⊎ ((a : ℕ) × (k.procs.active_proc ≡ some a)
          × ((((proc_at k.procs a).trapframe ≡ none) × (r ≡ stop panic))
              ⊎ ((f : Trapframe) × ((proc_at k.procs a).trapframe ≡ some f)
                  × (((f.eax ≡ 0) × (r ≡ ok k))
                      ⊎ ((18 ≤ f.eax) × (r ≡ stop panic))
                      ⊎ ((0 < f.eax)
                          × (call : Syscall) × (number call ≡ f.eax)
                          × (r ≡ (performs k f.ebx f.ecx f.edx call >>= finish)))))))

  numbered :
      (k : Kernel) (a : ℕ) (f : Trapframe)
      → k.procs.active_proc ≡ some a
      → (proc_at k.procs a).trapframe ≡ some f
      → 0 < f.eax
      → handler k ≡ run k f (get_elem? syscalls f.eax)
  numbered k a f act frame some_call =
      starts k a f.eax f act frame refl ∙ ap (tested k f f.eax) (nonzero f.eax some_call)

  -- Without an active process, without saved registers and for a number of 18 and more in EAX,
  -- ksyscall_irq_handler panics; for the number 0 nothing changes; for any other the call that has this
  -- number in `syscall_t` runs on EBX, ECX and EDX, and its result goes to the process that is active then.
  pub ksyscall_irq_handler-Handles : (k : Kernel) → Handles k (handler k)
  unfolding ksyscall_irq_handler
  ksyscall_irq_handler-Handles k = elim (Option-cases k.procs.active_proc) [
    | inl off ↦ inl (off, ap (by_active k) off)
    | inr (a, act) ↦ elim (Option-cases (proc_at k.procs a).trapframe) [
      | inl no_frame ↦ inr (a, act, inl (no_frame, ap (by_active k) act ∙ unsaved k a no_frame))
      | inr (f, frame) ↦ inr (a, act, inr (f, frame, by_number a f act frame))
    ]
  ]
    where
      by_number :
          (a : ℕ) (f : Trapframe)
          → k.procs.active_proc ≡ some a
          → (proc_at k.procs a).trapframe ≡ some f
          → ((f.eax ≡ 0) × (handler k ≡ ok k))
            ⊎ ((18 ≤ f.eax) × (handler k ≡ stop panic))
            ⊎ ((0 < f.eax)
                × (call : Syscall) × (number call ≡ f.eax)
                × (handler k ≡ (performs k f.ebx f.ecx f.edx call >>= finish)))
      by_number a f act frame = elim (dec_le 18 f.eax) [
        | yes beyond ↦ inr (
            inl (
              beyond,
              numbered k a f act frame (omega arith)
                  ∙ ap (run k f) (get_elem?-none syscalls f.eax beyond),
            ))
        | no within ↦ elim (Bool-cases (f.eax == 0)) [
          | inl nothing ↦
              let zero_eax : f.eax ≡ 0 = ground arith in
              inl (zero_eax, starts k a 0 f act frame zero_eax)
          | inr call_given ↦
              let (call, found) = get_elem?-of_lt syscalls f.eax (omega (arith, within)) in
              let some_call : 0 < f.eax = ground arith in
              inr (
                inr (
                  some_call,
                  call,
                  number-get_elem? f.eax call found,
                  numbered k a f act frame some_call ∙ ap (run k f) found,
                ))
        ]
      ]
