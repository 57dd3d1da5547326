-- ===== src/Ksyscall/Dispatch/Name.antt =====
-- src/ksyscall.c: the system call that copies the name of the caller.
use wuros.Prelude.{
  ℕ, ◌+◌, ◌-◌, ◌≤◌, ◌<◌, ◌≡◌, refl, ap, ◌∙◌, ℤ, pos, minus_one, false, ◌==◌, if◌then◌else◌, List,
  ◌++◌, Option, none, some, Outcome, ok, ◌>>=◌, length, replicate, arith,
}
use wuros.Proc.{Procs, Trapframe, proc_at, proc_name_len}
use wuros.Kmutex.{Mutex}
use wuros.Ksem.{Sem}
use wuros.Kernel.{Kernel}
use wuros.Ksyscall.Calls.{store_bytes, strncpy, ksyscall_proc_get_name}
use wuros.Ksyscall.Calls.Memory.{patched, store_bytes-eq-ok, strncpy-padded, length-strncpy}
use wuros.Ksyscall.Dispatch.{
  proc_get_name, word_of_int, set_eax, perform, on_memory, ksyscall_irq_handler,
}
use wuros.Ksyscall.Dispatch.Answer.{handler_returns}

get_name-eq-ok :
    (s : Procs) (mem : List ℕ) (p a : ℕ)
    → s.active_proc ≡ some a
    → 0 < p
    → p + proc_name_len ≤ length mem
    → length (proc_at s a).name ≤ proc_name_len
    → let name = (proc_at s a).name in
      ksyscall_proc_get_name s mem p
      ≡ ok (pos 0, patched mem p (name ++ replicate (proc_name_len - length name) 0))
unfolding ksyscall_proc_get_name
get_name-eq-ok s mem p a act real inside fits =
    let name = (proc_at s a).name in
    ap by_active act
    ∙ ap (λ b. if b then ok (minus_one, mem) else copied (store_bytes mem p (strncpy name 32)))
        given
    ∙ ap copied (
        store_bytes-eq-ok mem p (strncpy name 32)
          (omega (arith, inside, length-strncpy name proc_name_len fits)))
    ∙ ap (λ bs. ok (pos 0, patched mem p bs)) (strncpy-padded name proc_name_len fits)
  where
    copied : Outcome (List ℕ) → Outcome (ℤ × List ℕ)
    copied r = r >>= λ mem'. ok (pos 0, mem')

    by_active : Option ℕ → Outcome (ℤ × List ℕ)
    by_active o = elim o [
      | none ↦ ok (minus_one, mem)
      | some a ↦
          if p == 0
          then ok (minus_one, mem)
          else copied (store_bytes mem p (strncpy (proc_at s a).name proc_name_len))
    ]

    given : (p == 0) ≡ false
    given = ground arith

module _ (after_free_mutex : Mutex → Mutex) (after_free_sem : Sem → Sem) where
  performs_get_name :
      (k : Kernel) (f : Trapframe) (p : ℕ) (mem : List ℕ)
      → f.ebx ≡ p
      → ksyscall_proc_get_name k.procs k.memory p ≡ ok (pos 0, mem)
      → perform after_free_mutex after_free_sem k f.ebx f.ecx f.edx proc_get_name
        ≡ ok (pos 0, record k { memory = mem })
  unfolding perform
  performs_get_name k f p mem arg copied =
      ap (λ w. ksyscall_proc_get_name k.procs k.memory w >>= done) arg ∙ ap (λ r. r >>= done) copied
    where
      done : ℤ × List ℕ → Outcome (ℤ × Kernel)
      done r = ok (on_memory k r)

  -- The system call to get the name of the process, with a pointer that is not null and has room for
  -- PROC_NAME_LEN bytes: these become the caller's name, filled up with NUL. The rest of the memory is as
  -- it was, and EAX holds 0.
  pub get_name_call :
      (k : Kernel) (a p : ℕ) (f : Trapframe)
      → k.procs.active_proc ≡ some a
      → (proc_at k.procs a).trapframe ≡ some f
      → f.eax ≡ 9
      → f.ebx ≡ p
      → 0 < p
      → p + proc_name_len ≤ length k.memory
      → length (proc_at k.procs a).name ≤ proc_name_len
      → let name = (proc_at k.procs a).name in
        let padded = name ++ replicate (proc_name_len - length name) 0 in
        ksyscall_irq_handler after_free_mutex after_free_sem k
        ≡ ok (set_eax (record k { memory = patched k.memory p padded }) a f 0)
  unfolding word_of_int
  get_name_call k a p f act frame eax arg real inside fits =
      let name = (proc_at k.procs a).name in
      let padded = name ++ replicate (proc_name_len - length name) 0 in
      let k' = record k { memory = patched k.memory p padded } in
      handler_returns after_free_mutex after_free_sem k k' a a 8 f f proc_get_name (pos 0) act frame
        eax refl
        (performs_get_name k f p _ arg (get_name-eq-ok k.procs k.memory p a act real inside fits))
        act frame
