-- ===== src/Kproc/Create.antt =====
-- src/kproc.c: where the saved registers of a process lie, and what kproc_create does.
use native.Mathlib.Decide.{dec_lt}
use wuros.Prelude.{
  ℕ, suc, ◌+◌, ◌*◌, ◌≤◌, ◌<◌, ◌≡◌, refl, sym, ap, ◌∙◌, ◌≢◌, ◌↔◌, inl, inr, false, true, stop, fault,
  ◌⊎◌, ℤ, pos, ltb, List, [], ◌∷◌, ◌++◌, some, ok, arith, length, set, get_or-set_self, set-set,
  codes, if◌then◌else◌,
}
use wuros.Queue.{Queue, queue_size}
use wuros.Queue.Valid.{IsValid, contents}
use wuros.Queue.Refine.{queue_out_first}
use wuros.Proc.{
  Procs, Proc, ProcType, Trapframe, idle, blank_proc, proc_at, put_proc, proc_max, proc_name_len,
  proc_stack_size,
}
use wuros.Proc.Valid.{IsWellFormed}
use wuros.Scheduler.{scheduler_add}
use wuros.Scheduler.Run.{scheduler_add-Adds}
use wuros.Kproc.{
  Machine, trapframe_size, trapframe_offset, copy_name, frame_outside, start_proc, kproc_create,
}

-- The offset of the saved registers: those of the entry `e` lie in the stack of the entry `e + 1`,
-- so that they are inside `proc_stack` for every entry but the last; the registers of two entries
-- never overlap.
pub trapframe_offset_bounds :
    (e k : ℕ)
    → e < proc_max
    → e < k
    → (suc e * proc_stack_size ≤ trapframe_offset e)
      × (trapframe_offset e + trapframe_size ≤ suc (suc e) * proc_stack_size)
      × ((trapframe_offset e + trapframe_size ≤ proc_max * proc_stack_size) ↔ (suc e < proc_max))
      × (trapframe_offset e + trapframe_size ≤ trapframe_offset k)
unfolding trapframe_offset
trapframe_offset_bounds e k h lt =
    (omega arith, omega arith, ((λ fits. omega arith), (λ below. omega arith)), omega arith)

-- The name that the process gets, where strcpy stays inside of the array
abbrev pub stored_name : List ℕ → List ℕ
stored_name name = if ltb proc_name_len (length name) then codes "DefaultUserName" else name

copy_name-eq-ok :
    (name : List ℕ) → length name ≢ proc_name_len → copy_name name ≡ ok (stored_name name)
unfolding copy_name
copy_name-eq-ok name ne = ground arith

-- A control block that is written to the table and entered at the end of the run queue
enter :
    (s : Procs) (e : ℕ) (p : Proc)
    → IsValid s.run_queue
    → e < length s.proc_table
    → record p { state = idle; cpu_time = pos 0 } ≡ p
    → p.pid ≢ pos 0
    → length (contents s.run_queue) < queue_size
    → (q : Queue) × (scheduler_add (put_proc s e p) (some e)
        ≡ ok (put_proc (record s { run_queue = q }) e p))
      × IsValid q
      × (contents q ≡ contents s.run_queue ++ p.pid ∷ [])
enter s e p v lt fresh ne room =
    let here : proc_at (put_proc s e p) e ≡ p = get_or-set_self s.proc_table e p blank_proc lt in
    elim (scheduler_add-Adds (put_proc s e p) e v) [
      | inl (zero_pid, r) ↦ absurd (ne (ap (λ x. x.pid) (sym here) ∙ zero_pid))
      | inr (inl (full, r)) ↦ absurd (omega arith)
      | inr (inr (q, r, vq, c)) ↦ (
        q,
        r
            ∙ ap
                (λ x. ok (
                  put_proc (record (put_proc s e p) { run_queue = q }) e
                    (record x { state = idle; cpu_time = pos 0 })))
                here
            ∙ ap (λ x. ok (put_proc (record (put_proc s e p) { run_queue = q }) e x)) fresh
            ∙ ap (λ t. ok (record s { run_queue = q; proc_table = t }))
                (set-set s.proc_table e p p),
        vq,
        c ∙ ap (λ x. contents s.run_queue ++ x.pid ∷ []) here,
      )
    ]

module _ (m : Machine) (ticks : ℕ) (stale : Trapframe) where
  -- The state after `e` was taken from the allocator and entered at the end of the run queue.
  abbrev pub created : Procs → ℕ → ℕ → ProcType → List ℕ → Queue → Queue → Procs
  created s e proc_ptr type name allocator q = record s {
    proc_allocator = allocator;
    next_pid = s.next_pid + 1;
    run_queue = q;
    proc_table =
        set s.proc_table e (start_proc m ticks stale (proc_at s e) e s.next_pid proc_ptr type name);
  }

  pub kproc_create-eq-ok :
      (s : Procs) (e proc_ptr : ℕ) (rest : List ℤ) (name : List ℕ) (type : ProcType)
      → IsWellFormed s
      → contents s.proc_allocator ≡ pos e ∷ rest
      → suc e < proc_max
      → length name ≢ proc_name_len
      → 0 < s.next_pid
      → length (contents s.run_queue) < queue_size
      → (allocator : Queue) × (q : Queue) × (kproc_create m ticks stale s proc_ptr name type
          ≡ ok (pos s.next_pid, created s e proc_ptr type (stored_name name) allocator q))
        × IsValid allocator
        × (contents allocator ≡ rest)
        × IsValid q
        × (contents q ≡ contents s.run_queue ++ pos s.next_pid ∷ [])
  unfolding kproc_create start_proc frame_outside trapframe_offset
  kproc_create-eq-ok s e proc_ptr rest name type w c lt short later room =
      let (allocator, h, va, ca) = queue_out_first s.proc_allocator (pos e) rest w.allocator c in
      let inside : frame_outside e ≡ false = ground arith in
      let (q, r, vq, cq) =
        enter (record s { proc_allocator = allocator; next_pid = s.next_pid + 1 }) e
          (start_proc m ticks stale (proc_at s e) e s.next_pid proc_ptr type (stored_name name))
          w.runs (omega (arith, w.table)) refl (λ same. ground arith) room in
      (
        allocator,
        q,
        rw (h, kproc_create) (rw (copy_name-eq-ok name short) (rw inside (rw r))),
        va,
        ca,
        vq,
        cq,
      )

  -- kproc_create with a free entry `e` in front of the allocator, a name that is not 32 characters long,
  -- room in the run queue and an id that is not 0. Where `e` is not the last entry of the table, it gives
  -- out the next process id, fills the entry, takes it off the allocator and puts the id at the end of the
  -- run queue. For the last entry it writes outside of the stacks, which is undefined behaviour.
  pub kproc_create-Creates :
      (s : Procs) (e proc_ptr : ℕ) (rest : List ℤ) (name : List ℕ) (type : ProcType)
      → IsWellFormed s
      → contents s.proc_allocator ≡ pos e ∷ rest
      → e < proc_max
      → length name ≢ proc_name_len
      → 0 < s.next_pid
      → length (contents s.run_queue) < queue_size
      → ((suc e < proc_max)
          × ((allocator : Queue) × (q : Queue) × (kproc_create m ticks stale s proc_ptr name type
                ≡ ok (pos s.next_pid, created s e proc_ptr type (stored_name name) allocator q))
              × IsValid allocator
              × (contents allocator ≡ rest)
              × IsValid q
              × (contents q ≡ contents s.run_queue ++ pos s.next_pid ∷ [])))
        ⊎ ((suc e ≡ proc_max) × (kproc_create m ticks stale s proc_ptr name type ≡ stop fault))
  unfolding kproc_create frame_outside trapframe_offset
  kproc_create-Creates s e proc_ptr rest name type w c lt short later room =
      elim (dec_lt (suc e) proc_max) [
        | yes below ↦
            inl (below, kproc_create-eq-ok s e proc_ptr rest name type w c below short later room)
        | no last ↦
            let (allocator, h, va, ca) =
              queue_out_first s.proc_allocator (pos e) rest w.allocator c in
            let same : suc e ≡ proc_max = omega (arith, lt, last) in
            let outside : frame_outside e ≡ true = ground (arith, same) in
            inr (same, rw (h, kproc_create) (rw (copy_name-eq-ok name short) (rw outside refl)))
      ]
