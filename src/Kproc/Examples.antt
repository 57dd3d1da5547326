-- ===== src/Kproc/Examples.antt =====
-- src/kproc.c at concrete inputs.
use wuros.Prelude.{
  ◌+◌, ◌*◌, ◌<◌, ◌≤◌, ◌≡◌, ◌↔◌, refl, ℤ, pos, List, [], ◌∷◌, ◌++◌, ok, stop, fault, ◌⊎◌, some,
  arith, codes,
}
use wuros.Queue.{Queue}
use wuros.Queue.Valid.{IsValid, contents}
use wuros.Proc.{user, proc_max, proc_stack_size, find_pid, proc_to_entry}
use wuros.Kproc.{Machine, trapframe_offset, trapframe_size, kproc_create}
use wuros.Kproc.Create.{created, stored_name, trapframe_offset_bounds, kproc_create-Creates}
use wuros.Samples.{demo, demo-IsWellFormed, zero_frame}

abbrev machine : Machine
machine = record {
  get_cs = 8;
  get_ds = 16;
  get_es = 16;
  get_fs = 16;
  get_gs = 16;
  eflags_interrupts = 514;
}

abbrev rest : List ℤ
rest =
    pos 5
    ∷ pos 6
    ∷ pos 7
    ∷ pos 8
    ∷ pos 9
    ∷ pos 10
    ∷ pos 11
    ∷ pos 12
    ∷ pos 13
    ∷ pos 14
    ∷ pos 15
    ∷ pos 16
    ∷ pos 17
    ∷ pos 18
    ∷ pos 19
    ∷ []

trapframe_offset_bounds_example :
    (4 * proc_stack_size ≤ trapframe_offset 3)
    × (trapframe_offset 3 + trapframe_size ≤ 5 * proc_stack_size)
    × ((trapframe_offset 3 + trapframe_size ≤ proc_max * proc_stack_size) ↔ (4 < proc_max))
    × (trapframe_offset 3 + trapframe_size ≤ trapframe_offset 4)
trapframe_offset_bounds_example = trapframe_offset_bounds 3 4 (omega arith) (omega arith)

kproc_create-Creates_example :
    ((5 < proc_max)
      × ((allocator : Queue) × (q : Queue) × (kproc_create machine 7 zero_frame demo 4096
              (codes "test")
              user
            ≡ ok (
              pos 5,
              created machine 7 zero_frame demo 4 4096 user
                  (stored_name (codes "test"))
                  allocator
                  q,
            ))
          × IsValid allocator
          × (contents allocator ≡ rest)
          × IsValid q
          × (contents q ≡ (pos 1 ∷ pos 2 ∷ pos 3 ∷ []) ++ pos 5 ∷ [])))
    ⊎ ((5 ≡ proc_max)
        × (kproc_create machine 7 zero_frame demo 4096 (codes "test") user ≡ stop fault))
kproc_create-Creates_example =
    kproc_create-Creates machine 7 zero_frame demo 4 4096 rest (codes "test") user demo-IsWellFormed
      refl (omega arith) (λ e. omega arith) (omega arith) (omega arith)

found_at : proc_to_entry demo (some 2) ≡ some 2
unfolding proc_to_entry find_pid
found_at = refl
