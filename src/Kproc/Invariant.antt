-- ===== src/Kproc/Invariant.antt =====
-- src/kproc.c: creating and destroying processes keeps the table and the queues well formed.
use wuros.Prelude.{
  ℕ, ◌+◌, inl, inr, ℤ, pos, to_ℕ, eq_ℤ, List, Option, none, some, ok, stop, fault, codes, length,
  ltb, if◌then◌else◌, Keeps, Keeps-bind, Keeps-of_Ends, Keeps-if,
}
use wuros.Queue.{Queue}
use wuros.Queue.Valid.{IsValid}
use wuros.Queue.Refine.{queue_in-Pushed, queue_out-Popped}
use wuros.Proc.{Procs, ProcType, Trapframe, proc_name_len, proc_at, proc_to_entry}
use wuros.Proc.Valid.{IsWellFormed, put_proc-IsWellFormed}
use wuros.Scheduler.{scheduler_remove}
use wuros.Scheduler.Run.{scheduler_add-IsWellFormed}
use wuros.Scheduler.Invariant.{scheduler_remove-IsWellFormed}
use wuros.Kproc.{
  Machine, copy_name, frame_outside, kproc_create, reset_proc, free_entry, kproc_destroy,
}

-- A result with a state that is well formed
abbrev pub WithProcs : ℤ × Procs → Type 0
WithProcs r = IsWellFormed r.1

set_allocator-IsWellFormed :
    (s : Procs) (n : ℕ) (q : Queue)
    → IsWellFormed s
    → IsValid q
    → IsWellFormed (record s { proc_allocator = q; next_pid = n })
set_allocator-IsWellFormed s n q w vq = record {
  allocator = vq;
  runs = w.runs;
  sleeps = w.sleeps;
  table = w.table;
  active_in = w.active_in;
}

free_entry-IsWellFormed :
    (s : Procs) (o : Option ℕ) → IsWellFormed s → Keeps WithProcs (free_entry s o)
unfolding free_entry
free_entry-IsWellFormed s none w = tt
free_entry-IsWellFormed s (some e) w =
    let w1 = put_proc-IsWellFormed s e (reset_proc (proc_at s e)) w in
    elim (queue_in-Pushed s.proc_allocator (pos e) w.allocator) [
      | inl (full, h) ↦ rw (h, free_entry) w1
      | inr (q, h, vq, c, room) ↦
          rw (h, free_entry) (set_allocator-IsWellFormed _ s.next_pid q w1 vq)
    ]

pub kproc_destroy-IsWellFormed :
    (s : Procs) (o : Option ℕ) → IsWellFormed s → Keeps WithProcs (kproc_destroy s o)
unfolding kproc_destroy
kproc_destroy-IsWellFormed s none w = w
kproc_destroy-IsWellFormed s (some e) w =
    Keeps-if WithProcs (eq_ℤ (proc_at s e).pid (pos 0)) _ _ w (
      Keeps-bind IsWellFormed WithProcs (scheduler_remove s (some e)) _
        (Keeps-of_Ends IsWellFormed _ (scheduler_remove-IsWellFormed s e w))
        (λ s' w'. free_entry-IsWellFormed s' (proc_to_entry s' (some e)) w'))

abbrev AnyName : List ℕ → Type 0
AnyName name = Unit

copy_name-ends : (name : List ℕ) → Keeps AnyName (copy_name name)
unfolding copy_name
copy_name-ends name =
    Keeps-if AnyName (ltb proc_name_len (length name)) (ok (codes "DefaultUserName"))
      (if ltb (length name) proc_name_len then ok name else stop fault) tt
      (Keeps-if AnyName (ltb (length name) proc_name_len) (ok name) (stop fault) tt tt)

module _ (m : Machine) (ticks : ℕ) (stale : Trapframe) where
  pub kproc_create-IsWellFormed :
      (s : Procs) (proc_ptr : ℕ) (name : List ℕ) (type : ProcType)
      → IsWellFormed s
      → Keeps WithProcs (kproc_create m ticks stale s proc_ptr name type)
  unfolding kproc_create
  kproc_create-IsWellFormed s proc_ptr name type w =
      elim (queue_out-Popped s.proc_allocator w.allocator) [
        | inl (nothing, h) ↦ rw (h, kproc_create) w
        | inr (entry, q, h, vq, c) ↦
            rw (h, kproc_create)
              (Keeps-bind AnyName WithProcs (copy_name name) _ (copy_name-ends name) (λ n u.
                Keeps-bind IsWellFormed WithProcs _ _
                  (Keeps-if IsWellFormed (frame_outside (to_ℕ entry)) (stop fault) _ tt (
                    Keeps-of_Ends IsWellFormed _ (
                      scheduler_add-IsWellFormed _ (to_ℕ entry) (
                        put_proc-IsWellFormed _ (to_ℕ entry) _
                          (set_allocator-IsWellFormed s (s.next_pid + 1) q w vq)))))
                  (λ s' w'. w')))
      ]
