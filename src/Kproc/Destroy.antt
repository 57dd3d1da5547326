-- ===== src/Kproc/Destroy.antt =====
-- src/kproc.c: what kproc_destroy frees.
use wuros.Prelude.{ℕ, ◌≤◌, ◌<◌, ◌≡◌, ◌≢◌, pos, eq_ℤ_ne, [], ◌∷◌, ◌++◌, some, ok, length}
use wuros.Queue.{Queue, queue_size}
use wuros.Queue.Valid.{IsValid, contents}
use wuros.Queue.Refine.{queue_in_last}
use wuros.Proc.{Procs, proc_at, put_proc, proc_to_entry}
use wuros.Proc.Valid.{IsWellFormed}
use wuros.Scheduler.Remove.{removed, scheduler_remove_total}
use wuros.Kproc.{kproc_destroy, free_entry, reset_proc}

-- The state after `e` was taken out of the scheduler, with `q` for the run queue, and freed.
abbrev pub destroyed : Procs → ℕ → Queue → Queue → Procs
destroyed s e q allocator = record (put_proc (removed s e q) e (reset_proc (proc_at s e))) {
  proc_allocator = allocator;
}

-- kproc_destroy of a process other than the idle task, which the lookup by its id finds at its own
-- entry, succeeds: the run queue stays valid and does not grow, the entry is reset and goes to the
-- end of the allocator. The sleep queue is left as it was.
pub kproc_destroy-eq-ok :
    (s : Procs) (e : ℕ)
    → IsWellFormed s
    → (proc_at s e).pid ≢ pos 0
    → proc_to_entry s (some e) ≡ some e
    → length (contents s.proc_allocator) < queue_size
    → (q : Queue) × (allocator : Queue) × (kproc_destroy s (some e)
        ≡ ok (pos 0, destroyed s e q allocator))
      × IsValid q
      × (q.size ≤ s.run_queue.size)
      × IsValid allocator
      × (contents allocator ≡ contents s.proc_allocator ++ pos e ∷ [])
unfolding kproc_destroy proc_to_entry
kproc_destroy-eq-ok s e w ne found room =
    let (q, r, vq, le) = scheduler_remove_total s e w.runs in
    let (allocator, h, va, c) = queue_in_last s.proc_allocator (pos e) w.allocator room in
    (
      q,
      allocator,
      rw (eq_ℤ_ne (proc_at s e).pid (pos 0) ne) (rw (r, found, free_entry) (rw (h, free_entry))),
      vq,
      le,
      va,
      c,
    )
