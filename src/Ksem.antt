-- ===== src/Ksem.antt =====
-- include/ksem.h and src/ksem.c: the kernel's semaphores. What free() leaves in an element of the
-- static table is a parameter.
pub mod Wait
pub mod Post
pub mod Invariant
mod Examples
use wuros.Prelude.{
  ℕ, ℤ, pos, negsuc, minus_one, to_ℕ, incr, decr, eq_ℤ, lt_ℤ, is_neg, ◌||◌, not, Bool,
  if◌then◌else◌, List, [], ◌∷◌, Option, none, some, get_or, get_elem?, set, Outcome, ok, stop,
  fault, ◌>>=◌,
}
use wuros.Queue.{Queue, queue_init, queue_in, queue_out, queue_is_empty}
use wuros.Proc.{Procs, waiting, proc_at, put_proc, pid_to_proc}
use wuros.Scheduler.{scheduler_add, scheduler_remove}
use wuros.Kmutex.{fill_ids}

-- SEM_MAX
abbrev pub sem_max : ℕ
sem_max = 16

-- `sem_t`
pub record Sem : Type 0 where
  pub allocated : ℤ
  pub count : ℤ
  pub wait_queue : Queue

-- The globals of src/ksem.c beside those of the scheduler.
pub record Sems : Type 0 where
  pub procs : Procs
  pub semaphores : List Sem
  pub sem_queue : Queue

-- What stands for a read outside of the table, where the tests on the id rule that out.
abbrev pub zeroed_sem : Sem
zeroed_sem = record {
  allocated = pos 0;
  count = pos 0;
  wait_queue = record { head = pos 0; tail = pos 0; size = 0; items = [] };
}

abbrev pub sem_at : Sems → ℕ → Sem
sem_at s id = get_or s.semaphores id zeroed_sem

abbrev pub put_sem : Sems → ℕ → Procs → Sem → Sems
put_sem s id procs m = record s { procs = procs; semaphores = set s.semaphores id m }

abbrev invalid_sem : ℤ → Bool
invalid_sem id = is_neg id || not (lt_ℤ id (pos sem_max))

clear_sem : Sem → Sem
clear_sem m = record { allocated = pos 0; count = pos 0; wait_queue = queue_init m.wait_queue }

clear_sems : List Sem → List Sem
unfolding clear_sem
clear_sems [] = []
clear_sems (m ∷ ms) = clear_sem m ∷ clear_sems ms

-- Its loop over the queue of free ids is that of kmutexes_init.
pub ksemaphores_init : Sems → ℤ × Sems
unfolding clear_sems
ksemaphores_init s =
    let s' = record s { semaphores = clear_sems s.semaphores } in
    elim (fill_ids sem_max 0 (queue_init s.sem_queue)) [
      | none ↦ (minus_one, s')
      | some q ↦ (pos 0, record s' { sem_queue = q })
    ]

pub ksem_init : Sems → ℤ → ℤ × Sems
unfolding clear_sem
ksem_init s value = elim (queue_out s.sem_queue) [
  | none ↦ (minus_one, s)
  | some (id, q) ↦
      let s' = record s { sem_queue = q } in
      if invalid_sem id then (minus_one, s') else (
        id,
        put_sem s' (to_ℕ id) s'.procs
            (record (clear_sem (sem_at s' (to_ℕ id))) { allocated = pos 1; count = value }),
      )
]

module _ (after_free : Sem → Sem) where
  pub ksem_destroy : Sems → ℤ → ℤ × Sems
  ksem_destroy s id =
      if invalid_sem id
      then (minus_one, s)
      else let m = sem_at s (to_ℕ id) in
        if eq_ℤ m.allocated (pos 0)
        then (minus_one, s)
        else if eq_ℤ m.count (pos 0)
        then (minus_one, s)
        else elim (queue_in s.sem_queue id) [
          | none ↦ (minus_one, s)
          | some q ↦ (pos 0, put_sem (record s { sem_queue = q }) (to_ℕ id) s.procs (after_free m))
        ]

-- The process in the entry `a` waits for a semaphore whose count is 0.
pub wait_as : Procs → ℕ → Sem → Outcome (ℤ × Procs × Sem)
wait_as s a m =
    let s1 = put_proc s a (record (proc_at s a) { state = waiting }) in
    elim (queue_in m.wait_queue (proc_at s a).pid) [
      | none ↦ ok (minus_one, s1, m)
      | some q ↦ do s2 ← scheduler_remove s1 (some a); ok (pos 0, s2, record m { wait_queue = q })
    ]

pub wait_by : Procs → Sem → Option ℕ → Outcome (ℤ × Procs × Sem)
unfolding wait_as
wait_by s m none = ok (minus_one, s, m)
wait_by s m (some a) = wait_as s a m

-- ksem_wait on the semaphore that the id stands for; so `post` below
pub wait : Procs → Sem → Outcome (ℤ × Procs × Sem)
unfolding wait_by
wait s m =
    if eq_ℤ m.allocated (pos 0)
    then ok (minus_one, s, m)
    else if eq_ℤ m.count (pos 0)
    then wait_by s m s.active_proc
    else if lt_ℤ (pos 0) m.count
    then ok (decr m.count, s, record m { count = decr m.count })
    else ok (minus_one, s, m)

pub ksem_wait : Sems → ℤ → Outcome (ℤ × Sems)
unfolding wait
ksem_wait s id =
    if invalid_sem id
    then ok (minus_one, s)
    else do r ← wait s.procs (sem_at s (to_ℕ id)); ok (r.0, put_sem s (to_ℕ id) r.1 r.2)

-- The first waiter goes to the run queue, and takes the count that was posted.
pub wake_first : Procs → Sem → Outcome (ℤ × Procs × Sem)
wake_first s m = elim (queue_out m.wait_queue) [
  | none ↦ ok (minus_one, s, m)
  | some (pid, q) ↦ do
    s' ← scheduler_add s (pid_to_proc s pid)
    ok (decr m.count, s', record m { wait_queue = q; count = decr m.count })
]

pub post : Procs → Sem → Outcome (ℤ × Procs × Sem)
unfolding wake_first
post s m =
    if eq_ℤ m.allocated (pos 0)
    then ok (minus_one, s, m)
    else let m' = record m { count = incr m.count } in
      if queue_is_empty m'.wait_queue then ok (minus_one, s, m') else wake_first s m'

-- No test of the id: an id outside of the table is an access outside of the array.
pub ksem_post : Sems → ℤ → Outcome (ℤ × Sems)
unfolding post
ksem_post s (negsuc id) = stop fault
ksem_post s (pos id) = elim (get_elem? s.semaphores id) [
  | none ↦ stop fault
  | some m ↦ do r ← post s.procs m; ok (r.0, put_sem s id r.1 r.2)
]
