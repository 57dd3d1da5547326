-- ===== src/Kmutex.antt =====
-- include/kmutex.h and src/kmutex.c: the kernel's mutexes. What free() leaves in an element of the
-- static table is a parameter.
pub mod Sound
pub mod Handoff
pub mod Invariant
mod Examples
use wuros.Prelude.{
  ℕ, zero, suc, ◌+◌, ℤ, pos, minus_one, to_ℕ, incr, decr, eq_ℤ, lt_ℤ, is_neg, ◌||◌, not, Bool,
  if◌then◌else◌, List, [], ◌∷◌, Option, none, some, get_or, set, Outcome, ok, stop, ◌>>=◌,
}
use wuros.Queue.{Queue, queue_init, queue_in, queue_out}
use wuros.Proc.{Procs, ProcState, waiting, proc_at, put_proc, pid_to_proc}
use wuros.Scheduler.{scheduler_add, scheduler_remove}

-- MUTEX_MAX
abbrev pub mutex_max : ℕ
mutex_max = 16

-- `mutex_t`
pub record Mutex : Type 0 where
  pub allocated : ℤ
  pub locks : ℤ
  pub owner : Option ℕ
  pub wait_queue : Queue

-- The globals of src/kmutex.c beside those of the scheduler.
pub record Mutexes : Type 0 where
  pub procs : Procs
  pub mutexes : List Mutex
  pub mutex_queue : Queue

-- What stands for a read outside of the table; the tests on the id rule that out.
abbrev pub zeroed_mutex : Mutex
zeroed_mutex = record {
  allocated = pos 0;
  locks = pos 0;
  owner = none;
  wait_queue = record { head = pos 0; tail = pos 0; size = 0; items = [] };
}

abbrev pub mutex_at : Mutexes → ℕ → Mutex
mutex_at s id = get_or s.mutexes id zeroed_mutex

abbrev pub put_mutex : Mutexes → ℕ → Procs → Mutex → Mutexes
put_mutex s id procs m = record s { procs = procs; mutexes = set s.mutexes id m }

abbrev invalid_id : ℤ → ℕ → Bool
invalid_id id bound = is_neg id || not (lt_ℤ id (pos bound))

clear_mutex : Mutex → Mutex
clear_mutex m = record {
  allocated = pos 0;
  locks = pos 0;
  owner = none;
  wait_queue = queue_init m.wait_queue;
}

clear_mutexes : List Mutex → List Mutex
unfolding clear_mutex
clear_mutexes [] = []
clear_mutexes (m ∷ ms) = clear_mutex m ∷ clear_mutexes ms

-- The loop that fills a queue of free ids, from `i` on; `none` when it does not fit.
unfoldable pub fill_ids : ℕ → ℕ → Queue → Option Queue
fill_ids zero i q = some q
fill_ids (suc n) i q = elim (queue_in q (pos i)) [ none ↦ none | some q' ↦ fill_ids n (i + 1) q' ]

pub kmutexes_init : Mutexes → ℤ × Mutexes
unfolding clear_mutexes fill_ids
kmutexes_init s =
    let s' = record s { mutexes = clear_mutexes s.mutexes } in
    elim (fill_ids mutex_max 0 (queue_init s.mutex_queue)) [
      | none ↦ (minus_one, s')
      | some q ↦ (pos 0, record s' { mutex_queue = q })
    ]

pub kmutex_init : Mutexes → ℤ × Mutexes
unfolding clear_mutex
kmutex_init s = elim (queue_out s.mutex_queue) [
  | none ↦ (minus_one, s)
  | some (id, q) ↦
      let s' = record s { mutex_queue = q } in
      if invalid_id id mutex_max then (minus_one, s') else (
        id,
        put_mutex s' (to_ℕ id) s'.procs
            (record (clear_mutex (mutex_at s' (to_ℕ id))) { allocated = pos 1 }),
      )
]

module _ (after_free : Mutex → Mutex) where
  pub kmutex_destroy : Mutexes → ℤ → ℤ × Mutexes
  kmutex_destroy s id =
      if invalid_id id mutex_max
      then (minus_one, s)
      else let m = mutex_at s (to_ℕ id) in
        if lt_ℤ (pos 0) m.locks then (minus_one, s) else elim (queue_in s.mutex_queue id) [
          | none ↦ (minus_one, s)
          | some q ↦
              (pos 0, put_mutex (record s { mutex_queue = q }) (to_ℕ id) s.procs (after_free m))
        ]

-- The process in the entry `a` waits for a mutex that has an owner.
wait_as : Procs → ℕ → Mutex → Outcome (ℤ × Procs × Mutex)
wait_as s a m =
    let s1 = put_proc s a (record (proc_at s a) { state = waiting }) in
    elim (queue_in m.wait_queue (proc_at s a).pid) [
      | none ↦ ok (minus_one, s1, m)
      | some q ↦ do
        s2 ← scheduler_remove s1 (some a)
        ok (incr m.locks, s2, record m { wait_queue = q; locks = incr m.locks })
    ]

wait_by : Procs → Mutex → Option ℕ → Outcome (ℤ × Procs × Mutex)
unfolding wait_as
wait_by s m none = ok (minus_one, s, m)
wait_by s m (some a) = wait_as s a m

lock_by : Procs → Mutex → Option ℕ → Outcome (ℤ × Procs × Mutex)
unfolding wait_by
lock_by s m (some o) = wait_by s m s.active_proc
lock_by s m none = ok (incr m.locks, s, record m { owner = s.active_proc; locks = incr m.locks })

-- kmutex_lock on the mutex that the id stands for; so `unlock` below
pub lock : Procs → Mutex → Outcome (ℤ × Procs × Mutex)
unfolding lock_by
lock s m = lock_by s m m.owner

-- The branch of kmutex_unlock on a mutex that is still locked: the first waiter becomes the owner.
hand_over : Procs → Mutex → Outcome (ℤ × Procs × Mutex)
hand_over s m = elim (queue_out m.wait_queue) [
  | none ↦ ok (minus_one, s, m)
  | some (pid, q) ↦
      let proc = pid_to_proc s pid in
      do s' ← scheduler_add s proc; ok (m.locks, s', record m { wait_queue = q; owner = proc })
]

unlock_by : Procs → Mutex → Option ℕ → Outcome (ℤ × Procs × Mutex)
unfolding hand_over
unlock_by s m none = ok (pos 0, s, m)
unlock_by s m (some o) =
    let m' = record m { locks = decr m.locks } in
    if eq_ℤ m'.locks (pos 0) then ok (m'.locks, s, record m' { owner = none }) else hand_over s m'

pub unlock : Procs → Mutex → Outcome (ℤ × Procs × Mutex)
unfolding unlock_by
unlock s m = unlock_by s m m.owner

on_mutex : (Procs → Mutex → Outcome (ℤ × Procs × Mutex)) → Mutexes → ℤ → Outcome (ℤ × Mutexes)
on_mutex f s id =
    if invalid_id id mutex_max
    then ok (minus_one, s)
    else do r ← f s.procs (mutex_at s (to_ℕ id)); ok (r.0, put_mutex s (to_ℕ id) r.1 r.2)

pub kmutex_lock : Mutexes → ℤ → Outcome (ℤ × Mutexes)
unfolding lock on_mutex
kmutex_lock = on_mutex lock

pub kmutex_unlock : Mutexes → ℤ → Outcome (ℤ × Mutexes)
unfolding unlock on_mutex
kmutex_unlock = on_mutex unlock
