-- ===== src/Kmutex/Examples.antt =====
-- src/kmutex.c at concrete inputs.
use wuros.Prelude.{
  ◌≡◌, refl, inr, ℤ, pos, minus_one, ◌∷◌, Outcome, ok, none, some, arith, replicate, ◌>>=◌,
}
use wuros.Queue.{queue_in, queue_out, queue_init}
use wuros.Queue.Valid.{busy_queue}
use wuros.Kmutex.{
  Mutex, Mutexes, lock, unlock, kmutexes_init, kmutex_init, kmutex_destroy, kmutex_lock,
  kmutex_unlock,
}
use wuros.Kmutex.Sound.{IsSound, Locks, lock-Locks}
use wuros.Kmutex.Handoff.{Unlocks, unlock-Unlocks}
use wuros.Samples.{running, three-IsValid, nobody}

-- Owned by the entry 1, with the process 2 waiting
abbrev contended : Mutex
contended = record {
  allocated = pos 1;
  locks = pos 2;
  owner = some 1;
  wait_queue = busy_queue 0 0 (pos 2 ∷ replicate 31 minus_one);
}

contended-IsSound : IsSound contended
contended-IsSound = record {
  waiters = record { storage = refl; shape = inr (0, 0, refl, omega arith, omega arith) };
  counted = inr (1, refl, refl);
}

abbrev free_mutex : Mutex
free_mutex = record { allocated = pos 0; locks = pos 0; owner = none; wait_queue = nobody }

abbrev table : Mutexes
table = record { procs = running; mutexes = replicate 16 free_mutex; mutex_queue = nobody }

lock-Locks_example : Locks running 4 contended (lock running contended)
lock-Locks_example =
    lock-Locks running 4 contended contended-IsSound three-IsValid refl (omega arith)

unlock-Unlocks_example : Unlocks running contended (unlock running contended)
unlock-Unlocks_example = unlock-Unlocks running contended contended-IsSound

-- kmutexes_init makes sixteen ids, and kmutex_init gives out the first.
first_mutex : (kmutex_init (kmutexes_init table).1).0 ≡ pos 0
unfolding kmutexes_init kmutex_init queue_init queue_in queue_out
first_mutex = refl

results : Mutexes → Outcome (ℤ × ℤ)
results s = do r ← kmutex_lock s (pos 3); r2 ← kmutex_unlock r.1 (pos 3); ok (r.0, r2.0)

locked_once : results table ≡ ok (pos 1, pos 0)
unfolding results kmutex_lock kmutex_unlock
locked_once = refl

destroyed_twice :
    (kmutex_destroy (λ m. m) (kmutex_destroy (λ m. m) table (pos 3)).1 (pos 3)).0 ≡ pos 0
unfolding kmutex_destroy queue_in
destroyed_twice = refl
