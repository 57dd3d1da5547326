-- ===== src/Ksyscall/Calls/Invariant.antt =====
-- src/ksyscall.c: the system calls keep the processes well formed and the terminals usable.
use wuros.Prelude.{
  ℕ, ◌+◌, ◌*◌, ℤ, pos, negsuc, minus_one, not, ◌==◌, ltb, List, [], ◌∷◌, some, length, ok, stop,
  fault, Keeps, Keeps-bind, Keeps-of_Ends, Keeps-if, Keeps-elim, holds-if,
}
use wuros.Proc.{Procs, proc_at, proc_name_len}
use wuros.Proc.Valid.{IsWellFormed}
use wuros.Scheduler.{scheduler_sleep}
use wuros.Scheduler.Invariant.{scheduler_sleep-IsWellFormed}
use wuros.Kproc.Invariant.{WithProcs, kproc_destroy-IsWellFormed}
use wuros.Kmutex.{Mutex, Mutexes, mutex_max, kmutex_lock, kmutex_unlock}
use wuros.Kmutex.Invariant.{
  WithMutexes, kmutex_init-IsWellFormed, kmutex_destroy-IsWellFormed, kmutex_lock-IsWellFormed,
  kmutex_unlock-IsWellFormed,
}
use wuros.Ksem.{Sem, Sems, sem_max, ksem_wait, ksem_post}
use wuros.Ksem.Invariant.{
  WithSems, ksem_init-IsWellFormed, ksem_destroy-IsWellFormed, ksem_wait-IsWellFormed,
  ksem_post-IsWellFormed,
}
use wuros.Tty.Invariant.{AllUsable}
use wuros.Screen.{store}
use wuros.Ksyscall.{ksyscall_io_write, ksyscall_io_read, ksyscall_io_flush}
use wuros.Ksyscall.Invariant.{
  WithConsole, WithRead, ksyscall_io_write-Sound, ksyscall_io_read-Sound, ksyscall_io_flush-Sound,
}
use wuros.Kernel.{Kernel, console_of}
use wuros.Ksyscall.Calls.{
  buffer_at, store_bytes, strncpy, os_name, int_max, out_of_bounds, call_io_write, call_io_read,
  call_io_flush, ksyscall_sys_get_name, ksyscall_proc_sleep, ksyscall_proc_exit,
  ksyscall_proc_get_name, ksyscall_mutex_init, ksyscall_mutex_destroy, ksyscall_mutex_lock,
  ksyscall_mutex_unlock, ksyscall_sem_init, ksyscall_sem_destroy, ksyscall_sem_wait,
  ksyscall_sem_post,
}

-- The processes and their queues are well formed, and the terminals usable.
abbrev pub KernelSound : Kernel → Type 0
KernelSound k = IsWellFormed k.procs × AllUsable k.ttys.tty_table

abbrev pub WithKernel : ℤ × Kernel → Type 0
WithKernel r = KernelSound r.1

abbrev pub AnyMemory : List ℕ → Type 0
AnyMemory mem = Unit

abbrev pub AnyAnswer : ℤ × List ℕ → Type 0
AnyAnswer r = Unit

store_bytes-ends : (mem : List ℕ) (p : ℕ) (bs : List ℕ) → Keeps AnyMemory (store_bytes mem p bs)
unfolding store_bytes
store_bytes-ends mem p [] = tt
store_bytes-ends mem p (b ∷ bs) =
    Keeps-bind AnyMemory AnyMemory (store mem p b) _
      (Keeps-if AnyMemory (ltb p (length mem)) _ (stop fault) tt tt)
      (λ mem' u. store_bytes-ends mem' (p + 1) bs)

pub call_io_write-Sound :
    (k : Kernel) (io : ℤ) (p : ℕ) (size : ℤ)
    → KernelSound k
    → Keeps WithKernel (call_io_write k io p size)
unfolding call_io_write
call_io_write-Sound k io p size w =
    Keeps-bind WithConsole WithKernel (ksyscall_io_write (console_of k) io (buffer_at k p) size) _
      (ksyscall_io_write-Sound (console_of k) io (buffer_at k p) size w) (λ r wr. wr)

pub call_io_read-Sound :
    (k : Kernel) (io : ℤ) (p : ℕ) (size : ℤ)
    → KernelSound k
    → Keeps WithKernel (call_io_read k io p size)
unfolding call_io_read
call_io_read-Sound k io p size w =
    Keeps-bind WithRead WithKernel (ksyscall_io_read (console_of k) io (not (p == 0)) size) _
      (ksyscall_io_read-Sound (console_of k) io (not (p == 0)) size w)
      (λ r wr.
        Keeps-bind AnyMemory WithKernel (store_bytes k.memory p r.1) _
          (store_bytes-ends k.memory p r.1) (λ mem u. wr))

pub call_io_flush-Sound :
    (k : Kernel) (io : ℤ) → KernelSound k → Keeps WithKernel (call_io_flush k io)
unfolding call_io_flush
call_io_flush-Sound k io w =
    Keeps-bind WithConsole WithKernel (ksyscall_io_flush (console_of k) io) _
      (ksyscall_io_flush-Sound (console_of k) io w) (λ r wr. wr)

pub sys_get_name-ends : (mem : List ℕ) (p : ℕ) → Keeps AnyAnswer (ksyscall_sys_get_name mem p)
unfolding ksyscall_sys_get_name
sys_get_name-ends mem p = Keeps-if AnyAnswer (p == 0) (ok (minus_one, mem)) _ tt (
    Keeps-bind AnyMemory AnyAnswer (store_bytes mem p (strncpy os_name (length os_name + 1))) _
      (store_bytes-ends mem p (strncpy os_name (length os_name + 1))) (λ mem' u. tt))

pub proc_get_name-ends :
    (s : Procs) (mem : List ℕ) (p : ℕ) → Keeps AnyAnswer (ksyscall_proc_get_name s mem p)
unfolding ksyscall_proc_get_name
proc_get_name-ends s mem p = Keeps-elim AnyAnswer s.active_proc (ok (minus_one, mem)) _ tt (λ a e.
    Keeps-if AnyAnswer (p == 0) (ok (minus_one, mem)) _ tt (
      Keeps-bind AnyMemory AnyAnswer (store_bytes mem p (strncpy (proc_at s a).name proc_name_len))
        _ (store_bytes-ends mem p (strncpy (proc_at s a).name proc_name_len)) (λ mem' u. tt)))

pub proc_sleep-IsWellFormed :
    (s : Procs) (seconds : ℤ) → IsWellFormed s → Keeps WithProcs (ksyscall_proc_sleep s seconds)
unfolding ksyscall_proc_sleep
proc_sleep-IsWellFormed s (negsuc n) w = w
proc_sleep-IsWellFormed s (pos n) w = Keeps-if WithProcs (ltb int_max (n * 100)) (stop fault) _ tt (
    Keeps-bind IsWellFormed WithProcs (scheduler_sleep s s.active_proc (pos (n * 100))) _
      (Keeps-of_Ends IsWellFormed _
        (scheduler_sleep-IsWellFormed s s.active_proc (pos (n * 100)) w))
      (λ s' w'. w'))

pub proc_exit-IsWellFormed : (s : Procs) → IsWellFormed s → Keeps WithProcs (ksyscall_proc_exit s)
unfolding ksyscall_proc_exit
proc_exit-IsWellFormed s w =
    Keeps-elim WithProcs s.active_proc (ok (minus_one, s)) _ w
      (λ a e. kproc_destroy-IsWellFormed s (some a) w)

pub mutex_lock-IsWellFormed :
    (s : Mutexes) (id : ℤ) → IsWellFormed s.procs → Keeps WithMutexes (ksyscall_mutex_lock s id)
unfolding ksyscall_mutex_lock
mutex_lock-IsWellFormed s id w =
    Keeps-if WithMutexes (out_of_bounds id mutex_max) (ok (minus_one, s)) (kmutex_lock s id) w
      (kmutex_lock-IsWellFormed s id w)

pub mutex_unlock-IsWellFormed :
    (s : Mutexes) (id : ℤ) → IsWellFormed s.procs → Keeps WithMutexes (ksyscall_mutex_unlock s id)
unfolding ksyscall_mutex_unlock
mutex_unlock-IsWellFormed s id w =
    Keeps-if WithMutexes (out_of_bounds id mutex_max) (ok (minus_one, s)) (kmutex_unlock s id) w
      (kmutex_unlock-IsWellFormed s id w)

pub sem_wait-IsWellFormed :
    (s : Sems) (id : ℤ) → IsWellFormed s.procs → Keeps WithSems (ksyscall_sem_wait s id)
unfolding ksyscall_sem_wait
sem_wait-IsWellFormed s id w =
    Keeps-if WithSems (out_of_bounds id sem_max) (ok (minus_one, s)) (ksem_wait s id) w
      (ksem_wait-IsWellFormed s id w)

pub sem_post-IsWellFormed :
    (s : Sems) (id : ℤ) → IsWellFormed s.procs → Keeps WithSems (ksyscall_sem_post s id)
unfolding ksyscall_sem_post
sem_post-IsWellFormed s id w =
    Keeps-if WithSems (out_of_bounds id sem_max) (ok (minus_one, s)) (ksem_post s id) w
      (ksem_post-IsWellFormed s id w)

pub mutex_init-IsWellFormed :
    (s : Mutexes) → IsWellFormed s.procs → WithMutexes (ksyscall_mutex_init s)
unfolding ksyscall_mutex_init
mutex_init-IsWellFormed s w = kmutex_init-IsWellFormed s w

pub sem_init-IsWellFormed :
    (s : Sems) (value : ℤ) → IsWellFormed s.procs → WithSems (ksyscall_sem_init s value)
unfolding ksyscall_sem_init
sem_init-IsWellFormed s value w =
    holds-if WithSems (out_of_bounds value sem_max) (minus_one, s) _ w
      (ksem_init-IsWellFormed s value w)

pub mutex_destroy-IsWellFormed :
    (after_free : Mutex → Mutex) (s : Mutexes) (id : ℤ)
    → IsWellFormed s.procs
    → WithMutexes (ksyscall_mutex_destroy after_free s id)
unfolding ksyscall_mutex_destroy
mutex_destroy-IsWellFormed after_free s id w =
    holds-if WithMutexes (out_of_bounds id mutex_max) (minus_one, s) _ w
      (kmutex_destroy-IsWellFormed after_free s id w)

pub sem_destroy-IsWellFormed :
    (after_free : Sem → Sem) (s : Sems) (id : ℤ)
    → IsWellFormed s.procs
    → WithSems (ksyscall_sem_destroy after_free s id)
unfolding ksyscall_sem_destroy
sem_destroy-IsWellFormed after_free s id w =
    holds-if WithSems (out_of_bounds id sem_max) (minus_one, s) _ w
      (ksem_destroy-IsWellFormed after_free s id w)
