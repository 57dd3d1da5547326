-- ===== src/Ksyscall/Calls.antt =====
-- src/ksyscall.c: the system calls on the state of the whole kernel. What free() leaves in an element
-- of a static table is a parameter.
pub mod Memory
pub mod Invariant
use wuros.Prelude.{
  ℕ, ◌+◌, ◌-◌, ◌*◌, ◌/◌, ℤ, pos, negsuc, minus_one, neg_ℕ, is_neg, lt_ℤ, ltb, ◌==◌, ◌||◌, not, Bool,
  if◌then◌else◌, List, [], ◌∷◌, ◌++◌, Option, none, some, length, replicate, take, drop, codes,
  Outcome, ok, stop, fault, ◌>>=◌,
}
use wuros.Proc.{Procs, proc_at, proc_name_len}
use wuros.Scheduler.{scheduler_sleep}
use wuros.Kproc.{kproc_destroy}
use wuros.Kmutex.{
  Mutex, Mutexes, mutex_max, kmutex_init, kmutex_destroy, kmutex_lock, kmutex_unlock,
}
use wuros.Ksem.{Sem, Sems, sem_max, ksem_init, ksem_destroy, ksem_wait, ksem_post}
use wuros.Timer.{Timers}
use wuros.Screen.{store}
use wuros.Ksyscall.{ksyscall_io_write, ksyscall_io_read, ksyscall_io_flush}
use wuros.Kernel.{Kernel, console_of, with_console}

-- The bytes behind a pointer of a program, which may be null
buffer_at : Kernel → ℕ → Option (List ℕ)
buffer_at k p = if p == 0 then none else some (drop p k.memory)

-- Bytes stored from the address `p` on
pub store_bytes : List ℕ → ℕ → List ℕ → Outcome (List ℕ)
store_bytes mem p [] = ok mem
store_bytes mem p (b ∷ bs) = do mem' ← store mem p b; store_bytes mem' (p + 1) bs

-- strncpy: at most `n` characters, and NUL up to `n`
pub strncpy : List ℕ → ℕ → List ℕ
strncpy src n = take n src ++ replicate (n - length src) 0

pub call_io_write : Kernel → ℤ → ℕ → ℤ → Outcome (ℤ × Kernel)
unfolding buffer_at
call_io_write k io p size = do
  r ← ksyscall_io_write (console_of k) io (buffer_at k p) size
  ok (r.0, with_console k r.1)

pub call_io_read : Kernel → ℤ → ℕ → ℤ → Outcome (ℤ × Kernel)
unfolding store_bytes
call_io_read k io p size = do
  r ← ksyscall_io_read (console_of k) io (not (p == 0)) size
  mem ← store_bytes k.memory p r.1
  ok (r.0, record (with_console k r.2) { memory = mem })

pub call_io_flush : Kernel → ℤ → Outcome (ℤ × Kernel)
call_io_flush k io = do r ← ksyscall_io_flush (console_of k) io; ok (r.0, with_console k r.1)

-- a / n, rounded towards 0
abbrev pub quot_ℤ : ℤ → ℕ → ℤ
quot_ℤ (pos a) n = pos (a / n)
quot_ℤ (negsuc a) n = neg_ℕ ((a + 1) / n)

unfoldable pub ksyscall_sys_get_time : Timers → ℤ
ksyscall_sys_get_time s = quot_ℤ s.timer_ticks 100

-- OS_NAME
abbrev pub os_name : List ℕ
os_name = codes "MyOS"

-- sizeof(OS_NAME) counts the NUL.
pub ksyscall_sys_get_name : List ℕ → ℕ → Outcome (ℤ × List ℕ)
unfolding store_bytes strncpy
ksyscall_sys_get_name mem p =
    if p == 0
    then ok (minus_one, mem)
    else do mem' ← store_bytes mem p (strncpy os_name (length os_name + 1)); ok (pos 0, mem')

-- INT_MAX
abbrev pub int_max : ℕ
int_max = 2147483647

-- The product with 100 that does not fit an int is undefined behaviour.
unfoldable pub ksyscall_proc_sleep : Procs → ℤ → Outcome (ℤ × Procs)
ksyscall_proc_sleep s (negsuc n) = ok (minus_one, s)
ksyscall_proc_sleep s (pos n) =
    if ltb int_max (n * 100)
    then stop fault
    else do s' ← scheduler_sleep s s.active_proc (pos (n * 100)); ok (pos 0, s')

unfoldable pub ksyscall_proc_exit : Procs → Outcome (ℤ × Procs)
ksyscall_proc_exit s = elim s.active_proc [
  | none ↦ ok (minus_one, s)
  | some a ↦ kproc_destroy s (some a)
]

unfoldable pub ksyscall_proc_get_pid : Procs → ℤ
ksyscall_proc_get_pid s = elim s.active_proc [ none ↦ minus_one | some a ↦ (proc_at s a).pid ]

unfoldable pub ksyscall_proc_get_name : Procs → List ℕ → ℕ → Outcome (ℤ × List ℕ)
unfolding store_bytes strncpy
ksyscall_proc_get_name s mem p = elim s.active_proc [
  | none ↦ ok (minus_one, mem)
  | some a ↦
      if p == 0
      then ok (minus_one, mem)
      else do mem' ← store_bytes mem p (strncpy (proc_at s a).name proc_name_len); ok (pos 0, mem')
]

-- id < 0 || id > bound
abbrev out_of_bounds : ℤ → ℕ → Bool
out_of_bounds id bound = is_neg id || lt_ℤ (pos bound) id

pub ksyscall_mutex_init : Mutexes → ℤ × Mutexes
ksyscall_mutex_init s = kmutex_init s

unfoldable pub ksyscall_mutex_lock : Mutexes → ℤ → Outcome (ℤ × Mutexes)
ksyscall_mutex_lock s mutex =
    if out_of_bounds mutex mutex_max then ok (minus_one, s) else kmutex_lock s mutex

pub ksyscall_mutex_unlock : Mutexes → ℤ → Outcome (ℤ × Mutexes)
ksyscall_mutex_unlock s mutex =
    if out_of_bounds mutex mutex_max then ok (minus_one, s) else kmutex_unlock s mutex

pub ksyscall_sem_init : Sems → ℤ → ℤ × Sems
ksyscall_sem_init s value =
    if out_of_bounds value sem_max then (minus_one, s) else ksem_init s value

unfoldable pub ksyscall_sem_wait : Sems → ℤ → Outcome (ℤ × Sems)
ksyscall_sem_wait s sem = if out_of_bounds sem sem_max then ok (minus_one, s) else ksem_wait s sem

pub ksyscall_sem_post : Sems → ℤ → Outcome (ℤ × Sems)
ksyscall_sem_post s sem = if out_of_bounds sem sem_max then ok (minus_one, s) else ksem_post s sem

module _ (after_free : Mutex → Mutex) where
  pub ksyscall_mutex_destroy : Mutexes → ℤ → ℤ × Mutexes
  ksyscall_mutex_destroy s mutex =
      if out_of_bounds mutex mutex_max then (minus_one, s) else kmutex_destroy after_free s mutex

module _ (after_free : Sem → Sem) where
  pub ksyscall_sem_destroy : Sems → ℤ → ℤ × Sems
  ksyscall_sem_destroy s sem =
      if out_of_bounds sem sem_max then (minus_one, s) else ksem_destroy after_free s sem
