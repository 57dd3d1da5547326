-- ===== src/Ksyscall/Dispatch.antt =====
-- src/ksyscall.c and include/syscall_common.h: the dispatch of the system calls by ksyscall_irq_handler.
pub mod Answer
pub mod Leave
pub mod Lock
pub mod Name
mod Examples
pub mod Invariant
use wuros.Prelude.{
  ℕ, ◌-◌, ◌%◌, ◌^◌, ℤ, pos, negsuc, ltb, ◌==◌, if◌then◌else◌, List, [], ◌∷◌, Option, none, some,
  get_elem?, Outcome, ok, stop, panic, fault, ◌>>=◌,
}
use wuros.Proc.{Procs, Trapframe, proc_at, put_proc}
use wuros.Kmutex.{Mutex}
use wuros.Ksem.{Sem}
use wuros.Kernel.{Kernel, mutexes_of, with_mutexes, sems_of, with_sems}
use wuros.Ksyscall.Calls.{
  call_io_write, call_io_read, call_io_flush, ksyscall_sys_get_time, ksyscall_sys_get_name,
  ksyscall_proc_sleep, ksyscall_proc_exit, ksyscall_proc_get_pid, ksyscall_proc_get_name,
  ksyscall_mutex_init, ksyscall_mutex_destroy, ksyscall_mutex_lock, ksyscall_mutex_unlock,
  ksyscall_sem_init, ksyscall_sem_destroy, ksyscall_sem_wait, ksyscall_sem_post,
}

-- `syscall_t`, in the order of its numbers
pub data Syscall : Type 0 where
  no_syscall io_read io_write io_flush sys_get_time sys_get_name proc_sleep proc_exit : Syscall
  proc_get_pid proc_get_name mutex_init mutex_destroy mutex_lock mutex_unlock : Syscall
  sem_init sem_destroy sem_wait sem_post : Syscall

abbrev pub syscalls : List Syscall
syscalls =
    no_syscall ∷ io_read ∷ io_write ∷ io_flush ∷ sys_get_time ∷ sys_get_name ∷ proc_sleep
    ∷ proc_exit ∷ proc_get_pid ∷ proc_get_name ∷ mutex_init ∷ mutex_destroy ∷ mutex_lock
    ∷ mutex_unlock ∷ sem_init ∷ sem_destroy ∷ sem_wait ∷ sem_post ∷ []

-- The value of an enumerator of `syscall_t`
unfoldable pub number : Syscall → ℕ
number no_syscall = 0
number io_read = 1
number io_write = 2
number io_flush = 3
number sys_get_time = 4
number sys_get_name = 5
number proc_sleep = 6
number proc_exit = 7
number proc_get_pid = 8
number proc_get_name = 9
number mutex_init = 10
number mutex_destroy = 11
number mutex_lock = 12
number mutex_unlock = 13
number sem_init = 14
number sem_destroy = 15
number sem_wait = 16
number sem_post = 17

-- An unsigned int of 32 bits as an int, and back
unfoldable pub int_of_word : ℕ → ℤ
int_of_word w = if ltb w (2 ^ 31) then pos w else negsuc (2 ^ 32 - w - 1)

unfoldable pub word_of_int : ℤ → ℕ
word_of_int (pos n) = n % 2 ^ 32
word_of_int (negsuc n) = 2 ^ 32 - 1 - n % 2 ^ 32

-- A call on a part of the kernel, whose result is put back
abbrev on_procs : Kernel → ℤ × Procs → ℤ × Kernel
on_procs k r = (r.0, record k { procs = r.1 })

abbrev on_memory : Kernel → ℤ × List ℕ → ℤ × Kernel
on_memory k r = (r.0, record k { memory = r.1 })

-- What a write to EAX in the saved registers `f` of the process `a` leaves
abbrev pub set_eax : Kernel → ℕ → Trapframe → ℕ → Kernel
set_eax k a f v = record k {
  procs =
      put_proc k.procs a (record (proc_at k.procs a) { trapframe = some (record f { eax = v }) });
}

answer_in : Kernel → ℕ → Option Trapframe → ℤ → Outcome Kernel
answer_in k a none rc = stop fault
answer_in k a (some f) rc = ok (set_eax k a f (word_of_int rc))

-- active_proc->trapframe->eax = (unsigned int)rc, while some process is active
pub answer : Kernel → ℤ → Outcome Kernel
unfolding answer_in
answer k rc = elim k.procs.active_proc [
  | none ↦ ok k
  | some a ↦ answer_in k a (proc_at k.procs a).trapframe rc
]

module _ (after_free_mutex : Mutex → Mutex) (after_free_sem : Sem → Sem) where
  -- The cases of the switch, on the registers EBX, ECX and EDX
  unfoldable pub perform : Kernel → ℕ → ℕ → ℕ → Syscall → Outcome (ℤ × Kernel)
  unfolding int_of_word
  perform k arg1 arg2 arg3 no_syscall = stop panic
  perform k arg1 arg2 arg3 io_read = call_io_read k (int_of_word arg1) arg2 (int_of_word arg3)
  perform k arg1 arg2 arg3 io_write = call_io_write k (int_of_word arg1) arg2 (int_of_word arg3)
  perform k arg1 arg2 arg3 io_flush = call_io_flush k (int_of_word arg1)
  perform k arg1 arg2 arg3 sys_get_time = ok (ksyscall_sys_get_time k.timers, k)
  perform k arg1 arg2 arg3 sys_get_name = do
    r ← ksyscall_sys_get_name k.memory arg1
    ok (on_memory k r)
  perform k arg1 arg2 arg3 proc_sleep = do
    r ← ksyscall_proc_sleep k.procs (int_of_word arg1)
    ok (on_procs k r)
  perform k arg1 arg2 arg3 proc_exit = do r ← ksyscall_proc_exit k.procs; ok (on_procs k r)
  perform k arg1 arg2 arg3 proc_get_pid = ok (ksyscall_proc_get_pid k.procs, k)
  perform k arg1 arg2 arg3 proc_get_name = do
    r ← ksyscall_proc_get_name k.procs k.memory arg1
    ok (on_memory k r)
  perform k arg1 arg2 arg3 mutex_init =
      let r = ksyscall_mutex_init (mutexes_of k) in ok (r.0, with_mutexes k r.1)
  perform k arg1 arg2 arg3 mutex_destroy =
      let r = ksyscall_mutex_destroy after_free_mutex (mutexes_of k) (int_of_word arg1) in
      ok (r.0, with_mutexes k r.1)
  perform k arg1 arg2 arg3 mutex_lock = do
    r ← ksyscall_mutex_lock (mutexes_of k) (int_of_word arg1)
    ok (r.0, with_mutexes k r.1)
  perform k arg1 arg2 arg3 mutex_unlock = do
    r ← ksyscall_mutex_unlock (mutexes_of k) (int_of_word arg1)
    ok (r.0, with_mutexes k r.1)
  perform k arg1 arg2 arg3 sem_init =
      let r = ksyscall_sem_init (sems_of k) (int_of_word arg1) in ok (r.0, with_sems k r.1)
  perform k arg1 arg2 arg3 sem_destroy =
      let r = ksyscall_sem_destroy after_free_sem (sems_of k) (int_of_word arg1) in
      ok (r.0, with_sems k r.1)
  perform k arg1 arg2 arg3 sem_wait = do
    r ← ksyscall_sem_wait (sems_of k) (int_of_word arg1)
    ok (r.0, with_sems k r.1)
  perform k arg1 arg2 arg3 sem_post = do
    r ← ksyscall_sem_post (sems_of k) (int_of_word arg1)
    ok (r.0, with_sems k r.1)

  serve : Kernel → Option Trapframe → Outcome Kernel
  unfolding perform answer
  serve k none = stop panic
  serve k (some f) = if f.eax == 0 then ok k else elim (get_elem? syscalls f.eax) [
    | none ↦ stop panic
    | some call ↦ do r ← perform k f.ebx f.ecx f.edx call; answer r.1 r.0
  ]

  pub ksyscall_irq_handler : Kernel → Outcome Kernel
  unfolding serve
  ksyscall_irq_handler k = elim k.procs.active_proc [
    | none ↦ stop panic
    | some a ↦ serve k (proc_at k.procs a).trapframe
  ]
