-- ===== src/Ksyscall/Dispatch/Invariant.antt =====
-- src/ksyscall.c: ksyscall_irq_handler keeps the processes well formed and the terminals usable.
use wuros.Prelude.{
  ℕ, ℤ, ◌==◌, Option, none, some, get_elem?, ok, stop, panic, Keeps, Keeps-bind, Keeps-if,
  Keeps-elim,
}
use wuros.Proc.{Trapframe, proc_at}
use wuros.Proc.Valid.{put_proc-IsWellFormed}
use wuros.Kproc.Invariant.{WithProcs}
use wuros.Kmutex.{Mutex}
use wuros.Kmutex.Invariant.{WithMutexes}
use wuros.Ksem.{Sem}
use wuros.Ksem.Invariant.{WithSems}
use wuros.Kernel.{Kernel, mutexes_of, sems_of}
use wuros.Ksyscall.Calls.{
  ksyscall_sys_get_name, ksyscall_proc_sleep, ksyscall_proc_exit, ksyscall_proc_get_name,
  ksyscall_mutex_lock, ksyscall_mutex_unlock, ksyscall_sem_wait, ksyscall_sem_post,
}
use wuros.Ksyscall.Calls.Invariant.{
  KernelSound, WithKernel, AnyAnswer, call_io_write-Sound, call_io_read-Sound, call_io_flush-Sound,
  sys_get_name-ends, proc_get_name-ends, proc_sleep-IsWellFormed, proc_exit-IsWellFormed,
  mutex_lock-IsWellFormed, mutex_unlock-IsWellFormed, sem_wait-IsWellFormed, sem_post-IsWellFormed,
  mutex_init-IsWellFormed, sem_init-IsWellFormed, mutex_destroy-IsWellFormed,
  sem_destroy-IsWellFormed,
}
use wuros.Ksyscall.Dispatch.{
  Syscall, syscalls, no_syscall, io_read, io_write, io_flush, sys_get_time, sys_get_name,
  proc_sleep, proc_exit, proc_get_pid, proc_get_name, mutex_init, mutex_destroy, mutex_lock,
  mutex_unlock, sem_init, sem_destroy, sem_wait, sem_post, int_of_word, answer_in, answer, perform,
  serve, ksyscall_irq_handler,
}

answer_in-Sound :
    (k : Kernel) (a : ℕ) (o : Option Trapframe) (rc : ℤ)
    → KernelSound k
    → Keeps KernelSound (answer_in k a o rc)
unfolding answer_in
answer_in-Sound k a none rc w = tt
answer_in-Sound k a (some f) rc w = (put_proc-IsWellFormed k.procs a _ w.0, w.1)

answer-Sound : (k : Kernel) (rc : ℤ) → KernelSound k → Keeps KernelSound (answer k rc)
unfolding answer
answer-Sound k rc w =
    Keeps-elim KernelSound k.procs.active_proc (ok k) _ w
      (λ a e. answer_in-Sound k a (proc_at k.procs a).trapframe rc w)

module _ (after_free_mutex : Mutex → Mutex) (after_free_sem : Sem → Sem) where
  perform-Sound :
      (k : Kernel) (arg1 arg2 arg3 : ℕ) (call : Syscall)
      → KernelSound k
      → Keeps WithKernel (perform after_free_mutex after_free_sem k arg1 arg2 arg3 call)
  unfolding perform
  perform-Sound k arg1 arg2 arg3 no_syscall w = tt
  perform-Sound k arg1 arg2 arg3 io_read w =
      call_io_read-Sound k (int_of_word arg1) arg2 (int_of_word arg3) w
  perform-Sound k arg1 arg2 arg3 io_write w =
      call_io_write-Sound k (int_of_word arg1) arg2 (int_of_word arg3) w
  perform-Sound k arg1 arg2 arg3 io_flush w = call_io_flush-Sound k (int_of_word arg1) w
  perform-Sound k arg1 arg2 arg3 sys_get_time w = w
  perform-Sound k arg1 arg2 arg3 sys_get_name w =
      Keeps-bind AnyAnswer WithKernel (ksyscall_sys_get_name k.memory arg1) _
        (sys_get_name-ends k.memory arg1) (λ r u. w)
  perform-Sound k arg1 arg2 arg3 proc_sleep w =
      Keeps-bind WithProcs WithKernel (ksyscall_proc_sleep k.procs (int_of_word arg1)) _
        (proc_sleep-IsWellFormed k.procs (int_of_word arg1) w.0) (λ r wr. (wr, w.1))
  perform-Sound k arg1 arg2 arg3 proc_exit w =
      Keeps-bind WithProcs WithKernel (ksyscall_proc_exit k.procs) _
        (proc_exit-IsWellFormed k.procs w.0) (λ r wr. (wr, w.1))
  perform-Sound k arg1 arg2 arg3 proc_get_pid w = w
  perform-Sound k arg1 arg2 arg3 proc_get_name w =
      Keeps-bind AnyAnswer WithKernel (ksyscall_proc_get_name k.procs k.memory arg1) _
        (proc_get_name-ends k.procs k.memory arg1) (λ r u. w)
  perform-Sound k arg1 arg2 arg3 mutex_init w = (mutex_init-IsWellFormed (mutexes_of k) w.0, w.1)
  perform-Sound k arg1 arg2 arg3 mutex_destroy w =
      (mutex_destroy-IsWellFormed after_free_mutex (mutexes_of k) (int_of_word arg1) w.0, w.1)
  perform-Sound k arg1 arg2 arg3 mutex_lock w =
      Keeps-bind WithMutexes WithKernel (ksyscall_mutex_lock (mutexes_of k) (int_of_word arg1)) _
        (mutex_lock-IsWellFormed (mutexes_of k) (int_of_word arg1) w.0) (λ r wr. (wr, w.1))
  perform-Sound k arg1 arg2 arg3 mutex_unlock w =
      Keeps-bind WithMutexes WithKernel (ksyscall_mutex_unlock (mutexes_of k) (int_of_word arg1)) _
        (mutex_unlock-IsWellFormed (mutexes_of k) (int_of_word arg1) w.0) (λ r wr. (wr, w.1))
  perform-Sound k arg1 arg2 arg3 sem_init w =
      (sem_init-IsWellFormed (sems_of k) (int_of_word arg1) w.0, w.1)
  perform-Sound k arg1 arg2 arg3 sem_destroy w =
      (sem_destroy-IsWellFormed after_free_sem (sems_of k) (int_of_word arg1) w.0, w.1)
  perform-Sound k arg1 arg2 arg3 sem_wait w =
      Keeps-bind WithSems WithKernel (ksyscall_sem_wait (sems_of k) (int_of_word arg1)) _
        (sem_wait-IsWellFormed (sems_of k) (int_of_word arg1) w.0) (λ r wr. (wr, w.1))
  perform-Sound k arg1 arg2 arg3 sem_post w =
      Keeps-bind WithSems WithKernel (ksyscall_sem_post (sems_of k) (int_of_word arg1)) _
        (sem_post-IsWellFormed (sems_of k) (int_of_word arg1) w.0) (λ r wr. (wr, w.1))

  serve-Sound :
      (k : Kernel) (o : Option Trapframe)
      → KernelSound k
      → Keeps KernelSound (serve after_free_mutex after_free_sem k o)
  unfolding serve
  serve-Sound k none w = tt
  serve-Sound k (some f) w = Keeps-if KernelSound (f.eax == 0) (ok k) _ w (
      Keeps-elim KernelSound (get_elem? syscalls f.eax) (stop panic) _ tt (λ call e.
        Keeps-bind WithKernel KernelSound
          (perform after_free_mutex after_free_sem k f.ebx f.ecx f.edx call) _
          (perform-Sound k f.ebx f.ecx f.edx call w) (λ r wr. answer-Sound r.1 r.0 wr)))

  -- Every system call on well-formed processes and usable terminals leaves such, or the machine stops in
  -- it: no loop of a call runs out of fuel.
  pub ksyscall_irq_handler-Keeps :
      (k : Kernel)
      → KernelSound k
      → Keeps KernelSound (ksyscall_irq_handler after_free_mutex after_free_sem k)
  unfolding ksyscall_irq_handler
  ksyscall_irq_handler-Keeps k w =
      Keeps-elim KernelSound k.procs.active_proc (stop panic) _ tt
        (λ a e. serve-Sound k (proc_at k.procs a).trapframe w)
