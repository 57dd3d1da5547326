-- ===== src/Syscall/Agree.antt =====
-- src/syscall.c and src/ksyscall.c: the two sides of a system call agree on its number, on the registers
-- of its arguments and on their types.
use wuros.Prelude.{
  ℕ, suc, ◌^◌, ◌<◌, ◌≡◌, refl, ap, ◌∙◌, ℤ, pos, negsuc, some, get_elem?, Outcome, ok, ◌>>=◌, arith,
}
use wuros.Proc.{Trapframe, proc_at}
use wuros.Kmutex.{Mutex}
use wuros.Ksem.{Sem}
use wuros.Kernel.{Kernel, mutexes_of, with_mutexes, sems_of, with_sems}
use wuros.Ksyscall.Calls.{
  call_io_write, call_io_read, call_io_flush, ksyscall_sys_get_time, ksyscall_sys_get_name,
  ksyscall_proc_sleep, ksyscall_proc_exit, ksyscall_proc_get_pid, ksyscall_proc_get_name,
  ksyscall_mutex_init, ksyscall_mutex_destroy, ksyscall_mutex_lock, ksyscall_mutex_unlock,
  ksyscall_sem_init, ksyscall_sem_destroy, ksyscall_sem_wait, ksyscall_sem_post,
}
use wuros.Ksyscall.Dispatch
use wuros.Ksyscall.Dispatch.{
  number, Syscall, syscalls, int_of_word, word_of_int, answer, perform, ksyscall_irq_handler,
}
use wuros.Ksyscall.Dispatch.Answer.{int_of_word-word_of_int, handler_runs}
use wuros.Syscall.{
  syscall0, syscall1, syscall3, sys_get_time, sys_get_name, proc_sleep, proc_exit, proc_get_pid,
  proc_get_name, io_write, io_read, io_flush, mutex_init, mutex_destroy, mutex_lock, mutex_unlock,
  sem_init, sem_destroy, sem_wait, sem_post,
}

-- A call of a function of src/syscall.c with its arguments
pub data Call : Type 0 where
  get_time get_pid new_mutex : Call
  get_name get_own_name : ℕ → Call
  sleep exit flush free_mutex lock unlock new_sem free_sem wait post : ℤ → Call
  write read : ℤ → ℕ → ℤ → Call

-- The registers at its `int $0x80`, where the others are those of `f`
unfoldable pub request : Trapframe → Call → Trapframe
unfolding sys_get_time sys_get_name proc_sleep proc_exit proc_get_pid proc_get_name io_write io_read
    io_flush mutex_init mutex_destroy mutex_lock mutex_unlock sem_init sem_destroy sem_wait sem_post
request f get_time = sys_get_time f
request f get_pid = proc_get_pid f
request f new_mutex = mutex_init f
request f (get_name p) = sys_get_name f p
request f (get_own_name p) = proc_get_name f p
request f (sleep secs) = proc_sleep f secs
request f (exit code) = proc_exit f code
request f (flush io) = io_flush f io
request f (free_mutex m) = mutex_destroy f m
request f (lock m) = mutex_lock f m
request f (unlock m) = mutex_unlock f m
request f (new_sem n) = sem_init f n
request f (free_sem m) = sem_destroy f m
request f (wait m) = sem_wait f m
request f (post m) = sem_post f m
request f (write io p n) = io_write f io p n
request f (read io p n) = io_read f io p n

-- A value of type int, and one of a pointer
abbrev pub IsInt : ℤ → Type 0
IsInt (pos n) = n < 2 ^ 31
IsInt (negsuc n) = n < 2 ^ 31

abbrev pub IsAddress : ℕ → Type 0
IsAddress p = p < 2 ^ 32

-- Arguments that have the types of the parameters
abbrev pub Fits : Call → Type 0
Fits get_time = Unit {0}
Fits get_pid = Unit {0}
Fits new_mutex = Unit {0}
Fits (get_name p) = IsAddress p
Fits (get_own_name p) = IsAddress p
Fits (sleep z) = IsInt z
Fits (exit z) = IsInt z
Fits (flush z) = IsInt z
Fits (free_mutex z) = IsInt z
Fits (lock z) = IsInt z
Fits (unlock z) = IsInt z
Fits (new_sem z) = IsInt z
Fits (free_sem z) = IsInt z
Fits (wait z) = IsInt z
Fits (post z) = IsInt z
Fits (write io p n) = IsInt io × IsAddress p × IsInt n
Fits (read io p n) = IsInt io × IsAddress p × IsInt n

pub word-int : (z : ℤ) → IsInt z → int_of_word (word_of_int z) ≡ z
word-int (pos n) h = (int_of_word-word_of_int n h).0
word-int (negsuc n) h = (int_of_word-word_of_int n h).1

address-word : (p : ℕ) → IsAddress p → word_of_int (int_of_word p) ≡ p
unfolding int_of_word word_of_int
address-word p h = ground arith

buffer_args :
    {R : Type 0}
    → (g : ℤ → ℕ → ℤ → R) (io : ℤ) (p : ℕ) (n : ℤ) → IsInt io × IsAddress p × IsInt n
    → g (int_of_word (word_of_int io)) (word_of_int (int_of_word p)) (int_of_word (word_of_int n))
      ≡ g io p n
buffer_args g io p n (hio, hp, hn) =
    ap (λ x. g x (word_of_int (int_of_word p)) (int_of_word (word_of_int n))) (word-int io hio)
    ∙ ap (λ x. g io x (int_of_word (word_of_int n))) (address-word p hp)
    ∙ ap (g io p) (word-int n hn)

module _ (after_free_mutex : Mutex → Mutex) (after_free_sem : Sem → Sem) where
  -- What the kernel does for a call: the function of the same name, on the arguments of the program
  unfoldable pub meaning : Kernel → Call → Outcome (ℤ × Kernel)
  meaning k get_time = ok (ksyscall_sys_get_time k.timers, k)
  meaning k get_pid = ok (ksyscall_proc_get_pid k.procs, k)
  meaning k new_mutex = let r = ksyscall_mutex_init (mutexes_of k) in ok (r.0, with_mutexes k r.1)
  meaning k (get_name p) = do
    r ← ksyscall_sys_get_name k.memory p
    ok (r.0, record k { memory = r.1 })
  meaning k (get_own_name p) = do
    r ← ksyscall_proc_get_name k.procs k.memory p
    ok (r.0, record k { memory = r.1 })
  meaning k (sleep secs) = do
    r ← ksyscall_proc_sleep k.procs secs
    ok (r.0, record k { procs = r.1 })
  meaning k (exit code) = do r ← ksyscall_proc_exit k.procs; ok (r.0, record k { procs = r.1 })
  meaning k (flush io) = call_io_flush k io
  meaning k (free_mutex m) =
      let r = ksyscall_mutex_destroy after_free_mutex (mutexes_of k) m in
      ok (r.0, with_mutexes k r.1)
  meaning k (lock m) = do r ← ksyscall_mutex_lock (mutexes_of k) m; ok (r.0, with_mutexes k r.1)
  meaning k (unlock m) = do r ← ksyscall_mutex_unlock (mutexes_of k) m; ok (r.0, with_mutexes k r.1)
  meaning k (new_sem n) = let r = ksyscall_sem_init (sems_of k) n in ok (r.0, with_sems k r.1)
  meaning k (free_sem m) =
      let r = ksyscall_sem_destroy after_free_sem (sems_of k) m in ok (r.0, with_sems k r.1)
  meaning k (wait m) = do r ← ksyscall_sem_wait (sems_of k) m; ok (r.0, with_sems k r.1)
  meaning k (post m) = do r ← ksyscall_sem_post (sems_of k) m; ok (r.0, with_sems k r.1)
  meaning k (write io p n) = call_io_write k io p n
  meaning k (read io p n) = call_io_read k io p n

  abbrev case : Call → Syscall
  case get_time = Dispatch.sys_get_time
  case get_pid = Dispatch.proc_get_pid
  case new_mutex = Dispatch.mutex_init
  case (get_name p) = Dispatch.sys_get_name
  case (get_own_name p) = Dispatch.proc_get_name
  case (sleep z) = Dispatch.proc_sleep
  case (exit z) = Dispatch.proc_exit
  case (flush z) = Dispatch.io_flush
  case (free_mutex z) = Dispatch.mutex_destroy
  case (lock z) = Dispatch.mutex_lock
  case (unlock z) = Dispatch.mutex_unlock
  case (new_sem z) = Dispatch.sem_init
  case (free_sem z) = Dispatch.sem_destroy
  case (wait z) = Dispatch.sem_wait
  case (post z) = Dispatch.sem_post
  case (write io p n) = Dispatch.io_write
  case (read io p n) = Dispatch.io_read

  -- The call stands at the place of the table that its number names.
  numbered :
      (f : Trapframe) (c : Call)
      → (n : ℕ) × ((request f c).eax ≡ suc n) × (get_elem? syscalls (suc n) ≡ some (case c))
  unfolding request number syscall0 syscall1 syscall3
  numbered f get_time = (3, refl, refl)
  numbered f get_pid = (7, refl, refl)
  numbered f new_mutex = (9, refl, refl)
  numbered f (get_name p) = (4, refl, refl)
  numbered f (get_own_name p) = (8, refl, refl)
  numbered f (sleep z) = (5, refl, refl)
  numbered f (exit z) = (6, refl, refl)
  numbered f (flush z) = (2, refl, refl)
  numbered f (free_mutex z) = (10, refl, refl)
  numbered f (lock z) = (11, refl, refl)
  numbered f (unlock z) = (12, refl, refl)
  numbered f (new_sem z) = (13, refl, refl)
  numbered f (free_sem z) = (14, refl, refl)
  numbered f (wait z) = (15, refl, refl)
  numbered f (post z) = (16, refl, refl)
  numbered f (write io p n) = (1, refl, refl)
  numbered f (read io p n) = (0, refl, refl)

  performs :
      (k : Kernel) (f : Trapframe) (c : Call)
      → Fits c
      → let g = request f c in
        perform after_free_mutex after_free_sem k g.ebx g.ecx g.edx (case c) ≡ meaning k c
  unfolding request syscall0 syscall1 syscall3 meaning perform
  performs k f get_time h = refl
  performs k f get_pid h = refl
  performs k f new_mutex h = refl
  performs k f (get_name p) h = ap (λ p. meaning k (get_name p)) (address-word p h)
  performs k f (get_own_name p) h = ap (λ p. meaning k (get_own_name p)) (address-word p h)
  performs k f (sleep z) h = ap (λ z. meaning k (sleep z)) (word-int z h)
  performs k f (exit z) h = refl
  performs k f (flush z) h = ap (λ z. meaning k (flush z)) (word-int z h)
  performs k f (free_mutex z) h = ap (λ z. meaning k (free_mutex z)) (word-int z h)
  performs k f (lock z) h = ap (λ z. meaning k (lock z)) (word-int z h)
  performs k f (unlock z) h = ap (λ z. meaning k (unlock z)) (word-int z h)
  performs k f (new_sem z) h = ap (λ z. meaning k (new_sem z)) (word-int z h)
  performs k f (free_sem z) h = ap (λ z. meaning k (free_sem z)) (word-int z h)
  performs k f (wait z) h = ap (λ z. meaning k (wait z)) (word-int z h)
  performs k f (post z) h = ap (λ z. meaning k (post z)) (word-int z h)
  performs k f (write io p n) h = buffer_args (λ io p n. meaning k (write io p n)) io p n h
  performs k f (read io p n) h = buffer_args (λ io p n. meaning k (read io p n)) io p n h

  -- For each function of src/syscall.c that a program calls with arguments of the types of its
  -- parameters: where the active process has the registers that the function sets up,
  -- ksyscall_irq_handler runs the kernel's function of that name on these arguments, and its result is
  -- written to EAX of the process that is active then.
  pub request-served :
      (k : Kernel) (a : ℕ) (f : Trapframe) (c : Call)
      → k.procs.active_proc ≡ some a
      → (proc_at k.procs a).trapframe ≡ some (request f c)
      → Fits c
      → ksyscall_irq_handler after_free_mutex after_free_sem k
        ≡ (meaning k c >>= λ r. answer r.1 r.0)
  request-served k a f c act frame h =
      let (n, eax, found) = numbered f c in
      handler_runs after_free_mutex after_free_sem k a n (request f c) (case c) act frame eax found
      ∙ ap (λ r. r >>= λ r. answer r.1 r.0) (performs k f c h)
