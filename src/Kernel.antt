-- ===== src/Kernel.antt =====
-- src/kernel.c: the globals of the kernel together, with the parts that each file of it works on, and
-- the memory that the pointers of the programs point to: `memory` lists its bytes from address 0 on.
pub mod Log
pub mod Enter
pub mod Samples
pub mod Invariant
mod Examples
use wuros.Prelude.{ℕ, ℤ, List}
use wuros.Queue.{Queue}
use wuros.Tty.{Ttys}
use wuros.Kmutex.{Mutex, Mutexes}
use wuros.Ksem.{Sem, Sems}
use wuros.Ksyscall.{Console}
use wuros.Timer.{Timers}
use wuros.Vga.{Vga}
use wuros.Keyboard.{Keyboard}
use wuros.Interrupts.{Interrupts}
use wuros.Proc.{Procs, Trapframe}
use wuros.Kproc.{Machine}

-- What the kernel's own code does not say: what the machine hands out, what the stack of a new process
-- holds, the address of kproc_test, and what free() leaves in an element of a static table.
pub record Platform : Type 0 where
  pub machine : Machine
  pub stale : Trapframe
  pub test_proc : ℕ
  pub after_free_mutex : Mutex → Mutex
  pub after_free_sem : Sem → Sem

-- `kbd_status` and `kbd_data` are what the ports of the keyboard read; `spin_count` is the static variable
-- of test_spinner.
pub record Kernel : Type 0 where
  pub procs : Procs
  pub ttys : Ttys
  pub mutexes : List Mutex
  pub mutex_queue : Queue
  pub semaphores : List Sem
  pub sem_queue : Queue
  pub timers : Timers
  pub memory : List ℕ
  pub screen : Vga
  pub keyboard : Keyboard
  pub kbd_status : ℕ
  pub kbd_data : ℕ
  pub interrupts : Interrupts
  pub log_level : ℤ
  pub spin_count : ℕ

-- The parts that src/ksyscall.c, src/kmutex.c and src/ksem.c work on, and the kernel after they did
abbrev pub console_of : Kernel → Console
console_of k = record { procs = k.procs; ttys = k.ttys }

abbrev pub with_console : Kernel → Console → Kernel
with_console k c = record k { procs = c.procs; ttys = c.ttys }

abbrev pub mutexes_of : Kernel → Mutexes
mutexes_of k = record { procs = k.procs; mutexes = k.mutexes; mutex_queue = k.mutex_queue }

abbrev pub with_mutexes : Kernel → Mutexes → Kernel
with_mutexes k s = record k { procs = s.procs; mutexes = s.mutexes; mutex_queue = s.mutex_queue }

abbrev pub sems_of : Kernel → Sems
sems_of k = record { procs = k.procs; semaphores = k.semaphores; sem_queue = k.sem_queue }

abbrev pub with_sems : Kernel → Sems → Kernel
with_sems k s = record k { procs = s.procs; semaphores = s.semaphores; sem_queue = s.sem_queue }
