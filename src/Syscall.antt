-- ===== src/Syscall.antt =====
-- src/syscall.c: the functions by which a program calls the kernel. Each is the registers that stand at
-- its `int $0x80`; isr_entry_syscall adds the number of the interrupt. `syscall_result` is the value that
-- it returns, read from the registers with which the program goes on.
pub mod Agree
pub mod Return
mod Examples
use wuros.Prelude.{ℕ, ℤ, pos}
use wuros.Proc.{Trapframe}
use wuros.Ksyscall.Dispatch.{Syscall, number, int_of_word, word_of_int}
use wuros.Ksyscall.Dispatch

-- int $0x80
abbrev pub syscall_vector : ℕ
syscall_vector = 128

abbrev pub raise : Trapframe → Syscall → Trapframe
raise f call = record f { eax = number call; interrupt = syscall_vector }

pub syscall0 : Trapframe → Syscall → Trapframe
unfolding number
syscall0 f call = raise f call

pub syscall1 : Trapframe → Syscall → ℤ → Trapframe
unfolding number
syscall1 f call arg1 = record (raise f call) { ebx = word_of_int arg1 }

unfoldable pub syscall2 : Trapframe → Syscall → ℤ → ℤ → Trapframe
syscall2 f call arg1 arg2 = record (raise f call) { ebx = word_of_int arg1; ecx = word_of_int arg2 }

pub syscall3 : Trapframe → Syscall → ℤ → ℤ → ℤ → Trapframe
unfolding number
syscall3 f call arg1 arg2 arg3 = record (raise f call) {
  ebx = word_of_int arg1;
  ecx = word_of_int arg2;
  edx = word_of_int arg3;
}

-- movl %%eax, %0
unfoldable pub syscall_result : Trapframe → ℤ
syscall_result f = int_of_word f.eax

-- A pointer is passed as an int.
unfoldable pub sys_get_time : Trapframe → Trapframe
unfolding syscall0
sys_get_time f = syscall0 f Dispatch.sys_get_time

unfoldable pub sys_get_name : Trapframe → ℕ → Trapframe
unfolding syscall1
sys_get_name f name = syscall1 f Dispatch.sys_get_name (int_of_word name)

unfoldable pub proc_sleep : Trapframe → ℤ → Trapframe
unfolding syscall1
proc_sleep f secs = syscall1 f Dispatch.proc_sleep secs

unfoldable pub proc_exit : Trapframe → ℤ → Trapframe
unfolding syscall1
proc_exit f exitcode = syscall1 f Dispatch.proc_exit exitcode

unfoldable pub proc_get_pid : Trapframe → Trapframe
unfolding syscall0
proc_get_pid f = syscall0 f Dispatch.proc_get_pid

unfoldable pub proc_get_name : Trapframe → ℕ → Trapframe
unfolding syscall1
proc_get_name f name = syscall1 f Dispatch.proc_get_name (int_of_word name)

unfoldable pub io_write : Trapframe → ℤ → ℕ → ℤ → Trapframe
unfolding syscall3
io_write f io buf n = syscall3 f Dispatch.io_write io (int_of_word buf) n

unfoldable pub io_read : Trapframe → ℤ → ℕ → ℤ → Trapframe
unfolding syscall3
io_read f io buf n = syscall3 f Dispatch.io_read io (int_of_word buf) n

unfoldable pub io_flush : Trapframe → ℤ → Trapframe
unfolding syscall1
io_flush f io = syscall1 f Dispatch.io_flush io

unfoldable pub mutex_init : Trapframe → Trapframe
unfolding syscall0
mutex_init f = syscall0 f Dispatch.mutex_init

unfoldable pub mutex_destroy : Trapframe → ℤ → Trapframe
unfolding syscall1
mutex_destroy f mutex = syscall1 f Dispatch.mutex_destroy mutex

unfoldable pub mutex_lock : Trapframe → ℤ → Trapframe
unfolding syscall1
mutex_lock f mutex = syscall1 f Dispatch.mutex_lock mutex

unfoldable pub mutex_unlock : Trapframe → ℤ → Trapframe
unfolding syscall1
mutex_unlock f mutex = syscall1 f Dispatch.mutex_unlock mutex

unfoldable pub sem_init : Trapframe → ℤ → Trapframe
unfolding syscall1
sem_init f value = syscall1 f Dispatch.sem_init value

unfoldable pub sem_destroy : Trapframe → ℤ → Trapframe
unfolding syscall1
sem_destroy f sem = syscall1 f Dispatch.sem_destroy sem

unfoldable pub sem_wait : Trapframe → ℤ → Trapframe
unfolding syscall1
sem_wait f sem = syscall1 f Dispatch.sem_wait sem

unfoldable pub sem_post : Trapframe → ℤ → Trapframe
unfolding syscall1
sem_post f sem = syscall1 f Dispatch.sem_post sem
