-- ===== src/Lib.antt =====
-- WUROS, a small teaching kernel for the i386: a verification library.
--
-- The kernel keeps a table of processes (src/kproc.c), a run queue and a sleep queue of process ids
-- (src/scheduler.c), mutexes and semaphores with a wait queue each (src/kmutex.c, src/ksem.c), and
-- virtual terminals with an input and an output buffer each (src/tty.c), which the keyboard
-- (src/keyboard.c) writes to. All queues are the circular queue of src/queue.c, all buffers the ring
-- buffer of src/ringbuf.c.
--
-- Files:
--   Prelude and its children: names of the libraries, lists as C arrays, the type int, and how a
--     routine ends (Prelude/Outcomes).
--   Circular, Fifo: a circular array as a list, and the first-in first-out list as a specification.
--   Queue: src/queue.c and include/queue.h. Ringbuf: src/ringbuf.c and include/ringbuf.h. A function
--     that fails without a change returns `none`.
--   Proc: include/kproc.h, include/trapframe.h and the lookups of src/kproc.c. Kproc: kproc_create,
--     kproc_destroy and kproc_attach_tty; kproc_init is in Kproc/Start, its first part kproc_reset.
--   Scheduler: src/scheduler.c, one function for each of the source's, its loops and branches as
--     helpers.
--   Kmutex, Ksem: src/kmutex.c and src/ksem.c. `lock`, `unlock`, `wait` and `post` are the functions
--     on the mutex or semaphore that an id stands for; kmutex_lock and the like look the id up.
--   Timer: src/timer.c. BitUtil: src/bit_util.c. Interrupts: src/interrupts.c.
--   Ksyscall: src/ksyscall.c. Its calls on the buffers of a process are in Ksyscall, the other calls in
--     Ksyscall/Calls, ksyscall_irq_handler with the result in EAX in Ksyscall/Dispatch.
--   Syscall: src/syscall.c, each function as the registers that it leaves for the kernel. In
--     Syscall/Agree they meet the kernel's dispatch, in Syscall/Return the kernel's way back.
--   Boot: src/main.c, with the handlers and callbacks that the initialisers register.
--   Kernel: the globals of all the files together. Kernel/Enter is kernel_context_enter of src/kernel.c
--     with the handlers of the timer, the keyboard and the system calls, Kernel/Log the log level.
--   Vga: src/vga.c. The screen memory is a list of 16-bit cells, and a position the cell's index.
--   Screen, Tty: src/tty.c, and what it shares with src/vga.c. `update` is tty_update
--     on the active terminal; Tty/Draw is tty_refresh, with `refresh_on` for the active terminal.
--   Displays: include/test.h, the displays that test_init registers as callbacks of the timer.
--   Keyboard: src/keyboard.c. The switch of keyboard_decode is the table Keyboard/Keys; Keyboard/Input
--     polls the keyboard and makes the calls that the decoder asks for.
--   Scheduler/Fair follows scheduler_timer and scheduler_run over the ticks of the timer.
--   Modules named Invariant say what a component keeps; Kernel/Invariant puts them together.
--   Samples: a process table that the tests share. The modules named Examples hold tests.
--
-- Conventions: state is passed explicitly. A pointer to an element of a static table is the element's
-- index, and a null pointer `none`. An Outcome is a result or the reason why the machine stops:
-- kernel_panic, undefined behaviour (an access outside of an array or through a null pointer) or
-- kernel_exit. The type int is unbounded: counters are not taken to the limits of 32 bits. Registers,
-- masks and the arguments of src/bit_util.c are words with their width. Log messages are left out.
--
-- Fuel: the loop of scheduler_remove and that of scheduler_timer read the size of a queue again on each
-- round and have 32 rounds of fuel, the most a queue holds; the loop of tty_refresh has 1024, the most
-- a ring buffer holds. Theorems below say that this is enough. The loop of bit_count has 31, one for each
-- digit of a positive int.
--
-- keyboard_getc polls until a key is pressed, and takes what the ports read on each round.
--
-- Parameters: what ports read (Vga, Keyboard), the segment registers and the flags of a new process, the
-- time, what its stack held (Kproc), the addresses of the programs and of the entries of the
-- interrupts (Kproc/Start, Boot), what free() leaves in an element of a static table (Kmutex, Ksem),
-- and what a timer's callback or an interrupt's handler does (Timer, Interrupts); Kernel/Enter gives the
-- last two the kernel's own functions. The memory of the programs is a list of bytes, apart from the
-- kernel's globals.
--
-- Not modelled: the output of the log functions, of kernel_exit; what main does from
-- its welcome message on; src/prog_user.c, which calls src/syscall.c and prints; src/context.S, which is assembly.
pub mod Prelude
pub mod Circular
pub mod Displays
pub mod Fifo
pub mod Queue
pub mod Ringbuf
pub mod Proc
pub mod Samples
pub mod Scheduler
pub mod Kproc
pub mod Kmutex
pub mod Ksem
pub mod Ksyscall
pub mod Syscall
pub mod Timer
pub mod Screen
pub mod Vga
pub mod Tty
pub mod Keyboard
pub mod BitUtil
pub mod Boot
pub mod Interrupts
pub mod Kernel
