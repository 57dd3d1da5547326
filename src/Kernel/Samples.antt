-- ===== src/Kernel/Samples.antt =====
-- A small kernel for the tests: the process 4 runs and has just made a system call.
use wuros.Prelude.{
  ℕ, refl, inr, pos, ◌++◌, [], ◌∷◌, none, some, arith, replicate, length-replicate, codes,
}
use wuros.Ringbuf.{Ringbuf}
use wuros.Ringbuf.Valid.{IsValid, busy_buffer}
use wuros.Proc.{Proc, Procs, Trapframe, idle, active, input, output}
use wuros.Proc.Valid.{IsWellFormed}
use wuros.Screen.{screen_size}
use wuros.Tty.{Tty}
use wuros.Tty.Invariant.{IsUsable}
use wuros.Kmutex.{Mutex}
use wuros.Ksem.{Sem}
use wuros.Timer.{zeroed_timer}
use wuros.Keyboard.{keyboard_init}
use wuros.Interrupts.{Interrupts}
use wuros.Kernel.{Platform, Kernel}
use wuros.Kernel.Enter.{
  timer_irq_handler_address, keyboard_irq_handler_address, ksyscall_irq_handler_address,
}
use wuros.Ksyscall.Calls.Invariant.{KernelSound}
use wuros.Samples.{process, unused, demo, demo-IsWellFormed, nobody, zero_frame}

-- The registers with the number of a call and its first argument
abbrev pub call_frame : ℕ → ℕ → Trapframe
call_frame number arg1 = record zero_frame { eax = number; ebx = arg1 }

abbrev pub caller : Trapframe → Proc
caller f = record (process 4 active) {
  name = codes "shell";
  io = some (input 0) ∷ some (output 0) ∷ none ∷ none ∷ [];
  trapframe = some f;
}

abbrev pub calling : Trapframe → Procs
calling f = record demo {
  proc_table =
      process 0 idle
      ∷ process 1 idle
      ∷ process 2 idle
      ∷ process 3 idle
      ∷ caller f
      ∷ replicate 15 unused;
  active_proc = some 4;
}

abbrev buffer : Ringbuf
buffer = busy_buffer 0 0 (104 ∷ replicate 1023 0)

abbrev pub terminal : Tty
terminal = record {
  id = pos 0;
  buf = replicate screen_size 0;
  refresh = 0;
  color_bg = 0;
  color_fg = 7;
  pos_x = 0;
  pos_y = 0;
  pos_scroll = 0;
  echo = 0;
  io_input = buffer;
  io_output = buffer;
}

abbrev free_mutex : Mutex
free_mutex = record { allocated = pos 1; locks = pos 0; owner = none; wait_queue = nobody }

abbrev free_sem : Sem
free_sem = record { allocated = pos 1; count = pos 1; wait_queue = nobody }

abbrev pub wired : Interrupts
wired = record {
  irq_handlers =
      replicate 32 none
      ++ some timer_irq_handler_address ∷ some keyboard_irq_handler_address ∷ replicate 94 none
      ++ some ksyscall_irq_handler_address ∷ replicate 111 none;
  idt = replicate 256 none;
  pic = record { mask1 = 252; mask2 = 255; commands = [] };
}

abbrev pub sample : Trapframe → Kernel
sample f = record {
  procs = calling f;
  ttys = record { tty_table = terminal ∷ []; active_tty = some 0 };
  mutexes = replicate 16 free_mutex;
  mutex_queue = nobody;
  semaphores = replicate 16 free_sem;
  sem_queue = nobody;
  timers = record {
    timer_ticks = pos 250;
    timers = replicate 32 zeroed_timer;
    timer_allocator = nobody;
  };
  memory = replicate 64 1;
  screen = record {
    buf = replicate screen_size 0;
    pos_x = pos 0;
    pos_y = pos 0;
    color_bg = 0;
    color_fg = 7;
    cursor = 0;
    scrolling_enabled = 0;
    ports = [];
  };
  keyboard = keyboard_init;
  kbd_status = 1;
  kbd_data = 30;
  interrupts = wired;
  log_level = pos 3;
  spin_count = 0;
}

abbrev pub platform : Platform
platform = record {
  machine = record {
    get_cs = 8;
    get_ds = 16;
    get_es = 16;
    get_fs = 16;
    get_gs = 16;
    eflags_interrupts = 514;
  };
  stale = zero_frame;
  test_proc = 4096;
  after_free_mutex = λ m. m;
  after_free_sem = λ m. m;
}

pub calling-IsWellFormed : (f : Trapframe) → IsWellFormed (calling f)
calling-IsWellFormed f = record {
  allocator = demo-IsWellFormed.allocator;
  runs = demo-IsWellFormed.runs;
  sleeps = demo-IsWellFormed.sleeps;
  table = refl;
  active_in = omega arith;
}

buffer-IsValid : IsValid buffer
buffer-IsValid = record { storage = refl; shape = inr (0, 0, refl, omega arith, omega arith) }

terminal-IsUsable : IsUsable terminal
terminal-IsUsable = record {
  on_screen = record {
    column = omega arith;
    row = omega arith;
    size = length-replicate {A = ℕ} 2000 0;
  };
  input = buffer-IsValid;
  output = buffer-IsValid;
}

pub sample-Sound : (f : Trapframe) → KernelSound (sample f)
sample-Sound f = (calling-IsWellFormed f, (terminal-IsUsable, tt))
