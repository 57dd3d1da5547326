-- ===== src/Boot/Examples.antt =====
-- src/main.c at concrete inputs.
use wuros.Prelude.{◌≤◌, arith, ℕ, ◌≡◌, refl, none, some, ok, replicate, length-replicate}
use wuros.Kproc.Start.{Programs}
use wuros.Kproc.Created.{Created}
use wuros.Tty.Start.{IsSized, AllSized}
use wuros.Kernel.{Kernel}
use wuros.Kernel.Samples.{sample, terminal, platform}
use wuros.Ksyscall.Calls.Invariant.{KernelSound}
use wuros.Boot.{Entries, start}
use wuros.Proc.{Procs}
use wuros.Scheduler.{scheduler_run}
use wuros.Scheduler.Fair.{ticks}
use wuros.Boot.Turns.{every_process_runs}
use wuros.Boot.Started.{IsUnstarted, IsWired, start-Sound}
use wuros.Samples.{demo, zero_frame}

abbrev entries : Entries
entries = record { isr_entry_timer = 512; isr_entry_keyboard = 528; isr_entry_syscall = 544 }

abbrev programs : Programs
programs = record { kproc_idle = 1024; prog_shell = 1040; prog_ping = 1056; prog_pong = 1072 }

abbrev unstarted : Kernel
unstarted = record (sample zero_frame) {
  procs = demo;
  ttys = record { tty_table = replicate 10 terminal; active_tty = none };
}

one : IsSized terminal
one = record { screen = length-replicate {A = ℕ} 2000 0; input = refl; output = refl }

ten : AllSized (replicate 10 terminal)
ten = (one, (one, (one, (one, (one, (one, (one, (one, (one, (one, tt))))))))))

unstarted-IsUnstarted : IsUnstarted unstarted
unstarted-IsUnstarted = record {
  table = refl;
  allocator = refl;
  runs = refl;
  sleeps = refl;
  no_proc = refl;
  terminals = refl;
  sized = ten;
  no_tty = refl;
  callbacks = refl;
}

start-Sound_example :
    (k' : Kernel) × (start platform entries programs unstarted ≡ ok k')
    × KernelSound k'
    × Created 11 k'.procs
    × (k'.ttys.active_tty ≡ some 0)
    × IsWired k'
start-Sound_example = start-Sound platform entries programs unstarted unstarted-IsUnstarted

every_process_runs_example :
    (k' : Kernel) × (start platform entries programs unstarted ≡ ok k')
    × (s : Procs) × (scheduler_run k'.procs ≡ ok s)
    × (n : ℕ) × (n ≤ 90)
    × (s' : Procs) × (ticks n s ≡ ok s')
    × (s'.active_proc ≡ some 7)
every_process_runs_example =
    every_process_runs platform entries programs unstarted 7 unstarted-IsUnstarted (omega arith)
      (omega arith)
