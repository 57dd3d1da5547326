-- ===== src/Samples.antt =====
-- A small process table for the tests of the scheduler and of what builds on it.
use wuros.Prelude.{ℕ, refl, inl, inr, pos, minus_one, ◌∷◌, none, some, arith, replicate}
use wuros.Queue.{Queue}
use wuros.Queue.Valid.{IsValid, empty_queue, busy_queue}
use wuros.Proc.{Proc, ProcState, Procs, idle, active, blank_proc, Trapframe}
use wuros.Proc.Valid.{IsWellFormed}

abbrev pub process : ℕ → ProcState → Proc
process pid state = record blank_proc { pid = pos pid; state = state }

abbrev pub unused : Proc
unused = record blank_proc { pid = minus_one }

abbrev pub nobody : Queue
nobody = empty_queue (replicate 32 minus_one)

-- The ids 1, 2 and 3
abbrev pub three : Queue
three = busy_queue 0 2 (pos 1 ∷ pos 2 ∷ pos 3 ∷ replicate 29 (pos 0))

-- The indices from 4 to 19
abbrev pub free_entries : Queue
free_entries = busy_queue 4 15 (
    pos 0
    ∷ pos 1
    ∷ pos 2
    ∷ pos 3
    ∷ pos 4
    ∷ pos 5
    ∷ pos 6
    ∷ pos 7
    ∷ pos 8
    ∷ pos 9
    ∷ pos 10
    ∷ pos 11
    ∷ pos 12
    ∷ pos 13
    ∷ pos 14
    ∷ pos 15
    ∷ pos 16
    ∷ pos 17
    ∷ pos 18
    ∷ pos 19
    ∷ replicate 12 minus_one)

-- The idle task, three processes in the run queue, and one that is not in it
abbrev pub demo : Procs
demo = record {
  next_pid = 5;
  proc_allocator = free_entries;
  proc_table =
      process 0 idle
      ∷ process 1 idle
      ∷ process 2 idle
      ∷ process 3 idle
      ∷ process 4 active
      ∷ replicate 15 unused;
  active_proc = none;
  run_queue = three;
  sleep_queue = nobody;
}

-- The process 4 runs.
abbrev pub running : Procs
running = record demo { active_proc = some 4 }

abbrev pub zero_frame : Trapframe
zero_frame = record {
  gs = 0;
  fs = 0;
  es = 0;
  ds = 0;
  edi = 0;
  esi = 0;
  ebp = 0;
  esp = 0;
  ebx = 0;
  edx = 0;
  ecx = 0;
  eax = 0;
  interrupt = 0;
  eip = 0;
  cs = 0;
  eflags = 0;
}

pub nobody-IsValid : IsValid nobody
nobody-IsValid = record { storage = refl; shape = inl refl }

pub three-IsValid : IsValid three
three-IsValid = record { storage = refl; shape = inr (0, 2, refl, omega arith, omega arith) }

free_entries-IsValid : IsValid free_entries
free_entries-IsValid = record {
  storage = refl;
  shape = inr (4, 15, refl, omega arith, omega arith);
}

pub demo-IsWellFormed : IsWellFormed demo
demo-IsWellFormed = record {
  allocator = free_entries-IsValid;
  runs = three-IsValid;
  sleeps = nobody-IsValid;
  table = refl;
  active_in = tt;
}
