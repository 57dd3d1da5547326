-- ===== src/Kproc.antt =====
-- src/kproc.c: creating and destroying processes. The segment registers that the machine hands out
-- and the addresses of the programs are parameters.
pub mod Create
pub mod Destroy
pub mod Invariant
pub mod Start
pub mod Created
pub mod Started
mod Examples
use wuros.Prelude.{
  ℕ, zero, suc, ◌+◌, ◌-◌, ◌*◌, ◌%◌, ℤ, pos, minus_one, to_ℕ, eq_ℤ, ltb, Bool, if◌then◌else◌, List,
  [], ◌∷◌, Option, none, some, true, false, length, set, codes, Outcome, ok, stop, fault, ◌>>=◌,
}
use wuros.Queue.{Queue, queue_init, queue_in, queue_out, queue_is_full}
use wuros.Proc.{
  Procs, Proc, ProcType, no_type, user, kernel, ProcState, no_state, idle, Trapframe, IoBuf, input,
  output, blank_proc, proc_at, put_proc, pid_to_proc, proc_to_entry, proc_max, proc_name_len,
  proc_stack_size,
}
use wuros.Scheduler.{scheduler_add, scheduler_remove}

-- get_cs() and the like, and EF_DEFAULT_VALUE | EF_INTR
pub record Machine : Type 0 where
  pub get_cs : ℕ
  pub get_ds : ℕ
  pub get_es : ℕ
  pub get_fs : ℕ
  pub get_gs : ℕ
  pub eflags_interrupts : ℕ

-- sizeof(trapframe_t): eight 16-bit and twelve 32-bit members
abbrev pub trapframe_size : ℕ
trapframe_size = 64

-- &proc_stack[entry][PROC_STACK_SIZE], as an offset into `proc_stack`
pub stack_offset : ℕ → ℕ
stack_offset entry = entry * proc_stack_size + proc_stack_size

-- &stack[PROC_STACK_SIZE - sizeof(trapframe_t)]
pub trapframe_offset : ℕ → ℕ
unfolding stack_offset
trapframe_offset entry = stack_offset entry + (proc_stack_size - trapframe_size)

-- The saved registers of the entry do not lie in `proc_stack`.
frame_outside : ℕ → Bool
unfolding trapframe_offset
frame_outside entry = ltb (proc_max * proc_stack_size) (trapframe_offset entry + trapframe_size)

-- A name of 32 characters passes the test, and strcpy writes its NUL behind the array.
copy_name : List ℕ → Outcome (List ℕ)
copy_name name =
    if ltb proc_name_len (length name)
    then ok (codes "DefaultUserName")
    else if ltb (length name) proc_name_len
    then ok name
    else stop fault

-- The registers that the new stack held are overwritten as far as the code sets them.
start_frame : Machine → ℕ → Trapframe → Trapframe
start_frame m proc_ptr f = record f {
  eip = proc_ptr;
  eflags = m.eflags_interrupts;
  cs = m.get_cs;
  ds = m.get_ds;
  es = m.get_es;
  fs = m.get_fs;
  gs = m.get_gs;
}

-- io[0] = io[1] = NULL
clear_io : List (Option IoBuf) → List (Option IoBuf)
clear_io io = set (set io 0 none) 1 none

module _ (m : Machine) (ticks : ℕ) (stale : Trapframe) where
  -- The control block of a new process. `ticks` is the time, `stale` what the stack holds.
  pub start_proc : Proc → ℕ → ℕ → ℕ → ProcType → List ℕ → Proc
  unfolding start_frame clear_io stack_offset
  start_proc p entry pid proc_ptr type name = record {
    pid = pos pid;
    state = idle;
    type = type;
    name = name;
    start_time = pos ticks;
    run_time = pos 0;
    cpu_time = pos 0;
    sleep_time = pos 0;
    io = clear_io p.io;
    stack = some (stack_offset entry);
    trapframe = some (start_frame m proc_ptr stale);
  }

  -- Returns the process id, or -1 with nothing changed. The allocator holds indices of the table. The
  -- saved registers of a new process are written through its pointer, which has to lie in `proc_stack`.
  pub kproc_create : Procs → ℕ → List ℕ → ProcType → Outcome (ℤ × Procs)
  unfolding start_proc copy_name frame_outside
  kproc_create s proc_ptr proc_name proc_type = elim (queue_out s.proc_allocator) [
    | none ↦ ok (minus_one, s)
    | some (entry, allocator) ↦ do
      let e = to_ℕ entry
      name ← copy_name proc_name
      s' ←
          if frame_outside e
          then stop fault
          else scheduler_add
              (put_proc (record s { proc_allocator = allocator; next_pid = s.next_pid + 1 }) e
                (start_proc (proc_at s e) e s.next_pid proc_ptr proc_type name))
              (some e)
      ok (pos s.next_pid, s')
  ]

-- What kproc_destroy writes to the entry. The I/O buffers stay as they were.
pub reset_proc : Proc → Proc
reset_proc p = record {
  pid = minus_one;
  state = no_state;
  type = no_type;
  name = codes "NULL";
  start_time = minus_one;
  run_time = minus_one;
  cpu_time = minus_one;
  sleep_time = pos 0;
  io = p.io;
  stack = none;
  trapframe = none;
}

-- The writes through `proc_table[entry]`, and the entry goes back to the allocator. A lookup that
-- fails gives the index -1, in front of the table.
free_entry : Procs → Option ℕ → Outcome (ℤ × Procs)
unfolding reset_proc
free_entry s none = stop fault
free_entry s (some e) =
    let s' = put_proc s e (reset_proc (proc_at s e)) in
    elim (queue_in s'.proc_allocator (pos e)) [
      | none ↦ ok (minus_one, s')
      | some q ↦ ok (pos 0, record s' { proc_allocator = q })
    ]

pub kproc_destroy : Procs → Option ℕ → Outcome (ℤ × Procs)
unfolding free_entry
kproc_destroy s none = ok (minus_one, s)
kproc_destroy s (some e) =
    if eq_ℤ (proc_at s e).pid (pos 0)
    then ok (minus_one, s)
    else do s' ← scheduler_remove s (some e); free_entry s' (proc_to_entry s' (some e))

-- PROC_IO_IN, PROC_IO_OUT; `tty` is the result of tty_get, an index into the TTY table.
pub kproc_attach_tty : Procs → ℤ → Option ℕ → ℤ × Procs
kproc_attach_tty s pid tty = elim (pid_to_proc s pid) [
  | none ↦ (minus_one, s)
  | some e ↦ elim tty [
    | none ↦ (minus_one, s)
    | some t ↦
        let p = proc_at s e in
        (
          pos 0,
          put_proc s e (record p { io = set (set p.io 0 (some (input t))) 1 (some (output t)) }),
        )
  ]
]

-- The loop that fills the allocator with the indices of the table, from `entry` on
fill_allocator : ℕ → ℕ → Queue → Queue
fill_allocator zero entry q = q
fill_allocator (suc n) entry q = elim (queue_is_full q) [
  | true ↦ q
  | false ↦ elim (queue_in q (pos entry)) [
    | none ↦ fill_allocator n (entry + 1) q
    | some q' ↦ fill_allocator n (entry + 1) q'
  ]
]

reset_all : List Proc → List Proc
unfolding reset_proc
reset_all [] = []
reset_all (p ∷ ps) = reset_proc p ∷ reset_all ps

-- The part of kproc_init in front of the first kproc_create
pub kproc_reset : Procs → Procs
unfolding fill_allocator reset_all
kproc_reset s = record s {
  next_pid = 0;
  proc_allocator = fill_allocator proc_max 0 (queue_init s.proc_allocator);
  proc_table = reset_all s.proc_table;
}
