-- ===== src/Proc.antt =====
-- include/kproc.h, include/trapframe.h and the process table of src/kproc.c: the process control
-- block, the state that src/kproc.c and src/scheduler.c share, and the lookups.
-- A `proc_t *` that is not null points to an entry of the table and is modelled by its index. The
-- pointer to the saved registers is modelled by the registers. `scheduler_queue` is left out: no
-- code sets or reads it.
pub mod Lookup
pub mod Valid
mod Examples
use wuros.Prelude.{
  ℕ, ◌+◌, ℤ, pos, minus_one, eq_ℤ, lt_ℤ, is_neg, Bool, ◌||◌, not, if◌then◌else◌, List, [], ◌∷◌,
  Option, none, some, get_elem?, get_or, set, Outcome, ok, or_stop, fault, ltb,
}
use wuros.Queue.{Queue}

-- PROC_MAX, PROC_IO_MAX, PROC_NAME_LEN, PROC_STACK_SIZE
abbrev pub proc_max : ℕ
proc_max = 20

abbrev pub proc_io_max : ℕ
proc_io_max = 4

abbrev pub proc_name_len : ℕ
proc_name_len = 32

abbrev pub proc_stack_size : ℕ
proc_stack_size = 8192

-- `proc_type_t`: PROC_TYPE_NONE, PROC_TYPE_KERNEL, PROC_TYPE_USER
pub data ProcType : Type 0 where
  no_type kernel user : ProcType

-- `state_t`: NONE, IDLE, ACTIVE, SLEEPING, WAITING
pub data ProcState : Type 0 where
  no_state idle active sleeping waiting : ProcState

-- `trapframe_t`, without the fillers between the segment registers
pub record Trapframe : Type 0 where
  pub gs : ℕ
  pub fs : ℕ
  pub es : ℕ
  pub ds : ℕ
  pub edi : ℕ
  pub esi : ℕ
  pub ebp : ℕ
  pub esp : ℕ
  pub ebx : ℕ
  pub edx : ℕ
  pub ecx : ℕ
  pub eax : ℕ
  pub interrupt : ℕ
  pub eip : ℕ
  pub cs : ℕ
  pub eflags : ℕ

-- A pointer into `tty_table[n]`: to its input or to its output buffer.
pub data IoBuf : Type 0 where
  input output : ℕ → IoBuf

-- `proc_t`. `stack` is an offset into `proc_stack`.
pub record Proc : Type 0 where
  pub pid : ℤ
  pub state : ProcState
  pub type : ProcType
  pub name : List ℕ
  pub start_time : ℤ
  pub run_time : ℤ
  pub cpu_time : ℤ
  pub sleep_time : ℤ
  pub io : List (Option IoBuf)
  pub stack : Option ℕ
  pub trapframe : Option Trapframe

-- The globals of src/kproc.c and src/scheduler.c. Process ids count up from 0.
pub record Procs : Type 0 where
  pub next_pid : ℕ
  pub proc_allocator : Queue
  pub proc_table : List Proc
  pub active_proc : Option ℕ
  pub run_queue : Queue
  pub sleep_queue : Queue

-- What a table entry holds before kproc_init runs. It stands for a read outside of the table, which
-- the indices of the model rule out.
abbrev pub blank_proc : Proc
blank_proc = record {
  pid = pos 0;
  state = no_state;
  type = no_type;
  name = [];
  start_time = pos 0;
  run_time = pos 0;
  cpu_time = pos 0;
  sleep_time = pos 0;
  io = none ∷ none ∷ none ∷ none ∷ [];
  stack = none;
  trapframe = none;
}

-- *p and *p = v
abbrev pub proc_at : Procs → ℕ → Proc
proc_at s e = get_or s.proc_table e blank_proc

abbrev pub put_proc : Procs → ℕ → Proc → Procs
put_proc s e p = record s { proc_table = set s.proc_table e p }

-- The loop over the table, from index `i` on: the first entry in use with the process id.
unfoldable pub find_pid : List Proc → ℤ → ℕ → Option ℕ
find_pid [] pid i = none
find_pid (p ∷ ps) pid i =
    let rest = find_pid ps pid (i + 1) in
    if is_neg p.pid then rest else if eq_ℤ p.pid pid then some i else rest

unfoldable pub pid_to_proc : Procs → ℤ → Option ℕ
pid_to_proc s pid =
    if is_neg pid || not (lt_ℤ pid (pos s.next_pid)) then none else find_pid s.proc_table pid 0

-- `none` is the result -1.
unfoldable pub proc_to_entry : Procs → Option ℕ → Option ℕ
unfolding find_pid
proc_to_entry s none = none
proc_to_entry s (some e) = find_pid s.proc_table (proc_at s e).pid 0

-- An index of PROC_MAX passes the test and is read behind the table.
unfoldable pub entry_to_proc : Procs → ℤ → Outcome (Option ℕ)
entry_to_proc s entry =
    if is_neg entry || lt_ℤ (pos proc_max) entry then ok none else in_table entry
  where
    in_table : ℤ → Outcome (Option ℕ)
    in_table (pos e) = elim (get_elem? s.proc_table e) [
      | none ↦ Outcome.stop fault
      | some p ↦ ok (if is_neg p.pid then none else some e)
    ]
    in_table e = ok none
