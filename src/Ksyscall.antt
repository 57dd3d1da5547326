-- ===== src/Ksyscall.antt =====
-- src/ksyscall.c: the calls on the input and output buffers of the active process. The memory behind
-- a pointer that is not null is the list of its bytes.
pub mod Write
pub mod Read
pub mod Echo
pub mod Invariant
pub mod Calls
pub mod Dispatch
mod Examples
use wuros.Prelude.{
  ℕ, zero, suc, ℤ, pos, minus_one, to_ℕ, is_neg, lt_ℤ, ◌||◌, Bool, true, false, if◌then◌else◌, List,
  [], ◌∷◌, Option, none, some, get_or, get_elem?, set, Outcome, ok, stop, fault, ◌>>=◌,
}
use wuros.Ringbuf.{Ringbuf, ringbuf_write, ringbuf_read, ringbuf_flush}
use wuros.Proc.{Procs, IoBuf, input, output, proc_at, proc_io_max}
use wuros.Tty.{Tty, Ttys}

-- What the calls share with src/kproc.c and src/tty.c
pub record Console : Type 0 where
  pub procs : Procs
  pub ttys : Ttys

-- The buffer behind a pointer, and a write through it
pub get_buffer : Ttys → IoBuf → Outcome Ringbuf
get_buffer s (input n) = elim (get_elem? s.tty_table n) [
  | none ↦ stop fault
  | some t ↦ ok t.io_input
]
get_buffer s (output n) = elim (get_elem? s.tty_table n) [
  | none ↦ stop fault
  | some t ↦ ok t.io_output
]

pub put_buffer : Ttys → IoBuf → Ringbuf → Ttys
put_buffer s (input n) b = elim (get_elem? s.tty_table n) [
  | none ↦ s
  | some t ↦ record s { tty_table = set s.tty_table n (record t { io_input = b }) }
]
put_buffer s (output n) b = elim (get_elem? s.tty_table n) [
  | none ↦ s
  | some t ↦ record s { tty_table = set s.tty_table n (record t { io_output = b }) }
]

-- io < 0 || io > 1
abbrev invalid_io : ℤ → Bool
invalid_io io = is_neg io || lt_ℤ (pos 1) io

-- The loop of ksyscall_io_write; the result of ringbuf_write is not looked at.
put_bytes : ℕ → List ℕ → Ringbuf → Outcome Ringbuf
put_bytes zero mem b = ok b
put_bytes (suc n) [] b = stop fault
put_bytes (suc n) (byte ∷ mem) b = elim (ringbuf_write b byte) [
  | none ↦ put_bytes n mem b
  | some b' ↦ put_bytes n mem b'
]

write_to : Console → ℕ → List ℕ → Option IoBuf → Outcome (ℤ × Console)
unfolding get_buffer put_buffer put_bytes
write_to c n mem none = ok (minus_one, c)
write_to c n mem (some p) = do
  b ← get_buffer c.ttys p
  b' ← put_bytes n mem b
  ok (pos n, record c { ttys = put_buffer c.ttys p b' })

write_by : Console → ℕ → ℕ → List ℕ → Option ℕ → Outcome (ℤ × Console)
unfolding write_to
write_by c io n mem none = ok (minus_one, c)
write_by c io n mem (some a) = write_to c n mem (get_or (proc_at c.procs a).io io none)

pub ksyscall_io_write : Console → ℤ → Option (List ℕ) → ℤ → Outcome (ℤ × Console)
unfolding write_by
ksyscall_io_write c io none size = ok (minus_one, c)
ksyscall_io_write c io (some buf) size =
    if invalid_io io
    then ok (minus_one, c)
    else if is_neg size
    then ok (minus_one, c)
    else write_by c (to_ℕ io) (to_ℕ size) buf c.procs.active_proc

-- The loop of ksyscall_io_read, with the bytes that it stores: after a read that fails, the last byte
-- again.
pub get_bytes : ℕ → ℕ → Ringbuf → List ℕ × Ringbuf
get_bytes zero c b = ([], b)
get_bytes (suc n) c b = elim (ringbuf_read b) [
  | none ↦ let rest = get_bytes n c b in (c ∷ rest.0, rest.1)
  | some (c', b') ↦ let rest = get_bytes n c' b' in (c' ∷ rest.0, rest.1)
]

-- The smaller one of the size of the buffer and of the size that was asked for
bounded : ℤ → ℕ → ℤ
bounded size n = if lt_ℤ (pos n) size then pos n else size

-- The call of ksyscall_io_flush at the end flushes the same buffer. The result has the bytes that were
-- stored.
read_from : Console → ℕ → Option IoBuf → Outcome (ℤ × List ℕ × Console)
unfolding get_buffer put_buffer get_bytes bounded
read_from c n none = ok (minus_one, [], c)
read_from c n (some p) = do
  b ← get_buffer c.ttys p
  let r = get_bytes n 0 b
  ok (bounded b.size n, r.0, record c { ttys = put_buffer c.ttys p (ringbuf_flush r.1) })

-- The buffer is looked up before the test that there is an active process.
read_by : Console → ℕ → ℕ → Option ℕ → Outcome (ℤ × List ℕ × Console)
unfolding read_from
read_by c io n none = stop fault
read_by c io n (some a) = read_from c n (get_or (proc_at c.procs a).io io none)

-- `buf` says whether the pointer is not null.
pub ksyscall_io_read : Console → ℤ → Bool → ℤ → Outcome (ℤ × List ℕ × Console)
unfolding read_by
ksyscall_io_read c io false size = ok (minus_one, [], c)
ksyscall_io_read c io true size =
    if invalid_io io
    then ok (minus_one, [], c)
    else if is_neg size
    then ok (minus_one, [], c)
    else read_by c (to_ℕ io) (to_ℕ size) c.procs.active_proc

flush_of : Console → Option IoBuf → Outcome (ℤ × Console)
unfolding get_buffer put_buffer
flush_of c none = ok (minus_one, c)
flush_of c (some p) = do
  b ← get_buffer c.ttys p
  ok (pos 0, record c { ttys = put_buffer c.ttys p (ringbuf_flush b) })

-- The index PROC_IO_MAX passes the test and is read behind the array.
flush_at : Console → ℤ → ℕ → Outcome (ℤ × Console)
unfolding flush_of
flush_at c io a = elim (get_elem? (proc_at c.procs a).io (to_ℕ io)) [
  | none ↦ stop fault
  | some p ↦ flush_of c p
]

pub ksyscall_io_flush : Console → ℤ → Outcome (ℤ × Console)
unfolding flush_at
ksyscall_io_flush c io = elim c.procs.active_proc [
  | none ↦ ok (minus_one, c)
  | some a ↦ if is_neg io || lt_ℤ (pos proc_io_max) io then ok (minus_one, c) else flush_at c io a
]
