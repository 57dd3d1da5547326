-- ===== src/Ksyscall/Invariant.antt =====
-- src/ksyscall.c: the calls on the buffers of a process leave the processes and the terminals sound.
use wuros.Prelude.{
  ℕ, zero, suc, ℤ, pos, minus_one, to_ℕ, is_neg, lt_ℤ, ◌||◌, Bool, true, false, List, [], ◌∷◌,
  Option, none, some, Option-cases, inl, inr, get_or, get_elem?, ok, stop, fault, Keeps, Keeps-bind,
  Keeps-if, Keeps-elim,
}
use wuros.Ringbuf.{Ringbuf, ringbuf_flush}
use wuros.Ringbuf.Valid.{IsValid, ringbuf_init-IsValid}
use wuros.Ringbuf.Refine.{ringbuf_write-Pushed}
use wuros.Proc.{IoBuf, input, output, proc_at, proc_io_max}
use wuros.Proc.Valid.{IsWellFormed}
use wuros.Tty.{Tty, Ttys}
use wuros.Tty.Invariant.{IsUsable, AllUsable, AllUsable-at, AllUsable-set}
use wuros.Ksyscall.Read.{get_bytes-served}
use wuros.Ksyscall.{
  Console, get_buffer, put_buffer, invalid_io, put_bytes, get_bytes, write_to, write_by,
  ksyscall_io_write, read_from, read_by, ksyscall_io_read, flush_of, flush_at, ksyscall_io_flush,
}

abbrev pub ConsoleSound : Console → Type 0
ConsoleSound c = IsWellFormed c.procs × AllUsable c.ttys.tty_table

abbrev pub WithConsole : ℤ × Console → Type 0
WithConsole r = ConsoleSound r.1

abbrev pub WithRead : ℤ × List ℕ × Console → Type 0
WithRead r = ConsoleSound r.2

get_buffer-IsValid : (s : Ttys) (p : IoBuf) → AllUsable s.tty_table → Keeps IsValid (get_buffer s p)
unfolding get_buffer
get_buffer-IsValid s (input n) all =
    Keeps-elim IsValid (get_elem? s.tty_table n) (stop fault) _ tt
      (λ t e. (AllUsable-at s.tty_table n t e all).input)
get_buffer-IsValid s (output n) all =
    Keeps-elim IsValid (get_elem? s.tty_table n) (stop fault) _ tt
      (λ t e. (AllUsable-at s.tty_table n t e all).output)

set_input-IsUsable :
    (t : Tty) (b : Ringbuf) → IsUsable t → IsValid b → IsUsable (record t { io_input = b })
set_input-IsUsable t b u v = record {
  on_screen = record {
    column = u.on_screen.column;
    row = u.on_screen.row;
    size = u.on_screen.size;
  };
  input = v;
  output = u.output;
}

set_output-IsUsable :
    (t : Tty) (b : Ringbuf) → IsUsable t → IsValid b → IsUsable (record t { io_output = b })
set_output-IsUsable t b u v = record {
  on_screen = record {
    column = u.on_screen.column;
    row = u.on_screen.row;
    size = u.on_screen.size;
  };
  input = u.input;
  output = v;
}

put_buffer-AllUsable :
    (s : Ttys) (p : IoBuf) (b : Ringbuf)
    → AllUsable s.tty_table
    → IsValid b
    → AllUsable (put_buffer s p b).tty_table
unfolding put_buffer
put_buffer-AllUsable s (input n) b all v = elim (Option-cases (get_elem? s.tty_table n)) [
  | inl e ↦ rw (e, put_buffer) all
  | inr (t, e) ↦
      rw (e, put_buffer)
        (AllUsable-set s.tty_table n _
          (set_input-IsUsable t b (AllUsable-at s.tty_table n t e all) v) all)
]
put_buffer-AllUsable s (output n) b all v = elim (Option-cases (get_elem? s.tty_table n)) [
  | inl e ↦ rw (e, put_buffer) all
  | inr (t, e) ↦
      rw (e, put_buffer)
        (AllUsable-set s.tty_table n _
          (set_output-IsUsable t b (AllUsable-at s.tty_table n t e all) v) all)
]

put_bytes-IsValid :
    (n : ℕ) (mem : List ℕ) (b : Ringbuf) → IsValid b → Keeps IsValid (put_bytes n mem b)
unfolding put_bytes
put_bytes-IsValid zero mem b v = v
put_bytes-IsValid (suc n) [] b v = tt
put_bytes-IsValid (suc n) (byte ∷ mem) b v = elim (ringbuf_write-Pushed b byte v) [
  | inl (full, h) ↦ rw (h, put_bytes) (put_bytes-IsValid n mem b v)
  | inr (b', h, v', same, room) ↦ rw (h, put_bytes) (put_bytes-IsValid n mem b' v')
]

flushed-IsValid : (b : Ringbuf) → IsValid b → IsValid (ringbuf_flush b)
unfolding ringbuf_flush
flushed-IsValid b v = ringbuf_init-IsValid b v.storage

write_to-Sound :
    (c : Console) (n : ℕ) (mem : List ℕ) (o : Option IoBuf)
    → ConsoleSound c
    → Keeps WithConsole (write_to c n mem o)
unfolding write_to
write_to-Sound c n mem none w = w
write_to-Sound c n mem (some p) w =
    Keeps-bind IsValid WithConsole (get_buffer c.ttys p) _ (get_buffer-IsValid c.ttys p w.1) (λ b v.
      Keeps-bind IsValid WithConsole (put_bytes n mem b) _ (put_bytes-IsValid n mem b v)
        (λ b' v'. (w.0, put_buffer-AllUsable c.ttys p b' w.1 v')))

write_by-Sound :
    (c : Console) (io n : ℕ) (mem : List ℕ) (o : Option ℕ)
    → ConsoleSound c
    → Keeps WithConsole (write_by c io n mem o)
unfolding write_by
write_by-Sound c io n mem none w = w
write_by-Sound c io n mem (some a) w =
    write_to-Sound c n mem (get_or (proc_at c.procs a).io io none) w

pub ksyscall_io_write-Sound :
    (c : Console) (io : ℤ) (buf : Option (List ℕ)) (size : ℤ)
    → ConsoleSound c
    → Keeps WithConsole (ksyscall_io_write c io buf size)
unfolding ksyscall_io_write
ksyscall_io_write-Sound c io none size w = w
ksyscall_io_write-Sound c io (some buf) size w =
    Keeps-if WithConsole (invalid_io io) (ok (minus_one, c)) _ w (
      Keeps-if WithConsole (is_neg size) (ok (minus_one, c)) _ w
        (write_by-Sound c (to_ℕ io) (to_ℕ size) buf c.procs.active_proc w))

read_from-Sound :
    (c : Console) (n : ℕ) (o : Option IoBuf) → ConsoleSound c → Keeps WithRead (read_from c n o)
unfolding read_from
read_from-Sound c n none w = w
read_from-Sound c n (some p) w =
    Keeps-bind IsValid WithRead (get_buffer c.ttys p) _ (get_buffer-IsValid c.ttys p w.1) (λ b v. (
      w.0,
      put_buffer-AllUsable c.ttys p (ringbuf_flush (get_bytes n 0 b).1) w.1
          (flushed-IsValid (get_bytes n 0 b).1 (get_bytes-served n 0 b v).1),
    ))

read_by-Sound :
    (c : Console) (io n : ℕ) (o : Option ℕ) → ConsoleSound c → Keeps WithRead (read_by c io n o)
unfolding read_by
read_by-Sound c io n none w = tt
read_by-Sound c io n (some a) w = read_from-Sound c n (get_or (proc_at c.procs a).io io none) w

pub ksyscall_io_read-Sound :
    (c : Console) (io : ℤ) (given : Bool) (size : ℤ)
    → ConsoleSound c
    → Keeps WithRead (ksyscall_io_read c io given size)
unfolding ksyscall_io_read
ksyscall_io_read-Sound c io false size w = w
ksyscall_io_read-Sound c io true size w =
    Keeps-if WithRead (invalid_io io) (ok (minus_one, [], c)) _ w (
      Keeps-if WithRead (is_neg size) (ok (minus_one, [], c)) _ w
        (read_by-Sound c (to_ℕ io) (to_ℕ size) c.procs.active_proc w))

flush_of-Sound :
    (c : Console) (o : Option IoBuf) → ConsoleSound c → Keeps WithConsole (flush_of c o)
unfolding flush_of
flush_of-Sound c none w = w
flush_of-Sound c (some p) w =
    Keeps-bind IsValid WithConsole (get_buffer c.ttys p) _ (get_buffer-IsValid c.ttys p w.1)
      (λ b v. (w.0, put_buffer-AllUsable c.ttys p (ringbuf_flush b) w.1 (flushed-IsValid b v)))

pub ksyscall_io_flush-Sound :
    (c : Console) (io : ℤ) → ConsoleSound c → Keeps WithConsole (ksyscall_io_flush c io)
unfolding ksyscall_io_flush flush_at
ksyscall_io_flush-Sound c io w =
    Keeps-elim WithConsole c.procs.active_proc (ok (minus_one, c)) _ w (λ a e.
      Keeps-if WithConsole (is_neg io || lt_ℤ (pos proc_io_max) io) (ok (minus_one, c)) _ w (
        Keeps-elim WithConsole (get_elem? (proc_at c.procs a).io (to_ℕ io)) (stop fault) _ tt
          (λ p e'. flush_of-Sound c p w)))
