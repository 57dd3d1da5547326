-- ===== src/Ksyscall/Examples.antt =====
-- src/ksyscall.c at concrete inputs.
use wuros.Prelude.{
  ◌≡◌, refl, inr, pos, [], ◌∷◌, ◌++◌, ok, stop, fault, none, some, true, arith, replicate, take,
  ◌-◌,
}
use wuros.Ringbuf.{Ringbuf, ringbuf_size}
use wuros.Ringbuf.Valid.{IsValid, contents, busy_buffer, empty_buffer}
use wuros.Proc.{Proc, input, output, idle}
use wuros.Tty.{Tty}
use wuros.Ksyscall.{
  Console, put_buffer, get_buffer, ksyscall_io_write, ksyscall_io_read, ksyscall_io_flush,
}
use wuros.Ksyscall.Write.{ksyscall_io_write-Appends}
use wuros.Ksyscall.Read.{ksyscall_io_read-served}
use wuros.Ksyscall.Echo.{ksyscall_io_read-io_write}
use wuros.Samples.{demo, process}

-- the bytes 104 and 105
abbrev greeting : Ringbuf
greeting = busy_buffer 0 1 (104 ∷ 105 ∷ replicate 1022 0)

greeting-IsValid : IsValid greeting
greeting-IsValid = record { storage = refl; shape = inr (0, 1, refl, omega arith, omega arith) }

abbrev terminal : Tty
terminal = record {
  id = pos 0;
  buf = [];
  refresh = 0;
  color_bg = 0;
  color_fg = 7;
  pos_x = 0;
  pos_y = 0;
  pos_scroll = 0;
  echo = 0;
  io_input = greeting;
  io_output = empty_buffer (replicate 1024 0);
}

abbrev shell : Proc
shell = record (process 1 idle) { io = some (input 0) ∷ some (output 0) ∷ none ∷ none ∷ [] }

-- The process 1 runs with the terminal 0.
abbrev console : Console
console = record {
  procs = record demo { proc_table = process 0 idle ∷ shell ∷ []; active_proc = some 1 };
  ttys = record { tty_table = terminal ∷ []; active_tty = some 0 };
}

found : get_buffer console.ttys (input 0) ≡ ok greeting
unfolding get_buffer
found = refl

ksyscall_io_write-Appends_example :
    (b' : Ringbuf) × (ksyscall_io_write console (pos 0) (some (33 ∷ 10 ∷ [])) (pos 1)
      ≡ ok (pos 1, record console { ttys = put_buffer console.ttys (input 0) b' }))
    × IsValid b'
    × (contents b' ≡ (104 ∷ 105 ∷ []) ++ take (ringbuf_size - 2) (33 ∷ []))
ksyscall_io_write-Appends_example =
    ksyscall_io_write-Appends console 1 0 1 (33 ∷ 10 ∷ []) (input 0) greeting (omega arith)
      (omega arith) refl refl found greeting-IsValid

ksyscall_io_read-served_example :
    (b' : Ringbuf) × (ksyscall_io_read console (pos 0) true (pos 4)
      ≡ ok (
        pos 2,
        104 ∷ 105 ∷ 105 ∷ 105 ∷ [],
        record console { ttys = put_buffer console.ttys (input 0) b' },
      ))
    × IsValid b'
    × (contents b' ≡ [])
ksyscall_io_read-served_example =
    ksyscall_io_read-served console 1 0 4 (input 0) greeting (omega arith) refl refl found
      greeting-IsValid

-- The index PROC_IO_MAX is read behind the array.
flush_behind : ksyscall_io_flush console (pos 4) ≡ stop fault
unfolding ksyscall_io_flush
flush_behind = refl

-- The byte 33 is written behind the two that the buffer holds.
ksyscall_io_read-io_write_example :
    (c1 : Console) × (c2 : Console) × (ksyscall_io_write console
        (pos 0)
        (some (33 ∷ 10 ∷ []))
        (pos 1)
      ≡ ok (pos 1, c1))
    × (ksyscall_io_read c1 (pos 0) true (pos 3) ≡ ok (pos 3, 104 ∷ 105 ∷ 33 ∷ [], c2))
ksyscall_io_read-io_write_example =
    ksyscall_io_read-io_write console 1 0 1 (33 ∷ 10 ∷ []) (input 0) greeting (omega arith)
      (omega arith) refl refl found greeting-IsValid (omega arith)
