-- ===== src/Ringbuf.antt =====
-- include/ringbuf.h and src/ringbuf.c: a circular buffer of bytes. `ringbuf_init` and
-- `ringbuf_flush` refuse a null pointer; a `Ringbuf` is the object that a pointer which is not null
-- points to. `ringbuf_write` and `ringbuf_read` change nothing when they fail and return `none` for
-- -1; `some` is 0 with what the function wrote. The log messages are left out.
pub mod Valid
pub mod Refine
pub mod Memory
mod Examples
use wuros.Prelude.{
  ℕ, zero, suc, ◌+◌, ◌-◌, ◌^◌, ℤ, pos, negsuc, minus_one, incr, decr, neg_ℕ, eq_ℤ, lt_ℤ, is_neg,
  rem_ℤ, ltb, ◌==◌, Bool, true, false, if◌then◌else◌, List, [], ◌∷◌, ◌++◌, Option, none, some,
  get_at, set_at, fill, length, set, get_or, Outcome, ok, stop, fault, ◌>>=◌,
}

-- `ringbuf_t`
pub record Ringbuf : Type 0 where
  pub head : ℤ
  pub tail : ℤ
  pub size : ℤ
  pub bytes : List ℕ

-- RINGBUF_SIZE
abbrev pub ringbuf_size : ℕ
ringbuf_size = 1024

pub ringbuf_init : Ringbuf → Ringbuf
ringbuf_init b = record {
  head = minus_one;
  tail = minus_one;
  size = pos 0;
  bytes = fill ringbuf_size 0 0 b.bytes;
}

abbrev pub ringbuf_is_empty : Ringbuf → Bool
ringbuf_is_empty b = if eq_ℤ b.head minus_one then true else false

abbrev pub ringbuf_is_full : Ringbuf → Bool
ringbuf_is_full b = if eq_ℤ b.size (pos ringbuf_size) then true else false

store : Ringbuf → ℕ → Ringbuf
store b byte =
    let head = if ringbuf_is_empty b then pos 0 else b.head in
    let tail = rem_ℤ (incr b.tail) ringbuf_size in
    record { head = head; tail = tail; size = incr b.size; bytes = set_at b.bytes tail byte }

pub ringbuf_write : Ringbuf → ℕ → Option Ringbuf
unfolding store
ringbuf_write b byte = if ringbuf_is_full b then none else some (store b byte)

release : Ringbuf → Ringbuf
unfolding ringbuf_init
release b =
    if eq_ℤ b.head b.tail
    then ringbuf_init b
    else record b { head = rem_ℤ (incr b.head) ringbuf_size; size = decr b.size }

pub ringbuf_read : Ringbuf → Option (ℕ × Ringbuf)
unfolding release
ringbuf_read b = if ringbuf_is_empty b then none else some (get_at b.bytes b.head 0, release b)

-- The loop of `ringbuf_write_mem` over the bytes that are left. An index below 0 is a write in
-- front of the array.
write_bytes : Ringbuf → List ℕ → Outcome Ringbuf
write_bytes b [] = ok b
write_bytes b (byte ∷ mem) = elim b.tail [
  | negsuc t ↦ stop fault
  | pos t ↦
      write_bytes
        (record b {
          bytes = set b.bytes t byte;
          size = incr b.size;
          tail = rem_ℤ (incr b.tail) ringbuf_size;
        })
        mem
]

-- RINGBUF_SIZE - size
abbrev room_left : ℤ → ℤ
room_left (pos n) = if ltb ringbuf_size n then neg_ℕ (n - ringbuf_size) else pos (ringbuf_size - n)
room_left (negsuc n) = pos (ringbuf_size + (n + 1))

-- `mem` holds the `size` bytes to copy.
pub ringbuf_write_mem : Ringbuf → List ℕ → Outcome (ℤ × Ringbuf)
unfolding write_bytes
ringbuf_write_mem b mem =
    if lt_ℤ (room_left b.size) (pos (length mem)) then ok (minus_one, b) else do
      b' ← write_bytes (if ringbuf_is_empty b then record b { head = pos 0 } else b) mem
      ok (pos 0, b')

-- The loop of `ringbuf_read_mem`, with the bytes that it copies.
read_bytes : ℕ → Ringbuf → Outcome (List ℕ × Ringbuf)
read_bytes zero b = ok ([], b)
read_bytes (suc n) b = elim b.head [
  | negsuc h ↦ stop fault
  | pos h ↦ do
    r ← read_bytes n (record b { head = rem_ℤ (incr b.head) ringbuf_size; size = decr b.size })
    ok (get_or b.bytes h 0 ∷ r.0, r.1)
]

-- (size_t) of an int of 32 bits
abbrev to_size_t : ℤ → ℕ
to_size_t (pos n) = n
to_size_t (negsuc n) = 2 ^ 32 - (n + 1)

pub ringbuf_read_mem : Ringbuf → ℕ → Outcome (ℤ × List ℕ × Ringbuf)
unfolding read_bytes
ringbuf_read_mem b size =
    if ltb (to_size_t b.size) size
    then ok (minus_one, [], b)
    else do r ← read_bytes size b; ok (pos 0, r.0, if size == 0 then ringbuf_init r.1 else r.1)

unfoldable pub ringbuf_flush : Ringbuf → Ringbuf
unfolding ringbuf_init
ringbuf_flush b = ringbuf_init b
