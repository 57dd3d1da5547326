-- ===== src/Ringbuf/Memory.antt =====
-- src/ringbuf.c: ringbuf_write_mem and ringbuf_read_mem on a valid buffer.
use wuros.Prelude.{
  ℕ, zero, suc, ◌+◌, ◌-◌, ◌%◌, ◌≤◌, ◌<◌, ◌≡◌, refl, sym, ap, subst, ◌≢◌, ◌⊎◌, inl, inr, ℤ, pos,
  minus_one, to_ℕ, false, List, [], ◌∷◌, Outcome, ok, stop, fault, arith, length, take, get_or,
  some, ltb, Bool-cases,
}
use wuros.Circular.{circular}
use wuros.Ringbuf.{
  Ringbuf, ringbuf_size, ringbuf_init, ringbuf_is_empty, ringbuf_read, ringbuf_write_mem,
  ringbuf_read_mem, read_bytes, write_bytes, release,
}
use wuros.Ringbuf.Valid.{IsValid, contents, empty_buffer, busy_buffer, length-contents}

abbrev at_slot : ℕ → ℤ → ℕ → List ℕ → Ringbuf
at_slot h t s bytes = record { head = pos h; tail = t; size = pos s; bytes = bytes }

-- The loop copies the stretch from the head on and moves the head past it.
read_bytes_lem :
    (n h s : ℕ) (t : ℤ) (bytes : List ℕ)
    → h < ringbuf_size
    → n ≤ s
    → read_bytes n (at_slot h t s bytes)
      ≡ ok (circular 0 ringbuf_size bytes h n, at_slot ((h + n) % ringbuf_size) t (s - n) bytes)
unfolding read_bytes
read_bytes_lem zero h s t bytes hh hn = ground arith
read_bytes_lem (suc n) h (suc s) t bytes hh hn =
    ground (arith, read_bytes_lem n ((h + 1) % ringbuf_size) s t bytes)
read_bytes_lem (suc n) h zero t bytes hh hn = absurd (omega arith)

take-circular :
    (n h m : ℕ) (bytes : List ℕ)
    → n ≤ m
    → take n (circular 0 ringbuf_size bytes h m) ≡ circular 0 ringbuf_size bytes h n
take-circular zero h m bytes hn = refl
take-circular (suc n) h zero bytes hn = absurd (omega arith)
take-circular (suc n) h (suc m) bytes hn =
    ap (λ xs. get_or bytes h 0 ∷ xs)
      (take-circular n ((h + 1) % ringbuf_size) m bytes (omega arith))

-- Writing a block of bytes to an empty buffer stores the first of them in front of the array:
-- whenever the block is not empty and fits, ringbuf_write_mem faults.
pub ringbuf_write_mem_faults :
    (b : Ringbuf) (byte : ℕ) (mem : List ℕ)
    → IsValid b
    → contents b ≡ []
    → length mem < ringbuf_size
    → ringbuf_write_mem b (byte ∷ mem) ≡ stop fault
unfolding ringbuf_write_mem write_bytes
ringbuf_write_mem_faults b byte mem v none_left fits = elim v.shape [
  | inl e ↦ subst (λ c. ringbuf_write_mem c (byte ∷ mem) ≡ stop fault) (sym e) (ground arith)
  | inr (h, n, e, hh, hn) ↦ absurd (ground (arith, length-contents b, none_left, e))
]

-- What ringbuf_read_mem may answer.
abbrev pub ReadsMem : Ringbuf → ℕ → Outcome (ℤ × List ℕ × Ringbuf) → Type 0
ReadsMem b size r =
    ((length (contents b) < size) × (r ≡ ok (minus_one, [], b)))
    ⊎ ((size ≡ 0) × (r ≡ ok (pos 0, [], ringbuf_init b)))
    ⊎ ((0 < size)
        × (size ≤ length (contents b))
        × (b' : Ringbuf) × (r ≡ ok (pos 0, take size (contents b), b'))
        × (b'.size ≡ pos (length (contents b) - size))
        × (ringbuf_is_empty b' ≡ false))

reads_empty :
    (bytes : List ℕ) (size : ℕ)
    → ReadsMem (empty_buffer bytes) size (ringbuf_read_mem (empty_buffer bytes) size)
unfolding ringbuf_read_mem read_bytes
reads_empty bytes zero = inr (inl (refl, refl))
reads_empty bytes (suc n) = inl (omega arith, ground arith)

reads_busy :
    (h n : ℕ) (bytes : List ℕ) (size : ℕ)
    → h < ringbuf_size
    → n < ringbuf_size
    → ReadsMem (busy_buffer h n bytes) size (ringbuf_read_mem (busy_buffer h n bytes) size)
unfolding ringbuf_read_mem read_bytes
reads_busy h n bytes zero hh hn = inr (inl (refl, ground arith))
reads_busy h n bytes (suc k) hh hn = elim (Bool-cases (ltb (suc n) (suc k))) [
  | inl more ↦ inl (ground (arith, length-contents (busy_buffer h n bytes)), ground arith)
  | inr fits ↦ inr (
      inr (
        omega arith,
        ground (arith, length-contents (busy_buffer h n bytes)),
        at_slot ((h + suc k) % ringbuf_size) tail (suc n - suc k) bytes,
        ground (
          arith,
          read_bytes_lem (suc k) h (suc n) tail bytes,
          take-circular (suc k) h (suc n) bytes,
        ),
        ground (arith, length-contents (busy_buffer h n bytes)),
        refl,
      ))
]
  where
    tail : ℤ
    tail = pos ((h + n) % ringbuf_size)

-- ringbuf_read_mem on a valid buffer: a size above the number of bytes held is refused and changes
-- nothing; a size of 0 reports success and resets the buffer, so that its contents are lost; any
-- other size copies that many bytes from the front and leaves the rest counted, but leaves the head
-- set, so that the buffer does not test as empty even when every byte has been read.
pub ringbuf_read_mem_cases :
    (b : Ringbuf) (size : ℕ) → IsValid b → ReadsMem b size (ringbuf_read_mem b size)
ringbuf_read_mem_cases b size v = elim v.shape [
  | inl e ↦
      subst (λ c. ReadsMem c size (ringbuf_read_mem c size)) (sym e) (reads_empty b.bytes size)
  | inr (h, n, e, hh, hn) ↦
      subst (λ c. ReadsMem c size (ringbuf_read_mem c size)) (sym e)
        (reads_busy h n b.bytes size hh hn)
]

drained :
    (h n : ℕ) (bytes : List ℕ)
    → h < ringbuf_size
    → n < ringbuf_size
    → (b' : Ringbuf) × (ringbuf_read_mem (busy_buffer h n bytes) (suc n)
        ≡ ok (pos 0, contents (busy_buffer h n bytes), b'))
      × (stale : ℕ) × (b'' : Ringbuf) × (ringbuf_read b' ≡ some (stale, b''))
      × (b''.size ≡ minus_one)
unfolding ringbuf_read_mem ringbuf_read release
drained h n bytes hh hn = (
  after,
  ground (arith, read_bytes_lem (suc n) h (suc n) tail bytes),
  get_or bytes ((h + suc n) % ringbuf_size) 0,
  record after { head = pos (((h + suc n) % ringbuf_size + 1) % ringbuf_size); size = minus_one },
  ground arith,
  refl,
)
  where
    tail : ℤ
    tail = pos ((h + n) % ringbuf_size)

    after : Ringbuf
    after = at_slot ((h + suc n) % ringbuf_size) tail 0 bytes

-- After a block read of everything that a valid non-empty buffer holds, the next ringbuf_read
-- succeeds with a stale byte and leaves the size at -1.
pub ringbuf_read_after_drain :
    (b : Ringbuf)
    → IsValid b
    → contents b ≢ []
    → (b' : Ringbuf) × (ringbuf_read_mem b (to_ℕ b.size) ≡ ok (pos 0, contents b, b'))
      × (stale : ℕ) × (b'' : Ringbuf) × (ringbuf_read b' ≡ some (stale, b''))
      × (b''.size ≡ minus_one)
ringbuf_read_after_drain b v ne = elim v.shape [
  | inl e ↦ absurd (ne (subst (λ c. contents c ≡ []) (sym e) refl))
  | inr (h, n, e, hh, hn) ↦
      subst
        (λ c.
          (b' : Ringbuf) × (ringbuf_read_mem c (to_ℕ c.size) ≡ ok (pos 0, contents c, b'))
          × (stale : ℕ) × (b'' : Ringbuf) × (ringbuf_read b' ≡ some (stale, b''))
          × (b''.size ≡ minus_one))
        (sym e) (drained h n b.bytes hh hn)
]
