-- ===== src/Ksyscall/Write.antt =====
-- src/ksyscall.c: what ksyscall_io_write appends to a buffer.
use wuros.Prelude.{
  ℕ, zero, suc, ◌-◌, ◌≤◌, ◌<◌, ◌≡◌, refl, sym, ap, ◌∙◌, inl, inr, ℤ, pos, List, [], ◌∷◌, ◌++◌,
  append-nil, append_assoc, none, some, get_or, Outcome, ok, ◌>>=◌, arith, length, take,
  length-append,
}
use wuros.Ringbuf.{Ringbuf, ringbuf_size}
use wuros.Ringbuf.Valid.{IsValid, contents}
use wuros.Ringbuf.Refine.{ringbuf_write-Pushed}
use wuros.Proc.{IoBuf, proc_at}
use wuros.Ksyscall.{
  Console, get_buffer, put_buffer, put_bytes, write_to, write_by, ksyscall_io_write,
}

-- The bytes that still fit are appended, the others are lost.
abbrev pub Appends : Ringbuf → List ℕ → Outcome Ringbuf → Type 0
Appends b bytes r =
    (b' : Ringbuf) × (r ≡ ok b')
    × IsValid b'
    × (contents b' ≡ contents b ++ take (ringbuf_size - length (contents b)) bytes)

take-nil : (k : ℕ) → take {A = ℕ} k [] ≡ []
take-nil zero = refl
take-nil (suc k) = refl

no_room :
    (xs ys : List ℕ) → length xs ≡ ringbuf_size → xs ≡ xs ++ take (ringbuf_size - length xs) ys
no_room xs ys full = sym (append-nil xs) ∙ ap (λ k. xs ++ take k ys) nothing
  where
    nothing : 0 ≡ ringbuf_size - length xs
    nothing = omega (arith, full)

one_more :
    (xs zs ys : List ℕ) (x : ℕ)
    → length xs < ringbuf_size
    → zs ≡ xs ++ x ∷ []
    → zs ++ take (ringbuf_size - length zs) ys ≡ xs ++ take (ringbuf_size - length xs) (x ∷ ys)
one_more xs zs ys x room same =
    ap (λ l. l ++ take (ringbuf_size - length zs) ys) same
    ∙ append_assoc xs (x ∷ []) (take (ringbuf_size - length zs) ys)
    ∙ ap (λ k. xs ++ take k (x ∷ ys)) left
  where
    left : suc (ringbuf_size - length zs) ≡ ringbuf_size - length xs
    left = omega (arith, ap length same, length-append xs (x ∷ []))

put_bytes-Appends :
    (n : ℕ) (mem : List ℕ) (b : Ringbuf)
    → IsValid b
    → n ≤ length mem
    → Appends b (take n mem) (put_bytes n mem b)
unfolding put_bytes
put_bytes-Appends zero mem b v le = (
  b,
  refl,
  v,
  sym (append-nil (contents b))
      ∙ ap (λ xs. contents b ++ xs) (sym (take-nil (ringbuf_size - length (contents b)))),
)
put_bytes-Appends (suc n) [] b v le = absurd (omega arith)
put_bytes-Appends (suc n) (x ∷ mem) b v le = elim (ringbuf_write-Pushed b x v) [
  | inl (full, h) ↦
      let (b1, e, v1, c) = put_bytes-Appends n mem b v (omega arith) in
      (
        b1,
        rw (h, put_bytes) e,
        v1,
        c
            ∙ sym (no_room (contents b) (take n mem) full)
            ∙ no_room (contents b) (x ∷ take n mem) full,
      )
  | inr (b', h, v', c', room) ↦
      let (b1, e, v1, c) = put_bytes-Appends n mem b' v' (omega arith) in
      (b1, rw (h, put_bytes) e, v1, c ∙ one_more (contents b) (contents b') (take n mem) x room c')
]

-- ksyscall_io_write of `n` bytes to the input or the output buffer of the active process: the buffer
-- gets the bytes that still fit, in order, and the others are lost; the result is `n` all the same.
pub ksyscall_io_write-Appends :
    (c : Console) (a k n : ℕ) (mem : List ℕ) (p : IoBuf) (b : Ringbuf)
    → k ≤ 1
    → n ≤ length mem
    → c.procs.active_proc ≡ some a
    → get_or (proc_at c.procs a).io k none ≡ some p
    → get_buffer c.ttys p ≡ ok b
    → IsValid b
    → (b' : Ringbuf) × (ksyscall_io_write c (pos k) (some mem) (pos n)
        ≡ ok (pos n, record c { ttys = put_buffer c.ttys p b' }))
      × IsValid b'
      × (contents b' ≡ contents b ++ take (ringbuf_size - length (contents b)) (take n mem))
unfolding ksyscall_io_write write_by write_to
ksyscall_io_write-Appends c a k n mem p b le fits act has held v =
    let (b', e, v', same) = put_bytes-Appends n mem b v fits in
    (
      b',
      in_range ∙ ap (write_by c k n mem) act ∙ writes has ∙ stored held ∙ ap (λ r. r >>= done) e,
      v',
      same,
    )
  where
    done : Ringbuf → Outcome (ℤ × Console)
    done b' = ok (pos n, record c { ttys = put_buffer c.ttys p b' })

    in_range :
        ksyscall_io_write c (pos k) (some mem) (pos n) ≡ write_by c k n mem c.procs.active_proc
    in_range = ground arith

    writes :
        get_or (proc_at c.procs a).io k none ≡ some p
        → write_by c k n mem (some a) ≡ write_to c n mem (some p)
    writes h = ap (write_to c n mem) h

    stored : get_buffer c.ttys p ≡ ok b → write_to c n mem (some p) ≡ (put_bytes n mem b >>= done)
    stored h = ap (λ r. r >>= λ b. put_bytes n mem b >>= done) h
