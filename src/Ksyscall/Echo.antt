-- ===== src/Ksyscall/Echo.antt =====
-- src/ksyscall.c: what ksyscall_io_write puts into a buffer, ksyscall_io_read takes out of it.
use wuros.Prelude.{
  take_all, ℕ, zero, suc, ◌+◌, ◌-◌, ◌≤◌, ◌≡◌, refl, sym, ap, ap₂, ◌∙◌, inl, inr, ℤ, pos, true, List,
  [], ◌∷◌, ◌++◌, append-nil, Option, none, some, get_or, get_elem?, get_elem?-lt,
  get_elem?-set_self, Option-cases, set, Outcome, ok, stop, fault, length, length-append, take,
  replicate, min, arith,
}
use wuros.Ringbuf.{Ringbuf, ringbuf_size}
use wuros.Ringbuf.Valid.{IsValid, contents}
use wuros.Proc.{IoBuf, input, output, proc_at}
use wuros.Tty.{Tty, Ttys}
use wuros.Ksyscall.{Console, get_buffer, put_buffer, ksyscall_io_write, ksyscall_io_read}
use wuros.Ksyscall.Write.{ksyscall_io_write-Appends}
use wuros.Ksyscall.Read.{served, last_or, ksyscall_io_read-served}

fault≢ok : (b : Ringbuf) → stop fault ≡ ok b → ⊥
fault≢ok b e = cc

-- A pointer that could be read through can be written through, and gives back what was written.
get_buffer-put_buffer :
    (s : Ttys) (p : IoBuf) (b b' : Ringbuf)
    → get_buffer s p ≡ ok b
    → get_buffer (put_buffer s p b') p ≡ ok b'
unfolding get_buffer put_buffer
get_buffer-put_buffer s (input n) b b' h = elim (Option-cases (get_elem? s.tty_table n)) [
  | inl e ↦ absurd (fault≢ok b (sym (ap at e) ∙ h))
  | inr (t, e) ↦
      ap (λ o. get_buffer (put o) (input n)) e
      ∙ ap at (
          get_elem?-set_self s.tty_table n (record t { io_input = b' })
            (get_elem?-lt s.tty_table n t e))
]
  where
    at : Option Tty → Outcome Ringbuf
    at o = elim o [ none ↦ stop fault | some t ↦ ok t.io_input ]

    put : Option Tty → Ttys
    put o = elim o [
      | none ↦ s
      | some t ↦ record s { tty_table = set s.tty_table n (record t { io_input = b' }) }
    ]
get_buffer-put_buffer s (output n) b b' h = elim (Option-cases (get_elem? s.tty_table n)) [
  | inl e ↦ absurd (fault≢ok b (sym (ap at e) ∙ h))
  | inr (t, e) ↦
      ap (λ o. get_buffer (put o) (output n)) e
      ∙ ap at (
          get_elem?-set_self s.tty_table n (record t { io_output = b' })
            (get_elem?-lt s.tty_table n t e))
]
  where
    at : Option Tty → Outcome Ringbuf
    at o = elim o [ none ↦ stop fault | some t ↦ ok t.io_output ]

    put : Option Tty → Ttys
    put o = elim o [
      | none ↦ s
      | some t ↦ record s { tty_table = set s.tty_table n (record t { io_output = b' }) }
    ]

served_all : (xs : List ℕ) → served (length xs) 0 xs ≡ xs
served_all xs =
    ap (λ k. take (length xs) xs ++ replicate k (last_or 0 xs)) nothing
    ∙ append-nil (take (length xs) xs)
    ∙ take_all (length xs) xs (omega arith)
  where
    nothing : length xs - length xs ≡ 0
    nothing = omega arith

length-take_le : (n : ℕ) (xs : List ℕ) → n ≤ length xs → length (take n xs) ≡ n
length-take_le zero xs h = refl
length-take_le (suc n) [] h = absurd (omega arith)
length-take_le (suc n) (x ∷ xs) h = ap suc (length-take_le n xs (omega arith))

-- ksyscall_io_write of `n` bytes that fit, and then ksyscall_io_read of all that the buffer holds: the
-- result is their number, and the bytes stored are those that the buffer held, then the `n` in order.
pub ksyscall_io_read-io_write :
    (c : Console) (a i n : ℕ) (mem : List ℕ) (p : IoBuf) (b : Ringbuf)
    → i ≤ 1
    → n ≤ length mem
    → c.procs.active_proc ≡ some a
    → get_or (proc_at c.procs a).io i none ≡ some p
    → get_buffer c.ttys p ≡ ok b
    → IsValid b
    → length (contents b) + n ≤ ringbuf_size
    → let size = length (contents b) + n in
      (c1 : Console) × (c2 : Console) × (ksyscall_io_write c (pos i) (some mem) (pos n)
        ≡ ok (pos n, c1))
      × (ksyscall_io_read c1 (pos i) true (pos size) ≡ ok (pos size, contents b ++ take n mem, c2))
ksyscall_io_read-io_write c a i n mem p b le fits act has held v room =
    let size = length (contents b) + n in
    let (b1, wrote, v1, c1) = ksyscall_io_write-Appends c a i n mem p b le fits act has held v in
    let whole : contents b1 ≡ contents b ++ take n mem =
      c1
      ∙ ap (λ l. contents b ++ l)
          (take_all (ringbuf_size - length (contents b)) (take n mem)
            (omega (arith, length-take_le n mem fits))) in
    let count : length (contents b1) ≡ size =
      ap length whole
      ∙ omega (arith, length-append (contents b) (take n mem), length-take_le n mem fits) in
    let after : Console = record c { ttys = put_buffer c.ttys p b1 } in
    let (b2, read, v2, e2) =
      ksyscall_io_read-served after a i size p b1 le act has
        (get_buffer-put_buffer c.ttys p b b1 held) v1 in
    (
      after,
      record after { ttys = put_buffer after.ttys p b2 },
      wrote,
      read
          ∙ ap (ok_of after b2) (
              ap₂ both (all count) (
                ap (λ k. served k 0 (contents b1)) (sym count) ∙ served_all (contents b1) ∙ whole)),
    )
  where
    both : ℕ → List ℕ → ℕ × List ℕ
    both m l = (m, l)

    ok_of : Console → Ringbuf → ℕ × List ℕ → Outcome (ℤ × List ℕ × Console)
    ok_of after b2 r = ok (pos r.0, r.1, record after { ttys = put_buffer after.ttys p b2 })

    all : {k m : ℕ} → k ≡ m → min m k ≡ m
    all e = omega (arith, e)
