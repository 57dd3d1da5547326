-- ===== src/Ksyscall/Read.antt =====
-- src/ksyscall.c: what ksyscall_io_read stores.
use wuros.Prelude.{
  ℕ, zero, suc, ◌-◌, ◌≤◌, ◌≡◌, refl, sym, ap, ◌∙◌, inl, inr, ℤ, pos, to_ℕ, subst, List, [], ◌∷◌,
  ◌++◌, true, none, some, get_or, Outcome, ok, ◌>>=◌, arith, length, take, replicate, min,
}
use wuros.Ringbuf.{Ringbuf, ringbuf_read, ringbuf_flush, ringbuf_init}
use wuros.Ringbuf.Valid.{
  IsValid, contents, length-contents, ringbuf_init-IsValid, contents-ringbuf_init,
}
use wuros.Ringbuf.Refine.{ringbuf_read-Popped}
use wuros.Proc.{IoBuf, proc_at}
use wuros.Ksyscall.{
  Console, get_buffer, put_buffer, get_bytes, bounded, read_from, read_by, ksyscall_io_read,
}

-- The last item, or `c` where there is none
abbrev pub last_or : ℕ → List ℕ → ℕ
last_or c [] = c
last_or c (x ∷ xs) = last_or x xs

-- The first `n` bytes, and the last of all again as often as bytes are missing
abbrev pub served : ℕ → ℕ → List ℕ → List ℕ
served n c xs = take n xs ++ replicate (n - length xs) (last_or c xs)

served_none : (n c : ℕ) → served n c [] ≡ replicate n c
served_none zero c = refl
served_none (suc n) c = ap (λ k. replicate k c) whole
  where
    whole : suc n - 0 ≡ suc n
    whole = omega arith

served_one : (n c x : ℕ) (xs : List ℕ) → served (suc n) c (x ∷ xs) ≡ x ∷ served n x xs
served_one n c x xs = ap (λ k. x ∷ (take n xs ++ replicate k (last_or x xs))) same
  where
    same : suc n - suc (length xs) ≡ n - length xs
    same = omega arith

get_bytes_one :
    (n c x : ℕ) (b b' : Ringbuf)
    → ringbuf_read b ≡ some (x, b')
    → get_bytes (suc n) c b ≡ (x ∷ (get_bytes n x b').0, (get_bytes n x b').1)
unfolding get_bytes
get_bytes_one n c x b b' h = rw (h, get_bytes) refl

get_bytes-none :
    (n c : ℕ) (b : Ringbuf)
    → ringbuf_read b ≡ none
    → get_bytes (suc n) c b ≡ (c ∷ (get_bytes n c b).0, (get_bytes n c b).1)
unfolding get_bytes
get_bytes-none n c b h = rw (h, get_bytes) refl

pub get_bytes-served :
    (n c : ℕ) (b : Ringbuf)
    → IsValid b
    → ((get_bytes n c b).0 ≡ served n c (contents b)) × IsValid (get_bytes n c b).1
unfolding get_bytes
get_bytes-served zero c b v = (nothing_asked (contents b), v)
  where
    nothing_asked : (xs : List ℕ) → [] ≡ served 0 c xs
    nothing_asked xs = ap (λ k. replicate k (last_or c xs)) none_left
      where
        none_left : 0 ≡ 0 - length xs
        none_left = omega arith
get_bytes-served (suc n) c b v = elim (ringbuf_read-Popped b v) [
  | inl (nothing, h) ↦
      let (same, v1) = get_bytes-served n c b v in
      (
        ap (λ r. r.0) (get_bytes-none n c b h)
            ∙ ap (λ l. c ∷ l) (same ∙ ap (served n c) nothing ∙ served_none n c)
            ∙ sym (ap (served (suc n) c) nothing ∙ served_none (suc n) c),
        subst IsValid (sym (ap (λ r. r.1) (get_bytes-none n c b h))) v1,
      )
  | inr (x, b', h, v', split) ↦
      let (same, v1) = get_bytes-served n x b' v' in
      (
        ap (λ r. r.0) (get_bytes_one n c x b b' h)
            ∙ ap (λ l. x ∷ l) same
            ∙ sym (ap (served (suc n) c) split ∙ served_one n c x (contents b')),
        subst IsValid (sym (ap (λ r. r.1) (get_bytes_one n c x b b' h))) v1,
      )
]

size-eq : (b : Ringbuf) → IsValid b → b.size ≡ pos (length (contents b))
size-eq b v = elim v.shape [
  | inl e ↦ counted 0 (ap (λ r. r.size) e)
  | inr (h, n, e, hh, hn) ↦ counted (suc n) (ap (λ r. r.size) e)
]
  where
    counted : (k : ℕ) → b.size ≡ pos k → b.size ≡ pos (length (contents b))
    counted k h = h ∙ sym (ap pos (length-contents b ∙ ap to_ℕ h))

bounded-eq-min : (m n : ℕ) → bounded (pos m) n ≡ pos (min n m)
unfolding bounded
bounded-eq-min m n = ground arith

-- ksyscall_io_read of `n` bytes from the input or the output buffer of the active process: the result
-- is the smaller one of `n` and the number of bytes that the buffer holds. It stores `n` bytes all the
-- same: those of the buffer, then the last one (or NUL) again. The buffer is empty afterwards: the
-- bytes beyond the first `n` are lost.
pub ksyscall_io_read-served :
    (c : Console) (a k n : ℕ) (p : IoBuf) (b : Ringbuf)
    → k ≤ 1
    → c.procs.active_proc ≡ some a
    → get_or (proc_at c.procs a).io k none ≡ some p
    → get_buffer c.ttys p ≡ ok b
    → IsValid b
    → (b' : Ringbuf) × (ksyscall_io_read c (pos k) true (pos n)
        ≡ ok (
          pos (min n (length (contents b))),
          served n 0 (contents b),
          record c { ttys = put_buffer c.ttys p b' },
        ))
      × IsValid b'
      × (contents b' ≡ [])
unfolding ksyscall_io_read read_by read_from ringbuf_flush
ksyscall_io_read-served c a k n p b le act has held v =
    let (same, v1) = get_bytes-served n 0 b v in
    let b1 = (get_bytes n 0 b).1 in
    (
      ringbuf_init b1,
      in_range
          ∙ ap (read_by c k n) act
          ∙ ap (read_from c n) has
          ∙ ap (λ r. r >>= done) held
          ∙ ap (λ z. ok (z, (get_bytes n 0 b).0, after))
              (ap (λ z. bounded z n) (size-eq b v) ∙ bounded-eq-min (length (contents b)) n)
          ∙ ap (λ l. ok (pos (min n (length (contents b))), l, after)) same,
      ringbuf_init-IsValid b1 v1.storage,
      contents-ringbuf_init b1,
    )
  where
    after : Console
    after = record c { ttys = put_buffer c.ttys p (ringbuf_init (get_bytes n 0 b).1) }

    done : Ringbuf → Outcome (ℤ × List ℕ × Console)
    done b =
        let r = get_bytes n 0 b in
        ok (bounded b.size n, r.0, record c { ttys = put_buffer c.ttys p (ringbuf_flush r.1) })

    in_range : ksyscall_io_read c (pos k) true (pos n) ≡ read_by c k n c.procs.active_proc
    in_range = ground arith
