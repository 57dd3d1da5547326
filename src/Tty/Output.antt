-- ===== src/Tty/Output.antt =====
-- src/tty.c: the loop of tty_refresh that prints the whole output buffer.
use wuros.Prelude.{
  ℕ, zero, suc, ◌≤◌, ◌≡◌, refl, sym, ap, ◌∙◌, ◌≢◌, inl, inr, true, false, subst, List, [], ◌∷◌,
  some, Outcome, ok, ◌>>=◌, arith, length, length-eq-zero, to_ℕ,
}
use wuros.Ringbuf.{Ringbuf, ringbuf_size, ringbuf_is_empty, ringbuf_read}
use wuros.Ringbuf.Valid.{IsValid, busy_buffer, contents, length-contents}
use wuros.Ringbuf.Refine.{ringbuf_read-Popped}
use wuros.Tty.{Tty, update, drain}
use wuros.Tty.Cursor.{OnScreen, update-Stays}

-- The terminal after its output is printed
abbrev pub Drains : Tty → Outcome Tty → Type 0
Drains t r =
    (t' : Tty) × (r ≡ ok t')
    × OnScreen t'
    × (t'.io_input ≡ t.io_input)
    × IsValid t'.io_output
    × (contents t'.io_output ≡ [])

empty-of_contents : (b : Ringbuf) → IsValid b → contents b ≡ [] → ringbuf_is_empty b ≡ true
empty-of_contents b v nothing = elim v.shape [
  | inl e ↦ subst (λ r. ringbuf_is_empty r ≡ true) (sym e) refl
  | inr (h, n, e, hh, hn) ↦ absurd (no_item h n b.bytes (ap contents (sym e) ∙ nothing))
]
  where
    no_item : (h n : ℕ) (bytes : List ℕ) → contents (busy_buffer h n bytes) ≢ []
    no_item h n bytes e = omega (arith, ap length e, length-contents (busy_buffer h n bytes))

busy-of_contents :
    (b : Ringbuf) (x : ℕ) (xs : List ℕ)
    → IsValid b
    → contents b ≡ x ∷ xs
    → ringbuf_is_empty b ≡ false
busy-of_contents b x xs v some_item = elim v.shape [
  | inl e ↦ absurd (ground (arith, ap (λ r. length (contents r)) e, ap length some_item))
  | inr (h, n, e, hh, hn) ↦ subst (λ r. ringbuf_is_empty r ≡ false) (sym e) refl
]

set_output-OnScreen : (t : Tty) (b : Ringbuf) → OnScreen t → OnScreen (record t { io_output = b })
set_output-OnScreen t b v = record { column = v.column; row = v.row; size = v.size }

pub length-contents-le : (b : Ringbuf) → IsValid b → length (contents b) ≤ ringbuf_size
length-contents-le b v = elim v.shape [
  | inl e ↦ omega (arith, length-contents b, ap (λ r. to_ℕ r.size) e)
  | inr (h, n, e, hh, hn) ↦ omega (arith, length-contents b, ap (λ r. to_ℕ r.size) e)
]

drain_done : (fuel : ℕ) (t : Tty) → ringbuf_is_empty t.io_output ≡ true → drain fuel t ≡ ok t
unfolding drain
drain_done zero t e = rw (e, drain) refl
drain_done (suc fuel) t e = rw (e, drain) refl

drain_one :
    (fuel : ℕ) (t : Tty) (c : ℕ) (b : Ringbuf)
    → ringbuf_is_empty t.io_output ≡ false
    → ringbuf_read t.io_output ≡ some (c, b)
    → drain (suc fuel) t ≡ (update (record t { io_output = b }) c >>= drain fuel)
unfolding drain
drain_one fuel t c b e h = rw (e, drain) (rw h refl)

pub drain-Drains :
    (fuel : ℕ) (t : Tty)
    → OnScreen t
    → IsValid t.io_output
    → length (contents t.io_output) ≤ fuel
    → Drains t (drain fuel t)
drain-Drains zero t v valid enough =
    let nothing = length-eq-zero (contents t.io_output) (omega arith) in
    (t, drain_done zero t (empty-of_contents t.io_output valid nothing), v, refl, valid, nothing)
drain-Drains (suc fuel) t v valid enough = elim (ringbuf_read-Popped t.io_output valid) [
  | inl (nothing, h) ↦ (
    t,
    drain_done (suc fuel) t (empty-of_contents t.io_output valid nothing),
    v,
    refl,
    valid,
    nothing,
  )
  | inr (c, b, h, valid_b, split) ↦
      let t1 : Tty = record t { io_output = b } in
      let (t2, e2, v2, i2, o2) = update-Stays t1 c (set_output-OnScreen t b v) in
      let (t3, e3, v3, i3, valid3, nothing) =
        drain-Drains fuel t2 v2 (subst IsValid (sym o2) valid_b)
          (omega (arith, ap length split, ap (λ r. length (contents r)) o2)) in
      (
        t3,
        drain_one fuel t c b (busy-of_contents t.io_output c (contents b) valid split) h
            ∙ ap (λ r. r >>= drain fuel) e2
            ∙ e3,
        v3,
        i3 ∙ i2,
        valid3,
        nothing,
      )
]
