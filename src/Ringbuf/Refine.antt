-- ===== src/Ringbuf/Refine.antt =====
-- A valid buffer behaves as the first-in first-out list of its contents.
use wuros.Prelude.{
  ℕ, zero, suc, ◌+◌, ◌%◌, ◌<◌, ◌≡◌, refl, sym, ap, ◌∙◌, ◌⊎◌, inl, inr, List, [], ◌∷◌, ◌++◌, Option,
  none, some, arith, length, get_or, set, length-set, get_or-set_self, subst, Bool-cases, ◌==◌,
}
use wuros.Circular.{circular_push}
use wuros.Fifo
use wuros.Fifo.{Op, put, get, Reply, refused, got, answers}
use wuros.Ringbuf.{Ringbuf, ringbuf_size, store, release, ringbuf_write, ringbuf_read, ringbuf_init}
use wuros.Ringbuf.Valid.{
  IsValid, contents, length-contents, ringbuf_init-IsValid, contents-ringbuf_init, empty_buffer,
  busy_buffer,
}

-- What `ringbuf_write` may have done, seen through the contents.
abbrev pub Pushed : Ringbuf → ℕ → Option Ringbuf → Type 0
Pushed b x r =
    ((length (contents b) ≡ ringbuf_size) × (r ≡ none))
    ⊎ ((b' : Ringbuf) × (r ≡ some b')
        × IsValid b'
        × (contents b' ≡ contents b ++ x ∷ [])
        × (length (contents b) < ringbuf_size))

abbrev pub Popped : Ringbuf → Option (ℕ × Ringbuf) → Type 0
Popped b r =
    ((contents b ≡ []) × (r ≡ none))
    ⊎ ((x : ℕ) × (b' : Ringbuf) × (r ≡ some (x, b')) × IsValid b' × (contents b ≡ x ∷ contents b'))

store_empty :
    (bytes : List ℕ) (x : ℕ) → store (empty_buffer bytes) x ≡ busy_buffer 0 0 (set bytes 0 x)
unfolding store
store_empty bytes x = refl

store_busy :
    (h n : ℕ) (bytes : List ℕ) (x : ℕ)
    → store (busy_buffer h n bytes) x
      ≡ busy_buffer h (suc n) (set bytes ((h + suc n) % ringbuf_size) x)
unfolding store
store_busy h n bytes x = ground arith

busy-IsValid :
    (h n : ℕ) (bytes : List ℕ)
    → h < ringbuf_size
    → n < ringbuf_size
    → length bytes ≡ ringbuf_size
    → IsValid (busy_buffer h n bytes)
busy-IsValid h n bytes hh hn hs = record { storage = hs; shape = inr (h, n, refl, hh, hn) }

in_empty :
    (bytes : List ℕ) (x : ℕ)
    → length bytes ≡ ringbuf_size
    → Pushed (empty_buffer bytes) x (ringbuf_write (empty_buffer bytes) x)
unfolding ringbuf_write
in_empty bytes x hs = inr (
  busy_buffer 0 0 (set bytes 0 x),
  refl,
  busy-IsValid 0 0 (set bytes 0 x) (omega arith) (omega arith) (length-set bytes 0 x ∙ hs),
  ap (λ y. y ∷ []) (get_or-set_self bytes 0 x 0 (omega arith)),
  omega arith,
)

in_busy :
    (h n : ℕ) (bytes : List ℕ) (x : ℕ)
    → h < ringbuf_size
    → n < ringbuf_size
    → length bytes ≡ ringbuf_size
    → Pushed (busy_buffer h n bytes) x (ringbuf_write (busy_buffer h n bytes) x)
unfolding ringbuf_write
in_busy h n bytes x hh hn hs = elim (Bool-cases (suc n == ringbuf_size)) [
  | inl full ↦ inl (ground (arith, length-contents (busy_buffer h n bytes)), rw full)
  | inr free ↦ inr (
    busy_buffer h (suc n) stored,
    rw free (ap some (store_busy h n bytes x)),
    busy-IsValid h (suc n) stored hh (ground arith) (length-set bytes _ x ∙ hs),
    circular_push 0 ringbuf_size bytes x h (suc n) (omega arith) hh (ground arith),
    ground (arith, length-contents (busy_buffer h n bytes)),
  )
]
  where
    stored : List ℕ
    stored = set bytes ((h + suc n) % ringbuf_size) x

-- `ringbuf_write` appends to the contents and keeps the invariant; it fails on a full buffer only.
pub ringbuf_write-Pushed : (b : Ringbuf) (x : ℕ) → IsValid b → Pushed b x (ringbuf_write b x)
ringbuf_write-Pushed b x v = elim v.shape [
  | inl e ↦ subst (λ r. Pushed r x (ringbuf_write r x)) (sym e) (in_empty b.bytes x v.storage)
  | inr (h, n, e, hh, hn) ↦
      subst (λ r. Pushed r x (ringbuf_write r x)) (sym e) (in_busy h n b.bytes x hh hn v.storage)
]

release_last :
    (h : ℕ) (bytes : List ℕ)
    → h < ringbuf_size
    → release (busy_buffer h 0 bytes) ≡ ringbuf_init (busy_buffer h 0 bytes)
unfolding release
release_last h bytes hh = ground arith

release_more :
    (h n : ℕ) (bytes : List ℕ)
    → h < ringbuf_size
    → suc n < ringbuf_size
    → release (busy_buffer h (suc n) bytes) ≡ busy_buffer ((h + 1) % ringbuf_size) n bytes
unfolding release
release_more h n bytes hh hn = ground arith

out_busy :
    (h n : ℕ) (bytes : List ℕ)
    → h < ringbuf_size
    → n < ringbuf_size
    → length bytes ≡ ringbuf_size
    → Popped (busy_buffer h n bytes) (ringbuf_read (busy_buffer h n bytes))
unfolding ringbuf_read
out_busy h zero bytes hh hn hs = inr (
  get_or bytes h 0,
  ringbuf_init (busy_buffer h 0 bytes),
  ap (λ b. some (get_or bytes h 0, b)) (release_last h bytes hh),
  ringbuf_init-IsValid (busy_buffer h 0 bytes) hs,
  ap (λ xs. get_or bytes h 0 ∷ xs) (sym (contents-ringbuf_init (busy_buffer h 0 bytes))),
)
out_busy h (suc n) bytes hh hn hs = inr (
  get_or bytes h 0,
  busy_buffer ((h + 1) % ringbuf_size) n bytes,
  ap (λ b. some (get_or bytes h 0, b)) (release_more h n bytes hh hn),
  busy-IsValid ((h + 1) % ringbuf_size) n bytes (omega arith) (omega arith) hs,
  refl,
)

-- `ringbuf_read` takes the oldest byte off the contents and keeps the invariant; it fails on an empty
-- buffer only.
pub ringbuf_read-Popped : (b : Ringbuf) → IsValid b → Popped b (ringbuf_read b)
unfolding ringbuf_read
ringbuf_read-Popped b v = elim v.shape [
  | inl e ↦ subst (λ r. Popped r (ringbuf_read r)) (sym e) (inl (refl, refl))
  | inr (h, n, e, hh, hn) ↦
      subst (λ r. Popped r (ringbuf_read r)) (sym e) (out_busy h n b.bytes hh hn v.storage)
]

-- What a client sees of a buffer, and of the list.
abbrev pub ringbuf_answers : Ringbuf → List (Op ℕ) → List (Reply ℕ)
ringbuf_answers = answers ringbuf_write ringbuf_read

abbrev pub list_answers : List ℕ → List (Op ℕ) → List (Reply ℕ)
list_answers = answers (Fifo.push ringbuf_size) Fifo.pop

-- No sequence of ringbuf_write and ringbuf_read calls tells a valid buffer from the first-in first-out list
-- of at most 1024 bytes that starts with its contents: every call answers alike.
pub ringbuf_refines_fifo :
    (ops : List (Op ℕ)) (b : Ringbuf)
    → IsValid b
    → ringbuf_answers b ops ≡ list_answers (contents b) ops
unfolding answers
ringbuf_refines_fifo [] b v = refl
ringbuf_refines_fifo (put x ∷ ops) b v = elim (ringbuf_write-Pushed b x v) [
  | inl (full, e) ↦ ground (arith, e, full, ringbuf_refines_fifo ops b v)
  | inr (b', e, v', c, room) ↦ ground (arith, e, c, room, ringbuf_refines_fifo ops b' v')
]
ringbuf_refines_fifo (get ∷ ops) b v = elim (ringbuf_read-Popped b v) [
  | inl (none_left, e) ↦
      rw (e, none_left, answers) (ap (◌∷◌ refused) (ringbuf_refines_fifo ops b v))
  | inr (x, b', e, v', c) ↦ rw (e, c, answers) (ap (◌∷◌ (got x)) (ringbuf_refines_fifo ops b' v'))
]
