-- ===== src/Queue/Refine.antt =====
-- A valid queue behaves as the first-in first-out list of its contents.
use wuros.Prelude.{
  ℕ, zero, suc, ◌+◌, ◌%◌, ◌<◌, ◌≡◌, refl, sym, ap, ◌∙◌, ◌⊎◌, inl, inr, ℤ, pos, minus_one, List, [],
  ◌∷◌, ◌++◌, Option, none, some, arith, length, get_or, set, length-set, get_or-set_self, subst,
  Bool-cases, ◌==◌,
}
use wuros.Circular.{circular_push, circular_clear}
use wuros.Fifo
use wuros.Fifo.{Op, put, get, Reply, refused, got, answers}
use wuros.Queue.{Queue, queue_size, enqueue, dequeue, queue_in, queue_out, queue_init}
use wuros.Queue.Valid.{
  IsValid, contents, length-contents, queue_init-IsValid, contents-queue_init, empty_queue,
  busy_queue,
}

-- What `queue_in` may have done, seen through the contents.
abbrev pub Pushed : Queue → ℤ → Option Queue → Type 0
Pushed q x r =
    ((length (contents q) ≡ queue_size) × (r ≡ none))
    ⊎ ((q' : Queue) × (r ≡ some q')
        × IsValid q'
        × (contents q' ≡ contents q ++ x ∷ [])
        × (length (contents q) < queue_size))

abbrev pub Popped : Queue → Option (ℤ × Queue) → Type 0
Popped q r =
    ((contents q ≡ []) × (r ≡ none))
    ⊎ ((x : ℤ) × (q' : Queue) × (r ≡ some (x, q')) × IsValid q' × (contents q ≡ x ∷ contents q'))

enqueue_empty :
    (items : List ℤ) (x : ℤ) → enqueue (empty_queue items) x ≡ busy_queue 0 0 (set items 0 x)
unfolding enqueue
enqueue_empty items x = refl

enqueue_busy :
    (h n : ℕ) (items : List ℤ) (x : ℤ)
    → enqueue (busy_queue h n items) x
      ≡ busy_queue h (suc n) (set items ((h + suc n) % queue_size) x)
unfolding enqueue
enqueue_busy h n items x = ground arith

busy-IsValid :
    (h n : ℕ) (items : List ℤ)
    → h < queue_size
    → n < queue_size
    → length items ≡ queue_size
    → IsValid (busy_queue h n items)
busy-IsValid h n items hh hn hs = record { storage = hs; shape = inr (h, n, refl, hh, hn) }

in_empty :
    (items : List ℤ) (x : ℤ)
    → length items ≡ queue_size
    → Pushed (empty_queue items) x (queue_in (empty_queue items) x)
unfolding queue_in
in_empty items x hs = inr (
  busy_queue 0 0 (set items 0 x),
  refl,
  busy-IsValid 0 0 (set items 0 x) (omega arith) (omega arith) (length-set items 0 x ∙ hs),
  ap (λ y. y ∷ []) (get_or-set_self items 0 x minus_one (omega arith)),
  omega arith,
)

in_busy :
    (h n : ℕ) (items : List ℤ) (x : ℤ)
    → h < queue_size
    → n < queue_size
    → length items ≡ queue_size
    → Pushed (busy_queue h n items) x (queue_in (busy_queue h n items) x)
unfolding queue_in
in_busy h n items x hh hn hs = elim (Bool-cases (suc n == queue_size)) [
  | inl full ↦ inl (ground (arith, length-contents (busy_queue h n items)), rw full)
  | inr free ↦ inr (
    busy_queue h (suc n) stored,
    rw free (ap some (enqueue_busy h n items x)),
    busy-IsValid h (suc n) stored hh (ground arith) (length-set items _ x ∙ hs),
    circular_push minus_one queue_size items x h (suc n) (omega arith) hh (ground arith),
    ground (arith, length-contents (busy_queue h n items)),
  )
]
  where
    stored : List ℤ
    stored = set items ((h + suc n) % queue_size) x

-- `queue_in` appends to the contents and keeps the invariant; it fails on a full queue only.
pub queue_in-Pushed : (q : Queue) (x : ℤ) → IsValid q → Pushed q x (queue_in q x)
queue_in-Pushed q x v = elim v.shape [
  | inl e ↦ subst (λ r. Pushed r x (queue_in r x)) (sym e) (in_empty q.items x v.storage)
  | inr (h, n, e, hh, hn) ↦
      subst (λ r. Pushed r x (queue_in r x)) (sym e) (in_busy h n q.items x hh hn v.storage)
]

dequeue_last :
    (h : ℕ) (items : List ℤ)
    → h < queue_size
    → dequeue (busy_queue h 0 items)
      ≡ queue_init (record (busy_queue h 0 items) { items = set items h (pos 0) })
unfolding dequeue
dequeue_last h items hh = ground arith

dequeue_more :
    (h n : ℕ) (items : List ℤ)
    → h < queue_size
    → suc n < queue_size
    → dequeue (busy_queue h (suc n) items)
      ≡ busy_queue ((h + 1) % queue_size) n (set items h (pos 0))
unfolding dequeue
dequeue_more h n items hh hn = ground arith

out_busy :
    (h n : ℕ) (items : List ℤ)
    → h < queue_size
    → n < queue_size
    → length items ≡ queue_size
    → Popped (busy_queue h n items) (queue_out (busy_queue h n items))
unfolding queue_out
out_busy h zero items hh hn hs = inr (
  get_or items h minus_one,
  queue_init cleared,
  ap (λ q. some (get_or items h minus_one, q)) (dequeue_last h items hh),
  queue_init-IsValid cleared (length-set items h (pos 0) ∙ hs),
  ap (λ xs. get_or items h minus_one ∷ xs) (sym (contents-queue_init cleared)),
)
  where
    cleared : Queue
    cleared = record (busy_queue h 0 items) { items = set items h (pos 0) }
out_busy h (suc n) items hh hn hs = inr (
  get_or items h minus_one,
  busy_queue ((h + 1) % queue_size) n (set items h (pos 0)),
  ground (arith, dequeue_more h n items hh hn),
  busy-IsValid ((h + 1) % queue_size) n (set items h (pos 0)) (omega arith) (omega arith)
      (length-set items h (pos 0) ∙ hs),
  ap (λ xs. get_or items h minus_one ∷ xs)
      (sym (circular_clear minus_one queue_size items (pos 0) h (suc n) hh (omega arith))),
)

-- `queue_out` takes the oldest item off the contents and keeps the invariant; it fails on an empty
-- queue only.
pub queue_out-Popped : (q : Queue) → IsValid q → Popped q (queue_out q)
unfolding queue_out
queue_out-Popped q v = elim v.shape [
  | inl e ↦ subst (λ r. Popped r (queue_out r)) (sym e) (inl (refl, refl))
  | inr (h, n, e, hh, hn) ↦
      subst (λ r. Popped r (queue_out r)) (sym e) (out_busy h n q.items hh hn v.storage)
]

-- What a client sees of a queue, and of the list.
abbrev pub queue_answers : Queue → List (Op ℤ) → List (Reply ℤ)
queue_answers = answers queue_in queue_out

abbrev pub list_answers : List ℤ → List (Op ℤ) → List (Reply ℤ)
list_answers = answers (Fifo.push queue_size) Fifo.pop

-- No sequence of queue_in and queue_out calls tells a valid queue from the first-in first-out list
-- of at most 32 items that starts with its contents: every call answers alike.
pub queue_refines_fifo :
    (ops : List (Op ℤ)) (q : Queue)
    → IsValid q
    → queue_answers q ops ≡ list_answers (contents q) ops
unfolding answers
queue_refines_fifo [] q v = refl
queue_refines_fifo (put x ∷ ops) q v = elim (queue_in-Pushed q x v) [
  | inl (full, e) ↦ ground (arith, e, full, queue_refines_fifo ops q v)
  | inr (q', e, v', c, room) ↦ ground (arith, e, c, room, queue_refines_fifo ops q' v')
]
queue_refines_fifo (get ∷ ops) q v = elim (queue_out-Popped q v) [
  | inl (none_left, e) ↦ rw (e, none_left, answers) (ap (◌∷◌ refused) (queue_refines_fifo ops q v))
  | inr (x, q', e, v', c) ↦ rw (e, c, answers) (ap (◌∷◌ (got x)) (queue_refines_fifo ops q' v'))
]

-- The two successful calls, at contents that are known.
pub queue_out_first :
    (q : Queue) (x : ℤ) (xs : List ℤ)
    → IsValid q
    → contents q ≡ x ∷ xs
    → (q' : Queue) × (queue_out q ≡ some (x, q')) × IsValid q' × (contents q' ≡ xs)
queue_out_first q x xs v c = elim (queue_out-Popped q v) [
  | inl (none_left, e) ↦ absurd (cc)
  | inr (y, q', e, v', c') ↦ (q', cc, v', cc)
]

pub queue_out-none : (q : Queue) → IsValid q → contents q ≡ [] → queue_out q ≡ none
queue_out-none q v c = elim (queue_out-Popped q v) [
  | inl (none_left, e) ↦ e
  | inr (y, q', e, v', c') ↦ absurd (cc)
]

pub queue_in_last :
    (q : Queue) (x : ℤ)
    → IsValid q
    → length (contents q) < queue_size
    → (q' : Queue) × (queue_in q x ≡ some q') × IsValid q' × (contents q' ≡ contents q ++ x ∷ [])
queue_in_last q x v h = elim (queue_in-Pushed q x v) [
  | inl (full, e) ↦ absurd (omega arith)
  | inr (q', e, v', c', room) ↦ (q', e, v', c')
]
