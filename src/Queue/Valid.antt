-- ===== src/Queue/Valid.antt =====
-- The representation invariant of `queue_t`, and what a queue holds.
use wuros.Prelude.{
  ℕ, suc, ◌+◌, ◌%◌, ◌≤◌, ◌<◌, ◌≡◌, refl, ◌∙◌, ◌⊎◌, inl, inr, ℤ, pos, to_ℕ, minus_one, List, [],
  arith, length, length-fill,
}
use wuros.Circular.{circular, length-circular}
use wuros.Queue.{Queue, queue_size, queue_init}

-- An empty queue has both indices at -1.
abbrev pub empty_queue : List ℤ → Queue
empty_queue items = record { head = minus_one; tail = minus_one; size = 0; items = items }

-- `n + 1` items from index `h` on
abbrev pub busy_queue : ℕ → ℕ → List ℤ → Queue
busy_queue h n items = record {
  head = pos h;
  tail = pos ((h + n) % queue_size);
  size = suc n;
  items = items;
}

abbrev pub Shape : Queue → Type 0
Shape q =
    (q ≡ empty_queue q.items)
    ⊎ ((h : ℕ) × (n : ℕ) × (q ≡ busy_queue h n q.items) × (h < queue_size) × (n < queue_size))

pub record IsValid (q : Queue) : Type 0 where
  pub storage : length q.items ≡ queue_size
  pub shape : Shape q

-- The items, oldest first.
abbrev pub contents : Queue → List ℤ
contents q = circular minus_one queue_size q.items (to_ℕ q.head) q.size

pub length-contents : (q : Queue) → length (contents q) ≡ q.size
length-contents q = length-circular minus_one queue_size q.items (to_ℕ q.head) q.size

pub size-le : (q : Queue) → IsValid q → q.size ≤ queue_size
size-le q v = elim v.shape [
  | inl e ↦ omega (arith, ap_size e)
  | inr (h, n, e, hh, hn) ↦ omega (arith, ap_size e)
]
  where
    ap_size : {r : Queue} → q ≡ r → q.size ≡ r.size
    ap_size e = λ i. (e i).size

pub queue_init-IsValid : (q : Queue) → length q.items ≡ queue_size → IsValid (queue_init q)
unfolding queue_init
queue_init-IsValid q h = record {
  storage = length-fill queue_size 0 minus_one q.items ∙ h;
  shape = inl refl;
}

pub contents-queue_init : (q : Queue) → contents (queue_init q) ≡ []
unfolding queue_init
contents-queue_init q = refl
