-- ===== src/Fifo.antt =====
-- What src/queue.c and src/ringbuf.c promise: a first-in first-out list of at most `room` items.
use wuros.Prelude.{ℕ, List, [], ◌∷◌, ◌++◌, Option, none, some, ◌==◌, if◌then◌else◌, length}

module _ {ℓ} {A : Type ℓ} where
  abbrev pub push : ℕ → List A → A → Option (List A)
  push room xs x = if length xs == room then none else some (xs ++ x ∷ [])

  abbrev pub pop : List A → Option (A × List A)
  pop [] = none
  pop (x ∷ xs) = some (x, xs)

-- A client's calls, and what it sees of each.
pub data Op {ℓ} (A : Type ℓ) : Type ℓ where
  put : A → Op A
  get : Op A

pub data Reply {ℓ} (A : Type ℓ) : Type ℓ where
  stored refused : Reply A
  got : A → Reply A

-- The answers of a container with an insertion and a removal that may fail.
module _ {ℓ κ} {A : Type ℓ} {S : Type κ} (insert : S → A → Option S)
    (take_out : S → Option (A × S)) where
  unfoldable pub answers : S → List (Op A) → List (Reply A)
  answers s [] = []
  answers s (put x ∷ ops) = elim (insert s x) [
    | none ↦ refused ∷ answers s ops
    | some s' ↦ stored ∷ answers s' ops
  ]
  answers s (get ∷ ops) = elim (take_out s) [
    | none ↦ refused ∷ answers s ops
    | some (x, s') ↦ got x ∷ answers s' ops
  ]
