-- ===== src/Ringbuf/Valid.antt =====
-- The representation invariant of `ringbuf_t`, and what a buffer holds.
use wuros.Prelude.{
  ℕ, suc, ◌+◌, ◌%◌, ◌<◌, ◌≡◌, refl, ◌∙◌, ◌⊎◌, inl, pos, to_ℕ, minus_one, List, [], length,
  length-fill,
}
use wuros.Circular.{circular, length-circular}
use wuros.Ringbuf.{Ringbuf, ringbuf_size, ringbuf_init}

-- An empty buffer has both indices at -1.
abbrev pub empty_buffer : List ℕ → Ringbuf
empty_buffer bytes = record { head = minus_one; tail = minus_one; size = pos 0; bytes = bytes }

-- `n + 1` bytes from index `h` on
abbrev pub busy_buffer : ℕ → ℕ → List ℕ → Ringbuf
busy_buffer h n bytes = record {
  head = pos h;
  tail = pos ((h + n) % ringbuf_size);
  size = pos (suc n);
  bytes = bytes;
}

abbrev pub Shape : Ringbuf → Type 0
Shape b =
    (b ≡ empty_buffer b.bytes)
    ⊎ ((h : ℕ) × (n : ℕ) × (b ≡ busy_buffer h n b.bytes) × (h < ringbuf_size) × (n < ringbuf_size))

pub record IsValid (b : Ringbuf) : Type 0 where
  pub storage : length b.bytes ≡ ringbuf_size
  pub shape : Shape b

-- The bytes, oldest first.
abbrev pub contents : Ringbuf → List ℕ
contents b = circular 0 ringbuf_size b.bytes (to_ℕ b.head) (to_ℕ b.size)

pub length-contents : (b : Ringbuf) → length (contents b) ≡ to_ℕ b.size
length-contents b = length-circular 0 ringbuf_size b.bytes (to_ℕ b.head) (to_ℕ b.size)

pub ringbuf_init-IsValid : (b : Ringbuf) → length b.bytes ≡ ringbuf_size → IsValid (ringbuf_init b)
unfolding ringbuf_init
ringbuf_init-IsValid b h = record {
  storage = length-fill ringbuf_size 0 0 b.bytes ∙ h;
  shape = inl refl;
}

pub contents-ringbuf_init : (b : Ringbuf) → contents (ringbuf_init b) ≡ []
unfolding ringbuf_init
contents-ringbuf_init b = refl
