-- ===== src/BitUtil/Digits.antt =====
-- src/bit_util.c: what the functions do to each digit of a word.
use Prim.Native.Nat.{bit_and, bit_or, bit_xor}
use wuros.Prelude.{
  ℕ, zero, suc, ◌+◌, ◌-◌, ◌/◌, ◌%◌, ◌≤◌, ◌<◌, ◌≡◌, refl, sym, ap, ◌∙◌, pos, ltb, leb, ◌==◌, ◌||◌,
  Bool, true, false, Bool-cases, inl, inr, if◌then◌else◌, Outcome, ok, stop, fault, ◌>>=◌, arith,
  ◌⊎◌,
}
use wuros.Prelude.Bits.{bit, bit_and-one, shl, ones, xor_twice, bit-plus_shl, bit-zero}
use wuros.Prelude.Masks.{changed, set_digit, clear_digit, toggle_digit}
use wuros.BitUtil.{
  sign_bit, count_loop, bit_count, shift_of, sar, bit_test, bit_set, bit_clear, bit_toggle,
}

shift_of-eq-ok : (n : ℕ) → n < 32 → shift_of (pos (suc n)) ≡ ok n
unfolding shift_of
shift_of-eq-ok n h = ap (λ b. if b then ok n else stop fault) inside
  where
    inside : ltb n 32 ≡ true
    inside = ground arith

shifted : (n : ℕ) (f : ℕ → ℕ) → n < 32 → (shift_of (pos (suc n)) >>= λ m. ok (f m)) ≡ ok (f n)
shifted n f h = ap (λ r. r >>= λ m. ok (f m)) (shift_of-eq-ok n h)

-- Shifting right, the digit `n` comes to the lowest place.
sar-bit : (n w : ℕ) → n < 32 → sar n w % 2 ≡ bit n w
unfolding sar bit shl
sar-bit zero w h = refl
sar-bit (suc n) w h = elim (Bool-cases (ltb w sign_bit)) [
  | inl plus ↦ rw plus (sar-bit n (w / 2) (omega arith))
  | inr minus ↦
      rw minus
        (sar-bit n (w / 2 + sign_bit) (omega arith) ∙ bit-plus_shl n 31 (w / 2) (omega arith))
]

-- The operation ends with a word whose digit at the place `m` is `d`.
abbrev pub HasDigit : ℕ → ℕ → Outcome ℕ → Type 0
HasDigit m d r = (w' : ℕ) × (r ≡ ok w') × (bit m w' ≡ d)

-- bit_set, bit_clear and bit_toggle of the bit `n` + 1 of a word of 32 bits set it, clear it and flip
-- it, and leave each other bit `m` + 1; bit_test tells its value.
pub bit_ops_change :
    (n m w : ℕ)
    → n < 32
    → m < 32
    → HasDigit m (changed n m 1 (bit m w)) (bit_set w (pos (suc n)))
      × HasDigit m (changed n m 0 (bit m w)) (bit_clear w (pos (suc n)))
      × HasDigit m (changed n m (1 - bit m w) (bit m w)) (bit_toggle w (pos (suc n)))
      × (bit_test w (pos (suc n)) ≡ ok (bit n w))
unfolding bit_set bit_clear bit_toggle bit_test
bit_ops_change n m w h hm = (
  (bit_or w (shl n 1), shifted n (λ n. bit_or w (shl n 1)) h, set_digit n m w),
  (
    bit_and w (ones 32 - shl n 1),
    shifted n (λ n. bit_and w (ones 32 - shl n 1)) h,
    clear_digit n m w h hm,
  ),
  (bit_xor w (shl n 1), shifted n (λ n. bit_xor w (shl n 1)) h, toggle_digit n m w),
  shifted n (λ n. bit_and (sar n w) 1) h ∙ ap ok (bit_and-one (sar n w) ∙ sar-bit n w h),
)

-- bit_toggle twice of the same bit gives back the word.
pub bit_toggle_twice :
    (n w : ℕ) → n < 32 → (bit_toggle w (pos (suc n)) >>= λ w'. bit_toggle w' (pos (suc n))) ≡ ok w
unfolding bit_toggle
bit_toggle_twice n w h =
    ap (λ r. r >>= λ w'. shift_of (pos (suc n)) >>= λ m. ok (bit_xor w' (shl m 1)))
      (shifted n (λ n. bit_xor w (shl n 1)) h)
    ∙ shifted n (λ m. bit_xor (bit_xor w (shl n 1)) (shl m 1)) h
    ∙ ap ok (xor_twice w (shl n 1))

-- How many of the first `k` digits are 1
pub set_bits : ℕ → ℕ → ℕ
set_bits zero w = 0
set_bits (suc k) w = set_bits k w + bit k w

set_bits_step : (k w : ℕ) → set_bits (suc k) w ≡ w % 2 + set_bits k (w / 2)
unfolding set_bits bit
set_bits_step zero w = omega arith
set_bits_step (suc k) w = omega (arith, set_bits_step k w)

set_bits-zero : (k : ℕ) → set_bits k 0 ≡ 0
unfolding set_bits
set_bits-zero zero = refl
set_bits-zero (suc k) = omega (arith, set_bits-zero k, bit-zero k)

count_loop-eq-ok :
    (fuel count w : ℕ) → w ≤ ones fuel → count_loop fuel count w ≡ ok (count + set_bits fuel w)
unfolding count_loop ones
count_loop-eq-ok fuel count zero h = ap ok (omega (arith, set_bits-zero fuel))
count_loop-eq-ok zero count (suc w) h = absurd (omega arith)
count_loop-eq-ok (suc fuel) count (suc w) h =
    count_loop-eq-ok fuel (count + bit_and (suc w) 1) (suc w / 2) (omega arith)
    ∙ ap ok (omega (arith, bit_and-one (suc w), set_bits_step fuel (suc w)))

below : ones 31 ≡ 2147483647
unfolding ones
below = refl

not_zero : (w : ℕ) → (suc w == 0) ≡ false
not_zero w = ground arith

-- bit_count of a word ends; for a positive int it gives the number of the digits that are 1, and for a
-- negative one it gives 0, although such an int has a digit that is 1.
pub bit_count_cases :
    (w : ℕ)
    → ((w < sign_bit) × (bit_count w ≡ ok (set_bits 31 w)))
      ⊎ ((sign_bit ≤ w) × (bit_count w ≡ ok 0))
unfolding bit_count
bit_count_cases zero = inl (omega arith, ap ok (sym (set_bits-zero 31)))
bit_count_cases (suc w) = elim (Bool-cases (leb sign_bit (suc w))) [
  | inl minus ↦
      inr (ground arith, ap (λ b. if b then ok 0 else count_loop 31 0 (suc w)) (started minus))
  | inr plus ↦ inl (
    ground arith,
    ap (λ b. if b then ok 0 else count_loop 31 0 (suc w)) (started plus)
        ∙ count_loop-eq-ok 31 0 (suc w) (ground (arith, below))
        ∙ ap ok (omega arith),
  )
]
  where
    started : {b : Bool} → leb sign_bit (suc w) ≡ b → ((suc w == 0) || leb sign_bit (suc w)) ≡ b
    started h = ap (λ c. c || leb sign_bit (suc w)) (not_zero w) ∙ h
