-- ===== src/Prelude/Bits.antt =====
-- The binary digits of words: `bit n w` is the digit `n` of `w`, counted from 0, and `shl n w` is w << n.
use Prim.Native.Nat.{
  ℕ, zero, suc, ◌+◌, ◌-◌, ◌*◌, ◌/◌, ◌%◌, ◌≤◌, ◌<◌, min, max, bit_and, bit_or, bit_xor, bitwise,
  digits, differ, bit_and-bitwise, bit_or-bitwise, bit_xor-bitwise,
}
use mathlib.Core.Path.{◌≡◌, refl, sym, ap, ◌∙◌}
use mathlib.Core.Logic.{◌≢◌}
use native.Mathlib.Omega.{arith}

unfoldable pub bit : ℕ → ℕ → ℕ
bit zero w = w % 2
bit (suc n) w = bit n (w / 2)

unfoldable pub shl : ℕ → ℕ → ℕ
shl zero w = w
shl (suc n) w = shl n w * 2

pub bit-lt : (n w : ℕ) → bit n w < 2
unfolding bit
bit-lt zero w = omega arith
bit-lt (suc n) w = bit-lt n (w / 2)

digits_fuel :
    (z : ℕ → ℕ) (f : ℕ → ℕ → ℕ) (n m a b : ℕ) → a ≤ n → a ≤ m → digits z f n a b ≡ digits z f m a b
digits_fuel z f zero zero a b p q = refl
digits_fuel z f zero (suc m) zero b p q = refl
digits_fuel z f zero (suc m) (suc a) b p q = absurd (omega arith)
digits_fuel z f (suc n) zero zero b p q = refl
digits_fuel z f (suc n) zero (suc a) b p q = absurd (omega arith)
digits_fuel z f (suc n) (suc m) zero b p q = refl
digits_fuel z f (suc n) (suc m) (suc a) b p q =
    ap (λ x. x * 2 + f (suc a % 2) (b % 2))
      (digits_fuel z f n m (suc a / 2) (b / 2) (omega arith) (omega arith))

-- An operation on two digits that acts on words digit by digit
module _ (z : ℕ → ℕ) (f : ℕ → ℕ → ℕ) (tail : (b : ℕ) → z b ≡ z (b / 2) * 2 + f 0 (b % 2))
    (digit : (a b : ℕ) → f (a % 2) (b % 2) < 2) where
  bitwise_step : (a b : ℕ) → bitwise z f a b ≡ bitwise z f (a / 2) (b / 2) * 2 + f (a % 2) (b % 2)
  bitwise_step zero b = tail b
  bitwise_step (suc a) b =
      ap (λ x. x * 2 + f (suc a % 2) (b % 2))
        (digits_fuel z f a (suc a / 2) (suc a / 2) (b / 2) (omega arith) (omega arith))

  bit-bitwise : (n a b : ℕ) → bit n (bitwise z f a b) ≡ f (bit n a) (bit n b)
  unfolding bit
  bit-bitwise zero a b = omega (arith, bitwise_step a b, digit a b)
  bit-bitwise (suc n) a b = ap (bit n) half ∙ bit-bitwise n (a / 2) (b / 2)
    where
      half : bitwise z f a b / 2 ≡ bitwise z f (a / 2) (b / 2)
      half = omega (arith, bitwise_step a b, digit a b)

and_step : (a b : ℕ) → bit_and a b ≡ bit_and (a / 2) (b / 2) * 2 + min (a % 2) (b % 2)
and_step a b =
    bit_and-bitwise a b
    ∙ bitwise_step (λ b. zero) min (λ b. omega arith) (λ a b. omega arith) a b
    ∙ ap (λ x. x * 2 + min (a % 2) (b % 2)) (sym (bit_and-bitwise (a / 2) (b / 2)))

and_zero_within : (n a : ℕ) → a ≤ n → bit_and a 0 ≡ 0
and_zero_within n zero h = refl
and_zero_within zero (suc a) h = absurd (omega arith)
and_zero_within (suc n) (suc a) h =
    omega (arith, and_step (suc a) 0, and_zero_within n (suc a / 2) (omega arith))

pub bit_and-one : (a : ℕ) → bit_and a 1 ≡ a % 2
bit_and-one a = omega (arith, and_step a 1, and_zero_within (a / 2) (a / 2) (omega arith))

differ-lt : (x y : ℕ) → x < 2 → y < 2 → differ x y < 2
differ-lt zero y p q = q
differ-lt (suc x) zero p q = p
differ-lt (suc x) (suc y) p q = differ-lt x y (omega arith) (omega arith)

differ-differ : (x y : ℕ) → x < 2 → y < 2 → differ (differ x y) y ≡ x
differ-differ zero zero p q = refl
differ-differ zero (suc zero) p q = refl
differ-differ zero (suc (suc y)) p q = absurd (omega arith)
differ-differ (suc zero) zero p q = refl
differ-differ (suc zero) (suc zero) p q = refl
differ-differ (suc zero) (suc (suc y)) p q = absurd (omega arith)
differ-differ (suc (suc x)) y p q = absurd (omega arith)

pub bit-bit_and : (n a b : ℕ) → bit n (bit_and a b) ≡ min (bit n a) (bit n b)
bit-bit_and n a b =
    ap (bit n) (bit_and-bitwise a b)
    ∙ bit-bitwise (λ b. zero) min (λ b. omega arith) (λ a b. omega arith) n a b

pub bit-bit_or : (n a b : ℕ) → bit n (bit_or a b) ≡ max (bit n a) (bit n b)
bit-bit_or n a b =
    ap (bit n) (bit_or-bitwise a b)
    ∙ bit-bitwise (λ b. b) max (λ b. omega arith) (λ a b. omega arith) n a b

xor_tail : (b : ℕ) → b ≡ b / 2 * 2 + differ 0 (b % 2)
xor_tail b = omega arith

xor_digit : (a b : ℕ) → differ (a % 2) (b % 2) < 2
xor_digit a b = differ-lt (a % 2) (b % 2) (omega arith) (omega arith)

pub bit-bit_xor : (n a b : ℕ) → bit n (bit_xor a b) ≡ differ (bit n a) (bit n b)
bit-bit_xor n a b =
    ap (bit n) (bit_xor-bitwise a b) ∙ bit-bitwise (λ b. b) differ xor_tail xor_digit n a b

bit_xor_step : (a b : ℕ) → bit_xor a b ≡ bit_xor (a / 2) (b / 2) * 2 + differ (a % 2) (b % 2)
bit_xor_step a b =
    bit_xor-bitwise a b
    ∙ bitwise_step (λ b. b) differ xor_tail xor_digit a b
    ∙ ap (λ x. x * 2 + differ (a % 2) (b % 2)) (sym (bit_xor-bitwise (a / 2) (b / 2)))

xor_twice_within : (n a b : ℕ) → a ≤ n → b ≤ n → bit_xor (bit_xor a b) b ≡ a
xor_twice_within zero zero zero p q = refl
xor_twice_within zero (suc a) b p q = absurd (omega arith)
xor_twice_within zero zero (suc b) p q = absurd (omega arith)
xor_twice_within (suc n) a b p q = omega (
  arith,
  bit_xor_step (bit_xor a b) b,
  ap (λ x. bit_xor x (b / 2)) half,
  ap (λ x. differ x (b % 2)) low,
  differ-differ (a % 2) (b % 2) (omega arith) (omega arith),
  xor_twice_within n (a / 2) (b / 2) (omega arith) (omega arith),
)
  where
    half : bit_xor a b / 2 ≡ bit_xor (a / 2) (b / 2)
    half = omega (arith, bit_xor_step a b, xor_digit a b)

    low : bit_xor a b % 2 ≡ differ (a % 2) (b % 2)
    low = omega (arith, bit_xor_step a b, xor_digit a b)

pub xor_twice : (a b : ℕ) → bit_xor (bit_xor a b) b ≡ a
xor_twice a b = xor_twice_within (a + b) a b (omega arith) (omega arith)

pub bit-zero : (n : ℕ) → bit n 0 ≡ 0
unfolding bit
bit-zero zero = refl
bit-zero (suc n) = bit-zero n

pub bit-shl : (n : ℕ) → bit n (shl n 1) ≡ 1
unfolding bit shl
bit-shl zero = refl
bit-shl (suc n) = ap (bit n) half ∙ bit-shl n
  where
    half : shl n 1 * 2 / 2 ≡ shl n 1
    half = omega arith

pub bit-shl_ne : (m n : ℕ) → m ≢ n → bit m (shl n 1) ≡ 0
unfolding bit shl
bit-shl_ne zero zero ne = absurd (ne refl)
bit-shl_ne zero (suc n) ne = omega arith
bit-shl_ne (suc m) zero ne = bit-zero m
bit-shl_ne (suc m) (suc n) ne = ap (bit m) half ∙ bit-shl_ne m n (λ e. ne (ap suc e))
  where
    half : shl n 1 * 2 / 2 ≡ shl n 1
    half = omega arith

-- A digit that stands above does not change those below.
pub bit-plus_shl : (m n w : ℕ) → m < n → bit m (w + shl n 1) ≡ bit m w
unfolding bit shl
bit-plus_shl m zero w h = absurd (omega arith)
bit-plus_shl zero (suc n) w h = omega arith
bit-plus_shl (suc m) (suc n) w h = ap (bit m) half ∙ bit-plus_shl m n (w / 2) (omega arith)
  where
    half : (w + shl n 1 * 2) / 2 ≡ w / 2 + shl n 1
    half = omega arith

-- The word of `n` ones
unfoldable pub ones : ℕ → ℕ
ones zero = 0
ones (suc n) = ones n * 2 + 1

-- ~w on words of `k` digits
pub bit-complement : (k m w : ℕ) → w ≤ ones k → m < k → bit m (ones k - w) ≡ 1 - bit m w
unfolding bit ones
bit-complement zero m w le h = absurd (omega arith)
bit-complement (suc k) zero w le h = omega arith
bit-complement (suc k) (suc m) w le h =
    ap (bit m) half ∙ bit-complement k m (w / 2) (omega arith) (omega arith)
  where
    half : (ones k * 2 + 1 - w) / 2 ≡ ones k - w / 2
    half = omega arith

pub shl-le : (n k : ℕ) → n < k → shl n 1 ≤ ones k
unfolding shl ones
shl-le n zero h = absurd (omega arith)
shl-le zero (suc k) h = omega arith
shl-le (suc n) (suc k) h = omega (arith, shl-le n k (omega arith))

-- The word with the digit `m` only
pub bit_and-shl : (m w : ℕ) → bit_and w (shl m 1) ≡ bit m w * shl m 1
unfolding bit shl
bit_and-shl zero w = omega (arith, bit_and-one w)
bit_and-shl (suc m) w =
    grind (arith, and_step w (shl m 1 * 2), ap (bit_and (w / 2)) half, bit_and-shl m (w / 2))
  where
    half : shl m 1 * 2 / 2 ≡ shl m 1
    half = omega arith

pub shl-pos : (m : ℕ) → 0 < shl m 1
unfolding shl
shl-pos zero = omega arith
shl-pos (suc m) = omega (arith, shl-pos m)

-- A byte has the low digits of the word.
pub bit-byte : (m w : ℕ) → m < 8 → bit m (w % 256) ≡ bit m w
unfolding bit
bit-byte zero w h = omega arith
bit-byte (suc zero) w h = omega arith
bit-byte (suc (suc zero)) w h = omega arith
bit-byte (suc (suc (suc zero))) w h = omega arith
bit-byte (suc (suc (suc (suc zero)))) w h = omega arith
bit-byte (suc (suc (suc (suc (suc zero))))) w h = omega arith
bit-byte (suc (suc (suc (suc (suc (suc zero)))))) w h = omega arith
bit-byte (suc (suc (suc (suc (suc (suc (suc zero))))))) w h = omega arith
bit-byte (suc (suc (suc (suc (suc (suc (suc (suc m)))))))) w h = absurd (omega arith)
