-- ===== src/Prelude/Masks.antt =====
-- What the masks 1 << n and ~(1 << n) do to each digit of a word of 32 bits.
use Prim.Native.Nat.{ℕ, zero, suc, ◌-◌, ◌<◌, min, max, bit_and, bit_or, bit_xor, differ}
use mathlib.Core.Path.{◌≡◌, refl, sym, ap, ◌∙◌}
use mathlib.Core.Logic.{◌≢◌, inl, inr}
use native.Mathlib.Omega.{arith}
use wuros.Prelude.Tests.{◌==◌, if◌then◌else◌, Bool-cases}
use wuros.Prelude.Bits.{
  bit, bit-lt, shl, ones, bit-bit_and, bit-bit_or, bit-bit_xor, bit-shl, bit-shl_ne, bit-complement,
  shl-le,
}

-- A digit with the place `m`, where the digit at the place `n` becomes `v`
abbrev pub changed : ℕ → ℕ → ℕ → ℕ → ℕ
changed n m v x = if m == n then v else x

by_place : (n m v x d : ℕ) → (m ≡ n → d ≡ v) → (m ≢ n → d ≡ x) → d ≡ changed n m v x
by_place n m v x d here there = elim (Bool-cases (m == n)) [
  | inl same ↦ here (ground arith) ∙ ap (λ b. if b then v else x) (sym same)
  | inr other ↦ there (λ e. ground arith) ∙ ap (λ b. if b then v else x) (sym other)
]

max_one : (x : ℕ) → x < 2 → max x 1 ≡ 1
max_one x h = omega arith

min_one : (x : ℕ) → x < 2 → min x (1 - 0) ≡ x
min_one x h = omega arith

min_zero : (x : ℕ) → min x (1 - 1) ≡ 0
min_zero x = omega arith

max_zero : (x : ℕ) → max x 0 ≡ x
max_zero x = omega arith

differ_one : (x : ℕ) → x < 2 → differ x 1 ≡ 1 - x
differ_one zero h = refl
differ_one (suc zero) h = refl
differ_one (suc (suc x)) h = absurd (omega arith)

differ_zero : (x : ℕ) → differ x 0 ≡ x
differ_zero zero = refl
differ_zero (suc x) = refl

-- The digit `m` of a word with 1 << n, and of its complement
mask : (n m : ℕ) → (m ≡ n → bit m (shl n 1) ≡ 1) × (m ≢ n → bit m (shl n 1) ≡ 0)
mask n m = (λ same. ap (λ k. bit k (shl n 1)) same ∙ bit-shl n, bit-shl_ne m n)

pub set_digit : (n m w : ℕ) → bit m (bit_or w (shl n 1)) ≡ changed n m 1 (bit m w)
set_digit n m w =
    bit-bit_or m w (shl n 1)
    ∙ by_place n m 1 (bit m w) _
        (λ same. ap (max (bit m w)) ((mask n m).0 same) ∙ max_one (bit m w) (bit-lt m w))
        (λ other. ap (max (bit m w)) ((mask n m).1 other) ∙ max_zero (bit m w))

pub clear_digit :
    (n m w : ℕ) → n < 32 → m < 32 → bit m (bit_and w (ones 32 - shl n 1)) ≡ changed n m 0 (bit m w)
clear_digit n m w hn hm =
    bit-bit_and m w (ones 32 - shl n 1)
    ∙ ap (min (bit m w)) (bit-complement 32 m (shl n 1) (shl-le n 32 hn) hm)
    ∙ by_place n m 0 (bit m w) _
        (λ same. ap (λ x. min (bit m w) (1 - x)) ((mask n m).0 same) ∙ min_zero (bit m w))
        (λ other.
          ap (λ x. min (bit m w) (1 - x)) ((mask n m).1 other) ∙ min_one (bit m w) (bit-lt m w))

pub toggle_digit : (n m w : ℕ) → bit m (bit_xor w (shl n 1)) ≡ changed n m (1 - bit m w) (bit m w)
toggle_digit n m w =
    bit-bit_xor m w (shl n 1)
    ∙ by_place n m (1 - bit m w) (bit m w) _
        (λ same. ap (differ (bit m w)) ((mask n m).0 same) ∙ differ_one (bit m w) (bit-lt m w))
        (λ other. ap (differ (bit m w)) ((mask n m).1 other) ∙ differ_zero (bit m w))
