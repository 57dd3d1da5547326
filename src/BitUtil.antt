-- ===== src/BitUtil.antt =====
-- src/bit_util.c: counting and changing the bits of an int, which is the word of its 32 bits here. The
-- bits are numbered from 1; a shift by a negative number or by 32 and more is undefined behaviour.
pub mod Digits
mod Examples
use Prim.Native.Nat.{bit_and, bit_or, bit_xor}
use wuros.Prelude.{
  ℕ, zero, suc, ◌+◌, ◌-◌, ◌/◌, ◌%◌, ℤ, pos, negsuc, ◌==◌, ltb, leb, ◌||◌, if◌then◌else◌, Outcome,
  ok, stop, fault, no_fuel, ◌>>=◌,
}
use wuros.Prelude.Bits.{shl, ones}

-- The word of INT_MIN: a word from there on is a negative int.
abbrev pub sign_bit : ℕ
sign_bit = 2147483648

-- The loop of bit_count
count_loop : ℕ → ℕ → ℕ → Outcome ℕ
count_loop fuel count zero = ok count
count_loop zero count (suc value) = stop no_fuel
count_loop (suc fuel) count (suc value) =
    count_loop fuel (count + bit_and (suc value) 1) (suc value / 2)

-- The loop runs for positive numbers only, which have at most 31 digits.
pub bit_count : ℕ → Outcome ℕ
unfolding count_loop
bit_count value = if (value == 0) || leb sign_bit value then ok 0 else count_loop 31 0 value

-- bit - 1, where a shift by it is defined
unfoldable pub shift_of : ℤ → Outcome ℕ
shift_of (pos zero) = stop fault
shift_of (pos (suc n)) = if ltb n 32 then ok n else stop fault
shift_of (negsuc n) = stop fault

-- value >> n, which keeps the sign
pub sar : ℕ → ℕ → ℕ
sar zero value = value
sar (suc n) value = sar n (if ltb value sign_bit then value / 2 else value / 2 + sign_bit)

unfoldable pub bit_test : ℕ → ℤ → Outcome ℕ
unfolding sar
bit_test value bit = do n ← shift_of bit; ok (bit_and (sar n value) 1)

pub bit_set : ℕ → ℤ → Outcome ℕ
bit_set value bit = do n ← shift_of bit; ok (bit_or value (shl n 1))

pub bit_clear : ℕ → ℤ → Outcome ℕ
bit_clear value bit = do n ← shift_of bit; ok (bit_and value (ones 32 - shl n 1))

pub bit_toggle : ℕ → ℤ → Outcome ℕ
bit_toggle value bit = do n ← shift_of bit; ok (bit_xor value (shl n 1))
