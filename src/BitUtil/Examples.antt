-- ===== src/BitUtil/Examples.antt =====
-- src/bit_util.c at concrete inputs.
use wuros.Prelude.{◌≡◌, refl, pos, ok, stop, fault, arith, ◌-◌}
use wuros.Prelude.Bits.{bit}
use wuros.BitUtil.{shift_of, bit_count, bit_test, bit_set, bit_clear, bit_toggle}
use wuros.Prelude.Masks.{changed}
use wuros.BitUtil.Digits.{HasDigit, bit_ops_change}

bit_ops_change_example :
    HasDigit 3 (changed 3 3 1 (bit 3 5)) (bit_set 5 (pos 4))
    × HasDigit 3 (changed 3 3 0 (bit 3 5)) (bit_clear 5 (pos 4))
    × HasDigit 3 (changed 3 3 (1 - bit 3 5) (bit 3 5)) (bit_toggle 5 (pos 4))
    × (bit_test 5 (pos 4) ≡ ok (bit 3 5))
bit_ops_change_example = bit_ops_change 3 3 5 (omega arith) (omega arith)

-- -1 has 32 digits that are 1.
count_of_minus_one : bit_count 4294967295 ≡ ok 0
unfolding bit_count
count_of_minus_one = refl

bit_0 : bit_set 5 (pos 0) ≡ stop fault
unfolding bit_set shift_of
bit_0 = refl
