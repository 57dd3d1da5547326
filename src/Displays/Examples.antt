-- ===== src/Displays/Examples.antt =====
-- include/test.h at concrete inputs.
use wuros.Prelude.{◌≡◌, refl, pos, minus_one, codes}
use wuros.Proc.{active}
use wuros.Displays.{decimal, digits, number_field, signed_decimal, proc_line, state_letter}
use wuros.Samples.{process}

number_of_four_digits : number_field 5 (pos 2047) ≡ codes " 2047"
unfolding number_field signed_decimal decimal digits
number_of_four_digits = refl

number_below_zero : number_field 5 minus_one ≡ codes "   -1"
unfolding number_field signed_decimal decimal digits
number_below_zero = refl

number_too_wide : number_field 5 (pos 1234567) ≡ codes "1234567"
unfolding number_field signed_decimal decimal digits
number_too_wide = refl

a_line :
    proc_line 4
      (record (process 12 active) { name = codes "shell"; run_time = pos 230; cpu_time = pos 7 })
    ≡ codes "    4     12     A       230       7    shell"
unfolding proc_line number_field signed_decimal decimal digits state_letter
a_line = refl
