-- ===== src/Keyboard/Examples.antt =====
-- src/keyboard.c at concrete inputs.
use wuros.Prelude.{◌≡◌, refl, ok, true, false, arith, ◌>>=◌, stop, exited}
use wuros.Keyboard.{Keyboard, select, keyboard_init, keyboard_decode}
use wuros.Keyboard.Decode.{Decodes, keyboard_decode-Decodes}

abbrev initial : Keyboard
initial = record {
  caps_lock_on = true;
  shift_l_on = false;
  shift_r_on = false;
  numlock_on = false;
  ctrl_l_on = false;
  ctrl_r_on = false;
  alt_l_on = true;
  alt_r_on = false;
  esc_counter = 2;
}

keyboard_decode-Decodes_example : Decodes initial 1 (keyboard_decode initial 1)
keyboard_decode-Decodes_example = keyboard_decode-Decodes initial 1 (omega arith)

decode_3 : keyboard_decode initial 4 ≡ ok (0, select 3, record initial { esc_counter = 0 })
unfolding keyboard_decode
decode_3 = refl

-- Three times escape from the start
exits :
    (keyboard_decode keyboard_init 1 >>= λ r.
    keyboard_decode r.2 1 >>= λ r2. keyboard_decode r2.2 1)
    ≡ stop exited
unfolding keyboard_decode keyboard_init
exits = refl
