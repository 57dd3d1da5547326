-- ===== src/Keyboard.antt =====
-- include/keyboard.h and src/keyboard.c: decoding scan codes. A call into another part of the
-- kernel that keyboard_decode makes is part of its result.
pub mod Keys
pub mod Decode
pub mod Right
pub mod Input
mod Examples
use wuros.Prelude.{
  ℕ, ◌+◌, ◌-◌, ◌%◌, ◌==◌, leb, ◌&&◌, ◌||◌, not, Bool, true, false, if◌then◌else◌, List, [], ◌∷◌,
  Outcome, ok, stop, exited, ◌>>=◌,
}
use wuros.Keyboard.Keys.{
  Modifier, ctrl_l, ctrl_r, shift_l, shift_r, alt_l, alt_r, Key, plain, shifted, letter, numpad,
  press, release, caps_lock, num_lock, keys,
}

-- The special key states
pub record Keyboard : Type 0 where
  pub caps_lock_on : Bool
  pub shift_l_on : Bool
  pub shift_r_on : Bool
  pub numlock_on : Bool
  pub ctrl_l_on : Bool
  pub ctrl_r_on : Bool
  pub alt_l_on : Bool
  pub alt_r_on : Bool
  pub esc_counter : ℕ

-- A call that keyboard_decode makes: none, kernel_set_log_level with the level one lower or one
-- higher, tty_select, kproc_create for a user process `test`, kproc_destroy of the active process.
pub data Call : Type 0 where
  no_call lower_log_level raise_log_level create destroy : Call
  select : ℕ → Call

-- keyboard_init, before it registers its handler
unfoldable pub keyboard_init : Keyboard
keyboard_init = record {
  caps_lock_on = false;
  shift_l_on = false;
  shift_r_on = false;
  numlock_on = false;
  ctrl_l_on = false;
  ctrl_r_on = false;
  alt_l_on = false;
  alt_r_on = false;
  esc_counter = 0;
}

pub shift_decode : Keyboard → ℕ → ℕ → ℕ
shift_decode k soff_ascii son_ascii = if k.shift_l_on || k.shift_r_on then son_ascii else soff_ascii

-- a == b for bool
abbrev pub same : Bool → Bool → Bool
same true b = b
same false b = not b

pub letter_decode : Keyboard → ℕ → ℕ → ℕ
letter_decode k lowercase uppercase =
    let shift = if k.shift_l_on || k.shift_r_on then true else false in
    if same k.caps_lock_on (not shift) then uppercase else lowercase

pub numlock_decode : Keyboard → ℕ → ℕ → ℕ
numlock_decode k num func_nav = if k.numlock_on then num else func_nav

pub hold : Modifier → Bool → Keyboard → Keyboard
hold ctrl_l b k = record k { ctrl_l_on = b }
hold ctrl_r b k = record k { ctrl_r_on = b }
hold shift_l b k = record k { shift_l_on = b }
hold shift_r b k = record k { shift_r_on = b }
hold alt_l b k = record k { alt_l_on = b }
hold alt_r b k = record k { alt_r_on = b }

pub find_key : List (ℕ × Key) → ℕ → Key
find_key [] c = plain 0
find_key ((code, key) ∷ rest) c = if code == c then key else find_key rest c

-- What a case of the switch does: the value of `d`, and the key states
pub apply_key : Key → Keyboard → ℕ × Keyboard
unfolding hold shift_decode letter_decode numlock_decode
apply_key (plain d) k = (d, k)
apply_key (shifted off on) k = (shift_decode k off on, k)
apply_key (letter lower upper) k = (letter_decode k lower upper, k)
apply_key (numpad num nav) k = (numlock_decode k num nav, k)
apply_key (press m) k = (0, hold m true k)
apply_key (release m) k = (0, hold m false k)
apply_key caps_lock k = (0, record k { caps_lock_on = not k.caps_lock_on })
apply_key num_lock k = (0, record k { numlock_on = not k.numlock_on })

-- The escape key, pressed three times in a row, exits the kernel. Its release changes nothing.
pub count_esc : ℕ → ℕ → Keyboard → Outcome Keyboard
count_esc c d k =
    if d == 27
    then if (k.esc_counter + 1) == 3
      then stop exited
      else ok (record k { esc_counter = k.esc_counter + 1 })
    else if c == 129
    then ok k
    else ok (record k { esc_counter = 0 })

-- The key combinations, tested in this order
pub react : ℕ → Keyboard → ℕ × Call
react d k =
    let ctrl = k.ctrl_l_on || k.ctrl_r_on in
    let alt = k.alt_l_on || k.alt_r_on in
    if (d == 45) && ctrl
    then (0, lower_log_level)
    else if (d == 61) && ctrl
    then (0, raise_log_level)
    else if (leb 48 d && leb d 57) && alt
    then (0, select (d - 48))
    else if (d == 110) && ctrl
    then (0, create)
    else if (d == 113) && ctrl
    then (0, destroy)
    else (d, no_call)

pub keyboard_decode : Keyboard → ℕ → Outcome (ℕ × Call × Keyboard)
unfolding find_key apply_key count_esc react
keyboard_decode k c =
    let r = apply_key (find_key keys c) k in
    do k' ← count_esc c r.0 r.1; let a = react r.0 k'; ok (a.0, a.1, k')
