-- ===== src/Keyboard/Right.antt =====
-- src/keyboard.c: the keys whose scan codes do not fit in the byte that keyboard_scan reads.
use wuros.Prelude.{
  ℕ, ◌<◌, ◌≤◌, ◌≡◌, refl, ap, ◌∙◌, subst, sym, inl, inr, ◌==◌, ltb, ◌&&◌, not, Bool, true, false,
  Bool-cases, if◌then◌else◌, List, [], ◌∷◌, Outcome, ok, stop, exited, ◌>>=◌, arith,
}
use wuros.Keyboard.Keys.{
  Modifier, ctrl_l, ctrl_r, shift_l, shift_r, alt_l, alt_r, Key, plain, shifted, letter, numpad,
  press, release, caps_lock, num_lock, keys,
}
use wuros.Keyboard.{Keyboard, Call, hold, find_key, apply_key, count_esc, react, keyboard_decode}
use wuros.Keyboard.Decode.{count_esc-Counts, apply_key-esc_counter}

is_right : Modifier → Bool
is_right ctrl_r = true
is_right alt_r = true
is_right m = false

-- A key that leaves the right ctrl and alt keys alone
leaves_right : Key → Bool
unfolding is_right
leaves_right (press m) = not (is_right m)
leaves_right (release m) = not (is_right m)
leaves_right key = true

-- Every case for a byte does.
bytes_leave_right : List (ℕ × Key) → Bool
unfolding leaves_right
bytes_leave_right [] = true
bytes_leave_right ((code, key) ∷ rest) =
    (if ltb code 256 then leaves_right key else true) && bytes_leave_right rest

bytes_leave_right-keys : bytes_leave_right keys ≡ true
unfolding bytes_leave_right
bytes_leave_right-keys = refl

both : (a b : Bool) → (a && b) ≡ true → (a ≡ true) × (b ≡ true)
both true b h = (refl, h)
both false b h = absurd (ground arith)

find_key-leaves_right :
    (table : List (ℕ × Key)) (c : ℕ)
    → c < 256
    → bytes_leave_right table ≡ true
    → leaves_right (find_key table c) ≡ true
unfolding find_key bytes_leave_right
find_key-leaves_right [] c lt h = refl
find_key-leaves_right ((code, key) ∷ rest) c lt h =
    let (here, others) =
      both (if ltb code 256 then leaves_right key else true) (bytes_leave_right rest) h in
    elim (Bool-cases (code == c)) [
      | inl found ↦
          rw (found, find_key)
            (subst (λ b. (if b then leaves_right key else true) ≡ true) (small code c lt found)
              here)
      | inr other ↦ rw (other, find_key) (find_key-leaves_right rest c lt others)
    ]
  where
    small : (code c : ℕ) → c < 256 → (code == c) ≡ true → ltb code 256 ≡ true
    small code c lt found = ground arith

-- The flags of the right ctrl and alt keys are those of `k`.
abbrev pub SameRight : Keyboard → Keyboard → Type 0
SameRight k k' = (k'.ctrl_r_on ≡ k.ctrl_r_on) × (k'.alt_r_on ≡ k.alt_r_on)

apply_key-SameRight :
    (key : Key) (k : Keyboard) → leaves_right key ≡ true → SameRight k (apply_key key k).1
unfolding apply_key hold leaves_right
apply_key-SameRight (plain d) k h = (refl, refl)
apply_key-SameRight (shifted off on) k h = (refl, refl)
apply_key-SameRight (letter lower upper) k h = (refl, refl)
apply_key-SameRight (numpad num nav) k h = (refl, refl)
apply_key-SameRight (press ctrl_l) k h = (refl, refl)
apply_key-SameRight (press ctrl_r) k h = absurd (ground arith)
apply_key-SameRight (press shift_l) k h = (refl, refl)
apply_key-SameRight (press shift_r) k h = (refl, refl)
apply_key-SameRight (press alt_l) k h = (refl, refl)
apply_key-SameRight (press alt_r) k h = absurd (ground arith)
apply_key-SameRight (release ctrl_l) k h = (refl, refl)
apply_key-SameRight (release ctrl_r) k h = absurd (ground arith)
apply_key-SameRight (release shift_l) k h = (refl, refl)
apply_key-SameRight (release shift_r) k h = (refl, refl)
apply_key-SameRight (release alt_l) k h = (refl, refl)
apply_key-SameRight (release alt_r) k h = absurd (ground arith)
apply_key-SameRight caps_lock k h = (refl, refl)
apply_key-SameRight num_lock k h = (refl, refl)

-- A scan code of one byte, the only kind that keyboard_scan returns, never changes the states of the
-- right ctrl and the right alt key, whose cases are codes of two bytes.
pub keyboard_decode-SameRight :
    (k k' : Keyboard) (c d : ℕ) (call : Call)
    → c < 256
    → k.esc_counter ≤ 2
    → keyboard_decode k c ≡ ok (d, call, k')
    → SameRight k k'
unfolding keyboard_decode
keyboard_decode-SameRight k k' c d call lt few run =
    let r = apply_key (find_key keys c) k in
    let same =
      apply_key-SameRight (find_key keys c) k
        (find_key-leaves_right keys c lt bytes_leave_right-keys) in
    elim (count_esc-Counts c r.0 r.1
      (subst (λ n. n ≤ 2) (sym (apply_key-esc_counter (find_key keys c) k)) few)) [
        | inl (esc, two, e) ↦ absurd (stopped r.0 e)
        | inr (n, escapes, le, e) ↦
            let last : record r.1 { esc_counter = n } ≡ k' =
              ap keyboard_of (sym (ap (λ m. m >>= answer r.0) e) ∙ run) in
            (sym (ap (λ x. x.ctrl_r_on) last) ∙ same.0, sym (ap (λ x. x.alt_r_on) last) ∙ same.1)
      ]
  where
    answer : ℕ → Keyboard → Outcome (ℕ × Call × Keyboard)
    answer d k' = ok ((react d k').0, (react d k').1, k')

    keyboard_of : Outcome (ℕ × Call × Keyboard) → Keyboard
    keyboard_of (ok (d, call, k')) = k'
    keyboard_of (stop s) = k

    stopped :
        (d1 : ℕ)
        → count_esc c (apply_key (find_key keys c) k).0 (apply_key (find_key keys c) k).1
          ≡ stop exited
        → ⊥
    stopped d1 e =
        ground (arith, sym (ap (λ m. m >>= answer (apply_key (find_key keys c) k).0) e) ∙ run)
