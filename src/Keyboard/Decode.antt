-- ===== src/Keyboard/Decode.antt =====
-- src/keyboard.c: what keyboard_decode answers, and the key states it keeps.
use wuros.Prelude.{
  suc, ◌≢◌, ℕ, ◌+◌, ◌-◌, ◌≤◌, ◌≡◌, refl, sym, ap, ◌∙◌, ◌⊎◌, inl, inr, ◌==◌, leb, ◌&&◌, ◌||◌, not,
  Bool, true, false, Bool-cases, if◌then◌else◌, Outcome, ok, stop, exited, ◌>>=◌, arith, subst,
}
use wuros.Keyboard.Keys.{
  ctrl_l, ctrl_r, shift_l, shift_r, alt_l, alt_r, Key, plain, shifted, letter, numpad, press,
  release, caps_lock, num_lock, keys,
}
use wuros.Keyboard.{
  Keyboard, Call, no_call, lower_log_level, raise_log_level, create, destroy, select, letter_decode,
  hold, find_key, apply_key, count_esc, react, keyboard_decode, same,
}

-- exclusive or
abbrev pub xor : Bool → Bool → Bool
xor true b = not b
xor false b = b

-- A letter is upper case exactly when one of caps lock and shift is on, but not both.
pub letter_decode-eq-xor :
    (k : Keyboard) (lower upper : ℕ)
    → letter_decode k lower upper
      ≡ (if xor k.caps_lock_on (k.shift_l_on || k.shift_r_on) then upper else lower)
unfolding letter_decode
letter_decode-eq-xor k lower upper = by_states k.caps_lock_on (k.shift_l_on || k.shift_r_on)
  where
    by_states :
        (caps shift : Bool)
        → (if same caps (not (if shift then true else false)) then upper else lower)
          ≡ (if xor caps shift then upper else lower)
    by_states true true = refl
    by_states true false = refl
    by_states false true = refl
    by_states false false = refl

pub apply_key-esc_counter :
    (key : Key) (k : Keyboard) → (apply_key key k).1.esc_counter ≡ k.esc_counter
unfolding apply_key hold
apply_key-esc_counter (plain d) k = refl
apply_key-esc_counter (shifted off on) k = refl
apply_key-esc_counter (letter lower upper) k = refl
apply_key-esc_counter (numpad num nav) k = refl
apply_key-esc_counter (press ctrl_l) k = refl
apply_key-esc_counter (press ctrl_r) k = refl
apply_key-esc_counter (press shift_l) k = refl
apply_key-esc_counter (press shift_r) k = refl
apply_key-esc_counter (press alt_l) k = refl
apply_key-esc_counter (press alt_r) k = refl
apply_key-esc_counter (release ctrl_l) k = refl
apply_key-esc_counter (release ctrl_r) k = refl
apply_key-esc_counter (release shift_l) k = refl
apply_key-esc_counter (release shift_r) k = refl
apply_key-esc_counter (release alt_l) k = refl
apply_key-esc_counter (release alt_r) k = refl
apply_key-esc_counter caps_lock k = refl
apply_key-esc_counter num_lock k = refl

-- The count `n` of escape keys that follows the count `e`: one more for an escape key that is not the
-- third, the same for its release, and 0 for every other scan code
abbrev pub Escapes : ℕ → ℕ → ℕ → ℕ → Type 0
Escapes e c d n =
    ((d ≡ 27) × (e ≢ 2) × (n ≡ suc e))
    ⊎ ((d ≢ 27) × (c ≡ 129) × (n ≡ e))
    ⊎ ((d ≢ 27) × (c ≢ 129) × (n ≡ 0))

-- What count_esc may do
abbrev pub Counts : ℕ → ℕ → Keyboard → Outcome Keyboard → Type 0
Counts c d k r =
    ((d ≡ 27) × (k.esc_counter ≡ 2) × (r ≡ stop exited))
    ⊎ ((n : ℕ) × Escapes k.esc_counter c d n × (n ≤ 2) × (r ≡ ok (record k { esc_counter = n })))

is_eq : {m n : ℕ} → (m == n) ≡ true → m ≡ n
is_eq h = ground arith

is_ne : {m n : ℕ} → (m == n) ≡ false → m ≢ n
is_ne h e = ground arith

pub count_esc-Counts : (c d : ℕ) (k : Keyboard) → k.esc_counter ≤ 2 → Counts c d k (count_esc c d k)
unfolding count_esc
count_esc-Counts c d k le = elim (Bool-cases (d == 27)) [
  | inl esc ↦ elim (Bool-cases ((k.esc_counter + 1) == 3)) [
    | inl third ↦ inl (ground arith, ground arith, rw (esc, third) refl)
    | inr fewer ↦
        let early : k.esc_counter ≢ 2 = λ e. ground arith in
        let next : k.esc_counter + 1 ≡ suc k.esc_counter = omega arith in
        inr (k.esc_counter + 1, inl (is_eq esc, early, next), ground arith, rw (esc, fewer) refl)
  ]
  | inr other ↦ elim (Bool-cases (c == 129)) [
    | inl released ↦ inr (
      k.esc_counter,
      inr (inl (is_ne other, is_eq released, refl)),
      le,
      rw (other, released) refl,
    )
    | inr key ↦ inr (0, inr (inr (is_ne other, is_ne key, refl)), omega arith, rw (other, key) refl)
  ]
]

-- What keyboard_decode may do: exit, or answer with a character and a call, and with the key states of
-- apply_key beside the count of escape keys.
abbrev pub Decodes : Keyboard → ℕ → Outcome (ℕ × Call × Keyboard) → Type 0
Decodes k c r =
    let p = apply_key (find_key keys c) k in
    ((k.esc_counter ≡ 2) × (p.0 ≡ 27) × (r ≡ stop exited))
    ⊎ ((n : ℕ) × Escapes k.esc_counter c p.0 n
        × (n ≤ 2)
        × (d : ℕ) × (call : Call) × (r ≡ ok (d, call, record p.1 { esc_counter = n }))
        × (((call ≡ no_call) × (d ≡ p.0)) ⊎ ((call ≢ no_call) × (d ≡ 0)))
        × ((m : ℕ) → call ≡ select m → m ≤ 9))

-- What the calls of keyboard_decode have in common
abbrev pub Reacts : ℕ → ℕ × Call → Type 0
Reacts d a =
    (((a.1 ≡ no_call) × (a.0 ≡ d)) ⊎ ((a.1 ≢ no_call) × (a.0 ≡ 0)))
    × ((n : ℕ) → a.1 ≡ select n → n ≤ 9)

if_Reacts :
    (d : ℕ) (b : Bool) (x y : ℕ × Call)
    → (b ≡ true → Reacts d x)
    → Reacts d y
    → Reacts d (if b then x else y)
if_Reacts d true x y h k = h refl
if_Reacts d false x y h k = k

is_select : Call → Bool
is_select (select n) = true
is_select call = false

is_call : Call → Bool
is_call no_call = false
is_call call = true

other_call-Reacts :
    (d : ℕ) (call : Call) → is_select call ≡ false → is_call call ≡ true → Reacts d (0, call)
unfolding is_select is_call
other_call-Reacts d call other given = (
  inr ((λ e. ground (arith, given, ap is_call e)), refl),
  λ n e. absurd (ground (arith, other, ap is_select e)),
)

no_call-Reacts : (d : ℕ) → Reacts d (d, no_call)
no_call-Reacts d = (inl (refl, refl), λ n e. ground arith)

select-Reacts :
    (d : ℕ) (alt : Bool) → ((leb 48 d && leb d 57) && alt) ≡ true → Reacts d (0, select (d - 48))
select-Reacts d alt b = (inr ((λ e. ground arith), refl), λ n e. ground arith)

react-Reacts : (d : ℕ) (k : Keyboard) → Reacts d (react d k)
unfolding react is_select is_call
react-Reacts d k =
    if_Reacts d _ _ _ (λ b. other_call-Reacts d lower_log_level refl refl)
      (if_Reacts d _ _ _ (λ b. other_call-Reacts d raise_log_level refl refl)
        (if_Reacts d _ _ _ (select-Reacts d (k.alt_l_on || k.alt_r_on)) (
          if_Reacts d _ _ _ (λ b. other_call-Reacts d create refl refl)
            (if_Reacts d _ _ _ (λ b. other_call-Reacts d destroy refl refl) (no_call-Reacts d)))))

-- keyboard_decode exits the kernel exactly on the third escape key in a row. Otherwise the counter of
-- escape keys goes up with an escape key, stays with its release, and is reset by every other scan code;
-- it stays below 3. The other key states are those that the key sets. A scan code that leads to a call
-- yields no character, any other the character of the key, and tty_select is called with numbers of the
-- table only.
pub keyboard_decode-Decodes :
    (k : Keyboard) (c : ℕ) → k.esc_counter ≤ 2 → Decodes k c (keyboard_decode k c)
unfolding keyboard_decode
keyboard_decode-Decodes k c le =
    let r = apply_key (find_key keys c) k in
    let counter = apply_key-esc_counter (find_key keys c) k in
    elim (count_esc-Counts c r.0 r.1 (subst (λ n. n ≤ 2) (sym counter) le)) [
      | inl (esc, two, e) ↦ inl (sym counter ∙ two, esc, ap (λ m. m >>= answer r.0) e)
      | inr (n, escapes, le', e) ↦
          let k' : Keyboard = record r.1 { esc_counter = n } in
          let (quiet, in_range) = react-Reacts r.0 k' in
          inr (
            n,
            subst (λ e. Escapes e c r.0 n) counter escapes,
            le',
            (react r.0 k').0,
            (react r.0 k').1,
            ap (λ m. m >>= answer r.0) e,
            quiet,
            in_range,
          )
    ]
  where
    answer : ℕ → Keyboard → Outcome (ℕ × Call × Keyboard)
    answer d k' = ok ((react d k').0, (react d k').1, k')
