-- ===== src/Circular.antt =====
-- The slots that a circular buffer uses, as src/queue.c and src/ringbuf.c walk them: `n` cells
-- from index `h` on, going round at `room`.
use native.Mathlib.Nat.{mod-eq_of_lt, mod-eq-sub-mod, mod-add-mod, add-zero}
use native.Mathlib.Decide.{dec_lt}
use wuros.Prelude.{
  ℕ, zero, suc, ◌+◌, ◌-◌, ◌%◌, ◌≤◌, ◌<◌, ◌≡◌, refl, sym, ap, ap₂, ◌∙◌, ◌≢◌, List, [], ◌∷◌, ◌++◌,
  arith, length, get_or, set, get_or-set_self, get_or-set_ne,
}

module _ {ℓ} {A : Type ℓ} (d : A) (room : ℕ) where
  abbrev pub circular : List A → ℕ → ℕ → List A
  circular buf h zero = []
  circular buf h (suc n) = get_or buf h d ∷ circular buf ((h + 1) % room) n

  pub length-circular : (buf : List A) (h n : ℕ) → length (circular buf h n) ≡ n
  length-circular buf h zero = refl
  length-circular buf h (suc n) = ap suc (length-circular buf ((h + 1) % room) n)

slot_start : (room h : ℕ) → h < room → (h + 0) % room ≡ h
slot_start room h hh = rw add-zero (mod-eq_of_lt hh)

-- One step round the ring commutes with many.
shift_slot : (room h n : ℕ) → ((h + 1) % room + n) % room ≡ (h + suc n) % room
shift_slot room h n = rw mod-add-mod (ap (λ k. k % room) (omega arith))

-- Fewer than `room` steps do not come back to the slot where they began.
slot_ne_start : (room h k : ℕ) → h < room → 0 < k → k < room → (h + k) % room ≢ h
slot_ne_start room h k hh pos_k hk = elim (dec_lt (h + k) room) [
  | yes p ↦ omega (arith, mod-eq_of_lt p)
  | no p ↦ omega (
    arith,
    mod-eq-sub-mod {n = h + k} {m = room} (omega arith),
    mod-eq_of_lt {n = h + k - room} {m = room} (omega arith),
  )
]

module _ {ℓ} {A : Type ℓ} (d : A) (room : ℕ) where
  -- A longer stretch ends in one cell more.
  pub circular_snoc :
      (buf : List A) (h n : ℕ)
      → h < room
      → circular d room buf h (suc n)
        ≡ circular d room buf h n ++ get_or buf ((h + n) % room) d ∷ []
  circular_snoc buf h zero hh = ap (λ k. get_or buf k d ∷ []) (sym (slot_start room h hh))
  circular_snoc buf h (suc n) hh = ap (◌∷◌ (get_or buf h d)) (
      circular_snoc buf ((h + 1) % room) n (omega arith)
      ∙ ap (λ k. circular d room buf ((h + 1) % room) n ++ get_or buf k d ∷ [])
          (shift_slot room h n))

  -- A write to a slot outside of a stretch leaves it alone.
  pub circular-set_outside :
      (buf : List A) (v : A) (i h n : ℕ)
      → h < room
      → ((k : ℕ) → k < n → (h + k) % room ≢ i)
      → circular d room (set buf i v) h n ≡ circular d room buf h n
  circular-set_outside buf v i h zero hh out = refl
  circular-set_outside buf v i h (suc n) hh out =
      ap₂ ◌∷◌ (get_or-set_ne buf i h v d (λ e. out 0 (omega arith) (slot_start room h hh ∙ sym e)))
        (circular-set_outside buf v i ((h + 1) % room) n (omega arith)
          (λ k hk e. out (suc k) (omega arith) (sym (shift_slot room h k) ∙ e)))

-- Two different slots of one round.
slots_ne : (room h j k : ℕ) → h < room → j < k → k < room → (h + j) % room ≢ (h + k) % room
slots_ne room h zero k hh hjk hk e = slot_ne_start room h k hh hjk hk (sym e ∙ slot_start room h hh)
slots_ne room h (suc j) zero hh hjk hk e = absurd (omega arith)
slots_ne room h (suc j) (suc k) hh hjk hk e =
    slots_ne room ((h + 1) % room) j k (omega arith) (omega arith) (omega arith)
      (shift_slot room h j ∙ e ∙ sym (shift_slot room h k))

module _ {ℓ} {A : Type ℓ} (d : A) (room : ℕ) where
  -- A write just past a stretch makes it longer by the value written.
  pub circular_push :
      (buf : List A) (v : A) (h n : ℕ)
      → room ≤ length buf
      → h < room
      → n < room
      → circular d room (set buf ((h + n) % room) v) h (suc n) ≡ circular d room buf h n ++ v ∷ []
  circular_push buf v h n hs hh hn =
      circular_snoc d room (set buf ((h + n) % room) v) h n hh
      ∙ ap₂ (λ xs x. xs ++ x ∷ [])
          (circular-set_outside d room buf v ((h + n) % room) h n hh
            (λ k hk. slots_ne room h k n hh hk hn))
          (get_or-set_self buf ((h + n) % room) v d (omega arith))

  -- Clearing the first cell leaves the rest of the stretch alone.
  pub circular_clear :
      (buf : List A) (v : A) (h n : ℕ)
      → h < room
      → suc n ≤ room
      → circular d room (set buf h v) ((h + 1) % room) n ≡ circular d room buf ((h + 1) % room) n
  circular_clear buf v h n hh hn =
      circular-set_outside d room buf v h ((h + 1) % room) n (omega arith) (λ k hk.
        rw (shift_slot room h k) (slot_ne_start room h (suc k) hh (omega arith) (omega arith)))
