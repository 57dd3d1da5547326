-- ===== src/Prelude/Arrays.antt =====
-- Arrays indexed by a C int, and the loop that fills one.
use Prim.Native.Nat.{ℕ, zero, suc, ◌+◌}
use mathlib.Core.Path.{◌≡◌, refl, ◌∙◌}
use mathlib.Core.List.{List}
use wuros.Prelude.Lists.{length, get_or, set, length-set}
use wuros.Prelude.Int.{ℤ, pos, negsuc}

module _ {ℓ} {A : Type ℓ} where
  -- a[i], with `d` for a read out of bounds
  abbrev pub get_at : List A → ℤ → A → A
  get_at xs (pos i) d = get_or xs i d
  get_at xs (negsuc i) d = d

  -- a[i] = v, which changes nothing out of bounds
  abbrev pub set_at : List A → ℤ → A → List A
  set_at xs (pos i) v = set xs i v
  set_at xs (negsuc i) v = xs

  -- for(; i < i + n; i++) a[i] = v
  abbrev pub fill : ℕ → ℕ → A → List A → List A
  fill zero i v xs = xs
  fill (suc n) i v xs = fill n (i + 1) v (set xs i v)

  pub length-fill : (n i : ℕ) (v : A) (xs : List A) → length (fill n i v xs) ≡ length xs
  length-fill zero i v xs = refl
  length-fill (suc n) i v xs = length-fill n (i + 1) v (set xs i v) ∙ length-set xs i v
