-- ===== src/Prelude/Outcomes.antt =====
-- How a kernel routine ends: with a value, or with the machine stopped.
use mathlib.Core.Path.{◌≡◌, refl, sym, subst}
use mathlib.Core.Option.{Option, none, some}
use mathlib.Core.Bool.{Bool, true, false}
use wuros.Prelude.Tests.{if◌then◌else◌}

pub data Stop : Type 0 where
  -- kernel_panic prints its message and exits
  panic : Stop
  -- undefined behaviour: an access outside an array or through a null pointer
  fault : Stop
  -- kernel_exit
  exited : Stop
  -- the fuel of a loop ran out; the theorems on the loops rule it out
  no_fuel : Stop

pub data Outcome {ℓ} (A : Type ℓ) : Type ℓ where
  ok : A → Outcome A
  stop : Stop → Outcome A

infixl 5 ◌>>=◌
abbrev pub ◌>>=◌ {ℓ κ} : {A : Type ℓ} {B : Type κ} → Outcome A → (A → Outcome B) → Outcome B
ok a >>= f = f a
stop s >>= f = stop s

abbrev pub or_stop {ℓ} : {A : Type ℓ} → Option A → Stop → Outcome A
or_stop none s = stop s
or_stop (some a) s = ok a

-- The routine ends with a value that has the property, or it panics: no undefined behaviour, and
-- no loop that runs out of fuel.
abbrev pub Ends {ℓ} : {A : Type ℓ} → (A → Type 0) → Outcome A → Type 0
Ends P (ok a) = P a
Ends P (stop panic) = Unit
Ends P (stop s) = ⊥

pub Ends-bind {ℓ κ} :
    {A : Type ℓ} {B : Type κ} (P : A → Type 0) (Q : B → Type 0) (m : Outcome A) (f : A → Outcome B)
    → Ends P m
    → ((a : A) → P a → Ends Q (f a))
    → Ends Q (m >>= f)
Ends-bind P Q (ok a) f h k = k a h
Ends-bind P Q (stop panic) f h k = tt
Ends-bind P Q (stop s) f h k = absurd h

pub Ends-of_eq {ℓ} :
    {A : Type ℓ} (P : A → Type 0) (m : Outcome A) (a : A) → m ≡ ok a → P a → Ends P m
Ends-of_eq P m a e p = subst (Ends P) (sym e) p

pub Ends-of_panic {ℓ} : {A : Type ℓ} (P : A → Type 0) (m : Outcome A) → m ≡ stop panic → Ends P m
Ends-of_panic P m e = subst (Ends P) (sym e) tt

pub Ends-map {ℓ} :
    {A : Type ℓ} (P : A → Type 0) (Q : A → Type 0) (m : Outcome A)
    → ((a : A) → P a → Q a)
    → Ends P m
    → Ends Q m
Ends-map P Q (ok a) k h = k a h
Ends-map P Q (stop panic) k h = tt
Ends-map P Q (stop s) k h = absurd h

-- The routine ends with a value that has the property, or the machine stops: no loop that runs out of
-- fuel.
abbrev pub Keeps {ℓ} : {A : Type ℓ} → (A → Type 0) → Outcome A → Type 0
Keeps P (ok a) = P a
Keeps P (stop no_fuel) = ⊥
Keeps P (stop s) = Unit

pub Keeps-bind {ℓ κ} :
    {A : Type ℓ} {B : Type κ} (P : A → Type 0) (Q : B → Type 0) (m : Outcome A) (f : A → Outcome B)
    → Keeps P m
    → ((a : A) → P a → Keeps Q (f a))
    → Keeps Q (m >>= f)
Keeps-bind P Q (ok a) f h k = k a h
Keeps-bind P Q (stop panic) f h k = tt
Keeps-bind P Q (stop fault) f h k = tt
Keeps-bind P Q (stop exited) f h k = tt
Keeps-bind P Q (stop no_fuel) f h k = absurd h

pub Keeps-of_Ends {ℓ} : {A : Type ℓ} (P : A → Type 0) (m : Outcome A) → Ends P m → Keeps P m
Keeps-of_Ends P (ok a) h = h
Keeps-of_Ends P (stop panic) h = tt
Keeps-of_Ends P (stop s) h = absurd h

pub Keeps-of_eq {ℓ} :
    {A : Type ℓ} (P : A → Type 0) (m : Outcome A) (a : A) → m ≡ ok a → P a → Keeps P m
Keeps-of_eq P m a e p = subst (Keeps P) (sym e) p

-- What holds on both sides of a test, and for both answers of a lookup
pub Keeps-if {ℓ} :
    {A : Type ℓ} (P : A → Type 0) (b : Bool) (m n : Outcome A)
    → Keeps P m
    → Keeps P n
    → Keeps P (if b then m else n)
Keeps-if P true m n h k = h
Keeps-if P false m n h k = k

pub Keeps-elim {ℓ κ} :
    {A : Type ℓ} {B : Type κ} (P : A → Type 0) (o : Option B) (m : Outcome A) (f : B → Outcome A)
    → Keeps P m
    → ((b : B) → o ≡ some b → Keeps P (f b))
    → Keeps P (elim o [ none ↦ m | some b ↦ f b ])
Keeps-elim P none m f h k = h
Keeps-elim P (some b) m f h k = k b refl

pub holds-if {ℓ} :
    {A : Type ℓ} (P : A → Type 0) (b : Bool) (x y : A) → P x → P y → P (if b then x else y)
holds-if P true x y h k = h
holds-if P false x y h k = k

pub holds-elim {ℓ κ} :
    {A : Type ℓ} {B : Type κ} (P : A → Type 0) (o : Option B) (x : A) (f : B → A)
    → P x
    → ((b : B) → P (f b))
    → P (elim o [ none ↦ x | some b ↦ f b ])
holds-elim P none x f h k = h
holds-elim P (some b) x f h k = k b
