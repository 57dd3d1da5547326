-- ===== src/Ksyscall/Calls/Memory.antt =====
-- src/ksyscall.c: the bytes that a system call stores behind a pointer.
use wuros.Prelude.{
  take_all, ℕ, zero, suc, ◌+◌, ◌-◌, ◌≤◌, ◌≡◌, refl, ap, ◌∙◌, ltb, Bool, true, false, if◌then◌else◌,
  List, [], ◌∷◌, ◌++◌, Outcome, ok, stop, fault, ◌>>=◌, length, length-append, take, drop,
  replicate, arith, set,
}
use wuros.Screen.{store}
use wuros.Ksyscall.Calls.{store_bytes, strncpy}

-- A memory with the bytes from the address `p` on replaced
abbrev pub patched : List ℕ → ℕ → List ℕ → List ℕ
patched mem p bs = take p mem ++ bs ++ drop (p + length bs) mem

under : ℕ → Outcome (List ℕ) → Outcome (List ℕ)
under x r = r >>= λ mem. ok (x ∷ mem)

store-under : (x : ℕ) (mem : List ℕ) (p b : ℕ) → store (x ∷ mem) (suc p) b ≡ under x (store mem p b)
unfolding under
store-under x mem p b =
    ap (λ c. if c then ok (x ∷ set mem p b) else stop fault) same_test
    ∙ by_test (ltb p (length mem))
  where
    same_test : ltb (suc p) (suc (length mem)) ≡ ltb p (length mem)
    same_test = ground arith

    by_test :
        (c : Bool)
        → (if c then ok (x ∷ set mem p b) else stop fault)
          ≡ under x (if c then ok (set mem p b) else stop fault)
    by_test true = refl
    by_test false = refl

under-bind :
    (x : ℕ) (f g : List ℕ → Outcome (List ℕ))
    → ((mem : List ℕ) → f (x ∷ mem) ≡ under x (g mem))
    → (r : Outcome (List ℕ)) → (under x r >>= f) ≡ under x (r >>= g)
unfolding under
under-bind x f g same (ok mem) = same mem
under-bind x f g same (stop s) = refl

store_bytes-under :
    (x : ℕ) (bs mem : List ℕ) (p : ℕ)
    → store_bytes (x ∷ mem) (suc p) bs ≡ under x (store_bytes mem p bs)
unfolding store_bytes under
store_bytes-under x [] mem p = refl
store_bytes-under x (b ∷ bs) mem p =
    ap (λ r. r >>= λ m. store_bytes m (suc p + 1) bs) (store-under x mem p b)
    ∙ under-bind x (λ m. store_bytes m (suc p + 1) bs) (λ m. store_bytes m (p + 1) bs)
        (λ m. ap (λ q. store_bytes (x ∷ m) q bs) next ∙ store_bytes-under x bs m (p + 1))
        (store mem p b)
  where
    next : suc p + 1 ≡ suc (p + 1)
    next = omega arith

-- Bytes that are stored inside of the memory replace those that were there.
pub store_bytes-eq-ok :
    (mem : List ℕ) (p : ℕ) (bs : List ℕ)
    → p + length bs ≤ length mem
    → store_bytes mem p bs ≡ ok (patched mem p bs)
unfolding store_bytes under
store_bytes-eq-ok mem zero [] h = refl
store_bytes-eq-ok [] zero (b ∷ bs) h = absurd (omega arith)
store_bytes-eq-ok (x ∷ mem) zero (b ∷ bs) h =
    ap (λ c. (if c then ok (b ∷ mem) else stop fault) >>= λ m. store_bytes m 1 bs) first
    ∙ store_bytes-under b bs mem 0
    ∙ ap (under b) (store_bytes-eq-ok mem 0 bs (omega arith))
    ∙ ap (λ k. ok (b ∷ (bs ++ drop k (x ∷ mem)))) one_further
  where
    first : ltb 0 (suc (length mem)) ≡ true
    first = ground arith

    one_further : suc (0 + length bs) ≡ 0 + suc (length bs)
    one_further = omega arith
store_bytes-eq-ok [] (suc p) bs h = absurd (omega arith)
store_bytes-eq-ok (x ∷ mem) (suc p) bs h =
    store_bytes-under x bs mem p
    ∙ ap (under x) (store_bytes-eq-ok mem p bs (omega arith))
    ∙ ap (λ k. ok (x ∷ (take p mem ++ bs ++ drop k (x ∷ mem)))) one_further
  where
    one_further : suc (p + length bs) ≡ suc p + length bs
    one_further = omega arith

-- A name that fits is copied whole and filled up with NUL.
pub strncpy-padded :
    (src : List ℕ) (n : ℕ) → length src ≤ n → strncpy src n ≡ src ++ replicate (n - length src) 0
unfolding strncpy
strncpy-padded src n h = ap (λ l. l ++ replicate (n - length src) 0) (take_all n src h)

length-replicate : (n : ℕ) → length (replicate {A = ℕ} n 0) ≡ n
length-replicate zero = refl
length-replicate (suc n) = ap suc (length-replicate n)

pub length-strncpy : (src : List ℕ) (n : ℕ) → length src ≤ n → length (strncpy src n) ≡ n
length-strncpy src n h =
    ap length (strncpy-padded src n h)
    ∙ omega
        (arith, length-append src (replicate (n - length src) 0), length-replicate (n - length src))
