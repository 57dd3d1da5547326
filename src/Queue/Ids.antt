-- ===== src/Queue/Ids.antt =====
-- src/queue.c: queues of the numbers of a table, in order.
use wuros.Prelude.{
  ℕ, zero, suc, ◌+◌, ◌-◌, ◌<◌, ◌≡◌, refl, ap, ◌∙◌, ℤ, pos, List, [], ◌∷◌, ◌++◌, length, arith,
}

-- n process ids, or indices of a table, from `i` on
abbrev pub ids : ℕ → ℕ → List ℤ
ids zero i = []
ids (suc n) i = pos i ∷ ids n (i + 1)

pub length-ids : (n i : ℕ) → length (ids n i) ≡ n
length-ids zero i = refl
length-ids (suc n) i = ap suc (length-ids n (i + 1))

pub ids_last : (n i : ℕ) → ids n i ++ pos (n + i) ∷ [] ≡ ids (suc n) i
ids_last zero i = ap (λ j. pos j ∷ []) (omega arith)
ids_last (suc n) i =
    ap (λ l. pos i ∷ l) (ap (λ j. ids n (i + 1) ++ pos j ∷ []) (omega arith) ∙ ids_last n (i + 1))

pub ids_step : (k j i : ℕ) → k ≡ suc j → ids k i ≡ pos i ∷ ids j (i + 1)
ids_step k j i h = ap (λ k. ids k i) h

pub ids_end : (n : ℕ) → 0 < n → ids (n - 1) 1 ++ pos n ∷ [] ≡ ids n 1
ids_end n lo =
    let before : n ≡ n - 1 + 1 = omega arith in
    let after : suc (n - 1) ≡ n = omega arith in
    ap (λ k. ids (n - 1) 1 ++ pos k ∷ []) before ∙ ids_last (n - 1) 1 ∙ ap (λ k. ids k 1) after
