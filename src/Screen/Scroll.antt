-- ===== src/Screen/Scroll.antt =====
-- The loops that scroll a screen up drop its first row and append a blank one.
use wuros.Prelude.{
  ℕ, zero, suc, ◌+◌, ◌-◌, ◌≤◌, ◌≡◌, refl, sym, ap, ap₂, ◌∙◌, List, [], ◌∷◌, ◌++◌, append_assoc,
  arith, length, append-nil, get_or, set, fill, replicate, drop, length-append, length-replicate,
}
use wuros.Screen.{screen_width, screen_size, move_up, scroll_rows}

set_behind : (xs ys : List ℕ) (i : ℕ) (v : ℕ) → set (xs ++ ys) (length xs + i) v ≡ xs ++ set ys i v
set_behind [] ys i v = ap (λ k. set ys k v) (omega arith)
set_behind (x ∷ xs) ys i v =
    let step : suc (length xs) + i ≡ suc (length xs + i) = omega arith in
    rw step (ap (◌∷◌ x) (set_behind xs ys i v))

get_behind : (xs ys : List ℕ) (i d : ℕ) → get_or (xs ++ ys) (length xs + i) d ≡ get_or ys i d
get_behind [] ys i d = ap (λ k. get_or ys k d) (omega arith)
get_behind (x ∷ xs) ys i d =
    let step : suc (length xs) + i ≡ suc (length xs + i) = omega arith in
    rw step (get_behind xs ys i d)

replicate_snoc : (n a : ℕ) → replicate n a ++ a ∷ [] ≡ a ∷ replicate n a
replicate_snoc zero a = refl
replicate_snoc (suc n) a = ap (◌∷◌ a) (replicate_snoc n a)

-- One round: the first blank cell takes the next cell's content, which becomes blank.
move_one :
    (pre rest : List ℕ) (n b r : ℕ)
    → let buf = pre ++ (replicate (suc n) b ++ r ∷ rest) in
      set (set buf (length pre) r) (length pre + suc n) b
      ≡ (pre ++ r ∷ []) ++ (replicate (suc n) b ++ rest)
move_one pre rest n b r =
    ap (λ k. set (set (pre ++ (replicate (suc n) b ++ r ∷ rest)) k r) (length pre + suc n) b)
      zero_offset
    ∙ ap (λ xs. set xs (length pre + suc n) b)
        (set_behind pre (replicate (suc n) b ++ r ∷ rest) 0 r)
    ∙ set_behind pre (r ∷ (replicate n b ++ r ∷ rest)) (suc n) b
    ∙ ap (λ k. pre ++ r ∷ set (replicate n b ++ r ∷ rest) k b) same_index
    ∙ ap (λ xs. pre ++ r ∷ xs) (set_behind (replicate n b) (r ∷ rest) 0 b)
    ∙ ap (λ xs. pre ++ r ∷ xs) (sym (append_assoc (replicate n b) (b ∷ []) rest))
    ∙ ap (λ xs. pre ++ r ∷ (xs ++ rest)) (replicate_snoc n b)
    ∙ sym (append_assoc pre (r ∷ []) (replicate (suc n) b ++ rest))
  where
    zero_offset : length pre ≡ length pre + 0
    zero_offset = omega arith

    same_index : n ≡ length (replicate n b) + 0
    same_index = omega (arith, length-replicate n b)

move_all :
    (rest pre : List ℕ) (w b i : ℕ)
    → screen_width ≡ suc w
    → i ≡ length pre + suc w
    → move_up (length rest) i b (pre ++ (replicate (suc w) b ++ rest))
      ≡ pre ++ (rest ++ replicate (suc w) b)
unfolding move_up
move_all [] pre w b i width at = ap (λ xs. pre ++ xs) (append-nil (replicate (suc w) b))
move_all (r ∷ rest) pre w b i width at =
    let buf = pre ++ (replicate (suc w) b ++ r ∷ rest) in
    ap₂ (λ k v. move_up (length rest) (i + 1) b (set (set buf k v) i b)) front next
    ∙ ap (λ k. move_up (length rest) (i + 1) b (set (set buf (length pre) r) k b)) at
    ∙ ap (move_up (length rest) (i + 1) b) (move_one pre rest w b r)
    ∙ move_all rest (pre ++ r ∷ []) w b (i + 1) width one_on
    ∙ append_assoc pre (r ∷ []) (rest ++ replicate (suc w) b)
  where
    front : i - screen_width ≡ length pre
    front = omega (arith)

    row : suc w ≡ length (replicate (suc w) b) + 0
    row = omega (arith, length-replicate w b)

    next : get_or (pre ++ (replicate (suc w) b ++ r ∷ rest)) i 0 ≡ r
    next =
        ap (λ k. get_or (pre ++ (replicate (suc w) b ++ r ∷ rest)) k 0) at
        ∙ get_behind pre (replicate (suc w) b ++ r ∷ rest) (suc w) 0
        ∙ ap (λ k. get_or (replicate (suc w) b ++ r ∷ rest) k 0) row
        ∙ get_behind (replicate (suc w) b) (r ∷ rest) 0 0

    one_on : i + 1 ≡ length (pre ++ r ∷ []) + suc w
    one_on = omega (arith, length-append pre (r ∷ []))

fill_row :
    (n b i : ℕ) (pre xs : List ℕ)
    → i ≡ length pre
    → n ≤ length xs
    → fill n i b (pre ++ xs) ≡ pre ++ (replicate n b ++ drop n xs)
fill_row zero b i pre xs at le = refl
fill_row (suc n) b i pre [] at le = absurd (omega arith)
fill_row (suc n) b i pre (x ∷ xs) at le =
    ap (λ k. fill n (i + 1) b (set (pre ++ x ∷ xs) k b)) front
    ∙ ap (fill n (i + 1) b) (set_behind pre (x ∷ xs) 0 b)
    ∙ ap (fill n (i + 1) b) (sym (append_assoc pre (b ∷ []) xs))
    ∙ fill_row n b (i + 1) (pre ++ b ∷ []) xs one_on (omega arith)
    ∙ append_assoc pre (b ∷ []) (replicate n b ++ drop n xs)
  where
    front : i ≡ length pre + 0
    front = omega arith

    one_on : i + 1 ≡ length (pre ++ b ∷ [])
    one_on = omega (arith, length-append pre (b ∷ []))

length-drop : (n : ℕ) (xs : List ℕ) → length (drop n xs) ≡ length xs - n
length-drop zero xs = omega arith
length-drop (suc n) [] = omega arith
length-drop (suc n) (x ∷ xs) = omega (arith, length-drop n xs)

scroll_by :
    (w b : ℕ) (buf : List ℕ)
    → screen_width ≡ suc w
    → length buf ≡ screen_size
    → scroll_rows b buf ≡ drop (suc w) buf ++ replicate (suc w) b
unfolding scroll_rows
scroll_by w b buf width size =
    ap (λ k. move_up (screen_size - screen_width) screen_width b (fill k 0 b buf)) width
    ∙ ap (move_up (screen_size - screen_width) screen_width b)
        (fill_row (suc w) b 0 [] buf refl (omega arith))
    ∙ ap (λ k. move_up k screen_width b (replicate (suc w) b ++ drop (suc w) buf)) rest
    ∙ move_all (drop (suc w) buf) [] w b screen_width width (omega arith)
  where
    rest : screen_size - screen_width ≡ length (drop (suc w) buf)
    rest = omega (arith, length-drop (suc w) buf)

-- The loops that scroll a whole screen up drop its first row, move the other rows up and leave a
-- blank last row.
pub scroll_rows-eq-drop :
    (b : ℕ) (buf : List ℕ)
    → length buf ≡ screen_size
    → scroll_rows b buf ≡ drop screen_width buf ++ replicate screen_width b
scroll_rows-eq-drop b buf size = scroll_by 79 b buf refl size

pub length-scroll_rows :
    (b : ℕ) (buf : List ℕ) → length buf ≡ screen_size → length (scroll_rows b buf) ≡ screen_size
length-scroll_rows b buf size = omega (
  arith,
  ap length (scroll_rows-eq-drop b buf size),
  length-append (drop screen_width buf) (replicate screen_width b),
  length-drop screen_width buf,
  length-replicate screen_width b,
)
