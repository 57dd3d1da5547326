-- ===== src/Interrupts/Mask.antt =====
-- src/interrupts.c: the masks of the interrupt controllers. A bit that is set disables its line.
use Prim.Native.Nat.{bit_and, bit_or}
use wuros.Prelude.{
  ℕ, zero, suc, ◌+◌, ◌-◌, ◌*◌, ◌%◌, ◌<◌, ◌≡◌, refl, sym, ap, ◌∙◌, pos, leb, ltb, ◌==◌, ◌&&◌, Bool,
  true, false, if◌then◌else◌, Outcome, ok, stop, fault, arith,
}
use wuros.Prelude.Bits.{bit, bit-lt, shl, ones, bit_and-shl, bit-byte, shl-pos}
use wuros.Prelude.Masks.{changed, set_digit, clear_digit}
use wuros.Interrupts.{
  Pic, in_mask, out_mask, on_line, enable_line, disable_line, line_enabled, pic_irq_enable,
  pic_irq_disable, pic_irq_enabled,
}

pub line-within : {A : Type 0} (n : ℕ) (f : ℕ → A) → n < 16 → on_line (pos n) f ≡ ok (f n)
line-within {A = A} n f h =
    ap (λ b. on (if b then n - 32 else n)) unmapped
    ∙ ap (λ b. if b then ok (f n) else stop fault) inside
  where
    on : ℕ → Outcome A
    on line = if ltb line 32 then ok (f line) else stop fault

    unmapped : leb 32 n ≡ false
    unmapped = ground arith

    inside : ltb n 32 ≡ true
    inside = ground arith

primary : (n : ℕ) → n < 8 → leb 8 n ≡ false
primary n h = ground arith

-- The bit that is tested is that of the line.
line_enabled-bit : (p : Pic) (m : ℕ) → m < 8 → line_enabled p m ≡ 1 - bit m p.mask1
unfolding line_enabled in_mask
line_enabled-bit p m h =
    ap (λ b. if bit_and (if b then p.mask2 else p.mask1) (shl m 1) == 0 then 1 else 0) (primary m h)
    ∙ ap (λ x. if x == 0 then 1 else 0) (bit_and-shl m p.mask1)
    ∙ by_bit (bit m p.mask1) (shl m 1) (bit-lt m p.mask1) (shl-pos m)
  where
    by_bit : (x y : ℕ) → x < 2 → 0 < y → (if (x * y) == 0 then 1 else 0) ≡ 1 - x
    by_bit zero y hx hy = ground arith
    by_bit (suc zero) y hx hy = ground arith
    by_bit (suc (suc x)) y hx hy = absurd (omega arith)

enable_line-bit :
    (p : Pic) (n m : ℕ)
    → n < 8
    → m < 8
    → bit m (enable_line p n).mask1 ≡ changed n m 0 (bit m p.mask1)
unfolding enable_line in_mask out_mask
enable_line-bit p n m hn hm =
    ap (λ b. bit m (out b (bit_and (if b then p.mask2 else p.mask1) (ones 32 - shl n 1))).mask1)
      (primary n hn)
    ∙ bit-byte m (bit_and p.mask1 (ones 32 - shl n 1)) hm
    ∙ clear_digit n m p.mask1 (omega arith) (omega arith)
  where
    out : Bool → ℕ → Pic
    out b mask = if b then record p { mask2 = mask % 256 } else record p { mask1 = mask % 256 }

disable_line-bit :
    (p : Pic) (n m : ℕ)
    → n < 8
    → m < 8
    → bit m (disable_line p n).mask1 ≡ changed n m 1 (bit m p.mask1)
unfolding disable_line in_mask out_mask
disable_line-bit p n m hn hm =
    ap (λ b. bit m (out b (bit_or (if b then p.mask2 else p.mask1) (shl n 1))).mask1) (primary n hn)
    ∙ bit-byte m (bit_or p.mask1 (shl n 1)) hm
    ∙ set_digit n m p.mask1
  where
    out : Bool → ℕ → Pic
    out b mask = if b then record p { mask2 = mask % 256 } else record p { mask1 = mask % 256 }

-- The controllers after the operation, and the answer for the line `m` then
abbrev pub LineAfter : Outcome Pic → ℕ → ℕ → Type 0
LineAfter r m v = (p' : Pic) × (r ≡ ok p') × (pic_irq_enabled p' (pos m) ≡ ok v)

-- On the primary controller, whose lines are those below 8, pic_irq_enable and pic_irq_disable set
-- what pic_irq_enabled says of their line `n`, and leave what it says of the others.
pub pic_irq_enabled-after :
    (p : Pic) (n m : ℕ)
    → n < 8
    → m < 8
    → LineAfter (pic_irq_enable p (pos n)) m (changed n m 1 (line_enabled p m))
      × LineAfter (pic_irq_disable p (pos n)) m (changed n m 0 (line_enabled p m))
unfolding pic_irq_enable pic_irq_disable pic_irq_enabled
pic_irq_enabled-after p n m hn hm = (
  (
    enable_line p n,
    line-within n (enable_line p) (omega arith),
    line-within m (line_enabled (enable_line p n)) (omega arith)
        ∙ ap ok (
            line_enabled-bit (enable_line p n) m hm
            ∙ ap (λ x. 1 - x) (enable_line-bit p n m hn hm)
            ∙ flipped (m == n) 0),
  ),
  (
    disable_line p n,
    line-within n (disable_line p) (omega arith),
    line-within m (line_enabled (disable_line p n)) (omega arith)
        ∙ ap ok (
            line_enabled-bit (disable_line p n) m hm
            ∙ ap (λ x. 1 - x) (disable_line-bit p n m hn hm)
            ∙ flipped (m == n) 1),
  ),
)
  where
    flipped :
        (b : Bool) (v : ℕ)
        → 1 - (if b then v else bit m p.mask1) ≡ (if b then 1 - v else line_enabled p m)
    flipped true v = refl
    flipped false v = sym (line_enabled-bit p m hm)

-- The lines of the secondary controller: their bit lies above the byte that the port holds.
all_below : ℕ → (ℕ → Bool) → Bool
all_below zero p = true
all_below (suc n) p = p n && all_below n p

all_below-at : (n : ℕ) (p : ℕ → Bool) (x : ℕ) → all_below n p ≡ true → x < n → p x ≡ true
unfolding all_below
all_below-at zero p x h lt = absurd (omega arith)
all_below-at (suc n) p x h lt = ground (arith, all_below-at n p x)

untouched : ℕ → ℕ → Bool
untouched i w =
    ((bit_and w (ones 32 - shl (i + 8) 1) % 256) == w)
    && (((bit_or w (shl (i + 8) 1) % 256) == w) && (bit_and w (shl (i + 8) 1) == 0))

all_untouched : all_below 8 (λ i. all_below 256 (untouched i)) ≡ true
unfolding all_below untouched ones shl
all_untouched = refl

untouched-parts :
    (i w : ℕ)
    → untouched i w ≡ true
    → (bit_and w (ones 32 - shl (i + 8) 1) % 256 ≡ w)
      × (bit_or w (shl (i + 8) 1) % 256 ≡ w)
      × (bit_and w (shl (i + 8) 1) ≡ 0)
unfolding untouched
untouched-parts i w h = (ground arith, ground arith, ground arith)

-- On a line of the secondary controller, from 8 to 15, pic_irq_enable and pic_irq_disable change
-- nothing, and pic_irq_enabled says that the line is enabled whatever the mask is: the bit that they
-- use is that of the line and not that of the line less 8, and lies above the byte of the port.
pub secondary_ignored :
    (p : Pic) (i : ℕ)
    → i < 8
    → p.mask2 < 256
    → (pic_irq_enable p (pos (i + 8)) ≡ ok p)
      × (pic_irq_disable p (pos (i + 8)) ≡ ok p)
      × (pic_irq_enabled p (pos (i + 8)) ≡ ok 1)
unfolding pic_irq_enable pic_irq_disable pic_irq_enabled enable_line disable_line line_enabled
    in_mask out_mask
secondary_ignored p i h byte =
    let (and_same, or_same, no_bit) = untouched-parts i p.mask2 (
      all_below-at 256 (untouched i) p.mask2
        (all_below-at 8 (λ i. all_below 256 (untouched i)) i all_untouched h) byte) in
    (
      line-within (i + 8) (enable_line p) (omega arith)
          ∙ ap (λ b. ok (out b (bit_and (ins b) (ones 32 - shl (i + 8) 1)))) second
          ∙ ap (λ x. ok (record p { mask2 = x })) and_same,
      line-within (i + 8) (disable_line p) (omega arith)
          ∙ ap (λ b. ok (out b (bit_or (ins b) (shl (i + 8) 1)))) second
          ∙ ap (λ x. ok (record p { mask2 = x })) or_same,
      line-within (i + 8) (line_enabled p) (omega arith)
          ∙ ap (λ b. ok (if bit_and (ins b) (shl (i + 8) 1) == 0 then 1 else 0)) second
          ∙ ap (λ x. ok (if x == 0 then 1 else 0)) no_bit,
    )
  where
    second : leb 8 (i + 8) ≡ true
    second = ground arith

    ins : Bool → ℕ
    ins b = if b then p.mask2 else p.mask1

    out : Bool → ℕ → Pic
    out b mask = if b then record p { mask2 = mask % 256 } else record p { mask1 = mask % 256 }
