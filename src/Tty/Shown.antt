-- ===== src/Tty/Shown.antt =====
-- src/tty.c: what tty_refresh shows on the display.
use wuros.Prelude.{
  ℕ, suc, ◌+◌, ◌-◌, ◌*◌, ◌==◌, ◌<◌, ◌≤◌, ◌≡◌, ◌≢◌, ◌⊎◌, inl, inr, ap, leb, ltb, true, Bool-cases,
  if◌then◌else◌, List, length, get_or, ok, stop, fault, arith,
}
use wuros.Ringbuf.{ringbuf_flush}
use wuros.Screen.{screen_width, screen_height, screen_size, load}
use wuros.Vga.{Vga, vga_cell}
use wuros.Tty.{Tty}

-- The cell of the display for the place `j` of a terminal
abbrev pub shown : Tty → ℕ → ℕ
shown t j = vga_cell t.color_bg t.color_fg (get_or t.buf j 0)

-- The `n` cells from `p` on are those of the terminal, and the others are as in `old`.
pub record IsDrawn (t : Tty) (old new : List ℕ) (p n : ℕ) : Type 0 where
  pub size : length new ≡ length old
  pub inside : (j : ℕ) → p ≤ j → j < p + n → get_or new j 0 ≡ shown t j
  pub before : (j : ℕ) → j < p → get_or new j 0 ≡ get_or old j 0
  pub behind : (j : ℕ) → p + n ≤ j → get_or new j 0 ≡ get_or old j 0

-- The next column and row
abbrev pub next_x : ℕ → ℕ
next_x x = if leb screen_width (x + 1) then 0 else x + 1

abbrev pub next_y : ℕ → ℕ → ℕ
next_y x y = if leb screen_width (x + 1) then (if y == (screen_height - 1) then y else y + 1) else y

pub next_place :
    (n x y : ℕ)
    → x < screen_width
    → y < screen_height
    → screen_width * y + x + suc n ≤ screen_size
    → (next_x x < screen_width)
      × (next_y x y < screen_height)
      × ((n ≡ 0) ⊎ (screen_width * next_y x y + next_x x ≡ screen_width * y + x + 1))
next_place n x y hx hy fits = elim (Bool-cases (leb screen_width (x + 1))) [
  | inr on ↦ rw on (ground arith, hy, inr (omega arith))
  | inl wraps ↦
      let last : x ≡ 79 = ground arith in
      elim (Bool-cases (y == (screen_height - 1))) [
        | inl bottom ↦
            let row : y ≡ 24 = ground arith in
            rw wraps (rw bottom (omega arith, hy, inl (omega arith)))
        | inr above ↦
            let row : y ≢ 24 = ground arith in
            rw wraps (rw above (omega arith, omega arith, inr (omega arith)))
      ]
]

pub load_ok : (buf : List ℕ) (i : ℕ) → i < length buf → load buf i ≡ ok (get_or buf i 0)
load_ok buf i h = ap (λ b. if b then ok (get_or buf i 0) else stop fault) inside
  where
    inside : ltb i (length buf) ≡ true
    inside = ground arith

pub place_room :
    (n x y q : ℕ)
    → screen_width * y + x + suc n ≤ screen_size
    → (n ≡ 0) ⊎ (q ≡ screen_width * y + x + 1)
    → (n ≡ 0) ⊎ (q + n ≤ screen_size)
place_room n x y q fits (inl none_left) = inl none_left
place_room n x y q fits (inr next) = inr (omega arith)

-- What tty_refresh leaves of a terminal that it has printed to
abbrev pub refreshed : Tty → Tty
refreshed t = record t { io_output = ringbuf_flush t.io_output; refresh = 0 }
