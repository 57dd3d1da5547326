-- ===== src/Tty/Select.antt =====
-- src/tty.c: what tty_select does with a number.
use native.Mathlib.Decide.{dec_lt}
use wuros.Prelude.{
  ℕ, ◌≤◌, ◌<◌, ◌≡◌, ◌≢◌, false, refl, sym, subst, Option-cases, minus_one, ap, ◌∙◌, ◌⊎◌, inl, inr,
  ℤ, pos, eq_ℤ, eq_ℤ_iff, Bool-cases, if◌then◌else◌, Option, none, some, get_elem?, get_elem?-of_lt,
  get_elem?-none, set, length, Outcome, ok, stop, fault, ◌>>=◌, arith,
}
use wuros.Tty.{
  Tty, Ttys, tty_max, tty_select, tty_get_active, select, on_active, select_other, id_of,
}

-- The active terminal is null or in the table, which has TTY_MAX entries.
pub record HasTable (s : Ttys) : Type 0 where
  pub table : length s.tty_table ≡ tty_max
  pub active_in : (a : ℕ) → s.active_tty ≡ some a → a < tty_max

-- The active terminal, if there is one, has another number than `n`.
abbrev pub OtherActive : Ttys → ℕ → Type 0
OtherActive s n =
    (s.active_tty ≡ none)
    ⊎ ((a : ℕ) × (t : Tty) × (s.active_tty ≡ some a)
        × (get_elem? s.tty_table a ≡ some t)
        × (t.id ≢ pos n))

-- What tty_select may do with the number `n`.
abbrev pub Selects : Ttys → ℕ → Outcome Ttys → Type 0
Selects s n r =
    ((a : ℕ) × (t : Tty) × (s.active_tty ≡ some a)
      × (get_elem? s.tty_table a ≡ some t)
      × (t.id ≡ pos n)
      × (r ≡ ok s))
    ⊎ (OtherActive s n
        × (t : Tty) × (n < tty_max)
        × (get_elem? s.tty_table n ≡ some t)
        × (r
            ≡ ok (record s {
              tty_table = set s.tty_table n (record t { refresh = 1 });
              active_tty = some n;
            })))
    ⊎ (OtherActive s n × (tty_max ≤ n) × (r ≡ stop fault))

on_active-eq-ok :
    (f : Tty → Outcome Tty) (s : Ttys) (n : ℕ) (t t' : Tty)
    → get_elem? s.tty_table n ≡ some t
    → f t ≡ ok t'
    → on_active f s n ≡ ok (record s { tty_table = set s.tty_table n t' })
unfolding on_active
on_active-eq-ok f s n t t' h e =
    rw (h, on_active) (ap (λ r. r >>= λ t1. ok (record s { tty_table = set s.tty_table n t1 })) e)

on_active_fault :
    (f : Tty → Outcome Tty) (s : Ttys) (n : ℕ)
    → get_elem? s.tty_table n ≡ none
    → on_active f s n ≡ stop fault
unfolding on_active
on_active_fault f s n h = rw (h, on_active) refl

select-Selects : (s : Ttys) (n : ℕ) → HasTable s → OtherActive s n → Selects s n (select s (pos n))
unfolding select
select-Selects s n v o = elim (dec_lt n tty_max) [
  | yes lt ↦
      let (t, h) = get_elem?-of_lt s.tty_table n (omega (arith, v.table)) in
      inr (
        inl (
          o,
          t,
          lt,
          h,
          ap (λ r. r >>= become)
              (on_active-eq-ok (λ t. ok (record t { refresh = 1 })) s n t (record t { refresh = 1 })
                h refl),
        ))
  | no ge ↦ inr (
      inr (
        o,
        omega arith,
        ap (λ r. r >>= become)
            (on_active_fault (λ t. ok (record t { refresh = 1 })) s n
              (get_elem?-none s.tty_table n (omega (arith, v.table)))),
      ))
]
  where
    become : Ttys → Outcome Ttys
    become s' = ok (record s' { active_tty = some n })

eq_ℤ-ne : {x y : ℤ} → eq_ℤ x y ≡ false → x ≢ y
eq_ℤ-ne {x = x} {y = y} h e = ground (arith, h, (eq_ℤ_iff x y).1 e)

active_id :
    (s : Ttys) (a : ℕ) (t : Tty)
    → s.active_tty ≡ some a
    → get_elem? s.tty_table a ≡ some t
    → tty_get_active s ≡ ok t.id
unfolding tty_get_active id_of
active_id s a t act h = ap named act ∙ rw (h, id_of) refl
  where
    named : Option ℕ → Outcome ℤ
    named o = elim o [ none ↦ ok minus_one | some n ↦ id_of s n ]

-- tty_select leaves the terminals as they are when the active one has that number. Otherwise it
-- makes the entry of that number active and sets its refresh flag. A number of TTY_MAX or more is
-- logged as invalid and used all the same: the access behind the table is undefined behaviour.
pub tty_select-Selects : (s : Ttys) (n : ℕ) → HasTable s → Selects s n (tty_select s (pos n))
unfolding tty_select select_other
tty_select-Selects s n v = elim (Option-cases s.active_tty) [
  | inl nothing ↦
      subst (Selects s n) (sym (ap (select_other s (pos n)) nothing))
        (select-Selects s n v (inl nothing))
  | inr (a, act) ↦
      let (t, h) = get_elem?-of_lt s.tty_table a (omega (arith, v.table, v.active_in a act)) in
      let run = ap (select_other s (pos n)) act ∙ ap (λ r. r >>= next) (active_id s a t act h) in
      subst (Selects s n) (sym run) (elim (Bool-cases (eq_ℤ t.id (pos n))) [
        | inl same ↦ inl (a, t, act, h, (eq_ℤ_iff t.id (pos n)).0 same, rw same refl)
        | inr other ↦ rw other (select-Selects s n v (inr (a, t, act, h, eq_ℤ-ne other)))
      ])
]
  where
    next : ℤ → Outcome Ttys
    next id = if eq_ℤ id (pos n) then ok s else select s (pos n)
