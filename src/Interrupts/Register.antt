-- ===== src/Interrupts/Register.antt =====
-- src/interrupts.c: an interrupt whose handler was registered.
use wuros.Prelude.{
  ℕ, ◌-◌, ◌<◌, ◌≡◌, refl, sym, ap, ◌∙◌, inl, inr, pos, leb, ltb, Bool, true, false, Bool-cases,
  if◌then◌else◌, List, [], ◌∷◌, ◌++◌, append-nil, none, some, get_or, get_or-set_self, set, length,
  Outcome, ok, stop, panic, fault, ◌>>=◌, arith,
}
use wuros.Interrupts.{
  Pic, Interrupts, irq_max, pic1_cmd, pic2_cmd, pic_eoi, remap, out_mask, enable_line, from_pic,
  pic_irq_enable, pic_irq_dismiss, add_handler, interrupts_irq_register, dismiss_from, run_handler,
  interrupts_irq_handler,
}

-- The ends of interrupt that are sent for an interrupt
abbrev pub eois : ℕ → List (ℕ × ℕ)
eois irq =
    if from_pic irq
    then if leb 40 irq
      then (pic2_cmd, pic_eoi) ∷ (pic1_cmd, pic_eoi) ∷ []
      else (pic1_cmd, pic_eoi) ∷ []
    else []

-- The state after the registration
abbrev pub registered : Interrupts → ℕ → ℕ → ℕ → Interrupts
registered s irq entry handler = record s {
  idt = set s.idt irq (some entry);
  irq_handlers = set s.irq_handlers irq (some handler);
  pic = if from_pic irq then enable_line s.pic (irq - 32) else s.pic;
}

in_line :
    (p : Pic) (irq : ℕ)
    → from_pic irq ≡ true
    → pic_irq_enable p (pos irq) ≡ ok (enable_line p (irq - 32))
unfolding pic_irq_enable
in_line p irq h =
    ap on mapped ∙ ap (λ b. if b then ok (enable_line p (irq - 32)) else stop fault) inside
  where
    on : ℕ → Outcome Pic
    on line = if ltb line 32 then ok (enable_line p line) else stop fault

    mapped : remap irq ≡ irq - 32
    mapped = ground (arith, h)

    inside : ltb (irq - 32) 32 ≡ true
    inside = ground (arith, h)

-- interrupts_irq_register of an interrupt below IRQ_MAX
pub registers :
    (s : Interrupts) (irq entry handler : ℕ)
    → irq < irq_max
    → interrupts_irq_register s (pos irq) (some entry) (some handler)
      ≡ ok (registered s irq entry handler)
unfolding interrupts_irq_register add_handler
registers s irq entry handler h =
    ap (λ b. if b then stop panic else add_handler s irq entry handler) within
    ∙ elim (Bool-cases (from_pic irq)) [
      | inl here ↦
          rw (here, add_handler)
            (ap (λ r. r >>= λ pic. ok (record s1 { pic = pic })) (in_line s.pic irq here))
      | inr elsewhere ↦ rw (elsewhere, add_handler) refl
    ]
  where
    s1 : Interrupts
    s1 = record s {
      idt = set s.idt irq (some entry);
      irq_handlers = set s.irq_handlers irq (some handler);
    }

    within : leb irq_max irq ≡ false
    within = ground arith

dismissed :
    (s : Interrupts) (irq : ℕ) → (dismiss_from s irq).pic.commands ≡ s.pic.commands ++ eois irq
unfolding dismiss_from pic_irq_dismiss
dismissed s irq = elim (Bool-cases (from_pic irq)) [
  | inr elsewhere ↦ rw elsewhere (sym (append-nil s.pic.commands))
  | inl here ↦ rw here (ap sent (small here) ∙ ap both (second here) ∙ appended (leb 40 irq))
]
  where
    both : Bool → List (ℕ × ℕ)
    both b =
        if b
        then s.pic.commands ++ (pic2_cmd, pic_eoi) ∷ (pic1_cmd, pic_eoi) ∷ []
        else s.pic.commands ++ (pic1_cmd, pic_eoi) ∷ []

    appended :
        (b : Bool)
        → both b
          ≡ s.pic.commands
            ++ (if b
                then (pic2_cmd, pic_eoi) ∷ (pic1_cmd, pic_eoi) ∷ []
                else (pic1_cmd, pic_eoi) ∷ [])
    appended true = refl
    appended false = refl

    sent : Bool → List (ℕ × ℕ)
    sent b = both (leb 8 (if b then irq - 32 - 32 else irq - 32))

    small : from_pic irq ≡ true → leb 32 (irq - 32) ≡ false
    small h = ground arith

    second : from_pic irq ≡ true → leb 8 (irq - 32) ≡ leb 40 irq
    second h = ground arith

module _ {S : Type 0} (run : ℕ → S → Outcome S) where
  -- interrupts_irq_register of an interrupt below IRQ_MAX, and then interrupts_irq_handler of the same:
  -- the handler that was registered runs. Where it ends, the ends of interrupt are sent: none for an
  -- interrupt that is not from 0x20 to 0x2f, one to the primary controller for a line below 8, one to each
  -- controller for the others.
  pub registered_runs :
      (s : Interrupts) (irq entry handler : ℕ) (k : S)
      → irq < irq_max
      → length s.irq_handlers ≡ irq_max
      → let s1 = registered s irq entry handler in
        let s2 = dismiss_from s1 irq in
        (interrupts_irq_register s (pos irq) (some entry) (some handler) ≡ ok s1)
        × (interrupts_irq_handler run s1 (pos irq) k ≡ (run handler k >>= λ k'. ok (s2, k')))
        × (s2.pic.commands ≡ s.pic.commands ++ eois irq)
        × (s2.irq_handlers ≡ set s.irq_handlers irq (some handler))
  unfolding interrupts_irq_handler run_handler enable_line out_mask dismiss_from
  registered_runs s irq entry handler k h whole =
      let s1 = registered s irq entry handler in
      (
        registers s irq entry handler h,
        ap
              (λ b.
                if b
                then stop panic
                else run_handler run s1 irq k (get_or s1.irq_handlers irq none))
              within
            ∙ ap (run_handler run s1 irq k)
                (get_or-set_self s.irq_handlers irq (some handler) none (omega (arith, whole))),
        dismissed s1 irq ∙ ap (λ l. l ++ eois irq) same_commands,
        same_handlers,
      )
    where
      within : leb irq_max irq ≡ false
      within = ground arith

      same_commands : (registered s irq entry handler).pic.commands ≡ s.pic.commands
      same_commands = elim (Bool-cases (from_pic irq)) [
        | inl here ↦ rw here (elim (Bool-cases (leb 8 (irq - 32))) [
          | inl high ↦ rw high refl
          | inr low ↦ rw low refl
        ])
        | inr elsewhere ↦ rw elsewhere refl
      ]

      same_handlers :
          (dismiss_from (registered s irq entry handler) irq).irq_handlers
          ≡ set s.irq_handlers irq (some handler)
      same_handlers = elim (Bool-cases (from_pic irq)) [
        | inl here ↦ rw here refl
        | inr elsewhere ↦ rw elsewhere refl
      ]

  -- An interrupt that does not come from the controllers, with a handler: nothing is dismissed.
  pub software_runs :
      (s : Interrupts) (irq handler : ℕ) (k : S)
      → irq < irq_max
      → from_pic irq ≡ false
      → get_or s.irq_handlers irq none ≡ some handler
      → interrupts_irq_handler run s (pos irq) k ≡ (run handler k >>= λ k'. ok (s, k'))
  unfolding interrupts_irq_handler run_handler dismiss_from
  software_runs s irq handler k h elsewhere found =
      ap (λ b. if b then stop panic else run_handler run s irq k (get_or s.irq_handlers irq none))
        within
      ∙ ap (run_handler run s irq k) found
      ∙ ap
          (λ b. run handler k >>= λ k'.
            ok ((if b then record s { pic = pic_irq_dismiss s.pic (pos (irq - 32)) } else s), k'))
          elsewhere
    where
      within : leb irq_max irq ≡ false
      within = ground arith
