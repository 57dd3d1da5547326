-- ===== src/Interrupts/Invariant.antt =====
-- src/interrupts.c: an interrupt keeps what every handler keeps.
use wuros.Prelude.{
  ℕ, ℤ, pos, negsuc, leb, Option, none, some, get_or, Outcome, stop, panic, Keeps, Keeps-bind,
  Keeps-if,
}
use wuros.Interrupts.{Interrupts, irq_max, run_handler, interrupts_irq_handler}

module _ {S : Type 0} (run : ℕ → S → Outcome S) (P : S → Type 0)
    (keep : (h : ℕ) (k : S) → P k → Keeps P (run h k)) where
  abbrev pub WithInterrupts : Interrupts × S → Type 0
  WithInterrupts r = P r.1

  run_handler-Keeps :
      (s : Interrupts) (irq : ℕ) (k : S) (o : Option ℕ)
      → P k
      → Keeps WithInterrupts (run_handler run s irq k o)
  unfolding run_handler
  run_handler-Keeps s irq k none p = tt
  run_handler-Keeps s irq k (some h) p =
      Keeps-bind P WithInterrupts (run h k) _ (keep h k p) (λ k' p'. p')

  pub interrupts_irq_handler-Keeps :
      (s : Interrupts) (irq : ℤ) (k : S)
      → P k
      → Keeps WithInterrupts (interrupts_irq_handler run s irq k)
  unfolding interrupts_irq_handler
  interrupts_irq_handler-Keeps s (negsuc n) k p = tt
  interrupts_irq_handler-Keeps s (pos irq) k p =
      Keeps-if WithInterrupts (leb irq_max irq) (stop panic) _ tt
        (run_handler-Keeps s irq k (get_or s.irq_handlers irq none) p)
