-- ===== src/Interrupts/Examples.antt =====
-- src/interrupts.c at concrete inputs.
use wuros.Prelude.{
  ℕ, ◌≡◌, refl, pos, [], none, some, replicate, Outcome, ok, stop, panic, arith, suc,
}
use wuros.Prelude.Masks.{changed}
use wuros.Interrupts.{
  Pic, Interrupts, line_enabled, pic_irq_enable, pic_irq_disable, interrupts_irq_register,
  interrupts_irq_handler, interrupts_init,
}
use wuros.Interrupts.Mask.{LineAfter, pic_irq_enabled-after}

-- Every line is disabled.
abbrev masked : Pic
masked = record { mask1 = 255; mask2 = 255; commands = [] }

abbrev fresh : Interrupts
fresh = record { irq_handlers = replicate 240 none; idt = replicate 256 none; pic = masked }

initial : interrupts_init (record fresh { irq_handlers = [] }) ≡ fresh
unfolding interrupts_init
initial = refl

pic_irq_enabled-after_example :
    LineAfter (pic_irq_enable masked (pos 1)) 1 (changed 1 1 1 (line_enabled masked 1))
    × LineAfter (pic_irq_disable masked (pos 1)) 1 (changed 1 1 0 (line_enabled masked 1))
pic_irq_enabled-after_example = pic_irq_enabled-after masked 1 1 (omega arith) (omega arith)

count_up : ℕ → ℕ → Outcome ℕ
count_up f k = ok (suc k)

no_handler : interrupts_irq_handler count_up fresh (pos 33) 5 ≡ stop panic
unfolding interrupts_irq_handler count_up
no_handler = refl

invalid : interrupts_irq_register fresh (pos 240) (some 7) (some 3) ≡ stop panic
unfolding interrupts_irq_register
invalid = refl
