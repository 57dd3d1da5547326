-- ===== src/Interrupts.antt =====
-- src/interrupts.c: the handler table and the two interrupt controllers. A handler that is not null is
-- a number, and what it does to the rest of the kernel a parameter. A controller gives back the mask
-- that was last written to its data port; what is written to the command ports is a list.
pub mod Mask
pub mod Register
pub mod Invariant
mod Examples
use Prim.Native.Nat.{bit_and, bit_or}
use wuros.Prelude.{
  ℕ, ◌-◌, ◌%◌, ℤ, pos, negsuc, ◌==◌, leb, ltb, not, ◌&&◌, Bool, if◌then◌else◌, List, [], ◌∷◌, ◌++◌,
  Option, none, some, get_elem?, get_or, set, replicate, length, Outcome, ok, stop, panic, fault,
  ◌>>=◌,
}
use wuros.Prelude.Bits.{shl, ones}

-- IRQ_MAX
abbrev pub irq_max : ℕ
irq_max = 240

-- PIC1_CMD, PIC2_CMD, PIC_EOI
abbrev pub pic1_cmd : ℕ
pic1_cmd = 32

abbrev pub pic2_cmd : ℕ
pic2_cmd = 160

abbrev pub pic_eoi : ℕ
pic_eoi = 32

-- The controllers: the masks behind PIC1_DATA and PIC2_DATA, and the commands that were written
pub record Pic : Type 0 where
  pub mask1 : ℕ
  pub mask2 : ℕ
  pub commands : List (ℕ × ℕ)

-- The globals of src/interrupts.c, with the interrupt descriptor table of the processor
pub record Interrupts : Type 0 where
  pub irq_handlers : List (Option ℕ)
  pub idt : List (Option ℕ)
  pub pic : Pic

-- IRQs from 0x20 on are mapped to the lines of the controllers.
abbrev pub remap : ℕ → ℕ
remap irq = if leb 32 irq then irq - 32 else irq

-- inportb and outportb on the data port of the controller that the line belongs to
pub in_mask : Pic → ℕ → ℕ
in_mask p line = if leb 8 line then p.mask2 else p.mask1

pub out_mask : Pic → ℕ → ℕ → Pic
out_mask p line mask =
    if leb 8 line then record p { mask2 = mask % 256 } else record p { mask1 = mask % 256 }

-- A shift by a negative number or by 32 and more is undefined behaviour.
abbrev pub on_line : {A : Type 0} → ℤ → (ℕ → A) → Outcome A
on_line (negsuc n) f = stop fault
on_line (pos irq) f = if ltb (remap irq) 32 then ok (f (remap irq)) else stop fault

pub enable_line : Pic → ℕ → Pic
unfolding in_mask out_mask
enable_line p line = out_mask p line (bit_and (in_mask p line) (ones 32 - shl line 1))

disable_line : Pic → ℕ → Pic
unfolding in_mask out_mask
disable_line p line = out_mask p line (bit_or (in_mask p line) (shl line 1))

pub line_enabled : Pic → ℕ → ℕ
unfolding in_mask
line_enabled p line = if bit_and (in_mask p line) (shl line 1) == 0 then 1 else 0

pub pic_irq_enable : Pic → ℤ → Outcome Pic
unfolding enable_line
pic_irq_enable p irq = on_line irq (enable_line p)

pub pic_irq_disable : Pic → ℤ → Outcome Pic
unfolding disable_line
pic_irq_disable p irq = on_line irq (disable_line p)

pub pic_irq_enabled : Pic → ℤ → Outcome ℕ
unfolding line_enabled
pic_irq_enabled p irq = on_line irq (line_enabled p)

-- The secondary controller's end of interrupt goes to both. A negative number is below 8.
pub pic_irq_dismiss : Pic → ℤ → Pic
pic_irq_dismiss p (pos irq) = record p {
  commands =
      if leb 8 (remap irq)
      then p.commands ++ (pic2_cmd, pic_eoi) ∷ (pic1_cmd, pic_eoi) ∷ []
      else p.commands ++ (pic1_cmd, pic_eoi) ∷ [];
}
pic_irq_dismiss p (negsuc n) = record p { commands = p.commands ++ (pic1_cmd, pic_eoi) ∷ [] }

-- irq >= 0x20 && irq <= 0x2F
abbrev pub from_pic : ℕ → Bool
from_pic irq = leb 32 irq && leb irq 47

add_handler : Interrupts → ℕ → ℕ → ℕ → Outcome Interrupts
unfolding pic_irq_enable
add_handler s irq entry handler =
    let s' = record s {
      idt = set s.idt irq (some entry);
      irq_handlers = set s.irq_handlers irq (some handler);
    } in
    if from_pic irq
    then (pic_irq_enable s'.pic (pos irq) >>= λ pic. ok (record s' { pic = pic }))
    else ok s'

pub interrupts_irq_register : Interrupts → ℤ → Option ℕ → Option ℕ → Outcome Interrupts
unfolding add_handler
interrupts_irq_register s (negsuc n) entry handler = stop panic
interrupts_irq_register s (pos irq) none handler = stop panic
interrupts_irq_register s (pos irq) (some entry) none = stop panic
interrupts_irq_register s (pos irq) (some entry) (some handler) =
    if leb irq_max irq then stop panic else add_handler s irq entry handler

pub dismiss_from : Interrupts → ℕ → Interrupts
unfolding pic_irq_dismiss
dismiss_from s irq =
    if from_pic irq then record s { pic = pic_irq_dismiss s.pic (pos (irq - 32)) } else s

module _ {S : Type 0} (run : ℕ → S → Outcome S) where
  run_handler : Interrupts → ℕ → S → Option ℕ → Outcome (Interrupts × S)
  unfolding dismiss_from
  run_handler s irq k none = stop panic
  run_handler s irq k (some handler) = do k' ← run handler k; ok (dismiss_from s irq, k')

  pub interrupts_irq_handler : Interrupts → ℤ → S → Outcome (Interrupts × S)
  unfolding run_handler
  interrupts_irq_handler s (negsuc n) k = stop panic
  interrupts_irq_handler s (pos irq) k =
      if leb irq_max irq then stop panic else run_handler s irq k (get_or s.irq_handlers irq none)

unfoldable pub interrupts_init : Interrupts → Interrupts
interrupts_init s = record s { irq_handlers = replicate irq_max none }
