-- ===== src/Ringbuf/Examples.antt =====
-- src/ringbuf.c at concrete inputs.
use wuros.Prelude.{◌≡◌, refl, inl, inr, ℕ, List, [], ◌∷◌, arith, replicate}
use wuros.Fifo.{Op, put, get, answers, stored, refused, got}
use wuros.Ringbuf.{Ringbuf, ringbuf_write, ringbuf_read, ringbuf_read_mem}
use wuros.Ringbuf.Valid.{IsValid, busy_buffer, empty_buffer}
use wuros.Ringbuf.Refine.{ringbuf_answers, list_answers, ringbuf_refines_fifo}
use wuros.Ringbuf.Memory.{ReadsMem, ringbuf_read_mem_cases}

abbrev zeroes : ℕ → List ℕ
zeroes n = replicate n 0

abbrev fresh : Ringbuf
fresh = empty_buffer (zeroes 1024)

-- the bytes 104 and 105
abbrev greeting : Ringbuf
greeting = busy_buffer 0 1 (104 ∷ 105 ∷ zeroes 1022)

fresh-IsValid : IsValid fresh
fresh-IsValid = record { storage = refl; shape = inl refl }

greeting-IsValid : IsValid greeting
greeting-IsValid = record { storage = refl; shape = inr (0, 1, refl, omega arith, omega arith) }

script : List (Op ℕ)
script = get ∷ put 33 ∷ get ∷ get ∷ get ∷ []

answers-greeting :
    ringbuf_answers greeting script ≡ got 104 ∷ stored ∷ got 105 ∷ got 33 ∷ refused ∷ []
unfolding answers ringbuf_write ringbuf_read script
answers-greeting = refl

ringbuf_refines_fifo_example :
    ringbuf_answers greeting script ≡ list_answers (104 ∷ 105 ∷ []) script
ringbuf_refines_fifo_example = ringbuf_refines_fifo script greeting greeting-IsValid

ringbuf_read_mem_cases_example : ReadsMem greeting 1 (ringbuf_read_mem greeting 1)
ringbuf_read_mem_cases_example = ringbuf_read_mem_cases greeting 1 greeting-IsValid
