-- ===== src/Queue/Examples.antt =====
-- src/queue.c at concrete inputs.
use wuros.Prelude.{◌≡◌, refl, inr, pos, List, [], ◌∷◌, ◌++◌, ℤ, arith, replicate, minus_one}
use wuros.Fifo.{Op, put, get, answers, stored, refused, got}
use wuros.Queue.{Queue, queue_size, queue_init, queue_in, queue_out}
use wuros.Queue.Valid.{IsValid, contents, busy_queue, empty_queue}
use wuros.Queue.Refine.{queue_answers, list_answers, queue_refines_fifo}

abbrev zeroes : List ℤ
zeroes = replicate queue_size (pos 0)

-- two items, the second behind the end of the array
abbrev wrapped : Queue
wrapped = busy_queue 31 1 (pos 8 ∷ replicate 30 (pos 0) ++ pos 7 ∷ [])

wrapped-IsValid : IsValid wrapped
wrapped-IsValid = record { storage = refl; shape = inr (31, 1, refl, omega arith, omega arith) }

contents-wrapped : contents wrapped ≡ pos 7 ∷ pos 8 ∷ []
contents-wrapped = refl

script : List (Op ℤ)
script = get ∷ put (pos 9) ∷ get ∷ get ∷ get ∷ []

queue_init_clears :
    queue_init (record wrapped { items = zeroes }) ≡ empty_queue (replicate queue_size minus_one)
unfolding queue_init
queue_init_clears = refl

answers-wrapped :
    queue_answers wrapped script ≡ got (pos 7) ∷ stored ∷ got (pos 8) ∷ got (pos 9) ∷ refused ∷ []
unfolding answers queue_in queue_out script
answers-wrapped = refl

queue_refines_fifo_example : queue_answers wrapped script ≡ list_answers (pos 7 ∷ pos 8 ∷ []) script
queue_refines_fifo_example = queue_refines_fifo script wrapped wrapped-IsValid
