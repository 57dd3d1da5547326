-- ===== src/Timer/Examples.antt =====
-- src/timer.c at concrete inputs.
use wuros.Prelude.{
  ◌≡◌, refl, ℕ, ℤ, pos, minus_one, List, [], ◌∷◌, Outcome, ok, ◌>>=◌, stop, fault, some, arith,
}
use wuros.Queue.{Queue, queue_init, queue_in, queue_out}
use wuros.Timer.{
  Timer, Timers, zeroed_timer, timer_callback_register, timer_callback_unregister,
  timer_irq_handler, timer_init,
}
use wuros.Queue.Valid.{IsValid, contents}
use wuros.Timer.Tick.{run_all, AllSet, timer_irq_handler-Ticks}
use wuros.Samples.{nobody, nobody-IsValid}

-- Callbacks that note down that they were called
abbrev note : ℕ → List ℕ → Outcome (List ℕ)
note f calls = ok (f ∷ calls)

abbrev timer : ℤ → ℤ → Timer
timer interval repeat = record { callback = some 4096; interval = interval; repeat = repeat }

-- The first is called on every tick, the second on every fifth, and the third is freed.
abbrev three_timers : Timers
three_timers = record {
  timer_ticks = pos 7;
  timers = timer (pos 1) minus_one ∷ timer (pos 5) (pos 3) ∷ timer (pos 3) (pos 0) ∷ [];
  timer_allocator = nobody;
}

three_timers-AllSet : AllSet three_timers.timers
three_timers-AllSet =
    ((λ f h e. ground arith), ((λ f h e. ground arith), ((λ f h e. ground arith), tt)))

timer_irq_handler-Ticks_example :
    (q' : Queue) × (timer_irq_handler note three_timers [] ≡ (
      run_all note (4096 ∷ []) [] >>= λ k'. ok (
        record {
          timer_ticks = pos 8;
          timers = timer (pos 1) minus_one ∷ timer (pos 5) (pos 2) ∷ zeroed_timer ∷ [];
          timer_allocator = q';
        },
        k',
      )))
    × IsValid q'
    × (contents q' ≡ pos 2 ∷ [])
timer_irq_handler-Ticks_example =
    timer_irq_handler-Ticks note three_timers [] three_timers-AllSet nobody-IsValid (omega arith)

-- An interval of 0 divides by 0.
no_interval :
    timer_irq_handler note (record three_timers { timers = timer (pos 0) minus_one ∷ [] }) []
    ≡ stop fault
unfolding timer_irq_handler
no_interval = refl

out_of_range : timer_callback_unregister three_timers (pos 32) ≡ (minus_one, three_timers)
unfolding timer_callback_unregister
out_of_range = refl

first_id :
    (timer_callback_register (timer_init three_timers) (some 4096) (pos 1) minus_one).0 ≡ pos 0
unfolding timer_callback_register timer_init queue_init queue_in queue_out
first_id = refl
