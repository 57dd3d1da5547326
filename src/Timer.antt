-- ===== src/Timer.antt =====
-- src/timer.c and include/timer.h: timers with callbacks. A callback that is not null is a number, and
-- what it does to the rest of the kernel a parameter; none of the kernel's callbacks changes a timer.
pub mod Register
pub mod Freed
pub mod Tick
pub mod Invariant
mod Examples
use wuros.Prelude.{
  ℕ, zero, suc, ◌+◌, ℤ, pos, negsuc, minus_one, to_ℕ, incr, decr, eq_ℤ, lt_ℤ, is_neg, rem_ℤ, ◌||◌,
  not, Bool, if◌then◌else◌, List, [], ◌∷◌, Option, none, some, set, Outcome, ok, stop, fault, ◌>>=◌,
  replicate,
}
use wuros.Queue.{Queue, queue_init, queue_in, queue_out}

-- TIMERS_MAX
abbrev pub timers_max : ℕ
timers_max = 32

-- `timer_t`
pub record Timer : Type 0 where
  pub callback : Option ℕ
  pub interval : ℤ
  pub repeat : ℤ

-- The globals of src/timer.c
pub record Timers : Type 0 where
  pub timer_ticks : ℤ
  pub timers : List Timer
  pub timer_allocator : Queue

-- memset(timer, 0, sizeof(timer_t))
abbrev pub zeroed_timer : Timer
zeroed_timer = record { callback = none; interval = pos 0; repeat = pos 0 }

-- The ids of the allocator are those of the table.
pub timer_callback_register : Timers → Option ℕ → ℤ → ℤ → ℤ × Timers
timer_callback_register s none interval repeat = (minus_one, s)
timer_callback_register s (some f) interval repeat = elim (queue_out s.timer_allocator) [
  | none ↦ (minus_one, s)
  | some (id, q) ↦ (
    id,
    record s {
      timer_allocator = q;
      timers =
          set s.timers (to_ℕ id)
            (record { callback = some f; interval = interval; repeat = repeat });
    },
  )
]

pub timer_callback_unregister : Timers → ℤ → ℤ × Timers
timer_callback_unregister s id =
    if is_neg id || not (lt_ℤ id (pos timers_max))
    then (minus_one, s)
    else let s' = record s { timers = set s.timers (to_ℕ id) zeroed_timer } in
      elim (queue_in s'.timer_allocator id) [
        | none ↦ (minus_one, s')
        | some q ↦ (pos 0, record s' { timer_allocator = q })
      ]

-- a % b == 0, where the division by 0 is undefined behaviour
abbrev pub divides : ℤ → ℤ → Outcome Bool
divides (pos zero) ticks = stop fault
divides (pos (suc n)) ticks = ok (eq_ℤ (rem_ℤ ticks (suc n)) (pos 0))
divides (negsuc n) ticks = ok (eq_ℤ (rem_ℤ ticks (suc n)) (pos 0))

-- The entry `i` and the allocator after its repeat count was looked at. The result of
-- timer_callback_unregister is not looked at.
pub count_down : Timer → ℕ → Queue → Timer × Queue
count_down t i q =
    if lt_ℤ (pos 0) t.repeat
    then (record t { repeat = decr t.repeat }, q)
    else if eq_ℤ t.repeat (pos 0)
    then (zeroed_timer, elim (queue_in q (pos i)) [ none ↦ q | some q' ↦ q' ])
    else (t, q)

module _ {S : Type 0} (run : ℕ → S → Outcome S) where
  -- One round of the loop of timer_irq_handler
  visit : ℤ → Timer → ℕ → Queue → S → Outcome (Timer × Queue × S)
  unfolding count_down
  visit ticks t i q k = elim t.callback [
    | none ↦ ok (t, q, k)
    | some f ↦ do
      hit ← divides t.interval ticks
      k' ← if hit then run f k else ok k
      let r = count_down t i q
      ok (r.0, r.1, k')
  ]

  -- The rounds from the entry `i` on
  visit_all : ℤ → List Timer → ℕ → Queue → S → Outcome (List Timer × Queue × S)
  unfolding visit
  visit_all ticks [] i q k = ok ([], q, k)
  visit_all ticks (t ∷ ts) i q k = do
    r ← visit ticks t i q k
    rest ← visit_all ticks ts (i + 1) r.1 r.2
    ok (r.0 ∷ rest.0, rest.1, rest.2)

  pub timer_irq_handler : Timers → S → Outcome (Timers × S)
  unfolding visit_all
  timer_irq_handler s k = do
    let ticks = incr s.timer_ticks
    r ← visit_all ticks s.timers 0 s.timer_allocator k
    ok (record s { timer_ticks = ticks; timers = r.0; timer_allocator = r.1 }, r.2)

-- The loop that fills the allocator, from `i` on. A failure is only logged.
fill_timers : ℕ → ℕ → Queue → Queue
fill_timers zero i q = q
fill_timers (suc n) i q = elim (queue_in q (pos i)) [
  | none ↦ fill_timers n (i + 1) q
  | some q' ↦ fill_timers n (i + 1) q'
]

-- timer_init, before it registers its handler, as Boot does
unfoldable pub timer_init : Timers → Timers
unfolding fill_timers
timer_init s = record {
  timer_ticks = pos 0;
  timers = replicate timers_max zeroed_timer;
  timer_allocator = fill_timers timers_max 0 (queue_init s.timer_allocator);
}
