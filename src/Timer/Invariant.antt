-- ===== src/Timer/Invariant.antt =====
-- src/timer.c: a tick keeps what every callback keeps.
use wuros.Prelude.{
  ℕ, zero, suc, ◌+◌, ℤ, pos, negsuc, incr, Bool, if◌then◌else◌, List, [], ◌∷◌, Outcome, ok, Keeps,
  Keeps-bind, Keeps-if, Keeps-elim,
}
use wuros.Queue.{Queue}
use wuros.Timer.{Timer, Timers, divides, visit, visit_all, timer_irq_handler}

abbrev AnyBool : Bool → Type 0
AnyBool b = Unit

divides-ends : (interval ticks : ℤ) → Keeps AnyBool (divides interval ticks)
divides-ends (pos zero) ticks = tt
divides-ends (pos (suc n)) ticks = tt
divides-ends (negsuc n) ticks = tt

module _ {S : Type 0} (run : ℕ → S → Outcome S) (P : S → Type 0)
    (keep : (f : ℕ) (k : S) → P k → Keeps P (run f k)) where
  abbrev OneTimer : Timer × Queue × S → Type 0
  OneTimer r = P r.2

  abbrev AllTimers : List Timer × Queue × S → Type 0
  AllTimers r = P r.2

  abbrev pub WithTimers : Timers × S → Type 0
  WithTimers r = P r.1

  visit-Keeps :
      (ticks : ℤ) (t : Timer) (i : ℕ) (q : Queue) (k : S)
      → P k
      → Keeps OneTimer (visit run ticks t i q k)
  unfolding visit
  visit-Keeps ticks t i q k p = Keeps-elim OneTimer t.callback (ok (t, q, k)) _ p (λ f e.
      Keeps-bind AnyBool OneTimer (divides t.interval ticks) _ (divides-ends t.interval ticks)
        (λ hit u.
          Keeps-bind P OneTimer (if hit then run f k else ok k) _
            (Keeps-if P hit (run f k) (ok k) (keep f k p) p) (λ k' p'. p')))

  visit_all-Keeps :
      (ticks : ℤ) (ts : List Timer) (i : ℕ) (q : Queue) (k : S)
      → P k
      → Keeps AllTimers (visit_all run ticks ts i q k)
  unfolding visit_all
  visit_all-Keeps ticks [] i q k p = p
  visit_all-Keeps ticks (t ∷ ts) i q k p =
      Keeps-bind OneTimer AllTimers (visit run ticks t i q k) _ (visit-Keeps ticks t i q k p)
        (λ r p1.
          Keeps-bind AllTimers AllTimers (visit_all run ticks ts (i + 1) r.1 r.2) _
            (visit_all-Keeps ticks ts (i + 1) r.1 r.2 p1) (λ rest p2. p2))

  pub timer_irq_handler-Keeps :
      (s : Timers) (k : S) → P k → Keeps WithTimers (timer_irq_handler run s k)
  unfolding timer_irq_handler
  timer_irq_handler-Keeps s k p =
      Keeps-bind AllTimers WithTimers
        (visit_all run (incr s.timer_ticks) s.timers 0 s.timer_allocator k) _
        (visit_all-Keeps (incr s.timer_ticks) s.timers 0 s.timer_allocator k p) (λ r p'. p')
