-- ===== src/Timer/Tick.antt =====
-- src/timer.c: what a tick does to the timers.
use wuros.Prelude.{
  ℕ, zero, suc, ◌+◌, ◌≡◌, ◌≢◌, refl, ap, ◌∙◌, ◌≤◌, sym, length, ℤ, pos, negsuc, incr, eq_ℤ, rem_ℤ,
  Bool, true, false, if◌then◌else◌, List, [], ◌∷◌, ◌++◌, map, Option, none, some, Outcome, ok, stop,
  ◌>>=◌, arith,
}
use wuros.Queue.{Queue, queue_size}
use wuros.Queue.Valid.{IsValid, contents}
use wuros.Timer.Freed.{freed, after_visit, after_visits, after_visits-freed}
use wuros.Timer.{
  Timer, Timers, zeroed_timer, divides, count_down, visit, visit_all, timer_irq_handler,
}

-- A timer after a tick: a repeat count above 0 is one lower, one of 0 frees the timer, and one below 0
-- stays.
abbrev pub counted : Timer → ℤ → Timer
counted t (pos zero) = zeroed_timer
counted t (pos (suc n)) = record t { repeat = pos n }
counted t (negsuc n) = t

abbrev pub after_tick : Timer → Timer
after_tick t = elim t.callback [ none ↦ t | some f ↦ counted t t.repeat ]

-- The distance of the interval from 0
abbrev pub magnitude : ℤ → ℕ
magnitude (pos n) = n
magnitude (negsuc n) = suc n

-- The callbacks whose interval divides the number of ticks, in the order of the table
abbrev pub hits : Timer → ℤ → List ℕ
hits t ticks = elim t.callback [
  | none ↦ []
  | some f ↦ if eq_ℤ (rem_ℤ ticks (magnitude t.interval)) (pos 0) then f ∷ [] else []
]

abbrev pub due : List Timer → ℤ → List ℕ
due [] ticks = []
due (t ∷ ts) ticks = hits t ticks ++ due ts ticks

-- A timer in use has an interval other than 0.
abbrev pub HasInterval : Timer → Type 0
HasInterval t = (f : ℕ) → t.callback ≡ some f → t.interval ≢ pos 0

abbrev pub AllSet : List Timer → Type 0
AllSet [] = Unit {0}
AllSet (t ∷ ts) = HasInterval t × AllSet ts

counted-eq : (t : Timer) (i : ℕ) (q : Queue) → (count_down t i q).0 ≡ counted t t.repeat
unfolding count_down
counted-eq t i q = by_repeat t.callback t.interval t.repeat
  where
    by_repeat :
        (cb : Option ℕ) (interval repeat : ℤ)
        → let u : Timer = record { callback = cb; interval = interval; repeat = repeat } in
          (count_down u i q).0 ≡ counted u repeat
    by_repeat cb interval (pos zero) = refl
    by_repeat cb interval (pos (suc n)) = ground arith
    by_repeat cb interval (negsuc n) = refl

bind-ok : {S : Type 0} → (m : Outcome S) → (m >>= ok) ≡ m
bind-ok (ok k) = refl
bind-ok (stop s) = refl

bind_pack :
    {A B S : Type 0}
    → (m : Outcome S) (pack : S → A) (f : A → B)
    → (m >>= (λ k. ok (pack k)) >>= (λ a. ok (f a))) ≡ (m >>= λ k. ok (f (pack k)))
bind_pack (ok k) pack f = refl
bind_pack (stop s) pack f = refl

module _ {S : Type 0} (run : ℕ → S → Outcome S) where
  -- The callbacks one after the other
  abbrev pub run_all : List ℕ → S → Outcome S
  run_all [] k = ok k
  run_all (f ∷ fs) k = run f k >>= run_all fs

  bind_both :
      (m : Outcome S) (f g h : S → Outcome S)
      → ((k : S) → h k ≡ (f k >>= g))
      → (m >>= h) ≡ (m >>= f >>= g)
  bind_both (ok k) f g h same = same k
  bind_both (stop s) f g h same = refl

  run_all-append : (fs gs : List ℕ) (k : S) → run_all (fs ++ gs) k ≡ (run_all fs k >>= run_all gs)
  run_all-append [] gs k = refl
  run_all-append (f ∷ fs) gs k =
      bind_both (run f k) (run_all fs) (run_all gs) (run_all (fs ++ gs)) (run_all-append fs gs)

  bind_chain :
      {A B : Type 0}
      → (m : Outcome S) (g : S → Outcome S) (pack : S → A) (next : A → Outcome B)
        (final : S → Outcome B)
      → ((k : S) → next (pack k) ≡ (g k >>= final))
      → (m >>= (λ k. ok (pack k)) >>= next) ≡ (m >>= g >>= final)
  bind_chain (ok k) g pack next final same = same k
  bind_chain (stop s) g pack next final same = refl

  call_if :
      (hit : Bool) (f : ℕ) (k : S)
      → (if hit then run f k else ok k) ≡ run_all (if hit then f ∷ [] else []) k
  call_if true f k = sym (bind-ok (run f k))
  call_if false f k = refl

  visit_set :
      (hit : Bool) (ticks : ℤ) (f : ℕ) (interval repeat : ℤ) (i : ℕ) (q : Queue) (k : S)
      → let t : Timer = record { callback = some f; interval = interval; repeat = repeat } in
        divides interval ticks ≡ ok hit
        → hits t ticks ≡ (if hit then f ∷ [] else [])
        → visit run ticks t i q k
          ≡ (run_all (hits t ticks) k >>= λ k'. ok (after_tick t, after_visit t i q, k'))
  unfolding visit after_visit
  visit_set hit ticks f interval repeat i q k divided called =
      let t : Timer = record { callback = some f; interval = interval; repeat = repeat } in
      ap
        (λ m. m >>= λ h. (if h then run f k else ok k) >>= λ k'.
          ok ((count_down t i q).0, (count_down t i q).1, k'))
        divided
      ∙ ap (λ m. m >>= λ k'. ok ((count_down t i q).0, (count_down t i q).1, k'))
          (call_if hit f k ∙ ap (λ fs. run_all fs k) (sym called))
      ∙ ap (λ u. run_all (hits t ticks) k >>= λ k'. ok (u, (count_down t i q).1, k'))
          (counted-eq t i q)

  visit-eq :
      (ticks : ℤ) (cb : Option ℕ) (interval repeat : ℤ) (i : ℕ) (q : Queue) (k : S)
      → let t : Timer = record { callback = cb; interval = interval; repeat = repeat } in
        HasInterval t
        → visit run ticks t i q k
          ≡ (run_all (hits t ticks) k >>= λ k'. ok (after_tick t, after_visit t i q, k'))
  unfolding visit after_visit
  visit-eq ticks none interval repeat i q k set_up = refl
  visit-eq ticks (some f) (pos zero) repeat i q k set_up = absurd (set_up f refl refl)
  visit-eq ticks (some f) (pos (suc n)) repeat i q k set_up =
      visit_set (eq_ℤ (rem_ℤ ticks (suc n)) (pos 0)) ticks f (pos (suc n)) repeat i q k refl refl
  visit-eq ticks (some f) (negsuc n) repeat i q k set_up =
      visit_set (eq_ℤ (rem_ℤ ticks (suc n)) (pos 0)) ticks f (negsuc n) repeat i q k refl refl

  visit_all-eq :
      (ticks : ℤ) (ts : List Timer) (i : ℕ) (q : Queue) (k : S)
      → AllSet ts
      → visit_all run ticks ts i q k
        ≡ (run_all (due ts ticks) k >>= λ k'. ok (map after_tick ts, after_visits ts i q, k'))
  unfolding visit_all after_visits
  visit_all-eq ticks [] i q k all_set = refl
  visit_all-eq ticks (t ∷ ts) i q k (first, others) =
      ap (λ m. m >>= rounds) (visit-eq ticks t.callback t.interval t.repeat i q k first)
      ∙ bind_chain (run_all (hits t ticks) k) (run_all (due ts ticks))
          (λ k'. (after_tick t, after_visit t i q, k')) rounds final
          (λ k1.
            ap (λ m. m >>= λ rest. ok (after_tick t ∷ rest.0, rest.1, rest.2))
              (visit_all-eq ticks ts (i + 1) (after_visit t i q) k1 others)
            ∙ bind_pack (run_all (due ts ticks) k1)
                (λ k'. (map after_tick ts, after_visits ts (i + 1) (after_visit t i q), k'))
                (λ rest. (after_tick t ∷ rest.0, rest.1, rest.2)))
      ∙ ap (λ m. m >>= final) (sym (run_all-append (hits t ticks) (due ts ticks) k))
    where
      rounds : Timer × Queue × S → Outcome (List Timer × Queue × S)
      rounds r =
          visit_all run ticks ts (i + 1) r.1 r.2 >>= λ rest. ok (r.0 ∷ rest.0, rest.1, rest.2)

      final : S → Outcome (List Timer × Queue × S)
      final k' = ok (map after_tick (t ∷ ts), after_visits ts (i + 1) (after_visit t i q), k')

  -- timer_irq_handler, with no interval of 0 in use and with room in the allocator for the ids that are
  -- freed: it counts the tick and calls exactly the callbacks whose interval divides the number of
  -- ticks, in the order of the table; its result is theirs, whether they end or stop. The repeat count
  -- of every timer in use that has one above 0 goes down on each tick, also on those that do not call
  -- it; a timer whose count is 0 is freed, and its id goes to the end of the allocator.
  pub timer_irq_handler-Ticks :
      (s : Timers) (k : S)
      → AllSet s.timers
      → IsValid s.timer_allocator
      → length (contents s.timer_allocator) + length (freed s.timers 0) ≤ queue_size
      → (q' : Queue) × (timer_irq_handler run s k ≡ (
          run_all (due s.timers (incr s.timer_ticks)) k >>= λ k'. ok (
            record {
              timer_ticks = incr s.timer_ticks;
              timers = map after_tick s.timers;
              timer_allocator = q';
            },
            k',
          )))
        × IsValid q'
        × (contents q' ≡ contents s.timer_allocator ++ freed s.timers 0)
  unfolding timer_irq_handler
  timer_irq_handler-Ticks s k all_set v room =
      let (v', c') = after_visits-freed s.timers 0 s.timer_allocator v room in
      let q' = after_visits s.timers 0 s.timer_allocator in
      (
        q',
        ap
              (λ m. m >>= λ r. ok (
                record { timer_ticks = incr s.timer_ticks; timers = r.0; timer_allocator = r.1 },
                r.2,
              ))
              (visit_all-eq (incr s.timer_ticks) s.timers 0 s.timer_allocator k all_set)
            ∙ bind_pack (run_all (due s.timers (incr s.timer_ticks)) k)
                (λ k'. (map after_tick s.timers, q', k'))
                (λ r. (
                  record { timer_ticks = incr s.timer_ticks; timers = r.0; timer_allocator = r.1 },
                  r.2,
                )),
        v',
        c',
      )
