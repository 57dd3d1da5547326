-- ===== src/Timer/Freed.antt =====
-- src/timer.c: the ids that a tick gives back to the allocator.
use wuros.Prelude.{
  ℕ, zero, suc, ◌+◌, ◌≡◌, ap, ◌∙◌, ◌≤◌, sym, append_assoc, append-nil, length, length-append, ℤ,
  pos, negsuc, ◌==◌, ltb, eq_ℤ, true, false, if◌then◌else◌, List, [], ◌∷◌, ◌++◌, Option, none, some,
  arith,
}
use wuros.Queue.{Queue, queue_size}
use wuros.Queue.Valid.{IsValid, contents}
use wuros.Queue.Refine.{queue_in_last}
use wuros.Timer.{Timer, count_down}

-- The ids that a tick frees, in the order of the table: those of the timers in use with a count of 0
abbrev pub frees : Timer → ℕ → List ℤ
frees t i = elim t.callback [
  | none ↦ []
  | some f ↦ if eq_ℤ t.repeat (pos 0) then pos i ∷ [] else []
]

abbrev pub freed : List Timer → ℕ → List ℤ
freed [] i = []
freed (t ∷ ts) i = frees t i ++ freed ts (i + 1)

-- The allocator after an entry was looked at, and after all of them were
unfoldable pub after_visit : Timer → ℕ → Queue → Queue
after_visit t i q = elim t.callback [ none ↦ q | some f ↦ (count_down t i q).1 ]

unfoldable pub after_visits : List Timer → ℕ → Queue → Queue
after_visits [] i q = q
after_visits (t ∷ ts) i q = after_visits ts (i + 1) (after_visit t i q)

after_visit-frees :
    (cb : Option ℕ) (interval repeat : ℤ) (i : ℕ) (q : Queue)
    → let t : Timer = record { callback = cb; interval = interval; repeat = repeat } in
      IsValid q
      → length (contents q) + length (frees t i) ≤ queue_size
      → IsValid (after_visit t i q) × (contents (after_visit t i q) ≡ contents q ++ frees t i)
unfolding after_visit count_down
after_visit-frees none interval repeat i q v room = (v, sym (append-nil (contents q)))
after_visit-frees (some f) interval (pos zero) i q v room =
    let (q', h, v', c') = queue_in_last q (pos i) v (omega arith) in rw (h, after_visit) (v', c')
after_visit-frees (some f) interval (pos (suc n)) i q v room =
    let above : ltb 0 (suc n) ≡ true = ground arith in
    let other : (suc n == 0) ≡ false = ground arith in
    rw (above, after_visit) (rw other (v, sym (append-nil (contents q))))
after_visit-frees (some f) interval (negsuc n) i q v room = (v, sym (append-nil (contents q)))

pub after_visits-freed :
    (ts : List Timer) (i : ℕ) (q : Queue)
    → IsValid q
    → length (contents q) + length (freed ts i) ≤ queue_size
    → IsValid (after_visits ts i q) × (contents (after_visits ts i q) ≡ contents q ++ freed ts i)
unfolding after_visits
after_visits-freed [] i q v room = (v, sym (append-nil (contents q)))
after_visits-freed (t ∷ ts) i q v room =
    let more = length-append (frees t i) (freed ts (i + 1)) in
    let (v1, c1) =
      after_visit-frees t.callback t.interval t.repeat i q v (omega (arith, room, more)) in
    let (v2, c2) =
      after_visits-freed ts (i + 1) (after_visit t i q) v1
        (omega (arith, room, more, ap length c1, length-append (contents q) (frees t i))) in
    (
      v2,
      c2
          ∙ ap (λ l. l ++ freed ts (i + 1)) c1
          ∙ append_assoc (contents q) (frees t i) (freed ts (i + 1)),
    )
