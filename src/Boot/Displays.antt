-- ===== src/Boot/Displays.antt =====
-- include/test.h: test_init registers the displays.
use wuros.Prelude.{ℕ, ◌≡◌, ap, ◌∙◌, pos, minus_one, some, set}
use wuros.Queue.{Queue}
use wuros.Queue.Valid.{IsValid, contents}
use wuros.Queue.Ids.{ids}
use wuros.Timer.{Timers, timer_callback_register}
use wuros.Timer.Register.{register_first}
use wuros.Kernel.{Kernel}
use wuros.Kernel.Enter.{test_spinner_address, test_timer_address, test_proc_list_address}
use wuros.Boot.{start_tests}

-- A callback that stays in the entry `id` of the timers
abbrev pub with_callback : Timers → ℕ → ℕ → ℕ → Queue → Timers
with_callback s id f interval q = record s {
  timer_allocator = q;
  timers =
      set s.timers id (record { callback = some f; interval = pos interval; repeat = minus_one });
}

abbrev pub with_tests : Timers → Queue → Timers
with_tests s q =
    with_callback
      (with_callback (with_callback s 2 test_spinner_address 10 q) 3 test_timer_address 25 q) 4
      test_proc_list_address 10 q

-- The displays get the next three timers.
pub start_tests-registers :
    (k : Kernel)
    → IsValid k.timers.timer_allocator
    → contents k.timers.timer_allocator ≡ ids 30 2
    → (q : Queue) × (start_tests k ≡ record k { timers = with_tests k.timers q })
      × (contents q ≡ ids 27 5)
start_tests-registers k v c =
    let (q1, h1, v1, c1) =
      register_first k.timers test_spinner_address (pos 10) minus_one (pos 2) (ids 29 3) v c in
    let t1 = with_callback k.timers 2 test_spinner_address 10 q1 in
    let (q2, h2, v2, c2) =
      register_first t1 test_timer_address (pos 25) minus_one (pos 3) (ids 28 4) v1 c1 in
    let t2 = with_callback t1 3 test_timer_address 25 q2 in
    let (q3, h3, v3, c3) =
      register_first t2 test_proc_list_address (pos 10) minus_one (pos 4) (ids 27 5) v2 c2 in
    (
      q3,
      ap
            (λ r.
              let t =
                (timer_callback_register r.1 (some test_timer_address) (pos 25) minus_one).1 in
              record k {
                timers =
                    (timer_callback_register t (some test_proc_list_address) (pos 10) minus_one).1;
              })
            h1
          ∙ ap
              (λ r. record k {
                timers =
                    (timer_callback_register r.1 (some test_proc_list_address) (pos 10)
                      minus_one).1;
              })
              h2
          ∙ ap (λ r. record k { timers = r.1 }) h3,
      c3,
    )
