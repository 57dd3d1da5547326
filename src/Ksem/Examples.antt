-- ===== src/Ksem/Examples.antt =====
-- src/ksem.c at concrete inputs.
use wuros.Prelude.{
  ◌≡◌, refl, inl, inr, ℤ, pos, minus_one, ◌∷◌, Outcome, ok, arith, replicate, ◌>>=◌,
}
use wuros.Queue.{queue_in, queue_out, queue_init}
use wuros.Queue.Valid.{busy_queue}
use wuros.Kmutex.{fill_ids}
use wuros.Ksem.{
  Sem, Sems, wait, post, ksemaphores_init, ksem_init, ksem_destroy, ksem_wait, ksem_post,
}
use wuros.Ksem.Wait.{IsSound, Waits, wait-Waits}
use wuros.Ksem.Post.{Posts, post-Posts}
use wuros.Samples.{running, three-IsValid, nobody}

-- Its count is 0, and the process 2 waits.
abbrev awaited : Sem
awaited = record {
  allocated = pos 1;
  count = pos 0;
  wait_queue = busy_queue 0 0 (pos 2 ∷ replicate 31 minus_one);
}

awaited-IsSound : IsSound awaited
awaited-IsSound = record {
  in_use = refl;
  waiters = record { storage = refl; shape = inr (0, 0, refl, omega arith, omega arith) };
  counted = (0, refl, inl refl);
}

abbrev free_sem : Sem
free_sem = record { allocated = pos 0; count = pos 0; wait_queue = nobody }

abbrev table : Sems
table = record { procs = running; semaphores = replicate 16 free_sem; sem_queue = nobody }

wait-Waits_example : Waits running 4 awaited (wait running awaited)
wait-Waits_example = wait-Waits running 4 awaited awaited-IsSound three-IsValid refl (omega arith)

post-Posts_example : Posts running awaited 0 (post running awaited)
post-Posts_example = post-Posts running awaited 0 awaited-IsSound refl

-- A semaphore of count 2 is waited for once and posted once.
abbrev made : ℤ × Sems
made = ksem_init (ksemaphores_init table).1 (pos 2)

results : ℤ × Sems → Outcome (ℤ × ℤ)
results m = do r ← ksem_wait m.1 m.0; r2 ← ksem_post r.1 m.0; ok (r.0, r2.0)

wait_then_post : results made ≡ ok (pos 1, minus_one)
unfolding results ksemaphores_init ksem_init ksem_wait ksem_post fill_ids queue_init queue_in
    queue_out
wait_then_post = refl

-- A count of 0 cannot be destroyed, another one can.
destroys_counted : (ksem_destroy (λ m. m) made.1 made.0).0 ≡ pos 0
unfolding ksem_destroy ksemaphores_init ksem_init fill_ids queue_init queue_in queue_out
destroys_counted = refl
