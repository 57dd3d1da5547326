-- ===== src/Kproc/Started.antt =====
-- src/kproc.c: the processes that kproc_init leaves.
use wuros.Prelude.{
  ℕ, get_or, none, zero, suc, ◌+◌, ◌<◌, ◌≤◌, ◌≡◌, ◌≢◌, refl, sym, subst, ap, ◌∙◌, ℤ, pos, minus_one,
  eq_ℤ, List, [], ◌∷◌, ◌++◌, append_assoc, append-nil, length, length-append, Outcome, ok, ◌>>=◌,
  if◌then◌else◌, arith, false, codes,
}
use wuros.Queue.{Queue, queue_size, queue_init, queue_is_full}
use wuros.Queue.Valid.{IsValid, contents, length-contents, queue_init-IsValid, contents-queue_init}
use wuros.Queue.Refine.{queue_in_last}
use wuros.Proc.{Procs, Proc, Trapframe, proc_name_len, user, proc_max, blank_proc}
use wuros.Proc.Valid.{InTable}
use wuros.Kproc.Start.{Programs, own_tty, create_shells, create_players, kproc_init}
use wuros.Tty.{tty_get}
use wuros.Kproc.{Machine, kproc_attach_tty, fill_allocator, kproc_reset, reset_all, reset_proc}
use wuros.Queue.Ids.{ids}
use wuros.Kproc.Created.{Created, attached, creates, creates_idle}

fills :
    (n i : ℕ) (q : Queue)
    → IsValid q
    → n + length (contents q) ≤ queue_size
    → IsValid (fill_allocator n i q) × (contents (fill_allocator n i q) ≡ contents q ++ ids n i)
unfolding fill_allocator
fills zero i q v room = (v, sym (append-nil (contents q)))
fills (suc n) i q v room =
    let (q1, h, v1, c1) = queue_in_last q (pos i) v (omega arith) in
    let (v2, c2) =
      fills n (i + 1) q1 v1
        (omega (arith, ap length c1, length-append (contents q) (pos i ∷ []))) in
    let open_queue : queue_is_full q ≡ false = ground (arith, length-contents q) in
    rw (open_queue, fill_allocator)
      (rw h (
        v2,
        c2
            ∙ ap (λ l. l ++ ids n (i + 1)) c1
            ∙ append_assoc (contents q) (pos i ∷ []) (ids n (i + 1)),
      ))

length-reset_all : (ps : List Proc) → length (reset_all ps) ≡ length ps
unfolding reset_all
length-reset_all [] = refl
length-reset_all (p ∷ ps) = ap suc (length-reset_all ps)

reset_all-unused :
    (ps : List Proc) (e : ℕ) (d : Proc)
    → e < length ps
    → (get_or (reset_all ps) e d).pid ≡ minus_one
unfolding reset_all reset_proc
reset_all-unused [] e d h = absurd (omega arith)
reset_all-unused (p ∷ ps) zero d h = refl
reset_all-unused (p ∷ ps) (suc e) d h = reset_all-unused ps e d (omega arith)

-- What the globals of src/kproc.c and src/scheduler.c are before kproc_init: the arrays have their
-- sizes, no process is active, and scheduler_init has emptied the queues.
pub record IsFresh (s : Procs) : Type 0 where
  pub table : length s.proc_table ≡ proc_max
  pub allocator : length s.proc_allocator.items ≡ queue_size
  pub runs : IsValid s.run_queue
  pub nobody : contents s.run_queue ≡ []
  pub sleeps : IsValid s.sleep_queue
  pub no_proc : s.active_proc ≡ none
  pub awake : s.sleep_queue.size ≡ 0

resets : (s : Procs) → IsFresh s → Created 0 (kproc_reset s)
unfolding kproc_reset
resets s f =
    let q = queue_init s.proc_allocator in
    let (v, c) =
      fills proc_max 0 q (queue_init-IsValid s.proc_allocator f.allocator)
        (omega (arith, ap length (contents-queue_init s.proc_allocator))) in
    record {
      well = record {
        allocator = v;
        runs = f.runs;
        sleeps = f.sleeps;
        table = length-reset_all s.proc_table ∙ f.table;
        active_in = subst InTable (sym f.no_proc) tt;
      };
      next = refl;
      free = c ∙ ap (λ l. l ++ ids proc_max 0) (contents-queue_init s.proc_allocator);
      runs = f.nobody;
      pids = λ e lt. absurd (omega arith);
      ready = λ e lt. absurd (omega arith);
      counts = λ e lt. absurd (omega arith);
      unused = λ e le lt. reset_all-unused s.proc_table e blank_proc (omega (arith, f.table));
      nobody = f.no_proc;
      awake = f.awake;
    }

module _ (m : Machine) (ticks : ℕ) (stale : Trapframe) (programs : Programs) where
  shells :
      (k tty n : ℕ) (s : Procs)
      → Created n s
      → 0 < n
      → suc (k + n) ≤ proc_max
      → (s' : Procs) × (create_shells m ticks stale programs k tty s ≡ ok s') × Created (n + k) s'
  unfolding create_shells
  shells zero tty n s c lo hi = (s, refl, subst (λ j. Created j s) (omega arith) c)
  shells (suc k) tty n s c lo hi =
      let below : suc n < proc_max = omega arith in
      let rest : suc (k + (n + 1)) ≤ proc_max = omega arith in
      let more : 0 < n + 1 = omega arith in
      let (s1, r, c1) =
        creates m ticks stale n s programs.prog_shell (codes "shell") user c lo below
          (λ same. omega (arith, same)) in
      let s2 = (kproc_attach_tty s1 (pos n) (tty_get (pos tty))).1 in
      let (s', r', c') =
        shells k (tty + 1) (n + 1) s2 (attached (n + 1) s1 (pos n) _ c1) more rest in
      (s', ap (λ r. r >>= next tty k) r ∙ r', subst (λ j. Created j s') (omega arith) c')
    where
      next : ℕ → ℕ → ℤ × Procs → Outcome Procs
      next tty k r =
          create_shells m ticks stale programs k (tty + 1)
            (if eq_ℤ r.0 minus_one then r.1 else (kproc_attach_tty r.1 r.0 (tty_get (pos tty))).1)

  players :
      (k n : ℕ) (proc_ptr : ℕ) (name : List ℕ) (s : Procs)
      → Created n s
      → 0 < n
      → suc (k + n) ≤ proc_max
      → length name ≢ proc_name_len
      → (s' : Procs) × (create_players m ticks stale programs k proc_ptr name s ≡ ok s')
        × Created (n + k) s'
  unfolding create_players
  players zero n proc_ptr name s c lo hi short = (s, refl, subst (λ j. Created j s) (omega arith) c)
  players (suc k) n proc_ptr name s c lo hi short =
      let below : suc n < proc_max = omega arith in
      let rest : suc (k + (n + 1)) ≤ proc_max = omega arith in
      let more : 0 < n + 1 = omega arith in
      let (s1, r, c1) = creates m ticks stale n s proc_ptr name user c lo below short in
      let s2 = (kproc_attach_tty s1 (pos n) (tty_get (own_tty (pos n)))).1 in
      let (s', r', c') =
        players k (n + 1) proc_ptr name s2 (attached (n + 1) s1 (pos n) _ c1) more rest short in
      (s', ap (λ r. r >>= next proc_ptr name k) r ∙ r', subst (λ j. Created j s') (omega arith) c')
    where
      next : ℕ → List ℕ → ℕ → ℤ × Procs → Outcome Procs
      next proc_ptr name k r =
          create_players m ticks stale programs k proc_ptr name
            (kproc_attach_tty r.1 r.0 (tty_get (own_tty r.0))).1

  -- kproc_init, once the queues of the scheduler are empty, where the static arrays have their sizes: it
  -- comes to its end, and then the process table and the queues are well formed, the processes 0 to 10
  -- are there, each idle and in the entry of its number, the next id is 11, the allocator has the other
  -- entries in order, and the run queue has the ids 1 to 10 in order.
  pub kproc_init-Created :
      (s : Procs)
      → IsFresh s
      → (s' : Procs) × (kproc_init m ticks stale programs s ≡ ok s') × Created 11 s'
  unfolding kproc_init
  kproc_init-Created s f =
      let (s0, r0, c0) =
        creates_idle m ticks stale (kproc_reset s) programs.kproc_idle (resets s f) in
      let (s1, r1, c1) = shells 4 1 1 s0 c0 (omega arith) (omega arith) in
      let (s2, r2, c2) =
        players 3 5 programs.prog_ping (codes "ping") s1 c1 (omega arith) (omega arith)
          (λ same. omega (arith, same)) in
      let (s3, r3, c3) =
        players 3 8 programs.prog_pong (codes "pong") s2 c2 (omega arith) (omega arith)
          (λ same. omega (arith, same)) in
      (
        s3,
        ap (λ r. r >>= λ r. create_shells m ticks stale programs 4 1 r.1 >>= pings) r0
            ∙ ap (λ r. r >>= pings) r1
            ∙ ap (λ r. r >>= pongs) r2
            ∙ r3,
        c3,
      )
    where
      pongs : Procs → Outcome Procs
      pongs s = create_players m ticks stale programs 3 programs.prog_pong (codes "pong") s

      pings : Procs → Outcome Procs
      pings s = create_players m ticks stale programs 3 programs.prog_ping (codes "ping") s >>= λ s.
          create_players m ticks stale programs 3 programs.prog_pong (codes "pong") s
