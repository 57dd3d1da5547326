-- ===== src/Kproc/Created.antt =====
-- src/kproc.c: a process table in which the processes were created one after the other, and none ended.
use native.Mathlib.Decide.{dec_lt}
use wuros.Prelude.{
  ◌≤◌, ℕ, suc, ◌+◌, ◌-◌, ◌<◌, ◌≡◌, ◌≢◌, refl, sym, ap, ◌∙◌, inl, inr, ℤ, pos, minus_one, eq_ℤ, List,
  [], ◌∷◌, ◌++◌, Option, none, some, Option-cases, length, length-set, get_or-set_self,
  get_or-set_ne, set, get_or, ok, ◌>>=◌, arith, true, codes,
}
use wuros.Queue.{Queue}
use wuros.Queue.Valid.{IsValid, contents}
use wuros.Queue.Refine.{queue_out_first}
use wuros.Proc.{
  Procs, Proc, proc_at, put_proc, pid_to_proc, input, output, Trapframe, ProcType, proc_name_len,
  kernel, idle, proc_max, blank_proc,
}
use wuros.Proc.Valid.{field-set, IsWellFormed, put_proc-IsWellFormed}
use wuros.Scheduler.{scheduler_add}
use wuros.Kproc.Create.{created, stored_name, kproc_create-eq-ok}
use wuros.Kproc.{
  Machine, copy_name, frame_outside, trapframe_offset, stack_offset, kproc_create, start_proc,
  kproc_attach_tty,
}
use wuros.Queue.Ids.{ids, length-ids, ids_step, ids_end}

-- The processes 0 to n - 1 are there, each in the entry of its number, and all but the idle task stand
-- in the run queue.
pub record Created (n : ℕ) (s : Procs) : Type 0 where
  pub well : IsWellFormed s
  pub next : s.next_pid ≡ n
  pub free : contents s.proc_allocator ≡ ids (proc_max - n) n
  pub runs : contents s.run_queue ≡ ids (n - 1) 1
  pub pids : (e : ℕ) → e < n → (proc_at s e).pid ≡ pos e
  pub ready : (e : ℕ) → e < n → (proc_at s e).state ≡ idle
  pub counts : (e : ℕ) → e < n → (proc_at s e).cpu_time ≡ pos 0
  pub unused : (e : ℕ) → n ≤ e → e < proc_max → (proc_at s e).pid ≡ minus_one
  pub nobody : s.active_proc ≡ none
  pub awake : s.sleep_queue.size ≡ 0

-- A write to an entry that keeps its process id, its state and its time on the processor
rewritten :
    (n : ℕ) (s : Procs) (e : ℕ) (p : Proc)
    → p.pid ≡ (proc_at s e).pid
    → p.state ≡ (proc_at s e).state
    → p.cpu_time ≡ (proc_at s e).cpu_time
    → Created n s
    → Created n (put_proc s e p)
rewritten n s e p same_pid same_state same_time c = record {
  well = put_proc-IsWellFormed s e p c.well;
  next = c.next;
  free = c.free;
  runs = c.runs;
  pids = λ k lt. kept (λ p. p.pid) k same_pid ∙ c.pids k lt;
  ready = λ k lt. kept (λ p. p.state) k same_state ∙ c.ready k lt;
  counts = λ k lt. kept (λ p. p.cpu_time) k same_time ∙ c.counts k lt;
  unused = λ k le lt. kept (λ p. p.pid) k same_pid ∙ c.unused k le lt;
  nobody = c.nobody;
  awake = c.awake;
}
  where
    kept :
        {A : Type 0}
        → (field : Proc → A) (k : ℕ) → field p ≡ field (proc_at s e)
        → field (proc_at (put_proc s e p) k) ≡ field (proc_at s k)
    kept field k same = field-set field s.proc_table e k p blank_proc same

pub attached :
    (n : ℕ) (s : Procs) (pid : ℤ) (tty : Option ℕ)
    → Created n s
    → Created n (kproc_attach_tty s pid tty).1
unfolding kproc_attach_tty
attached n s pid tty c = elim (Option-cases (pid_to_proc s pid)) [
  | inl e ↦ rw (e, kproc_attach_tty) c
  | inr (e, h) ↦ rw (h, kproc_attach_tty) (by_tty e tty)
]
  where
    by_tty :
        (e : ℕ) (tty : Option ℕ)
        → Created n
            (elim tty as (λ o. ℤ × Procs) [
              | none ↦ (minus_one, s)
              | some t ↦
                  let p = proc_at s e in
                  (
                    pos 0,
                    put_proc s e
                        (record p { io = set (set p.io 0 (some (input t))) 1 (some (output t)) }),
                  )
            ]).1
    by_tty e none = c
    by_tty e (some t) = rewritten n s e _ refl refl refl c

-- One more entry of the table is in use.
pub extends :
    (n : ℕ) (s : Procs) (p : Proc) (allocator q : Queue)
    → Created n s
    → n < proc_max
    → p.pid ≡ pos n
    → p.state ≡ idle
    → p.cpu_time ≡ pos 0
    → IsValid allocator
    → contents allocator ≡ ids (proc_max - suc n) (n + 1)
    → IsValid q
    → contents q ≡ ids n 1
    → Created (n + 1) (record s {
      proc_allocator = allocator;
      next_pid = s.next_pid + 1;
      run_queue = q;
      proc_table = set s.proc_table n p;
    })
extends n s p allocator q c hi pid state time va ca vq cq = record {
  well = record {
    allocator = va;
    runs = vq;
    sleeps = c.well.sleeps;
    table = length-set s.proc_table n p ∙ c.well.table;
    active_in = c.well.active_in;
  };
  next = ap (λ k. k + 1) c.next;
  free = ca ∙ ap (λ k. ids k (n + 1)) (same_number (omega arith));
  runs = cq ∙ ap (λ k. ids k 1) (same_number (omega arith));
  pids = λ e lt. at e lt (λ p. p.pid) pos pid (c.pids e);
  ready = λ e lt. at e lt (λ p. p.state) (λ k. idle) state (c.ready e);
  counts = λ e lt. at e lt (λ p. p.cpu_time) (λ k. pos 0) time (c.counts e);
  unused = λ e le lt.
      ap (λ p. p.pid) (get_or-set_ne s.proc_table n e p blank_proc (λ same. omega arith))
      ∙ c.unused e (omega arith) lt;
  nobody = c.nobody;
  awake = c.awake;
}
  where
    same_number : {a b : ℕ} → a ≡ b → a ≡ b
    same_number h = h

    at :
        (e : ℕ)
        → e < n + 1
        → {A : Type 0} → (field : Proc → A) (value : ℕ → A) → field p ≡ value n
        → (e < n → field (proc_at s e) ≡ value e)
        → field (get_or (set s.proc_table n p) e blank_proc) ≡ value e
    at e lt field value here before = elim (dec_lt e n) [
      | yes below ↦
          ap field (get_or-set_ne s.proc_table n e p blank_proc (λ same. omega arith))
          ∙ before below
      | no above ↦
          let same : e ≡ n = omega (arith, above) in
          ap (λ k. field (get_or (set s.proc_table n p) k blank_proc)) same
          ∙ ap field (get_or-set_self s.proc_table n p blank_proc (omega (arith, c.well.table)))
          ∙ here
          ∙ ap value (sym same)
    ]

module _ (m : Machine) (ticks : ℕ) (stale : Trapframe) where
  pub creates :
      (n : ℕ) (s : Procs) (proc_ptr : ℕ) (name : List ℕ) (type : ProcType)
      → Created n s
      → 0 < n
      → suc n < proc_max
      → length name ≢ proc_name_len
      → (s' : Procs) × (kproc_create m ticks stale s proc_ptr name type ≡ ok (pos n, s'))
        × Created (n + 1) s'
  unfolding start_proc
  creates n s proc_ptr name type c lo hi short =
      let free : contents s.proc_allocator ≡ pos n ∷ ids (proc_max - suc n) (n + 1) =
        c.free ∙ ids_step (proc_max - n) (proc_max - suc n) n (omega arith) in
      let (allocator, q, r, va, ca, vq, cq) =
        kproc_create-eq-ok m ticks stale s n proc_ptr (ids (proc_max - suc n) (n + 1)) name type
          c.well free hi short (omega (arith, lo, c.next))
          (omega (arith, hi, ap length c.runs, length-ids (n - 1) 1)) in
      let s' = created m ticks stale s n proc_ptr type (stored_name name) allocator q in
      (
        s',
        r ∙ ap (λ k. ok (pos k, s')) c.next,
        extends n s _ allocator q c (omega arith) (ap pos c.next) refl refl va ca vq (
            cq
            ∙ ap (λ k. contents s.run_queue ++ pos k ∷ []) c.next
            ∙ ap (λ l. l ++ pos n ∷ []) c.runs
            ∙ ids_end n lo),
      )

  add_idle :
      (s : Procs) (e : ℕ) → eq_ℤ (proc_at s e).pid (pos 0) ≡ true → scheduler_add s (some e) ≡ ok s
  unfolding scheduler_add
  add_idle s e h = rw h refl

  -- The first process has the id 0 and is not scheduled.
  pub creates_idle :
      (s : Procs) (proc_ptr : ℕ)
      → Created 0 s
      → (s' : Procs) × (kproc_create m ticks stale s proc_ptr (codes "idle") kernel
          ≡ ok (pos 0, s'))
        × Created 1 s'
  unfolding kproc_create copy_name start_proc frame_outside trapframe_offset stack_offset
  creates_idle s proc_ptr c =
      let (allocator, h, va, ca) =
        queue_out_first s.proc_allocator (pos 0) (ids 19 1) c.well.allocator c.free in
      let p = start_proc m ticks stale (proc_at s 0) 0 s.next_pid proc_ptr kernel (codes "idle") in
      let s1 : Procs = record s { proc_allocator = allocator; next_pid = s.next_pid + 1 } in
      let s' = put_proc s1 0 p in
      let here : proc_at s' 0 ≡ p =
        get_or-set_self s.proc_table 0 p blank_proc (omega (arith, c.well.table)) in
      (
        s',
        rw (h, kproc_create)
            (ap (λ r. r >>= λ s'. ok (pos s.next_pid, s'))
                (add_idle s' 0
                  (ap (λ p. eq_ℤ p.pid (pos 0)) here ∙ ap (λ k. eq_ℤ (pos k) (pos 0)) c.next))
              ∙ ap (λ k. ok (pos k, s')) c.next),
        extends 0 s p allocator s.run_queue c (omega arith) (ap pos c.next) refl refl va ca
            c.well.runs c.runs,
      )
