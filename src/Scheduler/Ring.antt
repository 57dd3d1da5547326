-- ===== src/Scheduler/Ring.antt =====
-- src/scheduler.c: processes that take turns, and the writes to the table that do not disturb them.
use wuros.Prelude.{
  ℕ, zero, suc, ◌<◌, ◌≡◌, ◌≢◌, refl, sym, ap, ap₂, ◌∙◌, ℤ, pos, lt_ℤ, is_neg, not, ◌||◌,
  if◌then◌else◌, List, [], ◌∷◌, ◌++◌, Option, none, some, length, length-set, get_or, set, arith,
}
use wuros.Queue.{Queue, queue_size}
use wuros.Queue.Valid.{IsValid, contents}
use wuros.Proc.{Procs, Proc, active, blank_proc, proc_at, put_proc, pid_to_proc}
use wuros.Proc.Valid.{field-set}
use wuros.Scheduler.Rotate.{find_pid-set}

-- A time on the processor that is not negative
abbrev pub Counted : Proc → Type 0
Counted p = (c : ℕ) × (p.cpu_time ≡ pos c)

set-Counted :
    (xs : List Proc) (x e : ℕ) (p d : Proc)
    → Counted p
    → Counted (get_or xs e d)
    → Counted (get_or (set xs x p) e d)
set-Counted [] x e p d h old = old
set-Counted (y ∷ ys) zero zero p d h old = h
set-Counted (y ∷ ys) zero (suc e) p d h old = old
set-Counted (y ∷ ys) (suc x) zero p d h old = old
set-Counted (y ∷ ys) (suc x) (suc e) p d h old = set-Counted ys x e p d h old

-- The entries have the same process ids, and the sleep queue is the same.
pub record Alike (s s' : Procs) : Type 0 where
  pub pids : (e : ℕ) → (proc_at s' e).pid ≡ (proc_at s e).pid
  pub lookup : (pid : ℤ) → pid_to_proc s' pid ≡ pid_to_proc s pid
  pub size : length s'.proc_table ≡ length s.proc_table
  pub counts : (e : ℕ) → Counted (proc_at s e) → Counted (proc_at s' e)
  pub sleeps : s'.sleep_queue ≡ s.sleep_queue

pub Alike-trans : (s s' s'' : Procs) → Alike s s' → Alike s' s'' → Alike s s''
Alike-trans s s' s'' f g = record {
  pids = λ e. g.pids e ∙ f.pids e;
  lookup = λ pid. g.lookup pid ∙ f.lookup pid;
  size = g.size ∙ f.size;
  counts = λ e h. g.counts e (f.counts e h);
  sleeps = g.sleeps ∙ f.sleeps;
}

-- A write to the entry `x` that keeps its process id
pub write-Alike :
    (s : Procs) (x : ℕ) (p : Proc) (q : Queue) (o : Option ℕ)
    → p.pid ≡ (proc_at s x).pid
    → Counted p
    → Alike s (record (put_proc s x p) { run_queue = q; active_proc = o })
unfolding pid_to_proc
write-Alike s x p q o same counted = record {
  pids = λ e. field-set (λ p. p.pid) s.proc_table x e p blank_proc same;
  lookup = λ pid.
      ap (λ r. if is_neg pid || not (lt_ℤ pid (pos s.next_pid)) then none else r)
        (find_pid-set s.proc_table x p pid 0 same);
  size = length-set s.proc_table x p;
  counts = λ e h. set-Counted s.proc_table x e p blank_proc counted h;
  sleeps = refl;
}

-- A process, not the idle task, whose id the lookup takes to its entry
pub record IsPlaced (s : Procs) (e : ℕ) : Type 0 where
  pub inside : e < length s.proc_table
  pub other : (proc_at s e).pid ≢ pos 0
  pub found : pid_to_proc s (proc_at s e).pid ≡ some e
  pub counted : Counted (proc_at s e)

pub Alike-IsPlaced : (s s' : Procs) (e : ℕ) → Alike s s' → IsPlaced s e → IsPlaced s' e
Alike-IsPlaced s s' e f p = record {
  inside = omega (arith, f.size, p.inside);
  other = λ h. p.other (sym (f.pids e) ∙ h);
  found = ap (pid_to_proc s') (f.pids e) ∙ f.lookup (proc_at s e).pid ∙ p.found;
  counted = f.counts e p.counted;
}

abbrev pub AllPlaced : Procs → List ℕ → Type 0
AllPlaced s [] = Unit {0}
AllPlaced s (e ∷ es) = IsPlaced s e × AllPlaced s es

abbrev pub pids_of : Procs → List ℕ → List ℤ
pids_of s [] = []
pids_of s (e ∷ es) = (proc_at s e).pid ∷ pids_of s es

pub Alike-AllPlaced : (s s' : Procs) (es : List ℕ) → Alike s s' → AllPlaced s es → AllPlaced s' es
Alike-AllPlaced s s' [] f h = tt
Alike-AllPlaced s s' (e ∷ es) f (p, ps) = (Alike-IsPlaced s s' e f p, Alike-AllPlaced s s' es f ps)

pub AllPlaced-last :
    (s : Procs) (es : List ℕ) (a : ℕ) → AllPlaced s es → IsPlaced s a → AllPlaced s (es ++ a ∷ [])
AllPlaced-last s [] a h p = (p, tt)
AllPlaced-last s (e ∷ es) a (h, hs) p = (h, AllPlaced-last s es a hs p)

pub Alike-pids_of : (s s' : Procs) (es : List ℕ) → Alike s s' → pids_of s' es ≡ pids_of s es
Alike-pids_of s s' [] f = refl
Alike-pids_of s s' (e ∷ es) f = ap₂ (λ x xs. x ∷ xs) (f.pids e) (Alike-pids_of s s' es f)

pub pids_of-last :
    (s : Procs) (es : List ℕ) (a : ℕ)
    → pids_of s (es ++ a ∷ []) ≡ pids_of s es ++ (proc_at s a).pid ∷ []
pids_of-last s [] a = refl
pids_of-last s (e ∷ es) a = ap (λ l. (proc_at s e).pid ∷ l) (pids_of-last s es a)

pub length-pids_of : (s : Procs) (es : List ℕ) → length (pids_of s es) ≡ length es
length-pids_of s [] = refl
length-pids_of s (e ∷ es) = ap suc (length-pids_of s es)

-- The entry `a` runs, those of `ring` wait in the run queue, in order, and no process sleeps.
pub record TakesTurns (s : Procs) (a : ℕ) (ring : List ℕ) : Type 0 where
  pub valid : IsValid s.run_queue
  pub quiet : s.sleep_queue.size ≡ 0
  pub act : s.active_proc ≡ some a
  pub on : (proc_at s a).state ≡ active
  pub waits : contents s.run_queue ≡ pids_of s ring
  pub room : length ring < queue_size
  pub own : IsPlaced s a
  pub placed : AllPlaced s ring
