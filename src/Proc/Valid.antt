-- ===== src/Proc/Valid.antt =====
-- The well-formedness of the process table and of the queues of process ids.
use wuros.Prelude.{
  ℕ, zero, suc, refl, List, [], ◌∷◌, get_or, set, ◌<◌, ◌≡◌, ◌∙◌, Option, none, some, length,
  length-set,
}
use wuros.Queue.Valid.{IsValid}
use wuros.Proc.{Procs, Proc, proc_max, put_proc}

-- A pointer that is null or points into the table.
abbrev pub InTable : Option ℕ → Type 0
InTable none = Unit {0}
InTable (some e) = e < proc_max

pub record IsWellFormed (s : Procs) : Type 0 where
  pub allocator : IsValid s.proc_allocator
  pub runs : IsValid s.run_queue
  pub sleeps : IsValid s.sleep_queue
  pub table : length s.proc_table ≡ proc_max
  pub active_in : InTable s.active_proc

pub put_proc-IsWellFormed :
    (s : Procs) (e : ℕ) (p : Proc) → IsWellFormed s → IsWellFormed (put_proc s e p)
put_proc-IsWellFormed s e p w = record {
  allocator = w.allocator;
  runs = w.runs;
  sleeps = w.sleeps;
  table = length-set s.proc_table e p ∙ w.table;
  active_in = w.active_in;
}

-- A write that keeps a field of its entry keeps it everywhere.
pub field-set :
    {A : Type 0}
    → (field : Proc → A) (xs : List Proc) (x e : ℕ) (p d : Proc) → field p ≡ field (get_or xs x d)
    → field (get_or (set xs x p) e d) ≡ field (get_or xs e d)
field-set field [] x e p d h = refl
field-set field (y ∷ ys) zero zero p d h = h
field-set field (y ∷ ys) zero (suc e) p d h = refl
field-set field (y ∷ ys) (suc x) zero p d h = refl
field-set field (y ∷ ys) (suc x) (suc e) p d h = field-set field ys x e p d h
