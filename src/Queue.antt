-- ===== src/Queue.antt =====
-- include/queue.h and src/queue.c: a circular queue of process and table indices.
-- `queue_init` and `queue_in` refuse a null pointer; a `Queue` is the object that a pointer which is
-- not null points to, as every caller's is. A function that fails changes nothing and returns
-- `none` for -1; `some` is 0 with what the function wrote.
pub mod Valid
pub mod Ids
pub mod Refine
mod Examples
use wuros.Prelude.{
  ℕ, ◌+◌, ◌-◌, ℤ, pos, minus_one, incr, eq_ℤ, rem_ℤ, Bool, true, false, ◌==◌, if◌then◌else◌, List,
  Option, none, some, get_at, set_at, fill,
}

-- `queue_t`. The size is counted up from 0, and down only when it is not 0.
pub record Queue : Type 0 where
  pub head : ℤ
  pub tail : ℤ
  pub size : ℕ
  pub items : List ℤ

-- QUEUE_SIZE
abbrev pub queue_size : ℕ
queue_size = 32

unfoldable pub queue_init : Queue → Queue
queue_init q = record {
  head = minus_one;
  tail = minus_one;
  size = 0;
  items = fill queue_size 0 minus_one q.items;
}

abbrev pub queue_is_empty : Queue → Bool
queue_is_empty q = if q.size == 0 then true else false

abbrev pub queue_is_full : Queue → Bool
queue_is_full q = if q.size == queue_size then true else false

enqueue : Queue → ℤ → Queue
enqueue q item =
    let head = if queue_is_empty q then pos 0 else q.head in
    let tail = rem_ℤ (incr q.tail) queue_size in
    record { head = head; tail = tail; size = q.size + 1; items = set_at q.items tail item }

unfoldable pub queue_in : Queue → ℤ → Option Queue
unfolding enqueue
queue_in q item = if queue_is_full q then none else some (enqueue q item)

dequeue : Queue → Queue
unfolding queue_init
dequeue q =
    let cleared = record q { items = set_at q.items q.head (pos 0) } in
    if eq_ℤ q.head q.tail
    then queue_init cleared
    else record cleared { head = rem_ℤ (incr q.head) queue_size; size = q.size - 1 }

unfoldable pub queue_out : Queue → Option (ℤ × Queue)
unfolding dequeue
queue_out q = if queue_is_empty q then none else some (get_at q.items q.head minus_one, dequeue q)
