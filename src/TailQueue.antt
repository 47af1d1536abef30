-- ===== src/TailQueue.antt =====
-- The doubly linked tail queues that event.cpp and signal.cpp keep by hand: `struct event_list`, and
-- the `tqe_next` and `tqe_prev` of one link field of `struct event` (include/event.hpp).
-- The links of all events in one field are functions of the event, and the lists that use the field
-- are numbered. A `struct event**` points to the head of a list or to the `tqe_next` of an event.
pub mod Chain
pub mod Links
mod Tests
use ilibevent.Base.{ℕ, Option, none, some, update}

pub data Slot : Type 0 where
  head_of : ℕ → Slot
  next_of : ℕ → Slot

pub record TailQueue : Type 0 where
  pub tqh_first : ℕ → Option ℕ
  pub tqh_last : ℕ → Slot
  pub tqe_next : ℕ → Option ℕ
  pub tqe_prev : ℕ → Slot

-- *slot
abbrev pub read : TailQueue → Slot → Option ℕ
read s (head_of q) = s.tqh_first q
read s (next_of e) = s.tqe_next e

-- *slot = v
abbrev pub write : TailQueue → Slot → Option ℕ → TailQueue
write s (head_of q) v = record s { tqh_first = update s.tqh_first q v }
write s (next_of e) v = record s { tqe_next = update s.tqe_next e v }

-- tqh_first = NULL; tqh_last = &tqh_first
unfoldable pub init_list : TailQueue → ℕ → TailQueue
init_list s q = record s {
  tqh_first = update s.tqh_first q none;
  tqh_last = update s.tqh_last q (head_of q);
}

-- The four assignments that put `e` at the end of list `q`.
unfoldable pub insert_tail : TailQueue → ℕ → ℕ → TailQueue
insert_tail s q e =
    let linked = record s {
      tqe_next = update s.tqe_next e none;
      tqe_prev = update s.tqe_prev e (s.tqh_last q);
    } in
    let entered = write linked (linked.tqh_last q) (some e) in
    record entered { tqh_last = update entered.tqh_last q (next_of e) }

-- The conditional and the assignment that take `e` out of list `q`.
unfoldable pub remove : TailQueue → ℕ → ℕ → TailQueue
remove s q e =
    let closed : TailQueue = elim (s.tqe_next e) [
      | some n ↦ record s { tqe_prev = update s.tqe_prev n (s.tqe_prev e) }
      | none ↦ record s { tqh_last = update s.tqh_last q (s.tqe_prev e) }
    ] in
    write closed (s.tqe_prev e) (s.tqe_next e)
