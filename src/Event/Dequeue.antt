-- ===== src/Event/Dequeue.antt =====
-- event_queue_remove keeps the invariant.
use ilibevent.Base.{ℕ, ◌+◌, ◌≡◌, refl, true, false, List, arith, if◌then◌else◌, update, some}
use ilibevent.TailQueue.{remove}
use ilibevent.TailQueue.Chain.{has, erase, has-erase}
use ilibevent.TailQueue.Links.{remove-erase}
use ilibevent.MinHeap.{MinHeap}
use ilibevent.MinHeap.Erase.{Removed, erase-remove}
use ilibevent.MinHeap.Valid.{InHeap}
use ilibevent.State.{Event, EventBase, Queue, timeout_queue, inserted_queue, active_queue}
use ilibevent.Event.Queues.{flag_of, decrement, set_flag, mark, count, event_queue_remove}
use ilibevent.Event.Invariant.{
  weight, active_weight, total-update, View, Inv, OnlyQueues, OthersKept,
}

-- Where the other events are found then.
abbrev pub remove_view : View → ℕ → ℕ → Queue → View
remove_view v e pri inserted_queue = record v {
  inserted = update v.inserted 0 (erase e (v.inserted 0));
}
remove_view v e pri active_queue = record v {
  active = update v.active pri (erase e (v.active pri));
}
remove_view v e pri timeout_queue = v

-- `b'` does not have the event on the queue, keeps the invariant, and is `b` in all else but the
-- counters and the queues.
pub record Taken {B : Type 0} (known : List ℕ) (v : View) (b : EventBase B) (e : ℕ) (queue : Queue)
    (b' : EventBase B) : Type 0 where
  pub inv : Inv known (remove_view v e (b.event e).ev_pri queue) b'
  pub events :
      b'.event
      ≡ update b.event e
          (record (b.event e) { ev_flags = set_flag queue false (b.event e).ev_flags })
  pub priorities : b'.nactivequeues ≡ b.nactivequeues
  pub backend : b'.evbase ≡ b.evbase
  pub cache : b'.tv_cache ≡ b.tv_cache
  pub timeouts : b'.timeheap.ev_timeout ≡ b.timeheap.ev_timeout
  pub kept : OnlyQueues b b'
  pub others : OthersKept queue b b'
  pub outside :
      (x : ℕ) → ¬ InHeap b.timeheap x → b'.timeheap.min_heap_idx x ≡ b.timeheap.min_heap_idx x
  pub capacity : b'.timeheap.a ≡ b.timeheap.a
  pub size :
      b'.timeheap.n
        + (if flag_of queue (record {
          timeout = true;
          inserted = false;
          active = false;
          internal = false;
          init = false;
        })
            then 1
            else 0)
      ≡ b.timeheap.n

module _ {B : Type 0} (known : List ℕ) (v : View) (b : EventBase B) (i : Inv known v b) (e : ℕ)
    (k : has e known ≡ true) where
  abbrev flagged : Queue → Event
  flagged queue = record (b.event e) { ev_flags = set_flag queue false (b.event e).ev_flags }

  abbrev marked : Queue → EventBase B
  marked queue = mark (count decrement b e) e queue false

  abbrev no_inserted : EventBase B
  no_inserted = record (marked inserted_queue) { eventqueue = remove b.eventqueue 0 e }

  no_inserted-Inv :
      (b.event e).ev_flags.inserted ≡ true
      → Inv known (remove_view v e (b.event e).ev_pri inserted_queue) no_inserted
  no_inserted-Inv h = record {
    inserted_linked =
        remove-erase b.eventqueue v.inserted i.inserted_linked 0 e
          (ground (arith, i.on_inserted e 0));
    active_linked = i.active_linked;
    heap = i.heap;
    on_inserted = λ x q.
        ground
          (arith, i.on_inserted x q, has-erase e x (v.inserted 0) (i.inserted_linked.distinct 0));
    on_active = λ x q. ground (arith, i.on_active x q);
    priority = λ x p. ground (arith, i.priority x);
    on_heap = λ x p. i.on_heap x (ground arith);
    off_heap = λ x p. i.off_heap x (ground arith);
    distinct = i.distinct;
    all_known = λ x p. ground (arith, i.all_known x);
    counted = ground (
      arith,
      i.counted,
      total-update weight b.event e (flagged inserted_queue) known i.distinct k,
    );
    counted_active = ground (
      arith,
      i.counted_active,
      total-update active_weight b.event e (flagged inserted_queue) known i.distinct k,
    );
  }

  abbrev no_active : EventBase B
  no_active = record (marked active_queue) {
    event_count_active = decrement b.event_count_active;
    activequeues = remove b.activequeues (b.event e).ev_pri e;
  }

  no_active-Inv :
      (b.event e).ev_flags.active ≡ true
      → Inv known (remove_view v e (b.event e).ev_pri active_queue) no_active
  no_active-Inv h = record {
    inserted_linked = i.inserted_linked;
    active_linked =
        remove-erase b.activequeues v.active i.active_linked (b.event e).ev_pri e
          (ground (arith, i.on_active e (b.event e).ev_pri));
    heap = i.heap;
    on_inserted = λ x q. ground (arith, i.on_inserted x q);
    on_active = λ x q. ground (
      arith,
      i.on_active x q,
      has-erase e x (v.active (b.event e).ev_pri) (i.active_linked.distinct (b.event e).ev_pri),
    );
    priority = λ x p. ground (arith, i.priority x);
    on_heap = λ x p. i.on_heap x (ground arith);
    off_heap = λ x p. i.off_heap x (ground arith);
    distinct = i.distinct;
    all_known = λ x p. ground (arith, i.all_known x);
    counted =
        ground (
          arith,
          i.counted,
          total-update weight b.event e (flagged active_queue) known i.distinct k,
        );
    counted_active = ground (
      arith,
      i.counted_active,
      total-update active_weight b.event e (flagged active_queue) known i.distinct k,
    );
  }

  abbrev no_timeout : MinHeap → EventBase B
  no_timeout t = record (marked timeout_queue) { timeheap = t }

  no_timeout-Inv :
      (t : MinHeap)
      → (b.event e).ev_flags.timeout ≡ true
      → Removed b.timeheap e t
      → Inv known v (no_timeout t)
  no_timeout-Inv t h gone = record {
    inserted_linked = i.inserted_linked;
    active_linked = i.active_linked;
    heap = gone.valid;
    on_inserted = λ x q. ground (arith, i.on_inserted x q);
    on_active = λ x q. ground (arith, i.on_active x q);
    priority = λ x p. ground (arith, i.priority x);
    on_heap = λ x p. (gone.entries x).1 (i.on_heap x (ground arith), λ q. ground arith);
    off_heap = λ x p j q r.
        let (old, other) = (gone.entries x).0 (j, q, r) in
        i.off_heap x (ground (arith, other)) old.0 old.1 old.2;
    distinct = i.distinct;
    all_known = λ x p. ground (arith, i.all_known x);
    counted = ground (
      arith,
      i.counted,
      total-update weight b.event e (flagged timeout_queue) known i.distinct k,
    );
    counted_active = ground (
      arith,
      i.counted_active,
      total-update active_weight b.event e (flagged timeout_queue) known i.distinct k,
    );
  }

  -- event_queue_remove of a known event that is on the queue takes it off the queue, clears its flag,
  -- keeps the invariant with both counters and the order of the other events, and changes no other event, no
  -- other queue and nothing else of the base. It never fails.
  pub remove-Taken :
      (queue : Queue)
      → flag_of queue (b.event e).ev_flags ≡ true
      → (b' : EventBase B) × (event_queue_remove b e queue ≡ some b') × Taken known v b e queue b'
  unfolding event_queue_remove
  remove-Taken inserted_queue h = (
    no_inserted,
    ground arith,
    record {
      inv = no_inserted-Inv h;
      events = refl;
      priorities = refl;
      kept = refl;
      others = (refl, refl, refl);
      outside = λ x h. refl;
      backend = refl;
      cache = refl;
      timeouts = refl;
      capacity = refl;
      size = omega arith;
    },
  )
  remove-Taken active_queue h = (
    no_active,
    ground (arith, i.priority e h),
    record {
      inv = no_active-Inv h;
      events = refl;
      priorities = refl;
      kept = refl;
      others = (refl, refl);
      outside = λ x h. refl;
      backend = refl;
      cache = refl;
      timeouts = refl;
      capacity = refl;
      size = omega arith;
    },
  )
  remove-Taken timeout_queue h =
      let (t, run, gone) = erase-remove b.timeheap e i.heap (i.on_heap e h) in
      (
        no_timeout t,
        rw run refl,
        record {
          inv = no_timeout-Inv t h gone;
          events = refl;
          priorities = refl;
          kept = refl;
          others = (refl, refl, refl);
          outside = gone.outside;
          backend = refl;
          cache = refl;
          timeouts = gone.timeouts;
          capacity = gone.capacity;
          size = omega (arith, gone.count);
        },
      )
