-- ===== src/Event/Enqueue.antt =====
-- event_queue_insert keeps the invariant.
use ilibevent.Base.{
  ℕ, ◌<◌, ◌≡◌, refl, Bool, true, false, List, [], ◌∷◌, ◌++◌, arith, ◌==◌, update, Bool-cases, inl,
  inr, some,
}
use ilibevent.TailQueue.{insert_tail}
use ilibevent.TailQueue.Chain.{has, has-append}
use ilibevent.TailQueue.Links.{insert_tail-append}
use ilibevent.MinHeap.{MinHeap}
use ilibevent.MinHeap.Push.{Pushed, PushOutcome, push-insert}
use ilibevent.Base.{◌^◌, Status}
use ilibevent.MinHeap.Valid.{InHeap}
use ilibevent.State.{Event, EventBase, Queue, timeout_queue, inserted_queue, active_queue}
use ilibevent.Event.Queues.{flag_of, increment, set_flag, mark, count, event_queue_insert}
use ilibevent.Event.Invariant.{
  weight, active_weight, total-update, View, Inv, OnlyQueues, OthersKept,
}

module _ {B : Type 0} (known : List ℕ) (v : View) (b : EventBase B) (i : Inv known v b) (e : ℕ)
    (k : has e known ≡ true) where
  abbrev flagged : Queue → Event
  flagged queue = record (b.event e) { ev_flags = set_flag queue true (b.event e).ev_flags }

  abbrev marked : Queue → EventBase B
  marked queue = mark (count increment b e) e queue true

  abbrev with_inserted : EventBase B
  with_inserted = record (marked inserted_queue) { eventqueue = insert_tail b.eventqueue 0 e }

  with_inserted-Inv :
      (b.event e).ev_flags.inserted ≡ false
      → Inv known
          (record v { inserted = update v.inserted 0 (v.inserted 0 ++ e ∷ []) })
          with_inserted
  with_inserted-Inv h = record {
    inserted_linked =
        insert_tail-append b.eventqueue v.inserted i.inserted_linked 0 e
          (λ r. ground (arith, i.on_inserted e r));
    active_linked = i.active_linked;
    heap = i.heap;
    on_inserted = λ x q. ground (arith, i.on_inserted x q, has-append x (v.inserted 0) (e ∷ []));
    on_active = λ x q. ground (arith, i.on_active x q);
    priority = λ x p. ground (arith, i.priority x);
    on_heap = λ x p. i.on_heap x (ground arith);
    off_heap = λ x p. i.off_heap x (ground arith);
    distinct = i.distinct;
    all_known = λ x p. ground (arith, i.all_known x);
    counted = ground (
      arith,
      i.counted,
      total-update weight b.event e (flagged inserted_queue) known i.distinct k,
    );
    counted_active = ground (
      arith,
      i.counted_active,
      total-update active_weight b.event e (flagged inserted_queue) known i.distinct k,
    );
  }

  abbrev with_active : EventBase B
  with_active = record (marked active_queue) {
    event_count_active = increment b.event_count_active;
    activequeues = insert_tail b.activequeues (b.event e).ev_pri e;
  }

  with_active-Inv :
      (b.event e).ev_flags.active ≡ false
      → (b.event e).ev_pri < b.nactivequeues
      → Inv known
          (record v {
            active = update v.active (b.event e).ev_pri (v.active (b.event e).ev_pri ++ e ∷ []);
          })
          with_active
  with_active-Inv h fits = record {
    inserted_linked = i.inserted_linked;
    active_linked =
        insert_tail-append b.activequeues v.active i.active_linked (b.event e).ev_pri e
          (λ r. ground (arith, i.on_active e r));
    heap = i.heap;
    on_inserted = λ x q. ground (arith, i.on_inserted x q);
    on_active =
        λ x q. ground (arith, i.on_active x q, has-append x (v.active (b.event e).ev_pri) (e ∷ []));
    priority = λ x p. ground (arith, i.priority x);
    on_heap = λ x p. i.on_heap x (ground arith);
    off_heap = λ x p. i.off_heap x (ground arith);
    distinct = i.distinct;
    all_known = λ x p. ground (arith, i.all_known x);
    counted =
        ground (
          arith,
          i.counted,
          total-update weight b.event e (flagged active_queue) known i.distinct k,
        );
    counted_active = ground (
      arith,
      i.counted_active,
      total-update active_weight b.event e (flagged active_queue) known i.distinct k,
    );
  }

  abbrev with_timeout : MinHeap → EventBase B
  with_timeout t = record (marked timeout_queue) { timeheap = t }

  with_timeout-Inv :
      (t : MinHeap)
      → (b.event e).ev_flags.timeout ≡ false
      → Pushed b.timeheap e t
      → Inv known v (with_timeout t)
  with_timeout-Inv t h pushed = record {
    inserted_linked = i.inserted_linked;
    active_linked = i.active_linked;
    heap = pushed.valid;
    on_inserted = λ x q. ground (arith, i.on_inserted x q);
    on_active = λ x q. ground (arith, i.on_active x q);
    priority = λ x p. ground (arith, i.priority x);
    on_heap = λ x p. (pushed.entries x).1 (elim (Bool-cases (e == x)) [
      | inl here ↦ inr (ground arith)
      | inr there ↦ inl (i.on_heap x (ground arith))
    ]);
    off_heap = λ x p j q r. elim ((pushed.entries x).0 (j, q, r)) [
      | inl (m, old, at) ↦ i.off_heap x (ground arith) m old at
      | inr same ↦ ground arith
    ];
    distinct = i.distinct;
    all_known = λ x p. ground (arith, i.all_known x);
    counted = ground (
      arith,
      i.counted,
      total-update weight b.event e (flagged timeout_queue) known i.distinct k,
    );
    counted_active = ground (
      arith,
      i.counted_active,
      total-update active_weight b.event e (flagged timeout_queue) known i.distinct k,
    );
  }

-- Where an inserted event is then found.
abbrev pub insert_view : View → ℕ → ℕ → Queue → View
insert_view v e pri inserted_queue = record v {
  inserted = update v.inserted 0 (v.inserted 0 ++ e ∷ []);
}
insert_view v e pri active_queue = record v {
  active = update v.active pri (v.active pri ++ e ∷ []);
}
insert_view v e pri timeout_queue = v

-- What an insertion needs: a list for the priority, or room in the heap.
abbrev pub Ready : {B : Type 0} → EventBase B → ℕ → Queue → Type 0
Ready b e inserted_queue = Unit {0}
Ready b e active_queue = (b.event e).ev_pri < b.nactivequeues
Ready b e timeout_queue = (b.timeheap.n < b.timeheap.a) × (b.timeheap.n < 2 ^ 30)

-- `b'` has the event on the queue, keeps the invariant, and is `b` in all else but the counters and
-- the queues.
pub record Inserted {B : Type 0} (known : List ℕ) (v : View) (b : EventBase B) (e : ℕ)
    (queue : Queue) (b' : EventBase B) : Type 0 where
  pub inv : Inv known (insert_view v e (b.event e).ev_pri queue) b'
  pub events :
      b'.event
      ≡ update b.event e
          (record (b.event e) { ev_flags = set_flag queue true (b.event e).ev_flags })
  pub priorities : b'.nactivequeues ≡ b.nactivequeues
  pub backend : b'.evbase ≡ b.evbase
  pub cache : b'.tv_cache ≡ b.tv_cache
  pub timeouts : b'.timeheap.ev_timeout ≡ b.timeheap.ev_timeout
  pub kept : OnlyQueues b b'
  pub others : OthersKept queue b b'
  pub outside :
      (x : ℕ) → ¬ InHeap b'.timeheap x → b'.timeheap.min_heap_idx x ≡ b.timeheap.min_heap_idx x

module _ {B : Type 0} (granted : Bool) (known : List ℕ) (v : View) (b : EventBase B) (e : ℕ)
    (i : Inv known v b) (k : has e known ≡ true) where
  push-Ready :
      (status : Status) (t : MinHeap)
      → Ready b e timeout_queue
      → PushOutcome granted b.timeheap e status t
      → Pushed b.timeheap e t
  push-Ready status t r (inl (_, p)) = p
  push-Ready status t r (inr (_, _, _, short)) = absurd (omega arith)

  -- event_queue_insert of a known event that is not on the queue, where the queue is ready for it,
  -- puts it at the end of the event queue, at the end of the active list of its priority, or into the
  -- heap, sets its flag, keeps the invariant with both counters, and changes no other event, no other queue and
  -- nothing else of the base.
  pub insert-Inserted :
      (queue : Queue)
      → flag_of queue (b.event e).ev_flags ≡ false
      → Ready b e queue
      → (b' : EventBase B) × (event_queue_insert granted b e queue ≡ some b')
        × Inserted known v b e queue b'
  unfolding event_queue_insert
  insert-Inserted inserted_queue h r = (
    with_inserted known v b i e k,
    ground arith,
    record {
      inv = with_inserted-Inv known v b i e k h;
      events = refl;
      priorities = refl;
      kept = refl;
      others = (refl, refl, refl);
      outside = λ x h. refl;
      backend = refl;
      cache = refl;
      timeouts = refl;
    },
  )
  insert-Inserted active_queue h r = (
    with_active known v b i e k,
    ground arith,
    record {
      inv = with_active-Inv known v b i e k h r;
      events = refl;
      priorities = refl;
      kept = refl;
      others = (refl, refl);
      outside = λ x h. refl;
      backend = refl;
      cache = refl;
      timeouts = refl;
    },
  )
  insert-Inserted timeout_queue h r =
      let (status, t, run, outcome) =
        push-insert granted b.timeheap e i.heap (i.off_heap e h) r.1 in
      let pushed = push-Ready status t r outcome in
      (
        with_timeout known v b i e k t,
        rw h (rw run refl),
        record {
          inv = with_timeout-Inv known v b i e k t h pushed;
          events = refl;
          priorities = refl;
          kept = refl;
          others = (refl, refl, refl);
          outside = pushed.outside;
          backend = refl;
          cache = refl;
          timeouts = pushed.timeouts;
        },
      )
