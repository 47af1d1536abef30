-- ===== src/Event/Backend.antt =====
-- What event_add and event_del need of the backend, and what changes of an event_base leave its
-- invariant alone.
use ilibevent.Base.{
  ℕ, ◌+◌, ◌≡◌, refl, sym, ap, subst, fun_ext, true, false, not, ◌&&◌, List, arith, ◌==◌,
  if◌then◌else◌, update, Bool-cases, inl, inr, some, Status,
}
use ilibevent.TailQueue.Chain.{has}
use ilibevent.Base.Int.{ℤ}
use ilibevent.State.{
  EventMask, Event, EventBase, Eventop, Queue, timeout_queue, inserted_queue, active_queue,
}
use ilibevent.Event.Queues.{flag_of, set_flag, set_event}
use ilibevent.Event.Add.{abort_calls, remove_if}
use ilibevent.Event.Invariant.{digit, weight, active_weight, total-update, View, Inv, settings}
use ilibevent.Event.Dequeue.{remove_view, remove-Taken}

-- What event_add and event_del rely on. In some states, the backend accepts some descriptors and
-- masks. For these `add` and `del` return, they change the state of the backend only, and it still
-- accepts what it accepted.
pub record Backend {B : Type 0} (evsel : Eventop B) : Type 1 where
  pub accepts : B → ℤ → EventMask → Type 0
  pub add_law :
      (b : EventBase B) (e : ℕ)
      → accepts b.evbase (b.event e).ev_fd (b.event e).ev_events
      → (status : Status) × (s : B) × (evsel.add b e ≡ some (status, record b { evbase = s }))
        × ((fd : ℤ) (m : EventMask) → accepts b.evbase fd m → accepts s fd m)
  pub del_law :
      (b : EventBase B) (e : ℕ)
      → accepts b.evbase (b.event e).ev_fd (b.event e).ev_events
      → (status : Status) × (s : B) × (evsel.del b e ≡ some (status, record b { evbase = s }))
        × ((fd : ℤ) (m : EventMask) → accepts b.evbase fd m → accepts s fd m)

module _ {B : Type 0} {evsel : Eventop B} (law : Backend evsel) where
  -- The backend accepts the event.
  abbrev pub Fit : EventBase B → ℕ → Type 0
  Fit b e = law.accepts b.evbase (b.event e).ev_fd (b.event e).ev_events

  -- What it accepted in `b` it accepts in `b'`.
  abbrev pub Keeps : EventBase B → EventBase B → Type 0
  Keeps b b' = (fd : ℤ) (m : EventMask) → law.accepts b.evbase fd m → law.accepts b'.evbase fd m

  pub Keeps-Fit :
      (b b' : EventBase B) (e : ℕ)
      → Keeps b b'
      → (b'.event e).ev_fd ≡ (b.event e).ev_fd
      → (b'.event e).ev_events ≡ (b.event e).ev_events
      → Fit b e
      → Fit b' e
  Keeps-Fit b b' e keeps p q fit =
      subst (λ m. law.accepts b'.evbase (b'.event e).ev_fd m) (sym q)
        (subst (λ fd. law.accepts b'.evbase fd (b.event e).ev_events) (sym p)
          (keeps (b.event e).ev_fd (b.event e).ev_events fit))

  pub same-Keeps : (b b' : EventBase B) → b'.evbase ≡ b.evbase → Keeps b b'
  same-Keeps b b' same fd m h = subst (λ s. law.accepts s fd m) (sym same) h

module _ {B : Type 0} (known : List ℕ) (v : View) (b : EventBase B) (i : Inv known v b) where
  pub with_parts-Inv : (s : B) (n : ℕ) → Inv known v (record b { evbase = s; ncalls = n })
  with_parts-Inv s n = record {
    inserted_linked = i.inserted_linked;
    active_linked = i.active_linked;
    heap = i.heap;
    on_inserted = i.on_inserted;
    on_active = i.on_active;
    priority = i.priority;
    on_heap = i.on_heap;
    off_heap = i.off_heap;
    distinct = i.distinct;
    all_known = i.all_known;
    counted = i.counted;
    counted_active = i.counted_active;
  }

  pub abort_calls-parts : (e : ℕ) → (n : ℕ) × (abort_calls b e ≡ record b { ncalls = n })
  abort_calls-parts e =
      elim (Bool-cases (not ((b.event e).ev_ncalls == 0) && (b.event e).ev_pncalls)) [
        | inl h ↦ (0, rw h refl)
        | inr h ↦ (b.ncalls, rw h refl)
      ]

  -- A change to an event that spares its flags and its priority.
  pub set_event-Inv :
      (e : ℕ) (ev : Event)
      → has e known ≡ true
      → ev.ev_flags ≡ (b.event e).ev_flags
      → ev.ev_pri ≡ (b.event e).ev_pri
      → Inv known v (set_event b e ev)
  set_event-Inv e ev k f p = record {
    inserted_linked = i.inserted_linked;
    active_linked = i.active_linked;
    heap = i.heap;
    on_inserted = λ x q. ground (arith, i.on_inserted x q);
    on_active = λ x q. ground (arith, i.on_active x q);
    priority = λ x h. ground (arith, i.priority x);
    on_heap = λ x h. i.on_heap x (ground arith);
    off_heap = λ x h. i.off_heap x (ground arith);
    distinct = i.distinct;
    all_known = λ x h. ground (arith, i.all_known x);
    counted = ground (arith, i.counted, total-update weight b.event e ev known i.distinct k);
    counted_active =
        ground
          (arith, i.counted_active, total-update active_weight b.event e ev known i.distinct k);
  }

-- The view when the event has left the queue, if it was on it.
abbrev pub leave_view : View → ℕ → Event → Queue → View
leave_view v e ev queue = if flag_of queue ev.ev_flags then remove_view v e ev.ev_pri queue else v

-- How much of the heap an event on the queue is.
abbrev pub heap_part : Queue → Event → ℕ
heap_part timeout_queue ev = digit ev.ev_flags.timeout
heap_part inserted_queue ev = 0
heap_part active_queue ev = 0

heap_part-off :
    (queue : Queue) (ev : Event) → flag_of queue ev.ev_flags ≡ false → heap_part queue ev ≡ 0
heap_part-off timeout_queue ev h = ground arith
heap_part-off inserted_queue ev h = refl
heap_part-off active_queue ev h = refl

heap_part-on :
    (queue : Queue) (ev : Event)
    → flag_of queue ev.ev_flags ≡ true
    → heap_part queue ev ≡ (
        if flag_of queue (record {
          timeout = true;
          inserted = false;
          active = false;
          internal = false;
          init = false;
        })
        then 1
        else 0)
heap_part-on timeout_queue ev h = ground arith
heap_part-on inserted_queue ev h = refl
heap_part-on active_queue ev h = refl

-- `b'` does not have the event on the queue and is otherwise as `b`.
pub record Off {B : Type 0} (known : List ℕ) (v : View) (b : EventBase B) (e : ℕ) (queue : Queue)
    (b' : EventBase B) : Type 0 where
  pub inv : Inv known (leave_view v e (b.event e) queue) b'
  pub events :
      b'.event
      ≡ update b.event e
          (record (b.event e) { ev_flags = set_flag queue false (b.event e).ev_flags })
  pub priorities : b'.nactivequeues ≡ b.nactivequeues
  pub cache : b'.tv_cache ≡ b.tv_cache
  pub timeouts : b'.timeheap.ev_timeout ≡ b.timeheap.ev_timeout
  pub fixed : settings b' ≡ settings b
  pub capacity : b'.timeheap.a ≡ b.timeheap.a
  pub size : b'.timeheap.n + heap_part queue (b.event e) ≡ b.timeheap.n

set_flag-same :
    (queue : Queue) (ev : Event)
    → flag_of queue ev.ev_flags ≡ false
    → record ev { ev_flags = set_flag queue false ev.ev_flags } ≡ ev
set_flag-same timeout_queue ev h =
    ap (λ t. record ev { ev_flags = set_flag timeout_queue t ev.ev_flags }) (sym h)
set_flag-same inserted_queue ev h =
    ap (λ t. record ev { ev_flags = set_flag inserted_queue t ev.ev_flags }) (sym h)
set_flag-same active_queue ev h =
    ap (λ t. record ev { ev_flags = set_flag active_queue t ev.ev_flags }) (sym h)

pub update-same :
    (event : ℕ → Event) (e : ℕ) (ev : Event) → ev ≡ event e → event ≡ update event e ev
update-same event e ev h = fun_ext (λ x. ground arith)

pub remove_if-Off :
    {B : Type 0} (known : List ℕ) (v : View) (b : EventBase B) (i : Inv known v b) (e : ℕ)
    (queue : Queue)
    → has e known ≡ true
    → (b' : EventBase B) × (remove_if (flag_of queue (b.event e).ev_flags) b e queue ≡ some b')
      × Off known v b e queue b'
      × (b'.evbase ≡ b.evbase)
remove_if-Off known v b i e queue k = elim (Bool-cases (flag_of queue (b.event e).ev_flags)) [
  | inl h ↦
      let (b', run, t) = remove-Taken known v b i e k queue h in
      (
        b',
        rw h run,
        record {
          inv = rw h t.inv;
          events = t.events;
          priorities = t.priorities;
          cache = t.cache;
          fixed = ap settings t.kept;
          timeouts = t.timeouts;
          capacity = t.capacity;
          size = omega (arith, t.size, heap_part-on queue (b.event e) h);
        },
        t.backend,
      )
  | inr h ↦ (
    b,
    rw h refl,
    record {
      inv = rw h i;
      events = update-same b.event e _ (set_flag-same queue (b.event e) h);
      priorities = refl;
      cache = refl;
      fixed = refl;
      timeouts = refl;
      capacity = refl;
      size = omega (arith, heap_part-off queue (b.event e) h);
    },
    refl,
  )
]
