-- ===== src/Event/Register.antt =====
-- The part of event_add that hands the event to the backend.
use ilibevent.Base.{
  ℕ, ◌≡◌, refl, sym, ap, ◌∙◌, Bool, true, false, not, ◌&&◌, ◌||◌, List, arith, if◌then◌else◌,
  update, Bool-cases, ◌⊎◌, inl, inr, some, Status, success, failure,
}
use ilibevent.TailQueue.Chain.{has}
use ilibevent.State.{Event, EventBase, Eventop, inserted_queue}
use ilibevent.Event.Queues.{event_queue_insert}
use ilibevent.Event.Add.{waits_for_io, register}
use ilibevent.Event.Invariant.{View, Inv, settings}
use ilibevent.Event.Enqueue.{insert-Inserted}
use ilibevent.Event.Backend.{Backend, Fit, Keeps, with_parts-Inv, same-Keeps, update-same}
use ilibevent.Event.Room.{Became}

-- The event waits for a descriptor and is neither with the backend nor active.
abbrev pub to_register : Event → Bool
to_register ev = waits_for_io ev && not (ev.ev_flags.inserted || ev.ev_flags.active)

abbrev pub registered : Event → Event
registered ev =
    if to_register ev then record ev { ev_flags = record (ev.ev_flags) { inserted = true } } else ev

-- What the event becomes: what it was, if the backend refuses.
abbrev pub register_event : Status → Event → Event
register_event success ev = registered ev
register_event failure ev = ev

-- How the backend answered: `status` is its result, and only its own state has changed if it refuses. An event
-- that need not be registered is not handed to it.
pub record Asked {B : Type 0} (evsel : Eventop B) (b : EventBase B) (e : ℕ) (status : Status)
    (b' : EventBase B) : Type 0 where
  pub answered :
      to_register (b.event e) ≡ true
      → evsel.add b e ≡ some (status, record b { evbase = b'.evbase })
  pub spared : to_register (b.event e) ≡ false → (status ≡ success) × (b'.evbase ≡ b.evbase)
  pub refused : status ≡ failure → b' ≡ record b { evbase = b'.evbase }

inserted-heap :
    {B : Type 0} (b : EventBase B) (e : ℕ) {b' : EventBase B}
    → event_queue_insert true b e inserted_queue ≡ some b'
    → b'.timeheap ≡ b.timeheap
unfolding event_queue_insert
inserted-heap b e run = ground arith

module _ {B : Type 0} (evsel : Eventop B) (law : Backend evsel) (known : List ℕ) (v : View)
    (b : EventBase B) (i : Inv known v b) (e : ℕ) (k : has e known ≡ true) where
  abbrev Registers : Type 0
  Registers =
      (status : Status) × (b' : EventBase B) × (register evsel b e ≡ some (status, b'))
      × Became known b e (register_event status (b.event e)) b'
      × Keeps law b b'
      × Asked evsel b e status b'

  unregistered : to_register (b.event e) ≡ false → Registers
  unfolding register
  unregistered h = (
    success,
    b,
    rw h refl,
    record {
      view = v;
      inv = i;
      events = update-same b.event e (registered (b.event e)) (rw h refl);
      priorities = refl;
      cache = refl;
      fixed = refl;
      timeouts = refl;
      count = refl;
      capacity = refl;
    },
    λ fd m h. h,
    record {
      answered = λ p. absurd (ground arith);
      spared = λ p. (refl, refl);
      refused = λ p. absurd (ground arith);
    },
  )

  refused :
      (s : B)
      → Keeps law b (record b { evbase = s })
      → to_register (b.event e) ≡ true
      → evsel.add b e ≡ some (failure, record b { evbase = s })
      → Registers
  unfolding register
  refused s keeps h call = (
    failure,
    record b { evbase = s },
    rw (h, call) refl,
    record {
      view = v;
      inv = with_parts-Inv known v b i s b.ncalls;
      events = update-same b.event e (b.event e) refl;
      priorities = refl;
      cache = refl;
      fixed = refl;
      timeouts = refl;
      count = refl;
      capacity = refl;
    },
    keeps,
    record { answered = λ p. call; spared = λ p. absurd (ground arith); refused = λ p. refl },
  )

  not_inserted : to_register (b.event e) ≡ true → (b.event e).ev_flags.inserted ≡ false
  not_inserted h = ground arith

  accepted :
      (s : B)
      → Keeps law b (record b { evbase = s })
      → to_register (b.event e) ≡ true
      → evsel.add b e ≡ some (success, record b { evbase = s })
      → Registers
  unfolding register
  accepted s keeps h call =
      let (b', run, t) =
        insert-Inserted true known v (record b { evbase = s }) e
          (with_parts-Inv known v b i s b.ncalls) k inserted_queue (not_inserted h) tt in
      let same = inserted-heap (record b { evbase = s }) e run in
      (
        success,
        b',
        rw (h, call, run) refl,
        record {
          view = _;
          inv = t.inv;
          events = t.events ∙ ap (update b.event e) (rw h refl);
          priorities = t.priorities;
          cache = t.cache;
          fixed = ap settings t.kept;
          timeouts = t.timeouts;
          count = ap (λ x. x.n) same;
          capacity = ap (λ x. x.a) same;
        },
        λ fd m a. same-Keeps law (record b { evbase = s }) b' t.backend fd m (keeps fd m a),
        record {
          answered = λ p. call ∙ ap (λ q. some (success, record b { evbase = q })) (sym t.backend);
          spared = λ p. absurd (ground arith);
          refused = λ p. absurd (ground arith);
        },
      )

  -- The hand-over never faults: the event is put on the event queue unless the backend refuses.
  pub register-Registers : Fit law b e → Registers
  register-Registers fit =
      let (status, s, call, keeps) = law.add_law b e fit in
      by_status status s call keeps (Bool-cases (to_register (b.event e)))
    where
      by_status :
          (status : Status) (s : B)
          → evsel.add b e ≡ some (status, record b { evbase = s })
          → Keeps law b (record b { evbase = s })
          → (to_register (b.event e) ≡ true) ⊎ (to_register (b.event e) ≡ false)
          → Registers
      by_status status s call keeps (inr h) = unregistered h
      by_status failure s call keeps (inl h) = refused s keeps h call
      by_status success s call keeps (inl h) = accepted s keeps h call
