-- ===== src/Event/Creation.antt =====
-- event_base_new makes a base that satisfies the invariant.
use ilibevent.Base.{
  ◌>>=◌, ◌⊎◌, subst, ℕ, ◌≡◌, ◌∙◌, refl, ap, sym, true, false, List, [], ◌∷◌, arith, Option, none,
  some, Status, success, failure, Bool-cases, inl, inr, ltb,
}
use ilibevent.Base.Int.{pos}
use ilibevent.Time.{Timeval}
use ilibevent.TailQueue.{Slot, init_list}
use ilibevent.TailQueue.Chain.{Distinct}
use ilibevent.MinHeap.{min_heap_ctor, min_heap_elem_init}
use ilibevent.State.{Event, EventBase}
use ilibevent.Event.Setup.{gettime, event_base_priority_init}
use ilibevent.Event.Invariant.{weight, active_weight, total, nowhere, View, Inv}
use ilibevent.Event.Priorities.{Initialised, event_base_priority_init-Initialised}
use ilibevent.Event.Lifecycle.{Mechanism, begun, zeroed, noted, event_base_new}

-- On no queue.
abbrev pub Idle : (ℕ → Event) → Type 0
Idle event =
    (e : ℕ)
    → ((event e).ev_flags.timeout ≡ false)
      × ((event e).ev_flags.inserted ≡ false)
      × ((event e).ev_flags.active ≡ false)

total-Idle :
    (event : ℕ → Event) (es : List ℕ)
    → Idle event
    → (total weight event es ≡ 0) × (total active_weight event es ≡ 0)
total-Idle event [] h = (refl, refl)
total-Idle event (x ∷ es) h =
    let (t, i, a) = h x in let (p, q) = total-Idle event es h in (ground arith, ground arith)

module _ {B : Type 0} (known : List ℕ) (distinct : Distinct known) where
  zeroed-Inv :
      (memory : EventBase B) (blank : B)
      → Idle memory.event
      → Inv known nowhere (zeroed memory blank)
  unfolding init_list min_heap_ctor
  zeroed-Inv memory blank idle = record {
    inserted_linked = record {
      chain = λ q. (ground arith, ground arith);
      distinct = λ q. tt;
      apart = λ q r e h k. ground arith;
    };
    active_linked = record {
      chain = λ q. (refl, refl);
      distinct = λ q. tt;
      apart = λ q r e h k. ground arith;
    };
    heap = record {
      ordered = λ c p q. absurd (omega arith);
      indexed = λ i h. absurd (omega arith);
      fits = omega arith;
      small = omega arith;
    };
    on_inserted = λ e q. ground (arith, (idle e).1);
    on_active = λ e q. ground (arith, (idle e).2);
    priority = λ e h. absurd (ground (arith, (idle e).2));
    on_heap = λ e h. absurd (ground (arith, (idle e).0));
    off_heap = λ e h i p q. absurd (omega arith);
    distinct = distinct;
    all_known = λ e h. ground (arith, (idle e).0, (idle e).1, (idle e).2);
    counted = ap pos (sym (total-Idle memory.event known idle).0);
    counted_active = ap pos (sym (total-Idle memory.event known idle).1);
  }

  -- The state of the backend and the time matter for no queue.
  pub other_fields-Inv :
      {v : View} (b : EventBase B) (tv : Timeval) (s : B)
      → Inv known v b
      → Inv known v (record b { event_tv = tv; evbase = s })
  other_fields-Inv b tv s i = record {
    inserted_linked = i.inserted_linked;
    active_linked = i.active_linked;
    heap = i.heap;
    on_inserted = i.on_inserted;
    on_active = i.on_active;
    priority = i.priority;
    on_heap = i.on_heap;
    off_heap = i.off_heap;
    distinct = i.distinct;
    all_known = i.all_known;
    counted = i.counted;
    counted_active = i.counted_active;
  }

  -- If no event is on a queue, one of them can be set to another value that is on none.
  pub set_idle-Inv :
      (b : EventBase B) (event : ℕ → Event) (e : ℕ) (s : B)
      → Inv known nowhere b
      → Idle b.event
      → Idle event
      → Inv known nowhere
          (record b { event = event; timeheap = min_heap_elem_init b.timeheap e; evbase = s })
  unfolding min_heap_elem_init
  set_idle-Inv b event e s i idle idle' =
      let none_due : b.timeheap.n ≡ 0 = elim (Bool-cases (ltb 0 b.timeheap.n)) [
        | inl some_due ↦
            absurd (i.off_heap (b.timeheap.p 0) (idle (b.timeheap.p 0)).0 0 (ground arith) refl)
        | inr none_due ↦ ground arith
      ] in
      record {
        inserted_linked = i.inserted_linked;
        active_linked = i.active_linked;
        heap = record {
          ordered = λ c p q. absurd (omega (arith, none_due));
          indexed = λ k h. absurd (omega (arith, none_due));
          fits = i.heap.fits;
          small = i.heap.small;
        };
        on_inserted = λ x q. ground (arith, (idle' x).1);
        on_active = λ x q. ground (arith, (idle' x).2);
        priority = λ x h. absurd (ground (arith, (idle' x).2));
        on_heap = λ x h. absurd (ground (arith, (idle' x).0));
        off_heap = λ x h k p q. absurd (omega (arith, none_due));
        distinct = distinct;
        all_known = λ x h. ground (arith, (idle' x).0, (idle' x).1, (idle' x).2);
        counted =
            i.counted
            ∙ ap pos ((total-Idle b.event known idle).0 ∙ sym (total-Idle event known idle').0);
        counted_active =
            i.counted_active
            ∙ ap pos ((total-Idle b.event known idle).1 ∙ sym (total-Idle event known idle').1);
      }

  noted-Inv :
      (b : EventBase B) (tv : Option Timeval)
      → Inv known nowhere b
      → Idle b.event
      → Inv known nowhere (noted b tv) × Idle (noted b tv).event
  noted-Inv b none i idle = (i, idle)
  noted-Inv b (some tv) i idle = (other_fields-Inv b tv b.evbase i, idle)

  -- No event is active, so that event_base_priority_init succeeds.
  initialised-Inv :
      (b : EventBase B)
      → Inv known nowhere b
      → (lists : ℕ → Option ℕ × Slot)
      → (s : Status) × (b' : EventBase B) × (event_base_priority_init true lists b 1 ≡ some (s, b'))
        × Inv known nowhere b'
        × (b'.nactivequeues ≡ 1)
        × (b'.evbase ≡ b.evbase)
  initialised-Inv b i lists =
      let (s, b', run, r) = event_base_priority_init-Initialised known nowhere b i lists 1 in
      let (inv, one, same) = by_status s b' r in (s, b', run, inv, one, same)
    where
      by_status :
          (s : Status) (b' : EventBase B)
          → Initialised known nowhere b i 1 s b'
          → Inv known nowhere b' × (b'.nactivequeues ≡ 1) × (b'.evbase ≡ b.evbase)
      by_status success b' (inv, one, events, heap, backend) = (inv, one, backend)
      by_status failure b' (same, (e, active)) =
          absurd (ground (arith, i.on_active e (b.event e).ev_pri))

  module _ (mech : Mechanism B) where
    -- The init function of the backend returns, and where it succeeds keeps the invariant of a base without events
    -- on its queues, and its own state is then in `P`.
    abbrev pub Begins : (B → Type 0) → Type 0
    Begins P =
        (b : EventBase B)
        → Idle b.event
        → Inv known nowhere b
        → (r : Option (EventBase B)) × (mech.init b ≡ some r)
          × ((b' : EventBase B) → r ≡ some b' → Inv known nowhere b' × P b'.evbase)

    -- event_base_new, if there is memory for it and the events of the program are on no queue, makes a base with
    -- one priority that satisfies the invariant, whatever the clock reads and the new memory holds, provided that
    -- the init function of the backend does as Begins says; the state of the backend is then in `P`, or there is none.
    pub event_base_new-Inv :
        (P : B → Type 0)
        → Begins P
        → (lists : ℕ → Option ℕ × Slot) (clock : Option Timeval) (memory : EventBase B) (blank : B)
        → Idle memory.event
        → (b : EventBase B) × (event_base_new mech true lists clock memory blank ≡ some b)
          × Inv known nowhere b
          × (b.nactivequeues ≡ 1)
          × (P b.evbase ⊎ (b.evbase ≡ blank))
    unfolding event_base_new
    event_base_new-Inv P begins lists clock memory blank idle =
        let b = noted (zeroed memory blank) (gettime (zeroed memory blank) clock) in
        let (i, idle') =
          noted-Inv (zeroed memory blank) (gettime (zeroed memory blank) clock)
            (zeroed-Inv memory blank idle) idle in
        let (r, run, keeps) = begins b idle' i in
        let (i', p) = begun-Inv b i r keeps in
        let (s, b', run', inv, one, same) = initialised-Inv (begun mech b r) i' lists in
        (
          b',
          ap (λ t. t >>= prepare b) run ∙ ap (λ t. t >>= λ p. some p.1) run',
          inv,
          one,
          state b b' r same
              (noted-backend (zeroed memory blank) (gettime (zeroed memory blank) clock)) p,
        )
      where
        prepare : EventBase B → Option (EventBase B) → Option (EventBase B)
        prepare b r = event_base_priority_init true lists (begun mech b r) 1 >>= λ p. some p.1

        begun-Inv :
            (b : EventBase B)
            → Inv known nowhere b
            → (r : Option (EventBase B))
            → ((b' : EventBase B) → r ≡ some b' → Inv known nowhere b' × P b'.evbase)
            → Inv known nowhere (begun mech b r)
              × (P (begun mech b r).evbase ⊎ ((begun mech b r).evbase ≡ b.evbase))
        begun-Inv b i none keeps = (i, inr refl)
        begun-Inv b i (some c) keeps = ((keeps c refl).0, inl (keeps c refl).1)

        state :
            (b b' : EventBase B) (r : Option (EventBase B))
            → b'.evbase ≡ (begun mech b r).evbase
            → b.evbase ≡ blank
            → P (begun mech b r).evbase ⊎ ((begun mech b r).evbase ≡ b.evbase)
            → P b'.evbase ⊎ (b'.evbase ≡ blank)
        state b b' r same start (inl p) = inl (subst P (sym same) p)
        state b b' r same start (inr q) = inr (same ∙ q ∙ start)

        noted-backend : (b : EventBase B) (tv : Option Timeval) → (noted b tv).evbase ≡ b.evbase
        noted-backend b none = refl
        noted-backend b (some t) = refl
