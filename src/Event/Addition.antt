-- ===== src/Event/Addition.antt =====
-- event_add: the event waits, for its descriptor and for its time.
use ilibevent.Base.{
  ℕ, ◌+◌, ◌%◌, ◌^◌, ◌≤◌, ◌<◌, ◌≡◌, refl, sym, ap, ◌∙◌, Bool, true, false, not, ◌&&◌, List, arith,
  update, Bool-cases, inl, inr, Option, none, some, is_some, Status, success, failure,
}
use ilibevent.Time.{Timeval, timeradd}
use ilibevent.TailQueue.Chain.{has}
use ilibevent.MinHeap.{MinHeap, u32_mod, min_heap_reserve}
use ilibevent.MinHeap.Push.{ReserveOutcome, reserve_lem}
use ilibevent.State.{Event, EventBase, Eventop}
use ilibevent.Event.Setup.{gettime}
use ilibevent.Event.Add.{register, event_add}
use ilibevent.Event.Invariant.{digit, View, Inv, settings}
use ilibevent.Event.Backend.{Backend, Fit, Keeps, same-Keeps}
use ilibevent.Event.Delete.{update-at, update-again}
use ilibevent.Event.Room.{larger-Inv, Became}
use ilibevent.Event.Register.{register_event, registered, Asked, register-Registers}
use ilibevent.Event.Schedule.{scheduled, schedule-Scheduled}
use ilibevent.Event.Outcome.{
  Added, lacks_room, AddCases, rest, reserved, event_add-run, event_add-fails,
}

module _ {B : Type 0} (evsel : Eventop B) (law : Backend evsel) (granted : Bool)
    (clock : Option Timeval) (known : List ℕ) (e : ℕ) (k : has e known ≡ true) (now : Timeval) where
  abbrev Rests : Option Timeval → EventBase B → Type 0
  Rests tv b =
      (status : Status) × (b' : EventBase B) × (rest evsel granted clock e tv b ≡ some (status, b'))
      × Added known b.event b.timeheap.ev_timeout e status tv now b'
      × Keeps law b b'
      × (b'.tv_cache ≡ b.tv_cache)
      × (settings b' ≡ settings b)
      × Asked evsel b e status b'

  registered-timeout : (ev : Event) → (registered ev).ev_flags.timeout ≡ ev.ev_flags.timeout
  registered-timeout ev = ground arith

  reads_still :
      (c b : EventBase B)
      → c.tv_cache ≡ b.tv_cache
      → gettime b clock ≡ some now
      → gettime c clock ≡ some now
  unfolding gettime
  reads_still c b same reads = rw same reads

  -- After the registration.
  rest_from :
      (tv : Option Timeval) (b : EventBase B)
      → (is_some tv ≡ true → b.timeheap.n < b.timeheap.a + digit (b.event e).ev_flags.timeout)
      → b.timeheap.n < 2 ^ 30
      → gettime b clock ≡ some now
      → (status : Status) × (b' : EventBase B) × (register evsel b e ≡ some (status, b'))
        × Became known b e (register_event status (b.event e)) b'
        × Keeps law b b'
        × Asked evsel b e status b'
      → Rests tv b
  rest_from tv b room small reads (failure, b', run, r, keeps, asked) = (
    failure,
    b',
    rw run refl,
    record { view = r.view; inv = r.inv; events = r.events; timeouts = r.timeouts },
    keeps,
    r.cache,
    r.fixed,
    asked,
  )
  rest_from none b room small reads (success, b', run, r, keeps, asked) = (
    success,
    b',
    rw run refl,
    record { view = r.view; inv = r.inv; events = r.events; timeouts = r.timeouts },
    keeps,
    r.cache,
    r.fixed,
    asked,
  )
  rest_from (some t) b room small reads (success, b', run, r, keeps, asked) =
      let here : b'.event e ≡ registered (b.event e) =
        ap (λ f. f e) r.events ∙ update-at b.event e _ in
      let waits : (b'.event e).ev_flags.timeout ≡ (b.event e).ev_flags.timeout =
        ap (λ x. x.ev_flags.timeout) here ∙ registered-timeout (b.event e) in
      let (b'', next, s) =
        schedule-Scheduled granted clock known r.view b' r.inv e k t now
          (omega (arith, room refl, r.count, r.capacity, ap digit waits))
          (omega (arith, r.count, small)) (λ c q. reads_still c b (q ∙ r.cache) reads) in
      (
        success,
        b'',
        rw (run, next) refl,
        record {
          view = s.view;
          inv = s.inv;
          events =
              s.events
              ∙ ap (λ f. update f e (scheduled (f e))) r.events
              ∙ update-again b.event e _ scheduled;
          timeouts = s.timeouts ∙ ap (λ f. update f e (timeradd now t)) r.timeouts;
        },
        λ fd m a. same-Keeps law b' b'' s.backend fd m (keeps fd m a),
        s.cache ∙ r.cache,
        s.fixed ∙ r.fixed,
        record {
          answered = λ p.
              asked.answered p ∙ ap (λ q. some (success, record b { evbase = q })) (sym s.backend);
          spared = λ p. (refl, s.backend ∙ (asked.spared p).1);
          refused = λ p. absurd (ground arith);
        },
      )

  abbrev pub Adds : Option Timeval → EventBase B → Type 0
  Adds tv b =
      (status : Status) × (b' : EventBase B) × (event_add evsel granted clock b e tv
        ≡ some (status, b'))
      × AddCases evsel granted known e tv now b status b'
      × Keeps law b b'
      × (b'.tv_cache ≡ b.tv_cache)

  module _ (tv : Option Timeval) (v : View) (b : EventBase B) (i : Inv known v b)
      (based : (b.event e).ev_base ≡ true) (fit : Fit law b e) (small : b.timeheap.n < 2 ^ 30)
      (reads : gettime b clock ≡ some now) where
    -- With an array of size `a`.
    roomy :
        (a : ℕ)
        → reserved evsel granted clock e tv b ≡ (success, record (b.timeheap) { a = a })
        → b.timeheap.a ≤ a
        → a < 2 ^ 31
        → (is_some tv ≡ true → b.timeheap.n < a + digit (b.event e).ev_flags.timeout)
        → lacks_room granted tv b e ≡ false
        → Adds tv b
    roomy a run more little room lacking =
        let b₀ = record b { timeheap = record (b.timeheap) { a = a } } in
        let (status, b', next, r, keeps, cache, fixed, asked) =
          rest_from tv b₀ room small (reads_still b₀ b refl reads) (
            register-Registers evsel law known v b₀ (larger-Inv known v b i a more little) e k
              fit) in
        (
          status,
          b',
          event_add-run evsel granted clock e tv b (record (b.timeheap) { a = a }) based run ∙ next,
          inr (
            lacking,
            record { view = r.view; inv = r.inv; events = r.events; timeouts = r.timeouts },
            fixed,
            a,
            more,
            asked,
          ),
          keeps,
          cache,
        )

    reserving :
        (is_some tv && not (b.event e).ev_flags.timeout) ≡ true
        → (status : Status) (h : MinHeap)
        → min_heap_reserve granted b.timeheap ((1 + b.timeheap.n) % u32_mod) ≡ (status, h)
        → ReserveOutcome granted b.timeheap ((1 + b.timeheap.n) % u32_mod) status h
        → Adds tv b
    reserving asked status h run (inl (ok, same, enough, more, little, why)) =
        roomy h.a (rw asked (run ∙ ap (λ x. (x, h)) ok ∙ ap (λ x. (success, x)) same)) more little
          (λ p. omega (arith, enough, small))
          (elim why [ inl given ↦ ground arith | inr fits ↦ ground (arith, small) ])
    reserving asked status h run (inr (fails, same, refused, full)) = (
      failure,
      b,
      event_add-fails evsel granted clock e tv b based
          (rw asked (run ∙ ap (λ x. (x, h)) fails ∙ ap (λ x. (failure, x)) same)),
      inl (ground (arith, small), refl, refl),
      λ fd m h. h,
      refl,
    )

    -- event_add of a known event that has an event_base and that the backend accepts, with fewer than 2 ^ 30
    -- timeouts and a clock that reads `now`, always returns and keeps the invariant, the cached time, and
    -- what the backend accepts. If it succeeds, an event for I/O that was neither inserted nor active is inserted; if a time is given, the event
    -- is in the heap, for `now` and that time, instead of an earlier timeout, and it is no longer
    -- active if it was so for a timeout. If the heap needs memory and gets none, it fails, and the whole base is as it
    -- was. Otherwise the backend is asked if the event is for I/O and neither inserted nor active, event_add
    -- fails if and only if the backend refuses, and then nothing but the state of the backend and the size of the
    -- array of timeouts has changed. The flags, the number of priorities and the other times of the base stay.
    pub event_add-Adds : Adds tv b
    event_add-Adds = elim (Bool-cases (is_some tv && not (b.event e).ev_flags.timeout)) [
      | inr plain ↦
          roomy b.timeheap.a (rw plain refl) (omega arith) i.heap.small
            (λ p. omega (arith, i.heap.fits, kept plain p)) (ground arith)
      | inl asked ↦ reserving asked _ _ refl (
          reserve_lem granted b.timeheap ((1 + b.timeheap.n) % u32_mod) (omega (arith, small))
            i.heap.small)
    ]
      where
        kept :
            (is_some tv && not (b.event e).ev_flags.timeout) ≡ false
            → is_some tv ≡ true
            → digit (b.event e).ev_flags.timeout ≡ 1
        kept plain p = ground arith
