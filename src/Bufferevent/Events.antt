-- ===== src/Bufferevent/Events.antt =====
-- What a bufferevent needs of event_add and event_del for its two events, and that they give it.
use ilibevent.Base.{
  ℕ, ◌<◌, ◌^◌, ◌≡◌, refl, ap, ◌∙◌, sym, subst, ◌⊎◌, inl, inr, Bool, true, List, arith, ◌==◌,
  Bool-cases, Option, none, some, Status, success, failure, update, length,
}
use ilibevent.Base.Int.{ℤ}
use ilibevent.Time.{Timeval}
use ilibevent.TailQueue.Chain.{has}
use ilibevent.State.{EventMask, Event, EventBase, Eventop}
use ilibevent.Event.Setup.{gettime}
use ilibevent.Event.Add.{event_add, event_del}
use ilibevent.Event.Invariant.{View, Inv}
use ilibevent.Event.Backend.{Backend, Fit, Keeps, Keeps-Fit, update-same}
use ilibevent.Event.Delete.{off_queues, event_del-Deleted}
use ilibevent.Event.Outcome.{add_event, AddCases}
use ilibevent.Event.Addition.{event_add-Adds}
use ilibevent.Event.Count.{Timerless, heap_bounded}
use ilibevent.Bufferevent.State.{Env}
use ilibevent.Bufferevent.Setup.{timeval_of}

-- In a good state event_add and event_del return for the events `r` and `w`, the state is good again, and
-- of all events only the one given is changed, as add_event and off_queues say.
pub record Calls {B : Type 0} (evsel : Eventop B) (env : Env) (r w : ℕ) : Type 1 where
  pub good : EventBase B → Type 0
  pub add_law :
      (b : EventBase B)
      → good b
      → (e : ℕ) → (e ≡ r) ⊎ (e ≡ w)
      → (tv : Option Timeval)
      → (s : Status) × (b' : EventBase B) × (event_add evsel env.heap_room env.clock b e tv
          ≡ some (s, b'))
        × good b'
        × (b'.event ≡ update b.event e (add_event s tv (b.event e)))
  pub del_law :
      (b : EventBase B)
      → good b
      → (e : ℕ) → (e ≡ r) ⊎ (e ≡ w)
      → (s : Status) × (b' : EventBase B) × (event_del evsel b e ≡ some (s, b'))
        × good b'
        × (b'.event ≡ update b.event e (off_queues (b.event e)))

-- `c` is what event_add, called for the event `e` with the timeout of a bufferevent, makes of the base `b`.
abbrev pub Handed : {B : Type 0} → Eventop B → Env → EventBase B → ℕ → ℤ → EventBase B → Type 0
Handed evsel env b e timeout c =
    (s : Status) × (event_add evsel env.heap_room env.clock b e (timeval_of timeout) ≡ some (s, c))
    × (c.event ≡ update b.event e (add_event s (timeval_of timeout) (b.event e)))

-- The descriptor and the base of an event, and what it waits for.
abbrev parts : Event → Bool × ℤ × EventMask
parts ev = (ev.ev_base, ev.ev_fd, ev.ev_events)

add_event-parts :
    (s : Status) (tv : Option Timeval) (ev : Event) → parts (add_event s tv ev) ≡ parts ev
add_event-parts failure tv ev = refl
add_event-parts success none ev = ground arith
add_event-parts success (some t) ev = ground arith

update-parts :
    (event : ℕ → Event) (e x : ℕ) (ev : Event)
    → parts ev ≡ parts (event e)
    → parts (update event e ev x) ≡ parts (event x)
update-parts event e x ev h = elim (Bool-cases (x == e)) [
  | inl same ↦ ground (arith, h)
  | inr other ↦ ground arith
]

module _ {B : Type 0} (evsel : Eventop B) (law : Backend evsel) (env : Env) (known : List ℕ)
    (now : Timeval) (r w : ℕ) where
  -- The invariant of the base, with the two events in it.
  pub record Usable (b : EventBase B) : Type 0 where
    pub view : View
    pub inv : Inv known view b
    pub timerless : Timerless known b
    pub based : (e : ℕ) → (e ≡ r) ⊎ (e ≡ w) → (b.event e).ev_base ≡ true
    pub fit : (e : ℕ) → (e ≡ r) ⊎ (e ≡ w) → Fit law b e
    pub reads : gettime b env.clock ≡ some now

  reads_same :
      (b b' : EventBase B)
      → b'.tv_cache ≡ b.tv_cache
      → gettime b env.clock ≡ some now
      → gettime b' env.clock ≡ some now
  unfolding gettime
  reads_same b b' same reads = rw same reads

  -- Good again, after a change to one event that spares its parts.
  pub again-Usable :
      (b b' : EventBase B)
      → Usable b
      → (e : ℕ) (ev : Event) (v : View) → has e known ≡ true
      → Inv known v b'
      → b'.event ≡ update b.event e ev
      → parts ev ≡ parts (b.event e)
      → Keeps law b b'
      → b'.tv_cache ≡ b.tv_cache
      → Usable b'
  again-Usable b b' u e ev v k i events same keeps cache =
      let at : (x : ℕ) → parts (b'.event x) ≡ parts (b.event x) =
        λ x. ap (λ f. parts (f x)) events ∙ update-parts b.event e x ev same in
      record {
        view = v;
        inv = i;
        timerless = λ x h. elim (Bool-cases (x == e)) [
          | inl here ↦ ground arith
          | inr other ↦
              u.timerless x (sym (ap (λ f. (f x).ev_flags.timeout) events ∙ ground arith) ∙ h)
        ];
        based = λ x q. ap (λ p. p.0) (at x) ∙ u.based x q;
        fit = λ x q.
            Keeps-Fit law b b' x keeps (ap (λ p. p.1) (at x)) (ap (λ p. p.2) (at x)) (u.fit x q);
        reads = reads_same b b' cache u.reads;
      }

  pub by_outcome :
      (b : EventBase B)
      → Usable b
      → (e : ℕ) → has e known ≡ true
      → (tv : Option Timeval) (s : Status) (b' : EventBase B)
      → event_add evsel env.heap_room env.clock b e tv ≡ some (s, b')
      → Keeps law b b'
      → b'.tv_cache ≡ b.tv_cache
      → AddCases evsel env.heap_room known e tv now b s b'
      → (s : Status) × (b' : EventBase B) × (event_add evsel env.heap_room env.clock b e tv
          ≡ some (s, b'))
        × Usable b'
        × (b'.event ≡ update b.event e (add_event s tv (b.event e)))
  by_outcome b u e k tv s b' run keeps cache (inl (lacking, failed, same)) = (
    s,
    b',
    run,
    subst Usable (sym same) u,
    ap (λ c. c.event) same ∙ update-same b.event e _ (rw failed refl),
  )
  by_outcome b u e k tv s b' run keeps cache (inr (_, a, _, _, _, _)) = (
    s,
    b',
    run,
    again-Usable b b' u e _ a.view k a.inv a.events (add_event-parts s tv (b.event e)) keeps cache,
    a.events,
  )

  pub one_of :
      has r known ≡ true → has w known ≡ true → (e : ℕ) → (e ≡ r) ⊎ (e ≡ w) → has e known ≡ true
  one_of kr kw e (inl p) = rw p kr
  one_of kr kw e (inr p) = rw p kw

  -- The functions of event.cpp give what is needed.
  abbrev pub event_calls :
      has r known ≡ true → has w known ≡ true → length known < 2 ^ 30 → Calls evsel env r w
  event_calls kr kw small = record {
    good = Usable;
    add_law = λ b u e q tv.
        (let (s, b', run, outcome, keeps, cache) =
            event_add-Adds evsel law env.heap_room env.clock known e (one_of kr kw e q) now tv
              u.view b u.inv (u.based e q) (u.fit e q)
              (omega (arith, small, heap_bounded known u.view b u.inv u.timerless)) u.reads in
          by_outcome b u e (one_of kr kw e q) tv s b' run keeps cache outcome);
    del_law = λ b u e q.
        (let (s, b', run, d) =
            event_del-Deleted evsel law known u.view b u.inv e (one_of kr kw e q) (u.fit e q)
              (u.based e q) in
          (
            s,
            b',
            run,
            again-Usable b b' u e _ _ (one_of kr kw e q) d.inv d.events refl d.keeps d.cache,
            d.events,
          ));
  }
