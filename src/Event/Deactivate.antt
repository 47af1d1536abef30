-- ===== src/Event/Deactivate.antt =====
-- What event_process_active does with an event before it calls its callback.
use ilibevent.Base.{
  ℕ, ◌≡◌, sym, ap, ◌∙◌, Bool, true, false, List, if◌then◌else◌, update, Bool-cases, inl, inr,
  Option, some, Status, ◌>>=◌,
}
use ilibevent.TailQueue.Chain.{has}
use ilibevent.State.{Event, EventBase, Eventop, active_queue}
use ilibevent.Event.Queues.{event_queue_remove}
use ilibevent.Event.Add.{event_del}
use ilibevent.Event.Loop.{deactivate}
use ilibevent.Event.Invariant.{View, Inv}
use ilibevent.Event.Dequeue.{remove-Taken}
use ilibevent.Event.Backend.{Backend, Fit}
use ilibevent.Event.Delete.{off_queues, event_del-Deleted}

-- A persistent event only stops being active; another one leaves every queue.
abbrev pub deactivated : Event → Event
deactivated ev =
    if ev.ev_events.persist
    then record ev { ev_flags = record (ev.ev_flags) { active = false } }
    else off_queues ev

pub record Deactivated {B : Type 0} (known : List ℕ) (b : EventBase B) (e : ℕ) (b' : EventBase B)
    : Type 0 where
  pub view : View
  pub inv : Inv known view b'
  pub events : b'.event ≡ update b.event e (deactivated (b.event e))
  pub timeouts : b'.timeheap.ev_timeout ≡ b.timeheap.ev_timeout

module _ {B : Type 0} (evsel : Eventop B) (law : Backend evsel)
    (callback : EventBase B → ℕ → Option (EventBase B)) (known : List ℕ) (v : View)
    (b : EventBase B) (i : Inv known v b) (e : ℕ) where
  -- Before the callback of an active event runs, the event has left the active queue, and every queue
  -- unless it is persistent; no other event and no time has changed, and the invariant holds, for an
  -- event that is known, has an event_base and that the backend accepts. Nothing faults.
  pub deactivate-Deactivated :
      has e known ≡ true
      → (b.event e).ev_flags.active ≡ true
      → (b.event e).ev_base ≡ true
      → Fit law b e
      → (b' : EventBase B) × (deactivate evsel callback b e ≡ some b') × Deactivated known b e b'
  unfolding deactivate
  deactivate-Deactivated k active based fit = elim (Bool-cases (b.event e).ev_events.persist) [
    | inl h ↦
        let (b', run, t) = remove-Taken known v b i e k active_queue active in
        (
          b',
          ap choose h ∙ run,
          record {
            view = _;
            inv = t.inv;
            events = t.events ∙ ap (λ p. update b.event e (choose_event p)) (sym h);
            timeouts = t.timeouts;
          },
        )
    | inr h ↦
        let (status, b', run, d) = event_del-Deleted evsel law known v b i e k fit based in
        (
          b',
          ap choose h ∙ ap (λ (m : Option (Status × EventBase B)). m >>= λ x. some (x.1)) run,
          record {
            view = _;
            inv = d.inv;
            events = d.events ∙ ap (λ p. update b.event e (choose_event p)) (sym h);
            timeouts = d.timeouts;
          },
        )
  ]
    where
      choose : Bool → Option (EventBase B)
      choose t =
          if t
          then event_queue_remove b e active_queue
          else (event_del evsel b e >>= λ x. some (x.1))

      choose_event : Bool → Event
      choose_event t =
          if t
          then record (b.event e) { ev_flags = record ((b.event e).ev_flags) { active = false } }
          else off_queues (b.event e)
