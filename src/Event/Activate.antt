-- ===== src/Event/Activate.antt =====
-- event_active puts an event on the active list of its priority, once.
use ilibevent.Base.{
  ℕ, ◌≡◌, ◌<◌, refl, sym, ap, ◌∙◌, subst, true, false, List, arith, if◌then◌else◌, update,
  Bool-cases, inl, inr, Option, some, check, ◌>>◌,
}
use ilibevent.TailQueue.Chain.{has}
use ilibevent.State.{EventMask, mask_or, Event, EventBase, active_queue}
use ilibevent.Event.Queues.{set_event, event_queue_insert}
use ilibevent.Event.Add.{event_active}
use ilibevent.Event.Invariant.{View, Inv}
use ilibevent.Event.Enqueue.{insert_view, insert-Inserted}
use ilibevent.Event.Backend.{set_event-Inv}
use ilibevent.Event.Delete.{update-at, update-again}

-- What the event becomes: an active one collects the reasons, another gets them and the calls.
abbrev pub activated : Event → EventMask → ℕ → Event
activated ev res ncalls =
    if ev.ev_flags.active then record ev { ev_res = mask_or ev.ev_res res } else record ev {
      ev_res = res;
      ev_ncalls = ncalls;
      ev_pncalls = false;
      ev_flags = record (ev.ev_flags) { active = true };
    }

-- An active event stays where it is.
abbrev pub active_view : View → ℕ → Event → View
active_view v e ev = if ev.ev_flags.active then v else insert_view v e ev.ev_pri active_queue

pub record Activated {B : Type 0} (known : List ℕ) (v : View) (b : EventBase B) (e : ℕ)
    (res : EventMask) (ncalls : ℕ) (b' : EventBase B) : Type 0 where
  pub inv : Inv known (active_view v e (b.event e)) b'
  pub events : b'.event ≡ update b.event e (activated (b.event e) res ncalls)
  pub priorities : b'.nactivequeues ≡ b.nactivequeues
  pub backend : b'.evbase ≡ b.evbase
  pub cache : b'.tv_cache ≡ b.tv_cache
  pub heap : b'.timeheap ≡ b.timeheap

insert-heap :
    {B : Type 0} (b : EventBase B) (e : ℕ) {b' : EventBase B}
    → event_queue_insert true b e active_queue ≡ some b'
    → b'.timeheap ≡ b.timeheap
unfolding event_queue_insert
insert-heap b e run = ground arith

-- The run of event_active for an event that is not active.
event_active-run :
    {B : Type 0} (b : EventBase B) (e : ℕ) (res : EventMask) (ncalls : ℕ) {b' : EventBase B}
    → (b.event e).ev_flags.active ≡ false
    → (b.event e).ev_base ≡ true
    → event_queue_insert true
        (set_event b e
          (record (b.event e) { ev_res = res; ev_ncalls = ncalls; ev_pncalls = false }))
        e
        active_queue
      ≡ some b'
    → event_active b e res ncalls ≡ some b'
unfolding event_active
event_active-run {B} b e res ncalls h based run =
    ap
      (λ t.
        if t
        then some (set_event b e (record (b.event e) { ev_res = mask_or (b.event e).ev_res res }))
        else (check (b.event e).ev_base >> next))
      h
    ∙ ap (λ t. check t >> next) based
    ∙ run
  where
    next : Option (EventBase B)
    next =
        event_queue_insert true
          (set_event b e
            (record (b.event e) { ev_res = res; ev_ncalls = ncalls; ev_pncalls = false }))
          e active_queue

module _ {B : Type 0} (known : List ℕ) (v : View) (b : EventBase B) (i : Inv known v b) (e : ℕ)
    (k : has e known ≡ true) (res : EventMask) (ncalls : ℕ) where
  -- event_active of a known event that has an event_base and a priority below the number of queues
  -- always succeeds and keeps the invariant: an active event keeps its place and gets the new
  -- reasons in addition, another one goes to the end of the active list of its priority with
  -- the reasons and the number of calls given. Nothing else of any event changes, nor the heap.
  pub event_active-Activated :
      (b.event e).ev_base ≡ true
      → (b.event e).ev_pri < b.nactivequeues
      → (b' : EventBase B) × (event_active b e res ncalls ≡ some b')
        × Activated known v b e res ncalls b'
  unfolding event_active
  event_active-Activated based fits = elim (Bool-cases (b.event e).ev_flags.active) [
    | inl h ↦
        let ev = record (b.event e) { ev_res = mask_or (b.event e).ev_res res } in
        (
          set_event b e ev,
          rw h refl,
          record {
            inv =
                subst (λ w. Inv known w (set_event b e ev))
                  (ap (λ t. if t then v else insert_view v e (b.event e).ev_pri active_queue)
                    (sym h))
                  (set_event-Inv known v b i e ev k refl refl);
            events = rw h refl;
            priorities = refl;
            backend = refl;
            cache = refl;
            heap = refl;
          },
        )
    | inr h ↦
        let ev = record (b.event e) { ev_res = res; ev_ncalls = ncalls; ev_pncalls = false } in
        let at = update-at b.event e ev in
        let (b', run, t) =
          insert-Inserted true known v (set_event b e ev) e
            (set_event-Inv known v b i e ev k refl refl) k active_queue
            (ap (λ x. x.ev_flags.active) at ∙ h) (rw (ap (λ x. x.ev_pri) at) fits) in
        (
          b',
          event_active-run b e res ncalls h based run,
          record {
            inv =
                subst (λ w. Inv known w b')
                  (ap (λ t. if t then v else insert_view v e (b.event e).ev_pri active_queue)
                    (sym h))
                  (subst (λ x. Inv known (insert_view v e x.ev_pri active_queue) b') at t.inv);
            events =
                (t.events
                  ∙ update-again b.event e ev
                      (λ x. record x { ev_flags = record (x.ev_flags) { active = true } })
                  ∙ ap
                      (λ t. update b.event e (
                        if t
                        then record (b.event e) { ev_res = mask_or (b.event e).ev_res res }
                        else record ev { ev_flags = record (ev.ev_flags) { active = true } }))
                      (sym h));
            priorities = t.priorities;
            backend = t.backend;
            cache = t.cache;
            heap = insert-heap _ e run;
          },
        )
  ]
