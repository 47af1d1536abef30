-- ===== src/Event/Schedule.antt =====
-- event_add registers the event and sets its time.
use ilibevent.Base.{
  ℕ, ◌+◌, ◌^◌, ◌<◌, ◌≡◌, refl, ap, ◌∙◌, Bool, true, false, not, ◌&&◌, List, arith, if◌then◌else◌,
  update, Bool-cases, inl, inr, Option, some,
}
use ilibevent.Time.{Timeval, timeradd}
use ilibevent.TailQueue.Chain.{has}
use ilibevent.State.{Event, EventBase, timeout_queue, active_queue}
use ilibevent.Event.Queues.{set_flag, event_queue_insert, event_queue_remove}
use ilibevent.Event.Setup.{gettime}
use ilibevent.Event.Add.{abort_calls, remove_if, schedule}
use ilibevent.Event.Invariant.{digit, View, Inv, settings}
use ilibevent.Event.Enqueue.{insert-Inserted}
use ilibevent.Event.Dequeue.{remove-Taken}
use ilibevent.Event.Backend.{remove_if-Off, with_parts-Inv, abort_calls-parts, update-same}
use ilibevent.Event.Delete.{update-at, update-again}
use ilibevent.Event.Room.{retimed-Inv, Became}

-- A timeout for which the event is active but has not run.
abbrev pub unseen : Event → Bool
unseen ev = ev.ev_flags.active && ev.ev_res.timeout

abbrev pub unscheduled : Event → Event
unscheduled ev = record ev {
  ev_flags = record (ev.ev_flags) { active = ev.ev_flags.active && not (unseen ev) };
}

-- What schedule makes of an event.
abbrev pub scheduled : Event → Event
scheduled ev = record (unscheduled ev) {
  ev_flags = record ((unscheduled ev).ev_flags) { timeout = true };
}

active-heap :
    {B : Type 0} (b : EventBase B) (e : ℕ) {b' : EventBase B}
    → event_queue_remove b e active_queue ≡ some b'
    → b'.timeheap ≡ b.timeheap
unfolding event_queue_remove
active-heap b e run = ground arith

module _ {B : Type 0} (known : List ℕ) (v : View) (b : EventBase B) (i : Inv known v b) (e : ℕ)
    (k : has e known ≡ true) where
  abbrev Unschedules : Type 0
  Unschedules =
      (b' : EventBase B) × ((if unseen (b.event e)
          then event_queue_remove (abort_calls b e) e active_queue
          else some b)
        ≡ some b')
      × Became known b e (unscheduled (b.event e)) b'
      × (b'.evbase ≡ b.evbase)

  unscheduled-same : unseen (b.event e) ≡ false → unscheduled (b.event e) ≡ b.event e
  unscheduled-same h =
      ap (λ t. record (b.event e) { ev_flags = record ((b.event e).ev_flags) { active = t } })
        (ground arith)

  unschedule-Unschedules : Unschedules
  unschedule-Unschedules = elim (Bool-cases (unseen (b.event e))) [
    | inr h ↦ (
      b,
      rw h refl,
      record {
        view = v;
        inv = i;
        events = update-same b.event e (unscheduled (b.event e)) (unscheduled-same h);
        priorities = refl;
        cache = refl;
        fixed = refl;
        timeouts = refl;
        count = refl;
        capacity = refl;
      },
      refl,
    )
    | inl h ↦
        let (n, aborted) = abort_calls-parts known v b i e in
        let b₁ = record b { ncalls = n } in
        let (b', run, t) =
          remove-Taken known v b₁ (with_parts-Inv known v b i b.evbase n) e k active_queue
            (ground arith) in
        let same = active-heap b₁ e run in
        (
          b',
          rw (h, aborted) run,
          record {
            view = _;
            inv = t.inv;
            events =
                t.events
                ∙ ap
                    (λ f. update b.event e (record (b.event e) {
                      ev_flags = record ((b.event e).ev_flags) { active = f };
                    }))
                    (ground arith);
            priorities = t.priorities;
            cache = t.cache;
            fixed = ap settings t.kept;
            timeouts = t.timeouts;
            count = ap (λ x. x.n) same;
            capacity = ap (λ x. x.a) same;
          },
          t.backend,
        )
  ]

-- `b'` has the event in the heap for the time `at`.
pub record Scheduled {B : Type 0} (known : List ℕ) (b : EventBase B) (e : ℕ) (ev : Event)
    (at : Timeval) (b' : EventBase B) : Type 0 where
  pub view : View
  pub inv : Inv known view b'
  pub events : b'.event ≡ update b.event e ev
  pub timeouts : b'.timeheap.ev_timeout ≡ update b.timeheap.ev_timeout e at
  pub priorities : b'.nactivequeues ≡ b.nactivequeues
  pub cache : b'.tv_cache ≡ b.tv_cache
  pub fixed : settings b' ≡ settings b
  pub backend : b'.evbase ≡ b.evbase

-- The run of schedule, from the runs of its parts.
schedule-run :
    {B : Type 0} (granted : Bool) (clock : Option Timeval) (b : EventBase B) (e : ℕ)
    (tv now : Timeval) {b₁ b₂ : EventBase B} {r : Option (EventBase B)}
    → remove_if (b.event e).ev_flags.timeout b e timeout_queue ≡ some b₁
    → (if unseen (b₁.event e)
        then event_queue_remove (abort_calls b₁ e) e active_queue
        else some b₁)
      ≡ some b₂
    → gettime b₂ clock ≡ some now
    → event_queue_insert granted
        (record b₂ {
          timeheap = record (b₂.timeheap) {
            ev_timeout = update b₂.timeheap.ev_timeout e (timeradd now tv);
          };
        })
        e
        timeout_queue
      ≡ r
    → schedule granted clock b e tv ≡ r
unfolding schedule
schedule-run granted clock b e tv now run₁ run₂ reads run₃ = rw (run₁, run₂, reads) run₃

module _ {B : Type 0} (granted : Bool) (clock : Option Timeval) (known : List ℕ) (v : View)
    (b : EventBase B) (i : Inv known v b) (e : ℕ) (k : has e known ≡ true) (tv now : Timeval) where
  pub schedule-Scheduled :
      b.timeheap.n < b.timeheap.a + digit (b.event e).ev_flags.timeout
      → b.timeheap.n < 2 ^ 30
      → ((c : EventBase B) → c.tv_cache ≡ b.tv_cache → gettime c clock ≡ some now)
      → (b' : EventBase B) × (schedule granted clock b e tv ≡ some b')
        × Scheduled known b e (scheduled (b.event e)) (timeradd now tv) b'
  schedule-Scheduled room small reads =
      let (b₁, run₁, off, same₁) = remove_if-Off known v b i e timeout_queue k in
      let here₁ = ap (λ f. f e) off.events ∙ update-at b.event e _ in
      let (b₂, run₂, un, same₂) = unschedule-Unschedules known _ b₁ off.inv e k in
      let here₂ = ap (λ f. f e) un.events ∙ update-at b₁.event e _ ∙ ap unscheduled here₁ in
      let became : b₂.event
          ≡ update b.event e (
              unscheduled (record (b.event e) {
                ev_flags = set_flag timeout_queue false (b.event e).ev_flags;
              })) =
        un.events
        ∙ ap (λ f. update f e (unscheduled (f e))) off.events
        ∙ update-again b.event e _ unscheduled in
      let b₃ = record b₂ {
        timeheap = record (b₂.timeheap) {
          ev_timeout = update b₂.timeheap.ev_timeout e (timeradd now tv);
        };
      } in
      let out : (b₂.event e).ev_flags.timeout ≡ false = ap (λ x. x.ev_flags.timeout) here₂ in
      let i₃ = retimed-Inv known un.view b₂ un.inv e (timeradd now tv) out in
      let (b₄, run₄, t) = insert-Inserted granted known un.view b₃ e i₃ k timeout_queue out (
        omega (arith, room, off.size, off.capacity, un.count, un.capacity),
        omega (arith, small, off.size, un.count),
      ) in
      (
        b₄,
        schedule-run granted clock b e tv now run₁ run₂ (reads b₂ (un.cache ∙ off.cache)) run₄,
        record {
          view = un.view;
          inv = t.inv;
          events =
              t.events
              ∙ ap
                  (λ f.
                    update f e
                      (record (f e) { ev_flags = set_flag timeout_queue true (f e).ev_flags }))
                  became
              ∙ update-again b.event e _
                  (λ y. record y { ev_flags = set_flag timeout_queue true y.ev_flags });
          timeouts =
              t.timeouts ∙ ap (λ f. update f e (timeradd now tv)) (un.timeouts ∙ off.timeouts);
          priorities = t.priorities ∙ un.priorities ∙ off.priorities;
          cache = t.cache ∙ un.cache ∙ off.cache;
          fixed = ap settings t.kept ∙ un.fixed ∙ off.fixed;
          backend = t.backend ∙ same₂ ∙ same₁;
        },
      )
