-- ===== src/Event/Delete.antt =====
-- event_del takes an event off every queue.
use ilibevent.Base.{
  ℕ, ◌+◌, ◌≡◌, refl, ap, ◌∙◌, subst, fun_ext, true, false, List, arith, if◌then◌else◌, update,
  ◌>>=◌, Bool-cases, inl, inr, Option, some, Status, success,
}
use ilibevent.TailQueue.Chain.{has}
use ilibevent.State.{Event, EventBase, Eventop, Queue, timeout_queue, inserted_queue, active_queue}
use ilibevent.Event.Queues.{set_flag, event_queue_remove}
use ilibevent.Event.Add.{abort_calls, remove_if, event_del}
use ilibevent.Event.Invariant.{digit, View, Inv, settings}
use ilibevent.Event.Backend.{
  Backend, Fit, Keeps, Keeps-Fit, same-Keeps, with_parts-Inv, abort_calls-parts, leave_view, Off,
  update-same, remove_if-Off,
}

-- Where the events are found when `e`, which was `ev`, is deleted.
abbrev pub delete_view : View → ℕ → Event → View
delete_view v e ev =
    leave_view (leave_view (leave_view v e ev timeout_queue) e ev active_queue) e ev inserted_queue

-- On no queue.
abbrev pub off_queues : Event → Event
off_queues ev = record ev {
  ev_flags = record (ev.ev_flags) { timeout = false; active = false; inserted = false };
}

-- `b'` has the event on no queue and is otherwise as `b`.
pub record Deleted {B : Type 0} {evsel : Eventop B} (law : Backend evsel) (known : List ℕ)
    (v : View) (b : EventBase B) (e : ℕ) (b' : EventBase B) : Type 0 where
  pub inv : Inv known (delete_view v e (b.event e)) b'
  pub events : b'.event ≡ update b.event e (off_queues (b.event e))
  pub priorities : b'.nactivequeues ≡ b.nactivequeues
  pub keeps : Keeps law b b'
  pub fixed : settings b' ≡ settings b
  pub cache : b'.tv_cache ≡ b.tv_cache
  pub timeouts : b'.timeheap.ev_timeout ≡ b.timeheap.ev_timeout
  pub size : b'.timeheap.n + digit (b.event e).ev_flags.timeout ≡ b.timeheap.n

pub update-at : (event : ℕ → Event) (e : ℕ) (a : Event) → update event e a e ≡ a
update-at event e a = ground arith

pub update-again :
    (event : ℕ → Event) (e : ℕ) (a : Event) (g : Event → Event)
    → update (update event e a) e (g (update event e a e)) ≡ update event e (g a)
update-again event e a g = fun_ext (λ x. rw (update-at event e a) (ground arith))

-- One removal after another: `ev` is what the event has become.
then-Off :
    {B : Type 0} {known : List ℕ} (v : View) (event : ℕ → Event) {b₁ b₂ : EventBase B} {e : ℕ}
    (queue : Queue) (ev : Event)
    → b₁.event ≡ update event e ev
    → Off known v b₁ e queue b₂
    → (Inv known (leave_view v e ev queue) b₂)
      × (b₂.event ≡ update event e (record ev { ev_flags = set_flag queue false ev.ev_flags }))
then-Off {B} {known} v event {b₁} {b₂} {e} queue ev p off = (
  subst (λ y. Inv known (leave_view v e y queue) b₂) (ap (λ f. f e) p ∙ update-at event e ev)
      off.inv,
  off.events
      ∙ ap (λ f. update f e (record (f e) { ev_flags = set_flag queue false (f e).ev_flags })) p
      ∙ update-again event e ev (λ y. record y { ev_flags = set_flag queue false y.ev_flags }),
)

with_backend-Off :
    {B : Type 0} {known : List ℕ} {v : View} {b b' : EventBase B} {e : ℕ} {queue : Queue} (s : B)
    → Off known v b e queue b'
    → Off known v b e queue (record b' { evbase = s })
with_backend-Off {known = known} {v = v} {b' = b'} s off = record {
  inv = with_parts-Inv known _ b' off.inv s b'.ncalls;
  events = off.events;
  priorities = off.priorities;
  cache = off.cache;
  fixed = off.fixed;
  timeouts = off.timeouts;
  capacity = off.capacity;
  size = off.size;
}

-- The last part of event_del: the event queue, and the backend.
unregister_lem :
    {B : Type 0} (evsel : Eventop B) (law : Backend evsel) (known : List ℕ) (v : View)
    (b : EventBase B) (i : Inv known v b) (e : ℕ) (k : has e known ≡ true) (fit : Fit law b e)
    → (status : Status) × (b' : EventBase B) × ((if (b.event e).ev_flags.inserted
          then (event_queue_remove b e inserted_queue >>= λ b₄. evsel.del b₄ e)
          else some (success, b))
        ≡ some (status, b'))
      × Off known v b e inserted_queue b'
      × Keeps law b b'
unregister_lem evsel law known v b i e k fit = elim (Bool-cases (b.event e).ev_flags.inserted) [
  | inl h ↦
      let (b₄, run, off, same) = remove_if-Off known v b i e inserted_queue k in
      let here = ap (λ f. f e) off.events ∙ update-at b.event e _ in
      let still =
        Keeps-Fit law b b₄ e (same-Keeps law b b₄ same) (ap (λ x. x.ev_fd) here)
          (ap (λ x. x.ev_events) here) fit in
      let (status, s, call, keeps) = law.del_law b₄ e still in
      (
        status,
        record b₄ { evbase = s },
        rw (h, subst (λ t. remove_if t b e inserted_queue ≡ some b₄) h run) call,
        with_backend-Off s off,
        λ fd m a. keeps fd m (same-Keeps law b b₄ same fd m a),
      )
  | inr h ↦
      let (b₄, run, off, same) = remove_if-Off known v b i e inserted_queue k in
      (
        success,
        b₄,
        rw h (
            ap (λ t. t >>= λ x. some (success, x))
              (subst (λ t. remove_if t b e inserted_queue ≡ some b₄) h run)),
        off,
        same-Keeps law b b₄ same,
      )
]

-- The run of event_del, from the runs of its parts.
event_del-run :
    {B : Type 0} (evsel : Eventop B) (b : EventBase B) (e : ℕ) {b₁ b₂ b₃ : EventBase B}
    {r : Option (Status × EventBase B)}
    → (b.event e).ev_base ≡ true
    → abort_calls b e ≡ b₁
    → remove_if (b₁.event e).ev_flags.timeout b₁ e timeout_queue ≡ some b₂
    → remove_if (b₂.event e).ev_flags.active b₂ e active_queue ≡ some b₃
    → (if (b₃.event e).ev_flags.inserted
        then (event_queue_remove b₃ e inserted_queue >>= λ b₄. evsel.del b₄ e)
        else some (success, b₃))
      ≡ r
    → event_del evsel b e ≡ r
unfolding event_del
event_del-run evsel b e based aborted run₂ run₃ run₄ = rw (based, aborted, run₂, run₃) run₄

module _ {B : Type 0} (evsel : Eventop B) (law : Backend evsel) (known : List ℕ) (v : View)
    (b : EventBase B) (i : Inv known v b) (e : ℕ) (k : has e known ≡ true) (fit : Fit law b e) where
  -- event_del of a known event that has an event_base and that the backend accepts always returns; then the
  -- event is on no queue, the others are where they were, in the same order, the invariant
  -- holds, and no event and no timeout is changed but for the event's three flags.
  pub event_del-Deleted :
      (b.event e).ev_base ≡ true
      → (status : Status) × (b' : EventBase B) × (event_del evsel b e ≡ some (status, b'))
        × Deleted law known v b e b'
  event_del-Deleted based =
      let (n, aborted) = abort_calls-parts known v b i e in
      let i₁ = with_parts-Inv known v b i b.evbase n in
      let (b₂, run₂, off₂, same₂) = remove_if-Off known v _ i₁ e timeout_queue k in
      let (b₃, run₃, off₃, same₃) = remove_if-Off known _ b₂ off₂.inv e active_queue k in
      let first : Inv known (leave_view v e (b.event e) timeout_queue) b₂
          × (b₂.event
              ≡ update b.event e (record (b.event e) {
                ev_flags = set_flag timeout_queue false (b.event e).ev_flags;
              })) =
        then-Off v b.event timeout_queue (b.event e) (update-same b.event e (b.event e) refl)
          off₂ in
      let second = then-Off _ b.event active_queue _ first.1 off₃ in
      let here = ap (λ f. f e) second.1 ∙ update-at b.event e _ in
      let keeps₃ = same-Keeps law b b₃ (same₃ ∙ same₂) in
      let still =
        Keeps-Fit law b b₃ e keeps₃ (ap (λ x. x.ev_fd) here) (ap (λ x. x.ev_events) here) fit in
      let (status, b₄, run₄, off₄, keeps₄) =
        unregister_lem evsel law known _ b₃ second.0 e k still in
      let third = then-Off _ b.event inserted_queue _ second.1 off₄ in
      (
        status,
        b₄,
        event_del-run evsel b e based aborted run₂ run₃ run₄,
        record {
          inv = third.0;
          events = third.1;
          priorities = off₄.priorities ∙ off₃.priorities ∙ off₂.priorities;
          fixed = off₄.fixed ∙ off₃.fixed ∙ off₂.fixed;
          keeps = λ fd m h. keeps₄ fd m (keeps₃ fd m h);
          cache = off₄.cache ∙ off₃.cache ∙ off₂.cache;
          timeouts = off₄.timeouts ∙ off₃.timeouts ∙ off₂.timeouts;
          size = omega (arith, off₂.size, off₃.size, off₄.size);
        },
      )
