-- ===== src/Event/Due.antt =====
-- Which timeouts are due, and what becomes of their events.
use ilibevent.Base.{
  ℕ, ◌<◌, ◌≡◌, refl, Bool, true, false, not, ◌&&◌, List, arith, if◌then◌else◌, Bool-cases, inl, inr,
  some,
}
use ilibevent.Time.{Timeval, timercmp_gt}
use ilibevent.Time.Order.{timercmp_trans}
use ilibevent.TailQueue.Chain.{has}
use ilibevent.MinHeap.Valid.{InHeap, TopOf}
use ilibevent.State.{ev_timeout_mask, Event, EventBase, Eventop}
use ilibevent.Event.Invariant.{View, Inv}
use ilibevent.Event.Backend.{Backend, Fit}
use ilibevent.Event.Delete.{off_queues}
use ilibevent.Event.Activate.{activated}

-- An event with a timeout is known, has an event_base and a list for its priority, and the backend accepts it.
abbrev pub Timed :
    {B : Type 0} {evsel : Eventop B} (law : Backend evsel) → List ℕ → EventBase B → Type 0
Timed law known b =
    (e : ℕ)
    → (b.event e).ev_flags.timeout ≡ true
    → (has e known ≡ true)
      × ((b.event e).ev_base ≡ true)
      × ((b.event e).ev_pri < b.nactivequeues)
      × Fit law b e

-- The time of an event that waits for it has come.
abbrev pub due : {B : Type 0} → Timeval → EventBase B → ℕ → Bool
due now b x = (b.event x).ev_flags.timeout && not (timercmp_gt (b.timeheap.ev_timeout x) now)

-- What becomes of a due event: it is on no queue but the active one, for its timeout.
abbrev pub expired : Event → Event
expired ev = activated (off_queues ev) ev_timeout_mask 1

pub record Expired {B : Type 0} (known : List ℕ) (now : Timeval) (b b' : EventBase B) : Type 0 where
  pub view : View
  pub inv : Inv known view b'
  pub events : (x : ℕ) → b'.event x ≡ (if due now b x then expired (b.event x) else b.event x)
  pub timeouts : b'.timeheap.ev_timeout ≡ b.timeheap.ev_timeout
  pub priorities : b'.nactivequeues ≡ b.nactivequeues

-- Nothing is due: nothing changes.
pub none_due :
    {B : Type 0} (known : List ℕ) (now : Timeval) (v : View) (b : EventBase B)
    → Inv known v b
    → ((x : ℕ) → due now b x ≡ false)
    → Expired known now b b
none_due known now v b i h = record {
  view = v;
  inv = i;
  events = λ x. rw (h x) refl;
  timeouts = refl;
  priorities = refl;
}

pub InHeap-timeout :
    {B : Type 0} (known : List ℕ) (v : View) (b : EventBase B) (i : Inv known v b) (e : ℕ)
    → InHeap b.timeheap e
    → (b.event e).ev_flags.timeout ≡ true
InHeap-timeout known v b i e (j, p, q) = elim (Bool-cases (b.event e).ev_flags.timeout) [
  | inl h ↦ h
  | inr h ↦ absurd (i.off_heap e h j p q)
]

pub empty-none_due :
    {B : Type 0} (known : List ℕ) (now : Timeval) (v : View) (b : EventBase B) (i : Inv known v b)
    → b.timeheap.n ≡ 0
    → (x : ℕ) → due now b x ≡ false
empty-none_due known now v b i h x = elim (Bool-cases (b.event x).ev_flags.timeout) [
  | inl p ↦ let (j, q, r) = i.on_heap x p in absurd (omega arith)
  | inr p ↦ rw p refl
]

-- If the time of the root has not come, no time has.
pub later-none_due :
    {B : Type 0} (known : List ℕ) (now : Timeval) (v : View) (b : EventBase B) (i : Inv known v b)
    (e : ℕ)
    → TopOf b.timeheap (some e)
    → timercmp_gt (b.timeheap.ev_timeout e) now ≡ true
    → (x : ℕ) → due now b x ≡ false
later-none_due known now v b i e top h x = elim (Bool-cases (b.event x).ev_flags.timeout) [
  | inr p ↦ rw p refl
  | inl p ↦ elim (Bool-cases (timercmp_gt (b.timeheap.ev_timeout x) now)) [
    | inl q ↦ ground arith
    | inr q ↦
        let early =
          timercmp_trans (b.timeheap.ev_timeout e) (b.timeheap.ev_timeout x) now
            (top.1 x (i.on_heap x p)) q in
        absurd (cc (early, h))
  ]
]
