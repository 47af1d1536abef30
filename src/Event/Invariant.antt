-- ===== src/Event/Invariant.antt =====
-- What holds of an event_base between two calls: the flags of each event say where it is, and the
-- counters count.
use ilibevent.Base.{
  ℕ, ◌+◌, ◌<◌, ◌≡◌, refl, Bool, true, false, ◌&&◌, List, [], ◌∷◌, arith, ◌==◌, if◌then◌else◌,
  update,
}
use ilibevent.Base.Int.{pos}
use ilibevent.TailQueue.Chain.{has, Distinct}
use ilibevent.TailQueue.Links.{Linked}
use ilibevent.MinHeap.Valid.{IsValid, InHeap}
use ilibevent.MinHeap.Push.{Absent}
use ilibevent.Time.{Timeval}
use ilibevent.State.{Event, EventBase, Queue, timeout_queue, inserted_queue, active_queue}

abbrev pub digit : Bool → ℕ
digit true = 1
digit false = 0

-- How often an event is counted in `event_count`, and in `event_count_active`.
abbrev pub weight : Event → ℕ
weight ev =
    if ev.ev_flags.internal
    then 0
    else digit ev.ev_flags.inserted + digit ev.ev_flags.active + digit ev.ev_flags.timeout

abbrev pub active_weight : Event → ℕ
active_weight ev = digit ev.ev_flags.active

abbrev pub total : (Event → ℕ) → (ℕ → Event) → List ℕ → ℕ
total g event [] = 0
total g event (e ∷ es) = g (event e) + total g event es

total_apart :
    (g : Event → ℕ) (event : ℕ → Event) (e : ℕ) (ev : Event) (es : List ℕ)
    → has e es ≡ false
    → total g (update event e ev) es ≡ total g event es
total_apart g event e ev [] h = refl
total_apart g event e ev (x ∷ es) h = ground (arith, total_apart g event e ev es)

-- A change to one event changes a total by the difference.
pub total-update :
    (g : Event → ℕ) (event : ℕ → Event) (e : ℕ) (ev : Event) (es : List ℕ)
    → Distinct es
    → has e es ≡ true
    → total g (update event e ev) es + g (event e) ≡ total g event es + g ev
total-update g event e ev [] d h = cc
total-update g event e ev (x ∷ es) d h =
    ground (arith, total-update g event e ev es d.1, total_apart g event e ev es)

-- The lists that the queues stand for: the inserted events are list 0 of `inserted`.
pub record View : Type 0 where
  pub inserted : ℕ → List ℕ
  pub active : ℕ → List ℕ

-- No event is on a list.
abbrev pub nowhere : View
nowhere = record { inserted = λ _. []; active = λ _. [] }

-- `known` are the events that the program has.
pub record Inv {B : Type 0} (known : List ℕ) (v : View) (b : EventBase B) : Type 0 where
  pub inserted_linked : Linked b.eventqueue v.inserted
  pub active_linked : Linked b.activequeues v.active
  pub heap : IsValid b.timeheap
  pub on_inserted : (e q : ℕ) → has e (v.inserted q) ≡ ((b.event e).ev_flags.inserted && (0 == q))
  pub on_active :
      (e q : ℕ) → has e (v.active q) ≡ ((b.event e).ev_flags.active && ((b.event e).ev_pri == q))
  pub priority : (e : ℕ) → (b.event e).ev_flags.active ≡ true → (b.event e).ev_pri < b.nactivequeues
  pub on_heap : (e : ℕ) → (b.event e).ev_flags.timeout ≡ true → InHeap b.timeheap e
  pub off_heap : (e : ℕ) → (b.event e).ev_flags.timeout ≡ false → Absent b.timeheap e
  pub distinct : Distinct known
  pub all_known : (e : ℕ) → has e known ≡ false → weight (b.event e) + active_weight (b.event e) ≡ 0
  pub counted : b.event_count ≡ pos (total weight b.event known)
  pub counted_active : b.event_count_active ≡ pos (total active_weight b.event known)

-- The fields that are no queue, no counter and no state of the backend.
abbrev pub settings : {B : Type 0} → EventBase B → Bool × Bool × Timeval × Bool × Bool × ℕ × Timeval
settings b = (
  b.event_gotterm, b.event_break, b.event_tv, b.current_base, b.event_gotsig, b.nactivequeues,
  b.tv_cache,
)

-- `b'` is `b` but for the events, the counters and the queues.
abbrev pub OnlyQueues : {B : Type 0} → EventBase B → EventBase B → Type 0
OnlyQueues b b' = b' ≡ record b {
  event = b'.event;
  event_count = b'.event_count;
  event_count_active = b'.event_count_active;
  eventqueue = b'.eventqueue;
  activequeues = b'.activequeues;
  timeheap = b'.timeheap;
}

-- The other queues are as they were.
abbrev pub OthersKept : {B : Type 0} → Queue → EventBase B → EventBase B → Type 0
OthersKept inserted_queue b b' =
    (b'.activequeues ≡ b.activequeues)
    × (b'.timeheap ≡ b.timeheap)
    × (b'.event_count_active ≡ b.event_count_active)
OthersKept active_queue b b' = (b'.eventqueue ≡ b.eventqueue) × (b'.timeheap ≡ b.timeheap)
OthersKept timeout_queue b b' =
    (b'.eventqueue ≡ b.eventqueue)
    × (b'.activequeues ≡ b.activequeues)
    × (b'.event_count_active ≡ b.event_count_active)
