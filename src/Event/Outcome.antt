-- ===== src/Event/Outcome.antt =====
-- The outcomes of event_add, and its runs from the runs of its parts.
use ilibevent.Base.{
  ℕ, ◌+◌, ◌%◌, ◌≤◌, ◌≡◌, ◌⊎◌, ltb, ap, ◌∙◌, Bool, true, false, not, ◌&&◌, List, if◌then◌else◌,
  update, Option, none, some, is_some, Status, success, failure, check, ◌>>◌, ◌>>=◌,
}
use ilibevent.Time.{Timeval, timeradd}
use ilibevent.MinHeap.{MinHeap, u32_mod, min_heap_reserve}
use ilibevent.State.{Event, EventBase, Eventop}
use ilibevent.Event.Add.{register, schedule, event_add}
use ilibevent.Event.Invariant.{View, Inv, settings}
use ilibevent.Event.Register.{registered, Asked}
use ilibevent.Event.Schedule.{scheduled}

-- What event_add makes of the event, and of the times.
abbrev pub add_event : Status → Option Timeval → Event → Event
add_event failure tv ev = ev
add_event success none ev = registered ev
add_event success (some t) ev = scheduled (registered ev)

abbrev pub add_time : Status → Option Timeval → Timeval → ℕ → (ℕ → Timeval) → ℕ → Timeval
add_time failure tv now e times = times
add_time success none now e times = times
add_time success (some t) now e times = update times e (timeradd now t)

pub record Added {B : Type 0} (known : List ℕ) (event : ℕ → Event) (times : ℕ → Timeval) (e : ℕ)
    (status : Status) (tv : Option Timeval) (now : Timeval) (b' : EventBase B) : Type 0 where
  pub view : View
  pub inv : Inv known view b'
  pub events : b'.event ≡ update event e (add_event status tv (event e))
  pub timeouts : b'.timeheap.ev_timeout ≡ add_time status tv now e times

-- A place in the heap is needed, the array is full, and realloc fails.
abbrev pub lacks_room : {B : Type 0} → Bool → Option Timeval → EventBase B → ℕ → Bool
lacks_room granted tv b e =
    is_some tv
    && not (b.event e).ev_flags.timeout
    && not granted
    && ltb b.timeheap.a (b.timeheap.n + 1)

-- Another size of the array of timeouts.
abbrev pub with_array : {B : Type 0} → EventBase B → ℕ → EventBase B
with_array b a = record b { timeheap = record (b.timeheap) { a = a } }

-- Nothing happens without room; otherwise the event is handed to the backend, and the outcome is the backend's.
abbrev pub AddCases :
    {B : Type 0}
    → Eventop B
    → Bool
    → List ℕ
    → ℕ
    → Option Timeval
    → Timeval
    → EventBase B
    → Status
    → EventBase B
    → Type 0
AddCases evsel granted known e tv now b status b' =
    ((lacks_room granted tv b e ≡ true) × (status ≡ failure) × (b' ≡ b))
    ⊎ ((lacks_room granted tv b e ≡ false)
        × Added known b.event b.timeheap.ev_timeout e status tv now b'
        × (settings b' ≡ settings b)
        × (a : ℕ) × (b.timeheap.a ≤ a)
        × Asked evsel (with_array b a) e status b')

module _ {B : Type 0} (evsel : Eventop B) (granted : Bool) (clock : Option Timeval) (e : ℕ)
    (tv : Option Timeval) where
  -- What follows the min_heap_reserve.
  abbrev pub rest : EventBase B → Option (Status × EventBase B)
  rest b = register evsel b e >>= λ (status, b'). elim status [
    | failure ↦ some (failure, b')
    | success ↦ elim tv [
      | none ↦ some (success, b')
      | some t ↦ schedule granted clock b' e t >>= λ b''. some (success, b'')
    ]
  ]

  -- The min_heap_reserve.
  abbrev pub reserved : EventBase B → Status × MinHeap
  reserved b =
      if is_some tv && not (b.event e).ev_flags.timeout
      then min_heap_reserve granted b.timeheap ((1 + b.timeheap.n) % u32_mod)
      else (success, b.timeheap)

  -- What is done with the result of min_heap_reserve.
  abbrev decided : EventBase B → Bool → Status × MinHeap → Option (Status × EventBase B)
  decided b based r = check based >> elim (r.0) [
    | failure ↦ some (failure, record b { timeheap = r.1 })
    | success ↦ rest (record b { timeheap = r.1 })
  ]

  pub event_add-run :
      (b : EventBase B) (h : MinHeap)
      → (b.event e).ev_base ≡ true
      → reserved b ≡ (success, h)
      → event_add evsel granted clock b e tv ≡ rest (record b { timeheap = h })
  unfolding event_add
  event_add-run b h based run = ap (λ t. decided b t (reserved b)) based ∙ ap (decided b true) run

  pub event_add-fails :
      (b : EventBase B)
      → (b.event e).ev_base ≡ true
      → reserved b ≡ (failure, b.timeheap)
      → event_add evsel granted clock b e tv ≡ some (failure, b)
  unfolding event_add
  event_add-fails b based run = ap (λ t. decided b t (reserved b)) based ∙ ap (decided b true) run
