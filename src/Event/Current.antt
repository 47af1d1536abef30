-- ===== src/Event/Current.antt =====
-- The functions of include/event.cpp that use the variable current_base: a NULL in it that is followed is a fault. The
-- base of the model is the only one, so that `current_base` says whether the variable is set to it.
use ilibevent.Base.{
  ℕ, Bool, false, List, Option, if◌then◌else◌, ◌>>◌, check, Status, success, failure,
}
use ilibevent.Base.Int.{negsuc}
use ilibevent.Time.{Timeval}
use ilibevent.TailQueue.{Slot}
use ilibevent.State.{ev_timeout_mask, EventBase, Eventop}
use ilibevent.Event.Setup.{event_base_priority_init, event_base_loopbreak}
use ilibevent.Event.Loop.{LoopFlags, Readings, LoopResult, event_base_loop}
use ilibevent.Event.Lifecycle.{event_once}

module _ {B : Type 0} where
  unfoldable pub event_priority_init :
      Bool → (ℕ → Option ℕ × Slot) → EventBase B → ℕ → Option (Status × EventBase B)
  event_priority_init room memory b npriorities =
      check b.current_base >> event_base_priority_init room memory b npriorities

  -- Here NULL is looked for.
  unfoldable pub event_loopbreak : EventBase B → Status × EventBase B
  event_loopbreak b = if b.current_base then (success, event_base_loopbreak b) else (failure, b)

  module _ (evsel : Eventop B) (callback : EventBase B → ℕ → Option (EventBase B)) where
    unfoldable pub event_loop :
        ℕ → Bool → LoopFlags → List Readings → EventBase B → Option (LoopResult × EventBase B)
    event_loop fuel monotonic flags clocks b =
        check b.current_base >> event_base_loop evsel callback fuel monotonic flags clocks b

    -- No flag is set.
    abbrev no_flags : LoopFlags
    no_flags = record { once = false; nonblock = false }

    unfoldable pub event_dispatch :
        ℕ → Bool → List Readings → EventBase B → Option (LoopResult × EventBase B)
    unfolding event_loop
    event_dispatch fuel monotonic clocks b = event_loop fuel monotonic no_flags clocks b

    unfoldable pub event_base_dispatch :
        ℕ → Bool → List Readings → EventBase B → Option (LoopResult × EventBase B)
    event_base_dispatch fuel monotonic clocks b =
        event_base_loop evsel callback fuel monotonic no_flags clocks b

  -- The event that calloc gives for it is `e`.
  unfoldable pub event_loopexit :
      Eventop B
      → Bool
      → Bool
      → Option Timeval
      → EventBase B
      → ℕ
      → Option Timeval
      → Option (Status × EventBase B)
  event_loopexit evsel room_once room clock b e tv =
      event_once evsel room_once room clock b e (negsuc 0) ev_timeout_mask tv
