-- ===== src/Event/Add.antt =====
-- event_add, event_del and event_active. A NULL `ev_base` that is followed is a fault.
use ilibevent.Base.{
  ℕ, ◌+◌, ◌%◌, Bool, true, false, not, ◌&&◌, ◌||◌, Option, none, some, ◌==◌, if◌then◌else◌, ◌>>=◌,
  ◌>>◌, check, Status, success, failure, is_some, update,
}
use ilibevent.Time.{Timeval, timeradd}
use ilibevent.MinHeap.{u32_mod, min_heap_reserve}
use ilibevent.State.{
  EventMask, mask_or, Event, EventBase, Eventop, Queue, timeout_queue, inserted_queue, active_queue,
}
use ilibevent.Event.Queues.{set_event, event_queue_insert, event_queue_remove}
use ilibevent.Event.Setup.{gettime}

-- The event waits for a descriptor or a signal.
abbrev pub waits_for_io : Event → Bool
waits_for_io ev = ev.ev_events.read || ev.ev_events.write || ev.ev_events.signal

module _ {B : Type 0} where
  -- if (ev->ev_ncalls && ev->ev_pncalls) *ev->ev_pncalls = 0; The pointer is taken for valid: that it dangles after
  -- event_process_active has returned from inside its loop is not modelled.
  abbrev pub abort_calls : EventBase B → ℕ → EventBase B
  abort_calls b e =
      if not ((b.event e).ev_ncalls == 0) && (b.event e).ev_pncalls
      then record b { ncalls = 0 }
      else b

  unfoldable pub event_active : EventBase B → ℕ → EventMask → ℕ → Option (EventBase B)
  event_active b e res ncalls =
      let ev = b.event e in
      if ev.ev_flags.active
      then some (set_event b e (record ev { ev_res = mask_or ev.ev_res res }))
      else (check ev.ev_base
          >> event_queue_insert true
              (set_event b e (record ev { ev_res = res; ev_ncalls = ncalls; ev_pncalls = false })) e
              active_queue)

  abbrev pub remove_if : Bool → EventBase B → ℕ → Queue → Option (EventBase B)
  remove_if test b e queue = if test then event_queue_remove b e queue else some b

  -- The part of event_add under `tv != NULL`.
  unfoldable pub schedule : Bool → Option Timeval → EventBase B → ℕ → Timeval → Option (EventBase B)
  schedule granted clock b e tv = remove_if (b.event e).ev_flags.timeout b e timeout_queue >>= λ b₁.
      (if (b₁.event e).ev_flags.active && (b₁.event e).ev_res.timeout
        then event_queue_remove (abort_calls b₁ e) e active_queue
        else some b₁)
      >>= λ b₂. gettime b₂ clock >>= λ now.
          event_queue_insert granted
            (record b₂ {
              timeheap = record (b₂.timeheap) {
                ev_timeout = update b₂.timeheap.ev_timeout e (timeradd now tv);
              };
            })
            e timeout_queue

  module _ (evsel : Eventop B) where
    -- The part of event_add that hands the event to the backend.
    unfoldable pub register : EventBase B → ℕ → Option (Status × EventBase B)
    register b e =
        let flags = (b.event e).ev_flags in
        if waits_for_io (b.event e) && not (flags.inserted || flags.active)
        then (evsel.add b e >>= λ (status, b'). elim status [
          | failure ↦ some (failure, b')
          | success ↦ event_queue_insert true b' e inserted_queue >>= λ b''. some (success, b'')
        ])
        else some (success, b)

    -- `granted` is for realloc, and `clock` is what the clock reads.
    unfoldable pub event_add :
        Bool → Option Timeval → EventBase B → ℕ → Option Timeval → Option (Status × EventBase B)
    event_add granted clock b e tv =
        let (room, heap) =
          if is_some tv && not (b.event e).ev_flags.timeout
          then min_heap_reserve granted b.timeheap ((1 + b.timeheap.n) % u32_mod)
          else (success, b.timeheap) in
        check (b.event e).ev_base >> elim room [
          | failure ↦ some (failure, record b { timeheap = heap })
          | success ↦ register (record b { timeheap = heap }) e >>= λ (status, b'). elim status [
            | failure ↦ some (failure, b')
            | success ↦ elim tv [
              | none ↦ some (success, b')
              | some t ↦ schedule granted clock b' e t >>= λ b''. some (success, b'')
            ]
          ]
        ]

    unfoldable pub event_del : EventBase B → ℕ → Option (Status × EventBase B)
    event_del b e =
        if not (b.event e).ev_base
        then some (failure, b)
        else (let b₁ = abort_calls b e in
            remove_if (b₁.event e).ev_flags.timeout b₁ e timeout_queue >>= λ b₂.
            remove_if (b₂.event e).ev_flags.active b₂ e active_queue >>= λ b₃.
            (if (b₃.event e).ev_flags.inserted
              then (event_queue_remove b₃ e inserted_queue >>= λ b₄. evsel.del b₄ e)
              else some (success, b₃)))
