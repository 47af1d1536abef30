-- ===== src/Event/Setup.antt =====
-- event_set, event_base_set, event_priority_set, event_pending, event_base_priority_init,
-- event_base_loopbreak, event_loopexit_cb and event_haveevents.
use ilibevent.Base.{
  ℕ, zero, suc, ◌/◌, Bool, true, false, not, ◌&&◌, ◌||◌, Option, none, some, ltb, ◌==◌,
  if◌then◌else◌, ◌>>=◌, ◌>>◌, check, Status, success, failure,
}
use ilibevent.Base.Int.{ℤ, pos, negsuc, pos_part, ltb_ℤ}
use ilibevent.Time.{Timeval, timeradd, timersub}
use ilibevent.TailQueue.{Slot, head_of, TailQueue, init_list}
use ilibevent.MinHeap.{min_heap_elem_init}
use ilibevent.State.{
  EventMask, no_mask, ev_timeout_mask, mask_or, mask_and, EventFlags, evlist_init, Event, EventBase,
}
use ilibevent.Event.Queues.{set_event}

-- ev_flags == EVLIST_INIT
abbrev pub only_init : EventFlags → Bool
only_init f = f.init && not (f.timeout || f.inserted || f.active || f.internal)

abbrev pub is_zero : ℤ → Bool
is_zero (pos zero) = true
is_zero (pos (suc _)) = false
is_zero (negsuc _) = false

-- What the event waits for or has been activated for.
abbrev pub pending_flags : Event → EventMask
pending_flags ev =
    let waits =
      if ev.ev_flags.inserted
      then mask_and ev.ev_events
          (record { timeout = false; read = true; write = true; signal = true; persist = false })
      else no_mask in
    let runs = if ev.ev_flags.active then mask_or waits ev.ev_res else waits in
    if ev.ev_flags.timeout then mask_or runs ev_timeout_mask else runs

-- for (i = 0; i < n; ++i) activequeues[i] = an empty list
-- `n` new lists, with what their memory holds before anything is assigned. A list that does not exist counts as
-- empty.
abbrev pub allocated : (ℕ → Option ℕ × Slot) → ℕ → TailQueue → TailQueue
allocated memory n s = record s {
  tqh_first = λ q. if ltb q n then (memory q).0 else none;
  tqh_last = λ q. if ltb q n then (memory q).1 else head_of q;
}

unfoldable pub init_lists : TailQueue → ℕ → TailQueue
init_lists s zero = s
init_lists s (suc i) = init_list (init_lists s i) i

module _ {B : Type 0} where
  -- `clock` is the reading of the clock that the system call gives, `none` if it fails.
  unfoldable pub gettime : EventBase B → Option Timeval → Option Timeval
  gettime b clock = if not (is_zero b.tv_cache.tv_sec) then some b.tv_cache else clock

  unfoldable pub event_set : EventBase B → ℕ → ℤ → EventMask → ℕ → ℕ → EventBase B
  event_set b e fd events callback arg =
      let fresh = record (b.event e) {
        ev_base = b.current_base;
        ev_callback = callback;
        ev_arg = arg;
        ev_fd = fd;
        ev_events = events;
        ev_res = no_mask;
        ev_flags = evlist_init;
        ev_ncalls = 0;
        ev_pncalls = false;
        ev_pri = if b.current_base then b.nactivequeues / 2 else (b.event e).ev_pri;
      } in
      record (set_event b e fresh) { timeheap = min_heap_elem_init b.timeheap e }

  unfoldable pub event_base_set : EventBase B → ℕ → Status × EventBase B
  event_base_set b e = if not (only_init (b.event e).ev_flags) then (failure, b) else (
    success,
    set_event b e (record (b.event e) { ev_base = true; ev_pri = b.nactivequeues / 2 }),
  )

  -- A NULL `ev_base` that is followed is a fault.
  unfoldable pub event_priority_set : EventBase B → ℕ → ℤ → Option (Status × EventBase B)
  event_priority_set b e pri =
      let ev = b.event e in
      if ev.ev_flags.active || ltb_ℤ pri (pos 0)
      then some (failure, b)
      else (check ev.ev_base
          >> (if not (ltb (pos_part pri) b.nactivequeues)
              then some (failure, b)
              else some (success, set_event b e (record ev { ev_pri = pos_part pri }))))

  -- The result is `flags & event` and what is stored in `*tv`. `wanted_tv` says whether `tv` is given,
  -- `clock` and `wall` are what the clock and gettimeofday read.
  unfoldable pub event_pending :
      EventBase B
      → ℕ
      → EventMask
      → Bool
      → Option Timeval
      → Timeval
      → Option (EventMask × Option Timeval)
  event_pending b e event wanted_tv clock wall =
      let asked = record event { persist = false } in
      let flags = mask_and (pending_flags (b.event e)) asked in
      if wanted_tv && flags.timeout
      then (gettime b clock >>= λ now.
          some (flags, some (timeradd wall (timersub (b.timeheap.ev_timeout e) now))))
      else some (flags, none)

  -- `room` says whether there is memory: a NULL is followed, unless no list is asked for. `memory` is what malloc
  -- gives for the lists. A negative number of priorities, which would stay in the base, is not modelled.
  unfoldable pub event_base_priority_init :
      Bool → (ℕ → Option ℕ × Slot) → EventBase B → ℕ → Option (Status × EventBase B)
  unfolding init_lists
  event_base_priority_init room memory b npriorities =
      if not (is_zero b.event_count_active)
      then some (failure, b)
      else if npriorities == b.nactivequeues
      then some (success, b)
      else (check (room || npriorities == 0)
          >> some (
            success,
            record b {
              nactivequeues = npriorities;
              activequeues = init_lists (allocated memory npriorities b.activequeues) npriorities;
            },
          ))

  unfoldable pub event_haveevents : EventBase B → Bool
  event_haveevents b = ltb_ℤ (pos 0) b.event_count

  unfoldable pub event_base_loopbreak : EventBase B → EventBase B
  event_base_loopbreak b = record b { event_break = true }

  unfoldable pub event_loopexit_cb : EventBase B → EventBase B
  event_loopexit_cb b = record b { event_gotterm = true }
