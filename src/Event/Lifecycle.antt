-- ===== src/Event/Lifecycle.antt =====
-- The functions that make, restart and free an event_base, and those that use one event once.
-- calloc is not checked, or its failure is only noted and the NULL then followed: `room` says whether all the memory
-- is there. What `free` takes away is not used again, and is not modelled.
use ilibevent.Base.{
  ℕ, zero, suc, Bool, true, false, not, ◌&&◌, ◌||◌, Option, none, some, is_some, if◌then◌else◌,
  ◌>>=◌, ◌>>◌, check, Status, success, failure,
}
use ilibevent.Base.Int.{ℤ, pos, negsuc}
use ilibevent.Time.{Timeval, timerclear}
use ilibevent.TailQueue.{Slot, head_of, TailQueue, init_list}
use ilibevent.MinHeap.{min_heap_ctor, min_heap_top, min_heap_empty}
use ilibevent.State.{
  EventMask, no_mask, ev_timeout_mask, only_timeout, EventBase, Eventop, inserted_queue,
  active_queue,
}
use ilibevent.Event.Queues.{event_queue_remove}
use ilibevent.Event.Setup.{allocated, gettime, event_set, event_base_set, event_base_priority_init}
use ilibevent.Event.Add.{event_add, event_del}

-- The callbacks event_once_cb and event_loopexit_cb, by number.
abbrev pub event_once_cb_id : ℕ
event_once_cb_id = 4

-- The other functions of `struct eventop`, which event.cpp calls to make and free the backend: `init` gives `some none` for
-- NULL, and `none` if a NULL is followed in it. `added_signal` is the event for the socket of the signals, if `ev_signal_added` is set, and `clear_added`
-- resets it.
pub record Mechanism (B : Type 0) : Type 0 where
  pub evsel : Eventop B
  pub need_reinit : Bool
  pub init : EventBase B → Option (Option (EventBase B))
  pub dealloc : EventBase B → Option (EventBase B)
  pub added_signal : B → Option ℕ
  pub clear_added : B → B

-- No list, with the links of the events as they are in memory. A list that does not exist counts as empty.
abbrev pub no_lists : TailQueue → TailQueue
no_lists s = record s { tqh_first = λ _. none; tqh_last = head_of }

module _ {B : Type 0} where
  -- The fields of a new base. `memory` has the events and their links, and `blank` is the state of no backend. The event
  -- queue is new: calloc makes `tqh_first` NULL, and `tqh_last`, NULL too, is what `memory` has.
  abbrev pub zeroed : EventBase B → B → EventBase B
  zeroed memory blank = record memory {
    evbase = blank;
    event_count = pos 0;
    event_count_active = pos 0;
    event_gotterm = false;
    event_break = false;
    nactivequeues = 0;
    eventqueue =
        init_list (allocated (λ q. (none, memory.eventqueue.tqh_last q)) 1 memory.eventqueue) 0;
    activequeues = no_lists memory.activequeues;
    timeheap = min_heap_ctor memory.timeheap;
    event_tv = timerclear;
    tv_cache = timerclear;
    event_gotsig = false;
  }

  abbrev pub noted : EventBase B → Option Timeval → EventBase B
  noted b none = b
  noted b (some tv) = record b { event_tv = tv }

  module _ (mech : Mechanism B) where
    -- The base with what `init` gives.
    abbrev pub begun : EventBase B → Option (EventBase B) → EventBase B
    begun b r = elim r [ none ↦ b | some c ↦ c ]

    -- `lists` is what malloc gives for the lists of the active events.
    unfoldable pub event_base_new :
        Bool → (ℕ → Option ℕ × Slot) → Option Timeval → EventBase B → B → Option (EventBase B)
    event_base_new room lists clock memory blank =
        let b = zeroed memory blank in
        let b₁ = noted b (gettime b clock) in
        check room
        >> (mech.init b₁ >>= λ r.
            event_base_priority_init room lists (begun b₁ r) 1 >>= λ (_, b₂). some b₂)

    unfoldable pub event_init :
        Bool → (ℕ → Option ℕ × Slot) → Option Timeval → EventBase B → B → Option (EventBase B)
    event_init room lists clock memory blank = event_base_new room lists clock memory blank >>= λ b.
        some (record b { current_base = true })

    -- event_del of the events from `e` on along `next`, but for internal ones.
    unfoldable pub delete_all :
        ℕ → (EventBase B → ℕ → Option ℕ) → EventBase B → Option ℕ → Option (EventBase B)
    delete_all fuel next b none = some b
    delete_all zero next b (some e) = none
    delete_all (suc fuel) next b (some e) =
        (if (b.event e).ev_flags.internal
          then some b
          else (event_del mech.evsel b e >>= λ (_, b'). some b'))
        >>= λ b'. delete_all fuel next b' (next b e)

    unfoldable pub delete_timers : ℕ → EventBase B → Option (EventBase B)
    delete_timers zero b = none
    delete_timers (suc fuel) b = min_heap_top b.timeheap >>= λ top. elim top [
      | none ↦ some b
      | some e ↦ event_del mech.evsel b e >>= λ (_, b'). delete_timers fuel b'
    ]

    -- The lists of the active events, `k` of them from `i` on.
    unfoldable pub delete_active : ℕ → ℕ → ℕ → EventBase B → Option (EventBase B)
    delete_active fuel zero i b = some b
    delete_active fuel (suc k) i b =
        delete_all fuel (λ c e. c.activequeues.tqe_next e) b (b.activequeues.tqh_first i) >>= λ b'.
        delete_active fuel k (suc i) b'

    abbrev pub all_empty : EventBase B → ℕ → Bool
    all_empty b zero = true
    all_empty b (suc k) = all_empty b k && not (is_some (b.activequeues.tqh_first k))

    -- The base is the current one if there is a current one. `fuel` is for each loop over events.
    unfoldable pub event_base_free : ℕ → EventBase B → Option (EventBase B)
    unfolding delete_all delete_timers delete_active
    event_base_free fuel b =
        delete_all fuel (λ c e. c.eventqueue.tqe_next e) (record b { current_base = false })
          (b.eventqueue.tqh_first 0)
        >>= λ b₁. delete_timers fuel b₁ >>= λ b₂. delete_active fuel b₂.nactivequeues 0 b₂ >>= λ b₃.
            mech.dealloc b₃ >>= λ b₄.
            check (
              all_empty b₄ b₄.nactivequeues
              && min_heap_empty b₄.timeheap
              && not (is_some (b₄.eventqueue.tqh_first 0)))
            >> some b₄

    -- The event for the socket leaves its queues.
    unfoldable pub drop_signal : EventBase B → Option (EventBase B)
    drop_signal b = elim (mech.added_signal b.evbase) [
      | none ↦ some b
      | some e ↦ event_queue_remove b e inserted_queue >>= λ b₁.
          (if (b₁.event e).ev_flags.active then event_queue_remove b₁ e active_queue else some b₁)
          >>= λ b₂. some (record b₂ { evbase = mech.clear_added b₂.evbase })
    ]

    -- The events of the event queue from `e` on go to the new backend.
    unfoldable pub add_all : ℕ → EventBase B → Option ℕ → Status → Option (Status × EventBase B)
    add_all fuel b none res = some (res, b)
    add_all zero b (some e) res = none
    add_all (suc fuel) b (some e) res = mech.evsel.add b e >>= λ (status, b').
        add_all fuel b' (b'.eventqueue.tqe_next e)
          (elim status [ failure ↦ failure | success ↦ res ])

    -- With no new backend, an event on the queue is a fault.
    unfoldable pub event_reinit : ℕ → EventBase B → Option (Status × EventBase B)
    unfolding drop_signal add_all
    event_reinit fuel b =
        if not mech.need_reinit
        then some (success, b)
        else (drop_signal b >>= λ b₁. mech.dealloc b₁ >>= λ b₂. mech.init b₂ >>= λ r. elim r [
          | none ↦ check (not (is_some (b₂.eventqueue.tqh_first 0))) >> some (success, b₂)
          | some b₃ ↦ add_all fuel b₃ (b₃.eventqueue.tqh_first 0) success
        ])

  module _ (evsel : Eventop B) where
    -- The end of event_base_once, for the event and the time that were chosen.
    abbrev pub once_with :
        Bool → Option Timeval → EventBase B → ℕ → Option Timeval → Option (Status × EventBase B)
    once_with room clock b e tv =
        let (res, b') = event_base_set b e in
        elim res [ failure ↦ some (failure, b') | success ↦ event_add evsel room clock b' e tv ]

    -- `room_once` is for the calloc, and `room` for the realloc of event_add. `e` is the new event_once; its callback gets it as an argument. What it keeps of the client's callback is not
    -- modelled.
    unfoldable pub event_base_once :
        Bool
        → Bool
        → Option Timeval
        → EventBase B
        → ℕ
        → ℤ
        → EventMask
        → Option Timeval
        → Option (Status × EventBase B)
    event_base_once room_once room clock b e fd events tv =
        if events.signal || not room_once
        then some (failure, b)
        else if only_timeout events
        then once_with room clock (event_set b e (negsuc 0) no_mask event_once_cb_id e) e
            (some (elim tv [ none ↦ timerclear | some t ↦ t ]))
        else if events.read || events.write
        then once_with room clock
            (event_set b e fd (record no_mask { read = events.read; write = events.write })
              event_once_cb_id e)
            e tv
        else some (failure, b)

    unfoldable pub event_once :
        Bool
        → Bool
        → Option Timeval
        → EventBase B
        → ℕ
        → ℤ
        → EventMask
        → Option Timeval
        → Option (Status × EventBase B)
    event_once room_once room clock b e fd events tv =
        check b.current_base >> event_base_once room_once room clock b e fd events tv

    unfoldable pub event_base_loopexit :
        Bool
        → Bool
        → Option Timeval
        → EventBase B
        → ℕ
        → Option Timeval
        → Option (Status × EventBase B)
    event_base_loopexit room_once room clock b e tv =
        event_base_once room_once room clock b e (negsuc 0) ev_timeout_mask tv
