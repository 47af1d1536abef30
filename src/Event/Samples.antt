-- ===== src/Event/Samples.antt =====
-- A small base, and a backend that agrees to everything, for the examples.
use ilibevent.Base.{ℕ, refl, arith, [], ◌∷◌, List, none, some, true, false, success}
use ilibevent.Base.Int.{pos}
use ilibevent.Time.{timerclear}
use ilibevent.TailQueue.{head_of, TailQueue}
use ilibevent.MinHeap.{no_index}
use ilibevent.State.{no_mask, ev_read_mask, Event, evlist_init, EventBase, Eventop}
use ilibevent.Event.Invariant.{nowhere, Inv}
use ilibevent.Event.Backend.{Backend}

-- A backend without a state that agrees to everything.
abbrev pub evsel : Eventop (Unit {0})
evsel = record {
  add = λ b e. some (success, b);
  del = λ b e. some (success, b);
  dispatch = λ b tv. some (success, b);
}

abbrev pub agreeing : Backend evsel
agreeing = record {
  accepts = λ s fd m. Unit {0};
  add_law = λ b e q. (success, tt, refl, λ fd m h. h);
  del_law = λ b e q. (success, tt, refl, λ fd m h. h);
}

-- An event for reading that is on no queue.
abbrev pub idle : Event
idle = record {
  ev_base = true;
  ev_fd = pos 3;
  ev_events = ev_read_mask;
  ev_ncalls = 0;
  ev_pncalls = false;
  ev_pri = 0;
  ev_callback = 7;
  ev_arg = 0;
  ev_res = no_mask;
  ev_flags = evlist_init;
}

abbrev pub no_links : TailQueue
no_links = record {
  tqh_first = λ _. none;
  tqh_last = head_of;
  tqe_next = λ _. none;
  tqe_prev = head_of;
}

-- A base with one priority, and room for eight timeouts; event `e` times out at `e` seconds.
abbrev pub base : EventBase (Unit {0})
base = record {
  evbase = tt;
  event = λ e. idle;
  event_count = pos 0;
  event_count_active = pos 0;
  event_gotterm = false;
  event_break = false;
  nactivequeues = 1;
  eventqueue = no_links;
  activequeues = no_links;
  timeheap = record {
    p = λ _. 0;
    n = 0;
    a = 8;
    min_heap_idx = λ _. no_index;
    ev_timeout = λ e. record { tv_sec = pos e; tv_usec = pos 0 };
  };
  event_tv = timerclear;
  tv_cache = timerclear;
  current_base = true;
  event_gotsig = false;
  ncalls = 0;
}

abbrev pub known : List ℕ
known = 1 ∷ 2 ∷ []

pub base-Inv : Inv known nowhere base
base-Inv = record {
  inserted_linked = record {
    chain = λ q. (refl, refl);
    distinct = λ q. tt;
    apart = λ q r e h k. ground arith;
  };
  active_linked = record {
    chain = λ q. (refl, refl);
    distinct = λ q. tt;
    apart = λ q r e h k. ground arith;
  };
  heap = record {
    ordered = λ c p q. absurd (omega arith);
    indexed = λ i h. absurd (omega arith);
    fits = omega arith;
    small = omega arith;
  };
  on_inserted = λ e q. refl;
  on_active = λ e q. refl;
  priority = λ e h. ground arith;
  on_heap = λ e h. ground arith;
  off_heap = λ e h i p q. absurd (omega arith);
  distinct = (refl, (refl, tt));
  all_known = λ e h. refl;
  counted = refl;
  counted_active = refl;
}
