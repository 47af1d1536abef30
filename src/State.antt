-- ===== src/State.antt =====
-- The structs of include/event.hpp: `struct event` and `struct event_base`.
-- An event is an identifier. Its links are in the tail queues, and its heap index and its timeout are
-- in the heap, which hold these fields as functions of the event; the other fields are in `Event`.
-- There is one event_base; `ev_base` and `current_base` say whether the pointer is set.
-- The bits of a mask are the fields of a record; no other bits are ever set.
use ilibevent.Base.{ℕ, not, ◌&&◌, ◌||◌, Bool, true, false, Option, Status}
use ilibevent.Base.Int.{ℤ}
use ilibevent.Time.{Timeval}
use ilibevent.TailQueue.{TailQueue}
use ilibevent.MinHeap.{MinHeap}

-- EV_TIMEOUT, EV_READ, EV_WRITE, EV_SIGNAL, EV_PERSIST
pub record EventMask : Type 0 where
  pub timeout : Bool
  pub read : Bool
  pub write : Bool
  pub signal : Bool
  pub persist : Bool

abbrev pub no_mask : EventMask
no_mask = record { timeout = false; read = false; write = false; signal = false; persist = false }

abbrev pub ev_timeout_mask : EventMask
ev_timeout_mask = record no_mask { timeout = true }

abbrev pub ev_read_mask : EventMask
ev_read_mask = record no_mask { read = true }

abbrev pub ev_write_mask : EventMask
ev_write_mask = record no_mask { write = true }

abbrev pub mask_or : EventMask → EventMask → EventMask
mask_or a b = record {
  timeout = a.timeout || b.timeout;
  read = a.read || b.read;
  write = a.write || b.write;
  signal = a.signal || b.signal;
  persist = a.persist || b.persist;
}

abbrev pub mask_and : EventMask → EventMask → EventMask
mask_and a b = record {
  timeout = a.timeout && b.timeout;
  read = a.read && b.read;
  write = a.write && b.write;
  signal = a.signal && b.signal;
  persist = a.persist && b.persist;
}

-- event == EV_TIMEOUT
abbrev pub only_timeout : EventMask → Bool
only_timeout m = m.timeout && not (m.read || m.write || m.signal || m.persist)

-- EVLIST_TIMEOUT, EVLIST_INSERTED, EVLIST_ACTIVE, EVLIST_INTERNAL, EVLIST_INIT; EVLIST_SIGNAL is
-- never set.
pub record EventFlags : Type 0 where
  pub timeout : Bool
  pub inserted : Bool
  pub active : Bool
  pub internal : Bool
  pub init : Bool

abbrev pub evlist_init : EventFlags
evlist_init = record {
  timeout = false;
  inserted = false;
  active = false;
  internal = false;
  init = true;
}

pub record Event : Type 0 where
  pub ev_base : Bool
  pub ev_fd : ℤ
  pub ev_events : EventMask
  pub ev_ncalls : ℕ
  pub ev_pncalls : Bool  -- whether it points to the `ncalls` of event_process_active
  pub ev_pri : ℕ
  pub ev_callback : ℕ
  pub ev_arg : ℕ
  pub ev_res : EventMask
  pub ev_flags : EventFlags

-- What event_queue_insert and event_queue_remove are told.
pub data Queue : Type 0 where
  timeout_queue inserted_queue active_queue : Queue

-- `evbase` is the state of the backend, of the type that the backend chooses. `eventqueue` has one
-- list, number 0; `activequeues` has one for each priority. `current_base` and `event_gotsig` are
-- variables of event.cpp. `ncalls` is the local variable of
-- event_process_active to which `ev_pncalls` points.
pub record EventBase (B : Type 0) : Type 0 where
  pub evbase : B
  pub event : ℕ → Event
  pub event_count : ℤ
  pub event_count_active : ℤ
  pub event_gotterm : Bool
  pub event_break : Bool
  pub nactivequeues : ℕ
  pub eventqueue : TailQueue
  pub activequeues : TailQueue
  pub timeheap : MinHeap
  pub event_tv : Timeval
  pub tv_cache : Timeval
  pub current_base : Bool
  pub event_gotsig : Bool
  pub ncalls : ℕ

-- The functions of `struct eventop` that event.cpp calls.
pub record Eventop (B : Type 0) : Type 0 where
  pub add : EventBase B → ℕ → Option (Status × EventBase B)
  pub del : EventBase B → ℕ → Option (Status × EventBase B)
  pub dispatch : EventBase B → Option Timeval → Option (Status × EventBase B)
