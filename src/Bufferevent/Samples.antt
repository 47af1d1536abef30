-- ===== src/Bufferevent/Samples.antt =====
-- A bufferevent on a small base, for the examples.
use ilibevent.Base.{◌≡◌, refl, arith, some, true, false, ◌+◌}
use ilibevent.Base.Int.{pos}
use ilibevent.Time.{Timeval}
use ilibevent.State.{ev_read_mask, ev_write_mask, mask_or, EventBase}
use ilibevent.Buffer.{Evbuffer}
use ilibevent.Buffer.Expand.{IsValid}
use ilibevent.Event.Invariant.{nowhere}
use ilibevent.Event.Samples.{evsel, agreeing, idle, base, known, base-Inv}
use ilibevent.Event.Queues.{set_event}
use ilibevent.Event.Setup.{gettime}
use ilibevent.Event.Backend.{set_event-Inv}
use ilibevent.Bufferevent.State.{Bufferevent, Env}
use ilibevent.Bufferevent.Events.{Calls, Usable, event_calls}

abbrev pub now : Timeval
now = record { tv_sec = pos 2; tv_usec = pos 0 }

abbrev pub env : Env
env = record { heap_room = true; queue_room = true; clock = some now }

-- Event 1 is for reading and event 2 for writing.
abbrev pub two_events : EventBase (Unit {0})
two_events = set_event base 2 (record idle { ev_events = ev_write_mask })

-- Three bytes in a block of eight.
abbrev pub three : Evbuffer
three = record { memory = λ i. i + 10; buffer = 0; misalign = 0; totallen = 8; off = 3; cb = true }

pub three-IsValid : IsValid three
three-IsValid = record { aligned = refl; inside = omega arith; sized = omega arith }

-- Paused at a high watermark of two bytes, with something to write.
abbrev pub full : Bufferevent
full = record {
  ev_base = true;
  ev_read = 1;
  ev_write = 2;
  input = three;
  output = record three { cb = false };
  wm_read = record { low = 0; high = 2 };
  wm_write = record { low = 0; high = 0 };
  readcb = true;
  writecb = true;
  errorcb = true;
  timeout_read = pos 10;
  timeout_write = pos 0;
  enabled = mask_or ev_read_mask ev_write_mask;
}

abbrev pub calls : Calls evsel env 1 2
calls = event_calls evsel agreeing env known now 1 2 refl refl (omega arith)

reads_now : gettime two_events (some now) ≡ some now
unfolding gettime
reads_now = refl

pub two_events-Usable : Usable evsel agreeing env known now 1 2 two_events
two_events-Usable = record {
  view = nowhere;
  inv =
      set_event-Inv known nowhere base base-Inv 2 (record idle { ev_events = ev_write_mask }) refl
        refl refl;
  timerless = λ e h. ground arith;
  based = λ e q. ground arith;
  fit = λ e q. tt;
  reads = reads_now;
}
