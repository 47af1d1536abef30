-- ===== src/Bufferevent/State.antt =====
-- `struct bufferevent`, the base that it belongs to, and the client behind it.
-- A function pointer is set or NULL, as a Bool. `input->cb` is NULL or bufferevent_read_pressure_cb; the
-- library never sets `output->cb`.
use ilibevent.Base.{ℕ, Bool, true, false, Option}
use ilibevent.Base.Int.{ℤ}
use ilibevent.Time.{Timeval}
use ilibevent.Buffer.{Evbuffer}
use ilibevent.State.{EventMask, EventBase}

-- EVBUFFER_READ, EVBUFFER_WRITE, EVBUFFER_EOF, EVBUFFER_ERROR, EVBUFFER_TIMEOUT
pub record What : Type 0 where
  pub read : Bool
  pub write : Bool
  pub eof : Bool
  pub error : Bool
  pub timeout : Bool

abbrev pub evbuffer_read_bit : What
evbuffer_read_bit = record {
  read = true;
  write = false;
  eof = false;
  error = false;
  timeout = false;
}

abbrev pub evbuffer_write_bit : What
evbuffer_write_bit = record {
  read = false;
  write = true;
  eof = false;
  error = false;
  timeout = false;
}

pub record Watermark : Type 0 where
  pub low : ℕ
  pub high : ℕ

-- `ev_read` and `ev_write` are the numbers of the two events.
pub record Bufferevent : Type 0 where
  pub ev_base : Bool
  pub ev_read : ℕ
  pub ev_write : ℕ
  pub input : Evbuffer
  pub output : Evbuffer
  pub wm_read : Watermark
  pub wm_write : Watermark
  pub readcb : Bool
  pub writecb : Bool
  pub errorcb : Bool
  pub timeout_read : ℤ
  pub timeout_write : ℤ
  pub enabled : EventMask

pub record World (B C : Type 0) : Type 0 where
  pub base : EventBase B
  pub bufev : Bufferevent
  pub client : C

-- What the system does in one call: whether realloc serves the heap and the queues, and the clock.
pub record Env : Type 0 where
  pub heap_room : Bool
  pub queue_room : Bool
  pub clock : Option Timeval

-- The client's functions.
pub record Client (B C : Type 0) : Type 0 where
  pub readcb : World B C → Option (World B C)
  pub writecb : World B C → Option (World B C)
  pub errorcb : World B C → What → Option (World B C)

module _ {B C : Type 0} where
  abbrev pub with_input : World B C → Evbuffer → World B C
  with_input w buf = record w { bufev = record (w.bufev) { input = buf } }

  abbrev pub with_output : World B C → Evbuffer → World B C
  with_output w buf = record w { bufev = record (w.bufev) { output = buf } }

  abbrev pub with_base : World B C → EventBase B → World B C
  with_base w b = record w { base = b }
