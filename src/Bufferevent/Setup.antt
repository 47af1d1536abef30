-- ===== src/Bufferevent/Setup.antt =====
-- The functions that make a bufferevent and set its fields, and those that start and stop its events.
use ilibevent.Base.{
  ℕ, Bool, true, false, not, ◌&&◌, ◌||◌, Option, none, some, ltb, ◌==◌, if◌then◌else◌, ◌>>=◌,
  Status, success, failure,
}
use ilibevent.Base.Int.{ℤ, pos}
use ilibevent.Time.{Timeval, timerclear}
use ilibevent.Buffer.{evbuffer_new, evbuffer_setcb}
use ilibevent.State.{EventMask, ev_read_mask, ev_write_mask, mask_or, EventBase, Eventop}
use ilibevent.Event.Setup.{is_zero, event_set, event_base_set, event_priority_set, event_pending}
use ilibevent.Event.Add.{event_add, event_del}
use ilibevent.Bufferevent.State.{Bufferevent, Watermark, World, Env, with_input, with_base}

-- The functions bufferevent_readcb and bufferevent_writecb, as callbacks of events.
abbrev pub readcb_id : ℕ
readcb_id = 1

abbrev pub writecb_id : ℕ
writecb_id = 2

-- events & ~event
abbrev pub mask_without : EventMask → EventMask → EventMask
mask_without a b = record {
  timeout = a.timeout && not b.timeout;
  read = a.read && not b.read;
  write = a.write && not b.write;
  signal = a.signal && not b.signal;
  persist = a.persist && not b.persist;
}

-- A timeout in seconds, 0 for none.
abbrev pub timeval_of : ℤ → Option Timeval
timeval_of timeout = if is_zero timeout then none else some (record timerclear { tv_sec = timeout })

module _ {B : Type 0} where
  -- The two calls of event_set.
  abbrev pub set_events : EventBase B → ℕ → ℕ → ℤ → ℕ → EventBase B
  set_events b ev_read ev_write fd arg =
      event_set (event_set b ev_read fd ev_read_mask readcb_id arg) ev_write fd ev_write_mask
        writecb_id arg

  -- The first three arguments say which calloc succeeds. `ev_read` and `ev_write` are the new events, and
  -- `arg` is the new bufferevent as an argument of a callback. On a failure NULL is returned.
  unfoldable pub bufferevent_new :
      Bool
      → Bool
      → Bool
      → EventBase B
      → ℕ
      → ℕ
      → ℕ
      → ℤ
      → Bool
      → Bool
      → Bool
      → EventBase B × Option Bufferevent
  bufferevent_new room_bufev room_input room_output b ev_read ev_write arg fd readcb writecb
        errorcb =
      if not (room_bufev && room_input && room_output) then (b, none) else (
        set_events b ev_read ev_write fd arg,
        some (record {
          ev_base = false;
          ev_read = ev_read;
          ev_write = ev_write;
          input = evbuffer_new;
          output = evbuffer_new;
          wm_read = record { low = 0; high = 0 };
          wm_write = record { low = 0; high = 0 };
          readcb = readcb;
          writecb = writecb;
          errorcb = errorcb;
          timeout_read = pos 0;
          timeout_write = pos 0;
          enabled = ev_write_mask;
        }),
      )

module _ {B C : Type 0} where
  unfoldable pub bufferevent_base_set : World B C → Status × World B C
  bufferevent_base_set w =
      let named = record w { bufev = record (w.bufev) { ev_base = true } } in
      let (res, b) = event_base_set w.base w.bufev.ev_read in
      elim res [
        | failure ↦ (failure, with_base named b)
        | success ↦ let (res', b') = event_base_set b w.bufev.ev_write in (res', with_base named b')
      ]

  unfoldable pub bufferevent_priority_set : World B C → ℤ → Option (Status × World B C)
  bufferevent_priority_set w priority =
      event_priority_set w.base w.bufev.ev_read priority >>= λ (res, b). elim res [
        | failure ↦ some (failure, with_base w b)
        | success ↦ event_priority_set b w.bufev.ev_write priority >>= λ (res', b').
            some (res', with_base w b')
      ]

  unfoldable pub bufferevent_setcb : World B C → Bool → Bool → Bool → World B C
  bufferevent_setcb w readcb writecb errorcb = record w {
    bufev = record (w.bufev) { readcb = readcb; writecb = writecb; errorcb = errorcb };
  }

  module _ (evsel : Eventop B) (env : Env) where
    -- `e` is one of the two events.
    unfoldable pub bufferevent_add : World B C → ℕ → ℤ → Option (Status × World B C)
    bufferevent_add w e timeout =
        event_add evsel env.heap_room env.clock w.base e (timeval_of timeout) >>= λ (status, b).
        some (status, with_base w b)

    -- event_del, and the two of it that take the events off the base.
    unfoldable pub remove_event : World B C → ℕ → Option (Status × World B C)
    remove_event w e = event_del evsel w.base e >>= λ (status, b). some (status, with_base w b)

    -- What is left is the base; the queues are freed.
    unfoldable pub bufferevent_free : World B C → Option (EventBase B)
    bufferevent_free w = event_del evsel w.base w.bufev.ev_read >>= λ (_, b).
        event_del evsel b w.bufev.ev_write >>= λ (_, b'). some b'

    unfoldable pub bufferevent_setfd : World B C → ℕ → ℤ → Option (World B C)
    bufferevent_setfd w arg fd = bufferevent_free w >>= λ b.
        let set = set_events b w.bufev.ev_read w.bufev.ev_write fd arg in
        if w.bufev.ev_base
        then some
            (with_base w (event_base_set (event_base_set set w.bufev.ev_read).1 w.bufev.ev_write).1)
        else some (with_base w set)

    -- `if (test) { if (start(e) == -1) return -1; }`, and then what follows.
    abbrev pub stop_or :
        Bool
        → Option (Status × World B C)
        → World B C
        → (World B C → Option (Status × World B C))
        → Option (Status × World B C)
    stop_or test call w next =
        if test
        then (call >>= λ (res, w'). elim res [ failure ↦ some (failure, w') | success ↦ next w' ])
        else next w

    unfoldable pub bufferevent_enable : World B C → EventMask → Option (Status × World B C)
    bufferevent_enable w event =
        stop_or event.read (bufferevent_add w w.bufev.ev_read w.bufev.timeout_read) w λ w₁.
          stop_or event.write (bufferevent_add w₁ w₁.bufev.ev_write w₁.bufev.timeout_write) w₁ λ w₂.
            some (
              success,
              record w₂ { bufev = record (w₂.bufev) { enabled = mask_or w₂.bufev.enabled event } },
            )

    unfoldable pub bufferevent_disable : World B C → EventMask → Option (Status × World B C)
    bufferevent_disable w event = stop_or event.read (remove_event w w.bufev.ev_read) w λ w₁.
        stop_or event.write (remove_event w₁ w₁.bufev.ev_write) w₁ λ w₂. some (
          success,
          record w₂ { bufev = record (w₂.bufev) { enabled = mask_without w₂.bufev.enabled event } },
        )

    -- if (event_pending(e, event, NULL)) bufferevent_add(e, timeout); `event` is EV_READ or EV_WRITE.
    abbrev pub renew : World B C → ℕ → EventMask → ℤ → Option (World B C)
    renew w e event timeout = event_pending w.base e event false none timerclear >>= λ (flags, _).
        if flags.read || flags.write
        then (bufferevent_add w e timeout >>= λ (_, w'). some w')
        else some w

    unfoldable pub bufferevent_settimeout : World B C → ℤ → ℤ → Option (World B C)
    bufferevent_settimeout w timeout_read timeout_write =
        renew
          (record w {
            bufev = record (w.bufev) { timeout_read = timeout_read; timeout_write = timeout_write };
          })
          w.bufev.ev_read ev_read_mask timeout_read
        >>= λ w₁. renew w₁ w₁.bufev.ev_write ev_write_mask timeout_write

    -- `now` is how many bytes the queue holds.
    unfoldable pub bufferevent_read_pressure_cb : World B C → ℕ → Option (World B C)
    bufferevent_read_pressure_cb w now =
        if w.bufev.wm_read.high == 0 || ltb now w.bufev.wm_read.high
        then (let calm = with_input w (evbuffer_setcb w.bufev.input false) in
            if calm.bufev.enabled.read
            then (bufferevent_add calm calm.bufev.ev_read calm.bufev.timeout_read >>= λ (_, w').
                some w')
            else some calm)
        else some w

    unfoldable pub bufferevent_setwatermark : World B C → EventMask → ℕ → ℕ → Option (World B C)
    bufferevent_setwatermark w events lowmark highmark =
        let mark : Watermark = record { low = lowmark; high = highmark } in
        let marked = record w {
          bufev = record (w.bufev) {
            wm_read = if events.read then mark else w.bufev.wm_read;
            wm_write = if events.write then mark else w.bufev.wm_write;
          };
        } in
        bufferevent_read_pressure_cb marked marked.bufev.input.off
