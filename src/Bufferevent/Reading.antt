-- ===== src/Bufferevent/Reading.antt =====
-- bufferevent_readcb: its cases.
use ilibevent.Base.{
  ℕ, ◌+◌, ◌-◌, ◌≤◌, ◌<◌, ◌^◌, ◌≡◌, ◌≢◌, refl, ap, ◌∙◌, sym, subst, ◌⊎◌, inl, inr, Bool, true, false,
  not, ◌&&◌, arith, ◌==◌, Bool-cases, Option, some, if◌then◌else◌,
}
use ilibevent.Base.Int.{ℤ, pos, ltb_ℤ}
use ilibevent.State.{EventMask, only_timeout, Eventop}
use ilibevent.Buffer.{Received}
use ilibevent.Buffer.Expand.{IsValid}
use ilibevent.Buffer.Io.{asked, Delivers}
use ilibevent.Bufferevent.State.{evbuffer_read_bit, Bufferevent, World, Env, Client}
use ilibevent.Bufferevent.Events.{Calls}
use ilibevent.Bufferevent.Callbacks.{room_left, report, pause_read, fill, bufferevent_readcb}
use ilibevent.Bufferevent.Settling.{is_full, Stopped, pause-Stopped}
use ilibevent.Bufferevent.Filling.{Unread, AfterFill, Fills, fill-Fills}

-- Below the high watermark, the room that is left is the difference.
pub room_below :
    (s : Bufferevent)
    → s.wm_read.high < 2 ^ 31
    → (s.wm_read.high == 0) ≡ false
    → s.input.off < s.wm_read.high
    → room_left s ≡ pos (s.wm_read.high - s.input.off)
room_below s small set less = ground arith

room_above :
    (s : Bufferevent)
    → s.wm_read.high < 2 ^ 31
    → (s.wm_read.high == 0) ≡ false
    → s.wm_read.high ≤ s.input.off
    → s.input.off ≤ s.wm_read.high + 2 ^ 31
    → ltb_ℤ (pos 0) (room_left s) ≡ false
room_above s small set more near = ground arith

module _ {B C : Type 0} (evsel : Eventop B) (app : Client B C) (env : Env) (r w : ℕ)
    (calls : Calls evsel env r w) (again : Bool) (pending : Option ℤ) (read : ℕ → Received)
    (event : EventMask) (x : World B C) where
  abbrev pub ask : ℕ
  ask = asked x.bufev.input pending (room_left x.bufev)

  -- The timeout is reported; or the queue is full, and reading stops; or read(2) is asked.
  abbrev pub ReadCases : Option (World B C) → Type 0
  ReadCases result =
      ((only_timeout event ≡ true)
        × (result ≡ report evsel app env x (record evbuffer_read_bit { timeout = true })))
      ⊎ ((only_timeout event ≡ false)
          × (is_full x.bufev ≡ true)
          × (y : World B C) × (result ≡ some y)
          × Stopped evsel app env r w calls x true y)
      ⊎ ((only_timeout event ≡ false)
          × (is_full x.bufev ≡ false)
          × (AfterFill evsel app env r w calls again x (read ask) result
              ⊎ ((env.queue_room ≡ false) × Unread evsel app env r w calls again x result)))

  abbrev pub result : Option (World B C)
  result = bufferevent_readcb evsel app env pending read again event x

  abbrev pub choose : Bool → Bool → Option (World B C)
  choose timed out =
      if timed
      then report evsel app env x (record evbuffer_read_bit { timeout = true })
      else if out
      then pause_read evsel app env x
      else fill evsel app env pending read again x (room_left x.bufev)

  abbrev pub no_room : Bool
  no_room = not (x.bufev.wm_read.high == 0) && not (ltb_ℤ (pos 0) (room_left x.bufev))

  pub readcb-choose : result ≡ choose (only_timeout event) no_room
  unfolding bufferevent_readcb
  readcb-choose = refl

  module _ (named : x.bufev.ev_read ≡ r) (good : calls.good x.base)
      (small : x.bufev.wm_read.high < 2 ^ 31)
      (near : x.bufev.wm_read.high ≢ 0 → x.bufev.input.off ≤ x.bufev.wm_read.high + 2 ^ 31) where
    no_room-full : no_room ≡ is_full x.bufev
    no_room-full = elim (Bool-cases (x.bufev.wm_read.high == 0)) [
      | inl unset ↦ rw unset
      | inr set ↦ elim (Bool-cases (is_full x.bufev)) [
        | inl full ↦
            ground (arith, room_above x.bufev small set (ground arith) (near (λ p. ground arith)))
        | inr part ↦ ground (arith, room_below x.bufev small set (ground arith))
      ]
    ]

    -- bufferevent_readcb, with a valid input queue of which `ask` more bytes fit into 2 ^ 63, a read(2) that delivers
    -- no more than it is asked for, a high watermark below 2 ^ 31 and not more than 2 ^ 31 bytes above it, in a good
    -- state of the base, always comes to its end, where the client's function is called if any. If the event is
    -- EV_TIMEOUT alone, errorcb gets EVBUFFER_READ and EVBUFFER_TIMEOUT, and nothing is read. If the queue is full,
    -- the event for reading is taken off the base and the callback of the queue is set. Otherwise, if read(2)
    -- fails, or realloc, errorcb gets EVBUFFER_READ and EVBUFFER_ERROR, and the base is as it was, unless errno
    -- asks for another try: then the event is handed to event_add again, with the timeout for reading and whatever the result, and no function
    -- is called. At the end of the stream
    -- errorcb gets EVBUFFER_READ and EVBUFFER_EOF. If bytes arrive, exactly these are behind the contents, and
    -- the client's readcb is called unless they are too few; if the queue is then full, the event for reading is
    -- on no queue, and if not, and the callback was not set, the event has been handed to event_add again in the same way.
    pub readcb-ReadCases :
        Delivers read
        → IsValid x.bufev.input
        → x.bufev.input.misalign + x.bufev.input.off + ask ≤ 2 ^ 63
        → ReadCases result
    readcb-ReadCases delivers v room = elim (Bool-cases (only_timeout event)) [
      | inl timed ↦ inl (timed, readcb-choose ∙ ap (λ t. choose t no_room) timed)
      | inr ready ↦ elim (Bool-cases (is_full x.bufev)) [
        | inl full ↦
            let (y, run, st) = pause-Stopped evsel app env r w calls x named good in
            inr (
              inl (
                ready,
                full,
                y,
                readcb-choose
                    ∙ ap (λ t. choose t no_room) ready
                    ∙ ap (choose false) (no_room-full ∙ full)
                    ∙ run,
                st,
              ))
        | inr part ↦ inr (
            inr (
              ready,
              part,
              subst (Fills evsel app env r w calls again x named good (read ask))
                  (sym (
                    readcb-choose
                    ∙ ap (λ t. choose t no_room) ready
                    ∙ ap (choose false) (no_room-full ∙ part)))
                  (fill-Fills evsel app env r w calls again x named good pending read
                    (room_left x.bufev) delivers v room),
            ))
      ]
    ]
