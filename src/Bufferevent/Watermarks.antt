-- ===== src/Bufferevent/Watermarks.antt =====
-- The watermarks of bufferevent_readcb.
use ilibevent.Base.{
  ℕ, ◌+◌, ◌-◌, ◌≤◌, ◌<◌, ◌^◌, ◌≡◌, ◌≢◌, refl, ap, ◌∙◌, sym, subst, ◌⊎◌, inl, inr, Bool, true, false,
  List, [], ◌∷◌, arith, Bool-cases, Option, some, length, length-append, length-slice,
  if◌then◌else◌,
}
use ilibevent.Base.Int.{ℤ, pos, ltb_ℤ}
use ilibevent.State.{EventMask, only_timeout, Eventop}
use ilibevent.Buffer.{contents, Received, io_bytes}
use ilibevent.Buffer.Expand.{IsValid}
use ilibevent.Buffer.Io.{asked, asked_bounds, Delivers}
use ilibevent.Bufferevent.State.{What, evbuffer_read_bit, Bufferevent, World, Env, Client}
use ilibevent.Bufferevent.Events.{Calls}
use ilibevent.Bufferevent.Callbacks.{room_left, report}
use ilibevent.Bufferevent.Settling.{too_few, deliver, Stopped, pause-Stopped}
use ilibevent.Bufferevent.Filling.{Kept, Unread, AfterFill}
use ilibevent.Bufferevent.Reading.{
  room_below, ask, ReadCases, result, choose, no_room, readcb-choose, readcb-ReadCases,
}

-- A difference of 2 ^ 31 or more is negative as an int.
room_wraps :
    (s : Bufferevent)
    → s.input.off + 2 ^ 31 ≤ s.wm_read.high
    → s.wm_read.high < s.input.off + 2 ^ 32
    → ltb_ℤ (pos 0) (room_left s) ≡ false
room_wraps s large small = ground arith

module _ {B C : Type 0} (evsel : Eventop B) (app : Client B C) (env : Env) (r w : ℕ)
    (calls : Calls evsel env r w) (again : Bool) (pending : Option ℤ) (read : ℕ → Received)
    (event : EventMask) (x : World B C) where
  module _ (named : x.bufev.ev_read ≡ r) (good : calls.good x.base)
      (small : x.bufev.wm_read.high < 2 ^ 31)
      (near : x.bufev.wm_read.high ≢ 0 → x.bufev.input.off ≤ x.bufev.wm_read.high + 2 ^ 31) where
    Kept-size :
        (bytes : List ℕ) (y : World B C)
        → Kept evsel app env r w calls again x bytes y
        → y.bufev.input.off ≡ x.bufev.input.off + length bytes
    Kept-size bytes y k = omega (
      arith,
      ap length k.queued,
      length-append (contents x.bufev.input) bytes,
      length-slice x.bufev.input.memory x.bufev.input.buffer x.bufev.input.off,
      length-slice y.bufev.input.memory y.bufev.input.buffer y.bufev.input.off,
    )

    -- How bufferevent_readcb ends in `y`: it returns, or calls readcb with as many bytes as the low
    -- watermark asks for, or errorcb.
    abbrev pub EndsIn : World B C → Option (World B C) → Type 0
    EndsIn y result =
        (result ≡ some y)
        ⊎ ((result ≡ app.readcb y) × (y.bufev.wm_read.low ≤ y.bufev.input.off))
        ⊎ ((what : What) × (result ≡ report evsel app env y what))

    abbrev pub Within : Option (World B C) → Type 0
    Within result =
        (y : World B C) × calls.good y.base
        × IsValid y.bufev.input
        × (y.bufev.input.off ≤ x.bufev.wm_read.high)
        × EndsIn y result

    deliver-EndsIn : (y : World B C) → EndsIn y (deliver evsel app env r w calls y)
    deliver-EndsIn y = elim (Bool-cases (too_few y.bufev)) [
      | inl few ↦ inl (rw few refl)
      | inr many ↦ elim (Bool-cases y.bufev.readcb) [
        | inl on ↦ inr (inl (rw (many, on) refl, ground arith))
        | inr off ↦ inl (rw (many, off) refl)
      ]
    ]

    abbrev failing : World B C → Option (World B C)
    failing y = report evsel app env y (record evbuffer_read_bit { error = true })

    Unread-Within :
        x.bufev.input.off ≤ x.bufev.wm_read.high
        → (outcome : Option (World B C)) → Unread evsel app env r w calls again x outcome
        → Within outcome
    Unread-Within below outcome (y, k, run, more, less) =
        (y, k.good, k.valid, omega (arith, below, Kept-size [] y k), ends (Bool-cases again))
      where
        ends : (again ≡ true) ⊎ (again ≡ false) → EndsIn y outcome
        ends (inl h) = inl (run ∙ ap (λ t. if t then some y else failing y) h)
        ends (inr h) = inr (inr (_, run ∙ ap (λ t. if t then some y else failing y) h))

    fill-Within :
        x.bufev.input.off ≤ x.bufev.wm_read.high
        → (received : Received)
        → ((bytes : List ℕ)
            → received ≡ io_bytes bytes
            → x.bufev.input.off + length bytes ≤ x.bufev.wm_read.high)
        → (outcome : Option (World B C))
        → AfterFill evsel app env r w calls again x received outcome
        → Within outcome
    fill-Within below Received.io_error fits outcome f = Unread-Within below outcome f
    fill-Within below (io_bytes []) fits outcome (y, k, run, same) =
        (y, k.good, k.valid, omega (arith, below, Kept-size [] y k), inr (inr (_, run)))
    fill-Within below (io_bytes (b ∷ bs)) fits outcome (y, k, run, full, part) = (
      y,
      k.good,
      k.valid,
      omega (arith, fits (b ∷ bs) refl, Kept-size (b ∷ bs) y k),
      subst (EndsIn y) (sym run) (deliver-EndsIn y),
    )

    asked_within :
        Delivers read
        → x.bufev.wm_read.high ≢ 0
        → x.bufev.input.off < x.bufev.wm_read.high
        → (bytes : List ℕ)
        → read (ask evsel app env r w calls again pending read event x) ≡ io_bytes bytes
        → x.bufev.input.off + length bytes ≤ x.bufev.wm_read.high
    asked_within delivers set below bytes run =
        let room = room_below x.bufev small (ground arith) below in
        let most : (ask evsel app env r w calls again pending read event x)
            ≤ x.bufev.wm_read.high - x.bufev.input.off =
          subst (λ h. asked x.bufev.input pending h ≤ x.bufev.wm_read.high - x.bufev.input.off)
            (sym room)
            (asked_bounds x.bufev.input pending (x.bufev.wm_read.high - x.bufev.input.off)).0 in
        omega (
          arith,
          most,
          below,
          delivers (ask evsel app env r w calls again pending read event x) bytes run,
        )

    -- bufferevent_readcb with a high watermark that is not 0, below 2 ^ 31, and not below the size of the input queue,
    -- which is valid and of which as many more bytes as read(2) is asked for fit into 2 ^ 63, and with a read(2) that
    -- delivers no more than it is asked for, in a good state of the base, always comes to its end, with a valid
    -- input queue that is not beyond the high watermark and in a good state of the base. If it ends with a call of
    -- readcb, the queue has at least as many bytes as the low watermark.
    pub readcb-Within :
        Delivers read
        → IsValid x.bufev.input
        → x.bufev.input.misalign
            + x.bufev.input.off
            + (ask evsel app env r w calls again pending read event x)
          ≤ 2 ^ 63
        → x.bufev.wm_read.high ≢ 0
        → x.bufev.input.off ≤ x.bufev.wm_read.high
        → Within (result evsel app env r w calls again pending read event x)
    readcb-Within delivers v room set below = within (
        readcb-ReadCases evsel app env r w calls again pending read event x named good small near
          delivers v room)
      where
        within :
            ReadCases evsel app env r w calls again pending read event x
              (result evsel app env r w calls again pending read event x)
            → Within (result evsel app env r w calls again pending read event x)
        within (inl (timed, run)) = (x, good, v, below, inr (inr (_, run)))
        within (inr (inl (ready, full, y, run, st))) = (
          y,
          st.good,
          subst (λ s. IsValid s.input) (sym st.bufev)
              (record { aligned = v.aligned; inside = v.inside; sized = v.sized }),
          subst (λ s. s.input.off ≤ x.bufev.wm_read.high) (sym st.bufev) below,
          inl run,
        )
        within (inr (inr (ready, part, inr (refused, un)))) =
            Unread-Within below (result evsel app env r w calls again pending read event x) un
        within (inr (inr (ready, part, inl f))) =
            fill-Within below (read (ask evsel app env r w calls again pending read event x))
              (asked_within delivers set (ground arith))
              (result evsel app env r w calls again pending read event x) f

  -- If the high watermark is 2 ^ 31 bytes or more above the size of the input queue, but less than 2 ^ 32, then
  -- bufferevent_readcb takes the difference for a negative one: unless the event is EV_TIMEOUT alone, it reads nothing,
  -- takes the event for reading off the base and sets the callback of the queue, in a good state of the base,
  -- even if the queue is empty.
  pub readcb_stalls :
      x.bufev.ev_read ≡ r
      → calls.good x.base
      → x.bufev.input.off + 2 ^ 31 ≤ x.bufev.wm_read.high
      → x.bufev.wm_read.high < x.bufev.input.off + 2 ^ 32
      → only_timeout event ≡ false
      → (y : World B C) × (result evsel app env r w calls again pending read event x ≡ some y)
        × Stopped evsel app env r w calls x true y
  readcb_stalls named good large little ready =
      let (y, run, st) = pause-Stopped evsel app env r w calls x named good in
      let stuck : no_room evsel app env r w calls again pending read event x ≡ true =
        ground (arith, room_wraps x.bufev large little) in
      (
        y,
        readcb-choose evsel app env r w calls again pending read event x
            ∙ ap
                (λ t.
                  choose evsel app env r w calls again pending read event x t
                    (no_room evsel app env r w calls again pending read event x))
                ready
            ∙ ap (choose evsel app env r w calls again pending read event x false) stuck
            ∙ run,
        st,
      )
