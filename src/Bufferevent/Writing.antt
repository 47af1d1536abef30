-- ===== src/Bufferevent/Writing.antt =====
-- bufferevent_writecb: what write(2) takes, and what becomes of the rest.
use ilibevent.Base.{
  ℕ, zero, suc, ◌≡◌, refl, ap, ◌∙◌, sym, subst, ◌⊎◌, inl, inr, Bool, true, false, ◌&&◌, List, arith,
  ◌==◌, Bool-cases, Option, some, drop, ◌>>=◌, if◌then◌else◌, leb,
}
use ilibevent.State.{EventMask, only_timeout, Eventop}
use ilibevent.Buffer.{
  Done, contents, ReadResult, read_failed, read_eof, read_some, Sent, io_sent, evbuffer_write,
}
use ilibevent.Buffer.Expand.{IsValid}
use ilibevent.Buffer.Io.{AfterWrite, write-drop}
use ilibevent.Bufferevent.State.{evbuffer_write_bit, World, Env, Client, with_base, with_output}
use ilibevent.Bufferevent.Events.{Calls, Handed}
use ilibevent.Bufferevent.Setup.{bufferevent_add}
use ilibevent.Bufferevent.Callbacks.{report, again_write, after_write, bufferevent_writecb}
use ilibevent.Bufferevent.Bytes.{add-Renews}

module _ {B C : Type 0} (evsel : Eventop B) (app : Client B C) (env : Env) (r w : ℕ)
    (calls : Calls evsel env r w) (again : Bool) where
  -- The event for writing has been handed to event_add if bytes are left, and nothing else has changed.
  pub record Rearmed (x y : World B C) : Type 0 where
    pub bufev : y.bufev ≡ x.bufev
    pub client : y.client ≡ x.client
    pub good : calls.good y.base
    pub renewed :
        (x.bufev.output.off == 0) ≡ false → Handed evsel env x.base w x.bufev.timeout_write y.base
    pub idle : (x.bufev.output.off == 0) ≡ true → y.base ≡ x.base

  -- The client is called if few bytes are left.
  abbrev pub finish : World B C → Option (World B C)
  finish y =
      if y.bufev.writecb && leb y.bufev.output.off y.bufev.wm_write.low
      then app.writecb y
      else some y

  module _ (x : World B C) (named : x.bufev.ev_write ≡ w) (good : calls.good x.base) where
    abbrev renew_if : Bool → Option (World B C)
    renew_if none_left =
        if none_left
        then some x
        else (bufferevent_add evsel env x x.bufev.ev_write x.bufev.timeout_write >>= λ (_, y).
            some y)

    again-Rearmed : (y : World B C) × (again_write evsel app env x ≡ some y) × Rearmed x y
    again-Rearmed = elim (Bool-cases (x.bufev.output.off == 0)) [
      | inl gone ↦ (
        x,
        ap renew_if gone,
        record {
          bufev = refl;
          client = refl;
          good = good;
          renewed = λ h. absurd (ground arith);
          idle = λ h. refl;
        },
      )
      | inr left ↦
          let (s, b, run, g, _, handed) =
            add-Renews evsel env r w calls x x.bufev.ev_write x.bufev.timeout_write good
              (inr named) in
          (
            with_base x b,
            ap renew_if left ∙ ap (λ t. t >>= λ p. some p.1) run,
            record {
              bufev = refl;
              client = refl;
              good = g;
              renewed =
                  λ h. subst (λ e. Handed evsel env x.base e x.bufev.timeout_write b) named handed;
              idle = λ h. absurd (ground arith);
            },
          )
    ]

    after-Rearmed : (y : World B C) × (after_write evsel app env x ≡ finish y) × Rearmed x y
    unfolding after_write
    after-Rearmed = let (y, run, re) = again-Rearmed in (y, ap (λ t. t >>= finish) run, re)

  same_world : {x y : World B C} → Rearmed x y → (x.bufev.output.off == 0) ≡ true → y ≡ x
  same_world re gone =
      λ i. record { base = re.idle gone i; bufev = re.bufev i; client = re.client i }

  -- The output has been changed to a valid queue of the given bytes.
  pub record Left (x : World B C) (bytes : List ℕ) (z : World B C) : Type 0 where
    pub valid : IsValid z.bufev.output
    pub left : contents z.bufev.output ≡ bytes
    pub rest : z ≡ with_output x z.bufev.output

  abbrev pub Unsent : World B C → Option (World B C) → Type 0
  Unsent x result =
      (z : World B C) × Left x (contents x.bufev.output) z
      × (((again ≡ false)
            × (result ≡ report evsel app env z (record evbuffer_write_bit { error = true })))
          ⊎ ((again ≡ true) × (y : World B C) × (result ≡ some y) × Rearmed z y))

  abbrev pub AfterSend : World B C → Sent → Option (World B C) → Type 0
  AfterSend x Sent.io_error result = Unsent x result
  AfterSend x (io_sent zero) result =
      (z : World B C) × Left x (contents x.bufev.output) z
      × (result ≡ report evsel app env z (record evbuffer_write_bit { eof = true }))
  AfterSend x (io_sent (suc n)) result =
      (z y : World B C) × Left x (drop (suc n) (contents x.bufev.output)) z
      × Rearmed z y
      × (result ≡ finish y)

  module _ (write : List ℕ → Sent) (event : EventMask) (x : World B C) where
    -- The timeout is reported; or there is nothing to write; or write(2) is asked.
    abbrev pub WriteCases : Option (World B C) → Type 0
    WriteCases result =
        ((only_timeout event ≡ true)
          × (result ≡ report evsel app env x (record evbuffer_write_bit { timeout = true })))
        ⊎ ((only_timeout event ≡ false) × ((x.bufev.output.off == 0) ≡ true) × (result ≡ finish x))
        ⊎ ((only_timeout event ≡ false)
            × ((x.bufev.output.off == 0) ≡ false)
            × AfterSend x (write (contents x.bufev.output)) result)

    abbrev react_to : Bool → ReadResult → World B C → Option (World B C)
    react_to more result z = elim result [
      | read_failed ↦
          if more
          then again_write evsel app env z
          else report evsel app env z (record evbuffer_write_bit { error = true })
      | read_eof ↦ report evsel app env z (record evbuffer_write_bit { eof = true })
      | read_some n ↦ after_write evsel app env z
    ]

    abbrev react : Done ReadResult → Option (World B C)
    react d = react_to again (d.value) (with_output x (d.buf))

    abbrev choose : Bool → Bool → Option (World B C)
    choose timed nothing =
        if timed
        then report evsel app env x (record evbuffer_write_bit { timeout = true })
        else if nothing
        then after_write evsel app env x
        else (evbuffer_write write x.bufev.output >>= react)

    module _ (named : x.bufev.ev_write ≡ w) (good : calls.good x.base) where
      react-AfterSend :
          (sent : Sent) (d : Done ReadResult)
          → AfterWrite x.bufev.output sent d
          → AfterSend x sent (react d)
      react-AfterSend Sent.io_error d u = (
        with_output x (d.buf),
        record { valid = u.keeps.valid; left = u.keeps.same; rest = refl },
        unsent (Bool-cases again),
      )
        where
          z : World B C
          z = with_output x (d.buf)

          unsent :
              (again ≡ true) ⊎ (again ≡ false)
              → ((again ≡ false)
                  × (react d ≡ report evsel app env z (record evbuffer_write_bit { error = true })))
                ⊎ ((again ≡ true) × (y : World B C) × (react d ≡ some y) × Rearmed z y)
          unsent (inr stop) =
              inl (
                stop,
                ap (λ v. react_to again v z) u.value ∙ ap (λ t. react_to t read_failed z) stop,
              )
          unsent (inl more) =
              let (y, run, re) = again-Rearmed z named good in
              inr (
                more,
                y,
                ap (λ v. react_to again v z) u.value
                    ∙ ap (λ t. react_to t read_failed z) more
                    ∙ run,
                re,
              )
      react-AfterSend (io_sent zero) d u = (
        with_output x (d.buf),
        record { valid = u.keeps.valid; left = u.keeps.same; rest = refl },
        rw (u.value) refl,
      )
      react-AfterSend (io_sent (suc n)) d (value, valid, left, cb, called) =
          let (y, run, re) = after-Rearmed (with_output x (d.buf)) named good in
          (
            with_output x (d.buf),
            y,
            record { valid = valid; left = left; rest = refl },
            re,
            rw value run,
          )

      -- bufferevent_writecb, with a valid output queue and in a good state of the base, always comes to its end, where
      -- the client's function is called if any. If the event is EV_TIMEOUT alone, errorcb gets EVBUFFER_WRITE and
      -- EVBUFFER_TIMEOUT, and nothing is written. Otherwise write(2) gets the whole queue, if it is not empty. If it
      -- fails, errorcb gets EVBUFFER_WRITE and EVBUFFER_ERROR, unless errno asks for another try: then the event for
      -- writing is handed to event_add again, with its timeout and whatever the result, if bytes are left. If it takes nothing, errorcb gets EVBUFFER_WRITE and EVBUFFER_EOF. If it takes bytes,
      -- exactly these leave the queue, the event is handed to event_add if and only if bytes are left, and the client's
      -- writecb is called if there are no more than the low watermark for writing.
      pub writecb-WriteCases :
          IsValid x.bufev.output
          → WriteCases (bufferevent_writecb evsel app env write again event x)
      unfolding bufferevent_writecb
      writecb-WriteCases v = elim (Bool-cases (only_timeout event)) [
        | inl timed ↦ inl (timed, ap (λ t. choose t (x.bufev.output.off == 0)) timed)
        | inr ready ↦ elim (Bool-cases (x.bufev.output.off == 0)) [
          | inl gone ↦
              let (y, run, re) = after-Rearmed x named good in
              inr (
                inl (
                  ready,
                  gone,
                  ap (λ t. choose t (x.bufev.output.off == 0)) ready
                      ∙ ap (choose false) gone
                      ∙ run
                      ∙ ap finish (same_world re gone),
                ))
          | inr left ↦
              let (d, run, outcome) = write-drop write x.bufev.output v in
              inr (
                inr (
                  ready,
                  left,
                  subst (AfterSend x (write (contents x.bufev.output)))
                      (sym (
                        ap (λ t. choose t (x.bufev.output.off == 0)) ready
                        ∙ ap (choose false) left
                        ∙ ap (λ t. t >>= react) run))
                      (react-AfterSend (write (contents x.bufev.output)) d outcome),
                ))
        ]
      ]
