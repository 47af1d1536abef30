-- ===== src/Bufferevent/Bytes.antt =====
-- bufferevent_write and bufferevent_write_buffer: what the client hands over is queued for the descriptor.
use ilibevent.Base.{
  ℕ, ◌+◌, ◌≤◌, ◌^◌, ◌≡◌, refl, ap, ◌∙◌, sym, subst, ◌⊎◌, inl, inr, Bool, true, false, not, ◌&&◌,
  List, [], ◌++◌, arith, ◌==◌, Bool-cases, Option, none, some, Status, success, failure, update,
  length, ◌>>=◌, ◌>>◌, if◌then◌else◌, length-slice, drop_all,
}
use ilibevent.Base.Int.{ℤ}
use ilibevent.State.{EventBase, Eventop}
use ilibevent.Buffer.{Evbuffer, Done, contents, fits, evbuffer_drain}
use ilibevent.Buffer.Expand.{IsValid, Keeps}
use ilibevent.Buffer.Contents.{Added, add-append, drain-drop}
use ilibevent.Event.Outcome.{add_event}
use ilibevent.Bufferevent.State.{World, Env, with_base, with_output}
use ilibevent.Bufferevent.Events.{Calls, Handed}
use ilibevent.Bufferevent.Setup.{timeval_of, bufferevent_add}
use ilibevent.Bufferevent.Io.{bufferevent_write, bufferevent_write_buffer}

module _ {B C : Type 0} (evsel : Eventop B) (env : Env) (r w : ℕ)
    (calls : Calls evsel env r w) where
  -- bufferevent_add is event_add: the bufferevent itself does not change.
  abbrev pub Renews : World B C → ℕ → ℤ → Type 0
  Renews x e timeout =
      (s : Status) × (b : EventBase B) × (bufferevent_add evsel env x e timeout
        ≡ some (s, with_base x b))
      × calls.good b
      × (b.event ≡ update x.base.event e (add_event s (timeval_of timeout) (x.base.event e)))
      × Handed evsel env x.base e timeout b

  pub add-Renews :
      (x : World B C) (e : ℕ) (timeout : ℤ)
      → calls.good x.base
      → (e ≡ r) ⊎ (e ≡ w)
      → Renews x e timeout
  unfolding bufferevent_add
  add-Renews x e timeout g q =
      let (s, b, run, good, events) = calls.add_law x.base g e q (timeval_of timeout) in
      (s, b, ap (λ t. t >>= λ p. some (p.0, with_base x p.1)) run, good, events, (s, run, events))

  -- The bytes wait in the output queue, and so does the event for writing if that is enabled.
  pub record Wrote (x : World B C) (bytes : List ℕ) (y : World B C) : Type 0 where
    pub valid : IsValid y.bufev.output
    pub queued : contents y.bufev.output ≡ contents x.bufev.output ++ bytes
    pub bufev : y.bufev ≡ record (x.bufev) { output = y.bufev.output }
    pub client : y.client ≡ x.client
    pub good : calls.good y.base
    pub waits :
        (not (length bytes == 0) && x.bufev.enabled.write) ≡ true
        → Handed evsel env x.base w x.bufev.timeout_write y.base
    pub idle : (not (length bytes == 0) && x.bufev.enabled.write) ≡ false → y.base ≡ x.base

  -- Nothing has changed but for where the bytes of the output queue stand.
  pub record Unwritten (x y : World B C) : Type 0 where
    pub refused : env.queue_room ≡ false
    pub keeps : Keeps x.bufev.output y.bufev.output
    pub rest : y ≡ with_output x y.bufev.output

  abbrev pub Writes : World B C → List ℕ → Option (Status × World B C) → Type 0
  Writes x bytes result =
      (s : Status) × (y : World B C) × (result ≡ some (s, y))
      × (((s ≡ success) × Wrote x bytes y) ⊎ ((s ≡ failure) × Unwritten x y))

  module _ (x : World B C) (bytes : List ℕ) (named : x.bufev.ev_write ≡ w)
      (good : calls.good x.base) where
    -- What follows evbuffer_add.
    abbrev queue : Bool → World B C → Option (Status × World B C)
    queue test y =
        if test
        then (bufferevent_add evsel env y y.bufev.ev_write y.bufev.timeout_write >>= λ (_, z).
            some (success, z))
        else some (success, y)

    abbrev settle : Done Status → Option (Status × World B C)
    settle d = elim (d.value) [
      | failure ↦ some (failure, with_output x (d.buf))
      | success ↦ queue (not (length bytes == 0) && x.bufev.enabled.write) (with_output x (d.buf))
    ]

    queue-Writes :
        (d : Done Status)
        → Added x.bufev.output bytes d
        → Writes x bytes
            (queue (not (length bytes == 0) && x.bufev.enabled.write) (with_output x (d.buf)))
    queue-Writes d a = elim (Bool-cases (not (length bytes == 0) && x.bufev.enabled.write)) [
      | inl on ↦
          let (s, b, run, g, _, handed) =
            add-Renews (with_output x (d.buf)) x.bufev.ev_write x.bufev.timeout_write good
              (inr named) in
          (
            success,
            with_base (with_output x (d.buf)) b,
            ap (λ t. queue t (with_output x (d.buf))) on
                ∙ ap (λ t. t >>= λ p. some (success, p.1)) run,
            inl (
              refl,
              record {
                valid = a.valid;
                queued = a.queued;
                bufev = refl;
                client = refl;
                good = g;
                waits = λ p.
                    subst (λ e. Handed evsel env x.base e x.bufev.timeout_write b) named handed;
                idle = λ p. ground arith;
              },
            ),
          )
      | inr off ↦ (
        success,
        with_output x (d.buf),
        ap (λ t. queue t (with_output x (d.buf))) off,
        inl (
          refl,
          record {
            valid = a.valid;
            queued = a.queued;
            bufev = refl;
            client = refl;
            good = good;
            waits = λ p. absurd (ground arith);
            idle = λ p. refl;
          },
        ),
      )
    ]

    settle-Writes :
        (d : Done Status) (s : Status)
        → d.value ≡ s
        → ((s ≡ success) × Added x.bufev.output bytes d)
          ⊎ ((s ≡ failure)
              × (env.queue_room ≡ false)
              × Keeps x.bufev.output d.buf
              × (d.called ≡ none))
        → Writes x bytes (settle d)
    settle-Writes d success v (inl (ok, a)) = rw v (queue-Writes d a)
    settle-Writes d failure v (inl (ok, a)) = absurd (ground arith)
    settle-Writes d success v (inr (failed, refused, keeps, quiet)) = absurd (ground arith)
    settle-Writes d failure v (inr (failed, refused, keeps, quiet)) = (
      failure,
      with_output x (d.buf),
      rw v refl,
      inr (refl, record { refused = refused; keeps = keeps; rest = refl }),
    )

    -- bufferevent_write, with a valid output queue whose new size is at most 2 ^ 63 and in a good state of the
    -- base, always returns. It succeeds with exactly the bytes behind what was to be written, and hands the
    -- event for writing to event_add, with the timeout for writing, if and only if there are bytes and writing
    -- is enabled; or realloc has failed, and nothing has been queued or added.
    pub write-Writes :
        IsValid x.bufev.output
        → x.bufev.output.misalign + x.bufev.output.off + length bytes ≤ 2 ^ 63
        → Writes x bytes (bufferevent_write evsel env x bytes)
    unfolding bufferevent_write
    write-Writes v room =
        let (d, run, outcome) = add-append env.queue_room x.bufev.output bytes v room in
        subst (Writes x bytes) (sym (ap (λ t. t >>= settle) run))
          (settle-Writes d d.value refl outcome)

  -- The whole queue has moved to the output, or nothing has.
  abbrev pub Transfers : World B C → Evbuffer → Option (Status × World B C × Evbuffer) → Type 0
  Transfers x buf result =
      (s : Status) × (y : World B C) × (buf' : Evbuffer) × (result ≡ some (s, y, buf'))
      × (((s ≡ success) × Wrote x (contents buf) y × IsValid buf' × (contents buf' ≡ []))
          ⊎ ((s ≡ failure) × Unwritten x y × (buf' ≡ buf)))

  module _ (x : World B C) (buf : Evbuffer) (named : x.bufev.ev_write ≡ w)
      (good : calls.good x.base) where
    -- What follows bufferevent_write.
    abbrev empty : Status × World B C → Option (Status × World B C × Evbuffer)
    empty p = elim (p.0) [
      | failure ↦ some (failure, p.1, buf)
      | success ↦ some (success, p.1, (evbuffer_drain buf buf.off).buf)
    ]

    empty-Transfers :
        IsValid buf
        → (s : Status) (y : World B C)
        → ((s ≡ success) × Wrote x (contents buf) y) ⊎ ((s ≡ failure) × Unwritten x y)
        → Transfers x buf (empty (s, y))
    empty-Transfers v success y (inl (ok, wrote)) =
        let (valid, rest, size, cb, called) = drain-drop buf buf.off v in
        (
          success,
          y,
          _,
          refl,
          inl (
            refl,
            wrote,
            valid,
            rest
                ∙ drop_all buf.off (contents buf)
                    (omega (arith, length-slice buf.memory buf.buffer buf.off)),
          ),
        )
    empty-Transfers v failure y (inl (ok, wrote)) = absurd (ground arith)
    empty-Transfers v success y (inr (failed, un)) = absurd (ground arith)
    empty-Transfers v failure y (inr (failed, un)) = (failure, y, buf, refl, inr (refl, un, refl))

    -- bufferevent_write_buffer, with valid queues and room for all bytes within 2 ^ 63 in the output queue, in a
    -- good state of the base, always returns. It moves the whole contents of the queue behind what was to be
    -- written, as bufferevent_write does, and leaves the queue empty; or realloc has failed, and both queues
    -- have what they had.
    pub write_buffer-Transfers :
        IsValid x.bufev.output
        → IsValid buf
        → x.bufev.output.misalign + x.bufev.output.off + buf.off ≤ 2 ^ 63
        → Transfers x buf (bufferevent_write_buffer evsel env x buf)
    unfolding bufferevent_write_buffer
    write_buffer-Transfers v vb room =
        let (s, y, run, outcome) =
          write-Writes x (contents buf) named good v
            (omega (arith, room, length-slice buf.memory buf.buffer buf.off)) in
        let inside : fits buf buf.buffer buf.off ≡ some tt = ground arith in
        subst (Transfers x buf)
          (sym (
            ap (λ t. t >> (bufferevent_write evsel env x (contents buf) >>= empty)) inside
            ∙ ap (λ t. t >>= empty) run))
          (empty-Transfers vb s y outcome)
