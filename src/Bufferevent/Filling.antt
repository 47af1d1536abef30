-- ===== src/Bufferevent/Filling.antt =====
-- The reading of bufferevent_readcb: what read(2) reports, and what becomes of it.
use ilibevent.Base.{
  ℕ, ◌+◌, ◌≤◌, ◌^◌, ◌≡◌, refl, ap, ◌∙◌, sym, subst, ◌⊎◌, inl, inr, Bool, true, false, not, ◌&&◌,
  ◌||◌, List, [], ◌∷◌, ◌++◌, arith, ◌==◌, Bool-cases, Option, some, Status, length, ◌>>=◌,
  if◌then◌else◌, append_nil,
}
use ilibevent.Base.Int.{ℤ}
use ilibevent.State.{Eventop}
use ilibevent.Buffer.{
  Evbuffer, Done, contents, ReadResult, read_failed, read_eof, read_some, Received, io_bytes,
}
use ilibevent.Buffer.Expand.{IsValid, Keeps}
use ilibevent.Buffer.Io.{asked, Delivers, Filled, Unfilled, AfterRead, read-append}
use ilibevent.Event.Delete.{off_queues, update-at}
use ilibevent.Bufferevent.State.{
  evbuffer_read_bit, Bufferevent, World, Env, Client, with_base, with_input,
}
use ilibevent.Bufferevent.Events.{Calls, Handed}
use ilibevent.Bufferevent.Io.{notify}
use ilibevent.Bufferevent.Callbacks.{report, again_read, after_read, fill}
use ilibevent.Bufferevent.Bytes.{add-Renews}
use ilibevent.Bufferevent.Draining.{notify-Relieved}
use ilibevent.Bufferevent.Settling.{stops, deliver, after_read-Stopped}

module _ {B C : Type 0} (evsel : Eventop B) (app : Client B C) (env : Env) (r w : ℕ)
    (calls : Calls evsel env r w) (again : Bool) where
  -- The bytes are behind the contents; nothing but the input and the base has changed.
  pub record Kept (x : World B C) (bytes : List ℕ) (y : World B C) : Type 0 where
    pub valid : IsValid y.bufev.input
    pub queued : contents y.bufev.input ≡ contents x.bufev.input ++ bytes
    pub bufev : y.bufev ≡ record (x.bufev) { input = y.bufev.input }
    pub client : y.client ≡ x.client
    pub good : calls.good y.base

  -- The event for reading has been handed to event_add, and no other event has changed.
  abbrev pub Renewed : World B C → World B C → Type 0
  Renewed x y = Handed evsel env x.base r x.bufev.timeout_read y.base

  -- Nothing was read: another try if errno asks for it, and else the client's errorcb.
  abbrev pub Unread : World B C → Option (World B C) → Type 0
  Unread x result =
      (y : World B C) × Kept x [] y
      × (result ≡ (
          if again
          then some y
          else report evsel app env y (record evbuffer_read_bit { error = true })))
      × (again ≡ true → Renewed x y)
      × (again ≡ false → y.base ≡ x.base)

  -- The bytes were read, and the client has them unless they are too few for it. With a full queue
  -- reading has stopped.
  abbrev pub Arrived : World B C → List ℕ → Option (World B C) → Type 0
  Arrived x bytes result =
      (y : World B C) × Kept x bytes y
      × (result ≡ deliver evsel app env r w calls y)
      × (stops y.bufev ≡ true
          → (y.bufev.input.cb ≡ true) × (y.base.event r ≡ off_queues (y.base.event r)))
      × (stops y.bufev ≡ false → x.bufev.input.cb ≡ false → Renewed x y)

  abbrev pub AfterFill : World B C → Received → Option (World B C) → Type 0
  AfterFill x Received.io_error result = Unread x result
  AfterFill x (io_bytes []) result =
      (y : World B C) × Kept x [] y
      × (result ≡ report evsel app env y (record evbuffer_read_bit { eof = true }))
      × (y.base ≡ x.base)
  AfterFill x (io_bytes (b ∷ bs)) result = Arrived x (b ∷ bs) result

  module _ (x : World B C) (named : x.bufev.ev_read ≡ r) (good : calls.good x.base) where
    -- What follows the call of the queue's callback.
    abbrev react : ReadResult → World B C → Option (World B C)
    react result y = elim result [
      | read_failed ↦
          if again
          then again_read evsel app env y
          else report evsel app env y (record evbuffer_read_bit { error = true })
      | read_eof ↦ report evsel app env y (record evbuffer_read_bit { eof = true })
      | read_some n ↦ again_read evsel app env y >>= after_read evsel app env
    ]

    abbrev goes_on : Done ReadResult → Option (World B C)
    goes_on d = notify evsel env (with_input x (d.buf)) (d.called) >>= react (d.value)

    Keeps-Kept : (a : Evbuffer) → Keeps x.bufev.input a → Kept x [] (with_input x a)
    Keeps-Kept a k = record {
      valid = k.valid;
      queued = k.same ∙ sym (append_nil (contents x.bufev.input));
      bufev = refl;
      client = refl;
      good = good;
    }

    -- The outcome where the queue has not called its callback.
    quiet :
        (d : Done ReadResult) (v : ReadResult)
        → Unfilled x.bufev.input v d
        → goes_on d ≡ react v (with_input x (d.buf))
    quiet d v u =
        ap (λ c. notify evsel env (with_input x (d.buf)) c >>= react (d.value)) u.called
        ∙ ap (λ t. react t (with_input x (d.buf))) u.value

    failed-Unread :
        (d : Done ReadResult) → Unfilled x.bufev.input read_failed d → Unread x (goes_on d)
    failed-Unread d u = elim (Bool-cases again) [
      | inl more ↦
          let (s, b, run, g, _, handed) =
            add-Renews evsel env r w calls (with_input x (d.buf)) x.bufev.ev_read
              x.bufev.timeout_read good (inl named) in
          let k = Keeps-Kept (d.buf) u.keeps in
          (
            with_base (with_input x (d.buf)) b,
            record { valid = k.valid; queued = k.queued; bufev = refl; client = refl; good = g },
            quiet d read_failed u ∙ rw more (ap (λ t. t >>= λ p. some p.1) run),
            λ h. subst (λ e. Handed evsel env x.base e x.bufev.timeout_read b) named handed,
            λ h. absurd (ground arith),
          )
      | inr stop ↦ (
        with_input x (d.buf),
        Keeps-Kept (d.buf) u.keeps,
        quiet d read_failed u ∙ rw stop refl,
        λ h. absurd (ground arith),
        λ h. refl,
      )
    ]

    abbrev with_stop : Bool → Bufferevent → Bufferevent
    with_stop stop q = record q { input = record (q.input) { cb = q.input.cb || stop } }

    arrived :
        (b : ℕ) (bs : List ℕ) (d : Done ReadResult)
        → Filled x.bufev.input (b ∷ bs) d
        → Arrived x (b ∷ bs) (goes_on d)
    arrived b bs d u =
        let now = x.bufev.input.off + length (b ∷ bs) in
        let test = not (now == x.bufev.input.off) && x.bufev.input.cb in
        let (x₁, run₁, re) =
          notify-Relieved evsel env r w calls (with_input x (d.buf)) named good test
            x.bufev.input.off now in
        let named₁ = ap (λ s. s.ev_read) re.bufev ∙ named in
        let (s, c, run₂, g, _, handed) =
          add-Renews evsel env r w calls x₁ x₁.bufev.ev_read x₁.bufev.timeout_read re.good
            (inl named₁) in
        let (y, run₃, st) = after_read-Stopped evsel app env r w calls (with_base x₁ c) named₁ g in
        let became = st.bufev ∙ ap (with_stop (stops x₁.bufev)) re.bufev in
        let same : stops y.bufev ≡ stops x₁.bufev = ap stops st.bufev in
        (
          y,
          record {
            valid =
                subst (λ q. IsValid q.input) (sym became)
                  (record {
                    aligned = u.valid.aligned;
                    inside = u.valid.inside;
                    sized = u.valid.sized;
                  });
            queued = ap (λ q. contents q.input) became ∙ u.queued;
            bufev = became ∙ ap (λ q. record (x.bufev) { input = q.input }) (sym became);
            client = st.client ∙ re.client;
            good = st.good;
          },
          ap (λ q. notify evsel env (with_input x (d.buf)) q >>= react (d.value)) u.called
              ∙ ap (λ t. t >>= react (d.value)) run₁
              ∙ ap (λ v. react v x₁) u.value
              ∙ ap (λ t. again_of t >>= after_read evsel app env) run₂
              ∙ run₃,
          λ h. (
            ap (λ q. q.input.cb) st.bufev ∙ full x₁.bufev.input.cb (stops x₁.bufev) (sym same ∙ h),
            (let off =
                  ap (λ f. f r) (st.removed (sym same ∙ h))
                  ∙ update-at c.event r (off_queues (c.event r)) in
                off ∙ ap off_queues (sym off)),
          ),
          λ h p.
              subst (λ q. Handed evsel env x.base r x.bufev.timeout_read q)
                (sym (st.idle (sym same ∙ h)))
                (subst (λ t. Handed evsel env x.base r t c) (ap (λ q. q.timeout_read) re.bufev)
                  (subst (λ q. Handed evsel env q r x₁.bufev.timeout_read c)
                    (re.idle (ground arith))
                    (subst (λ e. Handed evsel env x₁.base e x₁.bufev.timeout_read c) named₁
                      handed))),
        )
      where
        again_of : Option (Status × World B C) → Option (World B C)
        again_of t = t >>= λ p. some p.1

        full : (a q : Bool) → q ≡ true → (a || q) ≡ true
        full a q h = ground arith

    abbrev pub Fills : Received → Option (World B C) → Type 0
    Fills received result =
        AfterFill x received result ⊎ ((env.queue_room ≡ false) × Unread x result)

    goes_on-Fills :
        (received : Received) (d : Done ReadResult)
        → AfterRead x.bufev.input received d
          ⊎ ((env.queue_room ≡ false) × Unfilled x.bufev.input read_failed d)
        → Fills received (goes_on d)
    goes_on-Fills received d (inr (refused, u)) = inr (refused, failed-Unread d u)
    goes_on-Fills Received.io_error d (inl u) = inl (failed-Unread d u)
    goes_on-Fills (io_bytes []) d (inl u) =
        inl (with_input x (d.buf), Keeps-Kept (d.buf) u.keeps, quiet d read_eof u, refl)
    goes_on-Fills (io_bytes (b ∷ bs)) d (inl u) = inl (arrived b bs d u)

    module _ (pending : Option ℤ) (read : ℕ → Received) (howmuch : ℤ) (delivers : Delivers read)
        (v : IsValid x.bufev.input)
        (room : x.bufev.input.misalign + x.bufev.input.off + asked x.bufev.input pending howmuch
          ≤ 2 ^ 63) where
      pub fill-Fills :
          Fills
            (read (asked x.bufev.input pending howmuch))
            (fill evsel app env pending read again x howmuch)
      unfolding fill
      fill-Fills =
          let received = read (asked x.bufev.input pending howmuch) in
          let (d, run, outcome) =
            read-append env.queue_room pending read x.bufev.input howmuch v delivers room in
          subst (Fills received) (sym (ap (λ t. t >>= goes_on) run))
            (goes_on-Fills received d outcome)
