-- ===== src/Bufferevent/Settling.antt =====
-- What bufferevent_readcb does behind a successful read, and where it pauses.
use ilibevent.Base.{
  ℕ, ◌≡◌, refl, ap, ◌∙◌, sym, inl, inr, Bool, true, false, not, ◌&&◌, ◌||◌, arith, ◌==◌, Bool-cases,
  Option, some, Status, update, ◌>>=◌, if◌then◌else◌, leb, ltb,
}
use ilibevent.State.{EventBase, Eventop}
use ilibevent.Buffer.{evbuffer_setcb}
use ilibevent.Event.Delete.{off_queues}
use ilibevent.Bufferevent.State.{Bufferevent, World, Env, Client, with_base, with_input}
use ilibevent.Bufferevent.Events.{Calls}
use ilibevent.Bufferevent.Setup.{remove_event}
use ilibevent.Bufferevent.Callbacks.{pause_read, after_read}

-- Too few bytes for the client.
abbrev pub too_few : Bufferevent → Bool
too_few s = not (s.wm_read.low == 0) && ltb s.input.off s.wm_read.low

-- The queue has reached the high watermark.
abbrev pub is_full : Bufferevent → Bool
is_full s = not (s.wm_read.high == 0) && leb s.wm_read.high s.input.off

abbrev pub stops : Bufferevent → Bool
stops s = not (too_few s) && is_full s

module _ {B C : Type 0} (evsel : Eventop B) (app : Client B C) (env : Env) (r w : ℕ)
    (calls : Calls evsel env r w) where
  -- Reading has stopped if `stop`.
  pub record Stopped (x : World B C) (stop : Bool) (y : World B C) : Type 0 where
    pub bufev :
        y.bufev
        ≡ record (x.bufev) { input = record (x.bufev.input) { cb = x.bufev.input.cb || stop } }
    pub client : y.client ≡ x.client
    pub good : calls.good y.base
    pub removed : stop ≡ true → y.base.event ≡ update x.base.event r (off_queues (x.base.event r))
    pub idle : stop ≡ false → y.base ≡ x.base

  -- The client is called, if there are bytes enough for it.
  abbrev pub deliver : World B C → Option (World B C)
  deliver y = if too_few y.bufev then some y else if y.bufev.readcb then app.readcb y else some y

  set_cb :
      (s : Bufferevent) (a b : Bool)
      → a ≡ b
      → record s { input = record (s.input) { cb = a } }
        ≡ record s { input = record (s.input) { cb = b } }
  set_cb s a b h = ap (λ t. record s { input = record (s.input) { cb = t } }) h

  module _ (x : World B C) (named : x.bufev.ev_read ≡ r) (good : calls.good x.base) where
    -- The parts of pause_read.
    abbrev moved : Status × EventBase B → Option (Status × World B C)
    moved p = some (p.0, with_base x p.1)

    abbrev halted : Status × World B C → Option (World B C)
    halted p = some (with_input p.1 (evbuffer_setcb p.1.bufev.input true))

    pub pause-Stopped : (y : World B C) × (pause_read evsel app env x ≡ some y) × Stopped x true y
    unfolding pause_read remove_event evbuffer_setcb
    pause-Stopped =
        let (s, b, run, g, events) = calls.del_law x.base good x.bufev.ev_read (inl named) in
        (
          with_input (with_base x b) (evbuffer_setcb x.bufev.input true),
          ap (λ t. t >>= moved >>= halted) run,
          record {
            bufev = set_cb x.bufev true (x.bufev.input.cb || true) (ground arith);
            client = refl;
            good = g;
            removed =
                λ h. events ∙ ap (λ e. update x.base.event e (off_queues (x.base.event e))) named;
            idle = λ h. absurd (ground arith);
          },
        )

    calm-Stopped : Stopped x false x
    calm-Stopped = record {
      bufev = set_cb x.bufev x.bufev.input.cb (x.bufev.input.cb || false) (ground arith);
      client = refl;
      good = good;
      removed = λ h. absurd (ground arith);
      idle = λ h. refl;
    }

    abbrev call : World B C → Option (World B C)
    call y = if y.bufev.readcb then app.readcb y else some y

    -- The parts of after_read.
    abbrev choose : Bool → Bool → Option (World B C)
    choose few full =
        if few then some x else ((if full then pause_read evsel app env x else some x) >>= call)

    pub after_read-Stopped :
        (y : World B C) × (after_read evsel app env x ≡ deliver y) × Stopped x (stops x.bufev) y
    unfolding after_read
    after_read-Stopped = elim (Bool-cases (too_few x.bufev)) [
      | inl few ↦ (
        x,
        ap (λ t. choose t (is_full x.bufev)) few ∙ sym (ap (λ t. if t then some x else call x) few),
        rw few calm-Stopped,
      )
      | inr many ↦ elim (Bool-cases (is_full x.bufev)) [
        | inr part ↦ (
          x,
          ap (λ t. choose t (is_full x.bufev)) many
              ∙ ap (choose false) part
              ∙ sym (ap (λ t. if t then some x else call x) many),
          rw (many, part) calm-Stopped,
        )
        | inl full ↦
            let (y, run, st) = pause-Stopped in
            let same : too_few y.bufev ≡ false = ap too_few st.bufev ∙ many in
            (
              y,
              ap (λ t. choose t (is_full x.bufev)) many
                  ∙ ap (choose false) full
                  ∙ ap (λ t. t >>= call) run
                  ∙ sym (ap (λ t. if t then some y else call y) same),
              rw (many, full) st,
            )
      ]
    ]
