-- ===== src/Bufferevent/Pressure.antt =====
-- bufferevent_read_pressure_cb: a paused bufferevent reads again.
use ilibevent.Base.{
  ℕ, ◌≡◌, refl, ap, ◌∙◌, inl, inr, Bool, true, false, not, ◌&&◌, ◌||◌, arith, subst, ◌==◌,
  Bool-cases, Option, some, ◌>>=◌, if◌then◌else◌, ltb,
}
use ilibevent.State.{Eventop}
use ilibevent.Buffer.{Evbuffer, evbuffer_setcb}
use ilibevent.Buffer.Expand.{IsValid}
use ilibevent.Bufferevent.State.{World, Env, Bufferevent, with_base, with_input}
use ilibevent.Bufferevent.Events.{Calls, Handed}
use ilibevent.Bufferevent.Setup.{bufferevent_add, bufferevent_read_pressure_cb}
use ilibevent.Bufferevent.Bytes.{add-Renews}

-- The queue with the callback off if `relief`.
abbrev pub relieved : Bool → Evbuffer → Evbuffer
relieved relief b = record b { cb = b.cb && not relief }

pub relieved-IsValid : (relief : Bool) (b : Evbuffer) → IsValid b → IsValid (relieved relief b)
relieved-IsValid relief b v = record { aligned = v.aligned; inside = v.inside; sized = v.sized }

-- A queue of `now` bytes is below the high watermark, if there is one.
abbrev pub below_high : Bufferevent → ℕ → Bool
below_high s now = s.wm_read.high == 0 || ltb now s.wm_read.high

module _ {B C : Type 0} (evsel : Eventop B) (env : Env) (r w : ℕ)
    (calls : Calls evsel env r w) where
  -- If `relief`, reading goes on.
  pub record Relieved (x : World B C) (relief : Bool) (y : World B C) : Type 0 where
    pub bufev : y.bufev ≡ record (x.bufev) { input = relieved relief x.bufev.input }
    pub client : y.client ≡ x.client
    pub good : calls.good y.base
    pub resumes :
        (relief && x.bufev.enabled.read) ≡ true
        → Handed evsel env x.base r x.bufev.timeout_read y.base
    pub idle : (relief && x.bufev.enabled.read) ≡ false → y.base ≡ x.base

  pub calm-Relieved : (x : World B C) → calls.good x.base → Relieved x false x
  calm-Relieved x good = record {
    bufev = ap (λ t. record (x.bufev) { input = record (x.bufev.input) { cb = t } }) (ground arith);
    client = refl;
    good = good;
    resumes = λ p. absurd (ground arith);
    idle = λ p. refl;
  }

  module _ (x : World B C) (named : x.bufev.ev_read ≡ r) (good : calls.good x.base) where
    abbrev resume : Bool → World B C → Option (World B C)
    resume test y =
        if test
        then (bufferevent_add evsel env y y.bufev.ev_read y.bufev.timeout_read >>= λ (_, z). some z)
        else some y

    abbrev calm : World B C
    calm = with_input x (evbuffer_setcb x.bufev.input false)

    calm-bufev : calm.bufev ≡ record (x.bufev) { input = relieved true x.bufev.input }
    unfolding evbuffer_setcb
    calm-bufev =
        ap (λ t. record (x.bufev) { input = record (x.bufev.input) { cb = t } }) (ground arith)

    resume-Relieved :
        (y : World B C) × (resume x.bufev.enabled.read calm ≡ some y) × Relieved x true y
    resume-Relieved = elim (Bool-cases x.bufev.enabled.read) [
      | inl on ↦
          let (s, b, run, g, _, handed) =
            add-Renews evsel env r w calls calm x.bufev.ev_read x.bufev.timeout_read good
              (inl named) in
          (
            with_base calm b,
            ap (λ t. resume t calm) on ∙ ap (λ t. t >>= λ p. some p.1) run,
            record {
              bufev = calm-bufev;
              client = refl;
              good = g;
              resumes =
                  λ p. subst (λ e. Handed evsel env x.base e x.bufev.timeout_read b) named handed;
              idle = λ p. absurd (ground arith);
            },
          )
      | inr off ↦ (
        calm,
        ap (λ t. resume t calm) off,
        record {
          bufev = calm-bufev;
          client = refl;
          good = good;
          resumes = λ p. absurd (ground arith);
          idle = λ p. refl;
        },
      )
    ]

    pub pressure-Relieved :
        (now : ℕ)
        → (y : World B C) × (bufferevent_read_pressure_cb evsel env x now ≡ some y)
          × Relieved x (below_high x.bufev now) y
    unfolding bufferevent_read_pressure_cb
    pressure-Relieved now = elim (Bool-cases (below_high x.bufev now)) [
      | inl low ↦
          let (y, run, re) = resume-Relieved in
          (y, ap (λ t. if t then resume x.bufev.enabled.read calm else some x) low ∙ run, rw low re)
      | inr high ↦ (
        x,
        ap (λ t. if t then resume x.bufev.enabled.read calm else some x) high,
        rw high (calm-Relieved x good),
      )
    ]
