-- ===== src/Bufferevent/Draining.antt =====
-- bufferevent_read: the client takes what the descriptor gave, and a paused bufferevent reads again.
use ilibevent.Base.{
  ℕ, ◌-◌, ◌≡◌, refl, Bool, true, false, not, ◌&&◌, List, ◌==◌, Option, none, some, ◌>>=◌,
  if◌then◌else◌, take, drop, slice,
}
use ilibevent.State.{Eventop}
use ilibevent.Buffer.{Evbuffer, contents, remove_size, evbuffer_drain}
use ilibevent.Buffer.Expand.{IsValid}
use ilibevent.Bufferevent.State.{World, Env, Bufferevent, with_input}
use ilibevent.Bufferevent.Events.{Calls, Handed}
use ilibevent.Bufferevent.Io.{notify}
use ilibevent.Bufferevent.Pressure.{below_high, Relieved, calm-Relieved, pressure-Relieved}

-- Taking `size` bytes ends a pause: the callback is set, the size changes, and it is then below the high
-- watermark.
abbrev pub ends_pause : Bufferevent → ℕ → Bool
ends_pause s size =
    s.input.cb && not (s.input.off - size == s.input.off) && below_high s (s.input.off - size)

module _ {B C : Type 0} (evsel : Eventop B) (env : Env) (r w : ℕ)
    (calls : Calls evsel env r w) where
  pub record Took (x : World B C) (size : ℕ) (y : World B C) : Type 0 where
    pub valid : IsValid y.bufev.input
    pub left : contents y.bufev.input ≡ drop size (contents x.bufev.input)
    pub callback : y.bufev.input.cb ≡ (x.bufev.input.cb && not (ends_pause x.bufev size))
    pub bufev : y.bufev ≡ record (x.bufev) { input = y.bufev.input }
    pub client : y.client ≡ x.client
    pub good : calls.good y.base
    pub resumes :
        (ends_pause x.bufev size && x.bufev.enabled.read) ≡ true
        → Handed evsel env x.base r x.bufev.timeout_read y.base
    pub idle : (ends_pause x.bufev size && x.bufev.enabled.read) ≡ false → y.base ≡ x.base

  abbrev pub Takes : World B C → ℕ → Option (List ℕ × World B C) → Type 0
  Takes x size result =
      (y : World B C) × (result ≡ some (take size (contents x.bufev.input), y)) × Took x size y

  -- The callback of the queue, if the queue has called it.
  pub notify-Relieved :
      (x : World B C)
      → x.bufev.ev_read ≡ r
      → calls.good x.base
      → (test : Bool) (old now : ℕ)
      → (y : World B C) × (notify evsel env x (if test then some (old, now) else none) ≡ some y)
        × Relieved evsel env r w calls x (test && below_high x.bufev now) y
  notify-Relieved x named good true old now = pressure-Relieved evsel env r w calls x named good now
  notify-Relieved x named good false old now = (x, refl, calm-Relieved evsel env r w calls x good)

  module _ (x : World B C) (size : ℕ) (named : x.bufev.ev_read ≡ r) (good : calls.good x.base)
      (v : IsValid x.bufev.input) where
    abbrev buf : Evbuffer
    buf = x.bufev.input

    abbrev bytes : List ℕ
    bytes = slice buf.memory buf.buffer (remove_size buf size)

    abbrev drains : Option (List ℕ × World B C)
    drains =
        (let d = evbuffer_drain buf (remove_size buf size) in
          notify evsel env (with_input x (d.buf)) (d.called) >>= λ y. some (bytes, y))

    -- What bufferevent_read does when `count` bytes are copied out.
    abbrev choose : Bool → ℕ → Option (List ℕ × World B C)
    choose nothing count =
        if nothing
        then some (slice buf.memory buf.buffer count, x)
        else (let d = evbuffer_drain buf count in
            notify evsel env (with_input x (d.buf)) (d.called) >>= λ y.
            some (slice buf.memory buf.buffer count, y))
