-- ===== src/Bufferevent/Io.antt =====
-- bufferevent_write, bufferevent_write_buffer and bufferevent_read.
use ilibevent.Base.{
  ℕ, ◌&&◌, Option, none, some, List, ltb, if◌then◌else◌, ◌==◌, not, ◌>>=◌, ◌>>◌, Status, success,
  failure, length, slice,
}
use ilibevent.Buffer.{Evbuffer, contents, fits, evbuffer_add, evbuffer_drain}
use ilibevent.State.{Eventop}
use ilibevent.Bufferevent.State.{World, Env, with_input, with_output}
use ilibevent.Bufferevent.Setup.{bufferevent_add, bufferevent_read_pressure_cb}

module _ {B C : Type 0} (evsel : Eventop B) (env : Env) where
  -- The call of `input->cb` that a function of the queue has made, if any.
  abbrev pub notify : World B C → Option (ℕ × ℕ) → Option (World B C)
  notify w none = some w
  notify w (some (_, now)) = bufferevent_read_pressure_cb evsel env w now

  unfoldable pub bufferevent_write : World B C → List ℕ → Option (Status × World B C)
  bufferevent_write w bytes = evbuffer_add env.queue_room w.bufev.output bytes >>= λ d.
      elim (d.value) [
        | failure ↦ some (failure, with_output w (d.buf))
        | success ↦
            let queued = with_output w (d.buf) in
            if not (length bytes == 0) && queued.bufev.enabled.write
            then (bufferevent_add evsel env queued queued.bufev.ev_write queued.bufev.timeout_write
                >>= λ (_, w'). some (success, w'))
            else some (success, queued)
      ]

  -- The queue that is emptied is not one of the bufferevent, and has no callback.
  unfoldable pub bufferevent_write_buffer :
      World B C → Evbuffer → Option (Status × World B C × Evbuffer)
  bufferevent_write_buffer w buf =
      fits buf buf.buffer buf.off
      >> (bufferevent_write w (contents buf) >>= λ (res, w'). elim res [
        | failure ↦ some (failure, w', buf)
        | success ↦ some (success, w', (evbuffer_drain buf buf.off).buf)
      ])

  -- The bytes that are copied out, with their number as their length.
  unfoldable pub bufferevent_read : World B C → ℕ → Option (List ℕ × World B C)
  bufferevent_read w size =
      let buf = w.bufev.input in
      let count = if ltb buf.off size then buf.off else size in
      fits buf buf.buffer count
      >> (if count == 0
          then some (slice buf.memory buf.buffer count, w)
          else (let d = evbuffer_drain buf count in
              notify (with_input w (d.buf)) (d.called) >>= λ w'.
              some (slice buf.memory buf.buffer count, w')))
