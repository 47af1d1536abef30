-- ===== src/Bufferevent/Callbacks.antt =====
-- bufferevent_readcb and bufferevent_writecb, which run when the events of a bufferevent are active.
use ilibevent.Base.{
  ℕ, ◌+◌, ◌-◌, ◌%◌, Bool, true, not, ◌&&◌, Option, some, List, ltb, leb, ◌==◌, if◌then◌else◌, ◌>>=◌,
  ◌>>◌, check,
}
use ilibevent.Base.Int.{ℤ, pos, negsuc, to_int, ltb_ℤ}
use ilibevent.Buffer.{
  size_mod, read_failed, read_eof, read_some, Received, Sent, evbuffer_setcb, evbuffer_read,
  evbuffer_write,
}
use ilibevent.State.{EventMask, only_timeout, Eventop}
use ilibevent.Bufferevent.State.{
  What, evbuffer_read_bit, evbuffer_write_bit, Bufferevent, World, Env, Client, with_input,
  with_output,
}
use ilibevent.Bufferevent.Setup.{bufferevent_add, remove_event}
use ilibevent.Bufferevent.Io.{notify}

-- Where no high watermark is set, any number of bytes is read: -1.
abbrev pub room_left : Bufferevent → ℤ
room_left s =
    if s.wm_read.high == 0
    then negsuc 0
    else to_int ((s.wm_read.high + size_mod - s.input.off) % size_mod)

module _ {B C : Type 0} (evsel : Eventop B) (client : Client B C) (env : Env) where
  -- (*errorcb)(bufev, what, cbarg)
  abbrev pub report : World B C → What → Option (World B C)
  report w what = check w.bufev.errorcb >> client.errorcb w what

  -- A failure to add the event is not looked at.
  abbrev pub again_read : World B C → Option (World B C)
  again_read w =
      bufferevent_add evsel env w w.bufev.ev_read w.bufev.timeout_read >>= λ (_, w'). some w'

  abbrev pub again_write : World B C → Option (World B C)
  again_write w =
      if w.bufev.output.off == 0
      then some w
      else (bufferevent_add evsel env w w.bufev.ev_write w.bufev.timeout_write >>= λ (_, w').
          some w')

  -- The reading stops until the queue is drained.
  unfoldable pub pause_read : World B C → Option (World B C)
  pause_read w = remove_event evsel env w w.bufev.ev_read >>= λ (_, w').
      some (with_input w' (evbuffer_setcb w'.bufev.input true))

  -- Behind a successful read: the watermarks, and the client.
  unfoldable pub after_read : World B C → Option (World B C)
  unfolding pause_read
  after_read w =
      let len = w.bufev.input.off in
      if not (w.bufev.wm_read.low == 0) && ltb len w.bufev.wm_read.low
      then some w
      else ((if not (w.bufev.wm_read.high == 0) && leb w.bufev.wm_read.high len
            then pause_read w
            else some w)
          >>= λ w'. if w'.bufev.readcb then client.readcb w' else some w')

  -- `pending` is what FIONREAD reports, `read` is read(2), and `again` says whether errno is then EAGAIN or
  -- EINTR.
  unfoldable pub fill : Option ℤ → (ℕ → Received) → Bool → World B C → ℤ → Option (World B C)
  unfolding after_read
  fill pending read again w howmuch =
      evbuffer_read env.queue_room pending read w.bufev.input howmuch >>= λ d.
      notify evsel env (with_input w (d.buf)) (d.called) >>= λ w₁. elim (d.value) [
        | read_failed ↦
            if again then again_read w₁ else report w₁ (record evbuffer_read_bit { error = true })
        | read_eof ↦ report w₁ (record evbuffer_read_bit { eof = true })
        | read_some n ↦ again_read w₁ >>= after_read
      ]

  unfoldable pub bufferevent_readcb :
      Option ℤ → (ℕ → Received) → Bool → EventMask → World B C → Option (World B C)
  unfolding fill pause_read
  bufferevent_readcb pending read again event w =
      if only_timeout event
      then report w (record evbuffer_read_bit { timeout = true })
      else if not (w.bufev.wm_read.high == 0) && not (ltb_ℤ (pos 0) (room_left w.bufev))
      then pause_read w
      else fill pending read again w (room_left w.bufev)

  -- Behind the writing: the rest, and the client.
  unfoldable pub after_write : World B C → Option (World B C)
  after_write w = again_write w >>= λ w'.
      if w'.bufev.writecb && leb w'.bufev.output.off w'.bufev.wm_write.low
      then client.writecb w'
      else some w'

  -- `again` stands for EAGAIN, EINTR and EINPROGRESS.
  unfoldable pub bufferevent_writecb :
      (List ℕ → Sent) → Bool → EventMask → World B C → Option (World B C)
  unfolding after_write
  bufferevent_writecb write again event w =
      if only_timeout event
      then report w (record evbuffer_write_bit { timeout = true })
      else if w.bufev.output.off == 0
      then after_write w
      else (evbuffer_write write w.bufev.output >>= λ d. elim (d.value) [
        | read_failed ↦
            if again
            then again_write (with_output w (d.buf))
            else report (with_output w (d.buf)) (record evbuffer_write_bit { error = true })
        | read_eof ↦ report (with_output w (d.buf)) (record evbuffer_write_bit { eof = true })
        | read_some n ↦ after_write (with_output w (d.buf))
      ])
