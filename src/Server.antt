-- ===== src/Server.antt =====
-- src/mainsvrd.cpp, the server, which sends back what it gets: the client of a bufferevent.
-- `client->buf_ev` and `client->evbase` are the bufferevent and the base of the `World`; `fd` is -1 when the descriptor
-- is closed.
pub mod Moves
pub mod Rounds
pub mod Echo
mod Tests
use ilibevent.Base.{
  ℕ, zero, suc, Bool, true, false, not, Option, none, some, ltb, ◌==◌, if◌then◌else◌, ◌>>=◌, ◌>>◌,
  check, Status, success, failure,
}
use ilibevent.Base.Int.{ℤ, pos, negsuc, pos_part, to_int, ltb_ℤ}
use ilibevent.Buffer.{Evbuffer, evbuffer_remove, evbuffer_add}
use ilibevent.State.{Eventop}
use ilibevent.Bufferevent.State.{What, World, Env, with_input}
use ilibevent.Bufferevent.Io.{notify, bufferevent_write_buffer}

pub record ServerClient : Type 0 where
  pub fd : ℤ
  pub output_buffer : Evbuffer

-- The least of the size and 4096.
abbrev pub chunk : ℤ → ℕ
chunk nbytes = if ltb 4096 (pos_part nbytes) then 4096 else pos_part nbytes

module _ {B : Type 0} where
  abbrev pub with_output_buffer : World B ServerClient → Evbuffer → World B ServerClient
  with_output_buffer w buf = record w { client = record (w.client) { output_buffer = buf } }

  -- What close(2) does to the descriptor is not modelled.
  unfoldable pub close_client : World B ServerClient → World B ServerClient
  close_client w =
      if ltb_ℤ w.client.fd (pos 0)
      then w
      else record w { client = record (w.client) { fd = negsuc 0 } }

  unfoldable pub buffered_on_write : World B ServerClient → Option (World B ServerClient)
  buffered_on_write w = some w

  unfoldable pub buffered_on_error : World B ServerClient → What → Option (World B ServerClient)
  unfolding close_client
  buffered_on_error w what = some (close_client w)

  module _ (evsel : Eventop B) (env : Env) where
    -- One round of the loop. A failure of evbuffer_add is not looked at.
    unfoldable pub move_chunk : World B ServerClient → ℕ → Option (World B ServerClient)
    move_chunk w nbytes = evbuffer_remove w.bufev.input nbytes >>= λ d.
        notify evsel env (with_input w (d.buf)) (d.called) >>= λ x.
        evbuffer_add env.queue_room x.client.output_buffer (d.value.1) >>= λ a.
        some (with_output_buffer x (a.buf))

    -- The loop, with fuel. The size is a size_t that is stored in an int.
    unfoldable pub move_input : ℕ → World B ServerClient → Option (World B ServerClient)
    move_input zero w = none
    move_input (suc fuel) w =
        let nbytes = to_int w.bufev.input.off in
        let rest = move_chunk w (chunk nbytes) >>= λ x. move_input fuel x in
        if ltb_ℤ (pos 0) nbytes then rest else some w

    unfoldable pub buffered_on_read : ℕ → World B ServerClient → Option (World B ServerClient)
    unfolding move_input close_client
    buffered_on_read fuel w = move_input fuel w >>= λ x.
        bufferevent_write_buffer evsel env x x.client.output_buffer >>= λ (res, y, buf). elim res [
          | failure ↦ some (close_client (with_output_buffer y buf))
          | success ↦ some (with_output_buffer y buf)
        ]
