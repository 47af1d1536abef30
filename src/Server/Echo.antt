-- ===== src/Server/Echo.antt =====
-- buffered_on_read: everything that has arrived is queued to be sent back.
use ilibevent.Base.{
  ℕ, ◌+◌, ◌≤◌, ◌<◌, ◌^◌, ◌≡◌, sym, ap, subst, ◌∙◌, ◌⊎◌, inl, inr, true, [], ◌++◌, Option, some,
  arith, ◌>>=◌, Status, success, failure, length, length-append,
}
use ilibevent.State.{Eventop}
use ilibevent.Buffer.{Evbuffer, contents}
use ilibevent.Buffer.Expand.{IsValid}
use ilibevent.Bufferevent.State.{World, Env}
use ilibevent.Bufferevent.Events.{Calls}
use ilibevent.Bufferevent.Io.{bufferevent_write_buffer}
use ilibevent.Bufferevent.Bytes.{Wrote, Unwritten, write_buffer-Transfers}
use ilibevent.Server.{ServerClient, with_output_buffer, close_client, buffered_on_read}
use ilibevent.Server.Moves.{Moved, size-contents}
use ilibevent.Server.Rounds.{moves}

module _ {B : Type 0} (evsel : Eventop B) (env : Env) (r w : ℕ) (calls : Calls evsel env r w)
    (room : env.queue_room ≡ true) where
  -- The input and the client's queue are empty, and what they had waits to be written.
  pub record Echoed (x y : World B ServerClient) : Type 0 where
    pub input : contents y.bufev.input ≡ []
    pub queue : contents y.client.output_buffer ≡ []
    pub output :
        contents y.bufev.output
        ≡ contents x.bufev.output ++ (contents x.client.output_buffer ++ contents x.bufev.input)
    pub valid : IsValid y.bufev.output
    pub fd : y.client.fd ≡ x.client.fd
    pub good : calls.good y.base

  -- What follows the loop.
  abbrev finish : Status × World B ServerClient × Evbuffer → Option (World B ServerClient)
  finish p = elim (p.0) [
    | failure ↦ some (close_client (with_output_buffer p.1 p.2))
    | success ↦ some (with_output_buffer p.1 p.2)
  ]

  written :
      (x y z : World B ServerClient) (buf : Evbuffer)
      → Moved evsel env r w calls room x (contents x.bufev.input) [] y
      → Wrote evsel env r w calls y (contents y.client.output_buffer) z
      → contents buf ≡ []
      → Echoed x (with_output_buffer z buf)
  written x y z buf m wrote empty = record {
    input = ap (λ s. contents s.input) wrote.bufev ∙ m.input;
    queue = empty;
    output =
        wrote.queued
        ∙ ap (λ s. contents s.output ++ contents y.client.output_buffer) m.bufev
        ∙ ap (λ q. contents x.bufev.output ++ q) m.queued;
    valid = wrote.valid;
    fd = ap (λ c. c.fd) wrote.client ∙ m.fd;
    good = wrote.good;
  }

  -- buffered_on_read, with more fuel than there are bytes, in a good state with valid queues, fewer than 2 ^ 31 bytes
  -- in the input, room for all bytes within 2 ^ 63, and a realloc that gives memory, always returns: all bytes of
  -- the input, and before them those of the client's own queue, are behind what was to be written, in their order;
  -- the input and the client's queue are empty, and the descriptor stays open.
  pub buffered_on_read-Echoed :
      (fuel : ℕ) (x : World B ServerClient)
      → x.bufev.input.off < fuel
      → x.bufev.ev_read ≡ r
      → x.bufev.ev_write ≡ w
      → calls.good x.base
      → IsValid x.bufev.input
      → IsValid x.bufev.output
      → IsValid x.client.output_buffer
      → x.bufev.input.off < 2 ^ 31
      → x.client.output_buffer.misalign + x.client.output_buffer.off + x.bufev.input.off ≤ 2 ^ 63
      → x.bufev.output.misalign + x.bufev.output.off + x.client.output_buffer.off
          + x.bufev.input.off
        ≤ 2 ^ 63
      → (y : World B ServerClient) × (buffered_on_read evsel env fuel x ≡ some y) × Echoed x y
  unfolding buffered_on_read
  buffered_on_read-Echoed fuel x more named named_write good vi vo vq small fits fits_output =
      let (y, run, m) = moves evsel env r w calls room fuel x more named good vi vq small fits in
      let total : y.client.output_buffer.off ≡ x.client.output_buffer.off + x.bufev.input.off =
        omega (
          arith,
          size-contents evsel env r w calls room y.client.output_buffer,
          size-contents evsel env r w calls room x.client.output_buffer,
          size-contents evsel env r w calls room x.bufev.input,
          ap length m.queued,
          length-append (contents x.client.output_buffer) (contents x.bufev.input),
        ) in
      let (s, z, buf, run', outcome) =
        write_buffer-Transfers evsel env r w calls y y.client.output_buffer
          (ap (λ q. q.ev_write) m.bufev ∙ named_write) m.good
          (subst (λ q. IsValid q.output) (sym m.bufev) vo) m.queue_valid
          (omega (
            arith,
            ap (λ q. q.output.misalign) m.bufev,
            ap (λ q. q.output.off) m.bufev,
            total,
            fits_output,
          )) in
      ended x y z s buf m
        (ap (λ t. t >>= λ q. bufferevent_write_buffer evsel env q q.client.output_buffer >>= finish)
            run
          ∙ ap (λ t. t >>= finish) run')
        outcome
    where
      ended :
          (x y z : World B ServerClient) (s : Status) (buf : Evbuffer)
          → Moved evsel env r w calls room x (contents x.bufev.input) [] y
          → {result : Option (World B ServerClient)} → result ≡ finish (s, z, buf)
          → ((s ≡ success)
              × Wrote evsel env r w calls y (contents y.client.output_buffer) z
              × IsValid buf
              × (contents buf ≡ []))
            ⊎ ((s ≡ failure) × Unwritten evsel env r w calls y z × (buf ≡ y.client.output_buffer))
          → (v : World B ServerClient) × (result ≡ some v) × Echoed x v
      ended x y z s buf m run (inl (ok, wrote, valid, empty)) = (
        with_output_buffer z buf,
        run ∙ ap (λ t. finish (t, z, buf)) ok,
        written x y z buf m wrote empty,
      )
      ended x y z s buf m run (inr (failed, un, same)) = absurd (ground (arith, un.refused, room))
