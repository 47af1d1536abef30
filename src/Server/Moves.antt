-- ===== src/Server/Moves.antt =====
-- One round of buffered_on_read.
use ilibevent.Base.{
  ℕ, ◌+◌, ◌-◌, ◌≤◌, ◌^◌, ◌≡◌, sym, ap, subst, ◌∙◌, inl, inr, Bool, true, not, ◌&&◌, List, ◌++◌,
  Option, some, arith, ◌==◌, ◌>>=◌, Status, length, length-slice, length-take, take, drop,
}
use ilibevent.Base.Int.{ℤ}
use ilibevent.State.{Eventop}
use ilibevent.Buffer.{Evbuffer, Done, contents, evbuffer_add}
use ilibevent.Buffer.Expand.{IsValid}
use ilibevent.Buffer.Contents.{AddOutcome, add-append, remove-take}
use ilibevent.Bufferevent.State.{World, Env, with_input}
use ilibevent.Bufferevent.Events.{Calls}
use ilibevent.Bufferevent.Io.{notify}
use ilibevent.Bufferevent.Pressure.{relieved-IsValid, below_high, Relieved}
use ilibevent.Bufferevent.Draining.{notify-Relieved}
use ilibevent.Server.{ServerClient, with_output_buffer, move_chunk}

module _ {B : Type 0} (evsel : Eventop B) (env : Env) (r w : ℕ) (calls : Calls evsel env r w)
    (room : env.queue_room ≡ true) where
  -- `bytes` have gone from the front of the input to the end of the client's queue.
  pub record Moved (x : World B ServerClient) (bytes rest : List ℕ) (y : World B ServerClient)
      : Type 0 where
    pub input : contents y.bufev.input ≡ rest
    pub input_valid : IsValid y.bufev.input
    pub queued : contents y.client.output_buffer ≡ contents x.client.output_buffer ++ bytes
    pub queue_valid : IsValid y.client.output_buffer
    pub shift : y.client.output_buffer.misalign ≤ x.client.output_buffer.misalign
    pub fd : y.client.fd ≡ x.client.fd
    pub bufev : y.bufev ≡ record (x.bufev) { input = y.bufev.input }
    pub good : calls.good y.base

  pub size-contents : (b : Evbuffer) → length (contents b) ≡ b.off
  size-contents b = length-slice b.memory b.buffer b.off

  -- One round.
  pub chunk-Moved :
      (x : World B ServerClient) (n : ℕ)
      → x.bufev.ev_read ≡ r
      → calls.good x.base
      → IsValid x.bufev.input
      → IsValid x.client.output_buffer
      → n ≤ x.bufev.input.off
      → x.client.output_buffer.misalign + x.client.output_buffer.off + x.bufev.input.off ≤ 2 ^ 63
      → (y : World B ServerClient) × (move_chunk evsel env x n ≡ some y)
        × Moved x (take n (contents x.bufev.input)) (drop n (contents x.bufev.input)) y
  unfolding move_chunk
  chunk-Moved x n named good vi vq few fits =
      let (d, run, count, value, valid, rest, called) = remove-take x.bufev.input n vi in
      let left = x.bufev.input.off - n in
      let test = not (left == x.bufev.input.off) && x.bufev.input.cb in
      let (x₁, run₁, re) =
        notify-Relieved evsel env r w calls (with_input x (d.buf)) named good test x.bufev.input.off
          left in
      let few_bytes : length (d.value.1) ≤ x.bufev.input.off =
        omega (arith, ap length value, length-take n (contents x.bufev.input), few) in
      let (a, run₂, outcome) =
        add-append env.queue_room x₁.client.output_buffer (d.value.1)
          (subst (λ c. IsValid c.output_buffer) (sym re.client) vq)
          (omega (
            arith,
            ap (λ c. c.output_buffer.misalign) re.client,
            ap (λ c. c.output_buffer.off) re.client,
            few_bytes,
            fits,
          )) in
      (
        with_output_buffer x₁ (a.buf),
        ap (λ t. t >>= taken) run
            ∙ ap (λ c. notify evsel env (with_input x (d.buf)) c >>= given (d.value.1)) called
            ∙ ap (λ t. t >>= given (d.value.1)) run₁
            ∙ ap (λ t. t >>= λ q. some (with_output_buffer x₁ (q.buf))) run₂,
        moved d x₁ a value valid rest (test && below_high x.bufev left) re outcome,
      )
    where
      given : List ℕ → World B ServerClient → Option (World B ServerClient)
      given bytes y = evbuffer_add env.queue_room y.client.output_buffer bytes >>= λ a.
          some (with_output_buffer y (a.buf))

      taken : Done (ℤ × List ℕ) → Option (World B ServerClient)
      taken d = notify evsel env (with_input x (d.buf)) (d.called) >>= given (d.value.1)

      moved :
          (d : Done (ℤ × List ℕ)) (x₁ : World B ServerClient) (a : Done Status)
          → d.value.1 ≡ take n (contents x.bufev.input)
          → IsValid d.buf
          → contents d.buf ≡ drop n (contents x.bufev.input)
          → (test : Bool) → Relieved evsel env r w calls (with_input x (d.buf)) test x₁
          → AddOutcome env.queue_room x₁.client.output_buffer (d.value.1) a
          → Moved x
              (take n (contents x.bufev.input))
              (drop n (contents x.bufev.input))
              (with_output_buffer x₁ (a.buf))
      moved d x₁ a value valid rest test re (inr (failed, refused, keeps, quiet)) =
          absurd (ground arith)
      moved d x₁ a value valid rest test re (inl (ok, added)) = record {
        input = ap (λ s. contents s.input) re.bufev ∙ rest;
        input_valid =
            subst (λ s. IsValid s.input) (sym re.bufev) (relieved-IsValid test (d.buf) valid);
        queued =
            added.queued
            ∙ ap (λ c. contents c.output_buffer ++ d.value.1) re.client
            ∙ ap (λ v. contents x.client.output_buffer ++ v) value;
        queue_valid = added.valid;
        shift = subst (λ c. a.buf.misalign ≤ c.output_buffer.misalign) re.client added.shift;
        fd = ap (λ c. c.fd) re.client;
        bufev = re.bufev ∙ ap (λ s. record (x.bufev) { input = s.input }) (sym re.bufev);
        good = re.good;
      }
