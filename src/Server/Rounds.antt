-- ===== src/Server/Rounds.antt =====
-- The loop of buffered_on_read.
use ilibevent.Base.{
  ℕ, zero, suc, ◌+◌, ◌-◌, ◌≤◌, ◌<◌, ◌^◌, ◌≡◌, refl, sym, ap, ◌∙◌, inl, inr, true, List, [], ◌∷◌,
  ◌++◌, Option, some, arith, ltb, Bool-cases, if◌then◌else◌, ◌>>=◌, length, length-append,
  length-drop, take, drop, append_nil, take_append_drop, append_assoc,
}
use ilibevent.Base.Int.{pos, to_int, ltb_ℤ}
use ilibevent.State.{Eventop}
use ilibevent.Buffer.{Evbuffer, contents}
use ilibevent.Buffer.Expand.{IsValid}
use ilibevent.Bufferevent.State.{Bufferevent, World, Env}
use ilibevent.Bufferevent.Events.{Calls}
use ilibevent.Server.{ServerClient, chunk, move_chunk, move_input}
use ilibevent.Server.Moves.{Moved, size-contents, chunk-Moved}

module _ {B : Type 0} (evsel : Eventop B) (env : Env) (r w : ℕ) (calls : Calls evsel env r w)
    (room : env.queue_room ≡ true) where
  -- The size as an int, and what a round takes.
  chunk_lem :
      (off : ℕ)
      → off < 2 ^ 31
      → (ltb_ℤ (pos 0) (to_int off) ≡ ltb 0 off)
        × (chunk (to_int off) ≤ off)
        × (0 < off → 0 < chunk (to_int off))
  chunk_lem off small = ground arith

  abbrev with_queue : Evbuffer → Bufferevent → Bufferevent
  with_queue b s = record s { input = b }

  -- Two moves in a row.
  both :
      (x y z : World B ServerClient) (n : ℕ)
      → Moved evsel env r w calls room x
          (take n (contents x.bufev.input))
          (drop n (contents x.bufev.input))
          y
      → Moved evsel env r w calls room y (contents y.bufev.input) [] z
      → Moved evsel env r w calls room x (contents x.bufev.input) [] z
  both x y z n m k = record {
    input = k.input;
    input_valid = k.input_valid;
    queued =
        k.queued
        ∙ ap (λ q. q ++ contents y.bufev.input) m.queued
        ∙ ap (λ q. (contents x.client.output_buffer ++ take n (contents x.bufev.input)) ++ q)
            m.input
        ∙ append_assoc (contents x.client.output_buffer) (take n (contents x.bufev.input))
            (drop n (contents x.bufev.input))
        ∙ ap (λ q. contents x.client.output_buffer ++ q)
            (take_append_drop n (contents x.bufev.input));
    queue_valid = k.queue_valid;
    shift = omega (arith, k.shift, m.shift);
    fd = k.fd ∙ m.fd;
    bufev = k.bufev ∙ ap (with_queue z.bufev.input) m.bufev;
    good = k.good;
  }

  no_bytes : (xs : List ℕ) → length xs ≡ 0 → xs ≡ []
  no_bytes [] h = refl
  no_bytes (x ∷ xs) h = absurd (omega arith)

  empty-Moved :
      (x : World B ServerClient)
      → calls.good x.base
      → IsValid x.bufev.input
      → IsValid x.client.output_buffer
      → x.bufev.input.off ≡ 0
      → Moved evsel env r w calls room x (contents x.bufev.input) [] x
  empty-Moved x good vi vq h =
      let gone =
        no_bytes (contents x.bufev.input)
          (size-contents evsel env r w calls room x.bufev.input ∙ h) in
      record {
        input = gone;
        input_valid = vi;
        queued =
            sym (append_nil (contents x.client.output_buffer))
            ∙ ap (λ q. contents x.client.output_buffer ++ q) (sym gone);
        queue_valid = vq;
        shift = omega arith;
        fd = refl;
        bufev = refl;
        good = good;
      }

  -- What the two queues hold after a round.
  sizes :
      (x y : World B ServerClient) (n : ℕ)
      → Moved evsel env r w calls room x
          (take n (contents x.bufev.input))
          (drop n (contents x.bufev.input))
          y
      → (y.bufev.input.off ≡ x.bufev.input.off - n)
        × (y.client.output_buffer.off + y.bufev.input.off
            ≡ x.client.output_buffer.off + x.bufev.input.off)
  sizes x y n m =
      let bytes = contents x.bufev.input in
      let rest : y.bufev.input.off ≡ length (drop n bytes) =
        sym (size-contents evsel env r w calls room y.bufev.input) ∙ ap length m.input in
      let queue : y.client.output_buffer.off ≡ x.client.output_buffer.off + length (take n bytes) =
        omega (
          arith,
          size-contents evsel env r w calls room y.client.output_buffer,
          size-contents evsel env r w calls room x.client.output_buffer,
          ap length m.queued,
          length-append (contents x.client.output_buffer) (take n bytes),
        ) in
      (
        omega (
          arith,
          rest,
          length-drop n bytes,
          size-contents evsel env r w calls room x.bufev.input,
        ),
        omega (
          arith,
          rest,
          queue,
          length-append (take n bytes) (drop n bytes),
          ap length (take_append_drop n bytes),
          size-contents evsel env r w calls room x.bufev.input,
        ),
      )

  pub moves :
      (fuel : ℕ) (x : World B ServerClient)
      → x.bufev.input.off < fuel
      → x.bufev.ev_read ≡ r
      → calls.good x.base
      → IsValid x.bufev.input
      → IsValid x.client.output_buffer
      → x.bufev.input.off < 2 ^ 31
      → x.client.output_buffer.misalign + x.client.output_buffer.off + x.bufev.input.off ≤ 2 ^ 63
      → (y : World B ServerClient) × (move_input evsel env fuel x ≡ some y)
        × Moved evsel env r w calls room x (contents x.bufev.input) [] y
  unfolding move_input
  moves zero x more named good vi vq small fits = absurd (omega arith)
  moves (suc fuel) x more named good vi vq small fits =
      elim (Bool-cases (ltb 0 x.bufev.input.off)) [
        | inr none_left ↦ (
          x,
          ap (λ t. if t then next else some x) (signed ∙ none_left),
          empty-Moved x good vi vq (ground arith),
        )
        | inl some_left ↦
            let (y, run, m) =
              chunk-Moved evsel env r w calls room x n named good vi vq within fits in
            let (rest, total) = sizes x y n m in
            let (z, run', k) =
              moves fuel y (omega (arith, rest, more, progress (ground arith), within))
                (ap (λ s. s.ev_read) m.bufev ∙ named) m.good m.input_valid m.queue_valid
                (omega (arith, rest, small)) (omega (arith, total, m.shift, fits)) in
            (
              z,
              ap (λ t. if t then next else some x) (signed ∙ some_left)
                  ∙ ap (λ t. t >>= λ q. move_input evsel env fuel q) run
                  ∙ run',
              both x y z n m k,
            )
      ]
    where
      n : ℕ
      n = chunk (to_int x.bufev.input.off)

      next : Option (World B ServerClient)
      next = move_chunk evsel env x n >>= λ q. move_input evsel env fuel q

      signed : ltb_ℤ (pos 0) (to_int x.bufev.input.off) ≡ ltb 0 x.bufev.input.off
      signed = (chunk_lem x.bufev.input.off small).0

      within : n ≤ x.bufev.input.off
      within = (chunk_lem x.bufev.input.off small).1

      progress : 0 < x.bufev.input.off → 0 < n
      progress = (chunk_lem x.bufev.input.off small).2
