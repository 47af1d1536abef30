-- ===== src/Buffer/Io.antt =====
-- evbuffer_read and evbuffer_write: the queue against the descriptor.
use ilibevent.Base.{
  ℕ, zero, suc, ◌+◌, ◌-◌, ◌%◌, ◌^◌, ◌≤◌, ◌<◌, ◌≡◌, refl, ◌⊎◌, inl, inr, Option, Bool, false, not,
  ◌&&◌, List, [], ◌∷◌, ◌++◌, none, some, arith, ◌==◌, if◌then◌else◌, Status, success, failure,
  length, drop,
}
use ilibevent.Base.Int.{ℤ, pos, negsuc}
use ilibevent.Buffer.{
  size_mod, Evbuffer, Done, contents, memcpy, evbuffer_expand, Received, io_bytes, Sent, io_sent,
  read_limit, clamp_howmuch, ReadResult, read_failed, read_eof, read_some, store_read,
  evbuffer_read, evbuffer_write,
}
use ilibevent.Buffer.Expand.{IsValid, Keeps, Keeps-refl, Expanded, expand_lem}
use ilibevent.Buffer.Contents.{contents-memcpy, change, drain-drop}

-- The number of bytes that evbuffer_read asks read(2) for.
abbrev pub asked : Evbuffer → Option ℤ → ℤ → ℕ
asked b pending howmuch = clamp_howmuch howmuch (read_limit b pending howmuch)

-- What evbuffer_read does with what read(2) reports for that number.
pub record Filled (b : Evbuffer) (bytes : List ℕ) (d : Done ReadResult) : Type 0 where
  pub value : d.value ≡ read_some (length bytes)
  pub valid : IsValid d.buf
  pub queued : contents d.buf ≡ contents b ++ bytes
  pub callback : d.buf.cb ≡ b.cb
  pub called : d.called ≡ change b (b.off + length bytes)

pub record Unfilled (b : Evbuffer) (r : ReadResult) (d : Done ReadResult) : Type 0 where
  pub value : d.value ≡ r
  pub keeps : Keeps b d.buf
  pub called : d.called ≡ none

abbrev pub AfterRead : Evbuffer → Received → Done ReadResult → Type 0
AfterRead b Received.io_error d = Unfilled b read_failed d
AfterRead b (io_bytes []) d = Unfilled b read_eof d
AfterRead b (io_bytes (x ∷ xs)) d = Filled b (x ∷ xs) d

-- read(2) never delivers more than it is asked for.
abbrev pub Delivers : (ℕ → Received) → Type 0
Delivers read = (n : ℕ) (bytes : List ℕ) → read n ≡ io_bytes bytes → length bytes ≤ n

abbrev put : Evbuffer → ℕ → List ℕ → Done ReadResult
put e oldoff bytes = record {
  value = read_some (length bytes);
  buf = record e {
    memory = memcpy e.memory (e.buffer + e.off) bytes;
    off = (e.off + length bytes) % size_mod;
  };
  called =
      if not ((e.off + length bytes) % size_mod == oldoff) && e.cb
      then some (oldoff, (e.off + length bytes) % size_mod)
      else none;
}

store_read_lem :
    (b e : Evbuffer) (n : ℕ) (r : Received)
    → Keeps b e
    → e.misalign + e.off + n ≤ e.totallen
    → ((bytes : List ℕ) → r ≡ io_bytes bytes → length bytes ≤ n)
    → (d : Done ReadResult) × (store_read e b.off r ≡ some d) × AfterRead b r d
unfolding store_read
store_read_lem b e n Received.io_error k room within =
    (_, refl, record { value = refl; keeps = k; called = refl })
store_read_lem b e n (io_bytes []) k room within =
    (_, refl, record { value = refl; keeps = k; called = refl })
store_read_lem b e n (io_bytes (x ∷ xs)) k room within =
    let few = within (x ∷ xs) refl in
    let exact : (e.off + length (x ∷ xs)) % size_mod ≡ e.off + length (x ∷ xs) = ground arith in
    (
      put e b.off (x ∷ xs),
      ground arith,
      record {
        value = refl;
        valid = ground arith;
        queued = rw (exact, contents-memcpy e (x ∷ xs), k.same);
        callback = k.callback;
        called = ground arith;
      },
    )

abbrev pub Reads : Bool → Evbuffer → Received → Option (Done ReadResult) → Type 0
Reads granted b r result =
    (d : Done ReadResult) × (result ≡ some d)
    × (AfterRead b r d ⊎ ((granted ≡ false) × Unfilled b read_failed d))

module _ (granted : Bool) (pending : Option ℤ) (read : ℕ → Received) (b : Evbuffer) (howmuch : ℤ)
    (v : IsValid b) (delivers : Delivers read) where
  read-Expanded :
      (s : Status) (a : Evbuffer)
      → evbuffer_expand granted b (asked b pending howmuch) ≡ some (s, a)
      → Expanded granted b (asked b pending howmuch) s a
      → Reads granted b
          (read (asked b pending howmuch))
          (evbuffer_read granted pending read b howmuch)
  unfolding evbuffer_read
  read-Expanded failure a e x =
      (_, rw e, inr (x.refused refl, record { value = refl; keeps = x.keeps; called = refl }))
  read-Expanded success a e x =
      let (d, stored, after) =
        store_read_lem b a (asked b pending howmuch) (read (asked b pending howmuch)) x.keeps
          (x.room refl) (delivers (asked b pending howmuch)) in
      (d, rw e stored, inl after)

  -- evbuffer_read, on a valid buffer that may grow to at most 2 ^ 63 bytes, queues exactly the bytes
  -- that read(2) delivers behind the contents and returns their number, or leaves the contents as
  -- they were and returns 0 at the end of the stream and -1 if read(2) or realloc fails. It calls
  -- the callback only if bytes were queued, and never writes outside the block.
  pub read-append :
      b.misalign + b.off + asked b pending howmuch ≤ 2 ^ 63
      → Reads granted b
          (read (asked b pending howmuch))
          (evbuffer_read granted pending read b howmuch)
  read-append h =
      let (s, a, e, x) = expand_lem granted b (asked b pending howmuch) v h in read-Expanded s a e x

abbrev pub reported : Option ℤ → ℕ
reported (some (pos n)) = n
reported (some (negsuc n)) = 0
reported none = 0

read_limit_bounds :
    (b : Evbuffer) (pending : Option ℤ) (howmuch : ℤ)
    → (0 < read_limit b pending howmuch)
      × ((read_limit b pending howmuch ≤ 4096) ⊎ (read_limit b pending howmuch ≤ reported pending))
unfolding read_limit
read_limit_bounds b none howmuch = ground arith
read_limit_bounds b (some (negsuc n)) howmuch = ground arith
read_limit_bounds b (some (pos n)) howmuch = ground arith

-- evbuffer_read never asks for more than a `howmuch` that is not negative, and asks for at least one
-- byte unless that is 0. It never asks for more than 4096 bytes or what FIONREAD reports, whichever
-- is more.
pub asked_bounds :
    (b : Evbuffer) (pending : Option ℤ) (h : ℕ)
    → (asked b pending (pos h) ≤ h)
      × (0 < h → 0 < asked b pending (pos h))
      × (0 < asked b pending (negsuc h))
      × ((asked b pending (pos h) ≤ 4096) ⊎ (asked b pending (pos h) ≤ reported pending))
      × ((asked b pending (negsuc h) ≤ 4096) ⊎ (asked b pending (negsuc h) ≤ reported pending))
unfolding clamp_howmuch
asked_bounds b pending h =
    let p = read_limit_bounds b pending (pos h) in
    let q = read_limit_bounds b pending (negsuc h) in
    (ground arith, ground arith, ground arith, ground arith, ground arith)

-- What evbuffer_write does with what write(2) reports for the contents.
abbrev pub AfterWrite : Evbuffer → Sent → Done ReadResult → Type 0
AfterWrite b Sent.io_error d = Unfilled b read_failed d
AfterWrite b (io_sent zero) d = Unfilled b read_eof d
AfterWrite b (io_sent (suc n)) d =
    (d.value ≡ read_some (suc n))
    × IsValid d.buf
    × (contents d.buf ≡ drop (suc n) (contents b))
    × (d.buf.cb ≡ b.cb)
    × (d.called ≡ change b (b.off - suc n))

write_lem :
    (write : List ℕ → Sent) (b : Evbuffer) (sent : Sent)
    → IsValid b
    → write (contents b) ≡ sent
    → (d : Done ReadResult) × (evbuffer_write write b ≡ some d) × AfterWrite b sent d
unfolding evbuffer_write
write_lem write b Sent.io_error v e =
    (_, rw e (ground arith), record { value = refl; keeps = Keeps-refl b v; called = refl })
write_lem write b (io_sent zero) v e =
    (_, rw e (ground arith), record { value = refl; keeps = Keeps-refl b v; called = refl })
write_lem write b (io_sent (suc n)) v e =
    let (valid, rest, size, cb, called) = drain-drop b (suc n) v in
    (_, rw e (ground arith), (refl, valid, rest, cb, called))

-- evbuffer_write, on a valid buffer, gives write(2) the whole contents and drops exactly the bytes
-- that it took; it returns their number, 0 if it took none and -1 if it failed, with the contents as
-- they were in the last two cases. It never reads outside the block.
pub write-drop :
    (write : List ℕ → Sent) (b : Evbuffer)
    → IsValid b
    → (d : Done ReadResult) × (evbuffer_write write b ≡ some d)
      × AfterWrite b (write (contents b)) d
write-drop write b v = write_lem write b (write (contents b)) v refl
