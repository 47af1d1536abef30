-- ===== src/Buffer/Contents.antt =====
-- evbuffer_add, evbuffer_drain and evbuffer_remove against a queue of bytes.
use ilibevent.Base.{
  ℕ, ◌+◌, ◌-◌, ◌%◌, ◌^◌, ◌≤◌, ◌<◌, ◌≡◌, refl, ap, ◌∙◌, ◌⊎◌, inl, inr, Option, Bool, true, false,
  not, ◌&&◌, List, ◌++◌, none, some, arith, ltb, leb, ◌==◌, if◌then◌else◌, Bool-cases, Status,
  success, failure, length, get_or, take, drop, take_all, drop_all, leb→le, sym, slice, slice-eq,
  slice-add, slice-get_or, length-slice, take-slice, drop-slice,
}
use ilibevent.Base.Int.{ℤ, to_int}
use ilibevent.Buffer.{
  size_mod, Evbuffer, Done, contents, memcpy, needed, evbuffer_expand, evbuffer_add, drained,
  evbuffer_drain, remove_size, evbuffer_remove,
}
use ilibevent.Buffer.Expand.{IsValid, Keeps, Keeps-refl, Expanded, expand_lem}

memcpy-new :
    (m : ℕ → ℕ) (dst : ℕ) (bytes : List ℕ) (k : ℕ)
    → k < length bytes
    → memcpy m dst bytes (dst + k) ≡ get_or bytes k 0
memcpy-new m dst bytes k p =
    let i : dst + k - dst ≡ k = omega arith in ground (arith, ap (λ (j : ℕ). get_or bytes j 0) i)

-- Bytes copied behind the contents extend them.
pub contents-memcpy :
    (e : Evbuffer) (bytes : List ℕ)
    → slice (memcpy e.memory (e.buffer + e.off) bytes) e.buffer (e.off + length bytes)
      ≡ contents e ++ bytes
contents-memcpy e bytes = slice-add _ e.buffer e.off (length bytes) ∙ (λ i. kept i ++ new i)
  where
    kept : slice (memcpy e.memory (e.buffer + e.off) bytes) e.buffer e.off ≡ contents e
    kept = slice-eq _ e.memory e.buffer e.buffer e.off (λ k p. ground arith)

    new : slice (memcpy e.memory (e.buffer + e.off) bytes) (e.buffer + e.off) (length bytes) ≡ bytes
    new = slice-get_or bytes _ (e.buffer + e.off) 0 (memcpy-new e.memory _ bytes)

-- The outcome of add: the bytes are queued, and the client is told if there are any; or realloc
-- failed and nothing is queued.
pub record Added (b : Evbuffer) (bytes : List ℕ) (d : Done Status) : Type 0 where
  pub valid : IsValid d.buf
  pub queued : contents d.buf ≡ contents b ++ bytes
  pub size : d.buf.off ≡ b.off + length bytes
  pub callback : d.buf.cb ≡ b.cb
  pub shift : d.buf.misalign ≤ b.misalign
  pub called :
      d.called
      ≡ (if not (length bytes == 0) && b.cb then some (b.off, b.off + length bytes) else none)

abbrev pub AddOutcome : Bool → Evbuffer → List ℕ → Done Status → Type 0
AddOutcome granted b bytes d =
    ((d.value ≡ success) × Added b bytes d)
    ⊎ ((d.value ≡ failure) × (granted ≡ false) × Keeps b d.buf × (d.called ≡ none))

-- evbuffer_add on a buffer with room.
abbrev put : Evbuffer → ℕ → List ℕ → Done Status
put e oldoff bytes = record {
  value = success;
  buf = record e {
    memory = memcpy e.memory (e.buffer + e.off) bytes;
    off = (e.off + length bytes) % size_mod;
  };
  called =
      if not (length bytes == 0) && e.cb
      then some (oldoff, (e.off + length bytes) % size_mod)
      else none;
}

put-Added :
    (b e : Evbuffer) (bytes : List ℕ)
    → Keeps b e
    → e.misalign + e.off + length bytes ≤ e.totallen
    → Added b bytes (put e b.off bytes)
put-Added b e bytes k room =
    let exact : (e.off + length bytes) % size_mod ≡ e.off + length bytes = ground arith in
    record {
      valid = ground arith;
      queued = rw (exact, contents-memcpy e bytes, k.same);
      size = ground arith;
      callback = k.callback;
      shift = k.shift;
      called = ground arith;
    }

abbrev pub Adds : Bool → Evbuffer → List ℕ → Option (Done Status) → Type 0
Adds granted b bytes r = (d : Done Status) × (r ≡ some d) × AddOutcome granted b bytes d

module _ (granted : Bool) (b : Evbuffer) (bytes : List ℕ) (v : IsValid b) where
  add_room :
      b.misalign + b.off + length bytes ≤ b.totallen
      → Adds granted b bytes (evbuffer_add granted b bytes)
  unfolding evbuffer_add
  add_room room =
      (put b b.off bytes, ground arith, inl (refl, put-Added b b bytes (Keeps-refl b v) room))

  add-Expanded :
      (s : Status) (a : Evbuffer)
      → ltb b.totallen (needed b (length bytes)) ≡ true
      → evbuffer_expand granted b (length bytes) ≡ some (s, a)
      → Expanded granted b (length bytes) s a
      → Adds granted b bytes (evbuffer_add granted b bytes)
  unfolding evbuffer_add
  add-Expanded success a short e x =
      let room = x.room refl in
      (
        put a b.off bytes,
        rw (short, e) (ground arith),
        inl (refl, put-Added b a bytes x.keeps room),
      )
  add-Expanded failure a short e x = (_, rw (short, e), inr (refl, x.refused refl, x.keeps, refl))

  -- evbuffer_add, on a valid buffer whose new size is at most 2 ^ 63, either queues exactly the bytes
  -- behind the contents and reports the old and new size to a callback if there are bytes, or fails
  -- because realloc failed, with the contents as they were and no callback. It never faults.
  pub add-append :
      b.misalign + b.off + length bytes ≤ 2 ^ 63
      → Adds granted b bytes (evbuffer_add granted b bytes)
  add-append h = elim (Bool-cases (ltb b.totallen (needed b (length bytes)))) [
    | inl short ↦
        let (s, a, e, x) = expand_lem granted b (length bytes) v h in add-Expanded s a short e x
    | inr room ↦ add_room (ground arith)
  ]

-- The callback of drain and remove is called when the size has changed.
abbrev pub change : Evbuffer → ℕ → Option (ℕ × ℕ)
change b new = if not (new == b.off) && b.cb then some (b.off, new) else none

drained-IsValid : (b : Evbuffer) (len : ℕ) → IsValid b → IsValid (drained b len)
unfolding drained
drained-IsValid b len v = ground arith

drained-drop : (b : Evbuffer) (len : ℕ) → contents (drained b len) ≡ drop len (contents b)
unfolding drained slice
drained-drop b len = elim (Bool-cases (leb b.off len)) [
  | inl all ↦ rw all (
      sym (
        drop_all len (contents b)
          (omega (arith, length-slice b.memory b.buffer b.off, leb→le b.off len))))
  | inr part ↦ rw part (sym (drop-slice b.memory b.buffer len b.off (ground arith)))
]

drained-off : (b : Evbuffer) (len : ℕ) → (drained b len).off ≡ b.off - len
unfolding drained
drained-off b len = ground arith

-- evbuffer_drain drops the first `len` bytes (all of them if there are fewer), keeps the buffer
-- valid and its callback set as it was, and reports the old and new size if they differ.
pub drain-drop :
    (b : Evbuffer) (len : ℕ)
    → IsValid b
    → IsValid (evbuffer_drain b len).buf
      × (contents (evbuffer_drain b len).buf ≡ drop len (contents b))
      × ((evbuffer_drain b len).buf.off ≡ b.off - len)
      × ((evbuffer_drain b len).buf.cb ≡ b.cb)
      × ((evbuffer_drain b len).called ≡ change b (b.off - len))
unfolding evbuffer_drain
drain-drop b len v = (
  drained-IsValid b len v,
  drained-drop b len,
  drained-off b len,
  drained-cb,
  rw (drained-off b len),
)
  where
    drained-cb : (drained b len).cb ≡ b.cb
    drained-cb = unfold drained in ground arith

pub take-contents :
    (b : Evbuffer) (n : ℕ) → slice b.memory b.buffer (remove_size b n) ≡ take n (contents b)
take-contents b n = elim (Bool-cases (leb b.off n)) [
  | inl all ↦ rw all (
      sym (
        take_all n (contents b)
          (omega (arith, length-slice b.memory b.buffer b.off, leb→le b.off n))))
  | inr part ↦ rw part (sym (take-slice b.memory b.buffer n b.off (ground arith)))
]

pub drop-remove_size :
    (b : Evbuffer) (n : ℕ) → drop (remove_size b n) (contents b) ≡ drop n (contents b)
drop-remove_size b n = elim (Bool-cases (leb b.off n)) [
  | inl all ↦
      rw (all, drop_all b.off (contents b) (omega (arith, length-slice b.memory b.buffer b.off)))
        (sym (
          drop_all n (contents b)
            (omega (arith, length-slice b.memory b.buffer b.off, leb→le b.off n))))
  | inr part ↦ rw part
]

-- evbuffer_remove, on a valid buffer, gives the first `datlen` bytes (all of them if there are
-- fewer), returns their number as an int, which from 2 ^ 31 bytes on is another number, calls the callback with
-- the old and the new size if it is set and the size changes, and leaves the rest in a valid buffer. It never reads outside the block.
pub remove-take :
    (b : Evbuffer) (datlen : ℕ)
    → IsValid b
    → (d : Done (ℤ × List ℕ)) × (evbuffer_remove b datlen ≡ some d)
      × (d.value.0 ≡ to_int (length (d.value.1)))
      × (d.value.1 ≡ take datlen (contents b))
      × IsValid d.buf
      × (contents d.buf ≡ drop datlen (contents b))
      × (d.called ≡ change b (b.off - datlen))
unfolding evbuffer_remove
remove-take b datlen v =
    let n = remove_size b datlen in
    let (valid, rest, size, cb, called) = drain-drop b n v in
    (
      record {
        value = (to_int n, slice b.memory b.buffer n);
        buf = (evbuffer_drain b n).buf;
        called = (evbuffer_drain b n).called;
      },
      ground arith,
      ap to_int (sym (length-slice b.memory b.buffer n)),
      take-contents b datlen,
      valid,
      rest ∙ drop-remove_size b datlen,
      called ∙ ap (change b) (ground arith),
    )
