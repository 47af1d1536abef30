-- ===== src/Buffer.antt =====
-- include/buffer.cpp and include/buffer.hpp: the byte queue `evbuffer`.
-- Every pointer of an evbuffer points into one heap block, which starts at `orig_buffer`. The
-- block is the function `memory` from offsets to bytes, and it has `totallen` bytes; `buffer` is an
-- offset into it. A NULL `orig_buffer` is a block of no bytes. An access outside the block is a
-- fault, and so is a loop that does not end. A size_t wraps at 2 ^ 64.
-- The callback is called at most once by a function, as the last thing that it does; a function
-- therefore returns the arguments of that call, `called`, and the caller runs it.
pub mod Grow
pub mod Expand
pub mod Contents
pub mod Io
mod Tests
use ilibevent.Base.{
  ℕ, zero, suc, ◌+◌, ◌-◌, ◌*◌, ◌%◌, ◌^◌, Bool, true, false, not, ◌&&◌, ◌||◌, Option, none, some,
  List, ltb, leb, ◌==◌, if◌then◌else◌, ◌>>=◌, ◌>>◌, check, Status, success, failure, length, get_or,
  slice,
}
use ilibevent.Base.Int.{ℤ, pos, negsuc, to_int, ltb_ℤ}

abbrev pub size_mod : ℕ
size_mod = 2 ^ 64

-- EVBUFFER_MAX_READ
abbrev pub evbuffer_max_read : ℕ
evbuffer_max_read = 4096

-- `cb` says whether the callback is set; what it points to belongs to the client.
pub record Evbuffer : Type 0 where
  pub memory : ℕ → ℕ
  pub buffer : ℕ
  pub misalign : ℕ
  pub totallen : ℕ
  pub off : ℕ
  pub cb : Bool

-- The outcome of a function: its buffer, its `int`, and the (old, new) of a call of `cb`.
pub record Done (A : Type 0) : Type 0 where
  pub value : A
  pub buf : Evbuffer
  pub called : Option (ℕ × ℕ)

-- The bytes in the queue, oldest first.
abbrev pub contents : Evbuffer → List ℕ
contents b = slice b.memory b.buffer b.off

-- calloc: all zero, and no block.
unfoldable pub evbuffer_new : Evbuffer
evbuffer_new = record {
  memory = λ _. 0;
  buffer = 0;
  misalign = 0;
  totallen = 0;
  off = 0;
  cb = false;
}

-- memmove(dst, src, n) inside the block, and memcpy of a list of bytes into it.
abbrev pub memmove : (ℕ → ℕ) → ℕ → ℕ → ℕ → ℕ → ℕ
memmove m dst src n i = if leb dst i && ltb i (dst + n) then m (src + (i - dst)) else m i

abbrev pub memcpy : (ℕ → ℕ) → ℕ → List ℕ → ℕ → ℕ
memcpy m dst bytes i =
    if leb dst i && ltb i (dst + length bytes) then get_or bytes (i - dst) 0 else m i

abbrev pub fits : Evbuffer → ℕ → ℕ → Option (Unit {0})
fits b start n = check (leb (start + n) b.totallen)

unfoldable pub evbuffer_align : Evbuffer → Option Evbuffer
evbuffer_align b =
    fits b b.buffer b.off
    >> some (record b { memory = memmove b.memory 0 b.buffer b.off; buffer = 0; misalign = 0 })

-- `while (length < need) length <<= 1;`
unfoldable pub grow : ℕ → ℕ → ℕ → Option ℕ
grow zero length need = none
grow (suc fuel) length need =
    let more = grow fuel (length * 2 % size_mod) need in
    if ltb length need then more else some length

abbrev pub start_length : ℕ → ℕ
start_length totallen = if ltb totallen 256 then 256 else totallen

-- The size that is needed for `datlen` more bytes.
abbrev pub needed : Evbuffer → ℕ → ℕ
needed b datlen = (b.misalign + b.off + datlen) % size_mod

-- The last part of evbuffer_expand: align, and realloc to `length`. `granted` says whether realloc
-- succeeds; it keeps the bytes of the old block.
unfoldable pub enlarge : Bool → Evbuffer → ℕ → Option (Status × Evbuffer)
enlarge granted b length = (if not (b.buffer == 0) then evbuffer_align b else some b) >>= λ a.
    if granted
    then some (success, record a { buffer = 0; totallen = length })
    else some (failure, a)

-- From 256, 55 rounds of the loop reach 2 ^ 63: 64 is fuel enough.
unfoldable pub evbuffer_expand : Bool → Evbuffer → ℕ → Option (Status × Evbuffer)
evbuffer_expand granted b datlen =
    if leb (needed b datlen) b.totallen
    then some (success, b)
    else if leb datlen b.misalign
    then (evbuffer_align b >>= λ a. some (success, a))
    else (grow 64 (start_length b.totallen) (needed b datlen) >>= enlarge granted b)

unfoldable pub evbuffer_add : Bool → Evbuffer → List ℕ → Option (Done Status)
evbuffer_add granted b bytes =
    (if ltb b.totallen (needed b (length bytes))
      then evbuffer_expand granted b (length bytes)
      else some (success, b))
    >>= λ (status, e). elim status [
      | failure ↦ some (record { value = failure; buf = e; called = none })
      | success ↦
          fits e (e.buffer + e.off) (length bytes)
          >> some (record {
            value = success;
            buf = record e {
              memory = memcpy e.memory (e.buffer + e.off) bytes;
              off = (e.off + length bytes) % size_mod;
            };
            called =
                if not (length bytes == 0) && e.cb
                then some (b.off, (e.off + length bytes) % size_mod)
                else none;
          })
    ]

unfoldable pub drained : Evbuffer → ℕ → Evbuffer
drained b len =
    if leb b.off len
    then record b { off = 0; buffer = 0; misalign = 0 }
    else record b { buffer = b.buffer + len; misalign = b.misalign + len; off = b.off - len }

unfoldable pub evbuffer_drain : Evbuffer → ℕ → Done (Unit {0})
unfolding drained
evbuffer_drain b len = record {
  value = tt;
  buf = drained b len;
  called =
      if not ((drained b len).off == b.off) && b.cb
      then some (b.off, (drained b len).off)
      else none;
}

abbrev pub remove_size : Evbuffer → ℕ → ℕ
remove_size b datlen = if leb b.off datlen then b.off else datlen

-- The number that is returned, a size_t made an int, and the bytes that are copied out.
unfoldable pub evbuffer_remove : Evbuffer → ℕ → Option (Done (ℤ × List ℕ))
evbuffer_remove b datlen =
    let nread = remove_size b datlen in
    let d = evbuffer_drain b nread in
    fits b b.buffer nread
    >> some (record {
      value = (to_int nread, slice b.memory b.buffer nread);
      buf = d.buf;
      called = d.called;
    })

-- What read(2) and write(2) report.
pub data Received : Type 0 where
  io_error : Received
  io_bytes : List ℕ → Received

pub data Sent : Type 0 where
  io_error : Sent
  io_sent : ℕ → Sent

-- How many bytes to ask for: `pending` is what FIONREAD reports, `none` for an error.
unfoldable pub read_limit : Evbuffer → Option ℤ → ℤ → ℕ
read_limit b none howmuch = evbuffer_max_read
read_limit b (some (negsuc _)) howmuch = evbuffer_max_read
read_limit b (some (pos n)) howmuch =
    if n == 0
    then evbuffer_max_read
    else if ltb evbuffer_max_read n && ltb_ℤ howmuch (pos n)
    then (let quadruple = b.totallen * 4 % size_mod in
        let capped = if ltb quadruple n then quadruple else n in
        if ltb capped evbuffer_max_read then evbuffer_max_read else capped)
    else n

unfoldable pub clamp_howmuch : ℤ → ℕ → ℕ
clamp_howmuch (negsuc _) n = n
clamp_howmuch (pos h) n = if ltb n h then n else h

-- The result of evbuffer_read: -1, 0 at the end of the stream, or the number of bytes.
pub data ReadResult : Type 0 where
  read_failed read_eof : ReadResult
  read_some : ℕ → ReadResult

store_read : Evbuffer → ℕ → Received → Option (Done ReadResult)
store_read e oldoff Received.io_error =
    some (record { value = read_failed; buf = e; called = none })
store_read e oldoff (io_bytes bytes) =
    if length bytes == 0
    then some (record { value = read_eof; buf = e; called = none })
    else (fits e (e.buffer + e.off) (length bytes)
        >> some (record {
          value = read_some (length bytes);
          buf = record e {
            memory = memcpy e.memory (e.buffer + e.off) bytes;
            off = (e.off + length bytes) % size_mod;
          };
          called =
              if not ((e.off + length bytes) % size_mod == oldoff) && e.cb
              then some (oldoff, (e.off + length bytes) % size_mod)
              else none;
        }))

-- `read` is read(2) on the descriptor, from the number of bytes asked for.
unfoldable pub evbuffer_read :
    Bool → Option ℤ → (ℕ → Received) → Evbuffer → ℤ → Option (Done ReadResult)
unfolding store_read
evbuffer_read granted pending read b howmuch =
    let n = clamp_howmuch howmuch (read_limit b pending howmuch) in
    evbuffer_expand granted b n >>= λ (status, e). elim status [
      | failure ↦ some (record { value = read_failed; buf = e; called = none })
      | success ↦ store_read e b.off (read n)
    ]

-- `write` is write(2) on the descriptor, from the bytes that it is given.
unfoldable pub evbuffer_write : (List ℕ → Sent) → Evbuffer → Option (Done ReadResult)
evbuffer_write write b = fits b b.buffer b.off >> elim (write (contents b)) [
  | io_error ↦ some (record { value = read_failed; buf = b; called = none })
  | io_sent n ↦
      let d = evbuffer_drain b n in
      if n == 0
      then some (record { value = read_eof; buf = b; called = none })
      else some (record { value = read_some n; buf = d.buf; called = d.called })
]

unfoldable pub evbuffer_setcb : Evbuffer → Bool → Evbuffer
evbuffer_setcb b cb = record b { cb = cb }
