-- ===== src/Bufferevent/Tests.antt =====
-- The functions of a bufferevent on a small base, and the theorems at inputs that meet their hypotheses.
use ilibevent.Base.{
  ℕ, ◌≡◌, refl, arith, [], ◌∷◌, List, some, true, false, Status, zero, suc, ◌+◌, ◌≤◌, ◌<◌, ◌^◌,
}
use ilibevent.Base.Int.{pos}
use ilibevent.State.{ev_read_mask, ev_write_mask}
use ilibevent.Buffer.{evbuffer_new, clamp_howmuch, read_limit, Received, io_bytes, Sent, io_sent}
use ilibevent.Buffer.Io.{Delivers}
use ilibevent.Event.Samples.{evsel}
use ilibevent.Bufferevent.State.{World, Client}
use ilibevent.Bufferevent.Io.{bufferevent_write, bufferevent_write_buffer}
use ilibevent.Bufferevent.Setup.{bufferevent_enable}
use ilibevent.Bufferevent.Callbacks.{bufferevent_writecb}
use ilibevent.Bufferevent.Bytes.{Writes, write-Writes, Transfers, write_buffer-Transfers}
use ilibevent.Bufferevent.Settling.{Stopped}
use ilibevent.Bufferevent.Reading.{ReadCases, readcb-ReadCases, result, ask}
use ilibevent.Bufferevent.Watermarks.{Within, readcb-Within, readcb_stalls}
use ilibevent.Bufferevent.Writing.{WriteCases, writecb-WriteCases}
use ilibevent.Bufferevent.Reverting.{Reverts, enable-Reverts}
use ilibevent.Bufferevent.Samples.{
  env, two_events, three, three-IsValid, full, calls, two_events-Usable,
}

abbrev world : World (Unit {0}) ℕ
world = record { base = two_events; bufev = full; client = 0 }

-- A client that counts its calls.
abbrev counter : Client (Unit {0}) ℕ
counter = record {
  readcb = λ w. some (record w { client = suc w.client });
  writecb = λ w. some (record w { client = suc w.client });
  errorcb = λ w what. some (record w { client = suc w.client });
}

write-Writes_example :
    Writes evsel env 1 2 calls world (7 ∷ 8 ∷ []) (bufferevent_write evsel env world (7 ∷ 8 ∷ []))
write-Writes_example =
    write-Writes evsel env 1 2 calls world (7 ∷ 8 ∷ []) refl two_events-Usable
      (record { aligned = refl; inside = omega arith; sized = omega arith }) (omega arith)

write_buffer-Transfers_example :
    Transfers evsel env 1 2 calls world three (bufferevent_write_buffer evsel env world three)
write_buffer-Transfers_example =
    write_buffer-Transfers evsel env 1 2 calls world three refl two_events-Usable
      (record { aligned = refl; inside = omega arith; sized = omega arith }) three-IsValid
      (omega arith)

-- One byte arrives, if any is asked for.
abbrev one_byte : ℕ → Received
one_byte zero = io_bytes []
one_byte (suc n) = io_bytes (42 ∷ [])

one_byte-Delivers : Delivers one_byte
one_byte-Delivers zero bytes h = ground arith
one_byte-Delivers (suc n) bytes h = ground arith

-- Room for five bytes more.
abbrev roomy : World (Unit {0}) ℕ
roomy = record world { bufev = record full { wm_read = record { low = 0; high = 8 } } }

room :
    three.misalign
      + three.off
      + ask evsel counter env 1 2 calls false (some (pos 1)) one_byte ev_read_mask roomy
    ≤ 2 ^ 63
unfolding clamp_howmuch read_limit
room = omega arith

readcb-ReadCases_example :
    ReadCases evsel counter env 1 2 calls false
      (some (pos 1))
      one_byte
      ev_read_mask
      roomy
      (result evsel counter env 1 2 calls false (some (pos 1)) one_byte ev_read_mask roomy)
readcb-ReadCases_example =
    readcb-ReadCases evsel counter env 1 2 calls false (some (pos 1)) one_byte ev_read_mask roomy
      refl two_events-Usable (omega arith) (λ h. omega arith) one_byte-Delivers three-IsValid room

readcb-Within_example :
    Within evsel counter env 1 2 calls false
      (some (pos 1))
      one_byte
      ev_read_mask
      roomy
      refl
      two_events-Usable
      (omega arith)
      (λ h. omega arith)
      (result evsel counter env 1 2 calls false (some (pos 1)) one_byte ev_read_mask roomy)
readcb-Within_example =
    readcb-Within evsel counter env 1 2 calls false (some (pos 1)) one_byte ev_read_mask roomy refl
      two_events-Usable (omega arith) (λ h. omega arith) one_byte-Delivers three-IsValid room
      (λ p. ground arith) (omega arith)

-- An empty queue below a high watermark of 2 ^ 31.
abbrev vast : World (Unit {0}) ℕ
vast = record world {
  bufev = record full { input = evbuffer_new; wm_read = record { low = 0; high = 2147483648 } };
}

nothing_queued : evbuffer_new.off + 2 ^ 31 ≤ 2147483648
unfolding evbuffer_new
nothing_queued = omega arith

above_queued : 2147483648 < evbuffer_new.off + 2 ^ 32
above_queued = omega arith

readcb_stalls_example :
    (y : World (Unit {0}) ℕ) × (result evsel counter env 1 2 calls false
        (some (pos 1))
        one_byte
        ev_read_mask
        vast
      ≡ some y)
    × Stopped evsel counter env 1 2 calls vast true y
readcb_stalls_example =
    readcb_stalls evsel counter env 1 2 calls false (some (pos 1)) one_byte ev_read_mask vast refl
      two_events-Usable nothing_queued above_queued refl

-- A descriptor that takes two bytes at a time.
abbrev two_taken : List ℕ → Sent
two_taken bytes = io_sent 2

writecb-WriteCases_example :
    WriteCases evsel counter env 1 2 calls false two_taken ev_write_mask world
      (bufferevent_writecb evsel counter env two_taken false ev_write_mask world)
writecb-WriteCases_example =
    writecb-WriteCases evsel counter env 1 2 calls false two_taken ev_write_mask world refl
      two_events-Usable (record { aligned = refl; inside = omega arith; sized = omega arith })

enable-Reverts_example :
    (s : Status) × (y : World (Unit {0}) ℕ) × (bufferevent_enable evsel env world ev_read_mask
      ≡ some (s, y))
    × Reverts evsel env 1 2 calls world ev_read_mask s y
enable-Reverts_example =
    enable-Reverts evsel env 1 2 calls world ev_read_mask refl refl two_events-Usable
