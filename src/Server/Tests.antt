-- ===== src/Server/Tests.antt =====
-- The server's callback on a small base.
use ilibevent.Base.{◌≡◌, refl, arith, some, false}
use ilibevent.Base.Int.{pos}
use ilibevent.Event.Samples.{evsel}
use ilibevent.Bufferevent.State.{World}
use ilibevent.Bufferevent.Samples.{
  env, two_events, three, three-IsValid, full, calls, two_events-Usable,
}
use ilibevent.Buffer.{Evbuffer}
use ilibevent.Buffer.Expand.{IsValid}
use ilibevent.Server.{ServerClient, buffered_on_read}
use ilibevent.Server.Echo.{Echoed, buffered_on_read-Echoed}

-- Three bytes that no callback watches.
abbrev unwatched : Evbuffer
unwatched = record three { cb = false }

unwatched-IsValid : IsValid unwatched
unwatched-IsValid = record { aligned = refl; inside = omega arith; sized = omega arith }

-- Three bytes have arrived, and three from before are not yet sent.
abbrev served : World (Unit {0}) ServerClient
served = record {
  base = two_events;
  bufev = full;
  client = record { fd = pos 5; output_buffer = unwatched };
}

buffered_on_read-Echoed_example :
    (y : World (Unit {0}) ServerClient) × (buffered_on_read evsel env 4 served ≡ some y)
    × Echoed evsel env 1 2 calls refl served y
buffered_on_read-Echoed_example =
    buffered_on_read-Echoed evsel env 1 2 calls refl 4 served (omega arith) refl refl
      two_events-Usable three-IsValid unwatched-IsValid unwatched-IsValid (omega arith)
      (omega arith) (omega arith)
