-- ===== src/Epoll/Lifecycle.antt =====
-- epoll_init and epoll_dealloc of include/epoll.cpp. What epoll_create gives, the calls of malloc and calloc, close(2)
-- and the functions of include/signal.cpp are parameters. fcntl only writes to the log when it fails, and what `free`
-- takes away is not modelled.
use ilibevent.Base.{Bool, ◌&&◌, Option, none, some, if◌then◌else◌, ◌>>=◌}
use ilibevent.State.{EventBase}
use ilibevent.Epoll.{no_evepoll, Epollop, EpollBase, with_epollop}

-- The `struct epollop` of a new epoll descriptor: INITIAL_NFILES entries and room for INITIAL_NEVENTS reports.
abbrev pub new_epollop : {K : Type 0} → K → Epollop K
new_epollop k = record { fds = λ _. no_evepoll; nfds = 32; nevents = 32; kernel = k }

-- memset(epollop, 0, sizeof(struct epollop))
abbrev cleared : {K : Type 0} → K → Epollop K
cleared k = record { fds = λ _. no_evepoll; nfds = 0; nevents = 0; kernel = k }

module _ {K S : Type 0} where
  -- The three Booleans say whether there is memory for the `struct epollop`, the reports and the array; NULL is `some none`, and
  -- `none` a fault in `evsignal_init`.
  unfoldable pub epoll_init :
      (EventBase (EpollBase K S) → Option (EventBase (EpollBase K S)))
      → Option K
      → Bool
      → Bool
      → Bool
      → EventBase (EpollBase K S)
      → Option (Option (EventBase (EpollBase K S)))
  epoll_init evsignal_init none room room_events room_fds b = some none
  epoll_init evsignal_init (some k) room room_events room_fds b =
      if room && (room_events && room_fds)
      then (evsignal_init (with_epollop b (new_epollop k)) >>= λ b'. some (some b'))
      else some none

  unfoldable pub epoll_dealloc :
      (EventBase (EpollBase K S) → Option (EventBase (EpollBase K S)))
      → (K → K)
      → EventBase (EpollBase K S)
      → Option (EventBase (EpollBase K S))
  epoll_dealloc evsignal_dealloc close b =
      evsignal_dealloc b >>= λ b'. some (with_epollop b' (cleared (close b'.evbase.epollop.kernel)))
