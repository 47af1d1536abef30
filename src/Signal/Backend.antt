-- ===== src/Signal/Backend.antt =====
-- The functions of include/signal.cpp as include/epoll.cpp calls them. The event `ev_signal` waits for a
-- descriptor, so that epoll.cpp adds it without signal.cpp.
use ilibevent.Base.{ℕ, Bool, false, none}
use ilibevent.State.{Eventop}
use ilibevent.Epoll.{Kernel, EpollBase, Signals, epollops}
use ilibevent.Signal.{Sigactions, EvsignalInfo, evsignal_add, evsignal_del, evsignal_process}

module _ {K T : Type 0} where
  abbrev pub epoll_sig : EpollBase K (EvsignalInfo T) → EvsignalInfo T
  epoll_sig b = b.sig

  abbrev pub with_epoll_sig :
      EpollBase K (EvsignalInfo T) → EvsignalInfo T → EpollBase K (EvsignalInfo T)
  with_epoll_sig b s = record b { sig = s }

  -- An event for a signal would be a fault.
  abbrev pub no_signals : Signals K (EvsignalInfo T)
  no_signals = record {
    evsignal_add = λ b e. none;
    evsignal_del = λ b e. none;
    evsignal_caught = λ s. false;
    evsignal_process = λ b. none;
  }

  abbrev pub descriptors_only : Kernel K → Bool → Eventop (EpollBase K (EvsignalInfo T))
  descriptors_only kernel room = epollops kernel no_signals room

  -- event_del in evsignal_process is for events of signals, and so it comes back to evsignal_del.
  abbrev pub signals_only : Kernel K → Sigactions T → Bool → Eventop (EpollBase K (EvsignalInfo T))
  signals_only kernel sys room =
      epollops kernel
        (record no_signals { evsignal_del = evsignal_del sys epoll_sig with_epoll_sig }) room

  -- What epoll.cpp calls; `fuel` is for the events of one signal.
  abbrev pub signals : Kernel K → Sigactions T → Bool → Bool → ℕ → Signals K (EvsignalInfo T)
  signals kernel sys room room_entry fuel = record {
    evsignal_add =
        evsignal_add sys epoll_sig with_epoll_sig (descriptors_only kernel room) room room_entry;
    evsignal_del = evsignal_del sys epoll_sig with_epoll_sig;
    evsignal_caught = λ s. s.evsignal_caught;
    evsignal_process =
        evsignal_process sys epoll_sig with_epoll_sig (signals_only kernel sys room) fuel;
  }
