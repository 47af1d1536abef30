-- ===== src/Signal/Tests.antt =====
-- The functions for signals on a small base.
use ilibevent.Base.{
  ◌⊎◌, ℕ, ◌+◌, ◌≡◌, refl, sym, ap, arith, ◌==◌, if◌then◌else◌, true, false, [], ◌∷◌, Option, none,
  some, Status, success, update,
}
use ilibevent.Base.Int.{pos}
use ilibevent.TailQueue.{next_of}
use ilibevent.TailQueue.Links.{Linked}
use ilibevent.State.{Eventop}
use ilibevent.Event.Samples.{idle, no_links, base}
use ilibevent.Epoll.{no_evepoll, EpollBase}
use ilibevent.Signal.{Sigactions, EvsignalInfo, ev_signal_mask, evsignal_add}
use ilibevent.Signal.Backend.{epoll_sig, with_epoll_sig}
use ilibevent.Signal.Handlers.{Law}
use ilibevent.Event.Invariant.{nowhere, Inv}
use ilibevent.Event.Lifecycle.{event_base_new}
use ilibevent.Event.Creation.{Idle}
use ilibevent.Epoll.{Kernel, interrupted}
use ilibevent.Signal.Start.{epoll_mechanism, Started, event_base_new-epoll_mechanism}
use ilibevent.Signal.RoundTrip.{SignalBase, Added, evsignal_add-Added}

-- A table of dispositions that can always be changed.
abbrev table : Sigactions (ℕ → ℕ)
table = record { sigaction = λ t n h. some (t n, λ x. if x == n then h else t x) }

abbrev at : (ℕ → ℕ) → ℕ → ℕ
at t = t

-- What the new table has for a signal.
abbrev entry : Option (ℕ × (ℕ → ℕ)) → ℕ → ℕ
entry none x = 0
entry (some p) x = p.1 x

table-Law : Law table at
table-Law = record {
  old = λ t n h o t' run. ground arith;
  new = λ t n h o t' run x. ap (λ r. entry r x) (sym run);
}

abbrev quiet : EvsignalInfo (ℕ → ℕ)
quiet = record {
  ev_signal = 1;
  ev_signal_added = true;
  ev_signal_read = pos 8;
  ev_signal_write = pos 7;
  evsignal_caught = false;
  evsigcaught = λ _. 0;
  evsigevents = no_links;
  sh_old = λ _. none;
  sh_old_max = 0;
  evsignal_base = true;
  dispositions = λ n. n + 100;
}

-- Event 2 is for SIGINT.
abbrev interruptible : SignalBase (Unit {0}) (ℕ → ℕ)
interruptible = record {
  evbase = record {
    epollop = record { fds = λ _. no_evepoll; nfds = 32; nevents = 32; kernel = tt };
    sig = quiet;
  };
  event = update base.event 2 (record idle { ev_fd = pos 2; ev_events = ev_signal_mask });
  event_count = base.event_count;
  event_count_active = base.event_count_active;
  event_gotterm = false;
  event_break = false;
  nactivequeues = 1;
  eventqueue = no_links;
  activequeues = no_links;
  timeheap = base.timeheap;
  event_tv = base.event_tv;
  tv_cache = base.tv_cache;
  current_base = true;
  event_gotsig = false;
  ncalls = 0;
}

abbrev evsel : Eventop (EpollBase (Unit {0}) (EvsignalInfo (ℕ → ℕ)))
evsel = record {
  add = λ b e. some (success, b);
  del = λ b e. some (success, b);
  dispatch = λ b tv. some (success, b);
}

no_links-Linked : Linked no_links (λ _. [])
no_links-Linked = record {
  chain = λ q. (refl, refl);
  distinct = λ q. tt;
  apart = λ q r e h k. ground arith;
}

evsignal_add-Added_example :
    (status : Status) × (b' : SignalBase (Unit {0}) (ℕ → ℕ)) × (evsignal_add table epoll_sig
        with_epoll_sig evsel true true interruptible 2
      ≡ some (status, b'))
    × Added table at table-Law evsel true true
        (λ _. [])
        interruptible
        2
        2
        no_links-Linked
        refl
        (λ r. refl)
        refl
        refl
        refl
        status
        b'
evsignal_add-Added_example =
    evsignal_add-Added table at table-Law evsel true true (λ _. []) interruptible 2 2
      no_links-Linked refl (λ r. refl) refl refl refl

-- A kernel that does nothing.
abbrev kernel : Kernel (Unit {0})
kernel = record { epoll_ctl = λ k op fd i. (success, k); epoll_wait = λ k n ms. (interrupted, k) }

interruptible-Idle : Idle interruptible.event
interruptible-Idle e = (ground arith, ground arith, ground arith)

event_base_new-epoll_mechanism_example :
    (b : SignalBase (Unit {0}) (ℕ → ℕ)) × (event_base_new
        (epoll_mechanism kernel table (λ k. k) true true 8 (some tt) 1 (some (pos 7, pos 8)) true)
        true
        (λ q. (some 9, next_of q))
        none
        interruptible
        interruptible.evbase
      ≡ some b)
    × Inv (1 ∷ 2 ∷ []) nowhere b
    × (b.nactivequeues ≡ 1)
    × (Started kernel table
          (λ k. k)
          true
          true
          8
          (some tt)
          1
          (some (pos 7, pos 8))
          (some (pos 7, pos 8))
          b.evbase
        ⊎ (b.evbase ≡ interruptible.evbase))
event_base_new-epoll_mechanism_example =
    event_base_new-epoll_mechanism kernel table (λ k. k) true true 8 (some tt) 1
      (some (pos 7, pos 8)) (1 ∷ 2 ∷ []) (refl, (refl, tt)) (λ q. (some 9, next_of q)) none
      interruptible interruptible.evbase interruptible-Idle
