-- ===== src/Epoll/Tests.antt =====
-- The epoll functions over a kernel that does what it is told, and the theorems at inputs that meet
-- their hypotheses.
use ilibevent.Base.{
  ℕ, ◌≤◌, ◌<◌, ◌≡◌, ◌*◌, ◌+◌, ◌⊎◌, refl, sym, ap, true, false, Option, none, some, List, [], ◌∷◌,
  arith, Status, success, update, ◌==◌, ◌>>=◌,
}
use ilibevent.Base.Int.{pos, ltb_ℤ}
use ilibevent.State.{no_mask, ev_read_mask, Event, EventBase, evlist_init}
use ilibevent.Event.Samples.{no_links, base, known, base-Inv}
use ilibevent.Event.Invariant.{nowhere, Inv}
use ilibevent.Epoll.Activation.{concerns, AllFit, Activates}
use ilibevent.Epoll.Dispatch.{epoll_dispatch-Activates}
use ilibevent.Epoll.Growth.{Sane}
use ilibevent.Epoll.Lifecycle.{new_epollop, epoll_init}
use ilibevent.Epoll.Use.{Used, opened, added, Used-Synced}
use ilibevent.Epoll.{
  Report, ready, Signals, epoll_dispatch, CtlOp, Interest, interrupted, Kernel, no_evepoll, Epollop,
  EpollBase, grow_nfds, wait_ms, epoll_recalc, enter, add_fd, del_fd,
}
use ilibevent.Epoll.Interests.{asked, told, KernelLaw, Synced}
use ilibevent.Epoll.Entry.{AddResult, add_fd-AddResult}
use ilibevent.Epoll.Removal.{DelResult, del_fd-DelResult}
use ilibevent.Epoll.Timeout.{wait_ms_bounds, wait_ms_wraps}

abbrev kernel : Kernel (ℕ → Option Interest)
kernel = record {
  epoll_ctl = λ k op fd i. (success, update k fd (asked op i));
  epoll_wait = λ k n ms. (interrupted, k);
}

told_so :
    (k : ℕ → Option Interest) (op : CtlOp) (fd : ℕ) (i : Interest) (x : ℕ)
    → update k fd (asked op i) x ≡ told success op i (fd == x) (k x)
told_so k op fd i x = ground arith

abbrev kernel_law : KernelLaw kernel
kernel_law = record { interest = λ k fd. k fd; effect = told_so }

-- Room for 32 descriptors, and event 9 waits to read from descriptor 5.
abbrev sample : Epollop (ℕ → Option Interest)
sample = record {
  fds = update (λ _. no_evepoll) 5 (record { evread = some 9; evwrite = none });
  nfds = 32;
  nevents = 32;
  kernel = update (λ _. none) 5 (some (record { epollin = true; epollout = false }));
}

sample-Synced : Synced kernel_law sample
sample-Synced fd = ground arith

abbrev reader : ℕ → Event
reader fd = record {
  ev_base = true;
  ev_fd = pos fd;
  ev_events = ev_read_mask;
  ev_ncalls = 0;
  ev_pncalls = false;
  ev_pri = 0;
  ev_callback = 0;
  ev_arg = 0;
  ev_res = no_mask;
  ev_flags = evlist_init;
}

grown : (add_fd kernel true sample 7 (reader 100) >>= λ r. some (r.1.nfds)) ≡ some 128
unfolding add_fd epoll_recalc grow_nfds enter
grown = refl

five_minutes : wait_ms (some (record { tv_sec = pos 300; tv_usec = pos 1 })) ≡ pos 300_001
unfolding wait_ms
five_minutes = refl

add_fd-AddResult_example :
    (status : Status) × (o : Epollop (ℕ → Option Interest)) × (add_fd kernel true sample 7
        (reader 100)
      ≡ some (status, o))
    × AddResult kernel_law sample 100 7 (reader 100) status o
add_fd-AddResult_example =
    add_fd-AddResult kernel_law true sample 100 7 (reader 100) refl (omega arith) refl
      (omega arith, omega arith) sample-Synced

del_fd-DelResult_example :
    (status : Status) × (o : Epollop (ℕ → Option Interest)) × (del_fd kernel sample (reader 5)
      ≡ some (status, o))
    × DelResult kernel_law sample 5 (reader 5) status o
del_fd-DelResult_example = del_fd-DelResult kernel_law sample 5 (reader 5) refl sample-Synced

wait_ms_bounds_example :
    (m : ℕ) × (wait_ms (some (record { tv_sec = pos 300; tv_usec = pos 1 })) ≡ pos m)
    × (m ≤ 2_100_000)
    × (m * 1000 < 300 * 1_000_000 + 1 + 1000)
    × ((300 * 1_000_000 + 1 ≤ m * 1000) ⊎ (m ≡ 2_100_000))
wait_ms_bounds_example = wait_ms_bounds 300 1 (omega arith) (omega arith)

wait_ms_wraps_example :
    ltb_ℤ (wait_ms (some (record { tv_sec = pos 2_147_484; tv_usec = pos 0 }))) (pos 0) ≡ true
wait_ms_wraps_example = wait_ms_wraps 2_147_484 0 (omega arith) (omega arith) (omega arith)

-- A base in which a descriptor has just been made.
abbrev begun : EventBase (EpollBase (ℕ → Option Interest) (Unit {0}))
begun = record {
  evbase = record { epollop = new_epollop (λ _. none); sig = tt };
  event = base.event;
  event_count = base.event_count;
  event_count_active = base.event_count_active;
  event_gotterm = false;
  event_break = false;
  nactivequeues = 0;
  eventqueue = no_links;
  activequeues = no_links;
  timeheap = base.timeheap;
  event_tv = base.event_tv;
  tv_cache = base.tv_cache;
  current_base = true;
  event_gotsig = false;
  ncalls = 0;
}

abbrev ignore :
    EventBase (EpollBase (ℕ → Option Interest) (Unit {0}))
    → Option (EventBase (EpollBase (ℕ → Option Interest) (Unit {0})))
ignore b = some b

ignore-quiet :
    (b b' : EventBase (EpollBase (ℕ → Option Interest) (Unit {0})))
    → ignore b ≡ some b'
    → b'.evbase.epollop ≡ b.evbase.epollop
ignore-quiet b b' run = ap (λ r. (or_base r).evbase.epollop) (sym run)
  where
    or_base :
        Option (EventBase (EpollBase (ℕ → Option Interest) (Unit {0})))
        → EventBase (EpollBase (ℕ → Option Interest) (Unit {0}))
    or_base none = b
    or_base (some c) = c

abbrev UsedHere : Epollop (ℕ → Option Interest) → Type 0
UsedHere = Used kernel kernel_law ignore ignore-quiet

begun-Used : UsedHere (new_epollop (λ _. none))
unfolding epoll_init
begun-Used =
    opened (some (λ _. none)) true true true begun begun (λ k same fd. ground (arith, same)) refl

-- Event 7 has been added for descriptor 5.
abbrev with_reader : Epollop (ℕ → Option Interest)
with_reader =
    record (new_epollop
      (update (λ _. none) 5 (some (record { epollin = true; epollout = false })))) {
        fds = update (λ _. no_evepoll) 5 (record { evread = some 7; evwrite = none });
      }

with_reader-Used : UsedHere with_reader
unfolding add_fd epoll_recalc enter
with_reader-Used =
    added (new_epollop (λ _. none)) with_reader true 7 5 (reader 5) success begun-Used refl
      (omega arith) refl refl

Used-Synced_example : Synced kernel_law with_reader × Sane with_reader
Used-Synced_example = Used-Synced kernel kernel_law ignore ignore-quiet with_reader with_reader-Used

-- A kernel that always reports that descriptor 5 can be read.
abbrev readable : List Report
readable = record { fd = pos 5; broken = false; epollin = true; epollout = false } ∷ []

abbrev reporting : Kernel (ℕ → Option Interest)
reporting = record {
  epoll_ctl = λ k op fd i. (success, k);
  epoll_wait = λ k n ms. (ready readable, k);
}

abbrev uncaught : Signals (ℕ → Option Interest) (Unit {0})
uncaught = record {
  evsignal_add = λ b e. none;
  evsignal_del = λ b e. none;
  evsignal_caught = λ s. false;
  evsignal_process = λ b. none;
}

-- Event 1 waits to read from descriptor 5.
abbrev expecting : EventBase (EpollBase (ℕ → Option Interest) (Unit {0}))
expecting = record begun {
  nactivequeues = 1;
  evbase = record {
    epollop = record (new_epollop (λ _. none)) {
      fds = update (λ _. no_evepoll) 5 (record { evread = some 1; evwrite = none });
    };
    sig = tt;
  };
}

expecting-Inv : Inv known nowhere expecting
expecting-Inv = record {
  inserted_linked = base-Inv.inserted_linked;
  active_linked = base-Inv.active_linked;
  heap = base-Inv.heap;
  on_inserted = base-Inv.on_inserted;
  on_active = base-Inv.on_active;
  priority = base-Inv.priority;
  on_heap = base-Inv.on_heap;
  off_heap = base-Inv.off_heap;
  distinct = base-Inv.distinct;
  all_known = base-Inv.all_known;
  counted = base-Inv.counted;
  counted_active = base-Inv.counted_active;
}

expecting-AllFit : AllFit known expecting.evbase.epollop expecting
expecting-AllFit fd e room h = record {
  is_known = ground arith;
  based = refl;
  priority = omega arith;
}

epoll_dispatch-Activates_example :
    (b : EventBase (EpollBase (ℕ → Option Interest) (Unit {0}))) × (epoll_dispatch reporting
        uncaught true expecting none
      ≡ some (success, b))
    × Activates known (concerns expecting.evbase.epollop readable) expecting b
    × (b.evbase.epollop.fds ≡ expecting.evbase.epollop.fds)
    × (b.evbase.epollop.nfds ≡ expecting.evbase.epollop.nfds)
epoll_dispatch-Activates_example =
    epoll_dispatch-Activates reporting uncaught true known nowhere expecting none readable
      (λ _. none) expecting-Inv expecting-AllFit refl refl
