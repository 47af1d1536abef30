-- ===== src/Signal/Start.antt =====
-- The functions of epoll.cpp and signal.cpp together as the `struct eventop` of event.cpp, and event_base_new with
-- them.
use ilibevent.Base.{
  ◌>>=◌, ◌⊎◌, refl, [], is_some, Status, success, failure, ℕ, ◌≡◌, subst, ap, Bool, true, false,
  ◌==◌, Bool-cases, inl, inr, List, Option, none, some, arith, if◌then◌else◌,
}
use ilibevent.Base.Int.{ℤ}
use ilibevent.Time.{Timeval}
use ilibevent.TailQueue.{Slot, TailQueue}
use ilibevent.TailQueue.Links.{Linked}
use ilibevent.Event.Priorities.{init_lists-first, init_lists-last}
use ilibevent.TailQueue.Chain.{Distinct}
use ilibevent.State.{EventBase}
use ilibevent.Event.Setup.{event_set, allocated, init_lists}
use ilibevent.Event.Invariant.{nowhere, Inv}
use ilibevent.Event.Lifecycle.{Mechanism, event_base_new}
use ilibevent.Event.Creation.{Idle, other_fields-Inv, set_idle-Inv, event_base_new-Inv}
use ilibevent.Epoll.{Kernel, EpollBase, with_epollop, epollops}
use ilibevent.Epoll.Lifecycle.{epoll_init, epoll_dealloc, new_epollop}
use ilibevent.Signal.{nsig, Sigactions, EvsignalInfo, evsignal_init, evsignal_dealloc}
use ilibevent.Signal.Backend.{epoll_sig, with_epoll_sig, signals}

module _ {K T : Type 0} (kernel : Kernel K) (sys : Sigactions T) (close : K → K)
    (room room_entry : Bool) (fuel : ℕ) (created : Option K) (e : ℕ) (pair : Option (ℤ × ℤ)) where
  -- `room_signals` is for the allocations of evsignal_init, whose result epoll_init does not look at.
  abbrev with_signals :
      Bool
      → EventBase (EpollBase K (EvsignalInfo T))
      → Option (EventBase (EpollBase K (EvsignalInfo T)))
  with_signals room_signals b =
      evsignal_init sys epoll_sig with_epoll_sig room_signals b e pair >>= λ (_, b'). some b'

  -- The table `epollops`. `created` is what epoll_create gives, `e` the event that calloc gives for the socket,
  -- and `pair` what socketpair gives.
  unfoldable pub epoll_mechanism : Bool → Mechanism (EpollBase K (EvsignalInfo T))
  epoll_mechanism room_signals =
      let evsel = epollops kernel (signals kernel sys room room_entry fuel) room in
      record {
        evsel = evsel;
        need_reinit = true;
        init = epoll_init (with_signals room_signals) created room room room;
        dealloc = epoll_dealloc (evsignal_dealloc sys epoll_sig with_epoll_sig evsel) close;
        added_signal = λ s. if s.sig.ev_signal_added then some s.sig.ev_signal else none;
        clear_added = λ s. record s { sig = record (s.sig) { ev_signal_added = false } };
      }

  new_lists-Linked :
      (s : TailQueue) (first : Option ℕ) (last : ℕ → Slot)
      → Linked (init_lists (allocated (λ q. (first, last q)) nsig s) nsig) (λ _. [])
  new_lists-Linked s first last = record {
    chain = λ q. (
      ground (arith, init_lists-first (allocated (λ q. (first, last q)) nsig s) nsig q),
      ground (arith, init_lists-last (allocated (λ q. (first, last q)) nsig s) nsig q),
    );
    distinct = λ q. tt;
    apart = λ q r x h k. ground arith;
  }

  -- The state of a new backend: no descriptor is waited for, and if there is a socket no signal is.
  pub record Started (p : Option (ℤ × ℤ)) (s : EpollBase K (EvsignalInfo T)) : Type 0 where
    pub descriptor : K
    pub is_created : created ≡ some descriptor
    pub array : s.epollop ≡ new_epollop descriptor
    pub lists : is_some p ≡ true → Linked s.sig.evsigevents (λ _. [])

  module _ (known : List ℕ) (distinct : Distinct known) where
    -- What evsignal_init leaves behind the start of epoll_init.
    with_signals-Started :
        (b : EventBase (EpollBase K (EvsignalInfo T))) (k : K)
        → created ≡ some k
        → b.evbase.epollop ≡ new_epollop k
        → Idle b.event
        → Inv known nowhere b
        → (p : Option (ℤ × ℤ))
        → (status : Status) × (b' : EventBase (EpollBase K (EvsignalInfo T))) × (evsignal_init sys
              epoll_sig with_epoll_sig true b e p
            ≡ some (status, b'))
          × Inv known nowhere b'
          × Started p b'.evbase
    unfolding evsignal_init event_set
    with_signals-Started b k given same idle i none = (
      failure,
      _,
      refl,
      other_fields-Inv known distinct b b.event_tv _ i,
      record {
        descriptor = k;
        is_created = given;
        array = same;
        lists = λ h. absurd (ground arith);
      },
    )
    with_signals-Started b k given same idle i (some (write_end, read_end)) = (
      success,
      _,
      refl,
      set_idle-Inv known distinct b _ e _ i idle (λ x. elim (Bool-cases (x == e)) [
        | inl h ↦ (ground (arith, idle x), ground (arith, idle x), ground (arith, idle x))
        | inr h ↦ (ground (arith, idle x), ground (arith, idle x), ground (arith, idle x))
      ]),
      record {
        descriptor = k;
        is_created = given;
        array = same;
        lists =
            λ h. new_lists-Linked b.evbase.sig.evsigevents none b.evbase.sig.evsigevents.tqh_last;
      },
    )

    init-Begins :
        (c : Option K)
        → created ≡ c
        → (r : Bool) (b : EventBase (EpollBase K (EvsignalInfo T))) → Idle b.event
        → Inv known nowhere b
        → (q : Option (EventBase (EpollBase K (EvsignalInfo T)))) × (epoll_init
              (with_signals true)
              c
              r
              r
              r
              b
            ≡ some q)
          × ((b' : EventBase (EpollBase K (EvsignalInfo T)))
              → q ≡ some b'
              → Inv known nowhere b' × Started pair b'.evbase)
    unfolding epoll_init
    init-Begins none given r b idle i = (none, refl, λ b' h. absurd (ground arith))
    init-Begins (some k) given false b idle i = (none, refl, λ b' h. absurd (ground arith))
    init-Begins (some k) given true b idle i =
        let (status, c, run, inv, started) =
          with_signals-Started (with_epollop b (new_epollop k)) k given refl idle
            (other_fields-Inv known distinct b b.event_tv _ i) pair in
        (
          some c,
          ap (λ t. t >>= (λ x. some x.1) >>= λ b'. some (some b')) run,
          λ b' h.
              subst (λ x. Inv known nowhere x × Started pair x.evbase) (ap (or_base c) h)
                (inv, started),
        )
      where
        or_base :
            EventBase (EpollBase K (EvsignalInfo T))
            → Option (EventBase (EpollBase K (EvsignalInfo T)))
            → EventBase (EpollBase K (EvsignalInfo T))
        or_base d none = d
        or_base d (some x) = x

    -- event_base_new over epoll_init and evsignal_init, if there is memory for the base, its lists, and the event and
    -- the lists of evsignal_init, and the events of the program are on no queue, makes a base with one priority that
    -- satisfies the invariant, whatever the clock, epoll_create, socketpair and the allocations of epoll_init give and
    -- whatever new memory holds. The backend then has the new descriptor, an array without events and, if there is a
    -- socket, a valid empty list for each signal; or there is no backend, and event_base_new does not tell.
    pub event_base_new-epoll_mechanism :
        (lists : ℕ → Option ℕ × Slot) (clock : Option Timeval)
        (memory : EventBase (EpollBase K (EvsignalInfo T))) (blank : EpollBase K (EvsignalInfo T))
        → Idle memory.event
        → (b : EventBase (EpollBase K (EvsignalInfo T))) × (event_base_new
              (epoll_mechanism true)
              true
              lists
              clock
              memory
              blank
            ≡ some b)
          × Inv known nowhere b
          × (b.nactivequeues ≡ 1)
          × (Started pair b.evbase ⊎ (b.evbase ≡ blank))
    unfolding epoll_mechanism
    event_base_new-epoll_mechanism lists clock memory blank idle =
        event_base_new-Inv known distinct (epoll_mechanism true) (Started pair)
          (λ b. init-Begins created refl room b) lists clock memory blank idle
