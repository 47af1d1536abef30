-- ===== src/Signal/RoundTrip.antt =====
-- evsignal_add of the first event of a signal, and evsignal_del of it.
use ilibevent.Base.{
  ℕ, ◌≡◌, refl, sym, ap, subst, ◌∙◌, inl, inr, Bool, true, false, List, [], ◌∷◌, ◌++◌, Option, some,
  is_some, arith, ◌==◌, Bool-cases, if◌then◌else◌, Status, success, failure, update, check, ◌>>◌,
  ◌>>=◌,
}
use ilibevent.TailQueue.{insert_tail, remove}
use ilibevent.TailQueue.Chain.{has, has-append}
use ilibevent.TailQueue.Links.{Linked, insert_tail-append, remove-erase}
use ilibevent.State.{EventBase, Eventop}
use ilibevent.Epoll.{EpollBase}
use ilibevent.Signal.{
  handler_id, Sigactions, EvsignalInfo, signal_number, set_handler, restore_handler, add_ev_signal,
  evsignal_add, evsignal_del,
}
use ilibevent.Signal.Backend.{epoll_sig, with_epoll_sig}
use ilibevent.Signal.Handlers.{Law, HandlerSet, set_handler-HandlerSet, restore_handler-restores}
use ilibevent.Signal.Emptied.{in_and_out, empty_head}

abbrev pub SignalBase : Type 0 → Type 0 → Type 0
SignalBase K T = EventBase (EpollBase K (EvsignalInfo T))

module _ {K T : Type 0} (sys : Sigactions T) (at : T → ℕ → ℕ) (law : Law sys at) where
  -- The dispositions of a base.
  abbrev pub disposition : SignalBase K T → ℕ → ℕ
  disposition b = at b.evbase.sig.dispositions

  abbrev pub del : SignalBase K T → ℕ → Option (Status × SignalBase K T)
  del b e = evsignal_del sys epoll_sig with_epoll_sig b e

  -- What evsignal_del leaves of a base to which the first event of a signal has been added.
  abbrev pub Undone : (ℕ → List ℕ) → SignalBase K T → SignalBase K T → ℕ → Type 0
  Undone lists b b' e =
      (status : Status) × (b'' : SignalBase K T) × (del b' e ≡ some (status, b''))
      × Linked b''.evbase.sig.evsigevents lists
      × (status ≡ success → (x : ℕ) → disposition b'' x ≡ disposition b x)

  module _ (evsel : Eventop (EpollBase K (EvsignalInfo T))) (room : Bool) (room_entry : Bool)
      (lists : ℕ → List ℕ) (b : SignalBase K T) (e n : ℕ)
      (v : Linked b.evbase.sig.evsigevents lists) (first : lists n ≡ [])
      (fresh : (r : ℕ) → has e (lists r) ≡ false) (based : (b.event e).ev_base ≡ true)
      (number : signal_number (b.event e).ev_fd ≡ some n)
      (added : b.evbase.sig.ev_signal_added ≡ true) where
    abbrev set : Status × EvsignalInfo T
    set = set_handler sys room room_entry b.evbase.sig n handler_id

    abbrev handled : SignalBase K T
    handled = record b {
      evbase = record (b.evbase) { sig = record set.1 { evsignal_base = true } };
    }

    abbrev listed : SignalBase K T
    listed = record handled {
      evbase = record (handled.evbase) {
        sig = record (handled.evbase.sig) {
          evsigevents = insert_tail handled.evbase.sig.evsigevents n e;
        };
      };
    }

    pub record Added (status : Status) (b' : SignalBase K T) : Type 0 where
      pub undisturbed : status ≡ failure → (x : ℕ) → disposition b' x ≡ disposition b x
      pub handled : status ≡ success → disposition b' n ≡ handler_id
      pub others : (x : ℕ) → (x == n) ≡ false → disposition b' x ≡ disposition b x
      pub undone : status ≡ success → Undone lists b b' e

    s : HandlerSet sys at law b.evbase.sig n handler_id set.0 set.1
    s = set_handler-HandlerSet sys at law room room_entry b.evbase.sig n handler_id

    linked : Linked listed.evbase.sig.evsigevents (update lists n (lists n ++ e ∷ []))
    linked =
        insert_tail-append set.1.evsigevents lists (subst (λ q. Linked q lists) (sym s.lists) v) n e
          fresh

    -- The event is off the list again.
    abbrev unlisted : EvsignalInfo T
    unlisted = record (listed.evbase.sig) { evsigevents = remove listed.evbase.sig.evsigevents n e }

    unlinked : Linked unlisted.evsigevents lists
    unlinked = subst (Linked unlisted.evsigevents) (in_and_out lists n e first) (
        remove-erase listed.evbase.sig.evsigevents (update lists n (lists n ++ e ∷ [])) linked n e
          present)
      where
        present : has e (update lists n (lists n ++ e ∷ []) n) ≡ true
        present = ground (arith, has-append e (lists n) (e ∷ []))

    -- The parts of evsignal_del behind the list, and of evsignal_add.
    abbrev restored : EvsignalInfo T → Status × EvsignalInfo T → Option (Status × SignalBase K T)
    restored u p = some (p.0, record listed { evbase = record (listed.evbase) { sig = p.1 } })

    abbrev leave : ℕ → Option (Status × SignalBase K T)
    leave k =
        (let u = record (listed.evbase.sig) {
          evsigevents = remove listed.evbase.sig.evsigevents k e;
        } in
          if is_some (u.evsigevents.tqh_first k)
          then some (success, record listed { evbase = record (listed.evbase) { sig = u } })
          else (restore_handler sys u k >>= restored u))

    undo : set.0 ≡ success → Undone lists b listed e
    unfolding evsignal_del
    undo ok =
        let (t, u, run, same, gone, back) =
          restore_handler-restores sys at law unlisted n (disposition b n) (s.inside ok)
            (s.kept ok) in
        (
          t,
          record listed { evbase = record (listed.evbase) { sig = u } },
          ap (λ c. check c >> (signal_number (b.event e).ev_fd >>= leave)) based
              ∙ ap (λ k. k >>= leave) number
              ∙ ap
                  (λ h.
                    if is_some h
                    then some (
                      success,
                      record listed { evbase = record (listed.evbase) { sig = unlisted } },
                    )
                    else (restore_handler sys unlisted n >>= restored unlisted))
                  (empty_head unlisted.evsigevents lists n unlinked first)
              ∙ ap (λ r. r >>= restored unlisted) run,
          subst (λ q. Linked q lists) (sym same) unlinked,
          λ done x. back done x ∙ again x (s.changed ok x),
        )
      where
        again :
            (x : ℕ)
            → at set.1.dispositions x ≡ (if x == n then handler_id else disposition b x)
            → (if x == n then disposition b n else at set.1.dispositions x) ≡ disposition b x
        again x h = elim (Bool-cases (x == n)) [
          | inl here ↦ rw here (ap (disposition b) (number_eq x here))
          | inr there ↦ ground (arith, h)
        ]
          where
            number_eq : (x : ℕ) → (x == n) ≡ true → n ≡ x
            number_eq x h = ground arith

    -- The parts of evsignal_add.
    abbrev finish : ℕ → Status × SignalBase K T → Option (Status × SignalBase K T)
    finish k p = elim (p.0) [
      | failure ↦ some (failure, p.1)
      | success ↦ some (
        success,
        record p.1 {
          evbase = record (p.1.evbase) {
            sig = record (p.1.evbase.sig) {
              evsigevents = insert_tail p.1.evbase.sig.evsigevents k e;
            };
          };
        },
      )
    ]

    abbrev settle : ℕ → Status × EvsignalInfo T → Option (Status × SignalBase K T)
    settle k p = elim (p.0) [
      | failure ↦ some (failure, record b { evbase = record (b.evbase) { sig = p.1 } })
      | success ↦
          add_ev_signal sys epoll_sig with_epoll_sig evsel room room_entry
            (record b { evbase = record (b.evbase) { sig = record p.1 { evsignal_base = true } } })
          >>= finish k
    ]

    abbrev enter : ℕ → Option ℕ → Option (Status × SignalBase K T)
    enter k head =
        if is_some head
        then finish k (success, b)
        else settle k (set_handler sys room room_entry b.evbase.sig k handler_id)

    add : Option (Status × SignalBase K T)
    add = evsignal_add sys epoll_sig with_epoll_sig evsel room room_entry b e

    add-settle : add ≡ settle n set
    unfolding add evsignal_add
    add-settle =
        ap
          (λ c.
            check c
            >> (signal_number (b.event e).ev_fd >>= λ k.
                enter k (b.evbase.sig.evsigevents.tqh_first k)))
          based
        ∙ ap (λ t. t >>= λ k. enter k (b.evbase.sig.evsigevents.tqh_first k)) number
        ∙ ap (enter n) (empty_head b.evbase.sig.evsigevents lists n v first)

    handled-added :
        add_ev_signal sys epoll_sig with_epoll_sig evsel room room_entry handled
        ≡ some (success, handled)
    unfolding add_ev_signal
    handled-added = rw (s.added ∙ added) refl

    by_status :
        (status : Status)
        → set.0 ≡ status
        → (status : Status) × (b' : SignalBase K T) × (add ≡ some (status, b')) × Added status b'
    by_status failure st = (
      failure,
      record b { evbase = record (b.evbase) { sig = set.1 } },
      add-settle ∙ ap (λ t. settle n (t, set.1)) st,
      record {
        undisturbed = λ h x. ap (λ t. at t x) (s.same st);
        handled = λ h. absurd (ground arith);
        others = λ x ne. ap (λ t. at t x) (s.same st);
        undone = λ h. absurd (ground arith);
      },
    )
    by_status success st = (
      success,
      listed,
      add-settle ∙ ap (λ t. settle n (t, set.1)) st ∙ ap (λ t. t >>= finish n) handled-added,
      record {
        undisturbed = λ h. absurd (ground arith);
        handled = λ h. s.changed st n ∙ self n;
        others = λ x ne. s.changed st x ∙ ground arith;
        undone = λ h. undo st;
      },
    )
      where
        self : (k : ℕ) → (if k == k then handler_id else disposition b k) ≡ handler_id
        self k = ground arith

    -- evsignal_add of the first event of a signal, with valid lists, an event for the socket that is added, and
    -- where sigaction(2) does as documented, always returns, and changes the disposition of no other signal. If it
    -- fails, the disposition of that signal is as it was, too. If it succeeds, the disposition is
    -- evsignal_handler; then evsignal_del of the same event returns, and the lists are what they were; and if that
    -- succeeds, every signal has the disposition that it had before both.
    pub evsignal_add-Added :
        (status : Status) × (b' : SignalBase K T) × (evsignal_add sys epoll_sig with_epoll_sig evsel
            room room_entry b e
          ≡ some (status, b'))
        × Added status b'
    unfolding add
    evsignal_add-Added = by_status set.0 refl
