-- ===== src/Epoll/Dispatch.antt =====
-- epoll_dispatch activates the events that wait for what the kernel reports.
use ilibevent.Base.{
  ℕ, ◌≡◌, refl, ap, ◌∙◌, Bool, true, false, ◌&&◌, List, Option, some, ltb, ◌==◌, ◌*◌, if◌then◌else◌,
  ◌>>=◌, Status, success, failure,
}
use ilibevent.Time.{Timeval}
use ilibevent.State.{EventBase}
use ilibevent.Event.Invariant.{View, Inv}
use ilibevent.Event.Creation.{other_fields-Inv}
use ilibevent.Epoll.{
  Kernel, Report, WaitResult, interrupted, wait_failed, ready, Epollop, EpollBase, Signals, wait_ms,
  report_all, epoll_dispatch, with_epollop, grow_events, count_reports,
}
use ilibevent.Epoll.Activation.{concerns, AllFit, Activates}
use ilibevent.Epoll.Reports.{report_all-Reports}

module _ {K S : Type 0} (kernel : Kernel K) (signals : Signals K S) (granted : Bool)
    (known : List ℕ) where
  -- The state of the backend matters for no event.
  same_events :
      (hit : ℕ → Bool) (b b' : EventBase (EpollBase K S)) (o o' : Epollop K)
      → Activates known hit (with_epollop b o) b'
      → Activates known hit b (with_epollop b' o')
  same_events hit b b' o o' t = record {
    view = t.view;
    inv = other_fields-Inv known t.inv.distinct b' b'.event_tv _ t.inv;
    active = t.active;
    bases = t.bases;
    pris = t.pris;
    priorities = t.priorities;
    heap = t.heap;
  }

  -- epoll_dispatch behind epoll_wait.
  abbrev behind_wait :
      EventBase (EpollBase K S) → WaitResult × K → Option (Status × EventBase (EpollBase K S))
  behind_wait b p =
      let waited = with_epollop b (record (b.evbase.epollop) { kernel = p.1 }) in
      elim (p.0) [
        | wait_failed ↦ some (failure, waited)
        | interrupted ↦ signals.evsignal_process waited >>= λ b'. some (success, b')
        | ready rs ↦
            (if signals.evsignal_caught waited.evbase.sig
              then signals.evsignal_process waited
              else some waited)
            >>= λ b₁. report_all kernel signals granted b₁ rs >>= λ b₂. some (
              success,
              with_epollop b₂ (grow_events granted (count_reports rs) b₂.evbase.epollop),
            )
      ]

  grow_events-array :
      (n : ℕ) (o : Epollop K)
      → ((grow_events granted n o).fds ≡ o.fds) × ((grow_events granted n o).nfds ≡ o.nfds)
  grow_events-array n o = by_test (n == o.nevents && ltb o.nevents 4096 && granted)
    where
      by_test :
          (t : Bool)
          → ((if t then record o { nevents = o.nevents * 2 } else o).fds ≡ o.fds)
            × ((if t then record o { nevents = o.nevents * 2 } else o).nfds ≡ o.nfds)
      by_test true = (refl, refl)
      by_test false = (refl, refl)

  -- epoll_dispatch, if epoll_wait gives reports and no signal was caught, for a base that satisfies the invariant
  -- and whose array has only known events with an event_base and a priority below the number of queues, always returns
  -- 0. The events that then are active are those that were and those that wait for something that was reported of their
  -- descriptor (an error is reported to both); the invariant holds, and the array and the heap are as before.
  pub epoll_dispatch-Activates :
      (v : View) (b : EventBase (EpollBase K S)) (tv : Option Timeval) (rs : List Report) (k : K)
      → Inv known v b
      → AllFit known b.evbase.epollop b
      → kernel.epoll_wait b.evbase.epollop.kernel b.evbase.epollop.nevents (wait_ms tv)
        ≡ (ready rs, k)
      → signals.evsignal_caught b.evbase.sig ≡ false
      → (b' : EventBase (EpollBase K S)) × (epoll_dispatch kernel signals granted b tv
          ≡ some (success, b'))
        × Activates known (concerns b.evbase.epollop rs) b b'
        × (b'.evbase.epollop.fds ≡ b.evbase.epollop.fds)
        × (b'.evbase.epollop.nfds ≡ b.evbase.epollop.nfds)
  unfolding epoll_dispatch
  epoll_dispatch-Activates v b tv rs k i fit waits quiet =
      let o = record (b.evbase.epollop) { kernel = k } in
      let waited = with_epollop b o in
      let (b₁, run, t, same) =
        report_all-Reports kernel signals granted known rs v waited
          (other_fields-Inv known i.distinct b b.event_tv _ i)
          (λ fd e room h.
            let f = fit fd e room h in
            record { is_known = f.is_known; based = f.based; priority = f.priority }) in
      let (fds, nfds) = grow_events-array (count_reports rs) b₁.evbase.epollop in
      (
        with_epollop b₁ (grow_events granted (count_reports rs) b₁.evbase.epollop),
        ap (behind_wait b) waits
            ∙ ap
                (λ c. (if c then signals.evsignal_process waited else some waited) >>= λ b₁.
                  report_all kernel signals granted b₁ rs >>= λ b₂. some (
                    success,
                    with_epollop b₂ (grow_events granted (count_reports rs) b₂.evbase.epollop),
                  ))
                quiet
            ∙ ap
                (λ m. m >>= λ b₂. some (
                  success,
                  with_epollop b₂ (grow_events granted (count_reports rs) b₂.evbase.epollop),
                ))
                run,
        same_events (concerns b.evbase.epollop rs) b b₁ o
            (grow_events granted (count_reports rs) b₁.evbase.epollop) t,
        fds ∙ ap (λ s. s.epollop.fds) same,
        nfds ∙ ap (λ s. s.epollop.nfds) same,
      )
