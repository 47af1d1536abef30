-- ===== src/Epoll/Law.antt =====
-- The epoll backend is what event_add and event_del need.
use ilibevent.Base.{
  ℕ, ◌^◌, ◌<◌, ◌≡◌, refl, ap, ◌∙◌, Bool, true, false, Option, some, arith, ltb, if◌then◌else◌,
  Bool-cases, inl, inr, Status, success, failure, ◌>>=◌, ◌>>◌, check,
}
use ilibevent.Base.Int.{ℤ, pos}
use ilibevent.State.{EventMask, Event, EventBase}
use ilibevent.Event.Backend.{Backend}
use ilibevent.Epoll.{
  Kernel, Epollop, EpollBase, Signals, epoll_recalc, enter, add_fd, leave, del_fd, slot, epoll_add,
  epoll_del, epollops, with_epollop,
}
use ilibevent.Epoll.Entry.{entered, add_fd-run}
use ilibevent.Epoll.Growth.{Sane, Recalculated, epoll_recalc-Recalculated}

-- A descriptor that the array can hold, and an event that is no signal.
abbrev pub Accepted : {K S : Type 0} → EpollBase K S → ℤ → EventMask → Type 0
Accepted s fd m = (m.signal ≡ false) × Sane s.epollop × ((n : ℕ) × (fd ≡ pos n) × (n < 2 ^ 30))

module _ {K S : Type 0} (kernel : Kernel K) (signals : Signals K S) (granted : Bool) where
  enter_count : (o : Epollop K) (fd e : ℕ) (ev : Event) → (enter kernel o fd e ev).1.nfds ≡ o.nfds
  unfolding enter
  enter_count o fd e ev = count (kernel.epoll_ctl o.kernel _ fd _)
    where
      count : (r : Status × K) → (entered o fd e ev r).1.nfds ≡ o.nfds
      count (success, k) = refl
      count (failure, k) = refl

  add_returns :
      (o : Epollop K) (fd e : ℕ) (ev : Event)
      → ev.ev_fd ≡ pos fd
      → fd < 2 ^ 30
      → Sane o
      → (status : Status) × (o' : Epollop K) × (add_fd kernel granted o e ev ≡ some (status, o'))
        × Sane o'
  unfolding add_fd
  add_returns o fd e ev at bound sane =
      by_recalc (epoll_recalc-Recalculated granted o fd sane bound)
    where
      by_recalc :
          (status : Status) × (o₁ : Epollop K) × (epoll_recalc granted o fd ≡ some (status, o₁))
            × Recalculated granted o fd status o₁
          → (status : Status) × (o' : Epollop K) × (add_fd kernel granted o e ev
              ≡ some (status, o'))
            × Sane o'
      by_recalc (failure, o₁, run, (same, short, few)) = (
        failure,
        o₁,
        ap
              (λ z. slot z >>= λ n. epoll_recalc granted o n >>= λ (status, o'). elim status [
                | failure ↦ some (failure, o')
                | success ↦ check (ltb n o'.nfds) >> some (enter kernel o' n e ev)
              ])
              at
            ∙ rw run refl,
        rw same sane,
      )
      by_recalc (success, o₁, run, r) =
          let room : ltb fd o₁.nfds ≡ true = ground (arith, r.1) in
          let r' = enter kernel o₁ fd e ev in
          (
            r'.0,
            r'.1,
            add_fd-run kernel granted o fd e ev at run room refl,
            rw (enter_count o₁ fd e ev) r.0,
          )

  del_returns :
      (o : Epollop K) (fd : ℕ) (ev : Event)
      → ev.ev_fd ≡ pos fd
      → Sane o
      → (status : Status) × (o' : Epollop K) × (del_fd kernel o ev ≡ some (status, o')) × Sane o'
  unfolding del_fd leave
  del_returns o fd ev at sane = elim (Bool-cases (ltb fd o.nfds)) [
    | inl inside ↦ let r = leave kernel o fd ev in (r.0, r.1, ap removed at ∙ rw inside refl, sane)
    | inr outside ↦ (success, o, ap removed at ∙ rw outside refl, sane)
  ]
    where
      removed : ℤ → Option (Status × Epollop K)
      removed z = slot z >>= λ n. some (if ltb n o.nfds then leave kernel o n ev else (success, o))

  epoll_add-run :
      (b : EventBase (EpollBase K S)) (e : ℕ) {r : Status × Epollop K}
      → (b.event e).ev_events.signal ≡ false
      → add_fd kernel granted b.evbase.epollop e (b.event e) ≡ some r
      → epoll_add kernel signals granted b e ≡ some (r.0, with_epollop b (r.1))
  unfolding epoll_add
  epoll_add-run b e quiet run =
      ap
        (λ t.
          if t
          then signals.evsignal_add b e
          else (add_fd kernel granted b.evbase.epollop e (b.event e) >>= λ x.
              some (x.0, with_epollop b x.1)))
        quiet
      ∙ ap (λ (m : Option (Status × Epollop K)). m >>= λ x. some (x.0, with_epollop b x.1)) run

  epoll_del-run :
      (b : EventBase (EpollBase K S)) (e : ℕ) {r : Status × Epollop K}
      → (b.event e).ev_events.signal ≡ false
      → del_fd kernel b.evbase.epollop (b.event e) ≡ some r
      → epoll_del kernel signals granted b e ≡ some (r.0, with_epollop b (r.1))
  unfolding epoll_del
  epoll_del-run b e quiet run =
      ap
        (λ t.
          if t
          then signals.evsignal_del b e
          else (del_fd kernel b.evbase.epollop (b.event e) >>= λ x. some (x.0, with_epollop b x.1)))
        quiet
      ∙ ap (λ (m : Option (Status × Epollop K)). m >>= λ x. some (x.0, with_epollop b x.1)) run

  -- The backend over epoll accepts every event that is no signal, on a descriptor below 2 ^ 30.
  pub epollops-Backend : Backend (epollops kernel signals granted)
  unfolding epollops
  epollops-Backend = record {
    accepts = Accepted;
    add_law = λ b e (quiet, sane, (fd, at, bound)).
        let (status, o, run, sane') = add_returns b.evbase.epollop fd e (b.event e) at bound sane in
        (
          status,
          record (b.evbase) { epollop = o },
          epoll_add-run b e quiet run,
          λ n m (q, old, f). (q, sane', f),
        );
    del_law = λ b e (quiet, sane, (fd, at, bound)).
        let (status, o, run, sane') = del_returns b.evbase.epollop fd (b.event e) at sane in
        (
          status,
          record (b.evbase) { epollop = o },
          epoll_del-run b e quiet run,
          λ n m (q, old, f). (q, sane', f),
        );
  }
