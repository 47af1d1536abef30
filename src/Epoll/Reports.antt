-- ===== src/Epoll/Reports.antt =====
-- The loop of epoll_dispatch over the reports.
use ilibevent.Base.{
  ℕ, ◌≡◌, refl, sym, ap, subst, ◌∙◌, Bool, true, false, not, ◌&&◌, ◌||◌, List, [], ◌∷◌, Option,
  none, some, arith, ltb, Bool-cases, inl, inr, if◌then◌else◌, ◌>>=◌,
}
use ilibevent.State.{EventMask, ev_read_mask, ev_write_mask, EventBase}
use ilibevent.Event.Invariant.{View, Inv}
use ilibevent.Event.Activate.{active_view, event_active-Activated}
use ilibevent.Epoll.{Kernel, Report, EpollBase, Signals, slot, activate, report_one, report_all}
use ilibevent.Epoll.Activation.{
  stands, at_slot, concerns, Fit, AllFit, Activates, nothing, in_turn, Activates-Fit,
}

module _ {K S : Type 0} (kernel : Kernel K) (signals : Signals K S) (granted : Bool)
    (known : List ℕ) where
  activate-Activates :
      (v : View) (b : EventBase (EpollBase K S)) (target : Option ℕ) (mask : EventMask)
      → Inv known v b
      → ((e : ℕ) → stands target e ≡ true → Fit known b e)
      → (b' : EventBase (EpollBase K S)) × (activate kernel signals granted b target mask ≡ some b')
        × Activates known (stands target) b b'
        × (b'.evbase ≡ b.evbase)
  activate-Activates v b none mask i fit = (b, refl, nothing known v b i, refl)
  activate-Activates v b (some x) mask i fit =
      let f = fit x (ground arith) in
      let (b', run, t) =
        event_active-Activated known v b i x f.is_known mask 1 f.based f.priority in
      (
        b',
        run,
        record {
          view = active_view v x (b.event x);
          inv = t.inv;
          active = λ e. ap (λ g. (g e).ev_flags.active) t.events ∙ ground arith;
          bases = λ e. ap (λ g. (g e).ev_base) t.events ∙ ground arith;
          pris = λ e. ap (λ g. (g e).ev_pri) t.events ∙ ground arith;
          priorities = t.priorities;
          heap = t.heap;
        },
        t.backend,
      )

  -- An event that is only looked at under a condition.
  abbrev when : Bool → Option ℕ → Option ℕ
  when c target = if c then target else none

  stands-when :
      (c : Bool) (target : Option ℕ) (e : ℕ) → stands (when c target) e ≡ (c && stands target e)
  stands-when true target e = refl
  stands-when false target e = refl

  -- A result that leaves the backend alone and activates the events for which `hit` is true.
  abbrev pub Reports :
      EventBase (EpollBase K S) → (ℕ → Bool) → Option (EventBase (EpollBase K S)) → Type 0
  Reports b hit result =
      (b' : EventBase (EpollBase K S)) × (result ≡ some b')
      × Activates known hit b b'
      × (b'.evbase ≡ b.evbase)

  abbrev activate_both : EventBase (EpollBase K S) → Report → ℕ → Option (EventBase (EpollBase K S))
  activate_both b r fd =
      activate kernel signals granted b
        (when (r.broken || r.epollin) (b.evbase.epollop.fds fd).evread) ev_read_mask
      >>= λ b'.
          activate kernel signals granted b'
            (when (r.broken || r.epollout) (b.evbase.epollop.fds fd).evwrite) ev_write_mask

  abbrev at_report :
      EventBase (EpollBase K S) → Report → Option ℕ → Option (EventBase (EpollBase K S))
  at_report b r target = elim target [
    | none ↦ some b
    | some fd ↦ if not (ltb fd b.evbase.epollop.nfds) then some b else activate_both b r fd
  ]

  activate_both-Reports :
      (v : View) (b : EventBase (EpollBase K S)) (r : Report) (fd : ℕ)
      → Inv known v b
      → AllFit known b.evbase.epollop b
      → ltb fd b.evbase.epollop.nfds ≡ true
      → Reports b (at_slot b.evbase.epollop r (some fd)) (activate_both b r fd)
  activate_both-Reports v b r fd i fit inside =
      let evep = b.evbase.epollop.fds fd in
      let reading = when (r.broken || r.epollin) evep.evread in
      let writing = when (r.broken || r.epollout) evep.evwrite in
      let (b₁, run₁, t₁, same₁) = activate-Activates v b reading ev_read_mask i (λ e h.
        fit fd e (ground arith)
          (ground (arith, h, stands-when (r.broken || r.epollin) evep.evread e))) in
      let (b₂, run₂, t₂, same₂) = activate-Activates t₁.view b₁ writing ev_write_mask t₁.inv (λ e h.
        Activates-Fit known (stands reading) b b₁ e t₁ (
          fit fd e (ground arith)
            (ground (arith, h, stands-when (r.broken || r.epollout) evep.evwrite e)))) in
      (
        b₂,
        ap (λ m. m >>= λ c. activate kernel signals granted c writing ev_write_mask) run₁ ∙ run₂,
        in_turn known (stands reading) (stands writing) (at_slot b.evbase.epollop r (some fd)) b b₁
            b₂
            (λ e. ground (
              arith,
              inside,
              stands-when (r.broken || r.epollin) evep.evread e,
              stands-when (r.broken || r.epollout) evep.evwrite e,
            ))
            t₁ t₂,
        same₂ ∙ same₁,
      )

  at_report-Reports :
      (v : View) (b : EventBase (EpollBase K S)) (r : Report)
      → Inv known v b
      → AllFit known b.evbase.epollop b
      → (target : Option ℕ) → Reports b (at_slot b.evbase.epollop r target) (at_report b r target)
  at_report-Reports v b r i fit none = (b, refl, nothing known v b i, refl)
  at_report-Reports v b r i fit (some fd) = elim (Bool-cases (ltb fd b.evbase.epollop.nfds)) [
    | inl inside ↦
        let (b', run, t, same) = activate_both-Reports v b r fd i fit inside in
        (b', ap (λ q. if not q then some b else activate_both b r fd) inside ∙ run, t, same)
    | inr outside ↦ (
      b,
      ap (λ q. if not q then some b else activate_both b r fd) outside,
      in_turn known (λ _. false) (λ _. false) (at_slot b.evbase.epollop r (some fd)) b b b
          (λ e. rw outside refl) (nothing known v b i) (nothing known v b i),
      refl,
    )
  ]

  pub report_all-Reports :
      (rs : List Report) (v : View) (b : EventBase (EpollBase K S))
      → Inv known v b
      → AllFit known b.evbase.epollop b
      → Reports b (concerns b.evbase.epollop rs) (report_all kernel signals granted b rs)
  unfolding report_all report_one
  report_all-Reports [] v b i fit = (b, refl, nothing known v b i, refl)
  report_all-Reports (r ∷ rs) v b i fit =
      let (b₁, run₁, t₁, same₁) = at_report-Reports v b r i fit (slot r.fd) in
      let hit = at_slot b.evbase.epollop r (slot r.fd) in
      let same : b₁.evbase.epollop ≡ b.evbase.epollop = ap (λ s. s.epollop) same₁ in
      let (b₂, run₂, t₂, same₂) = report_all-Reports rs t₁.view b₁ t₁.inv (
        subst (λ o. AllFit known o b₁) (sym same)
          (λ fd e room h. Activates-Fit known hit b b₁ e t₁ (fit fd e room h))) in
      (
        b₂,
        ap (λ m. m >>= λ c. report_all kernel signals granted c rs) run₁ ∙ run₂,
        in_turn known hit (concerns b₁.evbase.epollop rs) (concerns b.evbase.epollop (r ∷ rs)) b b₁
            b₂ (λ e. ap (λ o. hit e || concerns o rs e) (sym same)) t₁ t₂,
        same₂ ∙ same₁,
      )
