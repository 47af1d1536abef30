-- ===== src/Epoll/Entry.antt =====
-- epoll_add enters an event into the array, and tells the kernel.
use ilibevent.Base.{
  ℕ, ◌^◌, ◌<◌, ◌≡◌, refl, sym, ap, ◌∙◌, Bool, true, ◌||◌, some, is_some, arith, ltb, ◌==◌,
  if◌then◌else◌, Bool-cases, inl, inr, Status, success, failure, update, ◌>>=◌, ◌>>◌, check,
}
use ilibevent.Base.Int.{pos}
use ilibevent.State.{Event}
use ilibevent.Epoll.{
  CtlOp, epoll_ctl_add, epoll_ctl_mod, Interest, Kernel, Evepoll, Epollop, epoll_recalc, enter,
  add_fd, slot,
}
use ilibevent.Epoll.Growth.{Sane, Recalculated, epoll_recalc-Recalculated}
use ilibevent.Epoll.Interests.{asked, KernelLaw, wanted, Synced, effect_of, told-Synced, entry_of}

-- The entry behind an addition.
abbrev pub entry : Evepoll → ℕ → Event → Evepoll
entry evep e ev = record {
  evread = if ev.ev_events.read then some e else evep.evread;
  evwrite = if ev.ev_events.write then some e else evep.evwrite;
}

-- The call of epoll_ctl that `enter` makes.
abbrev enter_op : Evepoll → CtlOp
enter_op evep = if is_some evep.evread || is_some evep.evwrite then epoll_ctl_mod else epoll_ctl_add

abbrev enter_interest : Evepoll → Event → Interest
enter_interest evep ev = record {
  epollin = is_some evep.evread || ev.ev_events.read;
  epollout = is_some evep.evwrite || ev.ev_events.write;
}

asked-wanted :
    (evep : Evepoll) (e : ℕ) (ev : Event)
    → (ev.ev_events.read || ev.ev_events.write) ≡ true
    → asked (enter_op evep) (enter_interest evep ev) ≡ wanted (entry evep e ev)
asked-wanted evep e ev h = ground arith

-- What an addition leaves: the entry of the descriptor, if it succeeds, and the others.
abbrev pub Entered : {K : Type 0} → Epollop K → ℕ → ℕ → Event → Status → Epollop K → Type 0
Entered o fd e ev success o' =
    (o'.nfds ≡ o.nfds) × (o'.fds ≡ update o.fds fd (entry (o.fds fd) e ev))
Entered o fd e ev failure o' = (o'.nfds ≡ o.nfds) × (o'.fds ≡ o.fds)

-- What is done with the result of epoll_ctl.
abbrev pub entered : {K : Type 0} → Epollop K → ℕ → ℕ → Event → Status × K → Status × Epollop K
entered o fd e ev r = elim (r.0) [
  | failure ↦ (failure, record o { kernel = r.1 })
  | success ↦ (success, record o { kernel = r.1; fds = update o.fds fd (entry (o.fds fd) e ev) })
]

module _ {K : Type 0} (kernel : Kernel K) (law : KernelLaw kernel) where
  enter_lem :
      (o : Epollop K) (fd e : ℕ) (ev : Event) (r : Status × K)
      → kernel.epoll_ctl o.kernel (enter_op (o.fds fd)) fd (enter_interest (o.fds fd) ev) ≡ r
      → Synced law o
      → fd < o.nfds
      → (ev.ev_events.read || ev.ev_events.write) ≡ true
      → (status : Status) × (o' : Epollop K) × (enter kernel o fd e ev ≡ (status, o'))
        × Synced law o'
        × Entered o fd e ev status o'
  unfolding enter
  enter_lem o fd e ev (failure, k) run synced room io = (
    failure,
    record o { kernel = k },
    ap (entered o fd e ev) run,
    λ x.
        effect_of kernel law o.kernel (enter_op (o.fds fd)) fd (enter_interest (o.fds fd) ev) x run
        ∙ synced x,
    (refl, refl),
  )
  enter_lem o fd e ev (success, k) run synced room io = (
    success,
    record o { kernel = k; fds = update o.fds fd (entry (o.fds fd) e ev) },
    ap (entered o fd e ev) run,
    told-Synced kernel law o fd (enter_op (o.fds fd)) (enter_interest (o.fds fd) ev)
        (entry (o.fds fd) e ev) k run (asked-wanted (o.fds fd) e ev io) room synced,
    (refl, refl),
  )

  Recalculated-Synced :
      (granted : Bool) (o : Epollop K) (max : ℕ) (o' : Epollop K)
      → Recalculated granted o max success o'
      → Synced law o
      → Synced law o'
  Recalculated-Synced granted o max o' (sane, room, kept, same, old, new) synced fd =
      ap (λ z. law.interest z.kernel fd) same ∙ synced fd ∙ elim (Bool-cases (ltb fd o.nfds)) [
        | inl h ↦
            let inside : ltb fd o'.nfds ≡ true = ground arith in
            rw (h, inside) (ap wanted (sym (old fd (ground arith))))
        | inr h ↦ elim (Bool-cases (ltb fd o'.nfds)) [
          | inl inside ↦ rw (h, inside) (ap wanted (sym (new fd (ground arith) (ground arith))))
          | inr outside ↦ rw (h, outside) refl
        ]
      ]

abbrev pub new_entry : {K : Type 0} → Status → Epollop K → ℕ → ℕ → Event → ℕ → Evepoll
new_entry success o fd e ev x = if fd == x then entry (entry_of o fd) e ev else entry_of o x
new_entry failure o fd e ev x = entry_of o x

-- The run of epoll_add, from the runs of its parts.
pub add_fd-run :
    {K : Type 0} (kernel : Kernel K) (granted : Bool) (o : Epollop K) (fd e : ℕ) (ev : Event)
    {o₁ : Epollop K} {r : Status × Epollop K}
    → ev.ev_fd ≡ pos fd
    → epoll_recalc granted o fd ≡ some (success, o₁)
    → ltb fd o₁.nfds ≡ true
    → enter kernel o₁ fd e ev ≡ r
    → add_fd kernel granted o e ev ≡ some r
unfolding add_fd
add_fd-run kernel granted o fd e ev at run room done =
    ap
      (λ z. slot z >>= λ n. epoll_recalc granted o n >>= λ (status, o'). elim status [
        | failure ↦ some (failure, o')
        | success ↦ check (ltb n o'.nfds) >> some (enter kernel o' n e ev)
      ])
      at
    ∙ rw (run, room) (ap some done)

module _ {K : Type 0} {kernel : Kernel K} (law : KernelLaw kernel) where
  -- How epoll_add ends for an event on descriptor `fd`.
  abbrev pub AddResult : Epollop K → ℕ → ℕ → Event → Status → Epollop K → Type 0
  AddResult o fd e ev status o' =
      Synced law o' × Sane o' × ((x : ℕ) → entry_of o' x ≡ new_entry status o fd e ev x)

  Recalculated-same :
      (granted : Bool) (o : Epollop K) (max : ℕ) (o' : Epollop K)
      → Recalculated granted o max success o'
      → (x : ℕ) → entry_of o' x ≡ entry_of o x
  Recalculated-same granted o max o' (sane, room, kept, same, old, new) x =
      elim (Bool-cases (ltb x o.nfds)) [
        | inl h ↦
            let inside : ltb x o'.nfds ≡ true = ground arith in
            rw (h, inside) (old x (ground arith))
        | inr h ↦ elim (Bool-cases (ltb x o'.nfds)) [
          | inl inside ↦ rw (h, inside) (new x (ground arith) (ground arith))
          | inr outside ↦ rw (h, outside) refl
        ]
      ]

  Entered-new_entry :
      (o : Epollop K) (fd e : ℕ) (ev : Event) (status : Status) (o' : Epollop K)
      → fd < o.nfds
      → Entered o fd e ev status o'
      → (x : ℕ) → entry_of o' x ≡ new_entry status o fd e ev x
  Entered-new_entry o fd e ev failure o' room (count, same) x = rw (count, same) refl
  Entered-new_entry o fd e ev success o' room (count, same) x =
      rw (count, same)
        (elim (Bool-cases (fd == x)) [
          | inl h ↦
              let inside : ltb x o.nfds ≡ true = ground arith in
              let here : ltb fd o.nfds ≡ true = ground arith in rw (h, inside, here) refl
          | inr h ↦ rw h refl
        ])

  new_entry-same :
      (o o' : Epollop K) (fd e : ℕ) (ev : Event) (status : Status) (x : ℕ)
      → ((y : ℕ) → entry_of o' y ≡ entry_of o y)
      → new_entry status o' fd e ev x ≡ new_entry status o fd e ev x
  new_entry-same o o' fd e ev success x same = rw (same fd, same x) refl
  new_entry-same o o' fd e ev failure x same = same x

  Entered-nfds :
      (o : Epollop K) (fd e : ℕ) (ev : Event) (status : Status) (o' : Epollop K)
      → Entered o fd e ev status o'
      → o'.nfds ≡ o.nfds
  Entered-nfds o fd e ev success o' h = h.0
  Entered-nfds o fd e ev failure o' h = h.0

  -- epoll_add, for an event that is for reading or writing on a descriptor below 2 ^ 30, always returns;
  -- then the kernel waits for exactly what the array says, as before. If it succeeds, the event is
  -- entered for what it waits for and the other entries are kept; if it fails, all are kept.
  pub add_fd-AddResult :
      (granted : Bool) (o : Epollop K) (fd e : ℕ) (ev : Event)
      → ev.ev_fd ≡ pos fd
      → fd < 2 ^ 30
      → (ev.ev_events.read || ev.ev_events.write) ≡ true
      → Sane o
      → Synced law o
      → (status : Status) × (o' : Epollop K) × (add_fd kernel granted o e ev ≡ some (status, o'))
        × AddResult o fd e ev status o'
  unfolding add_fd
  add_fd-AddResult granted o fd e ev at bound io sane synced =
      by_recalc (epoll_recalc-Recalculated granted o fd sane bound)
    where
      by_recalc :
          (status : Status) × (o₁ : Epollop K) × (epoll_recalc granted o fd ≡ some (status, o₁))
            × Recalculated granted o fd status o₁
          → (status : Status) × (o' : Epollop K) × (add_fd kernel granted o e ev
              ≡ some (status, o'))
            × AddResult o fd e ev status o'
      by_recalc (failure, o₁, run, (same, short, few)) =
          (failure, o, rw (at, run, same) refl, (synced, sane, λ x. refl))
      by_recalc (success, o₁, run, r) =
          let room : ltb fd o₁.nfds ≡ true = ground (arith, r.1) in
          let (status, o', done, synced', ended) =
            enter_lem kernel law o₁ fd e ev _ refl
              (Recalculated-Synced kernel law granted o fd o₁ r synced) r.1 io in
          (
            status,
            o',
            add_fd-run kernel granted o fd e ev at run room done,
            (
              synced',
              rw (Entered-nfds o₁ fd e ev status o' ended) r.0,
              λ x.
                  Entered-new_entry o₁ fd e ev status o' r.1 ended x
                  ∙ new_entry-same o o₁ fd e ev status x (Recalculated-same granted o fd o₁ r),
            ),
          )
