-- ===== src/Epoll/Removal.antt =====
-- epoll_del takes an event out of its entry.
use ilibevent.Base.{
  ℕ, ◌≡◌, refl, sym, ap, ◌∙◌, Bool, true, false, not, ◌&&◌, ◌||◌, none, some, is_some, arith, ltb,
  ◌==◌, if◌then◌else◌, Bool-cases, inl, inr, Status, success, update, ◌>>=◌,
}
use ilibevent.Base.Int.{pos}
use ilibevent.State.{Event}
use ilibevent.Epoll.{
  CtlOp, epoll_ctl_mod, epoll_ctl_del, Interest, Kernel, Evepoll, no_evepoll, Epollop, leave,
  del_fd, slot,
}
use ilibevent.Epoll.Interests.{KernelLaw, asked, wanted, Synced, told-Synced, entry_of}

abbrev keep_write : Evepoll → Event → Bool
keep_write evep ev = ev.ev_events.read && not ev.ev_events.write && is_some evep.evwrite

abbrev keep_read : Evepoll → Event → Bool
keep_read evep ev = ev.ev_events.write && not ev.ev_events.read && is_some evep.evread

-- The entry without the event: only what the event does not wait for can stay.
abbrev pub left : Evepoll → Event → Evepoll
left evep ev = record {
  evread = if keep_read evep ev then evep.evread else none;
  evwrite = if keep_write evep ev then evep.evwrite else none;
}

-- The call of epoll_ctl that `leave` makes.
abbrev leave_op : Evepoll → Event → CtlOp
leave_op evep ev = if keep_write evep ev || keep_read evep ev then epoll_ctl_mod else epoll_ctl_del

abbrev leave_interest : Evepoll → Event → Interest
leave_interest evep ev = record {
  epollin = keep_read evep ev || (ev.ev_events.read && not (keep_write evep ev));
  epollout = keep_write evep ev || (ev.ev_events.write && not (keep_read evep ev));
}

asked-left :
    (evep : Evepoll) (ev : Event)
    → asked (leave_op evep ev) (leave_interest evep ev) ≡ wanted (left evep ev)
asked-left evep ev = ground arith

left-no_evepoll : (ev : Event) → left no_evepoll ev ≡ no_evepoll
left-no_evepoll ev = ground arith

left-entry :
    {K : Type 0} (o : Epollop K) (k : K) (fd : ℕ) (ev : Event) (x : ℕ)
    → ltb fd o.nfds ≡ true
    → entry_of (record o { kernel = k; fds = update o.fds fd (left (o.fds fd) ev) }) x
      ≡ (if fd == x then left (entry_of o fd) ev else entry_of o x)
left-entry o k fd ev x inside = elim (Bool-cases (fd == x)) [
  | inl h ↦ let here : ltb x o.nfds ≡ true = ground arith in rw (h, here, inside) refl
  | inr h ↦ rw h refl
]

module _ {K : Type 0} {kernel : Kernel K} (law : KernelLaw kernel) where
  -- How epoll_del ends for an event on descriptor `fd`.
  pub record DelResult (o : Epollop K) (fd : ℕ) (ev : Event) (status : Status) (o' : Epollop K)
      : Type 0 where
    pub count : o'.nfds ≡ o.nfds
    pub synced : status ≡ success → Synced law o'
    pub entries :
        (x : ℕ) → entry_of o' x ≡ (if fd == x then left (entry_of o fd) ev else entry_of o x)

  leave_lem :
      (o : Epollop K) (fd : ℕ) (ev : Event) (r : Status × K)
      → kernel.epoll_ctl o.kernel (leave_op (o.fds fd) ev) fd (leave_interest (o.fds fd) ev) ≡ r
      → ltb fd o.nfds ≡ true
      → Synced law o
      → (status : Status) × (o' : Epollop K) × (leave kernel o fd ev ≡ (status, o'))
        × DelResult o fd ev status o'
  unfolding leave
  leave_lem o fd ev (status, k) run inside synced = (
    status,
    record o { kernel = k; fds = update o.fds fd (left (o.fds fd) ev) },
    ap (λ r. (r.0, record o { kernel = r.1; fds = update o.fds fd (left (o.fds fd) ev) })) run,
    record {
      count = refl;
      synced = λ ok.
          told-Synced kernel law o fd (leave_op (o.fds fd) ev) (leave_interest (o.fds fd) ev)
            (left (o.fds fd) ev) k (run ∙ ap (λ s. (s, k)) ok) (asked-left (o.fds fd) ev)
            (ground arith) synced;
      entries = λ x. left-entry o k fd ev x inside;
    },
  )

  -- epoll_del, for an event on a descriptor that is not negative, always returns. Of the entry only
  -- the direction that the event does not wait for can stay, and the other entries are kept. If it
  -- succeeds, the kernel waits for exactly what the array says, as before.
  pub del_fd-DelResult :
      (o : Epollop K) (fd : ℕ) (ev : Event)
      → ev.ev_fd ≡ pos fd
      → Synced law o
      → (status : Status) × (o' : Epollop K) × (del_fd kernel o ev ≡ some (status, o'))
        × DelResult o fd ev status o'
  unfolding del_fd
  del_fd-DelResult o fd ev at synced = elim (Bool-cases (ltb fd o.nfds)) [
    | inl inside ↦
        let (status, o', run, r) = leave_lem o fd ev _ refl inside synced in
        (
          status,
          o',
          ap
                (λ z.
                  slot z >>= λ n. some (if ltb n o.nfds then leave kernel o n ev else (success, o)))
                at
              ∙ rw inside (ap some run),
          r,
        )
    | inr outside ↦ (
      success,
      o,
      ap (λ z. slot z >>= λ n. some (if ltb n o.nfds then leave kernel o n ev else (success, o))) at
          ∙ rw outside refl,
      record {
        count = refl;
        synced = λ ok. synced;
        entries = λ x. elim (Bool-cases (fd == x)) [
          | inl h ↦
              let there : ltb x o.nfds ≡ false = ground arith in
              rw (h, there, outside) (sym (left-no_evepoll ev))
          | inr h ↦ rw h refl
        ];
      },
    )
  ]
