-- ===== src/Epoll/Interests.antt =====
-- What the kernel waits for, and what the array of epoll.cpp says that it waits for.
use ilibevent.Base.{
  ℕ, ◌<◌, ◌≡◌, refl, ap, ◌∙◌, subst, Bool, true, false, ◌||◌, Option, none, some, is_some, arith,
  ltb, ◌==◌, if◌then◌else◌, Bool-cases, inl, inr, Status, success, failure, update,
}
use ilibevent.Epoll.{
  CtlOp, epoll_ctl_add, epoll_ctl_mod, epoll_ctl_del, Interest, Kernel, Evepoll, no_evepoll,
  Epollop,
}

-- What the kernel is told of a descriptor.
abbrev pub asked : CtlOp → Interest → Option Interest
asked epoll_ctl_add i = some i
asked epoll_ctl_mod i = some i
asked epoll_ctl_del i = none

abbrev pub told : Status → CtlOp → Interest → Bool → Option Interest → Option Interest
told failure op i here old = old
told success op i true old = asked op i
told success op i false old = old

-- The documented effect of epoll_ctl: if it succeeds, the kernel waits for what it is told of that
-- descriptor, and if it fails nothing changes.
pub record KernelLaw {K : Type 0} (kernel : Kernel K) : Type 0 where
  pub interest : K → ℕ → Option Interest
  pub effect :
      (k : K) (op : CtlOp) (fd : ℕ) (i : Interest) (x : ℕ)
      → interest (kernel.epoll_ctl k op fd i).1 x
        ≡ told (kernel.epoll_ctl k op fd i).0 op i (fd == x) (interest k x)

-- What the entry of a descriptor asks for.
abbrev pub wanted : Evepoll → Option Interest
wanted evep =
    if is_some evep.evread || is_some evep.evwrite
    then some (record { epollin = is_some evep.evread; epollout = is_some evep.evwrite })
    else none

module _ {K : Type 0} {kernel : Kernel K} (law : KernelLaw kernel) where
  -- The kernel waits for what the array says, and for nothing else.
  abbrev pub Synced : Epollop K → Type 0
  Synced o =
      (fd : ℕ) → law.interest o.kernel fd ≡ (if ltb fd o.nfds then wanted (o.fds fd) else none)

module _ {K : Type 0} (kernel : Kernel K) (law : KernelLaw kernel) where
  -- The kernel's side after a call, given its result.
  pub effect_of :
      (k : K) (op : CtlOp) (fd : ℕ) (i : Interest) {status : Status} {k' : K} (x : ℕ)
      → kernel.epoll_ctl k op fd i ≡ (status, k')
      → law.interest k' x ≡ told status op i (fd == x) (law.interest k x)
  effect_of k op fd i x run =
      subst (λ r. law.interest (r.1) x ≡ told (r.0) op i (fd == x) (law.interest k x)) run
        (law.effect k op fd i x)

  -- If the kernel is told of one entry what the array then says of it, the two agree again.
  pub told-Synced :
      (o : Epollop K) (fd : ℕ) (op : CtlOp) (i : Interest) (evep : Evepoll) (k' : K)
      → kernel.epoll_ctl o.kernel op fd i ≡ (success, k')
      → asked op i ≡ wanted evep
      → fd < o.nfds
      → Synced law o
      → Synced law (record o { kernel = k'; fds = update o.fds fd evep })
  told-Synced o fd op i evep k' run says room synced x = elim (Bool-cases (fd == x)) [
    | inl h ↦
        let inside : ltb x o.nfds ≡ true = ground arith in
        effect_of o.kernel op fd i x run
        ∙ ap (λ t. told success op i t (law.interest o.kernel x)) h
        ∙ says
        ∙ rw (inside, h) refl
    | inr h ↦
        effect_of o.kernel op fd i x run
        ∙ ap (λ t. told success op i t (law.interest o.kernel x)) h
        ∙ synced x
        ∙ rw h refl
  ]

-- The entry of a descriptor; one beyond the array has none.
abbrev pub entry_of : {K : Type 0} → Epollop K → ℕ → Evepoll
entry_of o fd = if ltb fd o.nfds then o.fds fd else no_evepoll
