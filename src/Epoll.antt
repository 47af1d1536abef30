-- ===== src/Epoll.antt =====
-- include/epoll.cpp, the backend over epoll. The kernel's side of the epoll descriptor is a parameter,
-- and so are the functions of include/signal.cpp.
pub mod Growth
pub mod Interests
pub mod Entry
pub mod Removal
pub mod Timeout
pub mod Lifecycle
pub mod Use
pub mod Activation
pub mod Reports
pub mod Dispatch
pub mod Law
mod Tests
use ilibevent.Base.{
  ℕ, zero, suc, ◌+◌, ◌-◌, ◌*◌, ◌/◌, ◌%◌, ◌^◌, Bool, true, false, not, ◌&&◌, ◌||◌, List, [], ◌∷◌,
  Option, none, some, is_some, ltb, leb, ◌==◌, if◌then◌else◌, ◌>>=◌, ◌>>◌, check, Status, success,
  failure, update,
}
use ilibevent.Base.Int.{to_int, ℤ, pos, negsuc, pos_part, ltb_ℤ}
use ilibevent.Time.{Timeval}
use ilibevent.State.{EventMask, ev_read_mask, ev_write_mask, Event, EventBase, Eventop}
use ilibevent.Event.Add.{event_active}

-- EPOLL_CTL_ADD, EPOLL_CTL_MOD, EPOLL_CTL_DEL
pub data CtlOp : Type 0 where
  epoll_ctl_add epoll_ctl_mod epoll_ctl_del : CtlOp

-- The bits EPOLLIN and EPOLLOUT.
pub record Interest : Type 0 where
  pub epollin : Bool
  pub epollout : Bool

-- A `struct epoll_event` that epoll_wait fills in; `broken` is EPOLLHUP or EPOLLERR.
pub record Report : Type 0 where
  pub fd : ℤ
  pub broken : Bool
  pub epollin : Bool
  pub epollout : Bool

-- What epoll_wait does: -1 with EINTR, -1 with another error, or the events.
pub data WaitResult : Type 0 where
  interrupted wait_failed : WaitResult
  ready : List Report → WaitResult

-- epoll_ctl, and epoll_wait for a number of events and a time in milliseconds.
pub record Kernel (K : Type 0) : Type 0 where
  pub epoll_ctl : K → CtlOp → ℕ → Interest → Status × K
  pub epoll_wait : K → ℕ → ℤ → WaitResult × K

pub record Evepoll : Type 0 where
  pub evread : Option ℕ
  pub evwrite : Option ℕ

abbrev pub no_evepoll : Evepoll
no_evepoll = record { evread = none; evwrite = none }

-- `kernel` is what `epfd` refers to.
pub record Epollop (K : Type 0) : Type 0 where
  pub fds : ℕ → Evepoll
  pub nfds : ℕ
  pub nevents : ℕ
  pub kernel : K

-- The backend's state, and `sig` of the base.
pub record EpollBase (K S : Type 0) : Type 0 where
  pub epollop : Epollop K
  pub sig : S

-- evsignal_add, evsignal_del, base->sig->evsignal_caught and evsignal_process.
pub record Signals (K S : Type 0) : Type 0 where
  pub evsignal_add : EventBase (EpollBase K S) → ℕ → Option (Status × EventBase (EpollBase K S))
  pub evsignal_del : EventBase (EpollBase K S) → ℕ → Option (Status × EventBase (EpollBase K S))
  pub evsignal_caught : S → Bool
  pub evsignal_process : EventBase (EpollBase K S) → Option (EventBase (EpollBase K S))

-- An index of the array: a negative one is a fault.
abbrev pub slot : ℤ → Option ℕ
slot (pos n) = some n
slot (negsuc _) = none

-- while (nfds <= max) nfds <<= 1; on an int. From 1 on, 31 rounds are enough.
unfoldable pub grow_nfds : ℕ → ℕ → ℕ → Option ℕ
grow_nfds zero nfds max = none
grow_nfds (suc fuel) nfds max =
    let more = check (ltb (nfds * 2) (2 ^ 31)) >> grow_nfds fuel (nfds * 2) max in
    if leb nfds max then more else some nfds

-- The timeout of epoll_wait. The times given have no negative part: timeout_next asserts it.
unfoldable pub wait_ms : Option Timeval → ℤ
wait_ms none = negsuc 0
wait_ms (some tv) =
    let timeout = to_int (pos_part tv.tv_sec * 1000 + (pos_part tv.tv_usec + 999) / 1000) in
    if ltb_ℤ (pos 2_100_000) timeout then pos 2_100_000 else timeout

abbrev pub count_reports : List Report → ℕ
count_reports [] = 0
count_reports (_ ∷ rs) = suc (count_reports rs)

module _ {K : Type 0} (granted : Bool) where
  unfoldable pub epoll_recalc : Epollop K → ℕ → Option (Status × Epollop K)
  epoll_recalc o max =
      if ltb max o.nfds
      then some (success, o)
      else (grow_nfds 31 o.nfds max >>= λ nfds.
          if granted
          then some (
            success,
            record o { fds = λ i. if ltb i o.nfds then o.fds i else no_evepoll; nfds = nfds },
          )
          else some (failure, o))

  -- The events array doubles when it was filled.
  abbrev pub grow_events : ℕ → Epollop K → Epollop K
  grow_events res o =
      if res == o.nevents && ltb o.nevents 4096 && granted
      then record o { nevents = o.nevents * 2 }
      else o

module _ {K : Type 0} (kernel : Kernel K) where
  -- epoll_add behind the check of the array: the call of epoll_ctl and the entry.
  unfoldable pub enter : Epollop K → ℕ → ℕ → Event → Status × Epollop K
  enter o fd e ev =
      let evep = o.fds fd in
      let op =
        if is_some evep.evread || is_some evep.evwrite then epoll_ctl_mod else epoll_ctl_add in
      let (status, k) = kernel.epoll_ctl o.kernel op fd (record {
        epollin = is_some evep.evread || ev.ev_events.read;
        epollout = is_some evep.evwrite || ev.ev_events.write;
      }) in
      elim status [
        | failure ↦ (failure, record o { kernel = k })
        | success ↦ (
          success,
          record o {
            kernel = k;
            fds = update o.fds fd (record {
              evread = if ev.ev_events.read then some e else evep.evread;
              evwrite = if ev.ev_events.write then some e else evep.evwrite;
            });
          },
        )
      ]

  -- epoll_add for an event that is no signal. Its check of the array is the one that epoll_recalc makes.
  unfoldable pub add_fd : Bool → Epollop K → ℕ → Event → Option (Status × Epollop K)
  add_fd granted o e ev = slot ev.ev_fd >>= λ fd. epoll_recalc granted o fd >>= λ (status, o').
      elim status [
        | failure ↦ some (failure, o')
        | success ↦ check (ltb fd o'.nfds) >> some (enter o' fd e ev)
      ]

  -- epoll_del behind the check of the array.
  unfoldable pub leave : Epollop K → ℕ → Event → Status × Epollop K
  leave o fd ev =
      let evep = o.fds fd in
      let keep_write = ev.ev_events.read && not ev.ev_events.write && is_some evep.evwrite in
      let keep_read = ev.ev_events.write && not ev.ev_events.read && is_some evep.evread in
      let op = if keep_write || keep_read then epoll_ctl_mod else epoll_ctl_del in
      let (status, k) = kernel.epoll_ctl o.kernel op fd (record {
        epollin = keep_read || (ev.ev_events.read && not keep_write);
        epollout = keep_write || (ev.ev_events.write && not keep_read);
      }) in
      (
        status,
        record o {
          kernel = k;
          fds = update o.fds fd (record {
            evread = if keep_read then evep.evread else none;
            evwrite = if keep_write then evep.evwrite else none;
          });
        },
      )

  -- epoll_del for an event that is no signal.
  unfoldable pub del_fd : Epollop K → Event → Option (Status × Epollop K)
  del_fd o ev = slot ev.ev_fd >>= λ fd. some (if ltb fd o.nfds then leave o fd ev else (success, o))

abbrev pub with_epollop :
    {K S : Type 0} → EventBase (EpollBase K S) → Epollop K → EventBase (EpollBase K S)
with_epollop b o = record b { evbase = record (b.evbase) { epollop = o } }

module _ {K S : Type 0} (kernel : Kernel K) (signals : Signals K S) (granted : Bool) where
  unfoldable pub epoll_add :
      EventBase (EpollBase K S) → ℕ → Option (Status × EventBase (EpollBase K S))
  epoll_add b e =
      if (b.event e).ev_events.signal
      then signals.evsignal_add b e
      else (add_fd kernel granted b.evbase.epollop e (b.event e) >>= λ (status, o).
          some (status, with_epollop b o))

  unfoldable pub epoll_del :
      EventBase (EpollBase K S) → ℕ → Option (Status × EventBase (EpollBase K S))
  epoll_del b e =
      if (b.event e).ev_events.signal
      then signals.evsignal_del b e
      else (del_fd kernel b.evbase.epollop (b.event e) >>= λ (status, o).
          some (status, with_epollop b o))

  -- event_active(ev, mask, 1), if there is an event.
  abbrev pub activate :
      EventBase (EpollBase K S) → Option ℕ → EventMask → Option (EventBase (EpollBase K S))
  activate b none mask = some b
  activate b (some e) mask = event_active b e mask 1

  -- One round of the `for` of epoll_dispatch.
  unfoldable pub report_one :
      EventBase (EpollBase K S) → Report → Option (EventBase (EpollBase K S))
  report_one b r = elim (slot r.fd) [
    | none ↦ some b
    | some fd ↦
        let evep = b.evbase.epollop.fds fd in
        if not (ltb fd b.evbase.epollop.nfds)
        then some b
        else (activate b (if r.broken || r.epollin then evep.evread else none) ev_read_mask
            >>= λ b'.
                activate b' (if r.broken || r.epollout then evep.evwrite else none) ev_write_mask)
  ]

  unfoldable pub report_all :
      EventBase (EpollBase K S) → List Report → Option (EventBase (EpollBase K S))
  report_all b [] = some b
  report_all b (r ∷ rs) = report_one b r >>= λ b'. report_all b' rs

  unfoldable pub epoll_dispatch :
      EventBase (EpollBase K S) → Option Timeval → Option (Status × EventBase (EpollBase K S))
  epoll_dispatch b tv =
      let o = b.evbase.epollop in
      let (res, k) = kernel.epoll_wait o.kernel o.nevents (wait_ms tv) in
      let waited = with_epollop b (record o { kernel = k }) in
      elim res [
        | wait_failed ↦ some (failure, waited)
        | interrupted ↦ signals.evsignal_process waited >>= λ b'. some (success, b')
        | ready rs ↦
            (if signals.evsignal_caught waited.evbase.sig
              then signals.evsignal_process waited
              else some waited)
            >>= λ b₁. report_all b₁ rs >>= λ b₂. some (
              success,
              with_epollop b₂ (grow_events granted (count_reports rs) b₂.evbase.epollop),
            )
      ]

  -- The table of the backend's functions.
  unfoldable pub epollops : Eventop (EpollBase K S)
  unfolding epoll_add epoll_del epoll_dispatch
  epollops = record { add = epoll_add; del = epoll_del; dispatch = epoll_dispatch }
