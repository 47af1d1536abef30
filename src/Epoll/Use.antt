-- ===== src/Epoll/Use.antt =====
-- The array and the kernel over the whole use of a backend: from epoll_init on, through any calls of epoll_add and
-- epoll_del.
use ilibevent.Base.{
  ℕ, ◌^◌, ◌<◌, ◌≡◌, refl, sym, ap, subst, ◌∙◌, Bool, true, false, ◌||◌, Option, none, some, arith,
  Status, success, ◌>>=◌,
}
use ilibevent.Base.Int.{pos}
use ilibevent.State.{Event, EventBase}
use ilibevent.Epoll.{Kernel, Epollop, EpollBase, add_fd, del_fd, with_epollop}
use ilibevent.Epoll.Growth.{Sane}
use ilibevent.Epoll.Interests.{KernelLaw, Synced}
use ilibevent.Epoll.Entry.{add_fd-AddResult}
use ilibevent.Epoll.Removal.{del_fd-DelResult}
use ilibevent.Epoll.Lifecycle.{new_epollop, epoll_init}

-- The result that a run is known to give.
same_result :
    {A : Type 0} (P : Status → A → Type 0) (r : Option (Status × A)) (s : Status) (a : A)
    → r ≡ some (s, a)
    → (t : Status) × (b : A) × (r ≡ some (t, b)) × P t b
    → P s a
same_result {A = A} P r s a run (t, b, run', p) =
    subst (λ q. P (q.0) (q.1)) (ap or_else (sym run' ∙ run)) p
  where
    or_else : Option (Status × A) → Status × A
    or_else none = (t, b)
    or_else (some q) = q

-- `evsignal_init` is a function that leaves the backend alone.
module _ {K S : Type 0} (kernel : Kernel K) (law : KernelLaw kernel)
    (evsignal_init : EventBase (EpollBase K S) → Option (EventBase (EpollBase K S)))
    (quiet : (b b' : EventBase (EpollBase K S))
      → evsignal_init b ≡ some b'
      → b'.evbase.epollop ≡ b.evbase.epollop) where
  -- A descriptor that epoll_create has just given.
  abbrev pub Fresh : K → Type 0
  Fresh k = (fd : ℕ) → law.interest k fd ≡ none

  -- What epoll_init and then any calls of epoll_add and epoll_del can leave. A call of epoll_add may fail, since
  -- there is no memory or the kernel refuses; the calls of epoll_del succeed.
  pub data Used : Epollop K → Type 0 where
    opened :
        (created : Option K) (room room_events room_fds : Bool) (b b' : EventBase (EpollBase K S))
        → ((k : K) → created ≡ some k → Fresh k)
        → epoll_init evsignal_init created room room_events room_fds b ≡ some (some b')
        → Used b'.evbase.epollop
    added :
        (o o' : Epollop K) (granted : Bool) (e fd : ℕ) (ev : Event) (status : Status)
        → Used o
        → ev.ev_fd ≡ pos fd
        → fd < 2 ^ 30
        → (ev.ev_events.read || ev.ev_events.write) ≡ true
        → add_fd kernel granted o e ev ≡ some (status, o')
        → Used o'
    deleted :
        (o o' : Epollop K) (fd : ℕ) (ev : Event)
        → Used o
        → ev.ev_fd ≡ pos fd
        → del_fd kernel o ev ≡ some (success, o')
        → Used o'

  new-Synced : (k : K) → Fresh k → Synced law (new_epollop k)
  new-Synced k fresh fd = fresh fd ∙ ground arith

  inner :
      (r : Option (EventBase (EpollBase K S))) (b' : EventBase (EpollBase K S))
      → (r >>= λ c. some (some c)) ≡ some (some b')
      → r ≡ some b'
  inner none b' run = absurd (ground arith)
  inner (some c) b' run = ap (λ t. t >>= λ u. u) run

  init_lem :
      (created : Option K) (room room_events room_fds : Bool) (b b' : EventBase (EpollBase K S))
      → epoll_init evsignal_init created room room_events room_fds b ≡ some (some b')
      → (k : K) × (created ≡ some k) × (b'.evbase.epollop ≡ new_epollop k)
  unfolding epoll_init
  init_lem none room room_events room_fds b b' run = absurd (ground arith)
  init_lem (some k) true true true b b' run = (
    k,
    refl,
    quiet (with_epollop b (new_epollop k)) b'
        (inner (evsignal_init (with_epollop b (new_epollop k))) b' run),
  )
  init_lem (some k) false room_events room_fds b b' run = absurd (ground arith)
  init_lem (some k) true false room_fds b b' run = absurd (ground arith)
  init_lem (some k) true true false b b' run = absurd (ground arith)

  -- Whatever calls of epoll_add and epoll_del follow epoll_init, for events that wait to read or write on descriptors
  -- below 2 ^ 30, if each epoll_del succeeds, the kernel waits for exactly what the array says, and the size of the
  -- array is an int above 0, so that the next epoll_add returns too.
  pub Used-Synced : (o : Epollop K) → Used o → Synced law o × Sane o
  Used-Synced _ (opened created room room_events room_fds b b' fresh run) =
      let (k, given, same) = init_lem created room room_events room_fds b b' run in
      subst (λ q. Synced law q × Sane q) (sym same)
        (new-Synced k (fresh k given), (omega arith, omega arith))
  Used-Synced _ (added o o' granted e fd ev status u at bound io run) =
      let (synced, sane) = Used-Synced o u in
      same_result (λ s q. Synced law q × Sane q) (add_fd kernel granted o e ev) status o' run
        (let (t, b, run', (y, n, _)) =
            add_fd-AddResult law granted o fd e ev at bound io sane synced in
          (t, b, run', (y, n)))
  Used-Synced _ (deleted o o' fd ev u at run) =
      let (synced, sane) = Used-Synced o u in
      same_result (λ s q. s ≡ success → Synced law q × Sane q) (del_fd kernel o ev) success o' run
        (let (t, b, run', d) = del_fd-DelResult law o fd ev at synced in
          (t, b, run', λ ok. (d.synced ok, subst (λ n. (0 < n) × (n < 2 ^ 31)) (sym d.count) sane)))
        refl
