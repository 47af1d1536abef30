-- ===== src/Event/Expiry.antt =====
-- timeout_process activates the events whose time has come, and no others.
use ilibevent.Base.{
  ℕ, zero, suc, ◌+◌, ◌<◌, ◌≡◌, refl, sym, ap, ◌∙◌, subst, Bool, true, false, not, ◌&&◌, List, arith,
  ◌==◌, ==_iff, if◌then◌else◌, update, Bool-cases, inl, inr, ◌>>=◌, Option, none, some, Status,
}
use ilibevent.Time.{Timeval, timercmp_gt}
use ilibevent.MinHeap.{min_heap_top, min_heap_empty}
use ilibevent.MinHeap.Valid.{TopOf, top_least}
use ilibevent.State.{ev_timeout_mask, EventBase, Eventop}
use ilibevent.Event.Setup.{gettime}
use ilibevent.Event.Add.{event_del, event_active}
use ilibevent.Event.Timer.{expire, timeout_process}
use ilibevent.Event.Invariant.{View, Inv}
use ilibevent.Event.Backend.{Backend, Keeps, Keeps-Fit, same-Keeps}
use ilibevent.Event.Delete.{off_queues, event_del-Deleted, update-at, update-again}
use ilibevent.Event.Activate.{activated, event_active-Activated}
use ilibevent.Event.Due.{
  Timed, due, expired, Expired, none_due, InHeap-timeout, empty-none_due, later-none_due,
}

-- One round: the root is deleted and activated.
pub record Round {B : Type 0} {evsel : Eventop B} (law : Backend evsel) (known : List ℕ)
    (b : EventBase B) (e : ℕ) (b' : EventBase B) : Type 0 where
  pub view : View
  pub inv : Inv known view b'
  pub events : b'.event ≡ update b.event e (expired (b.event e))
  pub timeouts : b'.timeheap.ev_timeout ≡ b.timeheap.ev_timeout
  pub priorities : b'.nactivequeues ≡ b.nactivequeues
  pub keeps : Keeps law b b'
  pub size : b'.timeheap.n + 1 ≡ b.timeheap.n

module _ {B : Type 0} (evsel : Eventop B) (law : Backend evsel) (known : List ℕ)
    (now : Timeval) where
  -- What is done with the event at the root, given whether it waits longer.
  abbrev after : ℕ → EventBase B → ℕ → Bool → Option (EventBase B)
  after fuel b e t = elim t [
    | true ↦ some b
    | false ↦ event_del evsel b e >>= λ (_, c).
        event_active c e ev_timeout_mask 1 >>= λ d. expire evsel fuel now d
  ]

  expire_root :
      (fuel : ℕ) (b : EventBase B) (e : ℕ) (t : Bool)
      → min_heap_top b.timeheap ≡ some (some e)
      → timercmp_gt (b.timeheap.ev_timeout e) now ≡ t
      → expire evsel (suc fuel) now b ≡ after fuel b e t
  unfolding expire
  expire_root fuel b e t top h = rw top (ap (after fuel b e) h)

  one_round :
      (v : View) (b : EventBase B) (i : Inv known v b) (t : Timed law known b) (e : ℕ)
      → (b.event e).ev_flags.timeout ≡ true
      → (status : Status) × (b₁ : EventBase B) × (b₂ : EventBase B) × (event_del evsel b e
          ≡ some (status, b₁))
        × (event_active b₁ e ev_timeout_mask 1 ≡ some b₂)
        × Round law known b e b₂
  one_round v b i t e h =
      let (member, based, fits, fit) = t e h in
      let (status, b₁, run₁, d) = event_del-Deleted evsel law known v b i e member fit based in
      let here : b₁.event e ≡ off_queues (b.event e) =
        ap (λ f. f e) d.events ∙ update-at b.event e _ in
      let (b₂, run₂, a) =
        event_active-Activated known _ b₁ d.inv e member ev_timeout_mask 1
          (ap (λ x. x.ev_base) here ∙ based) (rw (ap (λ x. x.ev_pri) here, d.priorities) fits) in
      (
        status,
        b₁,
        b₂,
        run₁,
        run₂,
        record {
          view = _;
          inv = a.inv;
          events =
              a.events
              ∙ ap (λ f. update f e (activated (f e) ev_timeout_mask 1)) d.events
              ∙ update-again b.event e (off_queues (b.event e))
                  (λ y. activated y ev_timeout_mask 1);
          timeouts = ap (λ x. x.ev_timeout) a.heap ∙ d.timeouts;
          priorities = a.priorities ∙ d.priorities;
          keeps = λ fd m h. same-Keeps law b₁ b₂ a.backend fd m (d.keeps fd m h);
          size = ground (arith, d.size, ap (λ x. x.n) a.heap);
        },
      )

  round-Timed :
      (b b' : EventBase B) (e : ℕ) → Timed law known b → Round law known b e b' → Timed law known b'
  round-Timed b b' e t r x h = elim (Bool-cases (e == x)) [
    | inl same ↦ absurd (ground (arith, ap (λ f. (f x).ev_flags.timeout) r.events))
    | inr other ↦
        let untouched : b'.event x ≡ b.event x = ap (λ f. f x) r.events ∙ rw other refl in
        let (member, based, fits, fit) = t x (sym (ap (λ y. y.ev_flags.timeout) untouched) ∙ h) in
        (
          member,
          ap (λ y. y.ev_base) untouched ∙ based,
          rw (ap (λ y. y.ev_pri) untouched, r.priorities) fits,
          Keeps-Fit law b b' x r.keeps (ap (λ y. y.ev_fd) untouched)
              (ap (λ y. y.ev_events) untouched) fit,
        )
  ]

  rounds_event :
      (b b₁ b₂ : EventBase B) (e y : ℕ)
      → due now b e ≡ true
      → Round law known b e b₁
      → Expired known now b₁ b₂
      → b₂.event y ≡ (if due now b y then expired (b.event y) else b.event y)
  rounds_event b b₁ b₂ e y h r x = elim (Bool-cases (e == y)) [
    | inl same ↦
        let here : b₁.event y ≡ expired (b.event y) =
          ap (λ f. f y) r.events ∙ rw same (ap (λ z. expired (b.event z)) ((==_iff e y).0 same)) in
        let was_due : due now b y ≡ true =
          subst (λ z. due now b z ≡ true) ((==_iff e y).0 same) h in
        let not_due : due now b₁ y ≡ false =
          ap (λ z. z.ev_flags.timeout && not (timercmp_gt (b₁.timeheap.ev_timeout y) now)) here in
        x.events y ∙ rw not_due (rw was_due here)
    | inr other ↦
        let untouched : b₁.event y ≡ b.event y = ap (λ f. f y) r.events ∙ rw other refl in
        let still_due : due now b₁ y ≡ due now b y = rw (untouched, r.timeouts) refl in
        x.events y ∙ rw (still_due, untouched) refl
  ]

  -- A round and the rest.
  round-Expired :
      (b b₁ b₂ : EventBase B) (e : ℕ)
      → due now b e ≡ true
      → Round law known b e b₁
      → Expired known now b₁ b₂
      → Expired known now b b₂
  round-Expired b b₁ b₂ e h r x = record {
    view = x.view;
    inv = x.inv;
    events = λ y. rounds_event b b₁ b₂ e y h r x;
    timeouts = x.timeouts ∙ r.timeouts;
    priorities = x.priorities ∙ r.priorities;
  }

  Finishes : ℕ → EventBase B → Type 0
  Finishes fuel b =
      (b' : EventBase B) × (expire evsel fuel now b ≡ some b') × Expired known now b b'

  Ends : ℕ → Type 0
  Ends fuel =
      (v : View) (b : EventBase B)
      → Inv known v b
      → Timed law known b
      → b.timeheap.n < fuel
      → Finishes fuel b

  by_root :
      (fuel : ℕ)
      → Ends fuel
      → (v : View) (b : EventBase B) (i : Inv known v b) (t : Timed law known b)
      → b.timeheap.n < suc fuel
      → (e : ℕ) → min_heap_top b.timeheap ≡ some (some e)
      → TopOf b.timeheap (some e)
      → Finishes (suc fuel) b
  unfolding Ends Finishes expire
  by_root fuel next v b i t h e top least =
      elim (Bool-cases (timercmp_gt (b.timeheap.ev_timeout e) now)) [
        | inl later ↦ (
          b,
          expire_root fuel b e true top later,
          none_due known now v b i (later-none_due known now v b i e least later),
        )
        | inr come ↦
            let waits = InHeap-timeout known v b i e least.0 in
            let (status, b₁, b₂, run₁, run₂, r) = one_round v b i t e waits in
            let (b₃, run₃, x) =
              next r.view b₂ r.inv (round-Timed b b₂ e t r) (omega (arith, r.size, h)) in
            (
              b₃,
              expire_root fuel b e false top come ∙ rw (run₁, run₂) run₃,
              round-Expired b b₂ b₃ e (rw (waits, come) refl) r x,
            )
      ]

  by_top :
      (fuel : ℕ)
      → Ends fuel
      → (v : View) (b : EventBase B) (i : Inv known v b) (t : Timed law known b)
      → b.timeheap.n < suc fuel
      → (r : Option ℕ) × (min_heap_top b.timeheap ≡ some r) × TopOf b.timeheap r
      → Finishes (suc fuel) b
  unfolding Finishes expire
  by_top fuel next v b i t h (none, top, empty) =
      (b, rw top refl, none_due known now v b i (empty-none_due known now v b i empty))
  by_top fuel next v b i t h (some e, top, least) = by_root fuel next v b i t h e top least

  expire-Expired : (fuel : ℕ) → Ends fuel
  unfolding Ends
  expire-Expired zero v b i t h = absurd (omega arith)
  expire-Expired (suc fuel) v b i t h =
      by_top fuel (expire-Expired fuel) v b i t h (top_least b.timeheap i.heap)

  -- timeout_process, on a base with the invariant in which every event with a timeout is known, has an event_base and
  -- a priority below the number of queues and is accepted by the backend, when the clock reads `now`, always ends
  -- within its rounds. Then the events
  -- whose timeout is not after `now` have left every queue and are active, once and for their
  -- timeout; every other event is as it was, and the invariant holds.
  pub timeout_process-Expired :
      (clock : Option Timeval) (v : View) (b : EventBase B)
      → Inv known v b
      → Timed law known b
      → gettime b clock ≡ some now
      → (b' : EventBase B) × (timeout_process evsel clock b ≡ some b') × Expired known now b b'
  unfolding timeout_process Finishes Ends
  timeout_process-Expired clock v b i t reads = elim (Bool-cases (min_heap_empty b.timeheap)) [
    | inl h ↦
        (b, rw h refl, none_due known now v b i (empty-none_due known now v b i (ground arith)))
    | inr h ↦
        let (b', run, x) = expire-Expired (b.timeheap.n + 1) v b i t (omega arith) in
        (b', rw (h, reads) run, x)
  ]
