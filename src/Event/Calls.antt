-- ===== src/Event/Calls.antt =====
-- event_process_active: which queue it takes, and how it runs a callback.
use ilibevent.Base.{
  ℕ, zero, suc, ◌+◌, ◌-◌, ◌≤◌, ◌<◌, ◌≡◌, ◌≢◌, refl, ap, subst, ltb, ◌∙◌, Bool, true, false, ◌||◌,
  List, [], ◌∷◌, arith, ◌==◌, Bool-cases, inl, inr, Option, none, some, is_some,
}
use ilibevent.Base.Int.{pos}
use ilibevent.TailQueue.{head_of}
use ilibevent.TailQueue.Chain.{Chain}
use ilibevent.State.{Event, EventBase}
use ilibevent.Event.Queues.{set_event}
use ilibevent.Event.Loop.{find_active, run_calls}
use ilibevent.Event.Invariant.{active_weight, total, View, Inv}

is_none : (r : Option ℕ) → is_some r ≡ false → r ≡ none
is_none none h = refl
is_none (some x) h = ground arith

module _ {B : Type 0} where
  -- The first nonempty list among `k` from `i` on.
  abbrev FirstFrom : EventBase B → ℕ → ℕ → Option ℕ → Type 0
  FirstFrom b k i none = (j : ℕ) → i ≤ j → j < i + k → b.activequeues.tqh_first j ≡ none
  FirstFrom b k i (some q) =
      (i ≤ q)
      × (q < i + k)
      × (is_some (b.activequeues.tqh_first q) ≡ true)
      × ((j : ℕ) → i ≤ j → j < q → b.activequeues.tqh_first j ≡ none)

  widen :
      (b : EventBase B) (k i : ℕ) (r : Option ℕ)
      → is_some (b.activequeues.tqh_first i) ≡ false
      → FirstFrom b k (suc i) r
      → FirstFrom b (suc k) i r
  widen b k i none h f = λ j p q. elim (Bool-cases (i == j)) [
    | inl same ↦ ground (arith, is_none (b.activequeues.tqh_first i) h)
    | inr other ↦ f j (ground arith) (omega arith)
  ]
  widen b k i (some q) h (l, m, here, before) = (
    omega arith,
    omega arith,
    here,
    λ j p r. elim (Bool-cases (i == j)) [
      | inl same ↦ ground (arith, is_none (b.activequeues.tqh_first i) h)
      | inr other ↦ before j (ground arith) r
    ],
  )

  find_active-FirstFrom : (b : EventBase B) (k i : ℕ) → FirstFrom b k i (find_active b k i)
  unfolding find_active
  find_active-FirstFrom b zero i = λ j p q. absurd (omega arith)
  find_active-FirstFrom b (suc k) i = elim (Bool-cases (is_some (b.activequeues.tqh_first i))) [
    | inl h ↦ rw h (omega arith, omega arith, h, λ j p q. absurd (omega arith))
    | inr h ↦ rw h (widen b k i (find_active b k (suc i)) h (find_active-FirstFrom b k (suc i)))
  ]

-- No event of the list is at its head.
head_lem :
    {B : Type 0} (known : List ℕ) (v : View) (b : EventBase B) (i : Inv known v b) (q : ℕ)
    → b.activequeues.tqh_first q ≡ none
    → v.active q ≡ []
head_lem known v b i q h = empty (v.active q) (i.active_linked.chain q)
  where
    empty :
        (xs : List ℕ) → Chain b.activequeues (head_of q) xs (b.activequeues.tqh_last q) → xs ≡ []
    empty [] c = refl
    empty (x ∷ xs) c = absurd (ground (arith, c.0))

-- If the total of the active events is not 0, one of them is active.
pub some_active :
    (event : ℕ → Event) (es : List ℕ)
    → total active_weight event es ≢ 0
    → (e : ℕ) × ((event e).ev_flags.active ≡ true)
some_active event [] h = absurd (h refl)
some_active event (x ∷ es) h = elim (Bool-cases (event x).ev_flags.active) [
  | inl p ↦ (x, p)
  | inr p ↦ some_active event es (λ z. h (ground arith))
]

-- The queue `q` has the active events that come first.
pub record FirstActive {B : Type 0} (v : View) (b : EventBase B) (q : ℕ) : Type 0 where
  pub inside : q < b.nactivequeues
  pub used : v.active q ≢ []
  pub before : (j : ℕ) → j < q → v.active j ≡ []
  pub urgent : (e : ℕ) → (b.event e).ev_flags.active ≡ true → q ≤ (b.event e).ev_pri

module _ {B : Type 0} (known : List ℕ) (v : View) (b : EventBase B) (i : Inv known v b) where
  by_first :
      (e : ℕ)
      → (b.event e).ev_flags.active ≡ true
      → (r : Option ℕ) → FirstFrom b b.nactivequeues 0 r
      → (q : ℕ) × (r ≡ some q) × FirstActive v b q
  by_first e h none f = absurd (
      ground (
        arith,
        i.on_active e (b.event e).ev_pri,
        head_lem known v b i (b.event e).ev_pri
            (f (b.event e).ev_pri (omega arith) (omega (arith, i.priority e h))),
      ))
  by_first e h (some q) (l, m, here, before) = (
    q,
    refl,
    record {
      inside = omega arith;
      used = λ p.
          (ground (
            arith,
            here,
            (subst (λ xs. Chain b.activequeues (head_of q) xs (b.activequeues.tqh_last q)) p
                (i.active_linked.chain q)).0,
          ));
      before = λ j p. head_lem known v b i j (before j (omega arith) p);
      urgent = λ x p. elim (Bool-cases (ltb (b.event x).ev_pri q)) [
        | inr le ↦ ground arith
        | inl lt ↦ absurd (
            ground (
              arith,
              i.on_active x (b.event x).ev_pri,
              head_lem known v b i (b.event x).ev_pri
                  (before (b.event x).ev_pri (omega arith) (ground arith)),
            ))
      ];
    },
  )

  -- If the count of active events is not 0, event_process_active finds a queue, so that its assertion
  -- holds: the first one that is not empty, and no active event has a smaller priority.
  pub find_active-FirstActive :
      b.event_count_active ≢ pos 0
      → (q : ℕ) × (find_active b b.nactivequeues 0 ≡ some q) × FirstActive v b q
  find_active-FirstActive h =
      let (e, p) = some_active b.event known (λ z. h (i.counted_active ∙ ap pos z)) in
      by_first e p (find_active b b.nactivequeues 0) (find_active-FirstFrom b b.nactivequeues 0)

-- A callback that returns and does not raise the number of calls that are left.
abbrev pub Obedient : {B : Type 0} → (EventBase B → ℕ → Option (EventBase B)) → Type 0
Obedient {B} callback =
    (b : EventBase B) (e : ℕ)
    → (b' : EventBase B) × (callback b e ≡ some b') × (b'.ncalls ≤ b.ncalls)

-- How the calls end: all made, or stopped by a signal or a break.
abbrev pub Ended : {B : Type 0} → Bool → EventBase B → Type 0
Ended true b = (b.event_gotsig || b.event_break) ≡ true
Ended false b = b.ncalls ≡ 0

module _ {B : Type 0} (callback : EventBase B → ℕ → Option (EventBase B)) (law : Obedient callback)
    (e : ℕ) where
  abbrev pub Halts : ℕ → EventBase B → Type 0
  Halts fuel b =
      (returned : Bool) × (b' : EventBase B) × (run_calls callback fuel b e ≡ some (returned, b'))
      × Ended returned b'

  -- What is done after the callback.
  abbrev choose : ℕ → EventBase B → Bool → Option (Bool × EventBase B)
  choose fuel b t = elim t [ true ↦ some (true, b) | false ↦ run_calls callback fuel b e ]

  abbrev after : ℕ → EventBase B → Option (Bool × EventBase B)
  after fuel b = choose fuel b (b.event_gotsig || b.event_break)

  abbrev entered : EventBase B → EventBase B
  entered b =
      set_event (record b { ncalls = b.ncalls - 1 }) e
        (record (b.event e) { ev_ncalls = b.ncalls - 1 })

  calls_step :
      (fuel : ℕ) (b b' : EventBase B)
      → (b.ncalls == 0) ≡ false
      → callback (entered b) e ≡ some b'
      → run_calls callback (suc fuel) b e ≡ after fuel b'
  unfolding run_calls
  calls_step fuel b b' more run = rw more (rw run refl)

  after_lem :
      (fuel : ℕ) (b : EventBase B)
      → Halts fuel b
      → (r : Bool) × (b' : EventBase B) × (after fuel b ≡ some (r, b')) × Ended r b'
  after_lem fuel b (r, b', run, ended) = elim (Bool-cases (b.event_gotsig || b.event_break)) [
    | inl h ↦ (true, b, ap (choose fuel b) h, h)
    | inr h ↦ (r, b', ap (choose fuel b) h ∙ run, ended)
  ]

  -- For a callback that returns and does not raise the number of calls left, the loop that makes the
  -- calls ends after at most that number of rounds: either no call is left, or a signal or a
  -- break has come.
  pub run_calls-Halts : (fuel : ℕ) (b : EventBase B) → b.ncalls ≤ fuel → Halts fuel b
  unfolding run_calls
  run_calls-Halts zero b h =
      let none_left : (b.ncalls == 0) ≡ true = ground arith in
      (false, b, rw none_left refl, omega arith)
  run_calls-Halts (suc fuel) b h = elim (Bool-cases (b.ncalls == 0)) [
    | inl none_left ↦ (false, b, rw none_left refl, ground arith)
    | inr more ↦
        let (b', run, fewer) = law (entered b) e in
        let (r, b'', next, ended) = after_lem fuel b' (run_calls-Halts fuel b' (ground arith)) in
        (r, b'', calls_step fuel b b' more run ∙ next, ended)
  ]
