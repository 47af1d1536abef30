-- ===== src/MinHeap/Up.antt =====
-- min_heap_shift_up_: from an array that is in order but for the edge above the hole.
use ilibevent.Base.{
  ℕ, suc, zero, ◌+◌, ◌≤◌, ◌<◌, ◌≡◌, ◌≢◌, ◌↔◌, refl, sym, fun_ext, subst, inl, inr, true, false,
  ◌&&◌, Option, some, arith, ltb, ◌==◌, update, Bool-cases,
}
use ilibevent.Time.Order.{timercmp_asymm, timercmp_trans}
use ilibevent.MinHeap.{
  u32_mod, MinHeap, min_heap_elem_greater, load, place, shift_up, min_heap_shift_up,
}
use ilibevent.MinHeap.Order.{up, Order, Ordered, UpInv, exchange, UpInv-exchange, UpInv-Ordered}

pub greater-Order : (s : MinHeap) → Order (min_heap_elem_greater s)
greater-Order s = record {
  asymm = λ x y. timercmp_asymm (s.ev_timeout x) (s.ev_timeout y);
  trans = λ x y z. timercmp_trans (s.ev_timeout x) (s.ev_timeout y) (s.ev_timeout z);
}

-- `x` is one of the first `m` entries.
abbrev pub Holds : (ℕ → ℕ) → ℕ → ℕ → Type 0
Holds f m x = (i : ℕ) × (i < m) × (f i ≡ x)

abbrev pub filled : MinHeap → ℕ → ℕ → ℕ → ℕ
filled s hole e = update s.p hole e

-- The first `m` entries but the hole know their place, and `e` is none of them.
pub record Carries (s : MinHeap) (m hole e : ℕ) : Type 0 where
  pub indexed : (i : ℕ) → i < m → i ≢ hole → s.min_heap_idx (s.p i) ≡ i
  pub absent : (i : ℕ) → i < m → i ≢ hole → s.p i ≢ e

-- What is left alone by a shift among the first `m` entries.
pub record Frame (s : MinHeap) (m hole e : ℕ) (t : MinHeap) : Type 0 where
  pub count : t.n ≡ s.n
  pub capacity : t.a ≡ s.a
  pub timeouts : t.ev_timeout ≡ s.ev_timeout
  pub outside :
      (x : ℕ)
      → x ≢ e
      → ((i : ℕ) → i < m → i ≢ hole → s.p i ≢ x)
      → t.min_heap_idx x ≡ s.min_heap_idx x

-- `e` has found its place: the first `m` entries are in heap order, know their place, and are those
-- from before with `e` in the hole.
pub record Settled (s : MinHeap) (m hole e : ℕ) (t : MinHeap) : Type 0 where
  pub ordered : Ordered (min_heap_elem_greater s) t.p m
  pub indexed : (i : ℕ) → i < m → t.min_heap_idx (t.p i) ≡ i
  pub same : (x : ℕ) → Holds (filled s hole e) m x ↔ Holds t.p m x
  pub frame : Frame s m hole e t

abbrev pub Settles : MinHeap → ℕ → ℕ → ℕ → Option MinHeap → Type 0
Settles s m hole e r = (t : MinHeap) × (r ≡ some t) × Settled s m hole e t

abbrev pub placed : MinHeap → ℕ → ℕ → MinHeap
placed s i e = record s { p = update s.p i e; min_heap_idx = update s.min_heap_idx e i }

pub place-placed : (s : MinHeap) (i e : ℕ) → i < s.a → place s i e ≡ some (placed s i e)
unfolding place
place-placed s i e h = ground arith

pub load-ok : (s : MinHeap) (i : ℕ) → i < s.a → load s i ≡ some (s.p i)
load-ok s i h = ground arith

-- Writing `e` into the hole settles it where the edge above is in order too.
pub placed-Settled :
    (s : MinHeap) (m hole e : ℕ)
    → Carries s m hole e
    → Ordered (min_heap_elem_greater s) (filled s hole e) m
    → Settled s m hole e (placed s hole e)
placed-Settled s m hole e c o = record {
  ordered = o;
  indexed = λ i h. ground (arith, c.indexed i, c.absent i);
  same = λ x. (λ h. h, λ h. h);
  frame = record {
    count = refl;
    capacity = refl;
    timeouts = refl;
    outside = λ x h k. ground arith;
  };
}

pub exchange-Holds :
    (f : ℕ → ℕ) (m i j x : ℕ) → i < m → j < m → Holds f m x → Holds (exchange f i j) m x
exchange-Holds f m i j x hi hj (k, hk, e) = elim (Bool-cases (k == i)) [
  | inl here ↦ (j, hj, ground arith)
  | inr other ↦ elim (Bool-cases (k == j)) [
    | inl there ↦ (i, hi, ground arith)
    | inr apart ↦ (k, hk, ground arith)
  ]
]

exchange-exchange : (f : ℕ → ℕ) (i j : ℕ) → exchange (exchange f i j) i j ≡ f
exchange-exchange f i j = fun_ext λ k. ground arith

module _ (s : MinHeap) (m hole e c : ℕ) (ha : m ≤ s.a) (hm : hole < m) (hc : c < m)
    (apart : c ≢ hole) where
  -- Moving the entry at `c` into the hole is an exchange, with `e` in the hole.
  pub filled-exchange : filled (placed s hole (s.p c)) c e ≡ exchange (filled s hole e) hole c
  filled-exchange = fun_ext λ k. ground arith

  pub placed-Carries : Carries s m hole e → Carries (placed s hole (s.p c)) m c e
  placed-Carries k = record {
    indexed = λ i p q. ground (arith, k.indexed i, k.indexed c, k.absent i);
    absent = λ i p q. ground (arith, k.absent i, k.absent c);
  }

  pub Settled-move :
      Carries s m hole e
      → (t : MinHeap) → Settled (placed s hole (s.p c)) m c e t
      → Settled s m hole e t
  Settled-move k t v = record {
    ordered = v.ordered;
    indexed = v.indexed;
    same = λ x. (
      λ h.
          (v.same x).0
            (subst (λ f. Holds f m x) (sym filled-exchange) (exchange-Holds _ m hole c x hm hc h)),
      λ h.
          let moved = subst (λ f. Holds f m x) filled-exchange ((v.same x).1 h) in
          subst (λ f. Holds f m x) (exchange-exchange (filled s hole e) hole c)
            (exchange-Holds _ m hole c x hm hc moved),
    );
    frame = record {
      count = v.frame.count;
      capacity = v.frame.capacity;
      timeouts = v.frame.timeouts;
      outside = λ x ne out.
          let elsewhere = out c hc apart in
          let kept = v.frame.outside x ne (λ i p q. ground (arith, out i p, elsewhere)) in
          ground (arith, kept, elsewhere);
    };
  }

  pub Settles-move :
      Carries s m hole e
      → (r : Option MinHeap) → Settles (placed s hole (s.p c)) m c e r
      → Settles s m hole e r
  Settles-move k r (t, run, v) = (t, run, Settled-move k t v)

module _ (fuel : ℕ) (s : MinHeap) (hole e : ℕ) (ha : hole < s.a) (small : s.a < u32_mod) where
  -- Where the edge above the hole is in order, the loop writes `e` and ends.
  pub shift_up_still :
      (0 < hole → min_heap_elem_greater s (s.p (up hole)) e ≡ false)
      → shift_up (suc fuel) s hole e ≡ some (placed s hole e)
  unfolding shift_up place
  shift_up_still h = ground arith

  shift_up_rise :
      0 < hole
      → min_heap_elem_greater s (s.p (up hole)) e ≡ true
      → shift_up (suc fuel) s hole e ≡ shift_up fuel (placed s hole (s.p (up hole))) (up hole) e
  unfolding shift_up place
  shift_up_rise p h = ground arith

-- The loop settles `e`, given enough fuel.
pub shift_up-Settles :
    (fuel : ℕ) (s : MinHeap) (m hole e : ℕ)
    → hole < fuel
    → m ≤ s.a
    → s.a < u32_mod
    → hole < m
    → UpInv (min_heap_elem_greater s) (filled s hole e) m hole
    → Carries s m hole e
    → Settles s m hole e (shift_up fuel s hole e)
shift_up-Settles zero s m hole e f ha small hm v k = absurd (omega arith)
shift_up-Settles (suc fuel) s m hole e f ha small hm v k =
    elim (Bool-cases (ltb 0 hole && min_heap_elem_greater s (s.p (up hole)) e)) [
      | inl less ↦
          let rises : min_heap_elem_greater s (s.p (up hole)) e ≡ true = ground arith in
          let pos : 0 < hole = ground arith in
          let lower : up hole < hole = omega arith in
          let v' = UpInv-exchange (greater-Order s) (filled s hole e) m hole v pos (ground arith) in
          let e' = filled-exchange s m hole e (up hole) ha hm (omega arith) (omega arith) in
          rw (shift_up_rise fuel s hole e (omega arith) small pos rises) (
            Settles-move s m hole e (up hole) ha hm (omega arith) (omega arith) k _ (
              shift_up-Settles fuel (placed s hole (s.p (up hole))) m (up hole) e (omega arith) ha
                small (omega arith)
                (subst (λ f. UpInv (min_heap_elem_greater s) f m (up hole)) (sym e') v')
                (placed-Carries s m hole e (up hole) ha hm (omega arith) (omega arith) k)))
      | inr more ↦
          let still : 0 < hole → min_heap_elem_greater s (s.p (up hole)) e ≡ false =
            λ p. ground arith in
          (
            placed s hole e,
            shift_up_still fuel s hole e (omega arith) small still,
            placed-Settled s m hole e k
                (UpInv-Ordered (greater-Order s) _ m hole v (λ p. ground (arith, still p))),
          )
    ]

pub min_heap_shift_up_still :
    (s : MinHeap) (hole e : ℕ)
    → hole < s.a
    → s.a < u32_mod
    → (0 < hole → min_heap_elem_greater s (s.p (up hole)) e ≡ false)
    → min_heap_shift_up s hole e ≡ some (placed s hole e)
unfolding min_heap_shift_up
min_heap_shift_up_still s hole e ha small h =
    let fuel : hole + 1 ≡ suc hole = omega arith in
    rw fuel (shift_up_still hole s hole e ha small h)
