-- ===== src/MinHeap/Down.antt =====
-- min_heap_shift_down_: from an array that is in order but for the edges below the hole.
use ilibevent.Base.{
  ℕ, suc, zero, ◌+◌, ◌-◌, ◌*◌, ◌^◌, ◌≤◌, ◌<◌, ◌≡◌, refl, sym, subst, inl, inr, true, false, some,
  arith, leb, ◌==◌, Bool-cases,
}
use ilibevent.MinHeap.{
  MinHeap, min_heap_elem_greater, place, min_heap_shift_up, smaller_child, shift_down,
  min_heap_shift_down,
}
use ilibevent.MinHeap.Order.{up, DownInv, DownInv-exchange, DownInv-UpInv}
use ilibevent.MinHeap.Up.{
  greater-Order, filled, Carries, placed, Settles, filled-exchange, placed-Carries, Settles-move,
  shift_up-Settles, min_heap_shift_up_still,
}

-- `c` is a child of the hole, and none of its children is less.
record Least (s : MinHeap) (hole c : ℕ) : Type 0 where
  child : up c ≡ hole
  past : hole < c
  inside : c < s.n
  least : (d : ℕ) → 0 < d → d < s.n → up d ≡ hole → min_heap_elem_greater s (s.p c) (s.p d) ≡ false

pub greater_irrefl : (s : MinHeap) (x : ℕ) → min_heap_elem_greater s x x ≡ false
greater_irrefl s x = elim (Bool-cases (min_heap_elem_greater s x x)) [
  | inl h ↦ (greater-Order s).asymm x x h
  | inr h ↦ h
]

module _ (s : MinHeap) (hole r : ℕ) (ha : s.n ≤ s.a) (right : r ≡ 2 * (hole + 1))
    (some_child : r ≤ s.n) where
  -- The right child exists and is no less than the left one.
  Least-left :
      ((r < s.n) → min_heap_elem_greater s (s.p r) (s.p (r - 1)) ≡ true) → Least s hole (r - 1)
  Least-left h = record {
    child = omega arith;
    past = omega arith;
    inside = omega arith;
    least = λ d p q e. elim (Bool-cases (d == r)) [
      | inl here ↦
          let same : d ≡ r = ground arith in rw same ((greater-Order s).asymm _ _ (h (omega arith)))
      | inr other ↦ let same : d ≡ r - 1 = ground arith in rw same (greater_irrefl s (s.p (r - 1)))
    ];
  }

  Least-right : r < s.n → min_heap_elem_greater s (s.p r) (s.p (r - 1)) ≡ false → Least s hole r
  Least-right l h = record {
    child = omega arith;
    past = omega arith;
    inside = l;
    least = λ d p q e. elim (Bool-cases (d == r)) [
      | inl here ↦ let same : d ≡ r = ground arith in rw same (greater_irrefl s (s.p r))
      | inr other ↦ let same : d ≡ r - 1 = ground arith in rw same h
    ];
  }

  smaller_child_lem : (c : ℕ) × (smaller_child s r ≡ some c) × Least s hole c
  unfolding smaller_child
  smaller_child_lem = elim (Bool-cases (r == s.n)) [
    | inl end ↦ (r - 1, rw end, Least-left (λ l. absurd (ground arith)))
    | inr more ↦
        let inside : r < s.n = ground arith in
        elim (Bool-cases (min_heap_elem_greater s (s.p r) (s.p (r - 1)))) [
          | inl less ↦ (r - 1, ground arith, Least-left (λ l. less))
          | inr no_less ↦ (r, ground arith, Least-right inside no_less)
        ]
  ]

module _ (fuel : ℕ) (s : MinHeap) (hole e : ℕ) (small : s.a < 2 ^ 31) (ha : hole < s.a) where
  -- Past the last parent the loop goes over to shift_up.
  shift_down_end :
      s.n < 2 * (hole + 1) → shift_down (suc fuel) s hole e ≡ min_heap_shift_up s hole e
  unfolding shift_down
  shift_down_end h = ground arith

  shift_down_stop :
      (c : ℕ)
      → s.n ≤ s.a
      → 2 * (hole + 1) ≤ s.n
      → smaller_child s (2 * (hole + 1)) ≡ some c
      → Least s hole c
      → min_heap_elem_greater s e (s.p c) ≡ false
      → shift_down (suc fuel) s hole e ≡ min_heap_shift_up s hole e
  unfolding shift_down
  shift_down_stop c hn h pick least keep = ground arith

  shift_down_sink :
      (c : ℕ)
      → s.n ≤ s.a
      → 2 * (hole + 1) ≤ s.n
      → smaller_child s (2 * (hole + 1)) ≡ some c
      → Least s hole c
      → min_heap_elem_greater s e (s.p c) ≡ true
      → shift_down (suc fuel) s hole e ≡ shift_down fuel (placed s hole (s.p c)) c e
  unfolding shift_down place
  shift_down_sink c hn h pick least more = ground arith

module _ (s : MinHeap) (hole e : ℕ) (hn : s.n ≤ s.a) (small : s.a < 2 ^ 31) (hh : hole < s.n)
    (v : DownInv (min_heap_elem_greater s) (filled s hole e) s.n hole)
    (k : Carries s s.n hole e) where
  -- No child is less than `e`: shift_up settles it.
  stops :
      ((d : ℕ) → 0 < d → d < s.n → up d ≡ hole → min_heap_elem_greater s e (s.p d) ≡ false)
      → Settles s s.n hole e (min_heap_shift_up s hole e)
  unfolding min_heap_shift_up
  stops h =
      shift_up-Settles (hole + 1) s s.n hole e (omega arith) hn (omega arith) hh
        (DownInv-UpInv (greater-Order s) (filled s hole e) s.n hole v
          (λ d p q r. ground (arith, h d p q r)))
        k

  sinks :
      (c : ℕ)
      → Least s hole c
      → min_heap_elem_greater s e (s.p c) ≡ true
      → DownInv (min_heap_elem_greater s) (filled (placed s hole (s.p c)) c e) s.n c
  sinks c l more =
      subst (λ f. DownInv (min_heap_elem_greater s) f s.n c)
        (sym (filled-exchange s s.n hole e c hn hh l.inside (omega arith)))
        (DownInv-exchange (greater-Order s) (filled s hole e) s.n hole c v (omega arith) l.inside
          l.child (λ d p q r. ground (arith, l.least d p q r)) (ground arith))

-- The loop settles `e`, given enough fuel.
pub shift_down-Settles :
    (fuel : ℕ) (s : MinHeap) (hole e : ℕ)
    → s.n < fuel + hole
    → s.n ≤ s.a
    → s.a < 2 ^ 31
    → hole < s.n
    → DownInv (min_heap_elem_greater s) (filled s hole e) s.n hole
    → Carries s s.n hole e
    → Settles s s.n hole e (shift_down fuel s hole e)
shift_down-Settles zero s hole e f hn small hh v k = absurd (omega arith)
shift_down-Settles (suc fuel) s hole e f hn small hh v k =
    elim (Bool-cases (leb (2 * (hole + 1)) s.n)) [
      | inr past ↦
          rw (shift_down_end fuel s hole e small (omega arith) (ground arith))
            (stops s hole e hn small hh v k (λ d p q r. absurd (ground arith)))
      | inl inside ↦
          let (c, pick, l) = smaller_child_lem s hole (2 * (hole + 1)) hn refl (ground arith) in
          elim (Bool-cases (min_heap_elem_greater s e (s.p c))) [
            | inr keep ↦
                rw
                  (shift_down_stop fuel s hole e small (omega arith) c hn (ground arith) pick l
                    keep)
                  (stops s hole e hn small hh v k
                    (λ d p q r. (greater-Order s).trans e (s.p c) (s.p d) keep (l.least d p q r)))
            | inl more ↦
                rw
                  (shift_down_sink fuel s hole e small (omega arith) c hn (ground arith) pick l
                    more)
                  (Settles-move s s.n hole e c hn hh l.inside (omega arith) k _ (
                    shift_down-Settles fuel (placed s hole (s.p c)) c e (omega arith) hn small
                      l.inside (sinks s hole e hn small hh v k c l more)
                      (placed-Carries s s.n hole e c hn hh l.inside (omega arith) k)))
          ]
    ]

-- A hole behind the last entry: `e` is written there if the edge above is in order.
pub min_heap_shift_down_end :
    (s : MinHeap) (hole e : ℕ)
    → s.n ≤ hole
    → hole < s.a
    → s.a < 2 ^ 31
    → (0 < hole → min_heap_elem_greater s (s.p (up hole)) e ≡ false)
    → min_heap_shift_down s hole e ≡ some (placed s hole e)
unfolding min_heap_shift_down
min_heap_shift_down_end s hole e end ha small h =
    let fuel : s.n + 1 ≡ suc s.n = omega arith in
    rw (fuel, shift_down_end s.n s hole e small ha (omega arith))
      (min_heap_shift_up_still s hole e ha (omega arith) h)
