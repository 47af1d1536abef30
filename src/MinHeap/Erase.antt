-- ===== src/MinHeap/Erase.antt =====
-- min_heap_erase: the last entry takes the place of the one that leaves.
use ilibevent.Base.{
  ℕ, ◌+◌, ◌-◌, ◌%◌, ◌<◌, ◌≡◌, ◌≢◌, ◌↔◌, inl, inr, refl, sym, subst, true, false, ◌&&◌, Option, some,
  arith, ltb, ◌==◌, Status, success, failure, Bool-cases,
}
use ilibevent.Time.{timercmp_gt}
use ilibevent.MinHeap.{
  u32_mod, no_index, MinHeap, min_heap_elem_greater, min_heap_shift_up, min_heap_shift_down,
  unindexed, refill, min_heap_erase,
}
use ilibevent.MinHeap.Order.{up, Ordered}
use ilibevent.MinHeap.Up.{greater-Order, Holds, filled, placed, Settled, shift_up-Settles}
use ilibevent.MinHeap.Down.{shift_down-Settles, min_heap_shift_down_end}
use ilibevent.MinHeap.Valid.{IsValid, InHeap, entry_injective, at_index}

-- `e` has left the heap.
pub record Removed (s : MinHeap) (e : ℕ) (t : MinHeap) : Type 0 where
  pub valid : IsValid t
  pub count : t.n + 1 ≡ s.n
  pub entries : (x : ℕ) → InHeap t x ↔ (InHeap s x × (x ≢ e))
  pub capacity : t.a ≡ s.a
  pub unindexed : t.min_heap_idx e ≡ no_index
  pub timeouts : t.ev_timeout ≡ s.ev_timeout
  pub outside : (x : ℕ) → ¬ InHeap s x → t.min_heap_idx x ≡ s.min_heap_idx x

module _ (s : MinHeap) (v : IsValid s) (i : ℕ) (hi : i < s.n) where
  abbrev last : ℕ
  last = s.p (s.n - 1)

  -- The heap without its last entry, as the shifts get it.
  abbrev cut : MinHeap
  cut = record s { n = s.n - 1 }

  -- What a shift leaves: the heap of `n - 1` entries without the one at `i`.
  pub record Gone (t : MinHeap) : Type 0 where
    ordered : Ordered (min_heap_elem_greater s) t.p (s.n - 1)
    indexed : (j : ℕ) → j < s.n - 1 → t.min_heap_idx (t.p j) ≡ j
    entries : (x : ℕ) → Holds t.p (s.n - 1) x ↔ (InHeap s x × (x ≢ s.p i))
    count : t.n ≡ s.n - 1
    capacity : t.a ≡ s.a
    timeouts : t.ev_timeout ≡ s.ev_timeout
    outside : (x : ℕ) → ¬ InHeap s x → t.min_heap_idx x ≡ s.min_heap_idx x

  filled-Holds : (x : ℕ) → Holds (filled cut i last) (s.n - 1) x ↔ (InHeap s x × (x ≢ s.p i))
  filled-Holds x = (to, from)
    where
      to : Holds (filled cut i last) (s.n - 1) x → InHeap s x × (x ≢ s.p i)
      to (j, h, e) = elim (Bool-cases (i == j)) [
        | inl here ↦ (
          (s.n - 1, omega arith, ground arith),
          λ q. ground (arith, entry_injective v (s.n - 1) i),
        )
        | inr other ↦ ((j, omega arith, ground arith), λ q. ground (arith, entry_injective v j i))
      ]

      from : InHeap s x × (x ≢ s.p i) → Holds (filled cut i last) (s.n - 1) x
      from ((j, h, e), ne) = elim (Bool-cases (j == s.n - 1)) [
        | inl end ↦ (i, ground arith, ground arith)
        | inr inner ↦ (j, ground arith, ground arith)
      ]

  -- The last entry itself leaves.
  Gone-last : i ≡ s.n - 1 → Gone (placed cut i last)
  Gone-last e = record {
    ordered = λ c p q. ground (arith, v.ordered c);
    indexed = λ j h. ground (arith, v.indexed j, v.indexed (s.n - 1));
    entries = λ x. (
      λ (j, h, q). ((j, omega arith, ground arith), λ r. ground (arith, entry_injective v j i)),
      λ ((j, h, q), ne). (j, ground arith, ground arith),
    );
    count = refl;
    capacity = refl;
    timeouts = refl;
    outside = λ x out. let ne : last ≢ x = λ q. out (s.n - 1, omega arith, q) in ground arith;
  }

  Settled-Gone : i < s.n - 1 → (t : MinHeap) → Settled cut (s.n - 1) i last t → Gone t
  Settled-Gone h t st = record {
    ordered = st.ordered;
    indexed = st.indexed;
    entries =
        λ x. (λ k. (filled-Holds x).0 ((st.same x).1 k), λ k. (st.same x).0 ((filled-Holds x).1 k));
    count = st.frame.count;
    capacity = st.frame.capacity;
    timeouts = st.frame.timeouts;
    outside = λ x out.
        st.frame.outside x (λ e. out (s.n - 1, omega arith, sym e))
          (λ j p q e. out (j, omega arith, e));
  }

  abbrev Refills : Option MinHeap → Type 0
  Refills r = (t : MinHeap) × (r ≡ some t) × Gone t

  -- Where the entry above is greater than the last one, it rises.
  rises :
      i < s.n - 1
      → 0 < i
      → min_heap_elem_greater s (s.p (up i)) last ≡ true
      → Refills (min_heap_shift_up cut i last)
  unfolding min_heap_shift_up
  rises h p more =
      let o = greater-Order s in
      let above = o.asymm (s.p (up i)) last more in
      let (t, run, st) =
        shift_up-Settles (i + 1) cut (s.n - 1) i last (omega arith) (omega (arith, v.fits))
          (omega (arith, v.small)) h
          (record {
            edges = λ c q r ne. ground (
              arith,
              v.ordered c,
              v.ordered i,
              above,
              o.trans last (s.p (up i)) (s.p i),
              o.trans last (s.p i) (s.p c),
            );
            bridged = λ c q r z.
                ground (arith, v.ordered c, v.ordered i, o.trans (s.p (up i)) (s.p i) (s.p c));
          })
          (record {
            indexed = λ j q ne. v.indexed j (omega arith);
            absent = λ j q ne e. ground (arith, entry_injective v j (s.n - 1));
          }) in
      (t, run, Settled-Gone h t st)

  -- Otherwise it sinks.
  falls :
      i < s.n - 1
      → (0 < i → min_heap_elem_greater s (s.p (up i)) last ≡ false)
      → Refills (min_heap_shift_down cut i last)
  unfolding min_heap_shift_down
  falls h above =
      let o = greater-Order s in
      let (t, run, st) =
        shift_down-Settles (s.n - 1 + 1) cut i last (omega arith) (omega (arith, v.fits)) v.small h
          (record {
            edges = λ c q r ne. ground (arith, v.ordered c, above);
            bridged = λ c q r z.
                ground (arith, v.ordered c, v.ordered i, o.trans (s.p (up i)) (s.p i) (s.p c));
            above = λ z. ground (arith, above z);
          })
          (record {
            indexed = λ j q ne. v.indexed j (omega arith);
            absent = λ j q ne e. ground (arith, entry_injective v j (s.n - 1));
          }) in
      (t, run, Settled-Gone h t st)

  ends : i ≡ s.n - 1 → Refills (min_heap_shift_down cut i last)
  ends e = (
    placed cut i last,
    min_heap_shift_down_end cut i last (omega arith) (omega (arith, v.fits)) v.small
        (λ p. ground (arith, v.ordered i)),
    Gone-last e,
  )

  pub down_lem :
      (0 < i → min_heap_elem_greater s (s.p (up i)) last ≡ false)
      → Refills (min_heap_shift_down cut i last)
  down_lem above = elim (Bool-cases (i == s.n - 1)) [
    | inl e ↦ ends (ground arith)
    | inr ne ↦ falls (ground arith) above
  ]

  refill_down :
      (0 < i → min_heap_elem_greater s (s.p (up i)) last ≡ false)
      → refill cut i last ≡ min_heap_shift_down cut i last
  unfolding refill
  refill_down h = ground (arith, v.fits, v.small)

  refill-up :
      0 < i
      → min_heap_elem_greater s (s.p (up i)) last ≡ true
      → refill cut i last ≡ min_heap_shift_up cut i last
  unfolding refill
  refill-up p h = ground (arith, v.fits, v.small)

  refill_lem : Refills (refill cut i last)
  refill_lem = elim (Bool-cases (ltb 0 i && min_heap_elem_greater s (s.p (up i)) last)) [
    | inl up' ↦
        rw (refill-up (ground arith) (ground arith))
          (rises (ground (arith, v.ordered i)) (ground arith) (ground arith))
    | inr stay ↦ rw (refill_down (λ p. ground arith)) (down_lem (λ p. ground arith))
  ]

  pub Gone-Removed : (t : MinHeap) → Gone t → Removed s (s.p i) (unindexed t (s.p i))
  Gone-Removed t g = record {
    valid = record {
      ordered = λ c p q.
          subst (λ time. timercmp_gt (time (t.p (up c))) (time (t.p c)) ≡ false) (sym g.timeouts)
            (g.ordered c p (omega (arith, g.count)));
      indexed = λ j h.
          let inside : j < s.n - 1 = omega (arith, g.count) in
          let other = ((g.entries (t.p j)).0 (j, inside, refl)).1 in
          ground (arith, g.indexed j, other);
      fits = omega (arith, g.count, g.capacity, v.fits);
      small = omega (arith, g.capacity, v.small);
    };
    count = omega (arith, g.count);
    entries = λ x. (
      λ h. (g.entries x).0 (subst (λ n. Holds t.p n x) g.count h),
      λ h. subst (λ n. Holds t.p n x) (sym g.count) ((g.entries x).1 h),
    );
    capacity = g.capacity;
    unindexed = ground arith;
    timeouts = g.timeouts;
    outside =
        λ x out. let other : s.p i ≢ x = λ e. out (i, hi, e) in ground (arith, g.outside x out);
  }

abbrev pub Erases : MinHeap → ℕ → Option (Status × MinHeap) → Type 0
Erases s e r = (t : MinHeap) × (r ≡ some (success, t)) × Removed s e t

erase_at :
    (s : MinHeap) (v : IsValid s) (e i : ℕ) (hi : i < s.n)
    → s.min_heap_idx e ≡ i
    → s.p i ≡ e
    → Erases s e (min_heap_erase s e)
unfolding min_heap_erase
erase_at s v e i hi index at =
    let (t, run, g) = refill_lem s v i hi in
    let exact : (s.n + u32_mod - 1) % u32_mod ≡ s.n - 1 = omega (arith, v.fits, v.small) in
    let indexed : (s.min_heap_idx e == no_index) ≡ false = ground (arith, v.fits, v.small) in
    (
      unindexed t e,
      rw (indexed, exact, index, min_heap_erase) (ground (arith, run, v.fits)),
      subst (λ x. Removed s x (unindexed t x)) at (Gone-Removed s v i hi t g),
    )

-- min_heap_erase of an event in a valid heap returns 0 and leaves a valid heap of exactly the other
-- events; the event has no index any more, and the size of the array, all timeouts and the indices of the
-- events outside are as they were. It never reads or writes outside the array.
pub erase-remove : (s : MinHeap) (e : ℕ) → IsValid s → InHeap s e → Erases s e (min_heap_erase s e)
erase-remove s e v h =
    let (inside, at) = at_index v e h in erase_at s v e (s.min_heap_idx e) inside refl at

-- min_heap_erase of an event whose index is -1 returns -1 and changes nothing.
pub erase_absent :
    (s : MinHeap) (e : ℕ) → s.min_heap_idx e ≡ no_index → min_heap_erase s e ≡ some (failure, s)
unfolding min_heap_erase
erase_absent s e h = ground arith
