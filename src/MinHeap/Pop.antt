-- ===== src/MinHeap/Pop.antt =====
-- min_heap_pop: a least event leaves the heap.
use ilibevent.Base.{
  ℕ, ◌+◌, ◌-◌, ◌%◌, ◌<◌, ◌≡◌, inl, inr, refl, false, Option, none, some, arith, ◌==◌, success,
  Bool-cases,
}
use ilibevent.MinHeap.{
  u32_mod, MinHeap, min_heap_elem_greater, unindexed, refill, min_heap_erase, min_heap_pop,
}
use ilibevent.MinHeap.Valid.{IsValid, InHeap, root_least}
use ilibevent.MinHeap.Erase.{Removed, Gone-Removed, down_lem}

-- What min_heap_pop leaves: no event in an empty heap, and else a least event and the others.
abbrev pub Popped : MinHeap → Option ℕ → MinHeap → Type 0
Popped s none t = (s.n ≡ 0) × (t ≡ s)
Popped s (some e) t =
    InHeap s e × ((x : ℕ) → InHeap s x → min_heap_elem_greater s e x ≡ false) × Removed s e t

-- min_heap_pop of a valid heap returns NULL and changes nothing if the heap is empty; otherwise it
-- returns an event of the heap than which none has an earlier timeout, and leaves a valid heap of
-- exactly the others. It never reads or writes outside the array.
pub pop_removes_least :
    (s : MinHeap)
    → IsValid s
    → (r : Option ℕ) × (t : MinHeap) × (min_heap_pop s ≡ some (r, t)) × Popped s r t
unfolding min_heap_pop
pop_removes_least s v = elim (Bool-cases (s.n == 0)) [
  | inl empty ↦ (none, s, rw empty, (ground arith, refl))
  | inr busy ↦
      let p : 0 < s.n = ground arith in
      let (t, run, g) = down_lem s v 0 p (λ z. absurd (omega arith)) in
      (
        some (s.p 0),
        unindexed t (s.p 0),
        ground (arith, run, v.fits),
        ((0, p, refl), root_least s v, Gone-Removed s v 0 p t g),
      )
]

-- On a valid heap that is not empty, min_heap_pop and min_heap_erase of the entry at the root always succeed, and
-- leave the same heap, array and indices included.
pub pop-erase :
    (s : MinHeap)
    → IsValid s
    → 0 < s.n
    → (t : MinHeap) × (min_heap_pop s ≡ some (some (s.p 0), t))
      × (min_heap_erase s (s.p 0) ≡ some (success, t))
unfolding min_heap_pop min_heap_erase refill
pop-erase s v p =
    let (t, run, g) = down_lem s v 0 p (λ z. absurd (omega arith)) in
    let here : s.min_heap_idx (s.p 0) ≡ 0 = v.indexed 0 p in
    let less : (s.n + u32_mod - 1) % u32_mod ≡ s.n - 1 = omega (arith, v.fits, v.small, p) in
    (
      unindexed t (s.p 0),
      ground (arith, run, v.fits),
      rw (here, less) (ground (arith, run, v.fits)),
    )
