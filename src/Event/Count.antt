-- ===== src/Event/Count.antt =====
-- The heap never has more entries than the program has events.
use ilibevent.Base.{
  ℕ, zero, suc, ◌+◌, ◌≤◌, ◌<◌, ◌≡◌, true, false, List, [], ◌∷◌, arith, Bool-cases, inl, inr, length,
  slice, length-slice, ◌==◌,
}
use ilibevent.TailQueue.Chain.{has, Distinct, erase, has-erase, erase-Distinct}
use ilibevent.MinHeap.Valid.{entry_injective}
use ilibevent.State.{EventBase}
use ilibevent.Event.Invariant.{View, Inv}

length-erase : (e : ℕ) (xs : List ℕ) → has e xs ≡ true → suc (length (erase e xs)) ≡ length xs
length-erase e [] h = ground arith
length-erase e (x ∷ xs) h = ground (arith, length-erase e xs)

length-included :
    (xs ys : List ℕ)
    → Distinct xs
    → Distinct ys
    → ((x : ℕ) → has x xs ≡ true → has x ys ≡ true)
    → length xs ≤ length ys
length-included [] ys d d' h = omega arith
length-included (x ∷ xs) ys d d' h =
    let here : has x ys ≡ true = h x (ground arith) in
    omega (
      arith,
      length-erase x ys here,
      length-included xs (erase x ys) d.1 (erase-Distinct x ys d')
          (λ y p. ground (arith, d.0, has-erase x y ys d', h y)),
    )

slice-lacks :
    (f : ℕ → ℕ) (x i n : ℕ)
    → ((j : ℕ) → i ≤ j → j < i + n → (f j == x) ≡ false)
    → has x (slice f i n) ≡ false
unfolding slice
slice-lacks f x i zero h = ground arith
slice-lacks f x i (suc n) h =
    ground (arith, h i, slice-lacks f x (suc i) n (λ j p q. h j (omega arith) (omega arith)))

slice-Distinct :
    (f : ℕ → ℕ) (i n : ℕ)
    → ((j k : ℕ) → j < k → k < i + n → (f k == f j) ≡ false)
    → Distinct (slice f i n)
unfolding slice
slice-Distinct f i zero h = tt
slice-Distinct f i (suc n) h = (
  slice-lacks f (f i) (suc i) n (λ j p q. h i j (omega arith) (omega arith)),
  slice-Distinct f (suc i) n (λ j k p q. h j k p (omega arith)),
)

slice-has :
    (f : ℕ → ℕ) (i n : ℕ) (ys : List ℕ)
    → ((j : ℕ) → j < i + n → has (f j) ys ≡ true)
    → (x : ℕ) → has x (slice f i n) ≡ true
    → has x ys ≡ true
unfolding slice
slice-has f i zero ys h x p = ground arith
slice-has f i (suc n) ys h x p = elim (Bool-cases (f i == x)) [
  | inl here ↦ ground (arith, h i (omega arith))
  | inr there ↦ slice-has f (suc i) n ys (λ j q. h j (omega arith)) x (ground arith)
]

-- Events that are not known have no timeout.
abbrev pub Timerless : {B : Type 0} → List ℕ → EventBase B → Type 0
Timerless known b = (e : ℕ) → (b.event e).ev_flags.timeout ≡ true → has e known ≡ true

module _ {B : Type 0} (known : List ℕ) (v : View) (b : EventBase B) (i : Inv known v b)
    (t : Timerless known b) where
  entry_known : (c : ℕ) → c < b.timeheap.n → has (b.timeheap.p c) known ≡ true
  entry_known c h = elim (Bool-cases (b.event (b.timeheap.p c)).ev_flags.timeout) [
    | inl on ↦ t (b.timeheap.p c) on
    | inr off ↦ absurd (ground (arith, i.off_heap (b.timeheap.p c) off c h))
  ]

  pub heap_bounded : b.timeheap.n ≤ length known
  heap_bounded = omega (
    arith,
    length-slice b.timeheap.p 0 b.timeheap.n,
    length-included (slice b.timeheap.p 0 b.timeheap.n) known
        (slice-Distinct b.timeheap.p 0 b.timeheap.n
          (λ j k p q. ground (arith, entry_injective i.heap j k)))
        i.distinct
        (slice-has b.timeheap.p 0 b.timeheap.n known (λ j q. entry_known j (omega arith))),
  )
