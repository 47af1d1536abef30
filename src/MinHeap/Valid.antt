-- ===== src/MinHeap/Valid.antt =====
-- The invariant of the timeout heap, and its least event.
use ilibevent.Base.{
  ℕ, suc, zero, ◌^◌, ◌≤◌, ◌<◌, ◌≡◌, refl, sym, subst, false, Option, none, some, arith,
}
use ilibevent.Time.{timercmp_gt}
use ilibevent.MinHeap.{MinHeap, min_heap_elem_greater, min_heap_top}
use ilibevent.MinHeap.Order.{up, Ordered}
use ilibevent.MinHeap.Up.{greater-Order, Holds, Settled}
use ilibevent.MinHeap.Down.{greater_irrefl}

-- The entries are in heap order, each knows its place, and they fit the array.
pub record IsValid (s : MinHeap) : Type 0 where
  pub ordered : Ordered (min_heap_elem_greater s) s.p s.n
  pub indexed : (i : ℕ) → i < s.n → s.min_heap_idx (s.p i) ≡ i
  pub fits : s.n ≤ s.a
  pub small : s.a < 2 ^ 31

-- The event is in the heap.
abbrev pub InHeap : MinHeap → ℕ → Type 0
InHeap s x = Holds s.p s.n x

pub entry_injective :
    {s : MinHeap} (v : IsValid s) (i j : ℕ) → i < s.n → j < s.n → s.p i ≡ s.p j → i ≡ j
entry_injective {s} v i j hi hj e = ground (arith, v.indexed i, v.indexed j)

-- An event in the heap stands at its index.
pub at_index :
    {s : MinHeap} (v : IsValid s) (x : ℕ)
    → InHeap s x
    → (s.min_heap_idx x < s.n) × (s.p (s.min_heap_idx x) ≡ x)
at_index {s} v x (i, h, e) = ground (arith, v.indexed i)

pub Settled-IsValid :
    {s t : MinHeap} {m hole e : ℕ}
    → Settled s m hole e t
    → t.n ≡ m
    → m ≤ s.a
    → s.a < 2 ^ 31
    → IsValid t
Settled-IsValid {s} {t} {m} v count fits small = record {
  ordered = λ c p q.
      subst (λ time. timercmp_gt (time (t.p (up c))) (time (t.p c)) ≡ false) (sym v.frame.timeouts)
        (v.ordered c p (omega arith));
  indexed = λ i h. v.indexed i (omega arith);
  fits = omega (arith, v.frame.capacity);
  small = omega (arith, v.frame.capacity);
}

root_least_below :
    (k : ℕ) (s : MinHeap) (i : ℕ)
    → IsValid s
    → i < k
    → i < s.n
    → min_heap_elem_greater s (s.p 0) (s.p i) ≡ false
root_least_below zero s i v f h = absurd (omega arith)
root_least_below (suc k) s zero v f h = greater_irrefl s (s.p 0)
root_least_below (suc k) s (suc i) v f h =
    (greater-Order s).trans (s.p 0) (s.p (up (suc i))) (s.p (suc i))
      (root_least_below k s (up (suc i)) v (omega arith) (omega arith))
      (v.ordered (suc i) (omega arith) h)

-- No event of the heap times out before the one at the root.
pub root_least :
    (s : MinHeap) → IsValid s → (x : ℕ) → InHeap s x → min_heap_elem_greater s (s.p 0) x ≡ false
root_least s v x (i, h, e) =
    subst (λ y. min_heap_elem_greater s (s.p 0) y ≡ false) e
      (root_least_below (suc i) s i v (omega arith) h)

-- What min_heap_top returns: NULL for the empty heap, and else an event of the heap than which none
-- times out earlier.
abbrev pub TopOf : MinHeap → Option ℕ → Type 0
TopOf s none = s.n ≡ 0
TopOf s (some e) = InHeap s e × ((x : ℕ) → InHeap s x → min_heap_elem_greater s e x ≡ false)

-- min_heap_top of a valid heap returns NULL only if the heap is empty, and otherwise an event of the
-- heap than which no event of the heap has an earlier timeout. It never reads outside the array.
pub top_least : (s : MinHeap) → IsValid s → (r : Option ℕ) × (min_heap_top s ≡ some r) × TopOf s r
unfolding min_heap_top
top_least s v = top_cases s.n refl
  where
    top_cases : (n : ℕ) → s.n ≡ n → (r : Option ℕ) × (min_heap_top s ≡ some r) × TopOf s r
    top_cases zero e = (none, ground arith, e)
    top_cases (suc n) e =
        (some (s.p 0), ground (arith, v.fits), ((0, omega arith, refl), root_least s v))
