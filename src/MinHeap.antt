-- ===== src/MinHeap.antt =====
-- include/minheap.cpp and include/minheap.hpp: the heap of the events that have a timeout.
-- An event is an identifier; `p` is the array of `a` entries of which `n` are in use. The two fields
-- of `struct event` that the heap reads and writes, `min_heap_idx` and `ev_timeout`, are functions of
-- the identifier. An access to the array at or past `a` is a fault. Indices are unsigned, 32 bits.
pub mod Order
pub mod Up
pub mod Down
pub mod Valid
pub mod Push
pub mod Erase
pub mod Pop
mod Tests
use ilibevent.Base.{
  ℕ, zero, suc, ◌+◌, ◌-◌, ◌*◌, ◌/◌, ◌%◌, ◌^◌, Bool, true, false, not, ◌&&◌, Option, none, some, ltb,
  leb, ◌==◌, if◌then◌else◌, ◌>>=◌, ◌>>◌, check, Status, success, failure, update,
}
use ilibevent.Time.{Timeval, timercmp_gt}

abbrev pub u32_mod : ℕ
u32_mod = 2 ^ 32

-- (unsigned) -1, the index of an event that is in no heap.
abbrev pub no_index : ℕ
no_index = u32_mod - 1

pub record MinHeap : Type 0 where
  pub p : ℕ → ℕ
  pub n : ℕ
  pub a : ℕ
  pub min_heap_idx : ℕ → ℕ
  pub ev_timeout : ℕ → Timeval

unfoldable pub min_heap_ctor : MinHeap → MinHeap
min_heap_ctor s = record s { p = λ _. 0; n = 0; a = 0 }

unfoldable pub min_heap_elem_init : MinHeap → ℕ → MinHeap
min_heap_elem_init s e = record s { min_heap_idx = update s.min_heap_idx e no_index }

abbrev pub min_heap_elem_greater : MinHeap → ℕ → ℕ → Bool
min_heap_elem_greater s a b = timercmp_gt (s.ev_timeout a) (s.ev_timeout b)

abbrev pub min_heap_empty : MinHeap → Bool
min_heap_empty s = s.n == 0

abbrev pub min_heap_size : MinHeap → ℕ
min_heap_size s = s.n

-- s->p[i]
abbrev pub load : MinHeap → ℕ → Option ℕ
load s i = if ltb i s.a then some (s.p i) else none

unfoldable pub min_heap_top : MinHeap → Option (Option ℕ)
min_heap_top s = if s.n == 0 then some none else (load s 0 >>= λ e. some (some e))

-- `granted` says whether realloc succeeds.
unfoldable pub min_heap_reserve : Bool → MinHeap → ℕ → Status × MinHeap
min_heap_reserve granted s n =
    let doubled = if s.a == 0 then 8 else s.a * 2 % u32_mod in
    let a = if ltb doubled n then n else doubled in
    if ltb s.a n
    then (if granted then (success, record s { a = a }) else (failure, s))
    else (success, s)

-- (s->p[i] = e)->min_heap_idx = i
unfoldable pub place : MinHeap → ℕ → ℕ → Option MinHeap
place s i e =
    check (ltb i s.a)
    >> some (record s { p = update s.p i e; min_heap_idx = update s.min_heap_idx e i })

abbrev pub parent_of : ℕ → ℕ
parent_of i = (i + u32_mod - 1) % u32_mod / 2

unfoldable pub shift_up : ℕ → MinHeap → ℕ → ℕ → Option MinHeap
shift_up zero s hole e = none
shift_up (suc fuel) s hole e =
    let rise = load s (parent_of hole) >>= λ q. elim (min_heap_elem_greater s q e) [
      | true ↦ place s hole q >>= λ t. shift_up fuel t (parent_of hole) e
      | false ↦ place s hole e
    ] in
    if hole == 0 then place s hole e else rise

-- The hole at least halves, so `hole_index + 1` rounds are enough.
unfoldable pub min_heap_shift_up : MinHeap → ℕ → ℕ → Option MinHeap
min_heap_shift_up s hole_index e = shift_up (hole_index + 1) s hole_index e

-- min_child -= min_child == s->n || greater(p[min_child], p[min_child - 1])
unfoldable pub smaller_child : MinHeap → ℕ → Option ℕ
smaller_child s min_child =
    if min_child == s.n
    then some (min_child - 1)
    else (load s min_child >>= λ x. load s (min_child - 1) >>= λ y.
        some (if min_heap_elem_greater s x y then min_child - 1 else min_child))

unfoldable pub shift_down : ℕ → MinHeap → ℕ → ℕ → Option MinHeap
shift_down zero s hole e = none
shift_down (suc fuel) s hole e =
    let min_child = 2 * (hole + 1) % u32_mod in
    let sink = smaller_child s min_child >>= λ c. load s c >>= λ q.
    elim (min_heap_elem_greater s e q) [
      | true ↦ place s hole q >>= λ t. shift_down fuel t c e
      | false ↦ min_heap_shift_up s hole e
    ] in
    if leb min_child s.n then sink else min_heap_shift_up s hole e

-- The hole grows and stays below `n` while the loop runs, so `n + 1` rounds are enough.
unfoldable pub min_heap_shift_down : MinHeap → ℕ → ℕ → Option MinHeap
min_heap_shift_down s hole_index e = shift_down (s.n + 1) s hole_index e

-- The part of min_heap_push behind its call of min_heap_reserve.
insert : ℕ → Status × MinHeap → Option (Status × MinHeap)
insert e (failure, r) = some (failure, r)
insert e (success, r) =
    min_heap_shift_up (record r { n = (r.n + 1) % u32_mod }) r.n e >>= λ t. some (success, t)

unfoldable pub min_heap_push : Bool → MinHeap → ℕ → Option (Status × MinHeap)
unfolding insert
min_heap_push granted s e = insert e (min_heap_reserve granted s ((s.n + 1) % u32_mod))

abbrev pub unindexed : MinHeap → ℕ → MinHeap
unindexed s e = record s { min_heap_idx = update s.min_heap_idx e no_index }

unfoldable pub min_heap_pop : MinHeap → Option (Option ℕ × MinHeap)
min_heap_pop s =
    let shorter = record s { n = s.n - 1 } in
    if s.n == 0
    then some (none, s)
    else (load s 0 >>= λ e. load s (s.n - 1) >>= λ last.
        min_heap_shift_down shorter 0 last >>= λ t. some (some e, unindexed t e))

-- The body of min_heap_erase behind its test: `s` has lost its last entry, and `i` is where `e` is.
unfoldable pub refill : MinHeap → ℕ → ℕ → Option MinHeap
refill s i last =
    if ltb 0 i
    then (load s (parent_of i) >>= λ q. elim (min_heap_elem_greater s q last) [
      | true ↦ min_heap_shift_up s i last
      | false ↦ min_heap_shift_down s i last
    ])
    else min_heap_shift_down s i last

unfoldable pub min_heap_erase : MinHeap → ℕ → Option (Status × MinHeap)
min_heap_erase s e =
    if s.min_heap_idx e == no_index
    then some (failure, s)
    else (load s ((s.n + u32_mod - 1) % u32_mod) >>= λ last.
        refill (record s { n = (s.n + u32_mod - 1) % u32_mod }) (s.min_heap_idx e) last >>= λ t.
        some (success, unindexed t e))
