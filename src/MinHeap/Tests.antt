-- ===== src/MinHeap/Tests.antt =====
-- The heap functions on small inputs, and the theorems at inputs that meet their hypotheses.
use ilibevent.Base.{
  success, ℕ, zero, suc, ◌-◌, ◌/◌, ◌<◌, ◌≡◌, refl, Option, true, false, [], ◌∷◌, some, arith,
  failure, ◌>>=◌, slice, if◌then◌else◌, ◌==◌,
}
use ilibevent.Base.Int.{pos}
use ilibevent.Time.{timercmp_gt}
use ilibevent.MinHeap.{
  no_index, MinHeap, min_heap_elem_greater, min_heap_reserve, place, shift_up, min_heap_shift_up,
  smaller_child, shift_down, min_heap_shift_down, min_heap_push, min_heap_pop, min_heap_erase,
}
use ilibevent.MinHeap.Valid.{IsValid}
use ilibevent.MinHeap.Push.{Absent, Pushes, push-insert}
use ilibevent.MinHeap.Erase.{Erases, erase-remove, erase_absent}
use ilibevent.MinHeap.Pop.{Popped, pop_removes_least, pop-erase}

-- Event `i` times out after `30 - i` seconds, and is in no heap.
abbrev empty : MinHeap
empty = record {
  p = λ _. 0;
  n = 0;
  a = 0;
  min_heap_idx = λ _. no_index;
  ev_timeout = λ i. record {
    tv_sec = if i == 1 then pos 5 else if i == 2 then pos 3 else pos 4;
    tv_usec = pos 0;
  };
}

-- Events 2, 1 and 3 in an array of 8.
abbrev sample : MinHeap
sample = record empty {
  p = λ i. if i == 0 then 2 else if i == 1 then 1 else 3;
  n = 3;
  a = 8;
  min_heap_idx = λ e. if e == 2 then 0 else if e == 1 then 1 else if e == 3 then 2 else no_index;
}

after_push : MinHeap → ℕ → Option MinHeap
after_push s e = min_heap_push true s e >>= λ (_, t). some t

pushed :
    (after_push empty 1 >>= λ s.
    after_push s 2 >>= λ s. after_push s 3 >>= λ s. some (slice s.p 0 s.n))
    ≡ some (2 ∷ 1 ∷ 3 ∷ [])
unfolding after_push min_heap_push min_heap_reserve min_heap_shift_up shift_up place timercmp_gt
    slice
pushed = refl

popped : (min_heap_pop sample >>= λ (_, s). some (slice s.p 0 s.n)) ≡ some (3 ∷ 1 ∷ [])
unfolding min_heap_pop min_heap_shift_down shift_down smaller_child min_heap_shift_up shift_up place
    timercmp_gt slice
popped = refl

sample_ordered :
    (c : ℕ)
    → 0 < c
    → c < 3
    → min_heap_elem_greater sample (sample.p ((c - 1) / 2)) (sample.p c) ≡ false
unfolding timercmp_gt
sample_ordered zero p q = absurd (omega arith)
sample_ordered (suc zero) p q = refl
sample_ordered (suc (suc zero)) p q = refl
sample_ordered (suc (suc (suc c))) p q = absurd (omega arith)

sample_indexed : (i : ℕ) → i < 3 → sample.min_heap_idx (sample.p i) ≡ i
sample_indexed zero p = refl
sample_indexed (suc zero) p = refl
sample_indexed (suc (suc zero)) p = refl
sample_indexed (suc (suc (suc c))) p = absurd (omega arith)

sample-IsValid : IsValid sample
sample-IsValid = record {
  ordered = sample_ordered;
  indexed = sample_indexed;
  fits = omega arith;
  small = omega arith;
}

sample-Absent : Absent sample 4
sample-Absent i h e = ground arith

push-insert_example : Pushes true sample 4 (min_heap_push true sample 4)
push-insert_example = push-insert true sample 4 sample-IsValid sample-Absent (omega arith)

erase-remove_example : Erases sample 1 (min_heap_erase sample 1)
erase-remove_example = erase-remove sample 1 sample-IsValid (1, omega arith, refl)

erase_absent_example : min_heap_erase sample 4 ≡ some (failure, sample)
erase_absent_example = erase_absent sample 4 refl

pop_removes_least_example :
    (r : Option ℕ) × (t : MinHeap) × (min_heap_pop sample ≡ some (r, t)) × Popped sample r t
pop_removes_least_example = pop_removes_least sample sample-IsValid

pop-erase_example :
    (t : MinHeap) × (min_heap_pop sample ≡ some (some (sample.p 0), t))
    × (min_heap_erase sample (sample.p 0) ≡ some (success, t))
pop-erase_example = pop-erase sample sample-IsValid (omega arith)
