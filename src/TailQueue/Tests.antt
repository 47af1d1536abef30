-- ===== src/TailQueue/Tests.antt =====
-- Tail queues on small inputs, and the theorems at inputs that meet their hypotheses.
use ilibevent.Base.{ℕ, zero, suc, ◌≡◌, refl, arith, update, [], ◌∷◌, List, none, some, Option}
use ilibevent.TailQueue.{head_of, TailQueue, insert_tail, remove}
use ilibevent.TailQueue.Links.{Linked, insert_tail-append, remove-erase}

-- Two empty lists.
abbrev empty : TailQueue
empty = record {
  tqh_first = λ _. none;
  tqh_last = head_of;
  tqe_next = λ _. none;
  tqe_prev = λ _. head_of 9;
}

empty-Linked : Linked empty (λ _. [])
empty-Linked = record {
  chain = λ q. (refl, refl);
  distinct = λ q. tt;
  apart = λ q r e h k. ground arith;
}

-- The first `k` events behind `e`.
walk : TailQueue → ℕ → Option ℕ → List ℕ
walk s zero e = []
walk s (suc k) none = []
walk s (suc k) (some e) = e ∷ walk s k (s.tqe_next e)

in_order :
    (let s = insert_tail (insert_tail (insert_tail empty 0 4) 0 5) 0 6 in walk s 9 (s.tqh_first 0))
    ≡ 4 ∷ 5 ∷ 6 ∷ []
unfolding walk insert_tail
in_order = refl

middle_removed :
    (let s = remove (insert_tail (insert_tail (insert_tail empty 0 4) 0 5) 0 6) 0 5 in
      walk s 9 (s.tqh_first 0))
    ≡ 4 ∷ 6 ∷ []
unfolding walk insert_tail remove
middle_removed = refl

abbrev one : ℕ → List ℕ
one = update (λ _. []) 0 (4 ∷ [])

insert_tail-append_example : Linked (insert_tail empty 0 4) one
insert_tail-append_example = insert_tail-append empty (λ _. []) empty-Linked 0 4 (λ r. refl)

one-Linked : Linked (insert_tail empty 0 4) one
one-Linked = insert_tail-append empty (λ _. []) empty-Linked 0 4 (λ r. refl)

two-Linked : Linked (insert_tail (insert_tail empty 0 4) 0 5) (update one 0 (4 ∷ 5 ∷ []))
two-Linked = insert_tail-append (insert_tail empty 0 4) one one-Linked 0 5 (λ r. ground arith)

remove-erase_example :
    Linked
      (remove (insert_tail (insert_tail empty 0 4) 0 5) 0 4)
      (update (update one 0 (4 ∷ 5 ∷ [])) 0 (5 ∷ []))
remove-erase_example =
    remove-erase (insert_tail (insert_tail empty 0 4) 0 5) (update one 0 (4 ∷ 5 ∷ [])) two-Linked 0
      4 refl
