-- ===== src/Signal/Emptied.antt =====
-- The list of a signal's events that is empty again when its only event is taken out.
use ilibevent.Base.{ℕ, ◌≡◌, sym, ap, subst, fun_ext, ◌∙◌, List, [], ◌∷◌, ◌++◌, none, arith, update}
use ilibevent.TailQueue.{TailQueue, head_of}
use ilibevent.TailQueue.Chain.{Chain, erase}
use ilibevent.TailQueue.Links.{Linked}

erase_only : (e : ℕ) (xs : List ℕ) → xs ≡ [] → erase e (xs ++ e ∷ []) ≡ []
erase_only e [] h = ground arith
erase_only e (x ∷ xs) h = absurd (ground arith)

-- A list that is put in and taken out again.
pub in_and_out :
    (lists : ℕ → List ℕ) (n e : ℕ)
    → lists n ≡ []
    → update (update lists n (lists n ++ e ∷ [])) n (erase e (update lists n (lists n ++ e ∷ []) n))
      ≡ lists
in_and_out lists n e h =
    ap (λ xs. update (update lists n (lists n ++ e ∷ [])) n (erase e xs))
      (at_index lists (lists n ++ e ∷ []))
    ∙ ap (update (update lists n (lists n ++ e ∷ [])) n) (erase_only e (lists n) h ∙ sym h)
    ∙ fun_ext (λ r. ground arith)
  where
    at_index : (f : ℕ → List ℕ) (xs : List ℕ) → update f n xs n ≡ xs
    at_index f xs = ground arith

pub empty_head :
    (s : TailQueue) (lists : ℕ → List ℕ) (n : ℕ)
    → Linked s lists
    → lists n ≡ []
    → s.tqh_first n ≡ none
empty_head s lists n v h = (subst (λ xs. Chain s (head_of n) xs (s.tqh_last n)) h (v.chain n)).0
