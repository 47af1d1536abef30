-- ===== src/TailQueue/Links.antt =====
-- All the lists of one link field, and the two ways in which they change.
use ilibevent.Base.{
  ℕ, ◌≡◌, ◌≢◌, ◌⊎◌, inl, inr, sym, ap, subst, ◌∙◌, true, false, none, some, List, [], ◌∷◌, ◌++◌,
  arith, ◌==◌, if◌then◌else◌, update, Bool-cases,
}
use ilibevent.TailQueue.{Slot, head_of, next_of, TailQueue, read, insert_tail, remove}
use ilibevent.TailQueue.Chain.{
  has, Distinct, erase, Chain, Closed, has-append, has-erase, erase-Distinct, append-Distinct,
  read-prev, last_inside, last-ne, append-Chain, erase-Chain, frame, next_inside, first_inside,
}

-- List `q` holds the events `lists q`, in that order; no event is in two places.
pub record Linked (s : TailQueue) (lists : ℕ → List ℕ) : Type 0 where
  pub chain : (q : ℕ) → Chain s (head_of q) (lists q) (s.tqh_last q)
  pub distinct : (q : ℕ) → Distinct (lists q)
  pub apart : (q r e : ℕ) → has e (lists q) ≡ true → has e (lists r) ≡ true → q ≡ r

module _ (s : TailQueue) (lists : ℕ → List ℕ) (v : Linked s lists) (q e : ℕ) where
  -- Where list `q` ends is no place of another list.
  last-apart-head : (r : ℕ) → q ≢ r → s.tqh_last q ≢ head_of r
  last-apart-head r ne p = elim (last_inside s (s.tqh_last q) (head_of q) (lists q) (v.chain q)) [
    | inl h ↦ ground arith
    | inr (z, h, k) ↦ ground arith
  ]

  module _ (fresh : (r : ℕ) → has e (lists r) ≡ false) where
    last-fresh : (r x : ℕ) → q ≢ r → has x (lists r) ≡ true → s.tqh_last q ≢ next_of x
    last-fresh r x ne h =
        last-ne s (s.tqh_last q) (head_of q) (lists q) x (v.chain q) (λ p. ground arith)
          (out (Bool-cases (has x (lists q))))
      where
        out : (has x (lists q) ≡ true) ⊎ (has x (lists q) ≡ false) → has x (lists q) ≡ false
        out (inl k) = absurd (ne (v.apart q r x k h))
        out (inr k) = k

    insert_other :
        (other : Slot)
        → other ≢ s.tqh_last q
        → other ≢ next_of e
        → read (insert_tail s q e) other ≡ read s other
    unfolding insert_tail
    insert_other (head_of r) a b = ground arith
    insert_other (next_of x) a b = ground arith

    insert_last : read (insert_tail s q e) (s.tqh_last q) ≡ some e
    unfolding insert_tail
    insert_last = ground arith

    ends_elsewhere : s.tqh_last q ≢ next_of e
    ends_elsewhere =
        last-ne s (s.tqh_last q) (head_of q) (lists q) e (v.chain q) (λ p. ground arith) (fresh q)

    insert_next : (insert_tail s q e).tqe_next e ≡ none
    unfolding insert_tail
    insert_next = ground (arith, ends_elsewhere)

    insert_prev :
        (x : ℕ) → (insert_tail s q e).tqe_prev x ≡ (if e == x then s.tqh_last q else s.tqe_prev x)
    unfolding insert_tail
    insert_prev x = ground arith

    insert_end :
        (r : ℕ) → (insert_tail s q e).tqh_last r ≡ (if q == r then next_of e else s.tqh_last r)
    unfolding insert_tail
    insert_end r = ground arith

    abbrev pub inserted : ℕ → List ℕ
    inserted = update lists q (lists q ++ e ∷ [])

    insert-Chain :
        (r : ℕ)
        → Chain (insert_tail s q e) (head_of r) (inserted r) ((insert_tail s q e).tqh_last r)
    insert-Chain r = elim (Bool-cases (q == r)) [
      | inl here ↦
          let same : q ≡ r = ground arith in
          rw (insert_end r, here)
            (subst (λ k. Chain (insert_tail s q e) (head_of k) (lists q ++ e ∷ []) (next_of e)) same
              (append-Chain s (s.tqh_last q) (insert_tail s q e) e (head_of q) (lists q) (v.chain q)
                insert_last (ground (arith, insert_prev e)) insert_next insert_other
                (λ x ne. ground (arith, insert_prev x)) (λ p. ground arith) (fresh q)))
      | inr there ↦
          let ne : q ≢ r = ground arith in
          rw (insert_end r, there)
            (frame s (s.tqh_last r) (insert_tail s q e) (head_of r) (lists r) (v.chain r)
              (insert_other (head_of r) (λ p. last-apart-head r ne (sym p)) (λ p. ground arith))
              (λ x h. (
                insert_other (next_of x) (λ p. last-fresh r x ne h (sym p))
                    (λ p. ground (arith, fresh r)),
                ground (arith, insert_prev x, fresh r),
              )))
    ]

    -- Inserting an event that is in no list appends it to its list, and leaves the others alone.
    pub insert_tail-append : Linked (insert_tail s q e) inserted
    insert_tail-append = record {
      chain = insert-Chain;
      distinct = λ r. elim (Bool-cases (q == r)) [
        | inl here ↦ rw here (append-Distinct e (lists q) (v.distinct q) (fresh q))
        | inr there ↦ rw there (v.distinct r)
      ];
      apart = λ a b x h k. ground (
        arith,
        v.apart a b x,
        v.apart q b x,
        v.apart a q x,
        has-append x (lists q) (e ∷ []),
        fresh a,
        fresh b,
      );
    }

  module _ (held : has e (lists q) ≡ true) where
    remove_end : (r : ℕ) → q ≢ r → (remove s q e).tqh_last r ≡ s.tqh_last r
    unfolding remove
    remove_end r ne = ground arith

    remove_first : read s (s.tqe_prev e) ≡ some e
    remove_first = read-prev s (s.tqh_last q) e (head_of q) (lists q) (v.chain q) held

    remove_other : (other : Slot) → other ≢ s.tqe_prev e → read (remove s q e) other ≡ read s other
    unfolding remove
    remove_other (head_of r) ne = ground arith
    remove_other (next_of x) ne = ground arith

    remove-Closed : Closed s (remove s q e) e (s.tqh_last q) ((remove s q e).tqh_last q)
    unfolding remove
    remove-Closed = record {
      skip = ground arith;
      inner = λ n h. ground arith;
      final = λ h. ground arith;
      same = remove_other;
      back = λ x h. ground arith;
    }

    elsewhere : (r x : ℕ) → q ≢ r → has x (lists r) ≡ true → has x (lists q) ≡ false
    elsewhere r x ne h = elim (Bool-cases (has x (lists q))) [
      | inl k ↦ absurd (ne (v.apart q r x k h))
      | inr k ↦ k
    ]

    not_in : (r : ℕ) → q ≢ r → has e (lists r) ≡ false
    not_in r ne = elim (Bool-cases (has e (lists r))) [
      | inl k ↦ absurd (ne (v.apart q r e held k))
      | inr k ↦ k
    ]

    abbrev pub remaining : ℕ → List ℕ
    remaining = update lists q (erase e (lists q))

    remove_frame : (r : ℕ) → q ≢ r → Chain (remove s q e) (head_of r) (lists r) (s.tqh_last r)
    remove_frame r ne =
        frame s (s.tqh_last r) (remove s q e) (head_of r) (lists r) (v.chain r)
          (remove_other (head_of r) (λ p.
            first_inside s (s.tqh_last r) e (head_of r) (lists r) (v.chain r) (not_in r ne)
              (ap (read s) p ∙ remove_first)))
          (λ x h. (
            remove_other (next_of x) (λ p.
                next_inside s (s.tqh_last r) e x (head_of r) (lists r) (v.chain r) (not_in r ne) h
                  (ap (read s) p ∙ remove_first)),
            remove-Closed.back x (
                next_inside s (s.tqh_last q) x e (head_of q) (lists q) (v.chain q)
                  (elsewhere r x ne h) held),
          ))

    remove-Chain :
        (r : ℕ) → Chain (remove s q e) (head_of r) (remaining r) ((remove s q e).tqh_last r)
    remove-Chain r = elim (Bool-cases (q == r)) [
      | inl here ↦
          let same : q ≡ r = ground arith in
          rw here (
            subst
              (λ k.
                Chain (remove s q e) (head_of k) (erase e (lists q)) ((remove s q e).tqh_last k))
              same
              (erase-Chain s (remove s q e) e (s.tqh_last q) ((remove s q e).tqh_last q)
                remove-Closed (head_of q) (lists q) (v.chain q) (v.distinct q) held))
      | inr there ↦ let ne : q ≢ r = ground arith in rw (there, remove_end r ne) (remove_frame r ne)
    ]

    -- Removing an event from its list takes it out of the list, and leaves the order of the others
    -- and the other lists alone.
    pub remove-erase : Linked (remove s q e) remaining
    remove-erase = record {
      chain = remove-Chain;
      distinct = λ r. elim (Bool-cases (q == r)) [
        | inl here ↦ rw here (erase-Distinct e (lists q) (v.distinct q))
        | inr there ↦ rw there (v.distinct r)
      ];
      apart = λ a b x h k. ground (
        arith,
        v.apart a b x,
        v.apart q b x,
        v.apart a q x,
        has-erase e x (lists q) (v.distinct q),
      );
    }
