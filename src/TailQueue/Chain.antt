-- ===== src/TailQueue/Chain.antt =====
-- One list: the pointers from a slot on run through a list of events.
use ilibevent.Base.{
  ℕ, ◌≡◌, ◌≢◌, ◌⊎◌, inl, inr, refl, sym, ap, subst, ◌∙◌, Bool, true, false, not, ◌&&◌, ◌||◌, none,
  some, List, [], ◌∷◌, ◌++◌, arith, ◌==◌, if◌then◌else◌, Bool-cases,
}
use ilibevent.TailQueue.{Slot, next_of, TailQueue, read}

abbrev pub has : ℕ → List ℕ → Bool
has e [] = false
has e (x ∷ xs) = (x == e) || has e xs

-- No event is in the list twice.
abbrev pub Distinct : List ℕ → Type 0
Distinct [] = Unit {0}
Distinct (x ∷ xs) = (has x xs ≡ false) × Distinct xs

abbrev pub erase : ℕ → List ℕ → List ℕ
erase e [] = []
erase e (x ∷ xs) = if x == e then xs else x ∷ erase e xs

-- From `slot` the pointers lead through `xs`, each event points back, and `last` is where the next
-- event will be linked.
abbrev pub Chain : TailQueue → Slot → List ℕ → Slot → Type 0
Chain s slot [] last = (read s slot ≡ none) × (last ≡ slot)
Chain s slot (x ∷ xs) last =
    (read s slot ≡ some x) × (s.tqe_prev x ≡ slot) × Chain s (next_of x) xs last

pub has-append : (e : ℕ) (xs ys : List ℕ) → has e (xs ++ ys) ≡ (has e xs || has e ys)
has-append e [] ys = refl
has-append e (x ∷ xs) ys = ground (arith, has-append e xs ys)

pub has-erase :
    (e x : ℕ) (xs : List ℕ) → Distinct xs → has x (erase e xs) ≡ (not (e == x) && has x xs)
has-erase e x [] d = ground arith
has-erase e x (y ∷ xs) d = ground (arith, has-erase e x xs d.1)

pub erase-Distinct : (e : ℕ) (xs : List ℕ) → Distinct xs → Distinct (erase e xs)
erase-Distinct e [] d = tt
erase-Distinct e (x ∷ xs) d = ground (arith, erase-Distinct e xs d.1, has-erase e x xs d.1)

pub append-Distinct :
    (e : ℕ) (xs : List ℕ) → Distinct xs → has e xs ≡ false → Distinct (xs ++ e ∷ [])
append-Distinct e [] d h = (refl, tt)
append-Distinct e (x ∷ xs) d h =
    (ground (arith, has-append x xs (e ∷ [])), append-Distinct e xs d.1 (ground arith))

module _ (s : TailQueue) (last : Slot) where
  -- The last slot is empty.
  pub read-last : (slot : Slot) (xs : List ℕ) → Chain s slot xs last → read s last ≡ none
  read-last slot [] c = rw (c.1) c.0
  read-last slot (x ∷ xs) c = read-last (next_of x) xs c.2

  -- What an event of the list points back to holds the event.
  pub read-prev :
      (e : ℕ) (slot : Slot) (xs : List ℕ)
      → Chain s slot xs last
      → has e xs ≡ true
      → read s (s.tqe_prev e) ≡ some e
  read-prev e slot [] c h = cc
  read-prev e slot (x ∷ xs) c h = elim (Bool-cases (x == e)) [
    | inl here ↦ let same : x ≡ e = ground arith in rw (← same, c.1) c.0
    | inr there ↦ read-prev e (next_of x) xs c.2 (ground arith)
  ]

  -- No event of the list is followed by one outside.
  pub next_inside :
      (e z : ℕ) (slot : Slot) (xs : List ℕ)
      → Chain s slot xs last
      → has e xs ≡ false
      → has z xs ≡ true
      → s.tqe_next z ≢ some e
  next_inside e z slot [] c h k q = cc
  next_inside e z slot (x ∷ []) c h k q = ground arith
  next_inside e z slot (x ∷ y ∷ xs) c h k q = elim (Bool-cases (x == z)) [
    | inl here ↦ ground arith
    | inr there ↦ next_inside e z (next_of x) (y ∷ xs) c.2 (ground arith) (ground arith) q
  ]

  -- Nor does the first slot hold one.
  pub first_inside :
      (e : ℕ) (slot : Slot) (xs : List ℕ)
      → Chain s slot xs last
      → has e xs ≡ false
      → read s slot ≢ some e
  first_inside e slot [] c h q = cc (c.0)
  first_inside e slot (x ∷ xs) c h q = ground (arith, c.0)

  -- A change that spares the slot and the links of the events spares the list.
  pub frame :
      (t : TailQueue) (slot : Slot) (xs : List ℕ)
      → Chain s slot xs last
      → read t slot ≡ read s slot
      → ((x : ℕ) → has x xs ≡ true → (t.tqe_next x ≡ s.tqe_next x) × (t.tqe_prev x ≡ s.tqe_prev x))
      → Chain t slot xs last
  frame t slot [] c r h = (r ∙ c.0, c.1)
  frame t slot (x ∷ xs) c r h =
      let (n, p) = h x (ground arith) in
      (r ∙ c.0, p ∙ c.1, frame t (next_of x) xs c.2 n (λ y k. h y (ground arith)))

  -- The last slot is the first one or belongs to an event of the list.
  pub last_inside :
      (slot : Slot) (xs : List ℕ)
      → Chain s slot xs last
      → (last ≡ slot) ⊎ ((z : ℕ) × (last ≡ next_of z) × (has z xs ≡ true))
  last_inside slot [] c = inl c.1
  last_inside slot (x ∷ xs) c = elim (last_inside (next_of x) xs c.2) [
    | inl here ↦ inr (x, here, ground arith)
    | inr (z, e, h) ↦ inr (z, e, ground arith)
  ]

  pub last-ne :
      (slot : Slot) (xs : List ℕ) (e : ℕ)
      → Chain s slot xs last
      → slot ≢ next_of e
      → has e xs ≡ false
      → last ≢ next_of e
  last-ne slot xs e c h k q = elim (last_inside slot xs c) [
    | inl here ↦ h (cc)
    | inr (z, at, inside) ↦ ground arith
  ]

  -- `t` is `s` with `e` linked at the last slot.
  pub append-Chain :
      (t : TailQueue) (e : ℕ) (slot : Slot) (xs : List ℕ)
      → Chain s slot xs last
      → read t last ≡ some e
      → t.tqe_prev e ≡ last
      → t.tqe_next e ≡ none
      → ((other : Slot) → other ≢ last → other ≢ next_of e → read t other ≡ read s other)
      → ((x : ℕ) → x ≢ e → t.tqe_prev x ≡ s.tqe_prev x)
      → slot ≢ next_of e
      → has e xs ≡ false
      → Chain t slot (xs ++ e ∷ []) (next_of e)
  append-Chain t e slot [] c a p n same back h k = (rw (← c.1) a, p ∙ c.1, (n, refl))
  append-Chain t e slot (x ∷ xs) c a p n same back h k =
      let first = same slot (λ q. cc (ap (read s) q, read-last (next_of x) xs c.2)) h in
      (
        first ∙ c.0,
        back x (λ q. ground arith) ∙ c.1,
        append-Chain t e (next_of x) xs c.2 a p n same back (λ q. ground arith) (ground arith),
      )

-- `t` is `s` with the pointers round `e` closed, where `new` takes the place of the last slot.
pub record Closed (s t : TailQueue) (e : ℕ) (last new : Slot) : Type 0 where
  pub skip : read t (s.tqe_prev e) ≡ s.tqe_next e
  pub inner : (n : ℕ) → s.tqe_next e ≡ some n → (t.tqe_prev n ≡ s.tqe_prev e) × (new ≡ last)
  pub final : s.tqe_next e ≡ none → new ≡ s.tqe_prev e
  pub same : (other : Slot) → other ≢ s.tqe_prev e → read t other ≡ read s other
  pub back : (x : ℕ) → s.tqe_next e ≢ some x → t.tqe_prev x ≡ s.tqe_prev x

module _ (s t : TailQueue) (e : ℕ) (last new : Slot) (k : Closed s t e last new) where
  erase_here :
      (slot : Slot) (xs : List ℕ)
      → Chain s slot (e ∷ xs) last
      → Distinct (e ∷ xs)
      → Chain t slot xs new
  erase_here slot [] (at, prev, c) d = (rw (← prev) (k.skip ∙ c.0), k.final c.0 ∙ prev)
  erase_here slot (y ∷ ys) (at, prev, (next, back, rest)) (out, (apart, d)) =
      let (p, n) = k.inner y next in
      (
        rw (← prev) (k.skip ∙ next),
        p ∙ prev,
        subst (Chain t (next_of y) ys) (sym n) (
            frame s last t (next_of y) ys rest (keeps y (ground arith))
              (λ z h. (keeps z (ground arith), k.back z (λ q. ground arith)))),
      )
    where
      keeps : (z : ℕ) → has z (y ∷ ys) ≡ true → t.tqe_next z ≡ s.tqe_next z
      keeps z h = k.same (next_of z) (λ q.
          next_inside s last e z (next_of e) (y ∷ ys) (next, back, rest) out h
            (ap (read s) (q ∙ prev) ∙ at))

  pub erase-Chain :
      (slot : Slot) (xs : List ℕ)
      → Chain s slot xs last
      → Distinct xs
      → has e xs ≡ true
      → Chain t slot (erase e xs) new
  erase-Chain slot [] c d h = cc
  erase-Chain slot (x ∷ xs) c d h = elim (Bool-cases (x == e)) [
    | inl here ↦
        let same : x ≡ e = ground arith in
        rw here (
          erase_here slot xs (subst (λ y. Chain s slot (y ∷ xs) last) same c)
            (subst (λ y. Distinct (y ∷ xs)) same d))
    | inr there ↦
        let inside : has e xs ≡ true = ground arith in
        let other : x ≢ e = ground arith in
        rw there (
          k.same slot
                (λ q. other (cc (ap (read s) q, read-prev s last e (next_of x) xs c.2 inside)))
              ∙ c.0,
          k.back x (next_inside s last x e (next_of x) xs c.2 d.0 inside) ∙ c.1,
          erase-Chain (next_of x) xs c.2 d.1 inside,
        )
  ]
