-- ===== src/MinHeap/Push.antt =====
-- min_heap_reserve and min_heap_push.
use ilibevent.Base.{
  ℕ, ◌+◌, ◌%◌, ◌^◌, ◌≤◌, ◌<◌, ◌≡◌, ◌≢◌, ◌↔◌, ◌⊎◌, inl, inr, refl, sym, ap, subst, Bool, true, false,
  Option, some, arith, ◌==◌, Status, success, failure, Bool-cases,
}
use ilibevent.MinHeap.{
  u32_mod, MinHeap, min_heap_elem_greater, min_heap_reserve, min_heap_shift_up, min_heap_push,
}
use ilibevent.MinHeap.Order.{UpInv}
use ilibevent.MinHeap.Up.{Holds, filled, Settled, Settles, shift_up-Settles}
use ilibevent.MinHeap.Valid.{IsValid, InHeap, Settled-IsValid}

abbrev pub ReserveOutcome : Bool → MinHeap → ℕ → Status → MinHeap → Type 0
ReserveOutcome granted s n status r =
    ((status ≡ success)
      × (r ≡ record s { a = r.a })
      × (n ≤ r.a)
      × (s.a ≤ r.a)
      × (r.a < 2 ^ 31)
      × ((granted ≡ true) ⊎ (n ≤ s.a)))
    ⊎ ((status ≡ failure) × (r ≡ s) × (granted ≡ false) × (s.a < n))

-- min_heap_reserve for at most 2 ^ 30 entries leaves an array of at least that many, and of less
-- than 2 ^ 31, if realloc succeeds; the entries and the events are as they were. It fails only if
-- realloc does and the array is too short, and then changes nothing.
pub reserve_lem :
    (granted : Bool) (s : MinHeap) (n : ℕ)
    → n ≤ 2 ^ 30
    → s.a < 2 ^ 31
    → ReserveOutcome granted s n (min_heap_reserve granted s n).0 (min_heap_reserve granted s n).1
unfolding min_heap_reserve
reserve_lem granted s n h small = ground arith

-- The outcome of a push: a valid heap of the events from before and `e`.
pub record Pushed (s : MinHeap) (e : ℕ) (t : MinHeap) : Type 0 where
  pub valid : IsValid t
  pub count : t.n ≡ s.n + 1
  pub entries : (x : ℕ) → InHeap t x ↔ (InHeap s x ⊎ (x ≡ e))
  pub timeouts : t.ev_timeout ≡ s.ev_timeout
  pub outside : (x : ℕ) → ¬ InHeap t x → t.min_heap_idx x ≡ s.min_heap_idx x

abbrev pub Absent : MinHeap → ℕ → Type 0
Absent s e = (i : ℕ) → i < s.n → s.p i ≢ e

module _ (s : MinHeap) (e a : ℕ) (v : IsValid s) (new : Absent s e) (room : s.n < a)
    (kept : s.a ≤ a) (small : a < 2 ^ 31) where
  -- The heap as shift_up gets it.
  abbrev grown : MinHeap
  grown = record s { a = a; n = s.n + 1 }

  grown-UpInv : UpInv (min_heap_elem_greater s) (filled grown s.n e) (s.n + 1) s.n
  grown-UpInv = record {
    edges = λ c p q r. ground (arith, v.ordered c);
    bridged = λ c p q r. absurd (ground arith);
  }

  grown-Settles : Settles grown (s.n + 1) s.n e (min_heap_shift_up grown s.n e)
  unfolding min_heap_shift_up
  grown-Settles =
      shift_up-Settles (s.n + 1) grown (s.n + 1) s.n e (omega arith) (omega arith) (omega arith)
        (omega arith) grown-UpInv
        (record {
          indexed = λ i p q. v.indexed i (omega arith);
          absent = λ i p q. new i (omega arith);
        })

  grown-Holds : (x : ℕ) → Holds (filled grown s.n e) (s.n + 1) x ↔ (InHeap s x ⊎ (x ≡ e))
  grown-Holds x = (to, from)
    where
      to : Holds (filled grown s.n e) (s.n + 1) x → InHeap s x ⊎ (x ≡ e)
      to (i, h, q) = elim (Bool-cases (s.n == i)) [
        | inl last ↦ inr (ground arith)
        | inr other ↦ inl (i, ground arith, ground arith)
      ]

      from : InHeap s x ⊎ (x ≡ e) → Holds (filled grown s.n e) (s.n + 1) x
      from (inl (i, h, q)) = (i, omega arith, ground arith)
      from (inr q) = (s.n, omega arith, ground arith)

  Settled-Pushed : (t : MinHeap) → Settled grown (s.n + 1) s.n e t → Pushed s e t
  Settled-Pushed t st = record {
    valid = Settled-IsValid st st.frame.count (omega arith) small;
    count = st.frame.count;
    entries = λ x. (
      λ h. (grown-Holds x).0 ((st.same x).1 (subst (λ n. Holds t.p n x) st.frame.count h)),
      λ h. subst (λ n. Holds t.p n x) (sym st.frame.count) ((st.same x).0 ((grown-Holds x).1 h)),
    );
    timeouts = st.frame.timeouts;
    outside = λ x out.
        let inside = λ (h : InHeap s x ⊎ (x ≡ e)).
          out (
            subst (λ n. Holds t.p n x) (sym st.frame.count)
              ((st.same x).0 ((grown-Holds x).1 h))) in
        st.frame.outside x (λ q. inside (inr q)) (λ i p q r. inside (inl (i, omega arith, r)));
  }

abbrev pub PushOutcome : Bool → MinHeap → ℕ → Status → MinHeap → Type 0
PushOutcome granted s e status t =
    ((status ≡ success) × Pushed s e t)
    ⊎ ((status ≡ failure) × (t ≡ s) × (granted ≡ false) × (s.a < s.n + 1))

abbrev pub Pushes : Bool → MinHeap → ℕ → Option (Status × MinHeap) → Type 0
Pushes granted s e r =
    (status : Status) × (t : MinHeap) × (r ≡ some (status, t)) × PushOutcome granted s e status t

module _ (granted : Bool) (s : MinHeap) (e : ℕ) (v : IsValid s) (new : Absent s e)
    (h : s.n < 2 ^ 30) where
  push_success :
      (r : MinHeap)
      → min_heap_reserve granted s ((s.n + 1) % u32_mod) ≡ (success, r)
      → r ≡ record s { a = r.a }
      → s.n < r.a
      → s.a ≤ r.a
      → r.a < 2 ^ 31
      → Pushes granted s e (min_heap_push granted s e)
  unfolding min_heap_push
  push_success r q same room kept small =
      let (t, run, st) = grown-Settles s e r.a v new room kept small in
      let start : record r { n = (r.n + 1) % u32_mod } ≡ grown s e r.a v new room kept small =
        ground arith in
      let hole : r.n ≡ s.n = ap (λ (m : MinHeap). m.n) same in
      (
        success,
        t,
        rw (q, min_heap_push, start, hole, run),
        inl (refl, Settled-Pushed s e r.a v new room kept small t st),
      )

  -- What reserve returns decides the rest.
  push_reserved :
      (status : Status) (r : MinHeap)
      → min_heap_reserve granted s ((s.n + 1) % u32_mod) ≡ (status, r)
      → ReserveOutcome granted s ((s.n + 1) % u32_mod) status r
      → Pushes granted s e (min_heap_push granted s e)
  unfolding min_heap_push
  push_reserved failure r q (inl (bad, _, _, _, _, _)) = cc
  push_reserved failure r q (inr (_, same, denied, short)) =
      (failure, r, rw (q, min_heap_push), inr (refl, same, denied, omega arith))
  push_reserved success r q (inr (bad, _, _, _)) = cc
  push_reserved success r q (inl (_, same, room, kept, small, _)) =
      push_success r q same (omega arith) kept small

  -- min_heap_push of an event that is not in the heap, on a valid heap of less than 2 ^ 30 events,
  -- leaves a valid heap of the old events and the new one, with all timeouts and the indices of the
  -- events outside as they were; or it fails because realloc failed, and changes nothing. It never
  -- reads or writes outside the array.
  pub push-insert : Pushes granted s e (min_heap_push granted s e)
  push-insert =
      push_reserved _ _ refl (reserve_lem granted s ((s.n + 1) % u32_mod) (omega arith) v.small)
