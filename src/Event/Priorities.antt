-- ===== src/Event/Priorities.antt =====
-- event_base_priority_init makes the lists of the active events anew.
use ilibevent.Base.{
  ℕ, zero, suc, ◌≡◌, refl, sym, ap, ◌∙◌, true, false, ◌&&◌, List, [], ◌∷◌, arith, ◌==◌, ltb,
  if◌then◌else◌, Bool-cases, inl, inr, Option, some, none, Status, success, failure,
}
use ilibevent.Base.Int.{ℤ, pos, negsuc, pos_part}
use ilibevent.TailQueue.{Slot, head_of, TailQueue, init_list}
use ilibevent.TailQueue.Chain.{has, Chain}
use ilibevent.State.{Event, EventBase}
use ilibevent.Event.Setup.{is_zero, allocated, init_lists, event_base_priority_init}
use ilibevent.Event.Calls.{some_active}
use ilibevent.Event.Invariant.{active_weight, total, View, Inv}

total_zero :
    (g : Event → ℕ) (event : ℕ → Event) (e : ℕ) (es : List ℕ)
    → total g event es ≡ 0
    → has e es ≡ true
    → g (event e) ≡ 0
total_zero g event e [] z h = ground arith
total_zero g event e (x ∷ es) z h = ground (arith, total_zero g event e es)

pub init_lists-first :
    (s : TailQueue) (n q : ℕ)
    → (init_lists s n).tqh_first q ≡ (if ltb q n then none else s.tqh_first q)
unfolding init_lists init_list
init_lists-first s zero q = ground arith
init_lists-first s (suc n) q = ground (arith, init_lists-first s n q)

pub init_lists-last :
    (s : TailQueue) (n q : ℕ)
    → (init_lists s n).tqh_last q ≡ (if ltb q n then head_of q else s.tqh_last q)
unfolding init_lists init_list
init_lists-last s zero q = ground arith
init_lists-last s (suc n) q = ground (arith, init_lists-last s n q)

is_zero_lem : (z : ℤ) → is_zero z ≡ true → z ≡ pos 0
is_zero_lem (pos zero) h = refl
is_zero_lem (pos (suc n)) h = ground arith
is_zero_lem (negsuc n) h = ground arith

-- Without a member the list is empty.
no_member : (xs : List ℕ) → ((x : ℕ) → has x xs ≡ false) → xs ≡ []
no_member [] h = refl
no_member (x ∷ xs) h = absurd (ground (arith, h x))

module _ {B : Type 0} (known : List ℕ) (v : View) (b : EventBase B) (i : Inv known v b) where
  module _ (zero_count : b.event_count_active ≡ pos 0) where
    none_active : (e : ℕ) → (b.event e).ev_flags.active ≡ false
    none_active e = elim (Bool-cases (has e known)) [
      | inl h ↦ ground (
        arith,
        i.counted_active,
        total_zero active_weight b.event e known (ap pos_part (sym i.counted_active ∙ zero_count))
            h,
      )
      | inr h ↦ ground (arith, i.all_known e h)
    ]

    active_empty : (q : ℕ) → v.active q ≡ []
    active_empty q =
        no_member (v.active q)
          (λ x. i.on_active x q ∙ ap (λ t. t && ((b.event x).ev_pri == q)) (none_active x))

    -- The new lists, all empty.
    abbrev fresh : (ℕ → Option ℕ × Slot) → ℕ → TailQueue
    fresh memory n = init_lists (allocated memory n b.activequeues) n

    empty-Chain :
        (memory : ℕ → Option ℕ × Slot) (n q : ℕ) (xs : List ℕ)
        → xs ≡ []
        → Chain (fresh memory n) (head_of q) xs ((fresh memory n).tqh_last q)
    empty-Chain memory n q [] e = (
      ground (arith, init_lists-first (allocated memory n b.activequeues) n q),
      ground (arith, init_lists-last (allocated memory n b.activequeues) n q),
    )
    empty-Chain memory n q (x ∷ xs) e = ground arith

    emptied-Inv :
        (memory : ℕ → Option ℕ × Slot) (n : ℕ)
        → Inv known v (record b { nactivequeues = n; activequeues = fresh memory n })
    emptied-Inv memory n = record {
      inserted_linked = i.inserted_linked;
      active_linked = record {
        chain = λ q. empty-Chain memory n q (v.active q) (active_empty q);
        distinct = i.active_linked.distinct;
        apart = i.active_linked.apart;
      };
      heap = i.heap;
      on_inserted = i.on_inserted;
      on_active = i.on_active;
      priority = λ e h. absurd (ground (arith, none_active e));
      on_heap = i.on_heap;
      off_heap = i.off_heap;
      distinct = i.distinct;
      all_known = i.all_known;
      counted = i.counted;
      counted_active = i.counted_active;
    }

  -- What event_base_priority_init does: `n` empty lists, or nothing, since an event is active.
  abbrev pub Initialised : ℕ → Status → EventBase B → Type 0
  Initialised n success b' =
      Inv known v b'
      × (b'.nactivequeues ≡ n)
      × (b'.event ≡ b.event)
      × (b'.timeheap ≡ b.timeheap)
      × (b'.evbase ≡ b.evbase)
  Initialised n failure b' = (b' ≡ b) × ((e : ℕ) × ((b.event e).ev_flags.active ≡ true))

  -- event_base_priority_init, if there is memory for the lists, always returns and keeps the invariant, whatever
  -- the new memory holds. It succeeds if no event is active, and there are as many lists as asked for, for the
  -- same events and timeouts; it fails only if an event is active, and then it changes nothing. The number asked
  -- for is not negative.
  pub event_base_priority_init-Initialised :
      (memory : ℕ → Option ℕ × Slot) (n : ℕ)
      → (status : Status) × (b' : EventBase B) × (event_base_priority_init true memory b n
          ≡ some (status, b'))
        × Initialised n status b'
  unfolding event_base_priority_init
  event_base_priority_init-Initialised memory n = elim (Bool-cases (is_zero b.event_count_active)) [
    | inr h ↦ (
      failure,
      b,
      rw h refl,
      (
        refl,
        some_active b.event known
            (λ z. ground (arith, h, ap is_zero (i.counted_active ∙ ap pos z))),
      ),
    )
    | inl h ↦ elim (Bool-cases (n == b.nactivequeues)) [
      | inl same ↦ (success, b, rw (h, same) refl, (i, ground arith, refl, refl, refl))
      | inr other ↦ (
        success,
        record b { nactivequeues = n; activequeues = fresh_lists memory n },
        rw (h, other) refl,
        (emptied-Inv (is_zero_lem b.event_count_active h) memory n, refl, refl, refl, refl),
      )
    ]
  ]
    where
      fresh_lists : (ℕ → Option ℕ × Slot) → ℕ → TailQueue
      fresh_lists memory n = init_lists (allocated memory n b.activequeues) n
