-- ===== src/Event/Room.antt =====
-- The changes that event_add makes to the heap before an event enters it.
use ilibevent.Base.{ℕ, ◌-◌, ◌/◌, ◌^◌, ◌≤◌, ◌<◌, ◌≡◌, refl, false, List, arith, ◌==◌, update}
use ilibevent.Time.{Timeval}
use ilibevent.MinHeap.{MinHeap}
use ilibevent.MinHeap.Valid.{IsValid}
use ilibevent.State.{Event, EventBase}
use ilibevent.Event.Invariant.{View, Inv, settings}

module _ {B : Type 0} (known : List ℕ) (v : View) (b : EventBase B) (i : Inv known v b) where
  -- Another heap with the same entries.
  with_heap-Inv :
      (h : MinHeap)
      → IsValid h
      → h.n ≡ b.timeheap.n
      → h.p ≡ b.timeheap.p
      → Inv known v (record b { timeheap = h })
  with_heap-Inv h valid n p = record {
    inserted_linked = i.inserted_linked;
    active_linked = i.active_linked;
    heap = valid;
    on_inserted = i.on_inserted;
    on_active = i.on_active;
    priority = i.priority;
    on_heap = λ e f. rw (n, p) (i.on_heap e f);
    off_heap = λ e f. rw (n, p) (i.off_heap e f);
    distinct = i.distinct;
    all_known = i.all_known;
    counted = i.counted;
    counted_active = i.counted_active;
  }

  -- A larger array.
  pub larger-Inv :
      (a : ℕ)
      → b.timeheap.a ≤ a
      → a < 2 ^ 31
      → Inv known v (record b { timeheap = record (b.timeheap) { a = a } })
  larger-Inv a h small =
      with_heap-Inv (record (b.timeheap) { a = a })
        (record {
          ordered = i.heap.ordered;
          indexed = i.heap.indexed;
          fits = omega (arith, i.heap.fits);
          small = small;
        })
        refl refl

  -- Another time for an event outside the heap.
  pub retimed-Inv :
      (e : ℕ) (tv : Timeval)
      → (b.event e).ev_flags.timeout ≡ false
      → Inv known v (record b {
        timeheap = record (b.timeheap) { ev_timeout = update b.timeheap.ev_timeout e tv };
      })
  retimed-Inv e tv h =
      with_heap-Inv (record (b.timeheap) { ev_timeout = update b.timeheap.ev_timeout e tv })
        (record {
          ordered =
              λ c p q. rw (apart c q, apart ((c - 1) / 2) (omega arith)) (i.heap.ordered c p q);
          indexed = i.heap.indexed;
          fits = i.heap.fits;
          small = i.heap.small;
        })
        refl refl
    where
      apart : (c : ℕ) → c < b.timeheap.n → (e == b.timeheap.p c) ≡ false
      apart c q = ground (arith, i.off_heap e h c q)

-- `b'` has `ev` for the event `e`, and the same times and room.
pub record Became {B : Type 0} (known : List ℕ) (b : EventBase B) (e : ℕ) (ev : Event)
    (b' : EventBase B) : Type 0 where
  pub view : View
  pub inv : Inv known view b'
  pub events : b'.event ≡ update b.event e ev
  pub priorities : b'.nactivequeues ≡ b.nactivequeues
  pub cache : b'.tv_cache ≡ b.tv_cache
  pub timeouts : b'.timeheap.ev_timeout ≡ b.timeheap.ev_timeout
  pub fixed : settings b' ≡ settings b
  pub count : b'.timeheap.n ≡ b.timeheap.n
  pub capacity : b'.timeheap.a ≡ b.timeheap.a
