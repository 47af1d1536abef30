-- ===== src/Event/Timer.antt =====
-- timeout_next, timeout_correct and timeout_process. A failed clock leaves the C variable
-- uninitialised: its use is a fault.
use ilibevent.Base.{
  ℕ, zero, suc, ◌+◌, Bool, true, false, not, ◌&&◌, Option, none, some, if◌then◌else◌, ◌>>=◌, ◌>>◌,
  check, update,
}
use ilibevent.Base.Int.{pos, ltb_ℤ}
use ilibevent.Time.{Timeval, timerclear, timercmp_gt, timersub}
use ilibevent.MinHeap.{MinHeap, load, min_heap_top, min_heap_empty}
use ilibevent.State.{ev_timeout_mask, EventBase, Eventop}
use ilibevent.Event.Setup.{gettime}
use ilibevent.Event.Add.{event_active, event_del}

-- What timeout_next leaves in `*tv_p`: NULL, or how long to wait; `no_clock` is its result -1.
pub data Wait : Type 0 where
  no_clock forever : Wait
  wait_for : Timeval → Wait

-- The `for` of timeout_correct: `size` entries from index `i` on.
unfoldable pub correct_from : ℕ → MinHeap → ℕ → Timeval → Option MinHeap
correct_from zero h i off = some h
correct_from (suc size) h i off = load h i >>= λ e.
    correct_from size
      (record h { ev_timeout = update h.ev_timeout e (timersub (h.ev_timeout e) off) }) (suc i) off

module _ {B : Type 0} where
  unfoldable pub timeout_next : Option Timeval → EventBase B → Option Wait
  timeout_next clock b = min_heap_top b.timeheap >>= λ top. elim top [
    | none ↦ some forever
    | some e ↦ elim (gettime b clock) [
      | none ↦ some no_clock
      | some now ↦
          let tv = timersub (b.timeheap.ev_timeout e) now in
          if not (timercmp_gt (b.timeheap.ev_timeout e) now)
          then some (wait_for timerclear)
          else (check (not (ltb_ℤ tv.tv_sec (pos 0)) && not (ltb_ℤ tv.tv_usec (pos 0)))
              >> some (wait_for tv))
    ]
  ]

  -- `monotonic` is the file's variable use_monotonic.
  unfoldable pub timeout_correct : Bool → Option Timeval → EventBase B → Option (EventBase B)
  timeout_correct monotonic clock b =
      if monotonic
      then some b
      else (gettime b clock >>= λ tv.
          if not (timercmp_gt b.event_tv tv)
          then some (record b { event_tv = tv })
          else (correct_from b.timeheap.n b.timeheap 0 (timersub b.event_tv tv) >>= λ h.
              some (record b { timeheap = h; event_tv = tv })))

  module _ (evsel : Eventop B) where
    -- The `while` of timeout_process.
    unfoldable pub expire : ℕ → Timeval → EventBase B → Option (EventBase B)
    expire zero now b = none
    expire (suc fuel) now b = min_heap_top b.timeheap >>= λ top. elim top [
      | none ↦ some b
      | some e ↦ elim (timercmp_gt (b.timeheap.ev_timeout e) now) [
        | true ↦ some b
        | false ↦ event_del evsel b e >>= λ (_, b₁).
            event_active b₁ e ev_timeout_mask 1 >>= λ b₂. expire fuel now b₂
      ]
    ]

    -- A round takes the event at the root out of the heap, so `n + 1` rounds are enough.
    unfoldable pub timeout_process : Option Timeval → EventBase B → Option (EventBase B)
    timeout_process clock b =
        if min_heap_empty b.timeheap
        then some b
        else (gettime b clock >>= λ now. expire (b.timeheap.n + 1) now b)
