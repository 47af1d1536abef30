-- ===== src/Event/Queues.antt =====
-- event_queue_insert and event_queue_remove. Their complaints to the log change nothing.
use ilibevent.Base.{
  ℕ, suc, zero, Bool, true, false, ◌&&◌, ◌||◌, is_some, Option, some, ltb, if◌then◌else◌, ◌>>=◌,
  ◌>>◌, check, update,
}
use ilibevent.Base.Int.{ℤ, pos, negsuc}
use ilibevent.TailQueue.{insert_tail, remove}
use ilibevent.MinHeap.{min_heap_push, min_heap_erase}
use ilibevent.State.{
  Event, EventFlags, EventBase, Queue, timeout_queue, inserted_queue, active_queue,
}

-- ++count and --count of an `int`
abbrev pub increment : ℤ → ℤ
increment (pos n) = pos (suc n)
increment (negsuc zero) = pos 0
increment (negsuc (suc n)) = negsuc n

abbrev pub decrement : ℤ → ℤ
decrement (pos zero) = negsuc 0
decrement (pos (suc n)) = pos n
decrement (negsuc n) = negsuc (suc n)

abbrev pub flag_of : Queue → EventFlags → Bool
flag_of timeout_queue f = f.timeout
flag_of inserted_queue f = f.inserted
flag_of active_queue f = f.active

abbrev pub set_flag : Queue → Bool → EventFlags → EventFlags
set_flag timeout_queue v f = record f { timeout = v }
set_flag inserted_queue v f = record f { inserted = v }
set_flag active_queue v f = record f { active = v }

-- Only for the active queue is it harmless to be on it already.
abbrev pub is_active_queue : Queue → Bool
is_active_queue active_queue = true
is_active_queue _ = false

module _ {B : Type 0} where
  abbrev pub set_event : EventBase B → ℕ → Event → EventBase B
  set_event b e ev = record b { event = update b.event e ev }

  -- ev->ev_flags = (ev->ev_flags with the queue's bit set to `v`)
  abbrev pub mark : EventBase B → ℕ → Queue → Bool → EventBase B
  mark b e queue v =
      set_event b e (record (b.event e) { ev_flags = set_flag queue v (b.event e).ev_flags })

  -- The two counters: one for the events that are not internal, one for the active ones.
  abbrev pub count : (ℤ → ℤ) → EventBase B → ℕ → EventBase B
  count change b e = record b {
    event_count = if (b.event e).ev_flags.internal then b.event_count else change b.event_count;
  }

  -- The `switch` of event_queue_insert. `granted` is for the realloc of min_heap_push, whose result is
  -- not looked at.
  unfoldable pub enqueue : Bool → EventBase B → ℕ → Queue → Option (EventBase B)
  enqueue granted b e inserted_queue = some (record b { eventqueue = insert_tail b.eventqueue 0 e })
  enqueue granted b e active_queue =
      check (ltb (b.event e).ev_pri b.nactivequeues)
      >> some (record b {
        event_count_active = increment b.event_count_active;
        activequeues = insert_tail b.activequeues (b.event e).ev_pri e;
      })
  enqueue granted b e timeout_queue =
      min_heap_push granted b.timeheap e >>= λ (_, h). some (record b { timeheap = h })

  unfoldable pub event_queue_insert : Bool → EventBase B → ℕ → Queue → Option (EventBase B)
  unfolding enqueue
  event_queue_insert granted b e queue =
      if flag_of queue (b.event e).ev_flags && is_active_queue queue
      then some b
      else enqueue granted (mark (count increment b e) e queue true) e queue

  -- The `switch` of event_queue_remove. `activequeues[ev_pri]` is used only for the last event of its
  -- list. The result of min_heap_erase is not looked at.
  unfoldable pub dequeue : EventBase B → ℕ → Queue → Option (EventBase B)
  dequeue b e inserted_queue = some (record b { eventqueue = remove b.eventqueue 0 e })
  dequeue b e active_queue =
      check (is_some (b.activequeues.tqe_next e) || ltb (b.event e).ev_pri b.nactivequeues)
      >> some (record b {
        event_count_active = decrement b.event_count_active;
        activequeues = remove b.activequeues (b.event e).ev_pri e;
      })
  dequeue b e timeout_queue =
      min_heap_erase b.timeheap e >>= λ (_, h). some (record b { timeheap = h })

  unfoldable pub event_queue_remove : EventBase B → ℕ → Queue → Option (EventBase B)
  unfolding dequeue
  event_queue_remove b e queue = dequeue (mark (count decrement b e) e queue false) e queue
