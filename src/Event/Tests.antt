-- ===== src/Event/Tests.antt =====
-- The event functions on a small base, and the theorems at inputs that meet their hypotheses.
use ilibevent.Base.{ℕ, ◌≡◌, ◌≢◌, Option, refl, arith, update, [], ◌∷◌, some, true, ◌>>=◌, Status}
use ilibevent.Base.Int.{pos}
use ilibevent.Time.{Timeval, timerclear, timeradd}
use ilibevent.TailQueue.{insert_tail, next_of}
use ilibevent.MinHeap.{min_heap_push, min_heap_reserve, place, shift_up, min_heap_shift_up}
use ilibevent.State.{ev_read_mask, evlist_init, EventBase, timeout_queue}
use ilibevent.MinHeap.Valid.{InHeap}
use ilibevent.TailQueue.Links.{insert_tail-append}
use ilibevent.Event.Invariant.{nowhere}
use ilibevent.Event.Samples.{evsel, agreeing, idle, no_links, base, known, base-Inv}
use ilibevent.Event.Queues.{event_queue_insert, event_queue_remove}
use ilibevent.Event.Setup.{gettime, event_base_priority_init}
use ilibevent.Event.Add.{event_active, schedule, register, event_add, event_del}
use ilibevent.Event.Timer.{timeout_process}
use ilibevent.Event.Invariant.{Inv}
use ilibevent.Event.Enqueue.{Inserted, insert-Inserted}
use ilibevent.Event.Dequeue.{Taken, remove-Taken}
use ilibevent.Event.Delete.{Deleted, event_del-Deleted}
use ilibevent.Event.Activate.{Activated, event_active-Activated}
use ilibevent.Event.Addition.{Adds, event_add-Adds}
use ilibevent.Event.Waiting.{Normal, Waits, timeout_next-Waits}
use ilibevent.Event.Loop.{find_active, deactivate}
use ilibevent.Event.Calls.{FirstActive, find_active-FirstActive, Obedient, Halts, run_calls-Halts}
use ilibevent.Event.Priorities.{Initialised, event_base_priority_init-Initialised}
use ilibevent.Event.Due.{Timed, Expired}
use ilibevent.Event.Deactivate.{Deactivated, deactivate-Deactivated}
use ilibevent.Event.Expiry.{timeout_process-Expired}

added :
    (event_add evsel true (some timerclear) base 1 (some timerclear) >>= λ r.
    some (r.1.event_count))
    ≡ some (pos 2)
unfolding event_add register schedule event_queue_insert gettime min_heap_reserve min_heap_push
    min_heap_shift_up shift_up place insert_tail timeradd
added = refl

insert-Inserted_example :
    (b : EventBase (Unit {0})) × (event_queue_insert true base 1 timeout_queue ≡ some b)
    × Inserted known nowhere base 1 timeout_queue b
insert-Inserted_example =
    insert-Inserted true known nowhere base 1 base-Inv refl timeout_queue refl
      (omega arith, omega arith)

-- The base with event 1 in the heap.
abbrev waiting : EventBase (Unit {0})
waiting = record base {
  event = update base.event 1 (record idle { ev_flags = record evlist_init { timeout = true } });
  event_count = pos 1;
  timeheap = record (base.timeheap) {
    p = λ _. 1;
    n = 1;
    min_heap_idx = update base.timeheap.min_heap_idx 1 0;
  };
}

waiting-Inv : Inv known nowhere waiting
waiting-Inv = record {
  inserted_linked = base-Inv.inserted_linked;
  active_linked = base-Inv.active_linked;
  heap = record {
    ordered = λ c p q. absurd (omega arith);
    indexed = λ i h. omega arith;
    fits = omega arith;
    small = omega arith;
  };
  on_inserted = λ e q. ground arith;
  on_active = λ e q. ground arith;
  priority = λ e h. ground arith;
  on_heap = λ e h. (0, omega arith, ground arith);
  off_heap = λ e h i p q. ground arith;
  distinct = (refl, (refl, tt));
  all_known = λ e h. ground arith;
  counted = refl;
  counted_active = refl;
}

remove-Taken_example :
    (b : EventBase (Unit {0})) × (event_queue_remove waiting 1 timeout_queue ≡ some b)
    × Taken known nowhere waiting 1 timeout_queue b
remove-Taken_example = remove-Taken known nowhere waiting waiting-Inv 1 refl timeout_queue refl

event_del-Deleted_example :
    (s : Status) × (b : EventBase (Unit {0})) × (event_del evsel waiting 1 ≡ some (s, b))
    × Deleted agreeing known nowhere waiting 1 b
event_del-Deleted_example =
    event_del-Deleted evsel agreeing known nowhere waiting waiting-Inv 1 refl tt refl

event_active-Activated_example :
    (b : EventBase (Unit {0})) × (event_active waiting 1 ev_read_mask 1 ≡ some b)
    × Activated known nowhere waiting 1 ev_read_mask 1 b
event_active-Activated_example =
    event_active-Activated known nowhere waiting waiting-Inv 1 refl ev_read_mask 1 refl
      (omega arith)

waiting-Timed : Timed agreeing known waiting
waiting-Timed e h = (ground arith, ground arith, ground arith, tt)

-- Event 1 is due at two seconds.
abbrev two_seconds : Timeval
two_seconds = record { tv_sec = pos 2; tv_usec = pos 0 }

gettime_reads : gettime waiting (some two_seconds) ≡ some two_seconds
unfolding gettime
gettime_reads = refl

timeout_process-Expired_example :
    (b : EventBase (Unit {0})) × (timeout_process evsel (some two_seconds) waiting ≡ some b)
    × Expired known two_seconds waiting b
timeout_process-Expired_example =
    timeout_process-Expired evsel agreeing known two_seconds (some two_seconds) nowhere waiting
      waiting-Inv waiting-Timed gettime_reads

-- Event 1 is set to another time, and handed to the backend.
event_add-Adds_example :
    Adds evsel agreeing true (some two_seconds) known 1 refl two_seconds (some two_seconds) waiting
event_add-Adds_example =
    event_add-Adds evsel agreeing true (some two_seconds) known 1 refl two_seconds
      (some two_seconds) nowhere waiting waiting-Inv refl tt (omega arith) gettime_reads

normal_times : (x : ℕ) → InHeap waiting.timeheap x → Normal (waiting.timeheap.ev_timeout x)
normal_times x h = (ground arith, refl, refl)

timerclear_reads : gettime waiting (some timerclear) ≡ some timerclear
unfolding gettime
timerclear_reads = refl

timeout_next-Waits_example :
    Waits
      (some timerclear)
      waiting
      waiting-Inv.heap
      timerclear
      (refl, refl, refl)
      normal_times
      timerclear_reads
timeout_next-Waits_example =
    timeout_next-Waits (some timerclear) waiting waiting-Inv.heap timerclear (refl, refl, refl)
      normal_times timerclear_reads

-- The base with event 2 on the active list of priority 0.
abbrev running : EventBase (Unit {0})
running = record base {
  event = update base.event 2 (record idle { ev_flags = record evlist_init { active = true } });
  event_count = pos 1;
  event_count_active = pos 1;
  activequeues = insert_tail no_links 0 2;
  ncalls = 3;
}

running-Inv : Inv known (record nowhere { active = update nowhere.active 0 (2 ∷ []) }) running
running-Inv = record {
  inserted_linked = base-Inv.inserted_linked;
  active_linked = insert_tail-append no_links nowhere.active base-Inv.active_linked 0 2 (λ r. refl);
  heap = base-Inv.heap;
  on_inserted = λ e q. ground arith;
  on_active = λ e q. ground arith;
  priority = λ e h. ground arith;
  on_heap = λ e h. ground arith;
  off_heap = λ e h i p q. absurd (omega arith);
  distinct = (refl, (refl, tt));
  all_known = λ e h. ground arith;
  counted = refl;
  counted_active = refl;
}

one_active : running.event_count_active ≢ pos 0
one_active p = ground arith

find_active-FirstActive_example :
    (q : ℕ) × (find_active running 1 0 ≡ some q)
    × FirstActive (record nowhere { active = update nowhere.active 0 (2 ∷ []) }) running q
find_active-FirstActive_example =
    find_active-FirstActive known (record nowhere { active = update nowhere.active 0 (2 ∷ []) })
      running running-Inv one_active

-- A callback that does nothing.
abbrev callback : EventBase (Unit {0}) → ℕ → Option (EventBase (Unit {0}))
callback b e = some b

callback-Obedient : Obedient callback
callback-Obedient b e = (b, refl, omega arith)

run_calls-Halts_example : Halts callback callback-Obedient 2 3 running
run_calls-Halts_example = run_calls-Halts callback callback-Obedient 2 3 running (omega arith)

-- Three priorities instead of one.
event_base_priority_init-Initialised_example :
    (status : Status) × (b : EventBase (Unit {0})) × (event_base_priority_init true
        (λ q. (some 7, next_of q))
        waiting
        3
      ≡ some (status, b))
    × Initialised known nowhere waiting waiting-Inv 3 status b
event_base_priority_init-Initialised_example =
    event_base_priority_init-Initialised known nowhere waiting waiting-Inv
      (λ q. (some 7, next_of q)) 3

deactivate-Deactivated_example :
    (b : EventBase (Unit {0})) × (deactivate evsel callback running 2 ≡ some b)
    × Deactivated known running 2 b
deactivate-Deactivated_example =
    deactivate-Deactivated evsel agreeing callback known
      (record nowhere { active = update nowhere.active 0 (2 ∷ []) }) running running-Inv 2 refl refl
      refl tt
