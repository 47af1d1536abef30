-- ===== src/Event/Loop.antt =====
-- event_process_active and event_base_loop. A callback is code of the client: any partial function of
-- the event_base. The clock readings of one round of the loop are an argument.
use ilibevent.Base.{
  ℕ, zero, suc, ◌-◌, Bool, true, false, not, ◌&&◌, ◌||◌, Option, none, some, is_some, ◌==◌,
  if◌then◌else◌, ◌>>=◌, success, failure, List, [], ◌∷◌,
}
use ilibevent.Base.Int.{pos}
use ilibevent.Time.{Timeval, timerclear}
use ilibevent.State.{EventBase, Eventop, active_queue}
use ilibevent.Event.Queues.{set_event, event_queue_remove}
use ilibevent.Event.Setup.{is_zero, gettime, event_haveevents}
use ilibevent.Event.Add.{event_del}
use ilibevent.Event.Timer.{
  no_clock, forever, wait_for, timeout_next, timeout_correct, timeout_process,
}

-- EVLOOP_ONCE and EVLOOP_NONBLOCK.
pub record LoopFlags : Type 0 where
  pub once : Bool
  pub nonblock : Bool

-- What the clock reads in one round: for timeout_correct, for timeout_next, before and after the
-- dispatch, and for timeout_process.
pub record Readings : Type 0 where
  pub correct : Option Timeval
  pub next : Option Timeval
  pub before : Option Timeval
  pub after : Option Timeval
  pub process : Option Timeval

-- The results 0, -1 and 1 of event_base_loop.
pub data LoopResult : Type 0 where
  loop_done loop_error loop_no_events : LoopResult

pub data Round (B : Type 0) : Type 0 where
  continues : EventBase B → Round B
  leaves : LoopResult → EventBase B → Round B

-- tv_sec = 0
abbrev pub clear_sec : Timeval → Timeval
clear_sec tv = record tv { tv_sec = pos 0 }

module _ {B : Type 0} where
  -- The first of `k` queues from `i` on that is not empty.
  unfoldable pub find_active : EventBase B → ℕ → ℕ → Option ℕ
  find_active b zero i = none
  find_active b (suc k) i =
      if is_some (b.activequeues.tqh_first i) then some i else find_active b k (suc i)

  -- `while (ncalls)`, with whether the function returns from inside it. A round takes one off `ncalls`
  -- and a callback can only set it to 0, so its first value is fuel enough.
  unfoldable pub run_calls :
      (EventBase B → ℕ → Option (EventBase B)) → ℕ → EventBase B → ℕ → Option (Bool × EventBase B)
  run_calls callback zero b e = if b.ncalls == 0 then some (false, b) else none
  run_calls callback (suc fuel) b e =
      let left = b.ncalls - 1 in
      let entered =
        set_event (record b { ncalls = left }) e (record (b.event e) { ev_ncalls = left }) in
      let round = callback entered e >>= λ b'. elim (b'.event_gotsig || b'.event_break) [
        | true ↦ some (true, b')
        | false ↦ run_calls callback fuel b' e
      ] in
      if b.ncalls == 0 then some (false, b) else round

  module _ (evsel : Eventop B) (callback : EventBase B → ℕ → Option (EventBase B)) where
    -- The event leaves the active queue; unless it persists, it leaves all queues.
    unfoldable pub deactivate : EventBase B → ℕ → Option (EventBase B)
    deactivate b e =
        if (b.event e).ev_events.persist
        then event_queue_remove b e active_queue
        else (event_del evsel b e >>= λ (_, b'). some b')

    -- The outer `for`. A callback may activate events again, so the rounds have no bound.
    unfoldable pub drain_queue : ℕ → EventBase B → ℕ → Option (EventBase B)
    drain_queue zero b q = none
    drain_queue (suc fuel) b q = elim (b.activequeues.tqh_first q) [
      | none ↦ some b
      | some e ↦ deactivate b e >>= λ b₁.
          let n = (b₁.event e).ev_ncalls in
          let started =
            set_event (record b₁ { ncalls = n }) e (record (b₁.event e) { ev_pncalls = true }) in
          run_calls callback n started e >>= λ (returned, b₂). elim returned [
            | true ↦ some b₂
            | false ↦ drain_queue fuel b₂ q
          ]
    ]

    unfoldable pub event_process_active : ℕ → EventBase B → Option (EventBase B)
    event_process_active fuel b = find_active b b.nactivequeues 0 >>= λ q. drain_queue fuel b q

    -- Behind the dispatch: the timeouts, and the active events.
    unfoldable pub after_dispatch :
        ℕ → LoopFlags → Readings → EventBase B → Option (Bool × EventBase B)
    after_dispatch fuel flags clocks b =
        let cached : EventBase B = elim (gettime b clocks.after) [
          | some tv ↦ record b { tv_cache = tv }
          | none ↦ b
        ] in
        timeout_process evsel clocks.process cached >>= λ b₁.
        if not (is_zero b₁.event_count_active)
        then (event_process_active fuel b₁ >>= λ b₂.
            some (is_zero b₂.event_count_active && flags.once, b₂))
        else some (flags.nonblock, b₁)

    -- How long the dispatch may wait: the `if` before it.
    unfoldable pub choose_wait : LoopFlags → Readings → EventBase B → Option (Option Timeval)
    choose_wait flags clocks b =
        if is_zero b.event_count_active && not flags.nonblock
        then (timeout_next clocks.next b >>= λ wait. elim wait [
          | no_clock ↦ none
          | forever ↦ some none
          | wait_for tv ↦ some (some tv)
        ])
        else some (some timerclear)

    -- One round of the `while`. No `event_sigcb` is installed: event_base_new sets it to NULL.
    unfoldable pub loop_round : ℕ → Bool → LoopFlags → Readings → EventBase B → Option (Round B)
    loop_round fuel monotonic flags clocks b =
        if b.event_gotterm
        then some (leaves loop_done (record b { event_gotterm = false }))
        else if b.event_break
        then some (leaves loop_done (record b { event_break = false }))
        else (timeout_correct monotonic clocks.correct (record b { event_gotsig = false }) >>= λ b₁.
            choose_wait flags clocks b₁ >>= λ tv.
            if not (event_haveevents b₁)
            then some (leaves loop_no_events b₁)
            else (let noted : EventBase B = elim (gettime b₁ clocks.before) [
              | some t ↦ record b₁ { event_tv = t }
              | none ↦ b₁
            ] in
                evsel.dispatch (record noted { tv_cache = clear_sec noted.tv_cache }) tv
                >>= λ (res, b₂). elim res [
                  | failure ↦ some (leaves loop_error b₂)
                  | success ↦ after_dispatch fuel flags clocks b₂ >>= λ (done, b₃).
                      some (if done then leaves loop_done b₃ else continues b₃)
                ]))

    -- The `while`, over the clock readings of its rounds; `none` if it still runs when they end.
    unfoldable pub loop_rounds :
        ℕ → Bool → LoopFlags → List Readings → EventBase B → Option (LoopResult × EventBase B)
    loop_rounds fuel monotonic flags [] b = none
    loop_rounds fuel monotonic flags (clocks ∷ rest) b =
        loop_round fuel monotonic flags clocks b >>= λ round. elim round [
          | continues b' ↦ loop_rounds fuel monotonic flags rest b'
          | leaves loop_done b' ↦ some (loop_done, record b' { tv_cache = clear_sec b'.tv_cache })
          | leaves loop_error b' ↦ some (loop_error, b')
          | leaves loop_no_events b' ↦ some (loop_no_events, b')
        ]

    unfoldable pub event_base_loop :
        ℕ → Bool → LoopFlags → List Readings → EventBase B → Option (LoopResult × EventBase B)
    event_base_loop fuel monotonic flags clocks b =
        loop_rounds fuel monotonic flags clocks (record b { tv_cache = clear_sec b.tv_cache })
