-- ===== src/Signal.antt =====
-- include/signal.cpp and include/signal.hpp: events for signals. The handler of a signal counts it and writes a byte
-- to a socket, on which the event `ev_signal` waits, so that the loop wakes; evsignal_process then activates the
-- events of the signals that were caught.
-- sigaction(2) is a parameter, with the table of dispositions that it changes. A disposition is a number, and
-- evsignal_handler is `handler_id`. The lists of the events for a signal are numbered by the signal.
pub mod Handlers
pub mod Emptied
pub mod RoundTrip
pub mod Backend
pub mod Start
mod Tests
use ilibevent.Base.{
  ℕ, zero, suc, ◌+◌, ◌%◌, ◌^◌, Bool, true, false, not, ◌&&◌, ◌||◌, Option, none, some, is_some, ltb,
  ◌==◌, if◌then◌else◌, ◌>>=◌, ◌>>◌, check, Status, success, failure, update,
}
use ilibevent.Base.Int.{ℤ, pos, negsuc}
use ilibevent.TailQueue.{TailQueue, init_list, insert_tail, remove}
use ilibevent.State.{EventMask, no_mask, ev_read_mask, Event, EventBase, Eventop}
use ilibevent.Event.Queues.{set_event}
use ilibevent.Event.Setup.{event_set, allocated, init_lists}
use ilibevent.Event.Add.{event_add, event_del, event_active}

-- NSIG of Linux.
abbrev pub nsig : ℕ
nsig = 65

-- evsignal_handler, as a disposition, and evsignal_cb, as a callback of an event.
abbrev pub handler_id : ℕ
handler_id = 0

abbrev pub evsignal_cb_id : ℕ
evsignal_cb_id = 3

abbrev pub ev_signal_mask : EventMask
ev_signal_mask = record no_mask { signal = true }

-- sigaction(sig, act, old): the old disposition and the new table, or -1.
pub record Sigactions (T : Type 0) : Type 0 where
  pub sigaction : T → ℕ → ℕ → Option (ℕ × T)

-- `struct evsignal_info`, the variable `evsignal_base` (whether it is set), and the table of dispositions.
pub record EvsignalInfo (T : Type 0) : Type 0 where
  pub ev_signal : ℕ
  pub ev_signal_added : Bool
  pub ev_signal_read : ℤ  -- ev_signal_pair[1]
  pub ev_signal_write : ℤ  -- ev_signal_pair[0]
  pub evsignal_caught : Bool
  pub evsigcaught : ℕ → ℕ
  pub evsigevents : TailQueue
  pub sh_old : ℕ → Option ℕ
  pub sh_old_max : ℕ
  pub evsignal_base : Bool
  pub dispositions : T

-- A signal that the asserts let pass.
abbrev pub signal_number : ℤ → Option ℕ
signal_number (pos n) = if ltb n nsig then some n else none
signal_number (negsuc n) = none

module _ {T : Type 0} (sys : Sigactions T) where
  -- What happens when the signal comes. The byte that is sent is not modelled.
  unfoldable pub evsignal_handler : EvsignalInfo T → ℕ → EvsignalInfo T
  evsignal_handler s sig = if not s.evsignal_base then s else record s {
    evsigcaught = update s.evsigcaught sig (s.evsigcaught sig + 1);
    evsignal_caught = true;
    dispositions = elim (sys.sigaction s.dispositions sig handler_id) [
      | none ↦ s.dispositions
      | some (old, t) ↦ t
    ];
  }

  -- The array `sh_old`, made longer if it is too short for the signal.
  unfoldable pub resize : Bool → EvsignalInfo T → ℕ → Status × EvsignalInfo T
  resize room s evsignal =
      if ltb evsignal s.sh_old_max then (success, s) else if not room then (failure, s) else (
        success,
        record s {
          sh_old = λ i. if ltb i s.sh_old_max then s.sh_old i else none;
          sh_old_max = evsignal + 1;
        },
      )

  -- The first two arguments say whether realloc and malloc give memory.
  unfoldable pub set_handler : Bool → Bool → EvsignalInfo T → ℕ → ℕ → Status × EvsignalInfo T
  unfolding resize
  set_handler room room_entry s evsignal handler =
      let (status, r) = resize room s evsignal in
      elim status [
        | failure ↦ (failure, r)
        | success ↦
            if not room_entry
            then (failure, record r { sh_old = update r.sh_old evsignal none })
            else elim (sys.sigaction r.dispositions evsignal handler) [
              | none ↦ (failure, record r { sh_old = update r.sh_old evsignal none })
              | some (old, t) ↦ (
                success,
                record r { sh_old = update r.sh_old evsignal (some old); dispositions = t },
              )
            ]
      ]

  -- An index beyond the array is a fault. With a NULL in the array, sigaction changes nothing.
  unfoldable pub restore_handler : EvsignalInfo T → ℕ → Option (Status × EvsignalInfo T)
  restore_handler s evsignal =
      let taken = record s { sh_old = update s.sh_old evsignal none } in
      check (ltb evsignal s.sh_old_max) >> elim (s.sh_old evsignal) [
        | none ↦ some (success, taken)
        | some sh ↦ elim (sys.sigaction s.dispositions evsignal sh) [
          | none ↦ some (failure, taken)
          | some (old, t) ↦ some (success, record taken { dispositions = t })
        ]
      ]

  -- `sig_of` and `with_sig` read and set `base->sig`.
  module _ {B : Type 0} (sig_of : B → EvsignalInfo T) (with_sig : B → EvsignalInfo T → B) where
    abbrev pub sig : EventBase B → EvsignalInfo T
    sig b = sig_of b.evbase

    abbrev pub set_sig : EventBase B → EvsignalInfo T → EventBase B
    set_sig b s = record b { evbase = with_sig b.evbase s }

    -- `room` says whether calloc gives memory for the event `e` and for the lists: a NULL is followed, unless socketpair
    -- fails. `pair` is what socketpair gives. calloc makes `tqh_first` of a list NULL, and `tqh_last` is what it was.
    unfoldable pub evsignal_init :
        Bool → EventBase B → ℕ → Option (ℤ × ℤ) → Option (Status × EventBase B)
    unfolding init_lists init_list
    evsignal_init room b e none = some (failure, set_sig b (record (sig b) { ev_signal = e }))
    evsignal_init room b e (some (write_end, read_end)) =
        let s = record (sig b) {
          ev_signal = e;
          ev_signal_write = write_end;
          ev_signal_read = read_end;
          evsignal_caught = false;
          evsigcaught = λ _. 0;
          evsigevents =
              init_lists
                (allocated (λ q. (none, (sig b).evsigevents.tqh_last q)) nsig (sig b).evsigevents)
                nsig;
          sh_old = λ _. none;
          sh_old_max = 0;
        } in
        let set =
          event_set (set_sig b s) e read_end (record ev_read_mask { persist = true }) evsignal_cb_id
            e in
        check room
        >> some (
          success,
          set_event set e (record (set.event e) {
            ev_base = true;
            ev_flags = record ((set.event e).ev_flags) { internal = true };
          }),
        )

    -- *ev at the end of the list of the signal.
    abbrev pub enlist : EventBase B → ℕ → ℕ → EventBase B
    enlist b evsignal e =
        set_sig b (record (sig b) { evsigevents = insert_tail (sig b).evsigevents evsignal e })

    module _ (evsel : Eventop B) (room : Bool) (room_entry : Bool) where
      -- if (!sig->ev_signal_added) { ... }
      unfoldable pub add_ev_signal : EventBase B → Option (Status × EventBase B)
      add_ev_signal b =
          if (sig b).ev_signal_added
          then some (success, b)
          else (event_add evsel room none b (sig b).ev_signal none >>= λ (status, b'). elim status [
            | failure ↦ some (failure, b')
            | success ↦ some (success, set_sig b' (record (sig b') { ev_signal_added = true }))
          ])

      unfoldable pub evsignal_add : EventBase B → ℕ → Option (Status × EventBase B)
      unfolding set_handler add_ev_signal
      evsignal_add b e =
          check (b.event e).ev_base
          >> (signal_number (b.event e).ev_fd >>= λ evsignal.
              if is_some ((sig b).evsigevents.tqh_first evsignal)
              then some (success, enlist b evsignal e)
              else (let (status, s) = set_handler room room_entry (sig b) evsignal handler_id in
                  elim status [
                    | failure ↦ some (failure, set_sig b s)
                    | success ↦
                        add_ev_signal (set_sig b (record s { evsignal_base = true }))
                        >>= λ (res, b'). elim res [
                          | failure ↦ some (failure, b')
                          | success ↦ some (success, enlist b' evsignal e)
                        ]
                  ]))

    unfoldable pub evsignal_del : EventBase B → ℕ → Option (Status × EventBase B)
    unfolding restore_handler
    evsignal_del b e =
        check (b.event e).ev_base
        >> (signal_number (b.event e).ev_fd >>= λ evsignal.
            let s = record (sig b) { evsigevents = remove (sig b).evsigevents evsignal e } in
            if is_some (s.evsigevents.tqh_first evsignal)
            then some (success, set_sig b s)
            else (restore_handler s evsignal >>= λ (status, s'). some (status, set_sig b s')))

    module _ (evsel : Eventop B) where
      -- The loop over the events of a signal, with fuel. ev_ncalls is a short: it wraps.
      unfoldable pub activate_all : ℕ → EventBase B → Option ℕ → ℕ → Option (EventBase B)
      activate_all fuel b none ncalls = some b
      activate_all zero b (some e) ncalls = none
      activate_all (suc fuel) b (some e) ncalls =
          let next = (sig b).evsigevents.tqe_next e in
          (if (b.event e).ev_events.persist
            then some b
            else (event_del evsel b e >>= λ (_, b'). some b'))
          >>= λ b₁. event_active b₁ e ev_signal_mask (ncalls % 2 ^ 16) >>= λ b₂.
              activate_all fuel b₂ next ncalls

      -- `k` rounds of the loop over the signals, from `i` on.
      unfoldable pub process_from : ℕ → ℕ → ℕ → EventBase B → Option (EventBase B)
      process_from fuel zero i b = some b
      process_from fuel (suc k) i b =
          let ncalls = (sig b).evsigcaught i in
          (if ncalls == 0
            then some b
            else activate_all fuel
                (set_sig b (record (sig b) { evsigcaught = update (sig b).evsigcaught i 0 }))
                ((sig b).evsigevents.tqh_first i) ncalls)
          >>= λ b'. process_from fuel k (suc i) b'

      unfoldable pub evsignal_process : ℕ → EventBase B → Option (EventBase B)
      unfolding process_from activate_all
      evsignal_process fuel b =
          process_from fuel 64 1 (set_sig b (record (sig b) { evsignal_caught = false }))

      -- The first `k` signals get their old dispositions back.
      unfoldable pub restore_all : ℕ → EvsignalInfo T → Option (EvsignalInfo T)
      restore_all zero s = some s
      restore_all (suc k) s = restore_all k s >>= λ s'.
          if ltb k s'.sh_old_max && is_some (s'.sh_old k)
          then (restore_handler s' k >>= λ (_, s''). some s'')
          else some s'

      unfoldable pub evsignal_dealloc : EventBase B → Option (EventBase B)
      unfolding restore_all
      evsignal_dealloc b =
          (if (sig b).ev_signal_added
            then (event_del evsel b (sig b).ev_signal >>= λ (_, b').
                some (set_sig b' (record (sig b') { ev_signal_added = false })))
            else some b)
          >>= λ b₁. restore_all nsig (sig b₁) >>= λ s. some (
              set_sig b₁ (record s {
                ev_signal_write = negsuc 0;
                ev_signal_read = negsuc 0;
                sh_old_max = 0;
                sh_old = λ _. none;
              }))
