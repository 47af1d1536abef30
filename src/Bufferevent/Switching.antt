-- ===== src/Bufferevent/Switching.antt =====
-- The steps of bufferevent_enable and bufferevent_disable.
use ilibevent.Base.{
  ℕ, ◌≡◌, refl, ap, ◌∙◌, ◌⊎◌, inl, inr, Bool, true, false, ◌&&◌, ◌||◌, arith, ◌==◌, Bool-cases,
  Option, none, some, Status, success, failure, update, ◌>>=◌, if◌then◌else◌,
}
use ilibevent.Base.Int.{ℤ}
use ilibevent.Time.{Timeval}
use ilibevent.State.{EventMask, EventBase, Event, Eventop}
use ilibevent.Event.Delete.{off_queues}
use ilibevent.Event.Outcome.{add_event}
use ilibevent.Bufferevent.State.{Bufferevent, World, Env, with_base}
use ilibevent.Bufferevent.Events.{Calls}
use ilibevent.Bufferevent.Setup.{timeval_of, bufferevent_add, remove_event, stop_or}
use ilibevent.Bufferevent.Bytes.{add-Renews}

-- Adding an event changes no more than deleting it does.
off-add_event :
    (s : Status) (tv : Option Timeval) (ev : Event) → off_queues (add_event s tv ev) ≡ off_queues ev
off-add_event failure tv ev = refl
off-add_event success none ev = ground arith
off-add_event success (some t) ev = ground arith

-- The event is one of those that the mask names.
abbrev pub names : Bufferevent → EventMask → ℕ → Bool
names s m e = (m.read && (e == s.ev_read)) || (m.write && (e == s.ev_write))

-- An event that `test` has started.
abbrev pub Started : (ℕ → Event) → Bool → ℕ → (ℕ → Event) → Type 0
Started event test e event' =
    (a : ℕ)
    → (off_queues (event' a) ≡ off_queues (event a))
      × ((test && (a == e)) ≡ false → event' a ≡ event a)

abbrev pub Halted : (ℕ → Event) → Bool → ℕ → (ℕ → Event) → Type 0
Halted event test e event' =
    (a : ℕ) → event' a ≡ (if test && (a == e) then off_queues (event a) else event a)

module _ {B C : Type 0} (evsel : Eventop B) (env : Env) (r w : ℕ)
    (calls : Calls evsel env r w) where
  -- One of the two calls of enable or disable, and what follows.
  abbrev pub continue :
      Status × EventBase B
      → World B C
      → (World B C → Option (Status × World B C))
      → Option (Status × World B C)
  continue p x next = elim (p.0) [
    | failure ↦ some (failure, with_base x p.1)
    | success ↦ next (with_base x p.1)
  ]

  abbrev pub Step : World B C → Bool → Option (Status × World B C) → ((ℕ → Event) → Type 0) → Type 0
  Step x test call P =
      (s : Status) × (b : EventBase B) × ((next : World B C → Option (Status × World B C))
        → stop_or evsel env test call x next ≡ continue (s, b) x next)
      × calls.good b
      × P b.event

  skip :
      (x : World B C) (call : Option (Status × World B C)) (P : (ℕ → Event) → Type 0)
      → calls.good x.base
      → P x.base.event
      → Step x false call P
  skip x call P g p = (success, x.base, λ next. refl, g, p)

  pub start :
      (x : World B C) (e : ℕ) (timeout : ℤ)
      → (e ≡ r) ⊎ (e ≡ w)
      → calls.good x.base
      → (test : Bool)
      → Step x test (bufferevent_add evsel env x e timeout) (Started x.base.event test e)
  start x e timeout q g false =
      skip x (bufferevent_add evsel env x e timeout) (Started x.base.event false e) g
        (λ a. (refl, λ h. refl))
  start x e timeout q g true =
      let (s, b, run, good, events, _) = add-Renews evsel env r w calls x e timeout g q in
      (
        s,
        b,
        λ next. ap (λ t. stop_or evsel env true t x next) run,
        good,
        λ a. elim (Bool-cases (a == e)) [
          | inl here ↦ (ap (λ f. off_queues (f a)) events ∙ at a here s, λ h. absurd (ground arith))
          | inr there ↦ (
            ap off_queues (ap (λ f. f a) events ∙ apart a there s),
            λ h. ap (λ f. f a) events ∙ apart a there s,
          )
        ],
      )
    where
      changed : Status → Event
      changed s = add_event s (timeval_of timeout) (x.base.event e)

      at :
          (a : ℕ)
          → (a == e) ≡ true
          → (s : Status)
          → off_queues (update x.base.event e (changed s) a) ≡ off_queues (x.base.event a)
      at a here s = ground (arith, off-add_event s (timeval_of timeout) (x.base.event e))

      apart :
          (a : ℕ)
          → (a == e) ≡ false
          → (s : Status) → update x.base.event e (changed s) a ≡ x.base.event a
      apart a there s = ground arith

  pub halt :
      (x : World B C) (e : ℕ)
      → (e ≡ r) ⊎ (e ≡ w)
      → calls.good x.base
      → (test : Bool) → Step x test (remove_event evsel env x e) (Halted x.base.event test e)
  unfolding remove_event
  halt x e q g false =
      skip x (remove_event evsel env x e) (Halted x.base.event false e) g (λ a. refl)
  halt x e q g true =
      let (s, b, run, good, events) = calls.del_law x.base g e q in
      (
        s,
        b,
        λ next. ap (λ t. stop_or evsel env true (t >>= moved) x next) run,
        good,
        λ a. ap (λ f. f a) events ∙ ground arith,
      )
    where
      moved : Status × EventBase B → Option (Status × World B C)
      moved p = some (p.0, with_base x p.1)

  pub follow :
      (x : World B C) (s : Status) (b : EventBase B) (f g : World B C → Option (Status × World B C))
      → f (with_base x b) ≡ g (with_base x b)
      → continue (s, b) x f ≡ continue (s, b) x g
  follow x failure b f g h = refl
  follow x success b f g h = h
