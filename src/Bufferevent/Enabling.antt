-- ===== src/Bufferevent/Enabling.antt =====
-- What bufferevent_enable and bufferevent_disable leave of the bufferevent and of the base.
use ilibevent.Base.{
  ℕ, ◌≡◌, refl, ap, ◌∙◌, inl, inr, Bool, true, false, ◌&&◌, ◌||◌, arith, ◌==◌, Option, some, Status,
  success, failure, if◌then◌else◌,
}
use ilibevent.State.{EventMask, mask_or, EventBase, Event, Eventop}
use ilibevent.Event.Delete.{off_queues}
use ilibevent.Bufferevent.State.{World, Env, with_base}
use ilibevent.Bufferevent.Events.{Calls}
use ilibevent.Bufferevent.Setup.{
  mask_without, bufferevent_add, remove_event, stop_or, bufferevent_enable, bufferevent_disable,
}
use ilibevent.Bufferevent.Switching.{names, Started, Halted, continue, start, halt, follow}

twice :
    (p q : Bool) (f g : Event)
    → g ≡ (if p then off_queues f else f)
    → (if q then off_queues g else g) ≡ (if p || q then off_queues f else f)
twice true true f g h = ap off_queues h
twice true false f g h = h
twice false true f g h = ap off_queues h
twice false false f g h = h

module _ {B C : Type 0} (evsel : Eventop B) (env : Env) (r w : ℕ)
    (calls : Calls evsel env r w) where
  module _ (x : World B C) (m : EventMask) (named_read : x.bufev.ev_read ≡ r)
      (named_write : x.bufev.ev_write ≡ w) (fine : calls.good x.base) where
    -- The events that the mask names may have been added; if `s`, they are enabled.
    pub record Enabled (s : Status) (y : World B C) : Type 0 where
      pub good : calls.good y.base
      pub bufev : y.bufev ≡ (elim s [
        | failure ↦ x.bufev
        | success ↦ record (x.bufev) { enabled = mask_or x.bufev.enabled m }
      ])
      pub queues : (a : ℕ) → off_queues (y.base.event a) ≡ off_queues (x.base.event a)
      pub others : (a : ℕ) → names x.bufev m a ≡ false → y.base.event a ≡ x.base.event a

    pub record Disabled (s : Status) (y : World B C) : Type 0 where
      pub good : calls.good y.base
      pub bufev : y.bufev ≡ (elim s [
        | failure ↦ x.bufev
        | success ↦ record (x.bufev) { enabled = mask_without x.bufev.enabled m }
      ])
      pub stopped :
          s ≡ success
          → (a : ℕ)
          → y.base.event a
            ≡ (if names x.bufev m a then off_queues (x.base.event a) else x.base.event a)

    abbrev enabled : World B C → Option (Status × World B C)
    enabled y =
        some
          (success, record y { bufev = record (y.bufev) { enabled = mask_or y.bufev.enabled m } })

    abbrev disabled : World B C → Option (Status × World B C)
    disabled y = some (
      success,
      record y { bufev = record (y.bufev) { enabled = mask_without y.bufev.enabled m } },
    )

    abbrev start_write : World B C → Option (Status × World B C)
    start_write y =
        stop_or evsel env m.write
          (bufferevent_add evsel env y y.bufev.ev_write y.bufev.timeout_write) y enabled

    abbrev halt_write : World B C → Option (Status × World B C)
    halt_write y = stop_or evsel env m.write (remove_event evsel env y y.bufev.ev_write) y disabled

    abbrev Enables : Option (Status × World B C) → Type 0
    Enables result = (s : Status) × (y : World B C) × (result ≡ some (s, y)) × Enabled s y

    abbrev Disables : Option (Status × World B C) → Type 0
    Disables result = (s : Status) × (y : World B C) × (result ≡ some (s, y)) × Disabled s y

    enables :
        (s₁ s₂ : Status) (b₁ b₂ : EventBase B)
        → calls.good b₁
        → calls.good b₂
        → Started x.base.event m.read x.bufev.ev_read b₁.event
        → Started b₁.event m.write x.bufev.ev_write b₂.event
        → Enables (
            continue evsel env r w calls
              (s₁, b₁)
              x
              (λ y. continue evsel env r w calls (s₂, b₂) y enabled))
    enables failure s₂ b₁ b₂ g₁ g₂ st₁ st₂ = (
      failure,
      with_base x b₁,
      refl,
      record {
        good = g₁;
        bufev = refl;
        queues = λ a. (st₁ a).0;
        others = λ a h. (st₁ a).1 (ground arith);
      },
    )
    enables success failure b₁ b₂ g₁ g₂ st₁ st₂ = (
      failure,
      with_base x b₂,
      refl,
      record {
        good = g₂;
        bufev = refl;
        queues = λ a. (st₂ a).0 ∙ (st₁ a).0;
        others = λ a h. (st₂ a).1 (ground arith) ∙ (st₁ a).1 (ground arith);
      },
    )
    enables success success b₁ b₂ g₁ g₂ st₁ st₂ = (
      success,
      _,
      refl,
      record {
        good = g₂;
        bufev = refl;
        queues = λ a. (st₂ a).0 ∙ (st₁ a).0;
        others = λ a h. (st₂ a).1 (ground arith) ∙ (st₁ a).1 (ground arith);
      },
    )

    disables :
        (s₁ s₂ : Status) (b₁ b₂ : EventBase B)
        → calls.good b₁
        → calls.good b₂
        → Halted x.base.event m.read x.bufev.ev_read b₁.event
        → Halted b₁.event m.write x.bufev.ev_write b₂.event
        → Disables (
            continue evsel env r w calls
              (s₁, b₁)
              x
              (λ y. continue evsel env r w calls (s₂, b₂) y disabled))
    disables failure s₂ b₁ b₂ g₁ g₂ h₁ h₂ = (
      failure,
      with_base x b₁,
      refl,
      record { good = g₁; bufev = refl; stopped = λ h. absurd (ground arith) },
    )
    disables success failure b₁ b₂ g₁ g₂ h₁ h₂ = (
      failure,
      with_base x b₂,
      refl,
      record { good = g₂; bufev = refl; stopped = λ h. absurd (ground arith) },
    )
    disables success success b₁ b₂ g₁ g₂ h₁ h₂ = (
      success,
      _,
      refl,
      record {
        good = g₂;
        bufev = refl;
        stopped = λ h a.
            h₂ a
            ∙ twice (m.read && (a == x.bufev.ev_read)) (m.write && (a == x.bufev.ev_write))
                (x.base.event a) (b₁.event a) (h₁ a);
      },
    )

    pub enable-Enables : Enables (bufferevent_enable evsel env x m)
    unfolding bufferevent_enable
    enable-Enables =
        let (s₁, b₁, run₁, g₁, st₁) =
          start evsel env r w calls x x.bufev.ev_read x.bufev.timeout_read (inl named_read) fine
            m.read in
        let (s₂, b₂, run₂, g₂, st₂) =
          start evsel env r w calls (with_base x b₁) x.bufev.ev_write x.bufev.timeout_write
            (inr named_write) g₁ m.write in
        let (s, y, run, e) = enables s₁ s₂ b₁ b₂ g₁ g₂ st₁ st₂ in
        (
          s,
          y,
          run₁ start_write
              ∙ follow evsel env r w calls x s₁ b₁ start_write
                  (λ q. continue evsel env r w calls (s₂, b₂) q enabled) (run₂ enabled)
              ∙ run,
          e,
        )

    pub disable-Disables : Disables (bufferevent_disable evsel env x m)
    unfolding bufferevent_disable
    disable-Disables =
        let (s₁, b₁, run₁, g₁, st₁) =
          halt evsel env r w calls x x.bufev.ev_read (inl named_read) fine m.read in
        let (s₂, b₂, run₂, g₂, st₂) =
          halt evsel env r w calls (with_base x b₁) x.bufev.ev_write (inr named_write) g₁ m.write in
        let (s, y, run, e) = disables s₁ s₂ b₁ b₂ g₁ g₂ st₁ st₂ in
        (
          s,
          y,
          run₁ halt_write
              ∙ follow evsel env r w calls x s₁ b₁ halt_write
                  (λ q. continue evsel env r w calls (s₂, b₂) q disabled) (run₂ disabled)
              ∙ run,
          e,
        )
