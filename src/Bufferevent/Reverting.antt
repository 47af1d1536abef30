-- ===== src/Bufferevent/Reverting.antt =====
-- bufferevent_enable and bufferevent_disable: what is started can be stopped.
use ilibevent.Base.{
  ℕ, ◌≡◌, refl, ap, ◌∙◌, Bool, true, false, not, ◌&&◌, ◌||◌, arith, some, Status, success, failure,
  if◌then◌else◌,
}
use ilibevent.State.{EventMask, mask_or, Event, Eventop}
use ilibevent.Event.Delete.{off_queues}
use ilibevent.Bufferevent.State.{Bufferevent, World, Env}
use ilibevent.Bufferevent.Events.{Calls}
use ilibevent.Bufferevent.Setup.{mask_without, bufferevent_enable, bufferevent_disable}
use ilibevent.Bufferevent.Switching.{names}
use ilibevent.Bufferevent.Enabling.{Enabled, enable-Enables, disable-Disables}

settled :
    (p : Bool) (f g : Event)
    → off_queues g ≡ off_queues f
    → (p ≡ false → g ≡ f)
    → (if p then off_queues g else g) ≡ (if p then off_queues f else f)
settled true f g h k = h
settled false f g h k = k refl

when_done :
    (t : Status) (a b : Bufferevent) → t ≡ success → (elim t [ failure ↦ a | success ↦ b ]) ≡ b
when_done failure a b h = absurd (ground arith)
when_done success a b h = refl

-- Two masks: enabled and disabled again.
without-or : (a m : EventMask) → mask_without (mask_or a m) m ≡ mask_without a m
without-or a m = λ i. record {
  timeout = bit a.timeout m.timeout i;
  read = bit a.read m.read i;
  write = bit a.write m.write i;
  signal = bit a.signal m.signal i;
  persist = bit a.persist m.persist i;
}
  where
    bit : (p q : Bool) → ((p || q) && not q) ≡ (p && not q)
    bit p q = ground arith

abbrev less : EventMask → Bufferevent → Bufferevent
less m q = record q { enabled = mask_without q.enabled m }

module _ {B C : Type 0} (evsel : Eventop B) (env : Env) (r w : ℕ)
    (calls : Calls evsel env r w) where
  -- What enable and disable of the same events leave.
  abbrev pub Reverts : World B C → EventMask → Status → World B C → Type 0
  Reverts x m s y =
      (t : Status) × (z : World B C) × (s ≡ success
        → bufferevent_disable evsel env y m ≡ some (t, z))
      × (s ≡ success
          → t ≡ success
          → (z.bufev ≡ record (x.bufev) { enabled = mask_without x.bufev.enabled m })
            × ((a : ℕ)
                → z.base.event a
                  ≡ (if names x.bufev m a then off_queues (x.base.event a) else x.base.event a)))

  module _ (x : World B C) (m : EventMask) (named_read : x.bufev.ev_read ≡ r)
      (named_write : x.bufev.ev_write ≡ w) (fine : calls.good x.base) where
    reverts :
        (s : Status) (y : World B C)
        → Enabled evsel env r w calls x m named_read named_write fine s y
        → Reverts x m s y
    reverts failure y e = (failure, y, λ h. absurd (ground arith), λ h. absurd (ground arith))
    reverts success y e =
        let (t, z, run, d) =
          disable-Disables evsel env r w calls y m (ap (λ q. q.ev_read) e.bufev ∙ named_read)
            (ap (λ q. q.ev_write) e.bufev ∙ named_write) e.good in
        (
          t,
          z,
          λ h. run,
          λ h done. (
            d.bufev
                ∙ when_done t y.bufev (less m y.bufev) done
                ∙ ap (less m) e.bufev
                ∙ ap (with_mask x.bufev) (without-or x.bufev.enabled m),
            λ a.
                d.stopped done a
                ∙ ap (λ q. if names q m a then off_queues (y.base.event a) else y.base.event a)
                    e.bufev
                ∙ settled (names x.bufev m a) (x.base.event a) (y.base.event a) (e.queues a)
                    (e.others a),
          ),
        )
      where
        with_mask : Bufferevent → EventMask → Bufferevent
        with_mask q n = record q { enabled = n }

    -- bufferevent_enable, in a good state of the base, always returns. If it succeeds, bufferevent_disable of the same
    -- events returns too. If that also succeeds, those of the two events that were named are on no queue, every
    -- other event is as it was before both, and so is the bufferevent but for the named bits, which are not enabled.
    pub enable-Reverts :
        (s : Status) × (y : World B C) × (bufferevent_enable evsel env x m ≡ some (s, y))
        × Reverts x m s y
    enable-Reverts =
        let (s, y, run, e) = enable-Enables evsel env r w calls x m named_read named_write fine in
        (s, y, run, reverts s y e)
