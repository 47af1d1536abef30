-- ===== src/Epoll/Activation.antt =====
-- The events that wait for what the kernel reports, and what it is to activate some events.
use ilibevent.Base.{
  ℕ, ◌<◌, ◌≡◌, refl, ◌∙◌, Bool, true, false, ◌&&◌, ◌||◌, List, [], ◌∷◌, Option, none, some, arith,
  ltb, ◌==◌,
}
use ilibevent.TailQueue.Chain.{has}
use ilibevent.State.{EventBase}
use ilibevent.Event.Invariant.{View, Inv}
use ilibevent.Epoll.{Report, Epollop, EpollBase, slot}

-- The event of an entry.
abbrev pub stands : Option ℕ → ℕ → Bool
stands none e = false
stands (some x) e = e == x

-- The report is for something that the event waits for.
abbrev pub at_slot : {K : Type 0} → Epollop K → Report → Option ℕ → ℕ → Bool
at_slot o r none e = false
at_slot o r (some fd) e =
    ltb fd o.nfds
    && (((r.broken || r.epollin) && stands (o.fds fd).evread e)
        || ((r.broken || r.epollout) && stands (o.fds fd).evwrite e))

abbrev pub concerns : {K : Type 0} → Epollop K → List Report → ℕ → Bool
concerns o [] e = false
concerns o (r ∷ rs) e = at_slot o r (slot r.fd) e || concerns o rs e

-- What event_active needs of an event.
pub record Fit {B : Type 0} (known : List ℕ) (b : EventBase B) (e : ℕ) : Type 0 where
  pub is_known : has e known ≡ true
  pub based : (b.event e).ev_base ≡ true
  pub priority : (b.event e).ev_pri < b.nactivequeues

-- The events of the array are fit.
abbrev pub AllFit : {K S : Type 0} → List ℕ → Epollop K → EventBase (EpollBase K S) → Type 0
AllFit known o b =
    (fd e : ℕ)
    → fd < o.nfds
    → (stands (o.fds fd).evread e || stands (o.fds fd).evwrite e) ≡ true
    → Fit known b e

-- The events for which `hit` is true have become active, and no other.
pub record Activates {B : Type 0} (known : List ℕ) (hit : ℕ → Bool) (b b' : EventBase B)
    : Type 0 where
  pub view : View
  pub inv : Inv known view b'
  pub active : (e : ℕ) → (b'.event e).ev_flags.active ≡ ((b.event e).ev_flags.active || hit e)
  pub bases : (e : ℕ) → (b'.event e).ev_base ≡ (b.event e).ev_base
  pub pris : (e : ℕ) → (b'.event e).ev_pri ≡ (b.event e).ev_pri
  pub priorities : b'.nactivequeues ≡ b.nactivequeues
  pub heap : b'.timeheap ≡ b.timeheap

module _ {B : Type 0} (known : List ℕ) where
  pub nothing : (v : View) (b : EventBase B) → Inv known v b → Activates known (λ _. false) b b
  nothing v b i = record {
    view = v;
    inv = i;
    active = λ e. ground arith;
    bases = λ e. refl;
    pris = λ e. refl;
    priorities = refl;
    heap = refl;
  }

  pub in_turn :
      (f g h : ℕ → Bool) (b₁ b₂ b₃ : EventBase B)
      → ((e : ℕ) → h e ≡ (f e || g e))
      → Activates known f b₁ b₂
      → Activates known g b₂ b₃
      → Activates known h b₁ b₃
  in_turn f g h b₁ b₂ b₃ both s t = record {
    view = t.view;
    inv = t.inv;
    active = λ e. ground (arith, both e, s.active e, t.active e);
    bases = λ e. t.bases e ∙ s.bases e;
    pris = λ e. t.pris e ∙ s.pris e;
    priorities = t.priorities ∙ s.priorities;
    heap = t.heap ∙ s.heap;
  }

  pub Activates-Fit :
      (hit : ℕ → Bool) (b b' : EventBase B) (e : ℕ)
      → Activates known hit b b'
      → Fit known b e
      → Fit known b' e
  Activates-Fit hit b b' e t f = record {
    is_known = f.is_known;
    based = t.bases e ∙ f.based;
    priority = omega (arith, t.pris e, t.priorities, f.priority);
  }
