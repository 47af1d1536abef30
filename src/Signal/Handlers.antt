-- ===== src/Signal/Handlers.antt =====
-- evsignal_add and evsignal_del: the disposition of a signal is changed for its first event and restored
-- behind the last one.
use ilibevent.Base.{
  ℕ, ◌+◌, ◌<◌, ◌≡◌, refl, ap, ◌∙◌, Bool, true, false, not, Option, none, some, arith, ltb, ◌==◌,
  if◌then◌else◌, Status, success, failure, update, check, ◌>>◌,
}
use ilibevent.Signal.{Sigactions, EvsignalInfo, resize, set_handler, restore_handler}

-- What sigaction(2) does, where it succeeds. `at` reads a table.
pub record Law {T : Type 0} (sys : Sigactions T) (at : T → ℕ → ℕ) : Type 0 where
  pub old : (t : T) (n h o : ℕ) (t' : T) → sys.sigaction t n h ≡ some (o, t') → o ≡ at t n
  pub new :
      (t : T) (n h o : ℕ) (t' : T)
      → sys.sigaction t n h ≡ some (o, t')
      → (x : ℕ) → at t' x ≡ (if x == n then h else at t x)

module _ {T : Type 0} (sys : Sigactions T) (at : T → ℕ → ℕ) (law : Law sys at) where
  -- The handler is set and the old disposition kept, or nothing has happened to the dispositions.
  pub record HandlerSet (s : EvsignalInfo T) (n h : ℕ) (status : Status) (s' : EvsignalInfo T)
      : Type 0 where
    pub lists : s'.evsigevents ≡ s.evsigevents
    pub added : s'.ev_signal_added ≡ s.ev_signal_added
    pub same : status ≡ failure → s'.dispositions ≡ s.dispositions
    pub kept : status ≡ success → s'.sh_old n ≡ some (at s.dispositions n)
    pub inside : status ≡ success → n < s'.sh_old_max
    pub changed :
        status ≡ success
        → (x : ℕ) → at s'.dispositions x ≡ (if x == n then h else at s.dispositions x)

  -- set_handler behind the resizing.
  abbrev enter : Bool → EvsignalInfo T → ℕ → ℕ → Status × EvsignalInfo T → Status × EvsignalInfo T
  enter room_entry s n h p = elim (p.0) [
    | failure ↦ (failure, p.1)
    | success ↦
        if not room_entry
        then (failure, record p.1 { sh_old = update p.1.sh_old n none })
        else elim (sys.sigaction p.1.dispositions n h) [
          | none ↦ (failure, record p.1 { sh_old = update p.1.sh_old n none })
          | some (o, t) ↦
              (success, record p.1 { sh_old = update p.1.sh_old n (some o); dispositions = t })
        ]
  ]

  entered :
      (room_entry : Bool) (s : EvsignalInfo T) (n h : ℕ)
      → n < s.sh_old_max
      → HandlerSet s n h
          (enter room_entry s n h (success, s)).0
          (enter room_entry s n h (success, s)).1
  entered false s n h inside = record {
    lists = refl;
    added = refl;
    same = λ p. refl;
    kept = λ p. absurd (ground arith);
    inside = λ p. absurd (ground arith);
    changed = λ p. absurd (ground arith);
  }
  entered true s n h inside = by_result (sys.sigaction s.dispositions n h) refl
    where
      outcome : Option (ℕ × T) → Status × EvsignalInfo T
      outcome r = elim r [
        | none ↦ (failure, record s { sh_old = update s.sh_old n none })
        | some (o, t) ↦
            (success, record s { sh_old = update s.sh_old n (some o); dispositions = t })
      ]

      by_result :
          (r : Option (ℕ × T))
          → sys.sigaction s.dispositions n h ≡ r
          → HandlerSet s n h
              (outcome (sys.sigaction s.dispositions n h)).0
              (outcome (sys.sigaction s.dispositions n h)).1
      by_result none run = rw run (record {
        lists = refl;
        added = refl;
        same = λ p. refl;
        kept = λ p. absurd (ground arith);
        inside = λ p. absurd (ground arith);
        changed = λ p. absurd (ground arith);
      })
      by_result (some (o, t)) run = rw run (record {
        lists = refl;
        added = refl;
        same = λ p. absurd (ground arith);
        kept = λ p. ground (arith, law.old s.dispositions n h o t run);
        inside = λ p. inside;
        changed = λ p. law.new s.dispositions n h o t run;
      })

  -- The array that is made longer.
  longer : (s : EvsignalInfo T) (n : ℕ) → EvsignalInfo T
  longer s n = record s {
    sh_old = λ i. if ltb i s.sh_old_max then s.sh_old i else none;
    sh_old_max = n + 1;
  }

  abbrev resized : Bool → Bool → EvsignalInfo T → ℕ → Status × EvsignalInfo T
  resized fits room s n =
      if fits then (success, s) else if not room then (failure, s) else (success, longer s n)

  pub set_handler-HandlerSet :
      (room room_entry : Bool) (s : EvsignalInfo T) (n h : ℕ)
      → HandlerSet s n h
          (set_handler sys room room_entry s n h).0
          (set_handler sys room room_entry s n h).1
  unfolding set_handler resize longer
  set_handler-HandlerSet room room_entry s n h = by_size (ltb n s.sh_old_max) refl room
    where
      whole : Bool → Bool → Status × EvsignalInfo T
      whole fits room = enter room_entry s n h (resized fits room s n)

      by_size :
          (fits : Bool)
          → ltb n s.sh_old_max ≡ fits
          → (room : Bool)
          → HandlerSet s n h (whole (ltb n s.sh_old_max) room).0 (whole (ltb n s.sh_old_max) room).1
      by_size true f room = rw f (entered room_entry s n h (ground arith))
      by_size false f false = rw f (record {
        lists = refl;
        added = refl;
        same = λ p. refl;
        kept = λ p. absurd (ground arith);
        inside = λ p. absurd (ground arith);
        changed = λ p. absurd (ground arith);
      })
      by_size false f true = rw f (
          let e = entered room_entry (longer s n) n h (omega arith) in
          record {
            lists = e.lists;
            added = e.added;
            same = e.same;
            kept = e.kept;
            inside = e.inside;
            changed = e.changed;
          })

  -- restore_handler of a signal whose old disposition is kept: it has it back, or sigaction has failed.
  pub restore_handler-restores :
      (s : EvsignalInfo T) (n old : ℕ)
      → n < s.sh_old_max
      → s.sh_old n ≡ some old
      → (status : Status) × (s' : EvsignalInfo T) × (restore_handler sys s n ≡ some (status, s'))
        × (s'.evsigevents ≡ s.evsigevents)
        × (s'.sh_old n ≡ none)
        × (status ≡ success
            → (x : ℕ) → at s'.dispositions x ≡ (if x == n then old else at s.dispositions x))
  unfolding restore_handler
  restore_handler-restores s n old inside kept = by_result (sys.sigaction s.dispositions n old) refl
    where
      taken : EvsignalInfo T
      taken = record s { sh_old = update s.sh_old n none }

      act : Option (ℕ × T) → Option (Status × EvsignalInfo T)
      act r = elim r [
        | none ↦ some (failure, taken)
        | some (o, t) ↦ some (success, record taken { dispositions = t })
      ]

      pick : Option ℕ → Option (Status × EvsignalInfo T)
      pick o = elim o [
        | none ↦ some (success, taken)
        | some sh ↦ act (sys.sigaction s.dispositions n sh)
      ]

      fine : check (ltb n s.sh_old_max) ≡ some tt
      fine = ground arith

      run : restore_handler sys s n ≡ act (sys.sigaction s.dispositions n old)
      run = ap (λ c. c >> pick (s.sh_old n)) fine ∙ ap pick kept

      empty : update s.sh_old n none n ≡ none
      empty = ground arith

      by_result :
          (r : Option (ℕ × T))
          → sys.sigaction s.dispositions n old ≡ r
          → (status : Status) × (s' : EvsignalInfo T) × (restore_handler sys s n
              ≡ some (status, s'))
            × (s'.evsigevents ≡ s.evsigevents)
            × (s'.sh_old n ≡ none)
            × (status ≡ success
                → (x : ℕ) → at s'.dispositions x ≡ (if x == n then old else at s.dispositions x))
      by_result none got =
          (failure, taken, run ∙ ap act got, refl, empty, λ p. absurd (ground arith))
      by_result (some (o, t)) got = (
        success,
        record taken { dispositions = t },
        run ∙ ap act got,
        refl,
        empty,
        λ p. law.new s.dispositions n old o t got,
      )
