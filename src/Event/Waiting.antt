-- ===== src/Event/Waiting.antt =====
-- timeout_next: how long the dispatch may wait.
use ilibevent.Base.{
  ℕ, ◌+◌, ◌-◌, ◌<◌, ltb, ◌≡◌, ◌⊎◌, refl, sym, ap, subst, ◌∙◌, true, false, not, ◌&&◌, arith,
  if◌then◌else◌, Bool-cases, inl, inr, Option, none, some, check, ◌>>◌,
}
use ilibevent.Base.Int.{ℤ, pos, negsuc, pos_part, ltb_ℤ}
use ilibevent.Time.{Timeval, timerclear, timercmp_gt, timeradd, timersub, million, ◌+ℤ◌, ◌-ℤ◌}
use ilibevent.MinHeap.{MinHeap, min_heap_top}
use ilibevent.MinHeap.Valid.{IsValid, InHeap, TopOf, top_least}
use ilibevent.State.{EventBase}
use ilibevent.Event.Setup.{gettime}
use ilibevent.Event.Timer.{Wait, no_clock, forever, wait_for, timeout_next}

-- The microseconds are less than a million, and the seconds not negative.
abbrev pub Normal : Timeval → Type 0
Normal tv =
    (ltb_ℤ tv.tv_sec (pos 0) ≡ false)
    × (ltb_ℤ tv.tv_usec (pos 0) ≡ false)
    × (ltb_ℤ tv.tv_usec million ≡ true)

-- A time of `s` seconds and `u` microseconds.
abbrev time : ℕ → ℕ → Timeval
time s u = record { tv_sec = pos s; tv_usec = pos u }

-- A later time and an earlier one, in natural numbers.
abbrev Later : ℕ → ℕ → ℕ → ℕ → Type 0
Later s u t w = (t < s) ⊎ ((s ≡ t) × (w < u))

later_lem : (s u t w : ℕ) → timercmp_gt (time s u) (time t w) ≡ true → Later s u t w
unfolding timercmp_gt
later_lem s u t w h = ground arith

abbrev difference : ℕ → ℕ → ℕ → ℕ → Timeval
difference s u t w = if ltb u w then time (s - t - 1) (u + 1_000_000 - w) else time (s - t) (u - w)

sub_lem :
    (s u t w : ℕ)
    → Later s u t w
    → w < 1_000_000
    → timersub (time s u) (time t w) ≡ difference s u t w
unfolding timersub ◌+ℤ◌ ◌-ℤ◌
sub_lem s u t w h l = ground arith

add_lem :
    (s u t w : ℕ)
    → timeradd (time s u) (time t w) ≡ (
        if ltb (u + w) 1_000_000
        then time (s + t) (u + w)
        else time (s + t + 1) (u + w - 1_000_000))
unfolding timeradd ◌+ℤ◌ ◌-ℤ◌
add_lem s u t w = ground arith

difference-Normal :
    (s u t w : ℕ) → Later s u t w → u < 1_000_000 → w < 1_000_000 → Normal (difference s u t w)
difference-Normal s u t w h l m = ground arith

add-difference :
    (s u t w : ℕ)
    → Later s u t w
    → u < 1_000_000
    → w < 1_000_000
    → timeradd (time t w) (difference s u t w) ≡ time s u
add-difference s u t w h l m = elim (Bool-cases (ltb u w)) [
  | inl less ↦ rw (less, add_lem t w (s - t - 1) (u + 1_000_000 - w)) (ground arith)
  | inr more ↦ rw (more, add_lem t w (s - t) (u - w)) (ground arith)
]

nonneg_pos : (z : ℤ) → ltb_ℤ z (pos 0) ≡ false → z ≡ pos (pos_part z)
nonneg_pos (pos n) h = refl
nonneg_pos (negsuc n) h = ground arith

normal_time : (tv : Timeval) → Normal tv → tv ≡ time (pos_part tv.tv_sec) (pos_part tv.tv_usec)
normal_time tv n =
    ap (λ x. record tv { tv_sec = x }) (nonneg_pos tv.tv_sec n.0)
    ∙ ap (λ y. record { tv_sec = pos (pos_part tv.tv_sec); tv_usec = y })
        (nonneg_pos tv.tv_usec n.1)

-- What a later time is ahead.
abbrev Ahead : Timeval → Timeval → Type 0
Ahead a b = Normal (timersub a b) × (timeradd b (timersub a b) ≡ a)

times-Ahead :
    (s u t w : ℕ)
    → u < 1_000_000
    → w < 1_000_000
    → timercmp_gt (time s u) (time t w) ≡ true
    → Ahead (time s u) (time t w)
times-Ahead s u t w l m h =
    let later = later_lem s u t w h in
    let is = sub_lem s u t w later m in
    (
      subst Normal (sym is) (difference-Normal s u t w later l m),
      ap (timeradd (time t w)) is ∙ add-difference s u t w later l m,
    )

later-Ahead : (a b : Timeval) → Normal a → Normal b → timercmp_gt a b ≡ true → Ahead a b
later-Ahead a b m n h =
    let p = normal_time a m in
    let q = normal_time b n in
    subst (λ x. Ahead x b) (sym p)
      (subst (λ y. Ahead (time (pos_part a.tv_sec) (pos_part a.tv_usec)) y) (sym q)
        (times-Ahead _ _ _ _ (ground (arith, m, p)) (ground (arith, n, q)) (
          sym (ap (λ x. timercmp_gt x (time (pos_part b.tv_sec) (pos_part b.tv_usec))) p)
          ∙ sym (ap (λ y. timercmp_gt a y) q)
          ∙ h)))

-- What timeout_next says of the heap `h` at the time `now`: the time from `now` to the first
-- timeout, or no time if that is not after `now`.
abbrev pub WaitOf : MinHeap → Timeval → Wait → Type 0
WaitOf h now no_clock = ⊥
WaitOf h now forever = h.n ≡ 0
WaitOf h now (wait_for tv) =
    (e : ℕ) × TopOf h (some e)
    × Normal tv
    × (if timercmp_gt (h.ev_timeout e) now
        then timeradd now tv ≡ h.ev_timeout e
        else tv ≡ timerclear)

module _ {B : Type 0} (clock : Option Timeval) (b : EventBase B) (valid : IsValid b.timeheap)
    (now : Timeval) (normal : Normal now)
    (all_normal : (x : ℕ) → InHeap b.timeheap x → Normal (b.timeheap.ev_timeout x))
    (reads : gettime b clock ≡ some now) where
  abbrev pub Waits : Type 0
  Waits = (wait : Wait) × (timeout_next clock b ≡ some wait) × WaitOf b.timeheap now wait

  -- What is done with the event at the root and the reading of the clock.
  abbrev chosen : ℕ → Option Timeval → Option Wait
  chosen e t = elim t [
    | none ↦ some no_clock
    | some time' ↦
        let tv = timersub (b.timeheap.ev_timeout e) time' in
        if not (timercmp_gt (b.timeheap.ev_timeout e) time')
        then some (wait_for timerclear)
        else (check (not (ltb_ℤ tv.tv_sec (pos 0)) && not (ltb_ℤ tv.tv_usec (pos 0)))
            >> some (wait_for tv))
  ]

  by_root : (e : ℕ) → min_heap_top b.timeheap ≡ some (some e) → TopOf b.timeheap (some e) → Waits
  unfolding timeout_next
  by_root e run top = elim (Bool-cases (timercmp_gt (b.timeheap.ev_timeout e) now)) [
    | inr come ↦ (
      wait_for timerclear,
      rw run (ap (chosen e) reads ∙ rw come refl),
      (e, top, (refl, refl, refl), rw come refl),
    )
    | inl later ↦
        let (good, sum) =
          later-Ahead (b.timeheap.ev_timeout e) now (all_normal e top.0) normal later in
        (
          wait_for (timersub (b.timeheap.ev_timeout e) now),
          rw run (ap (chosen e) reads ∙ rw (later, good.0, good.1) refl),
          (e, top, good, rw later sum),
        )
  ]

  -- If all timeouts of a valid heap and what the clock reads are in normal form, timeout_next
  -- returns: no timeout at all if the heap is empty; zero if the first timeout is not after the
  -- clock; and else exactly the time from the clock to the first timeout, in normal form. Its
  -- assertions hold.
  pub timeout_next-Waits : Waits
  unfolding timeout_next
  timeout_next-Waits = by_top (top_least b.timeheap valid)
    where
      by_top : (r : Option ℕ) × (min_heap_top b.timeheap ≡ some r) × TopOf b.timeheap r → Waits
      by_top (none, run, top) = (forever, rw run refl, top)
      by_top (some e, run, top) = by_root e run top
