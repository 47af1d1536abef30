-- ===== src/Epoll/Growth.antt =====
-- epoll_recalc: the array of descriptors grows until it holds the one asked for.
use native.Mathlib.Nat.{pow-suc}
use ilibevent.Base.{
  ℕ, zero, suc, ◌*◌, ◌^◌, ◌≤◌, ◌<◌, ◌≡◌, ◌⊎◌, refl, Bool, true, false, inl, inr, some, arith, ltb,
  leb, if◌then◌else◌, Bool-cases, Status, success, failure,
}
use ilibevent.Epoll.{no_evepoll, Epollop, grow_nfds, epoll_recalc}

-- The loop ends, in a size that has room for `max`.
abbrev Sized : ℕ → ℕ → ℕ → Type 0
Sized fuel nfds max =
    (r : ℕ) × (grow_nfds fuel nfds max ≡ some r)
    × (max < r)
    × (nfds ≤ r)
    × ((r ≡ nfds) ⊎ (r ≤ 2 * max))

grow-Sized : (fuel nfds max : ℕ) → max < 2 ^ 30 → max < nfds * 2 ^ fuel → Sized (suc fuel) nfds max
unfolding grow_nfds
grow-Sized zero nfds max bound reach = (nfds, ground arith, omega arith, omega arith, inl refl)
grow-Sized (suc fuel) nfds max bound reach = elim (Bool-cases (leb nfds max)) [
  | inl less ↦
      let reach' = rw (pow-suc 2 fuel) at reach in
      let small : ltb (nfds * 2) (2 ^ 31) ≡ true = ground arith in
      let (r, run, room, kept, tight) = grow-Sized fuel (nfds * 2) max bound (omega arith) in
      (r, rw (less, small) run, room, omega arith, ground arith)
  | inr more ↦ (nfds, rw more refl, ground arith, omega arith, inl refl)
]

-- The size of the array is an int and not 0.
abbrev pub Sane : {K : Type 0} → Epollop K → Type 0
Sane o = (0 < o.nfds) × (o.nfds < 2 ^ 31)

-- How epoll_recalc ends: with room, the old entries kept and the new ones empty; or without memory.
abbrev pub Recalculated : {K : Type 0} → Bool → Epollop K → ℕ → Status → Epollop K → Type 0
Recalculated granted o max success o' =
    Sane o'
    × (max < o'.nfds)
    × (o.nfds ≤ o'.nfds)
    × (o' ≡ record o { fds = o'.fds; nfds = o'.nfds })
    × ((fd : ℕ) → fd < o.nfds → o'.fds fd ≡ o.fds fd)
    × ((fd : ℕ) → o.nfds ≤ fd → fd < o'.nfds → o'.fds fd ≡ no_evepoll)
Recalculated granted o max failure o' = (o' ≡ o) × (granted ≡ false) × (o.nfds ≤ max)

-- epoll_recalc for a descriptor below 2 ^ 30 always returns. If it succeeds, the array has room
-- for the descriptor, its old entries are kept and its new ones are empty; it fails only if
-- the array is too small and realloc gives nothing, and then nothing has changed.
pub epoll_recalc-Recalculated :
    {K : Type 0} (granted : Bool) (o : Epollop K) (max : ℕ)
    → Sane o
    → max < 2 ^ 30
    → (status : Status) × (o' : Epollop K) × (epoll_recalc granted o max ≡ some (status, o'))
      × Recalculated granted o max status o'
unfolding epoll_recalc
epoll_recalc-Recalculated granted o max sane bound = elim (Bool-cases (ltb max o.nfds)) [
  | inl room ↦ (
    success,
    o,
    rw room refl,
    (sane, ground arith, omega arith, refl, λ fd h. refl, λ fd h k. absurd (omega arith)),
  )
  | inr more ↦
      let (r, run, enough, kept, tight) = grow-Sized 30 o.nfds max bound (omega (arith, sane)) in
      elim (Bool-cases granted) [
        | inl given ↦ (
          success,
          record o { fds = λ i. if ltb i o.nfds then o.fds i else no_evepoll; nfds = r },
          rw (more, run, given) refl,
          (ground (arith, sane), enough, kept, refl, λ fd h. ground arith, λ fd h k. ground arith),
        )
        | inr short ↦ (failure, o, rw (more, run, short) refl, (refl, short, ground arith))
      ]
]
