-- ===== src/Epoll/Timeout.antt =====
-- The number of milliseconds that epoll_dispatch gives to epoll_wait.
use ilibevent.Base.{
  ℕ, ◌+◌, ◌*◌, ◌/◌, ◌≤◌, ◌<◌, ◌≡◌, ◌⊎◌, ◌^◌, refl, true, inl, inr, some, arith, Bool-cases,
}
use ilibevent.Base.Int.{to_int, pos, ltb_ℤ}
use ilibevent.Epoll.{wait_ms}

small : (t : ℕ) → t < 2 ^ 31 → to_int t ≡ pos t
small t h = ground arith

-- For a time of less than 2 000 000 seconds, the milliseconds are the time rounded up, or 35 minutes
-- if that is less: epoll_wait never waits a millisecond longer than the time, and it waits less
-- than the time only to stop after 35 minutes.
pub wait_ms_bounds :
    (s u : ℕ)
    → s < 2_000_000
    → u < 1_000_000
    → (m : ℕ) × (wait_ms (some (record { tv_sec = pos s; tv_usec = pos u })) ≡ pos m)
      × (m ≤ 2_100_000)
      × (m * 1000 < s * 1_000_000 + u + 1000)
      × ((s * 1_000_000 + u ≤ m * 1000) ⊎ (m ≡ 2_100_000))
unfolding wait_ms
wait_ms_bounds s u h k =
    let t = s * 1000 + (u + 999) / 1000 in
    let same : to_int t ≡ pos t = small t (omega arith) in
    elim (Bool-cases (ltb_ℤ (pos 2_100_000) (pos t))) [
      | inl more ↦ (2_100_000, rw (same, more) refl, omega arith, ground arith, inr refl)
      | inr less ↦ (t, rw (same, less) refl, ground arith, omega arith, inl (omega arith))
    ]

-- For a time of 2 147 484 to 4 294 966 seconds, 25 to 49 days, the conversion to int makes the
-- milliseconds negative, so that epoll_wait has no timeout at all instead of one of 35 minutes.
pub wait_ms_wraps :
    (s u : ℕ)
    → 2_147_484 ≤ s
    → s ≤ 4_294_966
    → u < 1_000_000
    → ltb_ℤ (wait_ms (some (record { tv_sec = pos s; tv_usec = pos u }))) (pos 0) ≡ true
unfolding wait_ms
wait_ms_wraps s u h k l = ground arith
