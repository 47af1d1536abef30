-- ===== src/Buffer/Grow.antt =====
-- The doubling loop of evbuffer_expand.
use native.Mathlib.Nat.{pow-suc}
use ilibevent.Base.{
  ℕ, zero, suc, ◌*◌, ◌%◌, ◌^◌, ◌≤◌, ◌<◌, ◌≡◌, ◌⊎◌, inl, inr, some, arith, ltb, Bool-cases,
}
use ilibevent.Buffer.{size_mod, grow}

pub record Grown (length need r : ℕ) : Type 0 where
  pub enough : need ≤ r
  pub kept : length ≤ r
  pub tight : (r ≡ length) ⊎ (r < 2 * need)

-- The loop ends from `length`, in such a size.
abbrev pub Ends : ℕ → ℕ → ℕ → Type 0
Ends fuel length need = (r : ℕ) × (grow fuel length need ≡ some r) × Grown length need r

Ends-suc :
    (fuel length need : ℕ)
    → need ≤ 2 ^ 63
    → length < need
    → Ends fuel (length * 2) need
    → Ends (suc fuel) length need
unfolding grow
Ends-suc fuel length need bound less (r, e, g) =
    let exact : length * 2 % size_mod ≡ length * 2 = omega arith in
    (r, rw exact (ground arith), ground arith)

-- As long as `fuel` doublings reach the need, and the need is at most 2 ^ 63, nothing wraps.
pub grow-Ends :
    (fuel length need : ℕ) → need ≤ 2 ^ 63 → need ≤ length * 2 ^ fuel → Ends (suc fuel) length need
unfolding grow
grow-Ends zero length need bound reach = (length, ground arith, ground arith)
grow-Ends (suc fuel) length need bound reach = elim (Bool-cases (ltb length need)) [
  | inl less ↦
      let reach' = rw (pow-suc 2 fuel) at reach in
      Ends-suc (suc fuel) length need bound (ground arith)
        (grow-Ends fuel (length * 2) need bound (omega arith))
  | inr more ↦ (length, rw more, ground arith)
]
