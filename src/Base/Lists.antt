-- ===== src/Base/Lists.antt =====
-- Lists measured and indexed by native numbers, under the library's names.
use Prim.Native.Nat.{ℕ, zero, suc, ◌+◌, ◌-◌, ◌≤◌, ◌<◌}
use mathlib.Core.Path.{◌≡◌, refl, ap}
use mathlib.Core.List.{List, [], ◌∷◌, ◌++◌}
use native.Mathlib.Omega.{arith}

module _ {ℓ} {A : Type ℓ} where
  abbrev pub length : List A → ℕ
  length [] = 0
  length (x ∷ xs) = suc (length xs)

  abbrev pub get_or : List A → ℕ → A → A
  get_or [] i d = d
  get_or (x ∷ xs) zero d = x
  get_or (x ∷ xs) (suc i) d = get_or xs i d

  abbrev pub take : ℕ → List A → List A
  take zero xs = []
  take (suc n) [] = []
  take (suc n) (x ∷ xs) = x ∷ take n xs

  abbrev pub drop : ℕ → List A → List A
  drop zero xs = xs
  drop (suc n) [] = []
  drop (suc n) (x ∷ xs) = drop n xs

  pub length-append : (xs ys : List A) → length (xs ++ ys) ≡ length xs + length ys
  length-append [] ys = omega arith
  length-append (x ∷ xs) ys = omega (arith, length-append xs ys)

  pub append_nil : (xs : List A) → xs ++ [] ≡ xs
  append_nil [] = refl
  append_nil (x ∷ xs) = ap (◌∷◌ x) (append_nil xs)

  pub take_all : (n : ℕ) (xs : List A) → length xs ≤ n → take n xs ≡ xs
  take_all zero [] h = refl
  take_all zero (x ∷ xs) h = absurd (omega arith)
  take_all (suc n) [] h = refl
  take_all (suc n) (x ∷ xs) h = ap (◌∷◌ x) (take_all n xs (omega arith))

  pub drop_all : (n : ℕ) (xs : List A) → length xs ≤ n → drop n xs ≡ []
  drop_all zero [] h = refl
  drop_all zero (x ∷ xs) h = absurd (omega arith)
  drop_all (suc n) [] h = refl
  drop_all (suc n) (x ∷ xs) h = drop_all n xs (omega arith)

  pub take_append_drop : (n : ℕ) (xs : List A) → take n xs ++ drop n xs ≡ xs
  take_append_drop zero xs = refl
  take_append_drop (suc n) [] = refl
  take_append_drop (suc n) (x ∷ xs) = ap (◌∷◌ x) (take_append_drop n xs)

  pub length-take : (n : ℕ) (xs : List A) → length (take n xs) ≤ n
  length-take zero xs = omega arith
  length-take (suc n) [] = omega arith
  length-take (suc n) (x ∷ xs) = omega (arith, length-take n xs)

  pub length-drop : (n : ℕ) (xs : List A) → length (drop n xs) ≡ length xs - n
  length-drop zero xs = omega arith
  length-drop (suc n) [] = omega arith
  length-drop (suc n) (x ∷ xs) = omega (arith, length-drop n xs)

-- The `n` entries of an array from index `i` on.
unfoldable pub slice {ℓ} : {A : Type ℓ} → (ℕ → A) → ℕ → ℕ → List A
slice f i zero = []
slice f i (suc n) = f i ∷ slice f (suc i) n

module _ {ℓ} {A : Type ℓ} where
  pub length-slice : (f : ℕ → A) (i n : ℕ) → length (slice f i n) ≡ n
  unfolding slice
  length-slice f i zero = refl
  length-slice f i (suc n) = ap suc (length-slice f (suc i) n)

  -- Arrays that agree on a range have the same slice.
  pub slice-eq :
      (f g : ℕ → A) (i j n : ℕ)
      → ((k : ℕ) → k < n → f (i + k) ≡ g (j + k))
      → slice f i n ≡ slice g j n
  unfolding slice
  slice-eq f g i j zero h = refl
  slice-eq f g i j (suc n) h =
      ground (arith, h 0, slice-eq f g (suc i) (suc j) n (λ k p. ground (arith, h (suc k))))

  pub slice-add : (f : ℕ → A) (i m n : ℕ) → slice f i (m + n) ≡ slice f i m ++ slice f (i + m) n
  unfolding slice
  slice-add f i zero n = ground arith
  slice-add f i (suc m) n =
      let total : suc m + n ≡ suc (m + n) = omega arith in
      let next : i + suc m ≡ suc i + m = omega arith in
      rw (total, next) (ap (◌∷◌ (f i)) (slice-add f (suc i) m n))

  pub take-slice : (f : ℕ → A) (i m n : ℕ) → m ≤ n → take m (slice f i n) ≡ slice f i m
  unfolding slice
  take-slice f i zero n h = refl
  take-slice f i (suc m) zero h = absurd (omega arith)
  take-slice f i (suc m) (suc n) h = ap (◌∷◌ (f i)) (take-slice f (suc i) m n (omega arith))

  pub drop-slice : (f : ℕ → A) (i m n : ℕ) → m ≤ n → drop m (slice f i n) ≡ slice f (i + m) (n - m)
  unfolding slice
  drop-slice f i zero n h = ground arith
  drop-slice f i (suc m) zero h = absurd (omega arith)
  drop-slice f i (suc m) (suc n) h = ground (arith, drop-slice f (suc i) m n)

  -- A list written into an array reads back.
  pub slice-get_or :
      (xs : List A) (f : ℕ → A) (i : ℕ) (d : A)
      → ((k : ℕ) → k < length xs → f (i + k) ≡ get_or xs k d)
      → slice f i (length xs) ≡ xs
  unfolding slice
  slice-get_or [] f i d h = refl
  slice-get_or (x ∷ xs) f i d h =
      ground (arith, h 0, slice-get_or xs f (suc i) d (λ k p. ground (arith, h (suc k))))
