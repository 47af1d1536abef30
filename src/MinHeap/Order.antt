-- ===== src/MinHeap/Order.antt =====
-- The heap order, on the array as a function, for any strict order of the entries.
-- The entry that is on its way is taken to stand in the hole.
use ilibevent.Base.{ℕ, ◌-◌, ◌/◌, ◌<◌, ◌≡◌, ◌≢◌, Bool, true, false, arith, update}

abbrev pub up : ℕ → ℕ
up c = (c - 1) / 2

-- `gt` is the strict part of a total order.
pub record Order (gt : ℕ → ℕ → Bool) : Type 0 where
  pub asymm : (x y : ℕ) → gt x y ≡ true → gt y x ≡ false
  pub trans : (x y z : ℕ) → gt x y ≡ false → gt y z ≡ false → gt x z ≡ false

module _ (gt : ℕ → ℕ → Bool) (f : ℕ → ℕ) (n : ℕ) where
  -- No entry is less than its parent.
  abbrev pub Ordered : Type 0
  Ordered = (c : ℕ) → 0 < c → c < n → gt (f (up c)) (f c) ≡ false

  -- All edges are in order but the one above the hole.
  pub record UpInv (hole : ℕ) : Type 0 where
    pub edges : (c : ℕ) → 0 < c → c < n → c ≢ hole → gt (f (up c)) (f c) ≡ false
    pub bridged : (c : ℕ) → c < n → up c ≡ hole → 0 < hole → gt (f (up hole)) (f c) ≡ false

  -- All edges are in order but those below the hole.
  pub record DownInv (hole : ℕ) : Type 0 where
    pub edges : (c : ℕ) → 0 < c → c < n → up c ≢ hole → gt (f (up c)) (f c) ≡ false
    pub bridged : (c : ℕ) → c < n → up c ≡ hole → 0 < hole → gt (f (up hole)) (f c) ≡ false
    pub above : 0 < hole → gt (f (up hole)) (f hole) ≡ false

-- The entries in the hole and at `i` change places.
abbrev pub exchange : (ℕ → ℕ) → ℕ → ℕ → ℕ → ℕ
exchange f hole i = update (update f hole (f i)) i (f hole)

module _ {gt : ℕ → ℕ → Bool} (o : Order gt) (f : ℕ → ℕ) (n hole : ℕ) where
  pub UpInv-exchange :
      UpInv gt f n hole
      → 0 < hole
      → gt (f (up hole)) (f hole) ≡ true
      → UpInv gt (exchange f hole (up hole)) n (up hole)
  UpInv-exchange v h less = record {
    edges = λ c p q r. ground (
      arith,
      o.asymm (f (up hole)) (f hole),
      v.bridged c,
      v.edges c,
      o.trans (f hole) (f (up hole)) (f c),
    );
    bridged = λ c q r p.
        ground
          (arith, v.edges (up hole), v.edges c, o.trans (f (up (up hole))) (f (up hole)) (f c));
  }

  pub UpInv-Ordered :
      UpInv gt f n hole → (0 < hole → gt (f (up hole)) (f hole) ≡ false) → Ordered gt f n
  UpInv-Ordered v h c p q = ground (arith, v.edges c)

  pub DownInv-exchange :
      (c : ℕ)
      → DownInv gt f n hole
      → 0 < c
      → c < n
      → up c ≡ hole
      → ((d : ℕ) → 0 < d → d < n → up d ≡ hole → gt (f c) (f d) ≡ false)
      → gt (f hole) (f c) ≡ true
      → DownInv gt (exchange f hole c) n c
  DownInv-exchange c v p b q least less = record {
    edges =
        λ d s t u. ground (arith, v.edges d, v.bridged c, v.above, least d, o.asymm (f hole) (f c));
    bridged = λ d t u w. ground (arith, v.edges d);
    above = λ w. ground (arith, o.asymm (f hole) (f c));
  }

  pub DownInv-UpInv :
      DownInv gt f n hole
      → ((d : ℕ) → 0 < d → d < n → up d ≡ hole → gt (f hole) (f d) ≡ false)
      → UpInv gt f n hole
  DownInv-UpInv v h = record {
    edges = λ c p q r. ground (arith, v.edges c, h c);
    bridged = v.bridged;
  }
