-- ===== src/Buffer/Expand.antt =====
-- evbuffer_align and evbuffer_expand.
use ilibevent.Base.{
  ℕ, ◌+◌, ◌*◌, ◌^◌, ◌≤◌, ◌<◌, ◌≡◌, refl, inl, inr, Option, Bool, true, false, some, arith, leb,
  ◌==◌, if◌then◌else◌, Bool-cases, Status, success, failure, slice-eq,
}
use ilibevent.Buffer.{
  size_mod, Evbuffer, contents, memmove, evbuffer_new, evbuffer_align, start_length, needed,
  enlarge, evbuffer_expand,
}
use ilibevent.Buffer.Grow.{grow-Ends}

-- The bytes stand inside the block, `misalign` bytes from its start.
pub record IsValid (b : Evbuffer) : Type 0 where
  pub aligned : b.buffer ≡ b.misalign
  pub inside : b.misalign + b.off ≤ b.totallen
  pub sized : b.totallen < size_mod

-- `a` is a valid buffer of the bytes of `b`, with the same callback, and no further into its block.
pub record Keeps (b a : Evbuffer) : Type 0 where
  pub valid : IsValid a
  pub same : contents a ≡ contents b
  pub size : a.off ≡ b.off
  pub callback : a.cb ≡ b.cb
  pub shift : a.misalign ≤ b.misalign

pub Keeps-refl : (b : Evbuffer) → IsValid b → Keeps b b
Keeps-refl b v = record {
  valid = v;
  same = refl;
  size = refl;
  callback = refl;
  shift = omega arith;
}

pub new-IsValid : IsValid evbuffer_new
unfolding evbuffer_new
new-IsValid = record { aligned = refl; inside = omega arith; sized = omega arith }

pub record Aligned (b a : Evbuffer) : Type 0 where
  pub keeps : Keeps b a
  pub moved : a.misalign ≡ 0
  pub block : a.totallen ≡ b.totallen

abbrev shifted : Evbuffer → Evbuffer
shifted b = record b { memory = memmove b.memory 0 b.buffer b.off; buffer = 0; misalign = 0 }

align-Aligned : (b : Evbuffer) → IsValid b → Aligned b (shifted b)
align-Aligned b v = record {
  keeps = record {
    valid = ground arith;
    same = slice-eq _ b.memory 0 b.buffer b.off (λ k p. ground arith);
    size = refl;
    callback = refl;
    shift = omega arith;
  };
  moved = refl;
  block = refl;
}

pub align_lem :
    (b : Evbuffer) → IsValid b → (a : Evbuffer) × (evbuffer_align b ≡ some a) × Aligned b a
unfolding evbuffer_align
align_lem b v = (shifted b, ground arith, align-Aligned b v)

-- The outcome of expand for `datlen` more bytes.
pub record Expanded (granted : Bool) (b : Evbuffer) (datlen : ℕ) (s : Status) (a : Evbuffer)
    : Type 0 where
  pub keeps : Keeps b a
  pub room : s ≡ success → a.misalign + a.off + datlen ≤ a.totallen
  pub refused : s ≡ failure → granted ≡ false

abbrev pub Expands : Bool → Evbuffer → ℕ → Option (Status × Evbuffer) → Type 0
Expands granted b datlen r =
    (s : Status) × (a : Evbuffer) × (r ≡ some (s, a)) × Expanded granted b datlen s a

enough_fuel :
    (b : Evbuffer) (datlen : ℕ)
    → needed b datlen ≤ 2 ^ 63
    → needed b datlen ≤ start_length b.totallen * 2 ^ 63
enough_fuel b datlen h = ground arith

module _ (granted : Bool) (b : Evbuffer) (datlen : ℕ) (v : IsValid b) where
  -- Both ways into realloc: the bytes are at the start of the block.
  realloc_lem :
      (length : ℕ) (a : Evbuffer)
      → Aligned b a
      → a.buffer ≡ 0
      → b.off + datlen ≤ length
      → b.totallen ≤ length
      → length < size_mod
      → Expands granted b datlen (
          if granted
          then some (success, record a { buffer = 0; totallen = length })
          else some (failure, a))
  realloc_lem length a al z room kept sized =
      elim granted
        as (λ g. Expands g b datlen (
          if g
          then some (success, record a { buffer = 0; totallen = length })
          else some (failure, a))) [
            | true ↦ (
              success,
              _,
              refl,
              record {
                keeps = record {
                  valid = ground arith;
                  same = ground arith;
                  size = ground arith;
                  callback = ground arith;
                  shift = ground arith;
                };
                room = λ _. ground arith;
                refused = λ e. cc;
              },
            )
            | false ↦
                (failure, a, refl, record { keeps = al.keeps; room = λ e. cc; refused = λ _. refl })
          ]

  enlarge_lem :
      (length : ℕ)
      → b.misalign + b.off + datlen ≤ length
      → b.totallen ≤ length
      → length < size_mod
      → Expands granted b datlen (enlarge granted b length)
  unfolding enlarge
  enlarge_lem length room kept sized = elim (Bool-cases (b.buffer == 0)) [
    | inl start ↦
        let still : Aligned b b = record {
          keeps = Keeps-refl b v;
          moved = ground arith;
          block = refl;
        } in
        rw (start, enlarge) (realloc_lem length b still (ground arith) (omega arith) kept sized)
    | inr later ↦
        let (a, e, al) = align_lem b v in
        rw (later, e, enlarge) (realloc_lem length a al (omega arith) (omega arith) kept sized)
  ]

  pub expand_lem :
      b.misalign + b.off + datlen ≤ 2 ^ 63
      → Expands granted b datlen (evbuffer_expand granted b datlen)
  unfolding evbuffer_expand
  expand_lem h = elim (Bool-cases (leb (needed b datlen) b.totallen)) [
    | inl fits ↦ (
      success,
      b,
      rw fits,
      record { keeps = Keeps-refl b v; room = λ _. ground arith; refused = λ e. cc },
    )
    | inr short ↦ elim (Bool-cases (leb datlen b.misalign)) [
      | inl slack ↦
          let (a, e, al) = align_lem b v in
          (
            success,
            a,
            rw (short, slack, e),
            record { keeps = al.keeps; room = λ _. ground arith; refused = λ e. cc },
          )
      | inr tight ↦
          let (r, e, g) =
            grow-Ends 63 (start_length b.totallen) (needed b datlen) (omega arith)
              (enough_fuel b datlen (omega arith)) in
          rw (short, tight, e, evbuffer_expand)
            (enlarge_lem r (ground arith) (ground arith) (ground arith))
    ]
  ]
