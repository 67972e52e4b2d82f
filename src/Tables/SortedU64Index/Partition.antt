-- ===== src/Tables/SortedU64Index/Partition.antt =====
-- `partition_point` finds the boundary of a partitioned predicate.
use osmdiffs.Base.{
  ℕ, zero, suc, ◌+◌, ◌-◌, ◌/◌, ◌≤◌, ◌<◌, ◌≡◌, Bool, true, false, ◌==◌, leb, refl, if◌then◌else◌,
  arith, Bool-cases, inl, inr,
}
use osmdiffs.Tables.SortedU64Index.{narrow, partition_point}

-- True up to some index below `len`, false from there on.
pub record IsPartitioned (test : ℕ → Bool) (len : ℕ) : Type 0 where
  pub down : (i j : ℕ) → i < j → j < len → test j ≡ true → test i ≡ true

-- `r` is where the predicate turns false.
pub record IsBoundary (test : ℕ → Bool) (len r : ℕ) : Type 0 where
  pub within : r ≤ len
  pub before : (i : ℕ) → i < r → test i ≡ true
  pub behind : (i : ℕ) → r ≤ i → i < len → test i ≡ false

module _ {test : ℕ → Bool} {len : ℕ} (p : IsPartitioned test len) where
  up : (i j : ℕ) → i ≤ j → j < len → test i ≡ false → test j ≡ false
  up i j le lt h = grind (arith, p.down i j)

  -- What the loop keeps: the boundary stands in `base .. base + size`.
  record Window (base size : ℕ) : Type 0 where
    fits : base + size ≤ len
    some_left : 0 < size
    before : (i : ℕ) → i < base → test i ≡ true
    behind : (i : ℕ) → base + size ≤ i → i < len → test i ≡ false

  keep_right :
      (base size : ℕ)
      → 1 < size
      → test (base + size / 2) ≡ true
      → Window base size
      → Window (base + size / 2) (size - size / 2)
  keep_right base size h e w = record {
    fits = omega (arith, w.fits);
    some_left = omega arith;
    before = λ i lt. p.down i (base + size / 2) lt (omega (arith, w.fits)) e;
    behind = λ i le lt. w.behind i (omega arith) lt;
  }

  keep_left :
      (base size : ℕ)
      → 1 < size
      → test (base + size / 2) ≡ false
      → Window base size
      → Window base (size - size / 2)
  keep_left base size h e w = record {
    fits = omega (arith, w.fits);
    some_left = omega arith;
    before = w.before;
    behind = λ i le lt. up (base + size / 2) i (omega arith) lt e;
  }

  narrow-Window :
      (fuel base size : ℕ) → size ≤ fuel → Window base size → Window (narrow fuel test base size) 1
  unfolding narrow
  narrow-Window zero base size h w = absurd (omega (arith, w.some_left))
  narrow-Window (suc fuel) base size h w = elim (Bool-cases (leb size 1)) [
    | inl last ↦ let e : size ≡ 1 = ground (arith, w.some_left) in rw last (rw e at w)
    | inr more ↦
        let big : 1 < size = ground arith in
        elim (Bool-cases (test (base + size / 2))) [
          | inl yes' ↦
              rw (more, yes')
                (narrow-Window fuel (base + size / 2) (size - size / 2) (omega arith)
                  (keep_right base size big yes' w))
          | inr no' ↦
              rw (more, no')
                (narrow-Window fuel base (size - size / 2) (omega arith)
                  (keep_left base size big no' w))
        ]
  ]

  finish :
      (base : ℕ)
      → Window base 1
      → (b : Bool) → test base ≡ b
      → IsBoundary test len (if b then base + 1 else base)
  finish base w true e = record {
    within = w.fits;
    before = λ i lt. elim (Bool-cases (i == base)) [
      | inl h ↦ let e' : i ≡ base = ground arith in rw e' e
      | inr h ↦ w.before i (ground arith)
    ];
    behind = w.behind;
  }
  finish base w false e = record {
    within = omega (arith, w.fits);
    before = w.before;
    behind = λ i le lt. up base i le lt e;
  }

  narrow-whole : 0 < len → Window (narrow len test 0 len) 1
  narrow-whole h = narrow-Window len 0 len (omega arith) (record {
    fits = omega arith;
    some_left = h;
    before = λ i lt. absurd (omega arith);
    behind = λ i le lt. absurd (omega arith);
  })

  pub partition_point-IsBoundary : IsBoundary test len (partition_point test len)
  unfolding partition_point
  partition_point-IsBoundary = elim (Bool-cases (len == 0)) [
    | inl empty ↦ rw empty (record {
      within = omega arith;
      before = λ i lt. absurd (omega arith);
      behind = λ i le lt. absurd (ground arith);
    })
    | inr more ↦
        let base = narrow len test 0 len in
        rw more (finish base (narrow-whole (ground arith)) (test base) refl)
  ]
