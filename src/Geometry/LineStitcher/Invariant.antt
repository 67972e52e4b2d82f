-- ===== src/Geometry/LineStitcher/Invariant.antt =====
-- The endpoint index points at ends of chains that are there, so no lookup through it panics.
use osmdiffs.Base.{
  ℕ, ◌≡◌, ◌≢◌, ◌⊎◌, sym, ap, ◌∙◌, Bool, true, false, Option, some, List, [], ◌∷◌, ◌++◌,
  if◌then◌else◌, arith, Bool-cases, inl, inr,
}
use mathlib.Core.Option.{some-injective}
use osmdiffs.Geometry.Coord.{
  Coord, KeyMap, key_eq, key_eq_iff, get, remove, insert, get-remove, get-insert,
}
use osmdiffs.Geometry.LineStitcher.{Chain, ChainEnd, front, back, end_coord, opposite}
use osmdiffs.Geometry.LineStitcher.Slots.{slot, Taken, slot-append_old, slot-lt}

abbrev pub Index : Type 0
Index = KeyMap (ℕ × ChainEnd)

-- Each entry names a chain that is there, and the end of it that stands at the entry's node.
pub record PointsTo (chains : List (Option Chain)) (index : Index) : Type 0 where
  pub at :
      (k : Coord) (i : ℕ) (e : ChainEnd)
      → get k index ≡ some (i, e)
      → (c : Chain) × (slot chains i ≡ some c) × (end_coord c e ≡ some k)

pub PointsTo-append :
    (chains : List (Option Chain)) (index : Index) (c : Chain)
    → PointsTo chains index
    → PointsTo (chains ++ (some c ∷ [])) index
PointsTo-append chains index c h = record {
  at = λ k i e g.
      let (d, s, x) = h.at k i e g in (d, slot-append_old chains c i (slot-lt chains i d s) ∙ s, x);
}

pub PointsTo-insert :
    (chains : List (Option Chain)) (index : Index) (b : Bool) (k : Coord) (i : ℕ) (e : ChainEnd)
    (c : Chain)
    → slot chains i ≡ some c
    → end_coord c e ≡ some k
    → PointsTo chains index
    → PointsTo chains (if b then insert k (i, e) index else index)
PointsTo-insert chains index false k i e c hs he h = h
PointsTo-insert chains index true k i e c hs he h = record {
  at = λ j i' e' g. elim (Bool-cases (key_eq k j)) [
    | inl same ↦
        let p : (i, e) ≡ (i', e') =
          some-injective (i, e) (i', e') (rw same at (sym (get-insert k j (i, e) index)) ∙ g) in
        let q : k ≡ j = (key_eq_iff k j).0 same in
        (
          c,
          ap (λ (z : ℕ × ChainEnd). slot chains z.0) (sym p) ∙ hs,
          ap (λ (z : ℕ × ChainEnd). end_coord c z.1) (sym p) ∙ he ∙ ap some q,
        )
    | inr other ↦ h.at j i' e' (ground (arith, get-insert k j (i, e) index))
  ];
}

-- A chain has no ends but these two.
two_ends :
    (c : Chain) (e e' : ChainEnd) (k r j : Coord)
    → end_coord c e ≡ some k
    → end_coord c (opposite e) ≡ some r
    → end_coord c e' ≡ some j
    → (j ≡ k) ⊎ (j ≡ r)
two_ends c front front k r j hk hr hj = inl (some-injective j k (sym hj ∙ hk))
two_ends c front back k r j hk hr hj = inr (some-injective j r (sym hj ∙ hr))
two_ends c back front k r j hk hr hj = inr (some-injective j r (sym hj ∙ hr))
two_ends c back back k r j hk hr hj = inl (some-injective j k (sym hj ∙ hk))

pub not_removed :
    (j k r : Coord) (index : Index) (v : ℕ × ChainEnd)
    → get j (remove r (remove k index)) ≡ some v
    → (j ≢ k) × (j ≢ r) × (get j index ≡ some v)
not_removed j k r index v g = (
  ground (arith, get-remove r j (remove k index), get-remove k j index, key_eq_iff k j),
  ground (arith, get-remove r j (remove k index), key_eq_iff r j),
  ground (arith, get-remove r j (remove k index), get-remove k j index),
)

-- Once a chain is taken out, and the entries at both its ends removed, the others still point right.
pub PointsTo-absorb :
    (chains : List (Option Chain)) (index : Index) (i : ℕ) (end : ChainEnd) (other : Chain)
    (k r : Coord) (t : Taken chains i other)
    → slot chains i ≡ some other
    → end_coord other end ≡ some k
    → end_coord other (opposite end) ≡ some r
    → PointsTo chains index
    → PointsTo t.rest (remove r (remove k index))
PointsTo-absorb chains index i end other k r t hs hk hr h = record {
  at = λ j i' e' g.
      let (jk, jr, g') = not_removed j k r index (i', e') g in
      let (c, s, x) = h.at j i' e' g' in (c, t.others i' (elsewhere j i' e' c s x jk jr) ∙ s, x);
}
  where
    elsewhere :
        (j : Coord) (i' : ℕ) (e' : ChainEnd) (c : Chain)
        → slot chains i' ≡ some c
        → end_coord c e' ≡ some j
        → j ≢ k
        → j ≢ r
        → i' ≢ i
    elsewhere j i' e' c s x jk jr same =
        let q : c ≡ other = some-injective c other (sym s ∙ ap (slot chains) same ∙ hs) in
        elim (two_ends other end e' k r j hk hr (rw q at x)) [ inl p ↦ jk p | inr p ↦ jr p ]
