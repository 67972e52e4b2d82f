-- ===== src/Geometry/Coord.antt =====
-- Coordinates as the bit patterns of their two f64 values, and keys made of them.
use osmdiffs.Base.{
  ℕ, ◌≡◌, ◌↔◌, Bool, true, ◌&&◌, ◌==◌, arith, Option, none, some, List, [], ◌∷◌, if◌then◌else◌,
}

-- A `geo::Coord<f64>`: the bits of `x` and of `y`. `coord_key` in the source is this pair, so equal
-- keys are equal coordinates.
pub record Coord : Type 0 where
  pub x_bits : ℕ
  pub y_bits : ℕ

unfoldable pub key_eq : Coord → Coord → Bool
key_eq a b = a.x_bits == b.x_bits && (a.y_bits == b.y_bits)

pub key_eq_iff : (a b : Coord) → (key_eq a b ≡ true) ↔ (a ≡ b)
unfolding key_eq
key_eq_iff a b = ground arith

-- `==` on coordinates compares the f64 values, so that 0.0 == -0.0 and NaN differs from itself: a
-- parameter of the model.
abbrev pub FloatEq : Type 0
FloatEq = Coord → Coord → Bool

-- A `HashMap` from coordinate keys: what stands first counts.
abbrev pub KeyMap : Type 0 → Type 0
KeyMap V = List (Coord × V)

module _ {V : Type 0} where
  unfoldable pub get : Coord → KeyMap V → Option V
  get k [] = none
  get k ((j, v) ∷ m) = if key_eq j k then some v else get k m

  unfoldable pub remove : Coord → KeyMap V → KeyMap V
  remove k [] = []
  remove k ((j, v) ∷ m) = let rest = remove k m in if key_eq j k then rest else (j, v) ∷ rest

  unfoldable pub insert : Coord → V → KeyMap V → KeyMap V
  unfolding remove
  insert k v m = (k, v) ∷ remove k m

  pub get-remove :
      (k j : Coord) (m : KeyMap V) → get j (remove k m) ≡ (if key_eq k j then none else get j m)
  unfolding get remove
  get-remove k j [] = ground arith
  get-remove k j ((i, v) ∷ m) =
      ground (arith, key_eq_iff k j, key_eq_iff i k, key_eq_iff i j, get-remove k j m)

  pub get-insert :
      (k j : Coord) (v : V) (m : KeyMap V)
      → get j (insert k v m) ≡ (if key_eq k j then some v else get j m)
  unfolding insert get
  get-insert k j v m = ground (arith, get-remove k j m)
