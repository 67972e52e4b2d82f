-- ===== src/Matchers/MatchMask.antt =====
-- `MatchMask` of src/matchers/mod.rs, the rough kind of a feature, as the set of its bits.
pub mod Arms
pub mod Laws
pub mod Importance
mod Runs
use Prim.Native.String.{String}
use text.Mathlib.Text.{◌==◌ as str_eq}
use osmdiffs.Base.{
  ℕ, max, Bool, true, false, not, ◌&&◌, ◌||◌, Option, none, some, List, [], ◌∷◌, map, ◌==◌,
  if◌then◌else◌,
}
use osmdiffs.Base.Search.{any, all, filter}
use osmdiffs.Matchers.Tags.{Tags, is_one_of}
use osmdiffs.Matchers.MatchMask.Arms.{
  Bit, shop, restaurant, lodging, school, transit, parking, fuel, shrubbery, street_furniture,
  large, important, ValuePattern, one_of, any_value, Arm, arms,
}

abbrev pub bit_index : Bit → ℕ
bit_index shop = 0
bit_index restaurant = 1
bit_index lodging = 2
bit_index school = 3
bit_index transit = 4
bit_index parking = 5
bit_index fuel = 6
bit_index shrubbery = 7
bit_index street_furniture = 8
bit_index large = 9
bit_index important = 10

abbrev pub MatchMask : Type 0
MatchMask = Bit → Bool

abbrev pub empty_mask : MatchMask
empty_mask bit = false

abbrev pub union : MatchMask → MatchMask → MatchMask
union m n bit = m bit || n bit

-- The mask of some bits.
unfoldable pub mask_of_bits : List Bit → MatchMask
mask_of_bits bits b = any (λ c. bit_index c == bit_index b) bits

abbrev pub category_bits : List Bit
category_bits =
    shop ∷ restaurant ∷ lodging ∷ school ∷ transit ∷ parking ∷ fuel ∷ shrubbery ∷ street_furniture
    ∷ []

-- In tenths.
abbrev pub category_importance : List (Bit × ℕ)
category_importance =
    (school, 8)
    ∷ (transit, 8)
    ∷ (shop, 7)
    ∷ (restaurant, 7)
    ∷ (lodging, 7)
    ∷ (fuel, 6)
    ∷ (parking, 4)
    ∷ (street_furniture, 2)
    ∷ (shrubbery, 1)
    ∷ []

unfoldable pub is_empty : MatchMask → Bool
is_empty m = not (any m category_bits)

-- The highest importance, and 0.3 for none; in tenths.
unfoldable pub reduce_max : List (Bit × ℕ) → Option ℕ
reduce_max [] = none
reduce_max ((b, n) ∷ rest) = elim (reduce_max rest) [ none ↦ some n | some k ↦ some (max n k) ]

unfoldable pub unwrap_or : ℕ → Option ℕ → ℕ
unwrap_or d none = d
unwrap_or d (some n) = n

unfoldable pub importance : MatchMask → ℕ
unfolding reduce_max unwrap_or
importance m =
    if m important
    then 10
    else unwrap_or 3 (reduce_max (filter (λ entry. m (entry.0)) category_importance))

unfoldable pub value_matches : ValuePattern → String → Bool
value_matches (one_of values) value = is_one_of values value
value_matches any_value value = true

-- The bits of the first arm that matches.
unfoldable pub tag_bits : List Arm → String → String → List Bit
unfolding value_matches
tag_bits [] key value = []
tag_bits (a ∷ rest) key value =
    let later = tag_bits rest key value in
    if str_eq (a.key) key && value_matches (a.value) value then a.bits else later

unfoldable pub add_tag : MatchMask → String → String → MatchMask
unfolding arms tag_bits mask_of_bits
add_tag m key value = union m (mask_of_bits (tag_bits arms key value))

-- The loop over the tags of a feature.
unfoldable pub add_tags : MatchMask → Tags → MatchMask
unfolding add_tag
add_tags m [] = m
add_tags m ((key, value) ∷ tags) = add_tags (add_tag m key value) tags

unfoldable pub has_only : MatchMask → Bit → Bool
has_only m category =
    all (λ b. if bit_index b == bit_index category then m b else not (m b)) category_bits

unfoldable pub intersects : MatchMask → MatchMask → Bool
intersects m n = any (λ b. m b && n b) category_bits

abbrev pub small_bits : MatchMask
small_bits = mask_of_bits (shrubbery ∷ street_furniture ∷ [])

-- In metres.
unfoldable pub match_distance : MatchMask → ℕ
unfolding mask_of_bits
match_distance m =
    let only_small = all (λ b. not (m b) || small_bits b) category_bits && any m category_bits in
    if only_small then 10 else if m large then 1000 else 400
