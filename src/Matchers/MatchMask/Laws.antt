-- ===== src/Matchers/MatchMask/Laws.antt =====
-- The mask of a feature: what its tags set, in whatever order they come.
use Prim.Native.String.{String}
use text.Mathlib.Text.{◌==◌ as str_eq}
use osmdiffs.Base.{
  ◌≡◌, refl, sym, ap, ◌∙◌, Bool, true, false, not, ◌&&◌, ◌||◌, List, [], ◌∷◌, arith, ◌⊎◌, inl, inr,
  Bool-cases,
}
use mathlib.Core.Path.{fun_ext}
use osmdiffs.Base.Search.{any, all, any-or}
use osmdiffs.Tables.Sorting.{Permutation, any-Permutation}
use osmdiffs.Matchers.Tags.{Tags}
use osmdiffs.Matchers.MatchMask.{
  MatchMask, empty_mask, union, mask_of_bits, category_bits, is_empty, value_matches, tag_bits,
  add_tag, add_tags,
}
use osmdiffs.Matchers.MatchMask.Arms.{
  Bit, large, important, Arm, arms, amenity_arms, street_arms, other_arms,
}

abbrev has_modifier : MatchMask → Bool
has_modifier m = m large || m important

abbrev is_categorized : MatchMask → Bool
is_categorized m = not (has_modifier m) || not (is_empty m)

pub is_empty-union : (m n : MatchMask) → is_empty (union m n) ≡ (is_empty m && is_empty n)
unfolding is_empty
is_empty-union m n = ground (arith, any-or m n category_bits)

is_categorized-union :
    (m n : MatchMask)
    → is_categorized m ≡ true
    → is_categorized n ≡ true
    → is_categorized (union m n) ≡ true
is_categorized-union m n hm hn = ground (arith, is_empty-union m n)

-- What holds of no bits and of the bits of every arm holds of those of a tag.
all-tag_bits :
    (p : List Bit → Bool) (rows : List Arm) (k v : String)
    → p [] ≡ true
    → all (λ a. p (a.bits)) rows ≡ true
    → p (tag_bits rows k v) ≡ true
unfolding all tag_bits
all-tag_bits p [] k v h hs = h
all-tag_bits p (a ∷ rows) k v h hs =
    elim (Bool-cases (str_eq (a.key) k && value_matches (a.value) v)) [
      | inl hit ↦ rw hit (ground (arith, hs))
      | inr miss ↦ rw miss (all-tag_bits p rows k v h (ground (arith, hs)))
    ]

every_arm : all (λ a. is_categorized (mask_of_bits (a.bits))) arms ≡ true
unfolding all arms amenity_arms street_arms other_arms mask_of_bits is_empty any
every_arm = refl

is_categorized-add_tag :
    (m : MatchMask) (k v : String) → is_categorized m ≡ true → is_categorized (add_tag m k v) ≡ true
unfolding add_tag
is_categorized-add_tag m k v h =
    is_categorized-union m (mask_of_bits (tag_bits arms k v)) h
      (all-tag_bits (λ bits. is_categorized (mask_of_bits bits)) arms k v none_set every_arm)
  where
    none_set : is_categorized (mask_of_bits []) ≡ true
    none_set = unfold mask_of_bits is_empty any in refl

is_categorized-add_tags :
    (m : MatchMask) (tags : Tags)
    → is_categorized m ≡ true
    → is_categorized (add_tags m tags) ≡ true
unfolding add_tags
is_categorized-add_tags m [] h = h
is_categorized-add_tags m ((k, v) ∷ tags) h =
    is_categorized-add_tags (add_tag m k v) tags (is_categorized-add_tag m k v h)

-- Whatever its tags, the mask of a feature has a modifier bit only beside a category bit.
pub add_tags-is_empty :
    (tags : Tags)
    → (add_tags empty_mask tags large ≡ true) ⊎ (add_tags empty_mask tags important ≡ true)
    → is_empty (add_tags empty_mask tags) ≡ false
add_tags-is_empty tags h = ground (arith, h, is_categorized-add_tags empty_mask tags start)
  where
    start : is_categorized empty_mask ≡ true
    start = unfold is_empty any in refl

-- The mask has the bits that it began with and those of each tag.
add_tags-any :
    (m : MatchMask) (tags : Tags) (b : Bit)
    → add_tags m tags b ≡ (m b || any (λ t. mask_of_bits (tag_bits arms (t.0) (t.1)) b) tags)
unfolding add_tags add_tag any
add_tags-any m [] b = ground arith
add_tags-any m ((k, v) ∷ tags) b = ground (arith, add_tags-any (add_tag m k v) tags b)

-- The mask of a feature does not depend on the order of its tags.
pub add_tags-Permutation :
    (m : MatchMask) (xs ys : Tags) → Permutation xs ys → add_tags m xs ≡ add_tags m ys
add_tags-Permutation m xs ys p = fun_ext (λ b.
    add_tags-any m xs b
    ∙ (ap (λ r. m b || r) (any-Permutation (λ t. mask_of_bits (tag_bits arms (t.0) (t.1)) b) p)
        ∙ sym (add_tags-any m ys b)))
