-- ===== src/Matchers/MatchMask/Runs.antt =====
-- The masks of a camp site and a bench.
use osmdiffs.Base.{◌≤◌, ◌≡◌, ◌⊎◌, refl, true, false, List, [], ◌∷◌, inl}
use osmdiffs.Base.Search.{any, all}
use osmdiffs.Tables.Sorting.{swap}
use osmdiffs.Matchers.Tags.{Tags, is_one_of}
use osmdiffs.Matchers.MatchMask.{
  empty_mask, union, mask_of_bits, is_empty, add_tag, add_tags, intersects, importance,
  match_distance, tag_bits, value_matches,
}
use osmdiffs.Matchers.MatchMask.Arms.{
  Bit, arms, amenity_arms, street_arms, other_arms, large, shop, street_furniture,
}
use osmdiffs.Matchers.MatchMask.Importance.{importance-union}
use osmdiffs.Matchers.MatchMask.Laws.{add_tags-is_empty, add_tags-Permutation}

abbrev camp : Tags
camp = ("tourism", "camp_site") ∷ ("name", "Lido") ∷ []

abbrev bench : Tags
bench = ("amenity", "bench") ∷ []

camp_is_large : add_tags empty_mask camp large ≡ true
unfolding add_tags add_tag arms amenity_arms street_arms other_arms tag_bits value_matches is_one_of
    any mask_of_bits
camp_is_large = refl

apart : intersects (add_tags empty_mask camp) (add_tags empty_mask bench) ≡ false
unfolding add_tags add_tag arms amenity_arms street_arms other_arms tag_bits value_matches is_one_of
    any mask_of_bits intersects
apart = refl

bench_distance : match_distance (add_tags empty_mask bench) ≡ 10
unfolding add_tags add_tag arms amenity_arms street_arms other_arms tag_bits value_matches is_one_of
    any all mask_of_bits match_distance
bench_distance = refl

add_tags-is_empty_example : is_empty (add_tags empty_mask camp) ≡ false
add_tags-is_empty_example = add_tags-is_empty camp (inl camp_is_large)

add_tags-Permutation_example :
    add_tags empty_mask camp
    ≡ add_tags empty_mask (("name", "Lido") ∷ ("tourism", "camp_site") ∷ [])
add_tags-Permutation_example =
    add_tags-Permutation empty_mask camp (("name", "Lido") ∷ ("tourism", "camp_site") ∷ [])
      (swap ("tourism", "camp_site") ("name", "Lido") [])

abbrev seat : List Bit
seat = street_furniture ∷ []

importance-union_example :
    ((1 ≤ importance (mask_of_bits seat)) × (importance (mask_of_bits seat) ≤ 10))
    × ((is_empty (mask_of_bits seat) ≡ true)
        ⊎ (importance (mask_of_bits seat)
            ≤ importance (union (mask_of_bits seat) (mask_of_bits (shop ∷ [])))))
importance-union_example = importance-union (mask_of_bits seat) (mask_of_bits (shop ∷ []))
