-- ===== src/Matchers/Infrastructure/Runs.antt =====
-- A Japanese post box and two candidates.
use osmdiffs.Base.Search.{
  is_some_and, filter_map, flat_map, option_list, and_then, or_else, map_option, find_map,
}
use osmdiffs.Base.{
  inr, ◌*◌, ◌≤◌, ◌<◌, ◌≡◌, refl, true, false, some, [], ◌∷◌, ◌++◌, arith, replicate, list_eq,
}
use osmdiffs.Base.Text.{
  is_empty, is_whitespace, trim_end, trim_start, trim, chars, to_ascii_lowercase, ascii_lowercase,
}
use osmdiffs.Matchers.Tags.{tag_value, Tags, Unicode}
use osmdiffs.Matchers.MatchMask.{empty_mask}
use osmdiffs.Matchers.Score.{score_at, Place}
use osmdiffs.Matchers.Infrastructure.Kinds.{for_spider, kind_of_tag, post_box, from_tags}
use osmdiffs.Matchers.Infrastructure.{
  last_word, ref_names_street, confirm, evidence, same_ref, is_ruled_out, same_kind, factor,
  osm_reference, normalize_value, parse_capacity, significant, street_of, confirming_values,
  reference_of, InfrastructureMatcher, for_place, matcher_of, normalize_ref, score_osm_candidate,
}
use osmdiffs.Matchers.Infrastructure.Refs.{reference_of-replicate}
use osmdiffs.Matchers.Infrastructure.Evidence.{SameRef, same_ref-SameRef}
use osmdiffs.Matchers.Infrastructure.Scores.{score-SameRef, score-max}

abbrev ascii : Unicode
ascii = record { to_lowercase = to_ascii_lowercase; is_alphanumeric = λ c. true }

abbrev box : Place
box = record {
  spider = "japan_post_jp";
  s2_cell_id = 7;
  mask = empty_mask;
  tags = ("amenity", "post_box") ∷ ("ref", "007153") ∷ [];
}

abbrev right : Tags
right = ("amenity", "post_box") ∷ ("ref", "7153") ∷ []

abbrev wrong : Tags
wrong = ("amenity", "post_box") ∷ ("ref", "7154") ∷ []

abbrev matcher : InfrastructureMatcher
matcher = matcher_of ascii post_box box

made : for_place ascii box ≡ some matcher
unfolding for_place matcher_of from_tags kind_of_tag find_map map_option or_else tag_value
    reference_of confirming_values street_of for_spider normalize_ref significant trim trim_start
    trim_end is_whitespace is_empty and_then option_list flat_map filter_map parse_capacity
    normalize_value to_ascii_lowercase ascii_lowercase osm_reference factor same_kind is_ruled_out
    same_ref is_some_and evidence confirm ref_names_street score_osm_candidate score_at list_eq
made = refl

agrees : SameRef ascii matcher right
unfolding for_place matcher_of from_tags kind_of_tag find_map map_option or_else tag_value
    reference_of confirming_values street_of for_spider normalize_ref significant trim trim_start
    trim_end is_whitespace is_empty and_then option_list flat_map filter_map parse_capacity
    normalize_value to_ascii_lowercase ascii_lowercase osm_reference factor same_kind is_ruled_out
    same_ref is_some_and evidence confirm ref_names_street score_osm_candidate score_at list_eq
agrees = (chars "7153", (refl, refl))

scores : 0 < score_osm_candidate ascii matcher right (some 15000)
unfolding for_place matcher_of from_tags kind_of_tag find_map map_option or_else tag_value
    reference_of confirming_values street_of for_spider normalize_ref significant trim trim_start
    trim_end is_whitespace is_empty and_then option_list flat_map filter_map parse_capacity
    normalize_value to_ascii_lowercase ascii_lowercase osm_reference factor same_kind is_ruled_out
    same_ref is_some_and evidence confirm ref_names_street score_osm_candidate score_at list_eq
scores = omega arith

wrong_ref : same_ref ascii matcher wrong ≡ false
unfolding for_place matcher_of from_tags kind_of_tag find_map map_option or_else tag_value
    reference_of confirming_values street_of for_spider normalize_ref significant trim trim_start
    trim_end is_whitespace is_empty and_then option_list flat_map filter_map parse_capacity
    normalize_value to_ascii_lowercase ascii_lowercase osm_reference factor same_kind is_ruled_out
    same_ref is_some_and evidence confirm ref_names_street score_osm_candidate score_at list_eq
wrong_ref = refl

differs : ¬ SameRef ascii matcher wrong
differs h = absurd (cc (wrong_ref, same_ref-SameRef ascii matcher wrong h))

score-SameRef_example :
    score_osm_candidate ascii matcher wrong (some 0)
    < score_osm_candidate ascii matcher right (some 15000)
score-SameRef_example =
    score-SameRef ascii box matcher right wrong (some 15000) (some 0) made agrees scores differs

-- The ref of a bookcase, whose last word counts.
reference_of-replicate_example :
    (reference_of ascii last_word
        (some (chars "AEDR " ++ (replicate 2 b'0' ++ (b'1' ∷ chars "786"))))
      ≡ reference_of ascii last_word (some (chars "AEDR " ++ (b'1' ∷ chars "786"))))
    × (normalize_ref ascii false (replicate 2 b'0' ++ (b'1' ∷ chars "786"))
        ≡ normalize_ref ascii false (b'1' ∷ chars "786"))
reference_of-replicate_example =
    reference_of-replicate ascii last_word (chars "AEDR ") 2 b'1' (chars "786")
      (inr (chars "AEDR", b' ', white, refl)) visible
  where
    white : is_whitespace b' ' ≡ true
    white = unfold is_whitespace in refl

    visible : is_whitespace b'1' ≡ false
    visible = unfold is_whitespace in refl

score-max_example : score_osm_candidate ascii matcher right (some 0) ≤ 100 * (20 * 1000)
unfolding matcher_of for_spider
score-max_example = score-max ascii box matcher right (some 0) made
