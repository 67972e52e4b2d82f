-- ===== src/Matchers/Infrastructure.antt =====
-- src/matchers/infrastructure_matcher.rs: post boxes, benches and other street infrastructure.
pub mod Kinds
mod Evidence
pub mod Scores
pub mod Refs
mod Runs
use Prim.Native.String.{String}
use osmdiffs.Base.{
  ℕ, ◌+◌, ◌*◌, ◌^◌, Bool, true, false, not, ◌&&◌, Option, none, some, List, [], ◌∷◌, ltb, ◌==◌,
  list_eq, if◌then◌else◌,
}
use osmdiffs.Base.Search.{
  any, all, filter, filter_map, map_option, and_then, is_some_and, option_list, last, flat_map,
}
use osmdiffs.Base.Distinct.{contains}
use osmdiffs.Base.Text.{
  Text, chars, is_empty, is_whitespace, split_whitespace, trim, trim_start, strip_prefix,
  contains_text, parse_uint,
}
use osmdiffs.Matchers.Tags.{Tags, Unicode, tag_value, parse_wikidata_ids, normalize_name}
use osmdiffs.Matchers.Score.{Place, Factor, no_match, score_at}
use osmdiffs.Matchers.Infrastructure.Kinds.{
  Kind, bicycle_parking, kind_index, from_tags, confirming_keys, operator_must_agree, RefRule,
  ignore, equal, last_word, without_prefix, Settings, for_spider,
}

-- The rest of a ref, without leading zeros and lowercased, unless it is empty.
unfoldable pub significant : Unicode → Text → Option Text
significant unicode value =
    let lowered = unicode.to_lowercase (trim_start (λ c. c == b'0') value) in
    if is_empty lowered then none else some lowered

unfoldable pub normalize_ref : Unicode → Bool → Text → Option Text
unfolding significant trim trim_start
normalize_ref unicode last_only value =
    and_then (if last_only then last (split_whitespace value) else some (trim value))
      (significant unicode)

unfoldable pub normalize_value : Unicode → Text → Text
normalize_value unicode value = unicode.to_lowercase (filter (λ c. not (is_whitespace c)) value)

unfoldable pub parse_capacity : Text → Option ℕ
parse_capacity value = parse_uint (2 ^ 32) (trim value)

pub record InfrastructureMatcher : Type 0 where
  pub kind : Kind
  pub settings : Settings
  pub reference : Option Text
  pub operators : List ℕ
  pub confirming : List (String × Text)
  pub street : Option Text
  pub capacity : Option ℕ

unfoldable pub reference_of : Unicode → RefRule → Option Text → Option Text
reference_of unicode ignore ref = none
reference_of unicode equal ref = and_then ref (normalize_ref unicode false)
reference_of unicode last_word ref = and_then ref (normalize_ref unicode true)
reference_of unicode (without_prefix prefix) ref =
    and_then (and_then ref (strip_prefix (chars prefix))) (normalize_ref unicode false)

unfoldable pub street_of : Unicode → Text → Option Text
street_of unicode value =
    let name = normalize_name unicode value in if is_empty name then none else some name

unfoldable pub confirming_values : Unicode → Kind → Tags → List (String × Text)
confirming_values unicode kind tags =
    filter_map
      (λ key. map_option (λ v. (key, normalize_value unicode (chars v))) (tag_value key tags))
      (confirming_keys kind)

unfoldable pub matcher_of : Unicode → Kind → Place → InfrastructureMatcher
unfolding confirming_values reference_of street_of
matcher_of unicode kind place = record {
  kind = kind;
  settings = for_spider kind (place.spider);
  reference =
      reference_of unicode ((for_spider kind (place.spider)).refs)
        (map_option chars (tag_value "ref" (place.tags)));
  operators =
      flat_map parse_wikidata_ids (option_list (tag_value "operator:wikidata" (place.tags)));
  confirming = confirming_values unicode kind (place.tags);
  street = and_then (map_option chars (tag_value "addr:street" (place.tags))) (street_of unicode);
  capacity =
      if kind_index kind == kind_index bicycle_parking
      then and_then (map_option chars (tag_value "capacity" (place.tags))) parse_capacity
      else none;
}

unfoldable pub for_place : Unicode → Place → Option InfrastructureMatcher
unfolding matcher_of
for_place unicode place =
    map_option (λ kind. matcher_of unicode kind place) (from_tags (place.tags))

unfoldable pub same_kind : InfrastructureMatcher → Tags → Bool
same_kind m tags = is_some_and (λ kind. kind_index kind == kind_index (m.kind)) (from_tags tags)

-- Both sides name operators, and none in common, where the operator must agree.
unfoldable pub is_ruled_out : InfrastructureMatcher → Tags → Bool
is_ruled_out m tags =
    let osm = flat_map parse_wikidata_ids (option_list (tag_value "operator:wikidata" tags)) in
    (operator_must_agree (m.kind) && not (is_empty (m.operators)))
    && (not (is_empty osm) && not (any (λ id. contains (m.operators) id) osm))

unfoldable pub osm_reference : Unicode → InfrastructureMatcher → Tags → Option Text
osm_reference unicode m tags =
    and_then (map_option chars (tag_value (m.settings.osm_ref_key) tags))
      (normalize_ref unicode false)

unfoldable pub same_ref : Unicode → InfrastructureMatcher → Tags → Bool
unfolding osm_reference
same_ref unicode m tags =
    is_some_and (λ atp. is_some_and (λ osm. list_eq atp osm) (osm_reference unicode m tags))
      (m.reference)

-- `CONFIRM_BONUS` for each confirming tag that agrees.
unfoldable pub confirm : Unicode → Tags → List (String × Text) → ℕ → ℕ
confirm unicode tags [] factor = factor
confirm unicode tags ((key, atp) ∷ rest) factor = confirm unicode tags rest (
    if is_some_and (λ osm. list_eq (normalize_value unicode (chars osm)) atp) (tag_value key tags)
    then factor + 4
    else factor)

unfoldable pub ref_names_street : Unicode → InfrastructureMatcher → Tags → Bool
ref_names_street unicode m tags =
    is_some_and
      (λ street.
        is_some_and (λ osm. contains_text street (normalize_name unicode (chars osm)))
          (tag_value "ref" tags))
      (m.street)

-- From `KIND_FACTOR`.
unfoldable pub evidence : Unicode → InfrastructureMatcher → Tags → ℕ
unfolding confirm ref_names_street
evidence unicode m tags =
    if ref_names_street unicode m tags
    then confirm unicode tags (m.confirming) 80 + 4
    else confirm unicode tags (m.confirming) 80

unfoldable pub factor : Unicode → InfrastructureMatcher → Tags → Factor
unfolding evidence same_ref is_ruled_out same_kind
factor unicode m tags =
    if not (same_kind m tags)
    then no_match
    else if is_ruled_out m tags
    then no_match
    else if same_ref unicode m tags
    then record { best = 100; worst = 90; radius = m.settings.max_meters * 1000 }
    else record { best = evidence unicode m tags; worst = 0; radius = m.settings.max_meters * 1000 }

-- The candidate's tags and its distance.
unfoldable pub score_osm_candidate : Unicode → InfrastructureMatcher → Tags → Option ℕ → ℕ
unfolding factor
score_osm_candidate unicode m tags distance = score_at (factor unicode m tags) distance

unfoldable pub may_share : InfrastructureMatcher → Tags → Bool
unfolding parse_capacity
may_share m tags =
    is_some_and
      (λ atp.
        is_some_and (λ osm. ltb atp osm)
          (and_then (map_option chars (tag_value "capacity" tags)) parse_capacity))
      (m.capacity)
