-- ===== src/Matchers/Transit.antt =====
-- src/matchers/transit_matcher.rs: stops, stations and platforms of public transport.
pub mod Stops
pub mod Identifiers
pub mod Names
pub mod Symmetry
pub mod Codes
pub mod Scores
mod Runs
use Prim.Native.String.{String}
use text.Mathlib.Text.{◌==◌ as str_eq}
use osmdiffs.Base.{
  ℕ, ◌*◌, max, Bool, true, false, not, ◌&&◌, ◌||◌, Option, none, some, List, [], ◌∷◌, map, ◌==◌,
  if◌then◌else◌,
}
use osmdiffs.Base.Search.{any, filter, map_option, and_then, is_some, is_some_and}
use osmdiffs.Base.Text.{Text, chars}
use osmdiffs.Matchers.Tags.{Tags, Unicode, tag_value, normalize_name}
use osmdiffs.Matchers.MatchMask.{intersects, mask_of_bits}
use osmdiffs.Matchers.MatchMask.Arms.{transit}
use osmdiffs.Matchers.Score.{Place, Factor, no_match, score_at}
use osmdiffs.Matchers.Transit.Stops.{
  Kind, platform, stop_position, kind_index, from_tags, fit, Modes, modes_from_tags, compatible,
}
use osmdiffs.Matchers.Transit.Identifiers.{
  Ids, ids_from_tags, has_no_ids, IdEvidence, same, same_stop, different, unknown, compare_ids,
}
use osmdiffs.Matchers.Transit.Names.{local_refs, local_ref_factor, name_factor}

pub record TransitMatcher : Type 0 where
  pub kind : Kind
  pub modes : Modes
  pub ids : Ids
  pub refs : List Text
  pub name : Option Text
  pub max_meters : ℕ

unfoldable pub name_of : Unicode → Tags → Option Text
name_of unicode tags = map_option (λ v. normalize_name unicode (chars v)) (tag_value "name" tags)

unfoldable pub matcher_of : Unicode → Place → Kind → Option TransitMatcher
unfolding name_of
matcher_of unicode place kind =
    if has_no_ids (ids_from_tags (place.tags)) && not (is_some (name_of unicode (place.tags)))
    then none
    else some (record {
      kind = kind;
      modes = modes_from_tags (place.tags);
      ids = ids_from_tags (place.tags);
      refs = local_refs unicode (place.tags);
      name = name_of unicode (place.tags);
      max_meters = if kind_index kind == kind_index platform then 1000 else 400;
    })

unfoldable pub for_place : Unicode → Place → Option TransitMatcher
unfolding matcher_of
for_place unicode place =
    if not (intersects (place.mask) (mask_of_bits (transit ∷ [])))
    then none
    else and_then (from_tags (place.tags)) (matcher_of unicode place)

unfoldable pub is_bus_stop : Tags → Bool
is_bus_stop tags = any (λ t. str_eq (t.0) "highway" && str_eq (t.1) "bus_stop") tags

-- The fit, with nodes that stand for a platform too.
unfoldable pub fit_of : TransitMatcher → Kind → Tags → ℕ
unfolding is_bus_stop
fit_of m kind tags =
    if (kind_index (m.kind) == kind_index platform)
      && ((kind_index kind == kind_index stop_position) && is_bus_stop tags)
    then 9
    else fit (m.kind) kind

unfoldable pub local_factor : Unicode → TransitMatcher → Tags → ℕ
local_factor unicode m tags =
    if (kind_index (m.kind) == kind_index platform)
      || (kind_index (m.kind) == kind_index stop_position)
    then local_ref_factor (m.refs) (local_refs unicode tags)
    else 10

-- The best name of the candidate.
unfoldable pub best_name : Unicode → Text → Tags → ℕ
best_name unicode name [] = 0
best_name unicode name ((key, value) ∷ tags) =
    let rest = best_name unicode name tags in
    if str_eq key "name"
    then max (name_factor unicode name (normalize_name unicode (chars value))) rest
    else rest

unfoldable pub scaled : ℕ → ℕ → ℕ → Factor
scaled best worst radius = record { best = best; worst = worst; radius = radius * 1000 }

-- By the evidence; in ten-thousandths, as fits and local refs are in tenths.
unfoldable pub factor_by_ids : Unicode → TransitMatcher → ℕ → IdEvidence → Tags → Factor
unfolding scaled local_factor
factor_by_ids unicode m fit same tags = scaled (fit * 1000) (fit * 900) (m.max_meters)
factor_by_ids unicode m fit same_stop tags =
    scaled (fit * 80 * local_factor unicode m tags) 0 (m.max_meters)
factor_by_ids unicode m fit different tags = no_match
factor_by_ids unicode m fit unknown tags = elim (m.name) [
  | none ↦ no_match
  | some name ↦
      if best_name unicode name tags == 0
      then no_match
      else scaled (fit * best_name unicode name tags * local_factor unicode m tags) 0 100
]

unfoldable pub factor_of_kind : Unicode → TransitMatcher → Tags → Kind → Factor
unfolding fit_of factor_by_ids
factor_of_kind unicode m tags kind =
    if (fit_of m kind tags == 0) || not (compatible (m.modes) (modes_from_tags tags))
    then no_match
    else factor_by_ids unicode m (fit_of m kind tags) (compare_ids (m.ids) (ids_from_tags tags))
        tags

unfoldable pub factor_if_stop : Unicode → TransitMatcher → Tags → Option Kind → Factor
unfolding factor_of_kind
factor_if_stop unicode m tags none = no_match
factor_if_stop unicode m tags (some kind) = factor_of_kind unicode m tags kind

unfoldable pub factor : Unicode → TransitMatcher → Tags → Factor
unfolding factor_if_stop
factor unicode m tags = factor_if_stop unicode m tags (from_tags tags)

unfoldable pub score_osm_candidate : Unicode → TransitMatcher → Tags → Option ℕ → ℕ
unfolding factor
score_osm_candidate unicode m tags distance = score_at (factor unicode m tags) distance

unfoldable pub may_share : TransitMatcher → Tags → Bool
may_share m tags = elim (compare_ids (m.ids) (ids_from_tags tags)) [ same ↦ true | _ ↦ false ]
