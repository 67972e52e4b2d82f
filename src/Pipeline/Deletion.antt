-- ===== src/Pipeline/Deletion.antt =====
-- src/pipeline/conflate/deletion.rs: which unmatched features of OpenStreetMap may be gone.
pub mod Register
pub mod Coverage
pub mod Folds
pub mod Adding
pub mod Known
mod Missing
pub mod Covered
pub mod Reasons
pub mod Stops
mod Runs
use Prim.Native.String.{String}
use text.Mathlib.Text.{◌==◌ as str_eq}
use osmdiffs.Base.{
  ℕ, Bool, true, false, not, ◌&&◌, ◌||◌, Option, none, some, List, [], ◌∷◌, ◌++◌, map, length, leb,
  if◌then◌else◌,
}
use osmdiffs.Base.Search.{any, filter, flat_map, and_then, is_some_and}
use osmdiffs.Base.Text.{Text, chars, is_empty, contains_text_in}
use osmdiffs.Matchers.Tags.{Tags, Unicode, is_one_of, parse_wikidata_ids, normalize_name}
use osmdiffs.Matchers.MatchMask.{MatchMask, empty_mask, add_tags, has_only}
use osmdiffs.Matchers.MatchMask.Arms.{street_furniture}
use osmdiffs.Matchers.Infrastructure.Kinds.{kind_name}
use osmdiffs.Matchers.Transit.Identifiers.{ifopt_keys, split_values, swiss_uic}
use osmdiffs.Matchers.Transit.Stops.{is_stop}
use osmdiffs.Pipeline.Deletion.Register.{Country, World, in_swiss_home}
use osmdiffs.Pipeline.Deletion.Coverage.{
  wikidata_keys, name_keys, max_name_values, AtpCoverage, swiss_ifopts, swiss_uics_in,
  has_swiss_transit, FeatureKind, by_mask, infrastructure, covers_wikidata, covers_name,
  has_swiss_stop_near, fold,
}

pub data Reason : Type 0 where
  wikidata name swiss_transit_id swiss_transit_stop : Reason

-- The flags of the loop over the tags of a stop.
pub record Scan : Type 0 where
  pub has_any_id : Bool
  pub has_swiss_id : Bool
  pub known : Bool

unfoldable pub knows_ifopt : AtpCoverage → Text → Bool
knows_ifopt atp id =
    contains_text_in (atp.swiss_ifopt) id
    || is_some_and (contains_text_in (atp.swiss_uics)) (swiss_uic id)

unfoldable pub note_id : (Text → Bool) → Scan → Text → Scan
note_id knows s id = record {
  has_any_id = s.has_any_id;
  has_swiss_id = true;
  known = s.known || knows id;
}

unfoldable pub note_any : Scan → Scan
note_any s = record { has_any_id = true; has_swiss_id = s.has_swiss_id; known = s.known }

unfoldable pub scan_tag : AtpCoverage → Scan → String × String → Scan
unfolding knows_ifopt note_id note_any
scan_tag atp s (key, value) =
    if is_one_of ifopt_keys key
    then fold (note_id (knows_ifopt atp)) (note_any s) (swiss_ifopts (chars value))
    else if str_eq key "uic_ref"
    then fold (note_id (contains_text_in (atp.swiss_uics))) (note_any s)
        (swiss_uics_in (chars value))
    else s

abbrev pub no_ids : Scan
no_ids = record { has_any_id = false; has_swiss_id = false; known = false }

unfoldable pub scan : AtpCoverage → Tags → Scan
unfolding scan_tag
scan atp tags = fold (scan_tag atp) no_ids tags

-- The names that count, where there are no Wikidata ids.
unfoldable pub ids_of : Tags → List ℕ
ids_of tags =
    flat_map (λ t. parse_wikidata_ids (t.1)) (filter (λ t. is_one_of wikidata_keys (t.0)) tags)

unfoldable pub names_of : Unicode → Tags → List Text
names_of unicode tags =
    flat_map (λ t. map (normalize_name unicode) (split_values (chars (t.1))))
      (filter
        (λ t.
          is_one_of name_keys (t.0) && leb (length (split_values (chars (t.1)))) max_name_values)
        tags)

-- The kind of a feature, unless it says nothing.
unfoldable pub matchable : String → Option FeatureKind
matchable kind = if str_eq kind "public_bookcase" then none else some (infrastructure kind)

unfoldable pub kind_of : Tags → Option FeatureKind
unfolding matchable
kind_of tags =
    if has_only (add_tags empty_mask tags) street_furniture
    then and_then (kind_name tags) matchable
    else some (by_mask (add_tags empty_mask tags))

unfoldable pub covered_reason :
    AtpCoverage → List ℕ → List Text → Option Country → FeatureKind → Option Reason
covered_reason atp ids names country kind =
    if any (covers_wikidata atp country kind) ids
    then some wikidata
    else if any (covers_name atp country kind) names
    then some name
    else none

module _ {Location : Type 0} (unicode : Unicode) (world : World Location) where
  -- The Wikidata and name signals.
  unfoldable pub brand_reason : AtpCoverage → Tags → Option Location → Option Reason
  unfolding ids_of names_of kind_of covered_reason
  brand_reason atp tags location =
      let names = if is_empty (ids_of tags) then names_of unicode tags else [] in
      if is_empty (ids_of tags) && is_empty names
      then none
      else and_then (kind_of tags)
          (covered_reason atp (ids_of tags) names (and_then location (world.country)))

  -- A stop in the home area that the register lacks.
  unfoldable pub home_reason : AtpCoverage → Tags → Scan → Location → Option Reason
  home_reason atp tags s location =
      if s.has_swiss_id
      then some swiss_transit_id
      else if any (λ t. str_eq (t.0) "aerialway") tags
      then none
      else if has_swiss_stop_near world atp location
      then none
      else some swiss_transit_stop

  -- The Swiss signals, and what follows where they do not apply.
  unfoldable pub located_reason : AtpCoverage → Tags → Scan → Option Location → Option Reason
  unfolding home_reason brand_reason
  located_reason atp tags s none = none
  located_reason atp tags s (some location) =
      if in_swiss_home world (world.country location) location
      then home_reason atp tags s location
      else brand_reason atp tags (some location)

  unfoldable pub stop_reason : AtpCoverage → Tags → Scan → Option Location → Option Reason
  unfolding located_reason brand_reason
  stop_reason atp tags s location =
      if s.known
      then none
      else if s.has_swiss_id || not (s.has_any_id)
      then located_reason atp tags s location
      else brand_reason atp tags location

  unfoldable pub deletion_reason : AtpCoverage → Tags → Option Location → Option Reason
  unfolding stop_reason scan brand_reason
  deletion_reason atp tags location =
      if is_stop tags && has_swiss_transit atp
      then stop_reason atp tags (scan atp tags) location
      else brand_reason atp tags location
