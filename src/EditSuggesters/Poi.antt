-- ===== src/EditSuggesters/Poi.antt =====
-- src/edit_suggesters/poi.rs: edits of points of interest.
pub mod Settled
mod Runs
use Prim.Native.String.{String}
use text.Mathlib.Text.{◌==◌ as str_eq}
use osmdiffs.Base.{Bool, not, ◌&&◌, Option, none, some, List, [], ◌∷◌, if◌then◌else◌}
use osmdiffs.Base.Search.{filter, or_else, is_some_and}
use osmdiffs.Base.Text.{is_empty}
use osmdiffs.Matchers.Tags.{Tag, Tags, is_one_of}

unfoldable pub is_atp_tag_trustworthy : String → Bool
is_atp_tag_trustworthy key =
    is_one_of
      ("email" ∷ "end_date" ∷ "fax" ∷ "opening_hours" ∷ "phone" ∷ "start_date" ∷ "website" ∷ []) key

-- The value of a key in the `HashMap` collected from tags: the last one.
unfoldable pub collected : String → Tags → Option String
collected key [] = none
collected key ((k, v) ∷ tags) = or_else (collected key tags) (if str_eq k key then some v else none)

unfoldable pub differs : Tags → Tag → Bool
unfolding collected
differs osm_tags t = not (is_some_and (str_eq (t.1)) (collected (t.0) osm_tags))

unfoldable pub is_edit : Tags → Tag → Bool
unfolding differs is_atp_tag_trustworthy
is_edit osm_tags t = is_atp_tag_trustworthy (t.0) && differs osm_tags t

unfoldable pub suggest_edit : Tags → Tags → Option Tags
unfolding is_edit
suggest_edit atp_tags osm_tags =
    let tag_edits = filter (is_edit osm_tags) atp_tags in
    if is_empty tag_edits then none else some tag_edits
