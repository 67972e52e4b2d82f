-- ===== src/EditSuggesters.antt =====
-- src/edit_suggesters: which tags of a matched feature should change.
pub mod Poi
use osmdiffs.Base.{Option, none, some, List, if◌then◌else◌, [], ◌∷◌}
use osmdiffs.Matchers.Tags.{Tags}
use osmdiffs.Matchers.MatchMask.{empty_mask, add_tags, intersects, mask_of_bits}
use osmdiffs.Matchers.MatchMask.Arms.{shop}
use osmdiffs.EditSuggesters.Poi.{suggest_edit}

-- The suggester for the tags of a place, as its function.
unfoldable pub create_edit_suggester : Tags → Option (Tags → Tags → Option Tags)
create_edit_suggester atp_tags =
    if intersects (add_tags empty_mask atp_tags) (mask_of_bits (shop ∷ []))
    then some suggest_edit
    else none
