-- ===== src/EditSuggesters/Poi/Runs.antt =====
-- New opening hours, and a name that is left alone.
use Prim.Native.String.{String}
use text.Mathlib.TextEquality.{eq_iff}
use osmdiffs.Base.{◌≡◌, ◌≢◌, refl, none, some, [], ◌∷◌, ◌++◌, arith}
use osmdiffs.Base.Search.{any, filter, or_else, is_some_and}
use osmdiffs.Base.Text.{is_empty}
use osmdiffs.Matchers.Tags.{Tags, is_one_of}
use osmdiffs.EditSuggesters.Poi.{is_atp_tag_trustworthy, collected, differs, is_edit, suggest_edit}
use osmdiffs.EditSuggesters.Poi.Settled.{HasDistinctKeys, suggest_edit-settled}

abbrev atp : Tags
atp = ("opening_hours", "Mo-Fr 09:00-20:00") ∷ (("name", "Elsewhere") ∷ [])

abbrev osm : Tags
osm = ("opening_hours", "Mo-Fr 08:00-18:00") ∷ (("name", "Here") ∷ [])

abbrev edit : Tags
edit = ("opening_hours", "Mo-Fr 09:00-20:00") ∷ []

suggested : suggest_edit atp osm ≡ some edit
unfolding suggest_edit is_edit differs collected is_atp_tag_trustworthy is_one_of any filter or_else
    is_some_and is_empty
suggested = refl

other_key : ◌≢◌ {A = String} "opening_hours" "name"
other_key = ground (arith, eq_iff "opening_hours" "name")

keys : HasDistinctKeys atp
keys = ((other_key, tt), (tt, tt))

suggest_edit-settled_example : suggest_edit atp (osm ++ edit) ≡ none
suggest_edit-settled_example = suggest_edit-settled atp osm keys edit suggested
