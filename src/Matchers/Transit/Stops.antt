-- ===== src/Matchers/Transit/Stops.antt =====
-- src/matchers/transit_matcher.rs: what part of a stop a feature is, and its means of transport.
use Prim.Native.String.{String}
use text.Mathlib.Text.{◌==◌ as str_eq}
use osmdiffs.Base.{
  ℕ, Bool, ◌&&◌, ◌||◌, Option, none, some, List, [], ◌∷◌, ◌++◌, ◌==◌, if◌then◌else◌,
}
use osmdiffs.Base.Search.{any, or_else, is_some}
use osmdiffs.Base.Text.{is_empty}
use osmdiffs.Matchers.Tags.{Tags}

pub data Kind : Type 0 where
  station stop_area platform stop_position : Kind

abbrev pub kind_index : Kind → ℕ
kind_index station = 0
kind_index stop_area = 1
kind_index platform = 2
kind_index stop_position = 3

unfoldable pub main_kind : String → String → Option Kind
main_kind key value =
    let is = λ (v : String). str_eq key "public_transport" && str_eq value v in
    if is "station"
    then some station
    else if is "stop_area"
    then some stop_area
    else if is "platform"
    then some platform
    else if is "stop_position"
    then some stop_position
    else none

unfoldable pub fallback_kind : String → String → Option Kind
fallback_kind key value =
    let is = λ (k v : String). str_eq key k && str_eq value v in
    if is "railway" "station" || is "railway" "halt"
    then some station
    else if is "railway" "platform" || is "highway" "bus_stop"
    then some platform
    else if is "railway" "stop" || is "railway" "tram_stop"
    then some stop_position
    else none

-- The loop, with the fallback so far.
unfoldable pub kind_from : Option Kind → Tags → Option Kind
unfolding main_kind fallback_kind
kind_from fallback [] = fallback
kind_from fallback ((key, value) ∷ tags) =
    or_else (main_kind key value) (kind_from (or_else fallback (fallback_kind key value)) tags)

unfoldable pub from_tags : Tags → Option Kind
unfolding kind_from
from_tags tags = kind_from none tags

unfoldable pub is_stop : Tags → Bool
unfolding from_tags
is_stop tags = is_some (from_tags tags)

-- In tenths.
unfoldable pub fit : Kind → Kind → ℕ
fit station stop_area = 9
fit stop_area station = 9
fit atp osm = if kind_index atp == kind_index osm then 10 else 0

pub data Mode : Type 0 where
  train tram subway light_rail monorail funicular bus trolleybus ferry aerialway : Mode

abbrev pub mode_index : Mode → ℕ
mode_index train = 0
mode_index tram = 1
mode_index subway = 2
mode_index light_rail = 3
mode_index monorail = 4
mode_index funicular = 5
mode_index bus = 6
mode_index trolleybus = 7
mode_index ferry = 8
mode_index aerialway = 9

-- A set of modes, the bits of `Modes`.
abbrev pub Modes : Type 0
Modes = List Mode

abbrev pub rail : Modes
rail = train ∷ tram ∷ subway ∷ light_rail ∷ monorail ∷ funicular ∷ []

unfoldable pub explicit_modes : String → Modes
explicit_modes key =
    if str_eq key "train"
    then train ∷ []
    else if str_eq key "tram"
    then tram ∷ []
    else if str_eq key "subway"
    then subway ∷ []
    else if str_eq key "light_rail"
    then light_rail ∷ (train ∷ (tram ∷ []))
    else if str_eq key "monorail"
    then monorail ∷ []
    else if str_eq key "funicular"
    then funicular ∷ []
    else if str_eq key "bus"
    then bus ∷ []
    else if str_eq key "trolleybus"
    then trolleybus ∷ (bus ∷ [])
    else if str_eq key "ferry"
    then ferry ∷ []
    else if str_eq key "aerialway"
    then aerialway ∷ []
    else []

unfoldable pub implied_modes : String → String → Modes
implied_modes key value =
    let is = λ (k v : String). str_eq key k && str_eq value v in
    if is "highway" "bus_stop"
    then bus ∷ []
    else if is "railway" "tram_stop"
    then tram ∷ []
    else if is "railway" "station"
        || (is "railway" "halt" || (is "railway" "platform" || is "railway" "stop"))
    then rail
    else []

-- The loop, with `explicit` and `implied` so far.
unfoldable pub modes_from : Modes → Modes → Tags → Modes
unfolding explicit_modes implied_modes
modes_from explicit implied [] = if is_empty explicit then implied else explicit
modes_from explicit implied ((key, value) ∷ tags) =
    modes_from (if str_eq value "no" then explicit else explicit ++ explicit_modes key)
      (implied ++ implied_modes key value) tags

unfoldable pub modes_from_tags : Tags → Modes
unfolding modes_from
modes_from_tags tags = modes_from [] [] tags

unfoldable pub compatible : Modes → Modes → Bool
compatible m n =
    is_empty m || (is_empty n || any (λ a. any (λ b. mode_index a == mode_index b) n) m)
