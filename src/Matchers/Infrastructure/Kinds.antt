-- ===== src/Matchers/Infrastructure/Kinds.antt =====
-- src/matchers/infrastructure_matcher.rs: the kinds of infrastructure and the settings of each.
use Prim.Native.String.{String}
use text.Mathlib.Text.{◌==◌ as str_eq}
use osmdiffs.Base.{ℕ, Bool, ◌&&◌, ◌||◌, Option, none, some, List, [], ◌∷◌, ◌==◌, if◌then◌else◌}
use osmdiffs.Base.Search.{find_map, map_option}
use osmdiffs.Matchers.Tags.{Tags}

pub data Kind : Type 0 where
  post_box defibrillator bench fire_hydrant public_bookcase bicycle_parking waste_basket fountain
        toilets :
      Kind

abbrev pub kind_index : Kind → ℕ
kind_index post_box = 0
kind_index defibrillator = 1
kind_index bench = 2
kind_index fire_hydrant = 3
kind_index public_bookcase = 4
kind_index bicycle_parking = 5
kind_index waste_basket = 6
kind_index fountain = 7
kind_index toilets = 8

unfoldable pub kind_of_tag : String → String → Option Kind
kind_of_tag key value =
    let is = λ (k v : String). str_eq key k && str_eq value v in
    if is "amenity" "post_box"
    then some post_box
    else if is "emergency" "defibrillator"
    then some defibrillator
    else if is "amenity" "bench"
    then some bench
    else if is "emergency" "fire_hydrant"
    then some fire_hydrant
    else if is "amenity" "public_bookcase"
    then some public_bookcase
    else if is "amenity" "bicycle_parking"
    then some bicycle_parking
    else if is "amenity" "waste_basket"
    then some waste_basket
    else if is "amenity" "fountain" || is "amenity" "drinking_water"
    then some fountain
    else if is "man_made" "drinking_fountain"
    then some fountain
    else if is "amenity" "toilets"
    then some toilets
    else none

unfoldable pub from_tags : Tags → Option Kind
unfolding kind_of_tag
from_tags tags = find_map (λ t. kind_of_tag (t.0) (t.1)) tags

abbrev pub name : Kind → String
name post_box = "post_box"
name defibrillator = "defibrillator"
name bench = "bench"
name fire_hydrant = "fire_hydrant"
name public_bookcase = "public_bookcase"
name bicycle_parking = "bicycle_parking"
name waste_basket = "waste_basket"
name fountain = "fountain"
name toilets = "toilets"

abbrev pub confirming_keys : Kind → List String
confirming_keys post_box = "collection_times" ∷ []
confirming_keys defibrillator = []
confirming_keys bench = "backrest" ∷ []
confirming_keys fire_hydrant = "fire_hydrant:type" ∷ []
confirming_keys public_bookcase = []
confirming_keys bicycle_parking = "capacity" ∷ []
confirming_keys waste_basket = []
confirming_keys fountain = []
confirming_keys toilets = []

abbrev pub operator_must_agree : Kind → Bool
operator_must_agree kind = kind_index kind == kind_index post_box

unfoldable pub kind_name : Tags → Option String
unfolding from_tags
kind_name tags = map_option name (from_tags tags)

pub data RefRule : Type 0 where
  ignore equal last_word : RefRule
  without_prefix : String → RefRule

pub record Settings : Type 0 where
  pub max_meters : ℕ
  pub refs : RefRule
  pub osm_ref_key : String

abbrev settings : ℕ → RefRule → String → Settings
settings meters rule key = record { max_meters = meters; refs = rule; osm_ref_key = key }

unfoldable pub for_spider : Kind → String → Settings
for_spider post_box spider =
    if str_eq spider "swiss_post_ch"
    then settings 100 ignore "ref"
    else if str_eq spider "deutsche_post_de"
    then settings 100 ignore "ref"
    else if str_eq spider "japan_post_jp"
    then settings 20 equal "ref"
    else settings 50 ignore "ref"
for_spider defibrillator spider =
    if str_eq spider "steiger_stiftung_aed"
    then settings 50 last_word "ref"
    else if str_eq spider "aed_jp"
    then settings 20 ignore "ref"
    else settings 30 ignore "ref"
for_spider bench spider =
    if str_eq spider "stadt_zuerich_ch"
    then settings 10 ignore "ref"
    else if str_eq spider "seattle_parks_and_recreation_benches_us"
    then settings 15 equal "ref:US-WA:DPR:AMWO_ID"
    else settings 15 ignore "ref"
for_spider fire_hydrant spider =
    if str_eq spider "epcor_fire_hydrants_ca"
    then settings 10 equal "ref"
    else settings 10 ignore "ref"
for_spider public_bookcase spider =
    if str_eq spider "little_free_library"
    then settings 50 equal "ref"
    else settings 30 ignore "ref"
for_spider bicycle_parking spider =
    if str_eq spider "stadt_zuerich_ch"
    then settings 10 ignore "ref"
    else if str_eq spider "cambridge_city_council_bicycle_parking_us"
    then settings 10 ignore "ref"
    else if str_eq spider "san_francisco_mta_bicycle_parking_us"
    then settings 20 ignore "ref"
    else settings 15 ignore "ref"
for_spider waste_basket spider =
    if str_eq spider "copenhagen_municipality_waste_baskets_dk"
    then settings 10 ignore "ref"
    else if str_eq spider "glasgow_city_council_waste_baskets_gb"
    then settings 20 ignore "ref"
    else settings 15 ignore "ref"
for_spider fountain spider =
    if str_eq spider "stadt_zuerich_ch"
    then settings 10 (without_prefix "wvz-") "ref"
    else settings 15 ignore "ref"
for_spider toilets spider =
    if str_eq spider "stadt_zuerich_ch"
    then settings 20 ignore "ref"
    else if str_eq spider "changing_places_gb"
    then settings 100 ignore "ref"
    else settings 30 ignore "ref"
