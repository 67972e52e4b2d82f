-- ===== src/Matchers/MatchMask/Arms.antt =====
-- The arms of the match in `MatchMask::add_tag`, in the order of src/matchers/mod.rs.
use Prim.Native.String.{String}
use osmdiffs.Base.{List, [], ◌∷◌, ◌++◌}

-- The category bits and, at the end, the modifier bits.
pub data Bit : Type 0 where
  shop restaurant lodging school transit parking fuel shrubbery street_furniture large important :
      Bit

pub data ValuePattern : Type 0 where
  one_of : List String → ValuePattern
  any_value : ValuePattern

pub record Arm : Type 0 where
  pub key : String
  pub value : ValuePattern
  pub bits : List Bit

abbrev arm : String → ValuePattern → List Bit → Arm
arm k v b = record { key = k; value = v; bits = b }

unfoldable pub amenity_arms : List Arm
amenity_arms =
    (arm "amenity" (one_of ("arts_centre" ∷ [])) (shop ∷ []))
    ∷ (arm "amenity" (one_of ("bank" ∷ [])) (shop ∷ []))
    ∷ (arm "amenity" (one_of ("bar" ∷ [])) (restaurant ∷ []))
    ∷ (arm "amenity" (one_of ("biergarten" ∷ [])) (restaurant ∷ []))
    ∷ (arm "amenity" (one_of ("bench" ∷ [])) (street_furniture ∷ []))
    ∷ (arm "amenity" (one_of ("bicycle_rental" ∷ [])) (street_furniture ∷ []))
    ∷ (arm "amenity" (one_of ("bbq" ∷ [])) (street_furniture ∷ []))
    ∷ (arm "amenity" (one_of ("bicycle_parking" ∷ [])) (street_furniture ∷ []))
    ∷ (arm "amenity" (one_of ("bicycle_repair_station" ∷ [])) (street_furniture ∷ []))
    ∷ (arm "amenity" (one_of ("bureau_de_change" ∷ [])) (shop ∷ []))
    ∷ (arm "amenity" (one_of ("cafe" ∷ [])) (restaurant ∷ []))
    ∷ (arm "amenity" (one_of ("car_rental" ∷ [])) (shop ∷ []))
    ∷ (arm "amenity" (one_of ("cinema" ∷ [])) (shop ∷ []))
    ∷ (arm "amenity" (one_of ("clinic" ∷ [])) (shop ∷ important ∷ []))
    ∷ (arm "amenity" (one_of ("college" ∷ [])) (school ∷ []))
    ∷ (arm "amenity" (one_of ("childcare" ∷ [])) (school ∷ []))
    ∷ (arm "amenity" (one_of ("dentist" ∷ [])) (shop ∷ []))
    ∷ (arm "amenity" (one_of ("doctors" ∷ [])) (shop ∷ []))
    ∷ (arm "amenity" (one_of ("drinking_water" ∷ [])) (street_furniture ∷ []))
    ∷ (arm "amenity" (one_of ("driving_school" ∷ [])) (school ∷ []))
    ∷ (arm "amenity" (one_of ("charging_station" ∷ [])) (fuel ∷ []))
    ∷ (arm "amenity" (one_of ("ferry_terminal" ∷ [])) (transit ∷ []))
    ∷ (arm "amenity" (one_of ("fast_food" ∷ [])) (restaurant ∷ []))
    ∷ (arm "amenity" (one_of ("fire_station" ∷ [])) (shop ∷ important ∷ []))
    ∷ (arm "amenity" (one_of ("food_court" ∷ [])) (restaurant ∷ []))
    ∷ (arm "amenity" (one_of ("fountain" ∷ [])) (street_furniture ∷ []))
    ∷ (arm "amenity" (one_of ("fuel" ∷ [])) (fuel ∷ []))
    ∷ (arm "amenity" (one_of ("grit_bin" ∷ [])) (street_furniture ∷ []))
    ∷ (arm "amenity" (one_of ("hospital" ∷ [])) (shop ∷ important ∷ []))
    ∷ (arm "amenity" (one_of ("ice_cream" ∷ [])) (shop ∷ []))
    ∷ (arm "amenity" (one_of ("kindergarten" ∷ [])) (school ∷ []))
    ∷ (arm "amenity" (one_of ("letter_box" ∷ [])) (street_furniture ∷ []))
    ∷ (arm "amenity" (one_of ("library" ∷ [])) (shop ∷ []))
    ∷ (arm "amenity" (one_of ("money_transfer" ∷ [])) (shop ∷ []))
    ∷ (arm "amenity" (one_of ("motorcycle_parking" ∷ [])) (parking ∷ []))
    ∷ (arm "amenity" (one_of ("nightclub" ∷ [])) (shop ∷ []))
    ∷ (arm "amenity" (one_of ("parking" ∷ [])) (parking ∷ []))
    ∷ (arm "amenity" (one_of ("pharmacy" ∷ [])) (shop ∷ important ∷ []))
    ∷ (arm "amenity" (one_of ("place_of_worship" ∷ [])) (shop ∷ []))
    ∷ (arm "amenity" (one_of ("police" ∷ [])) (shop ∷ important ∷ []))
    ∷ (arm "amenity" (one_of ("post_box" ∷ [])) (street_furniture ∷ []))
    ∷ (arm "amenity" (one_of ("post_office" ∷ [])) (shop ∷ []))
    ∷ (arm "amenity" (one_of ("public_bookcase" ∷ [])) (street_furniture ∷ []))
    ∷ (arm "amenity" (one_of ("pub" ∷ [])) (restaurant ∷ []))
    ∷ (arm "amenity" (one_of ("recycling" ∷ [])) (street_furniture ∷ []))
    ∷ (arm "amenity" (one_of ("studio" ∷ [])) (shop ∷ []))
    ∷ (arm "amenity" (one_of ("taxi" ∷ [])) (transit ∷ []))
    ∷ (arm "amenity" (one_of ("telephone" ∷ [])) (street_furniture ∷ []))
    ∷ (arm "amenity" (one_of ("theatre" ∷ [])) (shop ∷ []))
    ∷ (arm "amenity" (one_of ("toilets" ∷ [])) (street_furniture ∷ []))
    ∷ (arm "amenity" (one_of ("trolley_bay" ∷ [])) (street_furniture ∷ []))
    ∷ (arm "amenity" (one_of ("restaurant" ∷ [])) (restaurant ∷ []))
    ∷ (arm "amenity" (one_of ("school" ∷ [])) (school ∷ []))
    ∷ (arm "amenity" (one_of ("veterinary" ∷ [])) (shop ∷ []))
    ∷ (arm "amenity" (one_of ("university" ∷ [])) (school ∷ []))
    ∷ (arm "amenity" (one_of ("vending_machine" ∷ [])) (street_furniture ∷ []))
    ∷ (arm "amenity" (one_of ("waste_basket" ∷ [])) (street_furniture ∷ []))
    ∷ (arm "amenity" (one_of ("water_point" ∷ [])) (street_furniture ∷ []))
    ∷ (arm "amenity" (one_of ("watering_place" ∷ [])) (street_furniture ∷ []))
    ∷ []

unfoldable pub street_arms : List Arm
street_arms =
    (arm "barrier" (one_of ("fence" ∷ [])) (street_furniture ∷ []))
    ∷ (arm "barrier" (one_of ("gate" ∷ [])) (street_furniture ∷ []))
    ∷ (arm "barrier" (one_of ("hedge" ∷ [])) (shrubbery ∷ []))
    ∷ (arm "barrier" (one_of ("stile" ∷ [])) (street_furniture ∷ []))
    ∷ (arm "bicycle_rental" (one_of ("shop" ∷ [])) (shop ∷ []))
    ∷ (arm "healthcare" (one_of ("no" ∷ [])) ([]))
    ∷ (arm "healthcare" (one_of ("clinic" ∷ "hospital" ∷ "pharmacy" ∷ [])) (shop ∷ important ∷ []))
    ∷ (arm "healthcare" (any_value) (shop ∷ []))
    ∷ (arm "emergency" (one_of ("acess_point" ∷ [])) (street_furniture ∷ []))
    ∷ (arm "emergency" (one_of ("assembly_point" ∷ [])) (street_furniture ∷ []))
    ∷ (arm "emergency" (one_of ("bleed_control_kit" ∷ [])) (street_furniture ∷ []))
    ∷ (arm "emergency" (one_of ("defibrillator" ∷ [])) (street_furniture ∷ important ∷ []))
    ∷ (arm "emergency" (one_of ("disaster_help_point" ∷ [])) (street_furniture ∷ []))
    ∷ (arm "emergency" (one_of ("fire_alarm_box" ∷ [])) (street_furniture ∷ []))
    ∷ (arm "emergency" (one_of ("fire_hydrant" ∷ [])) (street_furniture ∷ []))
    ∷ (arm "emergency" (one_of ("first_aid_kit" ∷ [])) (street_furniture ∷ []))
    ∷ (arm "emergency" (one_of ("key_depot" ∷ [])) (street_furniture ∷ []))
    ∷ (arm "emergency" (one_of ("rescue_box" ∷ [])) (street_furniture ∷ []))
    ∷ (arm "emergency" (one_of ("shower" ∷ [])) (street_furniture ∷ []))
    ∷ (arm "highway" (one_of ("bus_stop" ∷ [])) (transit ∷ []))
    ∷ (arm "highway" (one_of ("elevator" ∷ [])) (street_furniture ∷ []))
    ∷ (arm "highway" (one_of ("fake_speed_camera" ∷ [])) (street_furniture ∷ []))
    ∷ (arm "highway" (one_of ("ladder" ∷ [])) (street_furniture ∷ []))
    ∷ (arm "highway" (one_of ("milestone" ∷ [])) (street_furniture ∷ []))
    ∷ (arm "highway" (one_of ("speed_camera" ∷ [])) (street_furniture ∷ []))
    ∷ (arm "highway" (one_of ("street_lamp" ∷ [])) (street_furniture ∷ []))
    ∷ (arm "highway" (one_of ("traffic_sign" ∷ [])) (street_furniture ∷ []))
    ∷ (arm "highway" (one_of ("traffic_signals" ∷ [])) (street_furniture ∷ []))
    ∷ []

unfoldable pub other_arms : List Arm
other_arms =
    (arm "historic" (one_of ("boundary_stone" ∷ [])) (street_furniture ∷ []))
    ∷ (arm "historic" (one_of ("wayside_cross" ∷ [])) (street_furniture ∷ []))
    ∷ (arm "historic" (one_of ("wayside_shrine" ∷ [])) (street_furniture ∷ []))
    ∷ (arm "leisure" (one_of ("adult_gaming_centre" ∷ [])) (shop ∷ []))
    ∷ (arm "leisure" (one_of ("amusement_arcade" ∷ [])) (shop ∷ []))
    ∷ (arm "leisure" (one_of ("bandstand" ∷ [])) (street_furniture ∷ []))
    ∷ (arm "leisure" (one_of ("bird_hide" ∷ [])) (street_furniture ∷ []))
    ∷ (arm "leisure" (one_of ("bowling_alley" ∷ [])) (shop ∷ []))
    ∷ (arm "leisure" (one_of ("dance" ∷ [])) (shop ∷ []))
    ∷ (arm "leisure" (one_of ("fitness_centre" ∷ [])) (shop ∷ []))
    ∷ (arm "leisure" (one_of ("sports_centre" ∷ [])) (shop ∷ []))
    ∷ (arm "leisure" (one_of ("minigolf" ∷ [])) (shop ∷ []))
    ∷ (arm "leisure" (one_of ("firepit" ∷ [])) (street_furniture ∷ []))
    ∷ (arm "leisure" (one_of ("hot_tub" ∷ [])) (street_furniture ∷ []))
    ∷ (arm "leisure" (one_of ("playground" ∷ [])) (shop ∷ []))
    ∷ (arm "leisure" (one_of ("picnic_table" ∷ [])) (street_furniture ∷ []))
    ∷ (arm "leisure" (one_of ("resort" ∷ [])) (shop ∷ []))
    ∷ (arm "leisure" (one_of ("water_park" ∷ [])) (shop ∷ []))
    ∷ (arm "man_made" (one_of ("cutline" ∷ [])) ([]))
    ∷ (arm "man_made" (any_value) (street_furniture ∷ []))
    ∷ (arm "natural" (one_of ("bush" ∷ [])) (shrubbery ∷ []))
    ∷ (arm "natural" (one_of ("heath" ∷ [])) (shrubbery ∷ []))
    ∷ (arm "natural" (one_of ("plant" ∷ [])) (shrubbery ∷ []))
    ∷ (arm "natural" (one_of ("shrub" ∷ [])) (shrubbery ∷ []))
    ∷ (arm "natural" (one_of ("shrubbery" ∷ [])) (shrubbery ∷ []))
    ∷ (arm "natural" (one_of ("tree" ∷ [])) (shrubbery ∷ []))
    ∷ (arm "natural" (one_of ("trees" ∷ [])) (shrubbery ∷ []))
    ∷ (arm "natural" (one_of ("tree_group" ∷ [])) (shrubbery ∷ []))
    ∷ (arm "natural" (one_of ("tree_row" ∷ [])) (shrubbery ∷ []))
    ∷ (arm "power" (one_of ("cable" ∷ [])) ([]))
    ∷ (arm "power" (one_of ("line" ∷ [])) ([]))
    ∷ (arm "power" (one_of ("minor_cable" ∷ [])) ([]))
    ∷ (arm "power" (one_of ("minor_line" ∷ [])) ([]))
    ∷ (arm "power" (one_of ("no" ∷ [])) ([]))
    ∷ (arm "power" (one_of ("yes" ∷ [])) ([]))
    ∷ (arm "power" (any_value) (street_furniture ∷ []))
    ∷ (arm "public_transport" (one_of ("no" ∷ [])) ([]))
    ∷ (arm "public_transport" (one_of ("platform" ∷ [])) (transit ∷ large ∷ []))
    ∷ (arm "public_transport" (any_value) (transit ∷ []))
    ∷ (arm "railway" (one_of ("platform" ∷ [])) (transit ∷ large ∷ []))
    ∷ (arm "school" (one_of ("no" ∷ [])) ([]))
    ∷ (arm "school" (any_value) (school ∷ []))
    ∷ (arm "shop" (one_of ("no" ∷ [])) ([]))
    ∷ (arm "shop" (any_value) (shop ∷ []))
    ∷ (arm "tourism" (one_of ("alpine_hut" ∷ [])) (lodging ∷ []))
    ∷ (arm "tourism" (one_of ("apartment" ∷ [])) (lodging ∷ []))
    ∷ (arm "tourism" (one_of ("apartments" ∷ [])) (lodging ∷ []))
    ∷ (arm "tourism" (one_of ("cabin" ∷ [])) (lodging ∷ []))
    ∷ (arm "tourism" (one_of ("camp_site" ∷ [])) (lodging ∷ large ∷ []))
    ∷ (arm "tourism" (one_of ("caravan_site" ∷ [])) (lodging ∷ large ∷ []))
    ∷ (arm "tourism" (one_of ("guest_house" ∷ [])) (lodging ∷ []))
    ∷ (arm "tourism" (one_of ("hostel" ∷ [])) (lodging ∷ []))
    ∷ (arm "tourism" (one_of ("hotel" ∷ [])) (lodging ∷ []))
    ∷ (arm "tourism" (one_of ("hotel;motel" ∷ [])) (lodging ∷ []))
    ∷ (arm "tourism" (one_of ("motel" ∷ [])) (lodging ∷ []))
    ∷ (arm "tourism" (one_of ("museum" ∷ [])) (shop ∷ []))
    ∷ (arm "tourism" (one_of ("wilderness_hut" ∷ [])) (lodging ∷ []))
    ∷ (arm "tower" (any_value) (street_furniture ∷ []))
    ∷ []

unfoldable pub arms : List Arm
unfolding amenity_arms street_arms other_arms
arms = amenity_arms ++ (street_arms ++ other_arms)
