-- ===== src/Pipeline/Deletion/Coverage.antt =====
-- src/pipeline/conflate/deletion.rs: what AllThePlaces covers.
use Prim.Native.String.{String}
use text.Mathlib.Text.{◌==◌ as str_eq}
use osmdiffs.Base.{
  ℕ, ◌+◌, ◌%◌, ◌^◌, Bool, true, false, not, ◌&&◌, ◌||◌, Option, none, some, List, [], ◌∷◌, ◌++◌,
  map, length, leb, ◌==◌, list_eq, if◌then◌else◌,
}
use osmdiffs.Base.Search.{any, filter, filter_map, is_some_and}
use osmdiffs.Base.Distinct.{contains}
use osmdiffs.Base.Keyed.{get, update}
use osmdiffs.Base.Text.{Text, chars, is_empty, starts_with, to_ascii_lowercase}
use osmdiffs.Matchers.Tags.{Tag, Tags, Unicode, is_one_of, parse_wikidata_ids, normalize_name}
use osmdiffs.Matchers.MatchMask.{MatchMask, empty_mask, union, has_only, intersects}
use osmdiffs.Matchers.MatchMask.Arms.{street_furniture}
use osmdiffs.Matchers.Infrastructure.Kinds.{kind_name}
use osmdiffs.Matchers.Transit.Identifiers.{ifopt_keys, split_values, swiss_uic}
use osmdiffs.Matchers.Score.{Place}
use osmdiffs.Pipeline.Deletion.Register.{Country, World, is_home_country}

abbrev pub wikidata_keys : List String
wikidata_keys = "brand:wikidata" ∷ ("network:wikidata" ∷ ("operator:wikidata" ∷ []))

abbrev pub name_keys : List String
name_keys = "brand" ∷ ("network" ∷ ("operator" ∷ []))

abbrev pub min_name_features : ℕ
min_name_features = 3

abbrev pub max_name_values : ℕ
max_name_values = 3

abbrev pub min_swiss_transit_features : ℕ
min_swiss_transit_features = 10000

-- What is counted by country: a Wikidata id or a name, and for infrastructure its kind.
abbrev pub IdKey : Type 0
IdKey = ℕ × Option Country

abbrev pub NameKey : Type 0
NameKey = Text × Option Country

unfoldable pub country_eq : Option Country → Option Country → Bool
country_eq none none = true
country_eq none (some d) = false
country_eq (some c) none = false
country_eq (some c) (some d) = str_eq c d

unfoldable pub id_eq : IdKey → IdKey → Bool
unfolding country_eq
id_eq k l = (k.0 == l.0) && country_eq (k.1) (l.1)

unfoldable pub name_eq : NameKey → NameKey → Bool
unfolding country_eq
name_eq k l = list_eq (k.0) (l.0) && country_eq (k.1) (l.1)

unfoldable pub id_kind_eq : IdKey × String → IdKey × String → Bool
unfolding id_eq
id_kind_eq k l = id_eq (k.0) (l.0) && str_eq (k.1) (l.1)

unfoldable pub name_kind_eq : NameKey × String → NameKey × String → Bool
unfolding name_eq
name_kind_eq k l = name_eq (k.0) (l.0) && str_eq (k.1) (l.1)

pub record AtpCoverage : Type 0 where
  pub wikidata : List (IdKey × MatchMask)
  pub names : List (NameKey × (MatchMask × ℕ))
  pub infrastructure_wikidata : List (IdKey × String)
  pub infrastructure_names : List ((NameKey × String) × ℕ)
  pub swiss_ifopt : List Text
  pub swiss_uics : List Text
  pub swiss_cells : List ℕ
  pub swiss_transit_features : ℕ

abbrev pub no_coverage : AtpCoverage
no_coverage = record {
  wikidata = [];
  names = [];
  infrastructure_wikidata = [];
  infrastructure_names = [];
  swiss_ifopt = [];
  swiss_uics = [];
  swiss_cells = [];
  swiss_transit_features = 0;
}

unfoldable pub swiss_ifopts : Text → List Text
swiss_ifopts value =
    filter (starts_with (chars "ch:")) (map to_ascii_lowercase (split_values value))

unfoldable pub swiss_uics_in : Text → List Text
swiss_uics_in value = filter (starts_with (chars "85")) (split_values value)

unfoldable pub infrastructure_of : MatchMask → Tags → Option String
infrastructure_of mask tags = if has_only mask street_furniture then kind_name tags else none

module _ {Location : Type 0} (world : World Location) where
  unfoldable pub place_country : Place → Option Country
  place_country place =
      if any (λ t. is_one_of wikidata_keys (t.0) || is_one_of name_keys (t.0)) (place.tags)
      then world.country (world.center (place.s2_cell_id))
      else none

-- A stop of the Swiss register outside its home countries.
unfoldable pub is_abroad : Tags → Option Country → Bool
unfolding swiss_ifopts
is_abroad tags country =
    any (λ t. is_one_of ifopt_keys (t.0) && not (is_empty (swiss_ifopts (chars (t.1))))) tags
    && not (is_some_and is_home_country country)

unfoldable pub add_id : MatchMask → Option Country → Option String → AtpCoverage → ℕ → AtpCoverage
add_id mask country none c id = record {
  wikidata = update id_eq (id, country) empty_mask (λ m. union m mask) (c.wikidata);
  names = c.names;
  infrastructure_wikidata = c.infrastructure_wikidata;
  infrastructure_names = c.infrastructure_names;
  swiss_ifopt = c.swiss_ifopt;
  swiss_uics = c.swiss_uics;
  swiss_cells = c.swiss_cells;
  swiss_transit_features = c.swiss_transit_features;
}
add_id mask country (some kind) c id = record {
  wikidata = c.wikidata;
  names = c.names;
  infrastructure_wikidata = ((id, country), kind) ∷ c.infrastructure_wikidata;
  infrastructure_names = c.infrastructure_names;
  swiss_ifopt = c.swiss_ifopt;
  swiss_uics = c.swiss_uics;
  swiss_cells = c.swiss_cells;
  swiss_transit_features = c.swiss_transit_features;
}

-- Counters are of 32 bits.
unfoldable pub add_name :
    MatchMask → Option Country → Option String → AtpCoverage → Text → AtpCoverage
add_name mask country none c name = record {
  wikidata = c.wikidata;
  names =
      update name_eq (name, country) (empty_mask, 0) (λ e. (union (e.0) mask, (e.1 + 1) % 2 ^ 32))
        (c.names);
  infrastructure_wikidata = c.infrastructure_wikidata;
  infrastructure_names = c.infrastructure_names;
  swiss_ifopt = c.swiss_ifopt;
  swiss_uics = c.swiss_uics;
  swiss_cells = c.swiss_cells;
  swiss_transit_features = c.swiss_transit_features;
}
add_name mask country (some kind) c name = record {
  wikidata = c.wikidata;
  names = c.names;
  infrastructure_wikidata = c.infrastructure_wikidata;
  infrastructure_names =
      update name_kind_eq ((name, country), kind) 0 (λ n. (n + 1) % 2 ^ 32)
        (c.infrastructure_names);
  swiss_ifopt = c.swiss_ifopt;
  swiss_uics = c.swiss_uics;
  swiss_cells = c.swiss_cells;
  swiss_transit_features = c.swiss_transit_features;
}

unfoldable pub add_swiss_ids : AtpCoverage → List Text → List Text → AtpCoverage
add_swiss_ids c ifopts uics = record {
  wikidata = c.wikidata;
  names = c.names;
  infrastructure_wikidata = c.infrastructure_wikidata;
  infrastructure_names = c.infrastructure_names;
  swiss_ifopt = ifopts ++ c.swiss_ifopt;
  swiss_uics = uics ++ c.swiss_uics;
  swiss_cells = c.swiss_cells;
  swiss_transit_features = c.swiss_transit_features;
}

unfoldable pub fold {ℓ κ} : {A : Type ℓ} {B : Type κ} → (B → A → B) → B → List A → B
fold f b [] = b
fold f b (x ∷ xs) = fold f (f b x) xs

module _ (unicode : Unicode) (mask : MatchMask) (country : Option Country)
    (infrastructure : Option String) (abroad : Bool) where
  -- One round of the loop over the tags of a place.
  unfoldable pub add_tag : AtpCoverage → Tag → AtpCoverage
  unfolding add_id add_name add_swiss_ids
  add_tag c (key, value) =
      if abroad && (is_one_of wikidata_keys key || is_one_of name_keys key)
      then c
      else if is_one_of wikidata_keys key
      then fold (add_id mask country infrastructure) c (parse_wikidata_ids value)
      else if is_one_of name_keys key
      then fold (add_name mask country infrastructure) c
          (map (normalize_name unicode) (split_values (chars value)))
      else if is_one_of ifopt_keys key
      then add_swiss_ids c (swiss_ifopts (chars value))
          (filter_map swiss_uic (swiss_ifopts (chars value)))
      else if str_eq key "uic_ref"
      then add_swiss_ids c [] (swiss_uics_in (chars value))
      else c

-- The flag `swiss` of the loop; the keys of IFOPT ids are none of the other keys.
unfoldable pub has_swiss_ifopt : Tags → Bool
unfolding swiss_ifopts
has_swiss_ifopt tags =
    any (λ t. is_one_of ifopt_keys (t.0) && not (is_empty (swiss_ifopts (chars (t.1))))) tags

unfoldable pub count_swiss : ℕ → AtpCoverage → AtpCoverage
count_swiss cell c = record {
  wikidata = c.wikidata;
  names = c.names;
  infrastructure_wikidata = c.infrastructure_wikidata;
  infrastructure_names = c.infrastructure_names;
  swiss_ifopt = c.swiss_ifopt;
  swiss_uics = c.swiss_uics;
  swiss_cells = cell ∷ c.swiss_cells;
  swiss_transit_features = (c.swiss_transit_features + 1) % 2 ^ 64;
}

unfoldable pub has_swiss_transit : AtpCoverage → Bool
has_swiss_transit c = leb min_swiss_transit_features (c.swiss_transit_features)

unfoldable pub num_wikidata_countries : AtpCoverage → ℕ
num_wikidata_countries c = length (c.wikidata)

unfoldable pub num_name_countries : AtpCoverage → ℕ
num_name_countries c = length (c.names)

-- What kind of thing a feature is.
pub data FeatureKind : Type 0 where
  by_mask : MatchMask → FeatureKind
  infrastructure : String → FeatureKind

unfoldable pub covers_wikidata : AtpCoverage → Option Country → FeatureKind → ℕ → Bool
unfolding id_eq id_kind_eq
covers_wikidata c country (by_mask mask) id =
    is_some_and (λ m. intersects m mask) (get id_eq (id, country) (c.wikidata))
covers_wikidata c country (infrastructure kind) id =
    any (λ k. id_kind_eq k ((id, country), kind)) (c.infrastructure_wikidata)

unfoldable pub covers_name : AtpCoverage → Option Country → FeatureKind → Text → Bool
unfolding name_eq name_kind_eq
covers_name c country (by_mask mask) name =
    is_some_and (λ e. intersects (e.0) mask && leb min_name_features (e.1))
      (get name_eq (name, country) (c.names))
covers_name c country (infrastructure kind) name =
    is_some_and (leb min_name_features)
      (get name_kind_eq ((name, country), kind) (c.infrastructure_names))

module _ {Location : Type 0} (unicode : Unicode) (world : World Location) where
  unfoldable pub add : AtpCoverage → Place → Option Country → AtpCoverage
  unfolding add_tag fold count_swiss has_swiss_ifopt infrastructure_of is_abroad
  add c place country =
      let added =
        fold
          (add_tag unicode (place.mask) country (infrastructure_of (place.mask) (place.tags))
            (is_abroad (place.tags) country))
          c (place.tags) in
      if has_swiss_ifopt (place.tags)
      then count_swiss (world.parent (place.s2_cell_id)) added
      else added

  -- All places, each with its country.
  unfoldable pub add_places : AtpCoverage → List Place → AtpCoverage
  unfolding add place_country
  add_places c [] = c
  add_places c (p ∷ ps) = add_places (add c p (place_country world p)) ps

module _ {Location : Type 0} (world : World Location) where
  unfoldable pub has_swiss_stop_near : AtpCoverage → Location → Bool
  has_swiss_stop_near c location =
      let cell = world.parent (world.cell_at location) in
      contains (c.swiss_cells) cell || any (λ n. contains (c.swiss_cells) n) (world.neighbors cell)
