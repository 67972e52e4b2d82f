-- ===== src/Pipeline/Deletion/Runs.antt =====
-- A shop, a stop with an id and a stop without one.
use osmdiffs.Matchers.Infrastructure.Kinds.{kind_of_tag, kind_name}
use osmdiffs.Matchers.Transit.Identifiers.{uic_code, uic_of_number, swiss_uic, split_values}
use osmdiffs.Base.{ℕ, ◌≡◌, refl, true, false, none, some, [], ◌∷◌, inl, inr, list_eq}
use osmdiffs.Base.Predicates.{Any, IsIn}
use osmdiffs.Base.Search.{
  is_some_and, is_some, or_else, option_list, flat_map, filter_map, filter, all, any, and_then,
}
use osmdiffs.Base.Text.{
  before, is_ascii_digit, decimal, parse_digits, parse_uint, contains_text_in, ascii_lowercase,
  starts_with, strip_prefix, push_front, split, is_empty, is_whitespace, trim_end, trim_start, trim,
  chars, to_ascii_lowercase, is_ascii_alphabetic,
}
use osmdiffs.Matchers.Tags.{parse_wikidata_ids, parse_wikidata_id, is_one_of, Tags, Unicode}
use osmdiffs.Base.Distinct.{contains}
use osmdiffs.Matchers.Transit.Stops.{fallback_kind, main_kind, kind_from, from_tags, is_stop}
use osmdiffs.Base.Keyed.{get, update}
use osmdiffs.Matchers.MatchMask.{
  value_matches, tag_bits, intersects, has_only, add_tag, empty_mask, add_tags, mask_of_bits,
}
use osmdiffs.Matchers.MatchMask.Arms.{other_arms, street_arms, amenity_arms, arms, shop, transit}
use osmdiffs.Matchers.Score.{Place}
use osmdiffs.Pipeline.Deletion.Register.{swiss_register, is_home_country, in_swiss_home, World}
use osmdiffs.Pipeline.Deletion.Coverage.{
  country_eq, id_eq, is_abroad, infrastructure_of, has_swiss_ifopt, count_swiss, add_swiss_ids,
  add_id, place_country, add, has_swiss_stop_near, fold, swiss_ifopts, add_tag as add_tag_c,
  AtpCoverage, no_coverage, add_places, by_mask, covers_wikidata, has_swiss_transit,
}
use osmdiffs.Pipeline.Deletion.Covered.{stands_for, covers_wikidata-add_places}
use osmdiffs.Pipeline.Deletion.Adding.{HasIfopt, PlaceHas}
use osmdiffs.Pipeline.Deletion.Known.{deletion_reason-HasIfopt}
use osmdiffs.Pipeline.Deletion.Reasons.{deletion_reason-stands_for}
use osmdiffs.Pipeline.Deletion.Stops.{IsMissing, deletion_reason-IsMissing}
use osmdiffs.Pipeline.Deletion.{
  note_id, note_any, scan_tag, scan, names_of, covered_reason, brand_reason, home_reason,
  located_reason, stop_reason, wikidata, swiss_transit_stop, ids_of, kind_of, deletion_reason,
}

abbrev ascii : Unicode
ascii = record { to_lowercase = to_ascii_lowercase; is_alphanumeric = is_ascii_alphabetic }

abbrev switzerland : World ℕ
switzerland = record {
  country = λ l. some "CH";
  contains = λ r l. false;
  cell_at = λ l. l;
  center = λ c. c;
  parent = λ c. c;
  neighbors = λ c. [];
}

abbrev migros : Place
migros = record {
  spider = "migros_ch";
  s2_cell_id = 5;
  mask = mask_of_bits (shop ∷ []);
  tags = ("shop", "supermarket") ∷ (("brand:wikidata", "Q680727") ∷ []);
}

abbrev closed : Tags
closed = ("shop", "kiosk") ∷ (("brand:wikidata", "Q1;Q680727") ∷ [])

is_shop : kind_of closed ≡ some (by_mask (add_tags empty_mask closed))
unfolding is_one_of any all list_eq trim trim_start trim_end is_whitespace is_empty split push_front
    filter filter_map flat_map option_list and_then or_else strip_prefix starts_with
    to_ascii_lowercase ascii_lowercase is_some is_some_and contains_text_in parse_wikidata_id
    parse_wikidata_ids parse_uint parse_digits decimal is_ascii_digit has_only intersects
    mask_of_bits add_tag add_tags arms amenity_arms street_arms other_arms tag_bits value_matches
    kind_of
is_shop = refl

proposed :
    deletion_reason ascii switzerland
      (add_places ascii switzerland no_coverage (migros ∷ []))
      closed
      (some 7)
    ≡ some wikidata
unfolding is_one_of any all list_eq trim trim_start trim_end is_whitespace is_empty split push_front
    filter filter_map flat_map option_list and_then or_else strip_prefix starts_with
    to_ascii_lowercase ascii_lowercase is_some is_some_and contains_text_in parse_wikidata_id
    parse_wikidata_ids parse_uint parse_digits decimal is_ascii_digit has_only intersects
    mask_of_bits add_tag add_tags arms amenity_arms street_arms other_arms tag_bits value_matches
    deletion_reason stop_reason located_reason home_reason brand_reason covered_reason kind_of
    names_of ids_of scan scan_tag note_any note_id fold is_stop from_tags kind_from main_kind
    fallback_kind has_swiss_transit has_swiss_stop_near in_swiss_home is_home_country swiss_register
    contains split_values swiss_ifopts add_places add place_country add_tag_c add_id add_swiss_ids
    count_swiss has_swiss_ifopt infrastructure_of is_abroad update get id_eq country_eq
    covers_wikidata swiss_uic uic_of_number uic_code before kind_name kind_of_tag
proposed = refl

deletion_reason-stands_for_example :
    (n : ℕ) × (IsIn n (ids_of closed)
      × Any
          (λ p.
            stands_for switzerland n
              (and_then (some 7) (switzerland.country))
              (add_tags empty_mask closed)
              p
            ≡ true)
          (migros ∷ []))
deletion_reason-stands_for_example =
    deletion_reason-stands_for ascii switzerland (migros ∷ []) closed (some 7)
      (add_tags empty_mask closed) is_shop proposed

covers_wikidata-add_places_example :
    covers_wikidata
      (add_places ascii switzerland no_coverage (migros ∷ []))
      (some "CH")
      (by_mask (mask_of_bits (shop ∷ [])))
      680727
    ≡ any (stands_for switzerland 680727 (some "CH") (mask_of_bits (shop ∷ []))) (migros ∷ [])
covers_wikidata-add_places_example =
    covers_wikidata-add_places ascii switzerland 680727 (some "CH") (mask_of_bits (shop ∷ []))
      (migros ∷ [])

-- The register, with more stops than are listed.
abbrev register : AtpCoverage
register = record {
  wikidata = [];
  names = [];
  infrastructure_wikidata = [];
  infrastructure_names = [];
  swiss_ifopt = [];
  swiss_uics = [];
  swiss_cells = [];
  swiss_transit_features = 10000;
}

abbrev quay : Place
quay = record {
  spider = "opentransportdata_swiss";
  s2_cell_id = 5;
  mask = mask_of_bits (transit ∷ []);
  tags = ("ref:IFOPT", "ch:1:sloid:3000") ∷ [];
}

abbrev known : Tags
known = ("highway", "bus_stop") ∷ (("ref:sloid", "CH:1:sloid:3000") ∷ [])

has_known : HasIfopt (chars "ch:1:sloid:3000") known
unfolding is_one_of any all list_eq trim trim_start trim_end is_whitespace is_empty split push_front
    filter filter_map flat_map option_list and_then or_else strip_prefix starts_with
    to_ascii_lowercase ascii_lowercase is_some is_some_and contains_text_in swiss_ifopts
    split_values
has_known = inr (inl (refl, inl refl))

quay_has : Any (PlaceHas (chars "ch:1:sloid:3000")) (quay ∷ [])
unfolding is_one_of any all list_eq trim trim_start trim_end is_whitespace is_empty split push_front
    filter filter_map flat_map option_list and_then or_else strip_prefix starts_with
    to_ascii_lowercase ascii_lowercase is_some is_some_and contains_text_in swiss_ifopts
    split_values
quay_has = inl (inl (refl, inl refl))

known_is_stop : is_stop known ≡ true
unfolding is_one_of any all list_eq trim trim_start trim_end is_whitespace is_empty split push_front
    filter filter_map flat_map option_list and_then or_else strip_prefix starts_with
    to_ascii_lowercase ascii_lowercase is_some is_some_and contains_text_in is_stop from_tags
    kind_from main_kind fallback_kind
known_is_stop = refl

has_register : has_swiss_transit (add_places ascii switzerland register (quay ∷ [])) ≡ true
unfolding is_one_of any all list_eq trim trim_start trim_end is_whitespace is_empty split push_front
    filter filter_map flat_map option_list and_then or_else strip_prefix starts_with
    to_ascii_lowercase ascii_lowercase is_some is_some_and contains_text_in parse_wikidata_id
    parse_wikidata_ids parse_uint parse_digits decimal is_ascii_digit has_only intersects
    mask_of_bits add_tag add_tags arms amenity_arms street_arms other_arms tag_bits value_matches
    deletion_reason stop_reason located_reason home_reason brand_reason covered_reason kind_of
    names_of ids_of scan scan_tag note_any note_id fold is_stop from_tags kind_from main_kind
    fallback_kind has_swiss_transit has_swiss_stop_near in_swiss_home is_home_country swiss_register
    contains split_values swiss_ifopts add_places add place_country add_tag_c add_id add_swiss_ids
    count_swiss has_swiss_ifopt infrastructure_of is_abroad update get id_eq country_eq
    covers_wikidata swiss_uic uic_of_number uic_code before kind_name kind_of_tag
has_register = refl

deletion_reason-HasIfopt_example :
    deletion_reason ascii switzerland
      (add_places ascii switzerland register (quay ∷ []))
      known
      (some 7)
    ≡ none
deletion_reason-HasIfopt_example =
    deletion_reason-HasIfopt ascii switzerland register (quay ∷ []) known (some 7)
      (chars "ch:1:sloid:3000") quay_has has_known known_is_stop has_register

abbrev bare : Tags
bare = ("highway", "bus_stop") ∷ []

missing : deletion_reason ascii switzerland register bare (some 7) ≡ some swiss_transit_stop
unfolding is_one_of any all list_eq trim trim_start trim_end is_whitespace is_empty split push_front
    filter filter_map flat_map option_list and_then or_else strip_prefix starts_with
    to_ascii_lowercase ascii_lowercase is_some is_some_and contains_text_in deletion_reason
    stop_reason located_reason home_reason brand_reason covered_reason kind_of names_of ids_of scan
    scan_tag note_any note_id fold is_stop from_tags kind_from main_kind fallback_kind
    has_swiss_transit has_swiss_stop_near in_swiss_home is_home_country swiss_register contains
    split_values swiss_ifopts
missing = refl

deletion_reason-IsMissing_example :
    IsMissing ascii switzerland register bare (some 7)
    × ((is_stop bare ≡ true) × (has_swiss_transit register ≡ true))
deletion_reason-IsMissing_example =
    deletion_reason-IsMissing ascii switzerland register bare (some 7) missing
