-- ===== src/Matchers/Transit/Runs.antt =====
-- Two quays of a Swiss stop.
use osmdiffs.Matchers.Score.{no_match, score_at}
use osmdiffs.Base.Ordered.{text_leb, insert_text, sort_texts, dedup}
use osmdiffs.Base.Search.{or_else, and_then, option_list, flat_map, filter_map, filter, any, all}
use osmdiffs.Base.{list_eq, ◌*◌, ◌≤◌, ◌<◌, ◌≡◌, refl, none, some, [], ◌∷◌, ◌++◌, inl, arith}
use osmdiffs.Base.Text.{
  contains_text_in, ascii_lowercase, push_front, split, is_empty, is_whitespace, trim_end,
  trim_start, trim, is_ascii_digit, starts_with, strip_prefix, before, Text, chars,
  to_ascii_lowercase, is_ascii_alphabetic,
}
use osmdiffs.Matchers.Tags.{is_one_of, Tags, Unicode}
use osmdiffs.Matchers.Transit.{
  scaled, factor_by_ids, is_bus_stop, fit_of, factor_of_kind, factor_if_stop, TransitMatcher,
  factor, score_osm_candidate,
}
use osmdiffs.Matchers.Transit.Stops.{
  from_tags, implied_modes, explicit_modes, modes_from, modes_from_tags, fallback_kind, main_kind,
  kind_from, platform, station, train, bus, fit, compatible,
}
use osmdiffs.Matchers.Transit.Identifiers.{
  share_text, uic_code, uic_of_number, split_values, collect_ids, Ids, ids_from_tags, compare_ids,
  swiss_uic, ifopt_stop,
}
use osmdiffs.Matchers.Transit.Names.{local_ref_factor, name_factor}
use osmdiffs.Matchers.Transit.Symmetry.{compare_ids_comm, factors_comm}
use osmdiffs.Matchers.Transit.Codes.{
  IsSwissCode, swiss_uic-IsSwissCode, StartsAtColon, colons, StopHas, ifopt_stop-append,
}
use osmdiffs.Matchers.Transit.Scores.{SameId, score-SameId}

abbrev ascii : Unicode
ascii = record { to_lowercase = to_ascii_lowercase; is_alphanumeric = is_ascii_alphabetic }

abbrev quay3 : Text
quay3 = chars "ch:1:sloid:3000:3:4"

abbrev matcher : TransitMatcher
matcher = record {
  kind = platform;
  modes = [];
  ids = record { ifopt = quay3 ∷ []; uic = chars "8503000" ∷ [] };
  refs = [];
  name = none;
  max_meters = 1000;
}

abbrev right : Tags
right = ("public_transport", "platform") ∷ (("ref:IFOPT", "CH:1:sloid:3000:3:4") ∷ [])

abbrev wrong : Tags
wrong = ("public_transport", "platform") ∷ (("uic_ref", "8503000") ∷ [])

shared : SameId matcher right
unfolding ids_from_tags collect_ids is_one_of split_values swiss_uic uic_of_number uic_code before
    strip_prefix starts_with all any is_ascii_digit dedup sort_texts insert_text text_leb list_eq
    trim trim_start trim_end is_whitespace is_empty split push_front filter filter_map flat_map
    option_list and_then to_ascii_lowercase ascii_lowercase
shared = (quay3, (inl refl, inl refl))

scores : 0 < score_osm_candidate ascii matcher right (some 0)
unfolding ids_from_tags collect_ids is_one_of split_values swiss_uic uic_of_number uic_code before
    strip_prefix starts_with all any is_ascii_digit dedup sort_texts insert_text text_leb list_eq
    trim trim_start trim_end is_whitespace is_empty split push_front filter filter_map flat_map
    option_list and_then to_ascii_lowercase ascii_lowercase score_osm_candidate factor
    factor_if_stop factor_of_kind fit_of is_bus_stop fit from_tags kind_from main_kind fallback_kind
    or_else compatible factor_by_ids scaled compare_ids share_text contains_text_in score_at
    modes_from_tags modes_from explicit_modes implied_modes no_match
scores = omega arith

not_shared : ¬ SameId matcher wrong
unfolding ids_from_tags collect_ids is_one_of split_values swiss_uic uic_of_number uic_code before
    strip_prefix starts_with all any is_ascii_digit dedup sort_texts insert_text text_leb list_eq
    trim trim_start trim_end is_whitespace is_empty split push_front filter filter_map flat_map
    option_list and_then to_ascii_lowercase ascii_lowercase
not_shared (id, (h, k)) = k

score-SameId_example :
    (8100 * (factor ascii matcher right).radius ≤ score_osm_candidate ascii matcher right (some 0))
    × (score_osm_candidate ascii matcher wrong (some 0)
        ≤ 8000 * (factor ascii matcher wrong).radius)
score-SameId_example =
    score-SameId ascii matcher right wrong (some 0) (some 0) shared scores not_shared

code : swiss_uic quay3 ≡ some (chars "8503000")
unfolding ids_from_tags collect_ids is_one_of split_values swiss_uic uic_of_number uic_code before
    strip_prefix starts_with all any is_ascii_digit dedup sort_texts insert_text text_leb list_eq
    trim trim_start trim_end is_whitespace is_empty split push_front filter filter_map flat_map
    option_list and_then to_ascii_lowercase ascii_lowercase
code = refl

swiss_uic-IsSwissCode_example : IsSwissCode (chars "8503000")
swiss_uic-IsSwissCode_example = swiss_uic-IsSwissCode quay3 (chars "8503000") code

ifopt_stop-append_example :
    (rest : Text) × (((ifopt_stop quay3).0 ++ rest ≡ quay3)
      × (StartsAtColon rest
          × (((ifopt_stop quay3).1 ≡ colons rest) × StopHas quay3 (colons ((ifopt_stop quay3).0)))))
ifopt_stop-append_example = ifopt_stop-append quay3

abbrev stop : Ids
stop = record { ifopt = chars "ch:1:sloid:3000" ∷ []; uic = [] }

compare_ids_comm_example : compare_ids (matcher.ids) stop ≡ compare_ids stop (matcher.ids)
compare_ids_comm_example = compare_ids_comm (matcher.ids) stop

factors_comm_example :
    (fit platform station ≡ fit station platform)
    × ((compatible (train ∷ []) (bus ∷ []) ≡ compatible (bus ∷ []) (train ∷ []))
        × ((local_ref_factor (chars "3" ∷ []) [] ≡ local_ref_factor [] (chars "3" ∷ []))
            × (name_factor ascii (chars "Central") (chars "Bern, Central")
                ≡ name_factor ascii (chars "Bern, Central") (chars "Central"))))
factors_comm_example =
    factors_comm ascii platform station (train ∷ []) (bus ∷ []) (chars "3" ∷ []) []
      (chars "Central") (chars "Bern, Central")
