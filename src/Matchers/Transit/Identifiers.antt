-- ===== src/Matchers/Transit/Identifiers.antt =====
-- src/matchers/transit_matcher.rs: the IFOPT ids and UIC codes of stops, and how they compare.
use Prim.Native.String.{String}
use text.Mathlib.Text.{◌==◌ as str_eq}
use osmdiffs.Base.{
  ℕ, suc, ◌-◌, Bool, true, false, not, ◌&&◌, ◌||◌, Option, none, some, List, [], ◌∷◌, ◌++◌, map,
  ltb, ◌==◌, list_eq, length, replicate, if◌then◌else◌,
}
use osmdiffs.Base.Search.{any, all, filter, filter_map, and_then, is_some_and}
use osmdiffs.Base.Text.{
  Text, chars, is_empty, is_ascii_digit, split, before, trim, strip_prefix, starts_with,
  to_ascii_lowercase, contains_text_in,
}
use osmdiffs.Base.Ordered.{sort_texts, dedup}
use osmdiffs.Matchers.Tags.{Tags, is_one_of}

abbrev pub ifopt_keys : List String
ifopt_keys = "ref:IFOPT" ∷ ("ref:sloid" ∷ ("railway:ref:sloid" ∷ []))

unfoldable pub split_values : Text → List Text
split_values value = filter (λ s. not (is_empty s)) (map trim (split (λ c. c == b';') value))

abbrev pub swiss_prefix : Text
swiss_prefix = chars "ch:1:sloid:"

-- `format!("85{number:0>5}")`.
unfoldable pub uic_code : Text → Text
uic_code number = b'8' ∷ (b'5' ∷ (replicate (5 - length number) b'0' ++ number))

unfoldable pub uic_of_number : Text → Option Text
unfolding uic_code
uic_of_number number =
    if is_empty number || (ltb 5 (length number) || not (all is_ascii_digit number))
    then none
    else some (uic_code number)

unfoldable pub swiss_uic : Text → Option Text
unfolding uic_of_number
swiss_uic ifopt =
    and_then (strip_prefix swiss_prefix ifopt) (λ rest. uic_of_number (before b':' rest))

pub record Ids : Type 0 where
  pub ifopt : List Text
  pub uic : List Text

-- The loop over the tags, before the codes are sorted.
unfoldable pub collect_ids : Ids → Tags → Ids
unfolding split_values swiss_uic
collect_ids ids [] = ids
collect_ids ids ((key, value) ∷ tags) =
    collect_ids
      (if is_one_of ifopt_keys key
        then record {
          ifopt = ids.ifopt ++ map to_ascii_lowercase (split_values (chars value));
          uic =
              ids.uic ++ filter_map swiss_uic (map to_ascii_lowercase (split_values (chars value)));
        }
        else if str_eq key "uic_ref"
        then record { ifopt = ids.ifopt; uic = ids.uic ++ split_values (chars value) }
        else ids)
      tags

unfoldable pub ids_from_tags : Tags → Ids
unfolding collect_ids
ids_from_tags tags =
    let ids = collect_ids (record { ifopt = []; uic = [] }) tags in
    record { ifopt = ids.ifopt; uic = dedup (sort_texts (ids.uic)) }

unfoldable pub has_no_ids : Ids → Bool
has_no_ids ids = is_empty (ids.ifopt) && is_empty (ids.uic)

-- The text up to where the fields are complete, and the rest, from its colon on.
unfoldable pub cut_fields : ℕ → Text → Text × Text
cut_fields n [] = ([], [])
cut_fields n (c ∷ s) =
    let next = cut_fields (if c == b':' then n - 1 else n) s in
    if (c == b':') && (n == 1) then ([], c ∷ s) else (c ∷ next.0, next.1)

unfoldable pub count_colons : Text → ℕ
count_colons [] = 0
count_colons (c ∷ s) = if c == b':' then suc (count_colons s) else count_colons s

unfoldable pub stop_fields : Text → ℕ
stop_fields id = if starts_with swiss_prefix id then 4 else 3

unfoldable pub ifopt_stop : Text → Text × ℕ
unfolding cut_fields count_colons stop_fields
ifopt_stop id =
    ((cut_fields (stop_fields id) id).0, count_colons ((cut_fields (stop_fields id) id).1))

unfoldable pub is_within : Text → Text → Bool
is_within part whole = is_some_and (starts_with (b':' ∷ [])) (strip_prefix whole part)

pub data IdEvidence : Type 0 where
  same same_stop different unknown : IdEvidence

-- What the loop over pairs of ids has found.
pub record Flags : Type 0 where
  pub found_same_stop : Bool
  pub found_different : Bool

unfoldable pub flags : Bool → Bool → Flags
flags s d = record { found_same_stop = s; found_different = d }

unfoldable pub is_comparable : Text → Text → Bool
is_comparable a o = list_eq (before b':' a) (before b':' o)

-- Both name one stop, and one of them a part of what the other names.
unfoldable pub is_same_stop : Text → Text → Bool
unfolding ifopt_stop is_within
is_same_stop a o =
    list_eq ((ifopt_stop a).0) ((ifopt_stop o).0)
    && (not ((ifopt_stop a).1 == (ifopt_stop o).1) && (is_within a o || is_within o a))

unfoldable pub compare_pair : Flags → Text → Text → Flags
unfolding is_comparable is_same_stop flags
compare_pair f a o =
    if not (is_comparable a o)
    then f
    else if is_same_stop a o
    then flags true (f.found_different)
    else flags (f.found_same_stop) true

unfoldable pub compare_row : Flags → Text → List Text → Flags
unfolding compare_pair
compare_row f a [] = f
compare_row f a (o ∷ os) = compare_row (compare_pair f a o) a os

unfoldable pub compare_rows : Flags → List Text → List Text → Flags
unfolding compare_row
compare_rows f [] os = f
compare_rows f (a ∷ rest) os = compare_rows (compare_row f a os) rest os

unfoldable pub share_text : List Text → List Text → Bool
share_text xs ys = any (λ x. contains_text_in ys x) xs

unfoldable pub compare_uic : Flags → List Text → List Text → Flags
unfolding flags share_text
compare_uic f atp osm =
    if is_empty atp || is_empty osm
    then f
    else if share_text atp osm
    then flags true (f.found_different)
    else flags (f.found_same_stop) true

unfoldable pub evidence_of : Flags → IdEvidence
evidence_of f =
    if f.found_different then different else if f.found_same_stop then same_stop else unknown

unfoldable pub compare_ids : Ids → Ids → IdEvidence
unfolding share_text compare_rows compare_uic evidence_of flags
compare_ids atp osm =
    if share_text (atp.ifopt) (osm.ifopt)
    then same
    else evidence_of
        (compare_uic (compare_rows (flags false false) (atp.ifopt) (osm.ifopt)) (atp.uic) (osm.uic))
