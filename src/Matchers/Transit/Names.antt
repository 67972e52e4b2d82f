-- ===== src/Matchers/Transit/Names.antt =====
-- src/matchers/transit_matcher.rs: numbers of platforms, and names of stops.
use Prim.Native.String.{String}
use text.Mathlib.Text.{◌==◌ as str_eq}
use osmdiffs.Base.{
  ℕ, suc, Bool, true, false, not, ◌&&◌, ◌||◌, List, [], ◌∷◌, map, leb, ◌==◌, list_eq, length,
  if◌then◌else◌,
}
use osmdiffs.Base.Search.{any, all, filter, flat_map, is_some_and}
use osmdiffs.Base.Text.{
  Text, chars, is_empty, is_ascii_digit, is_ascii_alphabetic, split, split_once, join, trim,
  trim_start, contains_text_in,
}
use osmdiffs.Base.Ordered.{sort_texts, dedup}
use osmdiffs.Matchers.Tags.{Tags, Unicode}

-- `take_while(is_ascii_digit).count()`.
unfoldable pub leading_digits : Text → ℕ
leading_digits [] = 0
leading_digits (c ∷ s) = let rest = leading_digits s in if is_ascii_digit c then suc rest else 0

unfoldable pub is_track_number : Text → Bool
unfolding leading_digits
is_track_number value =
    let rest = trim_start is_ascii_digit value in
    leb (leading_digits value) 2
    && (leb (length rest) 1 && (all is_ascii_alphabetic rest && not (is_empty value)))

unfoldable pub values_of : Unicode → String → Tags → List Text
values_of unicode key tags = map (unicode.to_lowercase) (
    filter (λ v. not (is_empty v))
      (map trim (
        flat_map (λ t. split (λ c. (c == b';') || (c == b'/')) (chars (t.1)))
          (filter (λ t. str_eq (t.0) key) tags))))

unfoldable pub local_refs : Unicode → Tags → List Text
unfolding values_of is_track_number
local_refs unicode tags =
    let refs = values_of unicode "local_ref" tags in
    let others = values_of unicode "ref" tags in
    dedup (
      sort_texts
        (if is_empty refs then (if all is_track_number others then others else []) else refs))

unfoldable pub texts_eq : List Text → List Text → Bool
texts_eq [] [] = true
texts_eq [] (t ∷ ts) = false
texts_eq (s ∷ ss) [] = false
texts_eq (s ∷ ss) (t ∷ ts) = list_eq s t && texts_eq ss ts

-- In tenths.
unfoldable pub local_ref_factor : List Text → List Text → ℕ
unfolding texts_eq
local_ref_factor atp osm =
    if is_empty atp || is_empty osm
    then 8
    else if texts_eq atp osm
    then 10
    else if any (λ r. contains_text_in osm r) atp
    then 6
    else 0

unfoldable pub name_words : Unicode → Text → Text
name_words unicode name = join (
    filter (λ w. not (is_empty w))
      (split (λ c. not (unicode.is_alphanumeric c) && not (c == b'+')) name))

-- `short` is `long` without its place.
unfoldable pub is_short : Unicode → Text → Text → Bool
unfolding name_words
is_short unicode long short =
    not (any (λ c. c == b',') short)
    && is_some_and (λ parts. list_eq (name_words unicode (parts.1)) (name_words unicode short))
        (split_once b',' long)

-- In hundredths.
unfoldable pub name_factor : Unicode → Text → Text → ℕ
unfolding is_short
name_factor unicode a b =
    if list_eq (name_words unicode a) (name_words unicode b)
    then 40
    else if is_short unicode a b || is_short unicode b a
    then 35
    else 0
