-- ===== src/Matchers/Tags.antt =====
-- Tags of features, and the names and Wikidata ids in them (src/matchers/mod.rs).
use Prim.Native.String.{String}
use text.Mathlib.Text.{◌==◌ as str_eq}
use osmdiffs.Base.{ℕ, ◌^◌, Bool, Option, none, some, List, [], ◌∷◌, ◌==◌, if◌then◌else◌}
use osmdiffs.Base.Search.{any, find_map, filter_map, or_else, and_then}
use osmdiffs.Base.Text.{Text, chars, split, split_whitespace, join, trim, strip_prefix, parse_uint}

abbrev pub Tag : Type 0
Tag = String × String

abbrev pub Tags : Type 0
Tags = List Tag

-- `[...].contains(&key)`.
unfoldable pub is_one_of : List String → String → Bool
is_one_of keys key = any (λ k. str_eq k key) keys

-- The value of the first tag with a key.
unfoldable pub tag_value : String → Tags → Option String
tag_value key tags = find_map (λ t. if str_eq (t.0) key then some (t.1) else none) tags

unfoldable pub parse_wikidata_id : Text → Option ℕ
parse_wikidata_id s =
    let trimmed = trim s in
    and_then (or_else (strip_prefix (b'Q' ∷ []) trimmed) (strip_prefix (b'q' ∷ []) trimmed))
      (parse_uint (2 ^ 64))

unfoldable pub parse_wikidata_ids : String → List ℕ
unfolding parse_wikidata_id
parse_wikidata_ids value = filter_map parse_wikidata_id (split (λ c. c == b';') (chars value))

-- The tables of Unicode that the standard library uses.
pub record Unicode : Type 0 where
  pub to_lowercase : Text → Text
  pub is_alphanumeric : ℕ → Bool

unfoldable pub normalize_name : Unicode → Text → Text
normalize_name unicode name = unicode.to_lowercase (join (split_whitespace name))
