-- ===== src/Matchers/Address/Runs.antt =====
-- A Swiss address.
use osmdiffs.Matchers.Transit.Names.{texts_eq}
use osmdiffs.Base.{list_eq, ◌≡◌, refl, true, ◌||◌, [], ◌∷◌, map, concat}
use osmdiffs.Base.Predicates.{All}
use osmdiffs.Base.Search.{
  any, map_option, option_list, flat_map, filter_map, or_else, find_map, filter,
}
use osmdiffs.Base.Text.{
  starts_with, contains_text, join, is_empty, ascii_lowercase, chars, to_ascii_lowercase,
  is_ascii_digit, is_ascii_alphabetic,
}
use osmdiffs.Matchers.Tags.{tag_value, Tags}
use osmdiffs.Matchers.Address.{
  agree, push_token, next_numeric, next_token, ends_token, tokens_from, has_window, names_street,
  agrees, address_texts, in_text, Letters, sharp_s, fold_tokens, osm_address_in_atp_text,
}
use osmdiffs.Matchers.Address.Tokens.{IsUniform, fold_tokens-concat}

abbrev ascii : Letters
ascii = record {
  fold = to_ascii_lowercase;
  is_alphanumeric = λ c. is_ascii_digit c || is_ascii_alphabetic c;
  is_numeric = is_ascii_digit;
}

abbrev osm : Tags
osm = ("addr:street", "Mythenquai") ∷ (("addr:housenumber", "349-B") ∷ [])

abbrev atp : Tags
atp = ("addr:street_address", "Mythenquai 349b") ∷ []

found : osm_address_in_atp_text ascii atp osm ≡ true
unfolding osm_address_in_atp_text in_text address_texts agrees names_street has_window texts_eq
    fold_tokens tokens_from ends_token next_token next_numeric push_token agree sharp_s
    to_ascii_lowercase ascii_lowercase is_ascii_digit is_ascii_alphabetic is_empty tag_value
    find_map or_else filter_map flat_map option_list map_option join contains_text starts_with any
    list_eq
found = refl

tokens :
    fold_tokens ascii (chars "Mythenquai 349-B")
    ≡ chars "mythenquai" ∷ (chars "349" ∷ (chars "b" ∷ []))
unfolding osm_address_in_atp_text in_text address_texts agrees names_street has_window texts_eq
    fold_tokens tokens_from ends_token next_token next_numeric push_token agree sharp_s
    to_ascii_lowercase ascii_lowercase is_ascii_digit is_ascii_alphabetic is_empty tag_value
    find_map or_else filter_map flat_map option_list map_option join contains_text starts_with any
    list_eq
tokens = refl

fold_tokens-concat_example :
    (concat (fold_tokens ascii (chars "Mythenquai 349-B"))
      ≡ filter (ascii.is_alphanumeric) (map sharp_s (ascii.fold (chars "Mythenquai 349-B"))))
    × All (IsUniform ascii) (fold_tokens ascii (chars "Mythenquai 349-B"))
fold_tokens-concat_example = fold_tokens-concat ascii (chars "Mythenquai 349-B")
