-- ===== src/Matchers/Phones/Runs.antt =====
-- A Swiss number, with and without its plus sign.
use osmdiffs.Base.{◌≤◌, ◌<◌, ◌≡◌, refl, none, some, [], ◌∷◌}
use osmdiffs.Base.Search.{and_then, filter}
use osmdiffs.Base.Text.{
  is_empty, is_whitespace, trim_end, trim_start, Text, chars, decimal, strip_prefix, trim,
  is_ascii_digit,
}
use osmdiffs.Matchers.Phones.{is_separator, finish, dial, dial_all, parse_phone_number}
use osmdiffs.Matchers.Phones.Bounds.{parse_phone_number-bounds}

national : parse_phone_number (chars "044 417 77 77") ≡ none
unfolding parse_phone_number dial_all dial finish is_separator is_ascii_digit and_then strip_prefix
    trim trim_start trim_end is_whitespace is_empty
national = refl

parsed : parse_phone_number (chars " +41 44 417-77 77") ≡ some 41444177777
unfolding parse_phone_number dial_all dial finish is_separator is_ascii_digit and_then strip_prefix
    trim trim_start trim_end is_whitespace is_empty
parsed = refl

parse_phone_number-bounds_example :
    ((1000000 ≤ 41444177777) × (41444177777 < 1000000000000000))
    × ((rest : Text) × ((strip_prefix (b'+' ∷ []) (trim (chars " +41 44 417-77 77")) ≡ some rest)
          × (41444177777 ≡ decimal 0 (filter is_ascii_digit rest))))
parse_phone_number-bounds_example =
    parse_phone_number-bounds (chars " +41 44 417-77 77") 41444177777 parsed
