-- ===== src/Matchers/Phones.antt =====
-- src/matchers/contact/phones.rs: phone numbers in international format.
pub mod Bounds
mod Runs
use Prim.Native.String.{String}
use osmdiffs.Base.{
  ℕ, suc, ◌+◌, ◌-◌, ◌*◌, ◌%◌, ◌^◌, Bool, true, false, ◌&&◌, ◌||◌, Option, none, some, List, [], ◌∷◌,
  ltb, leb, ◌==◌, if◌then◌else◌,
}
use osmdiffs.Base.Search.{filter_map, and_then}
use osmdiffs.Base.Text.{Text, chars, is_ascii_digit, split, strip_prefix, trim}
use osmdiffs.Matchers.Tags.{is_one_of}

abbrev pub phone_keys : List String
phone_keys = "phone" ∷ "fax" ∷ "mobile" ∷ "contact:phone" ∷ "contact:fax" ∷ "contact:mobile" ∷ []

abbrev pub min_digits : ℕ
min_digits = 7

abbrev pub max_digits : ℕ
max_digits = 15

unfoldable pub is_phone_key : String → Bool
is_phone_key key = is_one_of phone_keys key

unfoldable pub is_separator : ℕ → Bool
is_separator c =
    (c == b' ') || ((c == b'-') || ((c == b'.') || ((c == b'(') || ((c == b')') || (c == 160)))))

-- `number` and `digits` of the loop; the number is a u64.
pub record Dialled : Type 0 where
  pub number : ℕ
  pub digits : ℕ

-- One round of the loop.
unfoldable pub dial : Dialled → ℕ → Option Dialled
unfolding is_separator
dial d c =
    if is_ascii_digit c
    then (if (d.digits == 0) && (c == b'0')
        then none
        else if ltb max_digits (d.digits + 1)
        then none
        else some
            (record { number = (d.number * 10 + (c - b'0')) % 2 ^ 64; digits = d.digits + 1 }))
    else if is_separator c
    then some d
    else none

unfoldable pub finish : Dialled → Option ℕ
finish d = if leb min_digits (d.digits) then some (d.number) else none

unfoldable pub dial_all : Dialled → Text → Option ℕ
unfolding dial finish
dial_all d [] = finish d
dial_all d (c ∷ s) = and_then (dial d c) (λ e. dial_all e s)

abbrev pub no_digits : Dialled
no_digits = record { number = 0; digits = 0 }

unfoldable pub parse_phone_number : Text → Option ℕ
unfolding dial_all
parse_phone_number part = and_then (strip_prefix (b'+' ∷ []) (trim part)) (dial_all no_digits)

unfoldable pub parse_phone_numbers : Text → List ℕ
unfolding parse_phone_number
parse_phone_numbers value = filter_map parse_phone_number (split (λ c. c == b';') value)
