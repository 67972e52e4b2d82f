-- ===== src/Matchers/Address.antt =====
-- src/matchers/address.rs: whether the street and the house number of a feature stand in the address
-- of a place.
pub mod Tokens
mod Runs
use Prim.Native.String.{String}
use osmdiffs.Base.{
  ℕ, ◌+◌, Bool, true, false, not, ◌&&◌, ◌||◌, Option, none, some, List, [], ◌∷◌, ◌++◌, map, leb,
  ◌==◌, list_eq, length, concat, take, if◌then◌else◌,
}
use osmdiffs.Base.Search.{any, filter_map, map_option}
use osmdiffs.Base.Text.{Text, chars, is_empty, is_ascii_digit, join, contains_text, starts_with}
use osmdiffs.Matchers.Tags.{Tags, tag_value}
use osmdiffs.Matchers.Transit.Names.{texts_eq}

-- `fold` decomposes, drops combining marks and puts into lower case, by the tables of Unicode.
pub record Letters : Type 0 where
  pub fold : Text → Text
  pub is_alphanumeric : ℕ → Bool
  pub is_numeric : ℕ → Bool

unfoldable pub sharp_s : ℕ → ℕ
sharp_s c = if c == 223 then b's' else c

unfoldable pub agree : Bool → Bool → Bool
agree a b = if a then b else not b

unfoldable pub push_token : Text → List Text → List Text
push_token token tokens = if is_empty token then tokens else token ∷ tokens

module _ (letters : Letters) where
  -- `cur` ends before the character.
  unfoldable pub ends_token : Text → Bool → ℕ → Bool
  unfolding agree
  ends_token cur cur_numeric c =
      not (letters.is_alphanumeric c)
      || (not (is_empty cur) && not (agree (letters.is_numeric c) cur_numeric))

  unfoldable pub next_token : Text → Bool → ℕ → Text
  unfolding ends_token
  next_token cur cur_numeric c =
      if not (letters.is_alphanumeric c)
      then []
      else if ends_token cur cur_numeric c
      then c ∷ []
      else cur ++ (c ∷ [])

  unfoldable pub next_numeric : Bool → ℕ → Bool
  next_numeric cur_numeric c =
      if letters.is_alphanumeric c then letters.is_numeric c else cur_numeric

  -- The loop, with `cur` and `cur_numeric`.
  unfoldable pub tokens_from : Text → Bool → Text → List Text
  tokens_from cur cur_numeric [] = push_token cur []
  tokens_from cur cur_numeric (c ∷ s) =
      let rest = tokens_from (next_token cur cur_numeric c) (next_numeric cur_numeric c) s in
      if ends_token cur cur_numeric c then push_token cur rest else rest

  unfoldable pub fold_tokens : Text → List Text
  unfolding tokens_from sharp_s
  fold_tokens s = tokens_from [] false (map sharp_s (letters.fold s))

  -- `windows(n).any(|w| w == …)`.
  unfoldable pub has_window : List Text → List Text → Bool
  has_window part [] = texts_eq part []
  has_window part (t ∷ ts) = texts_eq part (take (length part) (t ∷ ts)) || has_window part ts

  unfoldable pub names_street : Text → List Text → Bool
  names_street street atp =
      contains_text street (concat atp)
      || any (λ t. leb 5 (length t) && (not (any is_ascii_digit t) && starts_with t street)) atp

  unfoldable pub agrees : List Text → List Text → Text → Bool
  unfolding has_window names_street
  agrees atp hn street =
      (not (is_empty hn) && not (is_empty street)) && (has_window hn atp && names_street street atp)

  unfoldable pub address_texts : Tags → List Text
  address_texts tags =
      filter_map (λ key. map_option chars (tag_value key tags))
        ("addr:street_address" ∷ "addr:street" ∷ "addr:housenumber" ∷ "addr:full" ∷ [])

  unfoldable pub in_text : List Text → Option String → Option String → Bool
  unfolding agrees fold_tokens
  in_text texts none hn = false
  in_text texts (some street) none = false
  in_text texts (some street) (some hn) =
      not (is_empty texts)
      && agrees (fold_tokens (join texts)) (fold_tokens (chars hn))
          (concat (fold_tokens (chars street)))

  unfoldable pub osm_address_in_atp_text : Tags → Tags → Bool
  unfolding in_text address_texts
  osm_address_in_atp_text atp_tags osm_tags =
      in_text (address_texts atp_tags) (tag_value "addr:street" osm_tags)
        (tag_value "addr:housenumber" osm_tags)
