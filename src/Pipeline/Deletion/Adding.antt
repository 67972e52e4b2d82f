-- ===== src/Pipeline/Deletion/Adding.antt =====
-- The Swiss IFOPT ids of all added places are known.
use Prim.Native.String.{String}
use text.Mathlib.Text.{◌==◌ as str_eq}
use text.Mathlib.TextEquality.{eq_iff}
use osmdiffs.Base.{
  ℕ, ◌≡◌, refl, sym, subst, Bool, true, false, ◌&&◌, ◌||◌, Option, none, some, List, [], ◌∷◌, ◌++◌,
  map, arith, ◌⊎◌, inl, inr, Bool-cases, if◌then◌else◌,
}
use osmdiffs.Base.Predicates.{Any, IsIn}
use osmdiffs.Base.Search.{any, filter_map}
use osmdiffs.Base.Text.{Text, chars}
use osmdiffs.Matchers.Tags.{Tag, Tags, Unicode, is_one_of, parse_wikidata_ids, normalize_name}
use osmdiffs.Matchers.MatchMask.{MatchMask}
use osmdiffs.Matchers.Score.{Place}
use osmdiffs.Matchers.Transit.Identifiers.{ifopt_keys, split_values, swiss_uic}
use osmdiffs.Pipeline.Deletion.Register.{Country, World}
use osmdiffs.Pipeline.Deletion.Coverage.{
  wikidata_keys, name_keys, AtpCoverage, swiss_ifopts, swiss_uics_in, add_id, add_name,
  add_swiss_ids, add_tag, count_swiss, has_swiss_ifopt, add, add_places, fold, infrastructure_of,
  is_abroad, place_country,
}
use osmdiffs.Pipeline.Deletion.Folds.{fold-keeps, fold-reaches}

-- A tag gives a Swiss IFOPT id.
abbrev pub GivesIfopt : Text → Tag → Type 0
GivesIfopt id t = (is_one_of ifopt_keys (t.0) ≡ true) × IsIn id (swiss_ifopts (chars (t.1)))

abbrev pub HasIfopt : Text → Tags → Type 0
HasIfopt id tags = Any (GivesIfopt id) tags

abbrev pub Knows : Text → AtpCoverage → Type 0
Knows id c = IsIn id (c.swiss_ifopt)

IsIn-append_left : (t : Text) (xs ys : List Text) → IsIn t xs → IsIn t (xs ++ ys)
IsIn-append_left t [] ys h = absurd h
IsIn-append_left t (x ∷ xs) ys (inl e) = inl e
IsIn-append_left t (x ∷ xs) ys (inr h) = inr (IsIn-append_left t xs ys h)

IsIn-append_right : (t : Text) (xs ys : List Text) → IsIn t ys → IsIn t (xs ++ ys)
IsIn-append_right t [] ys h = h
IsIn-append_right t (x ∷ xs) ys h = inr (IsIn-append_right t xs ys h)

ifopt_key_only :
    (key : String)
    → is_one_of ifopt_keys key ≡ true
    → (is_one_of wikidata_keys key ≡ false) × (is_one_of name_keys key ≡ false)
unfolding is_one_of any
ifopt_key_only key h = elim (which h) [
  | inl e ↦ subst Other (sym e) (refl, refl)
  | inr (inl e) ↦ subst Other (sym e) (refl, refl)
  | inr (inr e) ↦ subst Other (sym e) (refl, refl)
]
  where
    Other : String → Type 0
    Other k = (is_one_of wikidata_keys k ≡ false) × (is_one_of name_keys k ≡ false)

    which :
        is_one_of ifopt_keys key ≡ true
        → (key ≡ "ref:IFOPT") ⊎ ((key ≡ "ref:sloid") ⊎ (key ≡ "railway:ref:sloid"))
    which k =
        ground
          (arith, k, eq_iff "ref:IFOPT" key, eq_iff "ref:sloid" key, eq_iff "railway:ref:sloid" key)

if_keeps :
    (P : AtpCoverage → Type 0) (t : Bool) (a b : AtpCoverage) → P a → P b → P (if t then a else b)
if_keeps P true a b h k = h
if_keeps P false a b h k = k

module _ (u : Unicode) (mask : MatchMask) (country : Option Country) (kind : Option String)
    (abroad : Bool) (id : Text) where
  add_id-Knows : (c : AtpCoverage) (n : ℕ) → Knows id c → Knows id (add_id mask country kind c n)
  unfolding add_id
  add_id-Knows c n h = elim kind as (λ k. Knows id (add_id mask country k c n)) [
    | none ↦ h
    | some k ↦ h
  ]

  add_name-Knows :
      (c : AtpCoverage) (t : Text) → Knows id c → Knows id (add_name mask country kind c t)
  unfolding add_name
  add_name-Knows c t h = elim kind as (λ k. Knows id (add_name mask country k c t)) [
    | none ↦ h
    | some k ↦ h
  ]

  add_swiss_ids-Knows :
      (c : AtpCoverage) (ids codes : List Text) → Knows id c → Knows id (add_swiss_ids c ids codes)
  unfolding add_swiss_ids
  add_swiss_ids-Knows c ids codes h = IsIn-append_right id ids (c.swiss_ifopt) h

  add_tag-keeps :
      (c : AtpCoverage) (t : Tag) → Knows id c → Knows id (add_tag u mask country kind abroad c t)
  unfolding add_tag
  add_tag-keeps c (key, value) h =
      if_keeps (Knows id) (abroad && (is_one_of wikidata_keys key || is_one_of name_keys key)) c _ h
        (if_keeps (Knows id) (is_one_of wikidata_keys key) _ _
          (fold-keeps (Knows id) (add_id mask country kind) c (parse_wikidata_ids value)
            add_id-Knows h)
          (if_keeps (Knows id) (is_one_of name_keys key) _ _
            (fold-keeps (Knows id) (add_name mask country kind) c
              (map (normalize_name u) (split_values (chars value))) add_name-Knows h)
            (if_keeps (Knows id) (is_one_of ifopt_keys key) _ _
              (add_swiss_ids-Knows c (swiss_ifopts (chars value))
                (filter_map swiss_uic (swiss_ifopts (chars value))) h)
              (if_keeps (Knows id) (str_eq key "uic_ref") _ c
                (add_swiss_ids-Knows c [] (swiss_uics_in (chars value)) h) h))))

  add_tag-reaches :
      (c : AtpCoverage) (t : Tag)
      → GivesIfopt id t
      → Knows id (add_tag u mask country kind abroad c t)
  unfolding add_tag
  add_tag-reaches c (key, value) (k, h) =
      subst (Knows id) (sym (at_ifopt (ifopt_key_only key k)))
        (unfold add_swiss_ids in IsIn-append_left id (swiss_ifopts (chars value)) (c.swiss_ifopt) h)
    where
      at_ifopt :
          (is_one_of wikidata_keys key ≡ false) × (is_one_of name_keys key ≡ false)
          → add_tag u mask country kind abroad c (key, value)
            ≡ add_swiss_ids c
                (swiss_ifopts (chars value))
                (filter_map swiss_uic (swiss_ifopts (chars value)))
      at_ifopt (w, n) =
          unfold add_tag in
          elim (Bool-cases abroad) [ inl a ↦ rw (a, w, n, k) refl | inr a ↦ rw (a, w, n, k) refl ]

-- A place that gives the id.
abbrev pub PlaceHas : Text → Place → Type 0
PlaceHas id p = HasIfopt id (p.tags)

module _ {Location : Type 0} (u : Unicode) (world : World Location) (id : Text) where
  add-keeps :
      (c : AtpCoverage) (p : Place) (country : Option Country)
      → Knows id c
      → Knows id (add u world c p country)
  unfolding add
  add-keeps c p country h = if_keeps (Knows id) (has_swiss_ifopt (p.tags)) _ _ (counted kept) kept
    where
      kept : Knows id (
          fold
            (add_tag u
              (p.mask)
              country
              (infrastructure_of (p.mask) (p.tags))
              (is_abroad (p.tags) country))
            c
            (p.tags))
      kept =
          fold-keeps (Knows id)
            (add_tag u (p.mask) country (infrastructure_of (p.mask) (p.tags))
              (is_abroad (p.tags) country))
            c (p.tags)
            (add_tag-keeps u (p.mask) country (infrastructure_of (p.mask) (p.tags))
              (is_abroad (p.tags) country) id)
            h

      counted :
          Knows id (
            fold
              (add_tag u
                (p.mask)
                country
                (infrastructure_of (p.mask) (p.tags))
                (is_abroad (p.tags) country))
              c
              (p.tags))
          → Knows id (
              count_swiss (world.parent (p.s2_cell_id)) (
                fold
                  (add_tag u
                    (p.mask)
                    country
                    (infrastructure_of (p.mask) (p.tags))
                    (is_abroad (p.tags) country))
                  c
                  (p.tags)))
      counted k = unfold count_swiss in k

  add-reaches :
      (c : AtpCoverage) (p : Place) (country : Option Country)
      → PlaceHas id p
      → Knows id (add u world c p country)
  unfolding add
  add-reaches c p country h =
      if_keeps (Knows id) (has_swiss_ifopt (p.tags)) _ _ (counted reached) reached
    where
      reached : Knows id (
          fold
            (add_tag u
              (p.mask)
              country
              (infrastructure_of (p.mask) (p.tags))
              (is_abroad (p.tags) country))
            c
            (p.tags))
      reached =
          fold-reaches (Knows id) (GivesIfopt id)
            (add_tag u (p.mask) country (infrastructure_of (p.mask) (p.tags))
              (is_abroad (p.tags) country))
            c (p.tags)
            (add_tag-keeps u (p.mask) country (infrastructure_of (p.mask) (p.tags))
              (is_abroad (p.tags) country) id)
            (add_tag-reaches u (p.mask) country (infrastructure_of (p.mask) (p.tags))
              (is_abroad (p.tags) country) id)
            h

      counted :
          Knows id (
            fold
              (add_tag u
                (p.mask)
                country
                (infrastructure_of (p.mask) (p.tags))
                (is_abroad (p.tags) country))
              c
              (p.tags))
          → Knows id (
              count_swiss (world.parent (p.s2_cell_id)) (
                fold
                  (add_tag u
                    (p.mask)
                    country
                    (infrastructure_of (p.mask) (p.tags))
                    (is_abroad (p.tags) country))
                  c
                  (p.tags)))
      counted k = unfold count_swiss in k

  add_places-keeps :
      (c : AtpCoverage) (ps : List Place) → Knows id c → Knows id (add_places u world c ps)
  unfolding add_places
  add_places-keeps c [] h = h
  add_places-keeps c (p ∷ ps) h =
      add_places-keeps (add u world c p (place_country world p)) ps
        (add-keeps c p (place_country world p) h)

  pub add_places-reaches :
      (c : AtpCoverage) (ps : List Place)
      → Any (PlaceHas id) ps
      → Knows id (add_places u world c ps)
  unfolding add_places
  add_places-reaches c [] h = absurd h
  add_places-reaches c (p ∷ ps) (inl h) =
      add_places-keeps (add u world c p (place_country world p)) ps
        (add-reaches c p (place_country world p) h)
  add_places-reaches c (p ∷ ps) (inr h) =
      add_places-reaches (add u world c p (place_country world p)) ps h
