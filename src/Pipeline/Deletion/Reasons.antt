-- ===== src/Pipeline/Deletion/Reasons.antt =====
-- What stands behind each reason to propose a feature for deletion.
use mathlib.Core.Option.{some-injective}
use osmdiffs.Base.{
  ℕ, ◌≡◌, ◌≢◌, refl, sym, ap, ◌∙◌, Bool, true, not, ◌&&◌, ◌||◌, Option, none, some, List, [], ◌∷◌,
  arith, inl, inr, Bool-cases, Option-cases, if◌then◌else◌,
}
use osmdiffs.Base.Predicates.{Any, IsIn}
use osmdiffs.Base.Search.{any, and_then}
use osmdiffs.Base.Text.{Text, is_empty}
use osmdiffs.Matchers.Tags.{Tags, Unicode}
use osmdiffs.Matchers.MatchMask.{MatchMask}
use osmdiffs.Matchers.Score.{Place}
use osmdiffs.Matchers.Transit.Stops.{is_stop}
use osmdiffs.Pipeline.Deletion.Register.{Country, World, in_swiss_home}
use osmdiffs.Pipeline.Deletion.Coverage.{
  AtpCoverage, no_coverage, add_places, FeatureKind, by_mask, covers_wikidata, has_swiss_transit,
}
use osmdiffs.Pipeline.Deletion.Covered.{stands_for, covers_wikidata-add_places}
use osmdiffs.Pipeline.Deletion.{
  wikidata, Scan, scan, ids_of, names_of, kind_of, covered_reason, brand_reason, home_reason,
  located_reason, stop_reason, deletion_reason,
}

any→Any : {A : Type 0} (p : A → Bool) (xs : List A) → any p xs ≡ true → Any (λ x. p x ≡ true) xs
unfolding any
any→Any p [] h = absurd (ground (arith, h))
any→Any p (x ∷ xs) h = elim (Bool-cases (p x)) [
  | inl t ↦ inl t
  | inr f ↦ inr (any→Any p xs (ground (arith, h, f)))
]

any-IsIn :
    {A : Type 0} (p : A → Bool) (xs : List A)
    → any p xs ≡ true
    → (a : A) × (IsIn a xs × (p a ≡ true))
unfolding any
any-IsIn p [] h = absurd (ground (arith, h))
any-IsIn p (x ∷ xs) h = elim (Bool-cases (p x)) [
  | inl t ↦ (x, (inl refl, t))
  | inr f ↦ let rest = any-IsIn p xs (ground (arith, h, f)) in (rest.0, (inr (rest.1.0), rest.1.1))
]

covered_reason-wikidata :
    (atp : AtpCoverage) (ids : List ℕ) (names : List Text) (c : Option Country) (kind : FeatureKind)
    → covered_reason atp ids names c kind ≡ some wikidata
    → any (covers_wikidata atp c kind) ids ≡ true
unfolding covered_reason
covered_reason-wikidata atp ids names c kind h =
    elim (Bool-cases (any (covers_wikidata atp c kind) ids)) [
      | inl t ↦ t
      | inr f ↦ absurd (ground (arith, h, f))
    ]

-- The Wikidata signal: the feature names an id, and its kind is covered under that id in its country.
abbrev pub IsCovered : AtpCoverage → Tags → Option Country → Type 0
IsCovered atp tags c =
    (n : ℕ) × (IsIn n (ids_of tags)
      × ((kind : FeatureKind) × ((kind_of tags ≡ some kind)
            × (covers_wikidata atp c kind n ≡ true))))

module _ {Location : Type 0} (u : Unicode) (world : World Location) (atp : AtpCoverage)
    (tags : Tags) where
  brand_reason-wikidata :
      (location : Option Location)
      → brand_reason u world atp tags location ≡ some wikidata
      → IsCovered atp tags (and_then location (world.country))
  unfolding brand_reason and_then
  brand_reason-wikidata location h =
      elim (Bool-cases (
        is_empty (ids_of tags)
        && is_empty (if is_empty (ids_of tags) then names_of u tags else []))) [
          | inl t ↦ absurd (ground (arith, h, t))
          | inr f ↦ elim (Option-cases (kind_of tags)) [
            | inl e ↦ absurd (ground (arith, h, f, e))
            | inr (kind, e) ↦ found kind e (sym (rw (f, e) refl) ∙ h)
          ]
        ]
    where
      found :
          (kind : FeatureKind)
          → kind_of tags ≡ some kind
          → covered_reason atp
              (ids_of tags)
              (if is_empty (ids_of tags) then names_of u tags else [])
              (and_then location (world.country))
              kind
            ≡ some wikidata
          → IsCovered atp tags (and_then location (world.country))
      found kind e r =
          let at =
            any-IsIn (covers_wikidata atp (and_then location (world.country)) kind) (ids_of tags) (
              covered_reason-wikidata atp (ids_of tags)
                (if is_empty (ids_of tags) then names_of u tags else [])
                (and_then location (world.country)) kind r) in
          (at.0, (at.1.0, (kind, (e, at.1.1))))

  home_reason-other : (s : Scan) (l : Location) → home_reason u world atp tags s l ≢ some wikidata
  unfolding home_reason
  home_reason-other s l h = absurd (ground (arith, h))

  located_reason-wikidata :
      (s : Scan) (location : Option Location)
      → located_reason u world atp tags s location ≡ some wikidata
      → brand_reason u world atp tags location ≡ some wikidata
  unfolding located_reason
  located_reason-wikidata s none h = absurd (ground (arith, h))
  located_reason-wikidata s (some l) h =
      elim (Bool-cases (in_swiss_home world (world.country l) l)) [
        | inl t ↦ absurd (home_reason-other s l (sym (rw t refl) ∙ h))
        | inr f ↦ sym (rw f refl) ∙ h
      ]

  stop_reason-wikidata :
      (s : Scan) (location : Option Location)
      → stop_reason u world atp tags s location ≡ some wikidata
      → brand_reason u world atp tags location ≡ some wikidata
  unfolding stop_reason
  stop_reason-wikidata s location h = elim (Bool-cases (s.known)) [
    | inl k ↦ absurd (ground (arith, h, k))
    | inr k ↦ elim (Bool-cases (s.has_swiss_id || not (s.has_any_id))) [
      | inl t ↦ located_reason-wikidata s location (sym (rw (k, t) refl) ∙ h)
      | inr f ↦ sym (rw (k, f) refl) ∙ h
    ]
  ]

  deletion_reason-IsCovered :
      (location : Option Location)
      → deletion_reason u world atp tags location ≡ some wikidata
      → IsCovered atp tags (and_then location (world.country))
  unfolding deletion_reason
  deletion_reason-IsCovered location h = elim (Bool-cases (is_stop tags && has_swiss_transit atp)) [
    | inl t ↦
        brand_reason-wikidata location
          (stop_reason-wikidata (scan atp tags) location (sym (rw t refl) ∙ h))
    | inr f ↦ brand_reason-wikidata location (sym (rw f refl) ∙ h)
  ]

-- A feature that is no infrastructure and is proposed for deletion because of a Wikidata id names an
-- id for which one of the places stands in the feature's country, with a mask that meets its own.
pub deletion_reason-stands_for :
    {Location : Type 0} (u : Unicode) (world : World Location) (places : List Place) (tags : Tags)
    (location : Option Location) (mask : MatchMask)
    → kind_of tags ≡ some (by_mask mask)
    → deletion_reason u world (add_places u world no_coverage places) tags location ≡ some wikidata
    → (n : ℕ) × (IsIn n (ids_of tags)
        × Any (λ p. stands_for world n (and_then location (world.country)) mask p ≡ true) places)
deletion_reason-stands_for u world places tags location mask is_mask h =
    let c =
      deletion_reason-IsCovered u world (add_places u world no_coverage places) tags location h in
    (
      c.0,
      (
        c.1.0,
        any→Any (stands_for world (c.0) (and_then location (world.country)) mask) places
            (answers (c.0) (c.1.1.0) (c.1.1.1.0) (c.1.1.1.1)),
      ),
    )
  where
    answers :
        (n : ℕ) (kind : FeatureKind)
        → kind_of tags ≡ some kind
        → covers_wikidata
            (add_places u world no_coverage places)
            (and_then location (world.country))
            kind
            n
          ≡ true
        → any (stands_for world n (and_then location (world.country)) mask) places ≡ true
    answers n kind e t =
        sym (covers_wikidata-add_places u world n (and_then location (world.country)) mask places)
        ∙ (ap
              (λ k.
                covers_wikidata (add_places u world no_coverage places)
                  (and_then location (world.country)) k n)
              (some-injective (by_mask mask) kind (sym is_mask ∙ e))
            ∙ t)
