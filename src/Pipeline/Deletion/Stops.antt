-- ===== src/Pipeline/Deletion/Stops.antt =====
-- Which stops are proposed for deletion since the register lacks them.
use osmdiffs.Base.{
  ℕ, ◌≡◌, ◌≢◌, refl, sym, ◌∙◌, true, false, not, ◌&&◌, ◌||◌, Option, none, some, List, [], arith,
  inl, inr, Bool-cases, Option-cases, if◌then◌else◌,
}
use osmdiffs.Base.Predicates.{All}
use osmdiffs.Base.Search.{and_then}
use osmdiffs.Base.Text.{Text, is_empty}
use osmdiffs.Matchers.Tags.{Tags, Unicode}
use osmdiffs.Matchers.Transit.Stops.{is_stop}
use osmdiffs.Pipeline.Deletion.Register.{Country, World, in_swiss_home}
use osmdiffs.Pipeline.Deletion.Coverage.{
  AtpCoverage, FeatureKind, has_swiss_stop_near, has_swiss_transit,
}
use osmdiffs.Pipeline.Deletion.Missing.{
  IsHome, HasNoneNear, HasNoId, in_swiss_home-IsHome, near-HasNoneNear, scan-HasNoId,
}
use osmdiffs.Pipeline.Deletion.{
  swiss_transit_stop, Scan, scan, ids_of, names_of, kind_of, covered_reason, brand_reason,
  home_reason, located_reason, stop_reason, deletion_reason,
}

module _ {Location : Type 0} (u : Unicode) (world : World Location) (atp : AtpCoverage)
    (tags : Tags) where
  covered_reason-other :
      (ids : List ℕ) (names : List Text) (c : Option Country) (kind : FeatureKind)
      → covered_reason atp ids names c kind ≢ some swiss_transit_stop
  unfolding covered_reason
  covered_reason-other ids names c kind h = absurd (ground (arith, h))

  brand_reason-other :
      (location : Option Location)
      → brand_reason u world atp tags location ≢ some swiss_transit_stop
  unfolding brand_reason and_then
  brand_reason-other location h =
      elim (Bool-cases (
        is_empty (ids_of tags)
        && is_empty (if is_empty (ids_of tags) then names_of u tags else []))) [
          | inl t ↦ absurd (ground (arith, h, t))
          | inr f ↦ elim (Option-cases (kind_of tags)) [
            | inl e ↦ absurd (ground (arith, h, f, e))
            | inr (kind, e) ↦ absurd (
                covered_reason-other (ids_of tags)
                  (if is_empty (ids_of tags) then names_of u tags else [])
                  (and_then location (world.country)) kind (sym (rw (f, e) refl) ∙ h))
          ]
        ]

  -- A stop in the home area, with no ATP stop near it and no tag for an id of any kind.
  abbrev pub IsMissing : Option Location → Type 0
  IsMissing location =
      (l : Location) × ((location ≡ some l)
        × (IsHome world l × (HasNoneNear world atp l × All HasNoId tags)))

  home_reason-missing :
      (s : Scan) (l : Location)
      → home_reason u world atp tags s l ≡ some swiss_transit_stop
      → (s.has_swiss_id ≡ false) × (has_swiss_stop_near world atp l ≡ false)
  unfolding home_reason
  home_reason-missing s l h = (ground (arith, h), ground (arith, h))

  located_reason-missing :
      (s : Scan) (location : Option Location)
      → located_reason u world atp tags s location ≡ some swiss_transit_stop
      → (l : Location) × ((location ≡ some l)
          × ((in_swiss_home world (world.country l) l ≡ true)
              × ((has_swiss_stop_near world atp l ≡ false) × (s.has_swiss_id ≡ false))))
  unfolding located_reason
  located_reason-missing s none h = absurd (ground (arith, h))
  located_reason-missing s (some l) h =
      elim (Bool-cases (in_swiss_home world (world.country l) l)) [
        | inl t ↦
            let m = home_reason-missing s l (sym (rw t refl) ∙ h) in (l, (refl, (t, (m.1, m.0))))
        | inr f ↦ absurd (brand_reason-other (some l) (sym (rw f refl) ∙ h))
      ]

  -- A stop that is proposed since the register lacks it lies in the register's home area, which
  -- is Switzerland, Liechtenstein, Buesingen and Campione; neither its cell nor a neighboring one is
  -- that of a stop of the register; none of its tags is for a UIC reference, an IFOPT id or a
  -- SLOID; and the register is there.
  pub deletion_reason-IsMissing :
      (location : Option Location)
      → deletion_reason u world atp tags location ≡ some swiss_transit_stop
      → IsMissing location × ((is_stop tags ≡ true) × (has_swiss_transit atp ≡ true))
  unfolding deletion_reason stop_reason
  deletion_reason-IsMissing location h = elim (Bool-cases (is_stop tags && has_swiss_transit atp)) [
    | inl t ↦ elim (Bool-cases ((scan atp tags).known)) [
      | inl k ↦ absurd (ground (arith, h, t, k))
      | inr k ↦
          elim (Bool-cases ((scan atp tags).has_swiss_id || not ((scan atp tags).has_any_id))) [
            | inl r ↦
                let m =
                  located_reason-missing (scan atp tags) location (sym (rw (t, k, r) refl) ∙ h) in
                (
                  (
                    m.0,
                    (
                      m.1.0,
                      (
                        in_swiss_home-IsHome world (m.0) (m.1.1.0),
                        (
                          near-HasNoneNear world atp (m.0) (m.1.1.1.0),
                          scan-HasNoId atp tags (ground (arith, r, m.1.1.1.1)),
                        ),
                      ),
                    ),
                  ),
                  (ground (arith, t), ground (arith, t)),
                )
            | inr r ↦ absurd (brand_reason-other location (sym (rw (t, k, r) refl) ∙ h))
          ]
    ]
    | inr f ↦ absurd (brand_reason-other location (sym (rw f refl) ∙ h))
  ]
