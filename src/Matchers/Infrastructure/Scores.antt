-- ===== src/Matchers/Infrastructure/Scores.antt =====
-- Scores of infrastructure: a ref that agrees beats everything else.
use native.Mathlib.Nat.{mul-le-mul_right}
use osmdiffs.Base.{
  ℕ, ◌*◌, ◌≤◌, ◌<◌, ◌≡◌, refl, sym, subst, true, false, Option, none, some, arith, length,
  Bool-cases, ◌⊎◌, inl, inr,
}
use osmdiffs.Matchers.Tags.{Tags, Unicode}
use osmdiffs.Matchers.Score.{Place, no_match, score_at}
use osmdiffs.Matchers.Score.Laws.{score_at_bound, score_at_min}
use osmdiffs.Matchers.Infrastructure.{
  InfrastructureMatcher, for_place, same_ref, evidence, factor, score_osm_candidate,
}
use osmdiffs.Matchers.Infrastructure.Evidence.{
  SameRef, same_ref-SameRef, same_ref→SameRef, for_place-confirming, evidence_bound,
}

abbrev radius_of : InfrastructureMatcher → ℕ
radius_of m = m.settings.max_meters * 1000

factor-same_ref :
    (u : Unicode) (m : InfrastructureMatcher) (tags : Tags)
    → same_ref u m tags ≡ true
    → (factor u m tags ≡ no_match)
      ⊎ (factor u m tags ≡ record { best = 100; worst = 90; radius = radius_of m })
unfolding factor
factor-same_ref u m tags h = ground (arith, h)

factor-other :
    (u : Unicode) (m : InfrastructureMatcher) (tags : Tags)
    → same_ref u m tags ≡ false
    → (factor u m tags ≡ no_match)
      ⊎ (factor u m tags ≡ record { best = evidence u m tags; worst = 0; radius = radius_of m })
unfolding factor
factor-other u m tags h = ground (arith, h)

score-no_match :
    (u : Unicode) (m : InfrastructureMatcher) (tags : Tags) (o : Option ℕ)
    → factor u m tags ≡ no_match
    → score_osm_candidate u m tags o ≡ 0
unfolding score_osm_candidate score_at no_match
score-no_match u m tags none h = refl
score-no_match u m tags (some d) h = rw h refl

-- With the same ref, a score is 0 or at least `SAME_REF_MIN_SCORE`.
score-same_ref :
    (u : Unicode) (m : InfrastructureMatcher) (tags : Tags) (o : Option ℕ)
    → same_ref u m tags ≡ true
    → 0 < score_osm_candidate u m tags o
    → 90 * radius_of m ≤ score_osm_candidate u m tags o
score-same_ref u m tags o h pos = elim (factor-same_ref u m tags h) [
  | inl e ↦ absurd (omega (arith, pos, score-no_match u m tags o e))
  | inr e ↦
      unfold score_osm_candidate in
      subst (λ f. 0 < score_at f o → 90 * radius_of m ≤ score_at f o) (sym e)
        (λ p. score_at_min (record { best = 100; worst = 90; radius = radius_of m }) o p) pos
]

score-other :
    (u : Unicode) (m : InfrastructureMatcher) (tags : Tags) (o : Option ℕ)
    → length (m.confirming) ≤ 1
    → same_ref u m tags ≡ false
    → score_osm_candidate u m tags o ≤ 88 * radius_of m
score-other u m tags o few h = elim (factor-other u m tags h) [
  | inl e ↦ omega (arith, score-no_match u m tags o e)
  | inr e ↦
      unfold score_osm_candidate in
      subst (λ f. score_at f o ≤ 88 * radius_of m) (sym e)
        (omega (
          arith,
          score_at_bound (record { best = evidence u m tags; worst = 0; radius = radius_of m }) o
              (omega arith),
          mul-le-mul_right (radius_of m) (evidence_bound u m tags few),
        ))
]

score_bound :
    (u : Unicode) (m : InfrastructureMatcher) (tags : Tags) (o : Option ℕ)
    → length (m.confirming) ≤ 1
    → score_osm_candidate u m tags o ≤ 100 * radius_of m
score_bound u m tags o few = elim (Bool-cases (same_ref u m tags)) [
  | inl h ↦ elim (factor-same_ref u m tags h) [
    | inl e ↦ omega (arith, score-no_match u m tags o e)
    | inr e ↦
        unfold score_osm_candidate in
        subst (λ f. score_at f o ≤ 100 * radius_of m) (sym e)
          (score_at_bound (record { best = 100; worst = 90; radius = radius_of m }) o (omega arith))
  ]
  | inr h ↦ omega (arith, score-other u m tags o few h)
]

-- For the matcher of a place, a candidate with the same ref that scores at all scores higher than
-- every candidate without it, whatever the distances and the other tags.
pub score-SameRef :
    (u : Unicode) (p : Place) (m : InfrastructureMatcher) (a b : Tags) (da db : Option ℕ)
    → for_place u p ≡ some m
    → SameRef u m a
    → 0 < score_osm_candidate u m a da
    → ¬ SameRef u m b
    → score_osm_candidate u m b db < score_osm_candidate u m a da
score-SameRef u p m a b da db h same pos other = omega (
  arith,
  pos,
  score-same_ref u m a da agree pos,
  score_bound u m a da few,
  score-other u m b db few differ,
)
  where
    agree : same_ref u m a ≡ true
    agree = same_ref-SameRef u m a same

    few : length (m.confirming) ≤ 1
    few = for_place-confirming u p m h

    differ : same_ref u m b ≡ false
    differ = elim (Bool-cases (same_ref u m b)) [
      | inl t ↦ absurd (other (same_ref→SameRef u m b t))
      | inr f ↦ f
    ]

-- For the matcher of a place, no score is above 1.0.
pub score-max :
    (u : Unicode) (p : Place) (m : InfrastructureMatcher) (tags : Tags) (o : Option ℕ)
    → for_place u p ≡ some m
    → score_osm_candidate u m tags o ≤ 100 * (m.settings.max_meters * 1000)
score-max u p m tags o h = score_bound u m tags o (for_place-confirming u p m h)
