-- ===== src/Matchers/Transit/Scores.antt =====
-- Scores of stops: a shared id beats all weaker evidence.
use native.Mathlib.Nat.{mul-le-mul, mul-le-mul_right}
use osmdiffs.Base.{
  ℕ, ◌*◌, ◌≤◌, ◌<◌, ◌≡◌, ◌≢◌, refl, sym, subst, true, false, not, ◌||◌, Option, none, some, List,
  [], ◌∷◌, arith, ◌==◌, list_eq, list_eq_refl, list_eq→eq, Bool-cases, Option-cases, ◌⊎◌, inl, inr,
}
use osmdiffs.Base.Predicates.{IsIn}
use osmdiffs.Base.Search.{any}
use osmdiffs.Base.Text.{Text, contains_text_in}
use osmdiffs.Matchers.Tags.{Tags, Unicode}
use osmdiffs.Matchers.Score.{Factor, no_match, score_at}
use osmdiffs.Matchers.Score.Laws.{score_at_bound, score_at_min}
use osmdiffs.Matchers.Transit.Stops.{
  Kind, station, stop_area, platform, stop_position, fit, from_tags, compatible, modes_from_tags,
}
use osmdiffs.Matchers.Transit.Identifiers.{
  Ids, ids_from_tags, IdEvidence, same, same_stop, different, unknown, share_text, compare_ids,
  evidence_of,
}
use osmdiffs.Matchers.Transit.Names.{local_ref_factor, name_factor}
use osmdiffs.Matchers.Transit.{
  TransitMatcher, fit_of, local_factor, best_name, scaled, factor_by_ids, factor_of_kind,
  factor_if_stop, factor, score_osm_candidate,
}

-- Both sides name the same IFOPT id.
abbrev pub SameId : TransitMatcher → Tags → Type 0
SameId m tags = (id : Text) × (IsIn id (m.ids.ifopt) × IsIn id ((ids_from_tags tags).ifopt))

pub contains_text_in-IsIn : (ts : List Text) (t : Text) → IsIn t ts → contains_text_in ts t ≡ true
unfolding contains_text_in any
contains_text_in-IsIn [] t h = absurd h
contains_text_in-IsIn (u ∷ ts) t (inl e) =
    ground (arith, subst (λ v. list_eq v t ≡ true) e (list_eq_refl t))
contains_text_in-IsIn (u ∷ ts) t (inr h) = ground (arith, contains_text_in-IsIn ts t h)

contains_text_in→IsIn : (ts : List Text) (t : Text) → contains_text_in ts t ≡ true → IsIn t ts
unfolding contains_text_in any
contains_text_in→IsIn [] t h = absurd (ground (arith, h))
contains_text_in→IsIn (u ∷ ts) t h = elim (Bool-cases (list_eq u t)) [
  | inl e ↦ inl (sym (list_eq→eq u t e))
  | inr n ↦ inr (contains_text_in→IsIn ts t (ground (arith, h, n)))
]

share_text-IsIn : (xs ys : List Text) (t : Text) → IsIn t xs → IsIn t ys → share_text xs ys ≡ true
unfolding share_text any
share_text-IsIn [] ys t h k = absurd h
share_text-IsIn (x ∷ xs) ys t (inl e) k =
    ground (arith, contains_text_in-IsIn ys x (subst (λ v. IsIn v ys) e k))
share_text-IsIn (x ∷ xs) ys t (inr h) k = ground (arith, share_text-IsIn xs ys t h k)

share_text→IsIn :
    (xs ys : List Text) → share_text xs ys ≡ true → (t : Text) × (IsIn t xs × IsIn t ys)
unfolding share_text any
share_text→IsIn [] ys h = absurd (ground (arith, h))
share_text→IsIn (x ∷ xs) ys h = elim (Bool-cases (contains_text_in ys x)) [
  | inl e ↦ (x, (inl refl, contains_text_in→IsIn ys x e))
  | inr n ↦
      let later = share_text→IsIn xs ys (ground (arith, h, n)) in
      (later.0, (inr (later.1.0), later.1.1))
]

abbrev evidence : TransitMatcher → Tags → IdEvidence
evidence m tags = compare_ids (m.ids) (ids_from_tags tags)

compare_ids-same : (a b : Ids) → share_text (a.ifopt) (b.ifopt) ≡ true → compare_ids a b ≡ same
unfolding compare_ids
compare_ids-same a b h = rw h refl

compare_ids-other : (a b : Ids) → share_text (a.ifopt) (b.ifopt) ≡ false → compare_ids a b ≢ same
unfolding compare_ids evidence_of
compare_ids-other a b h e = absurd (ground (arith, h, e))

fit_values : (a b : Kind) → (fit a b ≡ 0) ⊎ ((9 ≤ fit a b) × (fit a b ≤ 10))
unfolding fit
fit_values station station = inr (omega arith, omega arith)
fit_values station stop_area = inr (omega arith, omega arith)
fit_values station platform = inl refl
fit_values station stop_position = inl refl
fit_values stop_area station = inr (omega arith, omega arith)
fit_values stop_area stop_area = inr (omega arith, omega arith)
fit_values stop_area platform = inl refl
fit_values stop_area stop_position = inl refl
fit_values platform station = inl refl
fit_values platform stop_area = inl refl
fit_values platform platform = inr (omega arith, omega arith)
fit_values platform stop_position = inl refl
fit_values stop_position station = inl refl
fit_values stop_position stop_area = inl refl
fit_values stop_position platform = inl refl
fit_values stop_position stop_position = inr (omega arith, omega arith)

fit_range :
    (m : TransitMatcher) (k : Kind) (tags : Tags)
    → (fit_of m k tags ≡ 0) ⊎ ((9 ≤ fit_of m k tags) × (fit_of m k tags ≤ 10))
unfolding fit_of
fit_range m k tags = ground (arith, fit_values (m.kind) k)

local_factor_bound : (u : Unicode) (m : TransitMatcher) (tags : Tags) → local_factor u m tags ≤ 10
unfolding local_factor local_ref_factor
local_factor_bound u m tags = ground arith

best_name_bound : (u : Unicode) (name : Text) (tags : Tags) → best_name u name tags ≤ 40
unfolding best_name name_factor
best_name_bound u name [] = omega arith
best_name_bound u name ((k, v) ∷ tags) = ground (arith, best_name_bound u name tags)

-- What a shared id gives, if the kinds fit.
abbrev Strong : Factor → Type 0
Strong f = (f ≡ no_match) ⊎ ((8100 ≤ f.worst) × ((f.worst ≤ f.best) × (f.best ≤ 10000)))

abbrev Weak : Factor → Type 0
Weak f = (f.worst ≤ f.best) × (f.best ≤ 8000)

no_match-Weak : Weak no_match
unfolding no_match
no_match-Weak = (omega arith, omega arith)

scaled-Weak :
    (fit evidence local radius : ℕ)
    → fit ≤ 10
    → evidence ≤ 80
    → local ≤ 10
    → Weak (scaled (fit * evidence * local) 0 radius)
unfolding scaled
scaled-Weak fit evidence local radius hf he hl = (omega arith, mul-le-mul (mul-le-mul hf he) hl)

factor_by_ids-Strong :
    (u : Unicode) (m : TransitMatcher) (fit : ℕ) (tags : Tags)
    → 9 ≤ fit
    → fit ≤ 10
    → Strong (factor_by_ids u m fit same tags)
unfolding factor_by_ids scaled
factor_by_ids-Strong u m fit tags h k = inr (omega (arith, h), (omega arith, omega (arith, k)))

factor_by_ids-Weak :
    (u : Unicode) (m : TransitMatcher) (fit : ℕ) (e : IdEvidence) (tags : Tags)
    → fit ≤ 10
    → e ≢ same
    → Weak (factor_by_ids u m fit e tags)
unfolding factor_by_ids
factor_by_ids-Weak u m fit same tags h ne = absurd (ne refl)
factor_by_ids-Weak u m fit same_stop tags h ne =
    scaled-Weak fit 80 (local_factor u m tags) (m.max_meters) h (omega arith)
      (local_factor_bound u m tags)
factor_by_ids-Weak u m fit different tags h ne = no_match-Weak
factor_by_ids-Weak u m fit unknown tags h ne = elim (Option-cases (m.name)) [
  | inl none_set ↦ rw none_set no_match-Weak
  | inr (name, e) ↦ rw e (elim (Bool-cases (best_name u name tags == 0)) [
    | inl zero_name ↦ rw zero_name no_match-Weak
    | inr positive ↦ rw positive (
        scaled-Weak fit (best_name u name tags) (local_factor u m tags) 100 h
          (omega (arith, best_name_bound u name tags)) (local_factor_bound u m tags))
  ])
]

factor_of_kind-Strong :
    (u : Unicode) (m : TransitMatcher) (tags : Tags) (k : Kind)
    → evidence m tags ≡ same
    → Strong (factor_of_kind u m tags k)
unfolding factor_of_kind
factor_of_kind-Strong u m tags k e =
    elim (Bool-cases
      ((fit_of m k tags == 0) || not (compatible (m.modes) (modes_from_tags tags)))) [
        | inl out ↦ rw out (inl refl)
        | inr into ↦ elim (fit_range m k tags) [
          | inl z ↦ absurd (ground (arith, into, z))
          | inr r ↦ rw (into, e) (factor_by_ids-Strong u m (fit_of m k tags) tags (r.0) (r.1))
        ]
      ]

factor_of_kind-Weak :
    (u : Unicode) (m : TransitMatcher) (tags : Tags) (k : Kind)
    → evidence m tags ≢ same
    → Weak (factor_of_kind u m tags k)
unfolding factor_of_kind
factor_of_kind-Weak u m tags k ne =
    elim (Bool-cases
      ((fit_of m k tags == 0) || not (compatible (m.modes) (modes_from_tags tags)))) [
        | inl out ↦ rw out no_match-Weak
        | inr into ↦ elim (fit_range m k tags) [
          | inl z ↦ absurd (ground (arith, into, z))
          | inr r ↦
              rw into (factor_by_ids-Weak u m (fit_of m k tags) (evidence m tags) tags (r.1) ne)
        ]
      ]

factor-Strong :
    (u : Unicode) (m : TransitMatcher) (tags : Tags)
    → evidence m tags ≡ same
    → Strong (factor u m tags)
unfolding factor factor_if_stop
factor-Strong u m tags e = elim (Option-cases (from_tags tags)) [
  | inl n ↦ rw n (inl refl)
  | inr (k, h) ↦ rw h (factor_of_kind-Strong u m tags k e)
]

factor-Weak :
    (u : Unicode) (m : TransitMatcher) (tags : Tags)
    → evidence m tags ≢ same
    → Weak (factor u m tags)
unfolding factor factor_if_stop
factor-Weak u m tags ne = elim (Option-cases (from_tags tags)) [
  | inl n ↦ rw n no_match-Weak
  | inr (k, h) ↦ rw h (factor_of_kind-Weak u m tags k ne)
]

score_at-no_match : (f : Factor) (o : Option ℕ) → f ≡ no_match → score_at f o ≡ 0
unfolding score_at no_match
score_at-no_match f none h = refl
score_at-no_match f (some d) h = rw h refl

score-Strong :
    (f : Factor) (o : Option ℕ) → Strong f → 0 < score_at f o → 8100 * f.radius ≤ score_at f o
score-Strong f o (inl e) pos = absurd (omega (arith, pos, score_at-no_match f o e))
score-Strong f o (inr (h, more)) pos =
    omega (arith, mul-le-mul_right (f.radius) h, score_at_min f o pos)

score-Weak : (f : Factor) (o : Option ℕ) → Weak f → score_at f o ≤ 8000 * f.radius
score-Weak f o (h, k) = omega (arith, mul-le-mul_right (f.radius) k, score_at_bound f o h)

evidence-SameId : (m : TransitMatcher) (tags : Tags) → SameId m tags → evidence m tags ≡ same
evidence-SameId m tags (id, (h, k)) =
    compare_ids-same (m.ids) (ids_from_tags tags)
      (share_text-IsIn (m.ids.ifopt) ((ids_from_tags tags).ifopt) id h k)

evidence-other : (m : TransitMatcher) (tags : Tags) → ¬ SameId m tags → evidence m tags ≢ same
evidence-other m tags ne =
    elim (Bool-cases (share_text (m.ids.ifopt) ((ids_from_tags tags).ifopt))) [
      | inl t ↦ absurd (ne (share_text→IsIn (m.ids.ifopt) ((ids_from_tags tags).ifopt) t))
      | inr f ↦ compare_ids-other (m.ids) (ids_from_tags tags) f
    ]

-- A candidate with an IFOPT id of the place that scores at all scores at least 0.81, and one without
-- at most 0.8, whatever the distances and the other tags.
pub score-SameId :
    (u : Unicode) (m : TransitMatcher) (a b : Tags) (da db : Option ℕ)
    → SameId m a
    → 0 < score_osm_candidate u m a da
    → ¬ SameId m b
    → (8100 * (factor u m a).radius ≤ score_osm_candidate u m a da)
      × (score_osm_candidate u m b db ≤ 8000 * (factor u m b).radius)
unfolding score_osm_candidate
score-SameId u m a b da db h pos other = (
  score-Strong (factor u m a) da (factor-Strong u m a (evidence-SameId m a h)) pos,
  score-Weak (factor u m b) db (factor-Weak u m b (evidence-other m b other)),
)
