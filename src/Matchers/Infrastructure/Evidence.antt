-- ===== src/Matchers/Infrastructure/Evidence.antt =====
-- What the ref and the confirming tags of a candidate say of it.
use Prim.Native.String.{String}
use osmdiffs.Base.{
  ℕ, ◌+◌, ◌*◌, ◌≤◌, ◌≡◌, refl, sym, ap, ◌∙◌, subst, true, some, List, [], ◌∷◌, arith, length,
  list_eq, list_eq_refl, list_eq→eq, Bool-cases, Option-cases, inl, inr,
}
use osmdiffs.Base.Search.{is_some_and, length-filter_map, map_option, map_option-some}
use osmdiffs.Base.Text.{Text, chars}
use osmdiffs.Matchers.Tags.{Tags, Unicode, tag_value}
use osmdiffs.Matchers.Score.{Place}
use osmdiffs.Matchers.Infrastructure.Kinds.{
  Kind, post_box, defibrillator, bench, fire_hydrant, public_bookcase, bicycle_parking,
  waste_basket, fountain, toilets, from_tags, confirming_keys,
}
use osmdiffs.Matchers.Infrastructure.{
  normalize_value, InfrastructureMatcher, confirming_values, matcher_of, for_place, osm_reference,
  same_ref, confirm, evidence,
}

-- Both sides have a ref, and the same one.
abbrev pub SameRef : Unicode → InfrastructureMatcher → Tags → Type 0
SameRef u m tags = (r : Text) × ((m.reference ≡ some r) × (osm_reference u m tags ≡ some r))

pub same_ref-SameRef :
    (u : Unicode) (m : InfrastructureMatcher) (tags : Tags)
    → SameRef u m tags
    → same_ref u m tags ≡ true
unfolding same_ref is_some_and
same_ref-SameRef u m tags (r, (h, k)) = rw (h, k) (list_eq_refl r)

pub same_ref→SameRef :
    (u : Unicode) (m : InfrastructureMatcher) (tags : Tags)
    → same_ref u m tags ≡ true
    → SameRef u m tags
unfolding same_ref is_some_and
same_ref→SameRef u m tags h = elim (Option-cases (m.reference)) [
  | inl e ↦ absurd (ground (arith, h, e))
  | inr (r, e) ↦ elim (Option-cases (osm_reference u m tags)) [
    | inl e' ↦ absurd (ground (arith, h, e, e'))
    | inr (s, e') ↦ (r, (e, e' ∙ ap some (sym (list_eq→eq r s (sym (rw (e, e') refl) ∙ h)))))
  ]
]

confirm_bound :
    (u : Unicode) (tags : Tags) (cs : List (String × Text)) (n : ℕ)
    → confirm u tags cs n ≤ n + 4 * length cs
unfolding confirm
confirm_bound u tags [] n = omega arith
confirm_bound u tags ((k, v) ∷ cs) n =
    elim (Bool-cases
      (is_some_and (λ osm. list_eq (normalize_value u (chars osm)) v) (tag_value k tags))) [
        | inl hit ↦ rw hit (omega (arith, confirm_bound u tags cs (n + 4)))
        | inr miss ↦ rw miss (omega (arith, confirm_bound u tags cs n))
      ]

few_keys : (kind : Kind) → length (confirming_keys kind) ≤ 1
few_keys post_box = omega arith
few_keys defibrillator = omega arith
few_keys bench = omega arith
few_keys fire_hydrant = omega arith
few_keys public_bookcase = omega arith
few_keys bicycle_parking = omega arith
few_keys waste_basket = omega arith
few_keys fountain = omega arith
few_keys toilets = omega arith

length-confirming_values :
    (u : Unicode) (k : Kind) (tags : Tags) → length (confirming_values u k tags) ≤ 1
unfolding confirming_values
length-confirming_values u k tags = omega (
  arith,
  few_keys k,
  length-filter_map {B = String × Text}
      (λ key. map_option (λ v. (key, normalize_value u (chars v))) (tag_value key tags))
      (confirming_keys k),
)

-- A matcher has no more than one confirming tag.
pub for_place-confirming :
    (u : Unicode) (p : Place) (m : InfrastructureMatcher)
    → for_place u p ≡ some m
    → length (m.confirming) ≤ 1
for_place-confirming u p m h =
    at_kind
      (map_option-some (λ kind. matcher_of u kind p) (from_tags (p.tags)) m (unfold for_place in h))
  where
    at_kind :
        (k : Kind) × ((from_tags (p.tags) ≡ some k) × (matcher_of u k p ≡ m))
        → length (m.confirming) ≤ 1
    at_kind (k, (e, f)) =
        subst (λ m'. length (m'.confirming) ≤ 1) f
          (unfold matcher_of in length-confirming_values u k (p.tags))

pub evidence_bound :
    (u : Unicode) (m : InfrastructureMatcher) (tags : Tags)
    → length (m.confirming) ≤ 1
    → evidence u m tags ≤ 88
unfolding evidence
evidence_bound u m tags h = ground (arith, h, confirm_bound u tags (m.confirming) 80)
