-- ===== src/EditSuggesters/Poi/Settled.antt =====
-- Once an edit is applied, nothing is left to suggest.
use Prim.Native.String.{String}
use text.Mathlib.Text.{◌==◌ as str_eq}
use text.Mathlib.TextEquality.{eq_iff}
use text.Mathlib.TextPositions.{eq_refl}
use mathlib.Core.Option.{some-injective}
use osmdiffs.Base.{
  ◌≡◌, ◌≢◌, refl, sym, ap, ◌∙◌, subst, Bool, true, false, not, ◌&&◌, Option, none, some, [], ◌∷◌,
  ◌++◌, arith, Bool-cases, inl, inr, if◌then◌else◌,
}
use osmdiffs.Base.Predicates.{All, Pairwise, IsIn}
use osmdiffs.Base.Search.{filter, or_else, is_some_and}
use osmdiffs.Base.Text.{is_empty}
use osmdiffs.Matchers.Tags.{Tag, Tags}
use osmdiffs.EditSuggesters.Poi.{is_atp_tag_trustworthy, collected, differs, is_edit, suggest_edit}

-- No key twice.
abbrev pub HasDistinctKeys : Tags → Type 0
HasDistinctKeys = Pairwise (λ s t. s.0 ≢ t.0)

or_else_assoc : (a b c : Option String) → or_else (or_else a b) c ≡ or_else a (or_else b c)
unfolding or_else
or_else_assoc none b c = refl
or_else_assoc (some a) b c = refl

or_else-none : (a : Option String) → or_else a none ≡ a
unfolding or_else
or_else-none none = refl
or_else-none (some a) = refl

collected-append :
    (key : String) (xs ys : Tags)
    → collected key (xs ++ ys) ≡ or_else (collected key ys) (collected key xs)
unfolding collected
collected-append key [] ys = sym (or_else-none (collected key ys))
collected-append key ((k, v) ∷ xs) ys =
    ap (λ o. or_else o (if str_eq k key then some v else none)) (collected-append key xs ys)
    ∙ or_else_assoc (collected key ys) (collected key xs) (if str_eq k key then some v else none)

absent :
    (p : Tag → Bool) (key : String) (tags : Tags)
    → All (λ t. key ≢ t.0) tags
    → collected key (filter p tags) ≡ none
unfolding collected filter
absent p key [] h = refl
absent p key ((k, v) ∷ tags) h = elim (Bool-cases (p (k, v))) [
  | inl t ↦ rw t (rw (absent p key tags h.1) (other (h.0)))
  | inr f ↦ rw f (absent p key tags h.1)
]
  where
    other : key ≢ k → or_else none (if str_eq k key then some v else none) ≡ none
    other ne = unfold or_else in ground (arith, eq_iff k key, λ (e : k ≡ key). ne (sym e))

-- Among distinct keys, a tag's value is found in the filtered list exactly if it is kept.
kept :
    (p : Tag → Bool) (t : Tag) (tags : Tags)
    → HasDistinctKeys tags
    → IsIn t tags
    → collected (t.0) (filter p tags) ≡ (if p t then some (t.1) else none)
unfolding filter collected
kept p t [] d h = absurd h
kept p t (s ∷ tags) d (inl e) = elim (Bool-cases (p s)) [
  | inl yes_p ↦
      subst (λ r. collected (r.0) (filter p (s ∷ tags)) ≡ (if p r then some (r.1) else none))
        (sym e) (rw yes_p (rw (absent p (s.0) tags d.0) (same (s.0) (s.1))))
  | inr no_p ↦
      subst (λ r. collected (r.0) (filter p (s ∷ tags)) ≡ (if p r then some (r.1) else none))
        (sym e) (rw no_p (absent p (s.0) tags d.0))
]
  where
    same : (k v : String) → or_else none (if str_eq k k then some v else none) ≡ some v
    same k v = unfold or_else in rw (eq_refl k) refl
kept p t (s ∷ tags) d (inr h) = elim (Bool-cases (p s)) [
  | inl yes_p ↦ rw yes_p (
      ap (λ o. or_else (collected (t.0) (filter p tags)) o) (other (s.0) (s.1) (apart tags d.0 h))
      ∙ (or_else-none (collected (t.0) (filter p tags)) ∙ kept p t tags d.1 h))
  | inr no_p ↦ rw no_p (kept p t tags d.1 h)
]
  where
    other : (k v : String) → k ≢ t.0 → (if str_eq k (t.0) then some v else none) ≡ none
    other k v ne = ground (arith, eq_iff k (t.0), ne)

    apart : (ts : Tags) → All (λ r. s.0 ≢ r.0) ts → IsIn t ts → s.0 ≢ t.0
    apart [] a i = absurd i
    apart (r ∷ ts) a (inl e) = λ q. a.0 (q ∙ ap (λ x. x.0) e)
    apart (r ∷ ts) a (inr i) = apart ts a.1 i

filter-none :
    (q : Tag → Bool) (tags : Tags) → ((t : Tag) → IsIn t tags → q t ≡ false) → filter q tags ≡ []
unfolding filter
filter-none q [] h = refl
filter-none q (t ∷ tags) h = rw (h t (inl refl)) (filter-none q tags (λ s i. h s (inr i)))

is_edit-value :
    (tags : Tags) (t : Tag) (o : Option String)
    → collected (t.0) tags ≡ o
    → is_edit tags t ≡ (is_atp_tag_trustworthy (t.0) && not (is_some_and (str_eq (t.1)) o))
unfolding is_edit differs
is_edit-value tags t o h =
    ap (λ r. is_atp_tag_trustworthy (t.0) && not (is_some_and (str_eq (t.1)) r)) h

agrees :
    (t : Tag)
    → (is_atp_tag_trustworthy (t.0) && not (is_some_and (str_eq (t.1)) (some (t.1)))) ≡ false
unfolding is_some_and
agrees t = ground (arith, eq_refl (t.1))

module _ (atp osm : Tags) (distinct : HasDistinctKeys atp) where
  new_value :
      (t : Tag)
      → IsIn t atp
      → collected (t.0) (osm ++ filter (is_edit osm) atp)
        ≡ or_else (if is_edit osm t then some (t.1) else none) (collected (t.0) osm)
  new_value t i =
      collected-append (t.0) osm (filter (is_edit osm) atp)
      ∙ ap (λ o. or_else o (collected (t.0) osm)) (kept (is_edit osm) t atp distinct i)

  settled : (t : Tag) → IsIn t atp → is_edit (osm ++ filter (is_edit osm) atp) t ≡ false
  settled t i = elim (Bool-cases (is_edit osm t)) [
    | inl edited ↦
        is_edit-value (osm ++ filter (is_edit osm) atp) t (some (t.1))
          (new_value t i ∙ (unfold or_else in rw edited refl))
        ∙ agrees t
    | inr unedited ↦
        is_edit-value (osm ++ filter (is_edit osm) atp) t (collected (t.0) osm)
          (new_value t i ∙ (unfold or_else in rw unedited refl))
        ∙ (sym (is_edit-value osm t (collected (t.0) osm) refl) ∙ unedited)
  ]

  -- If no key of the place stands twice, then with the suggested edit added to the tags of the
  -- feature nothing is left to suggest.
  pub suggest_edit-settled :
      (edit : Tags) → suggest_edit atp osm ≡ some edit → suggest_edit atp (osm ++ edit) ≡ none
  suggest_edit-settled edit h = elim (Bool-cases (is_empty (filter (is_edit osm) atp))) [
    | inl e ↦ absurd (none_left e)
    | inr e ↦ subst (λ r. suggest_edit atp (osm ++ r) ≡ none) (same_edit e) nothing
  ]
    where
      none_left : is_empty (filter (is_edit osm) atp) ≡ true → ⊥
      none_left e = unfold suggest_edit in ground (arith, h, e)

      found :
          is_empty (filter (is_edit osm) atp) ≡ false
          → suggest_edit atp osm ≡ some (filter (is_edit osm) atp)
      found e = unfold suggest_edit in rw e refl

      same_edit : is_empty (filter (is_edit osm) atp) ≡ false → filter (is_edit osm) atp ≡ edit
      same_edit e = some-injective (filter (is_edit osm) atp) edit (sym (found e) ∙ h)

      nothing : suggest_edit atp (osm ++ filter (is_edit osm) atp) ≡ none
      nothing =
          unfold suggest_edit is_empty in
          rw (filter-none (is_edit (osm ++ filter (is_edit osm) atp)) atp settled) refl
