-- ===== src/Base/Words.antt =====
-- The words of a text, and its last one.
use osmdiffs.Base.{
  ℕ, ◌≡◌, refl, sym, ap, ◌∙◌, Bool, true, false, not, Option, none, some, List, [], ◌∷◌, ◌++◌,
  Bool-cases, inl, inr,
}
use osmdiffs.Base.Search.{filter, or_else, last}
use osmdiffs.Base.Text.{Text, is_empty, is_whitespace, push_front, split, split_whitespace}

-- A text has at least one part.
pub split-cases :
    (p : ℕ → Bool) (s : Text) → (part : Text) × (parts : List Text) × (split p s ≡ part ∷ parts)
unfolding split push_front
split-cases p [] = ([], [], refl)
split-cases p (c ∷ s) = elim (Bool-cases (p c)) [
  | inl cut ↦ ([], split p s, rw cut refl)
  | inr on ↦ let (part, parts, e) = split-cases p s in (c ∷ part, parts, rw (on, e) refl)
]

split-append :
    (p : ℕ → Bool) (t : Text) (w : ℕ) (s : Text)
    → p w ≡ true
    → split p (t ++ (w ∷ s)) ≡ split p t ++ split p s
unfolding split push_front
split-append p [] w s h = rw h refl
split-append p (c ∷ t) w s h = elim (Bool-cases (p c)) [
  | inl cut ↦ rw cut (ap (λ r. [] ∷ r) (split-append p t w s h))
  | inr on ↦
      let (part, parts, e) = split-cases p t in
      rw on (ap (push_front c) (split-append p t w s h) ∙ rw e refl)
]

filter-append :
    (p : Text → Bool) (xs ys : List Text) → filter p (xs ++ ys) ≡ filter p xs ++ filter p ys
unfolding filter
filter-append p [] ys = refl
filter-append p (x ∷ xs) ys = elim (Bool-cases (p x)) [
  | inl t ↦ rw t (ap (λ r. x ∷ r) (filter-append p xs ys))
  | inr f ↦ rw f (filter-append p xs ys)
]

or_else-some :
    (o : Option Text) (x y : Text) → or_else (or_else o (some x)) (some y) ≡ or_else o (some x)
unfolding or_else
or_else-some none x y = refl
or_else-some (some z) x y = refl

last-append : (xs : List Text) (y : Text) (ys : List Text) → last (xs ++ (y ∷ ys)) ≡ last (y ∷ ys)
unfolding last
last-append [] y ys = refl
last-append (x ∷ xs) y ys =
    ap (λ o. or_else o (some x)) (last-append xs y ys) ∙ or_else-some (last ys) y x

abbrev pub words : List Text → List Text
words parts = filter (λ w. not (is_empty w)) parts

-- A visible character in front makes the first word longer.
pub split_whitespace-visible :
    (c : ℕ) (s part : Text) (parts : List Text)
    → is_whitespace c ≡ false
    → split is_whitespace s ≡ part ∷ parts
    → (split is_whitespace (c ∷ s) ≡ (c ∷ part) ∷ parts)
      × (split_whitespace (c ∷ s) ≡ (c ∷ part) ∷ words parts)
unfolding split_whitespace split push_front filter is_empty
split_whitespace-visible c s part parts h e = (rw (h, e) refl, rw (h, e) refl)

-- What stands before white space does not count for the last word of what follows.
pub last_word-append :
    (t : Text) (w c : ℕ) (s : Text)
    → is_whitespace w ≡ true
    → is_whitespace c ≡ false
    → last (split_whitespace (t ++ (w ∷ (c ∷ s)))) ≡ last (split_whitespace (c ∷ s))
unfolding split_whitespace
last_word-append t w c s hw hc =
    let (part, parts, q) = split-cases is_whitespace s in
    let e : words (split is_whitespace (c ∷ s)) ≡ (c ∷ part) ∷ words parts =
      (split_whitespace-visible c s part parts hc q).1 in
    ap (λ r. last (words r)) (split-append is_whitespace t w (c ∷ s) hw)
    ∙ ap last (
        filter-append (λ v. not (is_empty v)) (split is_whitespace t) (split is_whitespace (c ∷ s)))
    ∙ ap (λ r. last (words (split is_whitespace t) ++ r)) e
    ∙ last-append (words (split is_whitespace t)) (c ∷ part) (words parts)
    ∙ ap last (sym e)
