-- ===== src/Base/Search.antt =====
-- Rust's iterator adaptors on lists: `any`, `all`, `find`, `filter_map` and their like.
use osmdiffs.Base.{
  ap, ◌∙◌, sym, ◌≡◌, refl, Bool, true, false, ◌&&◌, ◌||◌, Option, none, some, List, [], ◌∷◌, ◌++◌,
  if◌then◌else◌, arith, length, ◌≤◌, Option-cases, inl, inr,
}

module _ {ℓ} {A : Type ℓ} where
  unfoldable pub any : (A → Bool) → List A → Bool
  any p [] = false
  any p (x ∷ xs) = p x || any p xs

  unfoldable pub all : (A → Bool) → List A → Bool
  all p [] = true
  all p (x ∷ xs) = p x && all p xs

  unfoldable pub filter : (A → Bool) → List A → List A
  filter p [] = []
  filter p (x ∷ xs) = let rest = filter p xs in if p x then x ∷ rest else rest

  unfoldable pub find : (A → Bool) → List A → Option A
  find p [] = none
  find p (x ∷ xs) = if p x then some x else find p xs

  unfoldable pub is_some : Option A → Bool
  is_some none = false
  is_some (some a) = true

  unfoldable pub is_some_and : (A → Bool) → Option A → Bool
  is_some_and p none = false
  is_some_and p (some a) = p a

  -- `Option::or`.
  unfoldable pub or_else : Option A → Option A → Option A
  or_else none o = o
  or_else (some a) o = some a

  -- The elements of an optional one, as `into_iter` gives them.
  unfoldable pub option_list : Option A → List A
  option_list none = []
  option_list (some a) = a ∷ []

  unfoldable pub last : List A → Option A
  last [] = none
  last (x ∷ xs) = or_else (last xs) (some x)

  pub is_some-or_else : (a b : Option A) → is_some (or_else a b) ≡ (is_some a || is_some b)
  unfolding is_some or_else
  is_some-or_else none b = refl
  is_some-or_else (some a) b = refl

module _ {ℓ κ} {A : Type ℓ} {B : Type κ} where
  unfoldable pub flat_map : (A → List B) → List A → List B
  flat_map f [] = []
  flat_map f (x ∷ xs) = f x ++ flat_map f xs

  unfoldable pub filter_map : (A → Option B) → List A → List B
  unfolding option_list flat_map
  filter_map f xs = flat_map (λ x. option_list (f x)) xs

  unfoldable pub find_map : (A → Option B) → List A → Option B
  find_map f [] = none
  find_map f (x ∷ xs) = or_else (f x) (find_map f xs)

  unfoldable pub and_then : Option A → (A → Option B) → Option B
  and_then none f = none
  and_then (some a) f = f a

  unfoldable pub map_option : (A → B) → Option A → Option B
  map_option f none = none
  map_option f (some a) = some (f a)

module _ {ℓ} {A : Type ℓ} where
  pub any-or : (p q : A → Bool) (xs : List A) → any (λ x. p x || q x) xs ≡ (any p xs || any q xs)
  unfolding any
  any-or p q [] = refl
  any-or p q (x ∷ xs) = ground (arith, any-or p q xs)

  pub any-and_left :
      (p q : A → Bool) (xs : List A) → any (λ x. p x && q x) xs ≡ true → any p xs ≡ true
  unfolding any
  any-and_left p q [] h = h
  any-and_left p q (x ∷ xs) h = ground (arith, any-and_left p q xs)

module _ {ℓ κ} {A : Type ℓ} {B : Type κ} where
  pub length-filter_map : (f : A → Option B) (xs : List A) → length (filter_map f xs) ≤ length xs
  unfolding filter_map flat_map
  length-filter_map f [] = omega arith
  length-filter_map f (x ∷ xs) = elim (Option-cases (f x)) [
    | inl e ↦ rw e (ground (arith, length-filter_map f xs))
    | inr s ↦ rw (s.1) (ground (arith, length-filter_map f xs))
  ]

  -- A mapped option is there where the option is.
  pub map_option-some :
      (f : A → B) (o : Option A) (b : B)
      → map_option f o ≡ some b
      → (a : A) × ((o ≡ some a) × (f a ≡ b))
  unfolding map_option
  map_option-some f none b h = cc
  map_option-some f (some a) b h = (a, (refl, (cc)))

module _ {ℓ} {A : Type ℓ} where
  pub any-ext : (p q : A → Bool) (xs : List A) → ((x : A) → p x ≡ q x) → any p xs ≡ any q xs
  unfolding any
  any-ext p q [] h = refl
  any-ext p q (x ∷ xs) h = ground (arith, h x, any-ext p q xs h)

  pub any_constant : (xs : List A) → any (λ x. false) xs ≡ false
  unfolding any
  any_constant [] = refl
  any_constant (x ∷ xs) = any_constant xs

module _ {ℓ κ} {A : Type ℓ} {B : Type κ} where
  -- Two loops may change places.
  pub any-swap :
      (p : A → B → Bool) (xs : List A) (ys : List B)
      → any (λ x. any (p x) ys) xs ≡ any (λ y. any (λ x. p x y) xs) ys
  unfolding any
  any-swap p [] ys = sym (any_constant ys)
  any-swap p (x ∷ xs) ys =
      ap (λ r. any (p x) ys || r) (any-swap p xs ys)
      ∙ sym (any-or (p x) (λ y. any (λ x'. p x' y) xs) ys)
