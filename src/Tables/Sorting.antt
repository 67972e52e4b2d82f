-- ===== src/Tables/Sorting.antt =====
-- The external sorter (crate ext_sort) that every `create` runs its input through: a parameter,
-- of which the tables rely on its result being a sorted permutation of its input.
pub mod Insertion
use osmdiffs.Base.Search.{any}
use osmdiffs.Base.{arith, Bool, suc, ◌≡◌, refl, ap, ◌∙◌, List, [], ◌∷◌, length, inl, inr}
use osmdiffs.Base.Predicates.{All, Pairwise, IsIn}

-- The same elements, as often, in another order.
pub data Permutation {A : Type 0} : List A → List A → Type 0 where
  done : Permutation [] []
  skip : (x : A) {xs ys : List A} → Permutation xs ys → Permutation (x ∷ xs) (x ∷ ys)
  swap : (x y : A) (xs : List A) → Permutation (x ∷ y ∷ xs) (y ∷ x ∷ xs)
  trans : {xs ys zs : List A} → Permutation xs ys → Permutation ys zs → Permutation xs zs

-- `R` is the order that the item type derives.
pub record ExternalSorter (A : Type 0) (R : A → A → Type 0) : Type 0 where
  pub sort : List A → List A
  pub sorted : (xs : List A) → Pairwise R (sort xs)
  pub permutes : (xs : List A) → Permutation (sort xs) xs

module _ {A : Type 0} where
  pub Permutation-All : (P : A → Type 0) {xs ys : List A} → Permutation xs ys → All P xs → All P ys
  Permutation-All P done h = h
  Permutation-All P (skip x p) h = (h.0, Permutation-All P p h.1)
  Permutation-All P (swap x y xs) h = (h.1.0, (h.0, h.1.1))
  Permutation-All P (trans p q) h = Permutation-All P q (Permutation-All P p h)

  pub Permutation-sym : {xs ys : List A} → Permutation xs ys → Permutation ys xs
  Permutation-sym done = done
  Permutation-sym (skip x p) = skip x (Permutation-sym p)
  Permutation-sym (swap x y xs) = swap y x xs
  Permutation-sym (trans p q) = trans (Permutation-sym q) (Permutation-sym p)

  pub Permutation-IsIn : (a : A) {xs ys : List A} → Permutation xs ys → IsIn a xs → IsIn a ys
  Permutation-IsIn a done h = h
  Permutation-IsIn a (skip x p) (inl e) = inl e
  Permutation-IsIn a (skip x p) (inr h) = inr (Permutation-IsIn a p h)
  Permutation-IsIn a (swap x y xs) (inl e) = inr (inl e)
  Permutation-IsIn a (swap x y xs) (inr (inl e)) = inl e
  Permutation-IsIn a (swap x y xs) (inr (inr h)) = inr (inr h)
  Permutation-IsIn a (trans p q) h = Permutation-IsIn a q (Permutation-IsIn a p h)

  -- A symmetric relation between all pairs does not depend on the order.
  pub Permutation-Pairwise :
      (R : A → A → Type 0) {xs ys : List A}
      → ((a b : A) → R a b → R b a)
      → Permutation xs ys
      → Pairwise R xs
      → Pairwise R ys
  Permutation-Pairwise R symm done h = h
  Permutation-Pairwise R symm (skip x p) h =
      (Permutation-All (R x) p h.0, Permutation-Pairwise R symm p h.1)
  Permutation-Pairwise R symm (swap x y xs) h = ((symm x y h.0.0, h.1.0), (h.0.1, h.1.1))
  Permutation-Pairwise R symm (trans p q) h =
      Permutation-Pairwise R symm q (Permutation-Pairwise R symm p h)

  pub length-Permutation : {xs ys : List A} → Permutation xs ys → length xs ≡ length ys
  length-Permutation done = refl
  length-Permutation (skip x p) = ap suc (length-Permutation p)
  length-Permutation (swap x y xs) = refl
  length-Permutation (trans p q) = length-Permutation p ∙ length-Permutation q

  pub any-Permutation : (p : A → Bool) {xs ys : List A} → Permutation xs ys → any p xs ≡ any p ys
  unfolding any
  any-Permutation p done = refl
  any-Permutation p (skip x h) = ground (arith, any-Permutation p h)
  any-Permutation p (swap x y xs) = ground arith
  any-Permutation p (trans h k) = any-Permutation p h ∙ any-Permutation p k
