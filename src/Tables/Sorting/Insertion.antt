-- ===== src/Tables/Sorting/Insertion.antt =====
-- A sorter that meets the interface, so that the tables' theorems can be applied to concrete input.
use osmdiffs.Base.{◌≡◌, Bool, true, false, List, [], ◌∷◌, if◌then◌else◌, Bool-cases, inl, inr}
use osmdiffs.Base.Predicates.{All-imp, Pairwise}
use osmdiffs.Tables.Sorting.{
  Permutation, done, skip, swap, trans, ExternalSorter, Permutation-All, Permutation-sym,
}

module _ {A : Type 0} {R : A → A → Type 0} (leq : A → A → Bool)
    (below : (a b : A) → leq a b ≡ true → R a b) (above : (a b : A) → leq a b ≡ false → R b a)
    (chain : (a b c : A) → R a b → R b c → R a c) where
  insert : A → List A → List A
  insert a [] = a ∷ []
  insert a (x ∷ xs) = if leq a x then a ∷ x ∷ xs else x ∷ insert a xs

  insertion_sort : List A → List A
  unfolding insert
  insertion_sort [] = []
  insertion_sort (x ∷ xs) = insert x (insertion_sort xs)

  insert-perm : (a : A) (xs : List A) → Permutation (insert a xs) (a ∷ xs)
  unfolding insert
  insert-perm a [] = skip a done
  insert-perm a (x ∷ xs) = elim (Bool-cases (leq a x)) [
    | inl e ↦ rw e (same (a ∷ x ∷ xs))
    | inr e ↦ rw e (trans (skip x (insert-perm a xs)) (swap x a xs))
  ]
    where
      same : (ys : List A) → Permutation ys ys
      same = elim [ [] ↦ done | y ∷ (ys → ih) ↦ skip y ih ]

  sort-perm : (xs : List A) → Permutation (insertion_sort xs) xs
  unfolding insertion_sort
  sort-perm [] = done
  sort-perm (x ∷ xs) = trans (insert-perm x (insertion_sort xs)) (skip x (sort-perm xs))

  insert-sorted : (a : A) (xs : List A) → Pairwise R xs → Pairwise R (insert a xs)
  unfolding insert
  insert-sorted a [] h = (tt, tt)
  insert-sorted a (x ∷ xs) h = elim (Bool-cases (leq a x)) [
    | inl e ↦
        rw e ((below a x e, All-imp (R x) (R a) xs (λ y r. chain a x y (below a x e) r) h.0), h)
    | inr e ↦ rw e (
      Permutation-All (R x) (Permutation-sym (insert-perm a xs)) (above a x e, h.0),
      insert-sorted a xs h.1,
    )
  ]

  sort-sorted : (xs : List A) → Pairwise R (insertion_sort xs)
  unfolding insertion_sort
  sort-sorted [] = tt
  sort-sorted (x ∷ xs) = insert-sorted x (insertion_sort xs) (sort-sorted xs)

  pub insertion_sorter : ExternalSorter A R
  insertion_sorter = record { sort = insertion_sort; sorted = sort-sorted; permutes = sort-perm }
