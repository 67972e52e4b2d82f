-- ===== src/Base/Predicates.antt =====
-- Predicates on lists by recursion, which compute to tuples.
use Prim.Native.Nat.{ℕ, zero, suc, ◌<◌}
use mathlib.Core.Path.{◌≡◌}
use mathlib.Core.Logic.{◌⊎◌}
use mathlib.Core.List.{List, [], ◌∷◌, ◌++◌}
use native.Mathlib.Omega.{arith}
use osmdiffs.Base.Lists.{length, get_or}

module _ {ℓ} {A : Type ℓ} where
  abbrev pub All {κ} : (A → Type κ) → List A → Type κ
  All P [] = Unit
  All P (x ∷ xs) = P x × All P xs

  abbrev pub Any : (A → Type 0) → List A → Type 0
  Any P [] = ⊥
  Any P (x ∷ xs) = P x ⊎ Any P xs

  -- Every element stands in `R` to all that follow it.
  abbrev pub Pairwise {κ} : (A → A → Type κ) → List A → Type κ
  Pairwise R [] = Unit
  Pairwise R (x ∷ xs) = All (R x) xs × Pairwise R xs

  pub All-append {κ} : (P : A → Type κ) (xs ys : List A) → All P xs → All P ys → All P (xs ++ ys)
  All-append P [] ys hx hy = hy
  All-append P (x ∷ xs) ys hx hy = (hx.0, All-append P xs ys hx.1 hy)

  pub All-imp {κ μ} :
      (P : A → Type κ) (Q : A → Type μ) (xs : List A) → ((a : A) → P a → Q a) → All P xs → All Q xs
  All-imp P Q [] f h = tt
  All-imp P Q (x ∷ xs) f h = (f x h.0, All-imp P Q xs f h.1)

  pub All-get_or {κ} :
      (P : A → Type κ) (xs : List A) (i : ℕ) (d : A) → All P xs → i < length xs → P (get_or xs i d)
  All-get_or P [] i d h lt = absurd (omega arith)
  All-get_or P (x ∷ xs) zero d h lt = h.0
  All-get_or P (x ∷ xs) (suc i) d h lt = All-get_or P xs i d h.1 (omega arith)

  pub Pairwise-get_or {κ} :
      (R : A → A → Type κ) (xs : List A) (i j : ℕ) (d : A)
      → Pairwise R xs
      → i < j
      → j < length xs
      → R (get_or xs i d) (get_or xs j d)
  Pairwise-get_or R [] i j d h lt lj = absurd (omega arith)
  Pairwise-get_or R (x ∷ xs) zero zero d h lt lj = absurd (omega arith)
  Pairwise-get_or R (x ∷ xs) zero (suc j) d h lt lj = All-get_or (R x) xs j d h.0 (omega arith)
  Pairwise-get_or R (x ∷ xs) (suc i) zero d h lt lj = absurd (omega arith)
  Pairwise-get_or R (x ∷ xs) (suc i) (suc j) d h lt lj =
      Pairwise-get_or R xs i j d h.1 (omega arith) (omega arith)

-- `a` stands in the list, at a known place.
abbrev pub IsIn : {A : Type 0} → A → List A → Type 0
IsIn a [] = ⊥
IsIn a (x ∷ xs) = (a ≡ x) ⊎ IsIn a xs
