-- ===== src/Pipeline/Deletion/Folds.antt =====
-- What a loop keeps, and what one of its rounds brings about.
use osmdiffs.Base.{List, [], ◌∷◌, inl, inr}
use osmdiffs.Base.Predicates.{Any}
use osmdiffs.Pipeline.Deletion.Coverage.{fold}

module _ {ℓ κ μ} {A : Type ℓ} {B : Type κ} where
  pub fold-keeps :
      (P : B → Type μ) (f : B → A → B) (b : B) (xs : List A)
      → ((c : B) (x : A) → P c → P (f c x))
      → P b
      → P (fold f b xs)
  unfolding fold
  fold-keeps P f b [] keeps h = h
  fold-keeps P f b (x ∷ xs) keeps h = fold-keeps P f (f b x) xs keeps (keeps b x h)

  -- What one element brings about stays.
  pub fold-reaches :
      (P : B → Type μ) (Q : A → Type 0) (f : B → A → B) (b : B) (xs : List A)
      → ((c : B) (x : A) → P c → P (f c x))
      → ((c : B) (x : A) → Q x → P (f c x))
      → Any Q xs
      → P (fold f b xs)
  unfolding fold
  fold-reaches P Q f b [] keeps reach h = absurd h
  fold-reaches P Q f b (x ∷ xs) keeps reach (inl q) = fold-keeps P f (f b x) xs keeps (reach b x q)
  fold-reaches P Q f b (x ∷ xs) keeps reach (inr h) = fold-reaches P Q f (f b x) xs keeps reach h
