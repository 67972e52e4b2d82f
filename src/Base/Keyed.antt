-- ===== src/Base/Keyed.antt =====
-- A `HashMap` as an association list with one entry for each key, by a test of equality on keys.
use osmdiffs.Base.{
  ◌≡◌, refl, sym, ap, subst, Bool, true, false, Option, none, some, List, [], ◌∷◌, if◌then◌else◌,
  Bool-cases, inl, inr,
}

unfoldable pub value_or {ℓ} : {V : Type ℓ} → V → Option V → V
value_or d none = d
value_or d (some v) = v

module _ {ℓ κ} {K : Type ℓ} {V : Type κ} where
  unfoldable pub get : (K → K → Bool) → K → List (K × V) → Option V
  get eq key [] = none
  get eq key ((k, v) ∷ m) = if eq k key then some v else get eq key m

  -- `*map.entry(key).or_default() = f(…)`.
  unfoldable pub update : (K → K → Bool) → K → V → (V → V) → List (K × V) → List (K × V)
  update eq key default f [] = (key, f default) ∷ []
  update eq key default f ((k, v) ∷ m) =
      let rest = update eq key default f m in if eq k key then (k, f v) ∷ m else (k, v) ∷ rest

  update_same :
      (eq : K → K → Bool) (key k : K) (d v : V) (f : V → V) (m : List (K × V))
      → eq k key ≡ true
      → update eq key d f ((k, v) ∷ m) ≡ (k, f v) ∷ m
  unfolding update
  update_same eq key k d v f m h = rw h refl

  update_other :
      (eq : K → K → Bool) (key k : K) (d v : V) (f : V → V) (m : List (K × V))
      → eq k key ≡ false
      → update eq key d f ((k, v) ∷ m) ≡ (k, v) ∷ update eq key d f m
  unfolding update
  update_other eq key k d v f m h = rw h refl

  pub get-update_same :
      (eq : K → K → Bool) (key : K) (d : V) (f : V → V) (m : List (K × V))
      → ((k : K) → eq k k ≡ true)
      → get eq key (update eq key d f m) ≡ some (f (value_or d (get eq key m)))
  unfolding get value_or
  get-update_same eq key d f [] same = unfold update in rw (same key) refl
  get-update_same eq key d f ((k, v) ∷ m) same = elim (Bool-cases (eq k key)) [
    | inl h ↦ rw (update_same eq key k d v f m h) (rw h refl)
    | inr h ↦ rw (update_other eq key k d v f m h) (rw h (get-update_same eq key d f m same))
  ]

  pub get-update_other :
      (eq : K → K → Bool) (key other : K) (d : V) (f : V → V) (m : List (K × V))
      → eq key other ≡ false
      → ((k : K) → eq k key ≡ true → eq k other ≡ false)
      → get eq other (update eq key d f m) ≡ get eq other m
  unfolding get
  get-update_other eq key other d f [] new apart = unfold update in rw new refl
  get-update_other eq key other d f ((k, v) ∷ m) new apart = elim (Bool-cases (eq k key)) [
    | inl h ↦ rw (update_same eq key k d v f m h) (rw (apart k h) refl)
    | inr h ↦
        rw (update_other eq key k d v f m h) (
          ap (λ r. if eq k other then some v else r)
            (get-update_other eq key other d f m new apart))
  ]

  -- A lookup after an update, where the test on keys is equality.
  pub get-update :
      (eq : K → K → Bool) (key other : K) (d : V) (f : V → V) (m : List (K × V))
      → ((a : K) → eq a a ≡ true)
      → ((a b : K) → eq a b ≡ true → a ≡ b)
      → get eq other (update eq key d f m)
        ≡ (if eq key other then some (f (value_or d (get eq other m))) else get eq other m)
  get-update eq key other d f m same sound = elim (Bool-cases (eq key other)) [
    | inl h ↦ rw h (
        subst (λ k. get eq k (update eq key d f m) ≡ some (f (value_or d (get eq k m))))
          (sound key other h) (get-update_same eq key d f m same))
    | inr h ↦ rw h (
        get-update_other eq key other d f m h
          (λ k e. subst (λ j. eq j other ≡ false) (sym (sound k key e)) h))
  ]
