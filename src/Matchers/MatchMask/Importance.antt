-- ===== src/Matchers/MatchMask/Importance.antt =====
-- The importance of a feature by its mask alone.
use osmdiffs.Base.{
  ℕ, ◌≤◌, true, ◌≡◌, ◌⊎◌, refl, ap, ◌∙◌, max, false, not, Option, none, some, List, [], ◌∷◌, arith,
  inl, inr, Bool-cases, if◌then◌else◌,
}
use osmdiffs.Base.Search.{any, filter}
use osmdiffs.Base.Predicates.{All}
use osmdiffs.Matchers.MatchMask.{
  MatchMask, union, is_empty, category_importance, reduce_max, unwrap_or, importance,
}
use osmdiffs.Matchers.MatchMask.Laws.{is_empty-union}
use osmdiffs.Matchers.MatchMask.Arms.{Bit, important}

-- The highest importance of the entries whose bit is set, 0 for none.
abbrev highest : MatchMask → List (Bit × ℕ) → ℕ
highest m [] = 0
highest m ((b, n) ∷ rest) = if m b then max n (highest m rest) else highest m rest

highest-union : (m n : MatchMask) (es : List (Bit × ℕ)) → highest m es ≤ highest (union m n) es
highest-union m n [] = omega arith
highest-union m n ((b, k) ∷ es) = ground (arith, highest-union m n es)

highest_bound : (m : MatchMask) (es : List (Bit × ℕ)) → All (λ e. e.1 ≤ 8) es → highest m es ≤ 8
highest_bound m [] h = omega arith
highest_bound m ((b, k) ∷ es) h = ground (arith, h.0, highest_bound m es h.1)

none_set :
    (m : MatchMask) (es : List (Bit × ℕ))
    → (if any (λ e. m (e.0)) es then highest m es else 0) ≡ highest m es
unfolding any
none_set m [] = refl
none_set m ((b, k) ∷ es) = ground (arith, none_set m es)

unwrap_or-reduce_max :
    (d : ℕ) (m : MatchMask) (es : List (Bit × ℕ))
    → unwrap_or d (reduce_max (filter (λ e. m (e.0)) es))
      ≡ (if any (λ e. m (e.0)) es then highest m es else d)
unfolding unwrap_or reduce_max filter any
unwrap_or-reduce_max d m [] = refl
unwrap_or-reduce_max d m ((b, k) ∷ es) = elim (Bool-cases (m b)) [
  | inl here ↦ rw here (rest (unwrap_or-reduce_max 0 m es))
  | inr absent ↦ rw absent (unwrap_or-reduce_max d m es)
]
  where
    below :
        (o : Option ℕ)
        → unwrap_or 0 o ≡ highest m es
        → unwrap_or d (elim o [ none ↦ some k | some j ↦ some (max k j) ]) ≡ max k (highest m es)
    below none h = omega (arith, h)
    below (some j) h = ap (max k) h

    rest :
        unwrap_or 0 (reduce_max (filter (λ e. m (e.0)) es))
          ≡ (if any (λ e. m (e.0)) es then highest m es else 0)
        → unwrap_or d (elim (reduce_max (filter (λ e. m (e.0)) es)) [
          | none ↦ some k
          | some j ↦ some (max k j)
        ])
          ≡ max k (highest m es)
    rest h = below (reduce_max (filter (λ e. m (e.0)) es)) (h ∙ none_set m es)

same_bits : (m : MatchMask) → any (λ e. m (e.0)) category_importance ≡ not (is_empty m)
unfolding any is_empty
same_bits m = ground arith

importance-cases :
    (m : MatchMask)
    → importance m
      ≡ (if m important then 10 else (if is_empty m then 3 else highest m category_importance))
unfolding importance
importance-cases m = ground (arith, same_bits m, unwrap_or-reduce_max 3 m category_importance)

highest_max : (m : MatchMask) → highest m category_importance ≤ 8
highest_max m = highest_bound m category_importance (ground arith)

highest_positive : (m : MatchMask) → is_empty m ≡ false → 1 ≤ highest m category_importance
unfolding is_empty any
highest_positive m h = ground arith

importance_range : (m : MatchMask) → (1 ≤ importance m) × (importance m ≤ 10)
importance_range m = elim (Bool-cases (is_empty m)) [
  | inl e ↦ (ground (arith, e, importance-cases m), ground (arith, e, importance-cases m))
  | inr e ↦ (
    ground (arith, e, importance-cases m, highest_positive m e),
    ground (arith, e, importance-cases m, highest_max m),
  )
]

importance_grows : (m n : MatchMask) → is_empty m ≡ false → importance m ≤ importance (union m n)
importance_grows m n h = ground (
  arith,
  h,
  importance-cases m,
  importance-cases (union m n),
  highest_max m,
  highest-union m n category_importance,
  is_empty-union m n,
)

-- The importance of any feature is from 0.1 to 1.0, whatever bits are set. Setting more bits never
-- lowers it, unless no category bit was set.
pub importance-union :
    (m n : MatchMask)
    → ((1 ≤ importance m) × (importance m ≤ 10))
      × ((is_empty m ≡ true) ⊎ (importance m ≤ importance (union m n)))
importance-union m n = elim (Bool-cases (is_empty m)) [
  | inl e ↦ (importance_range m, inl e)
  | inr e ↦ (importance_range m, inr (importance_grows m n e))
]
