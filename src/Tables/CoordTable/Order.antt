-- ===== src/Tables/CoordTable/Order.antt =====
-- Which entries rise once sorted, before and after packing.
use mathlib.Core.Option.{Option}
use mathlib.Core.Option
use osmdiffs.Base.{
  ℕ, ◌≤◌, ◌<◌, ◌≡◌, ◌≢◌, refl, ap, List, [], ◌∷◌, suc, length, ◌==◌, arith, Bool-cases, inl, inr,
  ◌↔◌,
}
use osmdiffs.Base.Bytes.{Fits}
use osmdiffs.Base.Predicates.{All, All-imp, Pairwise}
use osmdiffs.Tables.Entries.{KeyLe, Distinct, find}
use osmdiffs.Tables.CoordTable.{FixedPoint, pack_coord, pack_entries}
use osmdiffs.Tables.CoordTable.Packing.{pack_fits}
use osmdiffs.Tables.CoordTable.Writing.{Rising, coords_of}

later :
    (k : ℕ) (es : List (ℕ × ℕ))
    → All (λ (e : ℕ × ℕ). k ≤ e.0) es
    → All (λ (e : ℕ × ℕ). k ≢ e.0) es
    → All (λ (e : ℕ × ℕ). k < e.0) es
later k [] le ne = tt
later k (e ∷ es) le ne = (ground (arith, le.0, ne.0), later k es le.1 ne.1)

pub Distinct-Rising :
    (last : ℕ) (es : List (ℕ × ℕ))
    → Pairwise KeyLe es
    → Distinct es
    → All (λ (e : ℕ × ℕ). last < e.0) es
    → Rising last es
Distinct-Rising last [] s d h = tt
Distinct-Rising last ((k, v) ∷ es) s d h = (h.0, Distinct-Rising k es s.1 d.1 (later k es s.0 d.0))

pub Rising-All :
    (last : ℕ) (es : List (ℕ × ℕ)) → Rising last es → All (λ (e : ℕ × ℕ). last < e.0) es
Rising-All last [] h = tt
Rising-All last ((k, v) ∷ es) h = (
  h.0,
  All-imp (λ (e : ℕ × ℕ). k < e.0) (λ (e : ℕ × ℕ). last < e.0) es (λ e lt. omega (arith, h.0))
      (Rising-All k es h.1),
)

pub Rising-Distinct : (last : ℕ) (es : List (ℕ × ℕ)) → Rising last es → Distinct es
Rising-Distinct last [] h = tt
Rising-Distinct last ((k, v) ∷ es) h = (
  All-imp (λ (e : ℕ × ℕ). k < e.0) (λ (e : ℕ × ℕ). k ≢ e.0) es (λ e lt. omega arith)
      (Rising-All k es h.1),
  Rising-Distinct k es h.1,
)

pub length-coords_of : (es : List (ℕ × ℕ)) → length (coords_of es) ≡ length es
length-coords_of [] = refl
length-coords_of ((k, v) ∷ es) = ap suc (length-coords_of es)

pub coords_of-Fits :
    (es : List (ℕ × ℕ)) → All (λ (e : ℕ × ℕ). Fits 8 e.1) es → All (Fits 8) (coords_of es)
coords_of-Fits [] h = tt
coords_of-Fits ((k, v) ∷ es) h = (h.0, coords_of-Fits es h.1)

-- Packing changes no key.
module _ {F : Type 0} (fp : FixedPoint F) where
  pub All-pack_entries :
      (P : ℕ → Type 0) (es : List (ℕ × (F × F)))
      → All (λ (e : ℕ × (F × F)). P e.0) es ↔ All (λ (e : ℕ × ℕ). P e.0) (pack_entries fp es)
  unfolding pack_entries
  All-pack_entries P [] = (λ h. tt, λ h. tt)
  All-pack_entries P ((k, c) ∷ es) =
      let (there, back) = All-pack_entries P es in (λ h. (h.0, there h.1), λ h. (h.0, back h.1))

  pub Distinct-pack_entries :
      (es : List (ℕ × (F × F))) → Distinct es ↔ Distinct (pack_entries fp es)
  unfolding pack_entries
  Distinct-pack_entries [] = (λ h. tt, λ h. tt)
  Distinct-pack_entries ((k, c) ∷ es) =
      let (there, back) = Distinct-pack_entries es in
      let (apart, joined) = All-pack_entries (λ n. k ≢ n) es in
      (λ h. (apart h.0, there h.1), λ h. (joined h.0, back h.1))

  pub length-pack_entries : (es : List (ℕ × (F × F))) → length (pack_entries fp es) ≡ length es
  unfolding pack_entries
  length-pack_entries [] = refl
  length-pack_entries ((k, c) ∷ es) = ap suc (length-pack_entries es)

  pub pack_entries-Fits :
      (es : List (ℕ × (F × F))) → All (λ (e : ℕ × ℕ). Fits 8 e.1) (pack_entries fp es)
  unfolding pack_entries pack_coord
  pack_entries-Fits [] = tt
  pack_entries-Fits ((k, (x, y)) ∷ es) = (
    pack_fits (fp.to_fixed x) (fp.to_fixed y) (fp.to_fixed_small x) (fp.to_fixed_small y),
    pack_entries-Fits es,
  )

  pub find-pack_entries :
      (es : List (ℕ × (F × F))) (key : ℕ)
      → find (pack_entries fp es) key ≡ Option.map (pack_coord fp) (find es key)
  unfolding pack_entries find
  find-pack_entries [] key = refl
  find-pack_entries ((k, c) ∷ es) key = elim (Bool-cases (k == key)) [
    | inl found ↦ rw found refl
    | inr other ↦ rw other (find-pack_entries es key)
  ]
