-- ===== src/Tables/Entries.antt =====
-- Entries of a u64 key and a value, which the tables from keys to values are made of.
use osmdiffs.Base.{
  ℕ, suc, ◌≤◌, ◌≡◌, ◌≢◌, refl, sym, ap, ◌∙◌, Option, none, some, List, [], ◌∷◌, length,
  if◌then◌else◌, ◌==◌, arith, leb, leb→le, leb_false→le,
}
use osmdiffs.Base.Bytes.{Fits}
use osmdiffs.Base.Predicates.{All, Pairwise}
use osmdiffs.Tables.Sorting.Insertion.{insertion_sorter}
use osmdiffs.Tables.Sorting.{
  ExternalSorter, Permutation, done, skip, swap, trans, Permutation-Pairwise,
}
use osmdiffs.Tables.SortedU64Index.Lookup.{NonDescending}

module _ {V : Type 0} where
  -- The order of the sorted entries: tuples compare their keys first.
  abbrev pub KeyLe : ℕ × V → ℕ × V → Type 0
  KeyLe a b = a.0 ≤ b.0

  abbrev pub keys_of : List (ℕ × V) → List ℕ
  keys_of [] = []
  keys_of ((k, v) ∷ es) = k ∷ keys_of es

  -- The abstract map: the first entry with the key.
  unfoldable pub find : List (ℕ × V) → ℕ → Option V
  find [] key = none
  find ((k, v) ∷ es) key = if k == key then some v else find es key

  -- No key stands twice.
  abbrev pub Distinct : List (ℕ × V) → Type 0
  Distinct = Pairwise (λ (a b : ℕ × V). a.0 ≢ b.0)

  find-swap :
      (x y : ℕ × V) (es : List (ℕ × V)) (key : ℕ)
      → x.0 ≢ y.0
      → find (x ∷ y ∷ es) key ≡ find (y ∷ x ∷ es) key
  unfolding find
  find-swap (j, b) (k, c) es key ne = ground arith

  find-cons :
      (x : ℕ × V) (xs ys : List (ℕ × V)) (key : ℕ)
      → find xs key ≡ find ys key
      → find (x ∷ xs) key ≡ find (x ∷ ys) key
  unfolding find
  find-cons (k, b) xs ys key e = ap (λ r. if k == key then some b else r) e

  -- The order of the entries does not matter to the map.
  pub find-Permutation :
      {xs ys : List (ℕ × V)} (key : ℕ) → Permutation xs ys → Distinct xs → find xs key ≡ find ys key
  find-Permutation key done h = refl
  find-Permutation key (skip x p) h = find-cons x _ _ key (find-Permutation key p h.1)
  find-Permutation key (swap x y es) h = find-swap x y es key h.0.0
  find-Permutation key (trans p q) h =
      find-Permutation key p h
      ∙ find-Permutation key q
          (Permutation-Pairwise (λ (a b : ℕ × V). a.0 ≢ b.0) (λ a b ne e. ne (sym e)) p h)

  pub sorted-NonDescending : (es : List (ℕ × V)) → Pairwise KeyLe es → NonDescending (keys_of es)
  sorted-NonDescending [] h = tt
  sorted-NonDescending ((k, b) ∷ es) h = (below es h.0, sorted-NonDescending es h.1)
    where
      below : (fs : List (ℕ × V)) → All (λ (e : ℕ × V). k ≤ e.0) fs → All (λ n. k ≤ n) (keys_of fs)
      below = elim [ [] ↦ λ g. tt | (e ∷ (fs → ih)) ↦ λ g. (g.0, ih g.1) ]

  pub length-keys_of : (es : List (ℕ × V)) → length (keys_of es) ≡ length es
  length-keys_of [] = refl
  length-keys_of ((k, b) ∷ es) = ap suc (length-keys_of es)

  pub keys_of-Fits :
      (es : List (ℕ × V)) → All (λ (e : ℕ × V). Fits 8 e.0) es → All (Fits 8) (keys_of es)
  keys_of-Fits [] h = tt
  keys_of-Fits ((k, b) ∷ es) h = (h.0, keys_of-Fits es h.1)

  -- A sorter of entries.
  pub key_sorter : ExternalSorter (ℕ × V) KeyLe
  key_sorter =
      insertion_sorter (λ a b. leb a.0 b.0) (λ a b h. leb→le a.0 b.0 h)
        (λ a b h. leb_false→le a.0 b.0 h) (λ a b c p q. omega arith)
