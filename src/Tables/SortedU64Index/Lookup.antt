-- ===== src/Tables/SortedU64Index/Lookup.antt =====
-- `search` against a linear scan.
use osmdiffs.Base.{
  ℕ, zero, suc, ◌≤◌, ◌<◌, ◌≡◌, ◌≢◌, refl, sym, false, ◌&&◌, ◌==◌, ltb, Option, none, some, List, [],
  ◌∷◌, length, get_or, if◌then◌else◌, arith, Bool-cases, inl, inr,
}
use osmdiffs.Base.Predicates.{Pairwise, Pairwise-get_or}
use osmdiffs.Tables.SortedU64Index.{partition_point, search}
use osmdiffs.Tables.SortedU64Index.Partition.{IsPartitioned, IsBoundary, partition_point-IsBoundary}
use mathlib.Core.Option

abbrev pub NonDescending : List ℕ → Type 0
NonDescending = Pairwise (λ a b. a ≤ b)

abbrev pub Ascending : List ℕ → Type 0
Ascending = Pairwise (λ a b. a < b)

-- The specification: the first place of `key`, found by a scan of the whole array.
unfoldable pub index_of : List ℕ → ℕ → Option ℕ
index_of [] key = none
index_of (k ∷ ks) key = if k == key then some 0 else Option.map suc (index_of ks key)

pub index_of-some :
    (keys : List ℕ) (key i : ℕ)
    → i < length keys
    → get_or keys i 0 ≡ key
    → ((j : ℕ) → j < i → get_or keys j 0 ≢ key)
    → index_of keys key ≡ some i
unfolding index_of
index_of-some [] key i h e first = absurd (omega arith)
index_of-some (k ∷ ks) key zero h e first = ground arith
index_of-some (k ∷ ks) key (suc i) h e first = ground (
  arith,
  first 0 (omega arith),
  index_of-some ks key i (omega arith) e (λ j lt. first (suc j) (omega arith)),
)

pub index_of-none :
    (keys : List ℕ) (key : ℕ)
    → ((j : ℕ) → j < length keys → get_or keys j 0 ≢ key)
    → index_of keys key ≡ none
unfolding index_of
index_of-none [] key absent = refl
index_of-none (k ∷ ks) key absent =
    ground
      (arith, absent 0 (omega arith), index_of-none ks key (λ j lt. absent (suc j) (omega arith)))

pub sorted-IsPartitioned :
    (keys : List ℕ) (key : ℕ)
    → NonDescending keys
    → IsPartitioned (λ i. ltb (get_or keys i 0) key) (length keys)
sorted-IsPartitioned keys key h = record {
  down = λ i j lt lj t. ground (arith, Pairwise-get_or (λ a b. a ≤ b) keys i j 0 h lt lj);
}

-- Where the keys below `key` end, either `key` stands or it stands nowhere.
module _ (keys : List ℕ) (key idx : ℕ) (h : NonDescending keys)
    (b : IsBoundary (λ i. ltb (get_or keys i 0) key) (length keys) idx) where
  key_absent :
      (ltb idx (length keys) && (get_or keys idx 0 == key)) ≡ false
      → (j : ℕ) → j < length keys
      → get_or keys j 0 ≢ key
  key_absent missing j lt = elim (Bool-cases (ltb j idx)) [
    | inl below ↦ ground (arith, b.before j (ground arith))
    | inr above ↦ elim (Bool-cases (j == idx)) [
      | inl same ↦ let e : j ≡ idx = ground arith in rw e (ground arith)
      | inr further ↦
          let far : idx < j = ground arith in
          ground (
            arith,
            b.behind idx (omega arith) (omega arith),
            Pairwise-get_or (λ a b. a ≤ b) keys idx j 0 h far lt,
          )
    ]
  ]

  boundary-eq-index_of :
      (if ltb idx (length keys) && (get_or keys idx 0 == key) then some idx else none)
      ≡ index_of keys key
  boundary-eq-index_of = elim (Bool-cases (ltb idx (length keys) && (get_or keys idx 0 == key))) [
    | inl found ↦ rw found (
        sym (
          index_of-some keys key idx (ground arith) (ground arith)
            (λ j lt. ground (arith, b.before j lt))))
    | inr missing ↦ rw missing (sym (index_of-none keys key (key_absent missing)))
  ]

-- On a sorted array the binary search gives the first place of the key, and `none` exactly if the
-- key is absent.
pub search-eq-index_of :
    (keys : List ℕ) (key : ℕ) → NonDescending keys → search keys key ≡ index_of keys key
unfolding search
search-eq-index_of keys key h =
    boundary-eq-index_of keys key (partition_point (λ i. ltb (get_or keys i 0) key) (length keys)) h
      (partition_point-IsBoundary (sorted-IsPartitioned keys key h))
