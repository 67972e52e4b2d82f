-- ===== src/Tables/U64Set/RoundTrip.antt =====
-- A set holds what it was created from.
use osmdiffs.Base.{
  list_eq, ℕ, suc, ◌+◌, ◌*◌, ◌%◌, ◌≤◌, ◌<◌, ◌^◌, ◌≡◌, refl, sym, ap, ◌∙◌, subst, Bool, true, false,
  Option, none, some, List, [], ◌∷◌, ◌++◌, ◌==◌, if◌then◌else◌, length, concat, drop-append,
  append-nil, arith, Bool-cases, inl, inr, ◌↔◌, ==_iff, le→ltb_false, length-append,
}
use osmdiffs.Base.Bytes.{
  encode_ints, length-encode_ints, read_ints, read_ints-encode_ints, length-to_le_bytes, Fits,
}
use osmdiffs.Base.Predicates.{All, All-imp, IsIn}
use osmdiffs.Base.Distinct.{All-of, All-at}
use mathlib.Core.Option
use osmdiffs.Base.Slice.{slice}
use osmdiffs.Tables.Format.{
  ok, u64_bytes, u64_mod, header_field, header_field-words, signature-words, length-words,
}
use osmdiffs.Tables.Sorting.{
  ExternalSorter, Permutation-IsIn, Permutation-All, Permutation-sym, length-Permutation,
}
use osmdiffs.Tables.SortedU64Index.Lookup.{Ascending, NonDescending, index_of, search-eq-index_of}
use osmdiffs.Tables.U64Set.{
  U64Set, file_signature, header_chunks, open_set, contains, iter, len, create,
}
use osmdiffs.Tables.U64Set.Writing.{runs, runs_iff, runs-Ascending, length-runs, write_set-layout}

-- A file whose header counts `n` elements.
abbrev pub file : ℕ → List ℕ → List ℕ
file n vs = concat (header_chunks n) ++ encode_ints 8 vs

module _ (n : ℕ) (vs : List ℕ) (fits : Fits 8 n) where
  count_field : header_field (file n vs) 1 ≡ n
  count_field =
      header_field-words (file_signature ∷ []) n [] (encode_ints 8 vs) 1 (refl, tt) refl fits

  signature : list_eq (slice (file n vs) 0 8) file_signature ≡ true
  signature = signature-words file_signature (u64_bytes n ∷ []) (encode_ints 8 vs) refl

  length-chunks : length (concat (header_chunks n)) ≡ 16
  length-chunks = length-words (header_chunks n) (refl, (length-to_le_bytes 8 n, tt))

  length-file : length (file n vs) ≡ 16 + 8 * length vs
  length-file = omega (
    arith,
    length-append (concat (header_chunks n)) (encode_ints 8 vs),
    length-chunks,
    length-encode_ints 8 vs,
  )

  -- The test of the file's size is that of u64 arithmetic.
  open_set-file :
      ((16 + n * 8 % u64_mod) % u64_mod) ≡ 16 + 8 * length vs
      → open_set (file n vs)
        ≡ ok (record { entries_count = n; elements = read_ints 8 n (encode_ints 8 vs) })
  unfolding open_set
  open_set-file size = rw (
    count_field,
    signature,
    le→ltb_false (length (file n vs)) 16 (omega (arith, length-file)),
    (==_iff ((16 + n * 8 % u64_mod) % u64_mod) (length (file n vs))).1 (size ∙ sym length-file),
    drop-append (concat (header_chunks n)) (encode_ints 8 vs) 16 length-chunks,
  )

open_set-layout :
    (vs : List ℕ)
    → All (Fits 8) vs
    → length vs < 2 ^ 60
    → open_set (file (length vs) vs) ≡ ok (record { entries_count = length vs; elements = vs })
open_set-layout vs fit small =
    open_set-file (length vs) vs (omega arith) (omega arith)
    ∙ ap (λ (r : List ℕ). ok (record { entries_count = length vs; elements = r }))
        (ap (read_ints 8 (length vs)) (sym (append-nil (encode_ints 8 vs)))
          ∙ read_ints-encode_ints 8 vs [] fit)

-- `index_of` finds the elements of the list.
abbrev is_some : Option ℕ → Bool
is_some o = elim o [ none ↦ false | some i ↦ true ]

is_some-map : (o : Option ℕ) → is_some (Option.map suc o) ≡ is_some o
is_some-map none = refl
is_some-map (some i) = refl

index_of-IsIn : (xs : List ℕ) (n : ℕ) → (is_some (index_of xs n) ≡ true) ↔ IsIn n xs
unfolding index_of
index_of-IsIn [] n = (λ h. cc, λ h. absurd h)
index_of-IsIn (x ∷ xs) n = elim (Bool-cases (x == n)) [
  | inl same ↦ (λ h. inl (sym ((==_iff x n).0 same)), λ h. rw same refl)
  | inr other ↦ (
    λ h. inr ((index_of-IsIn xs n).0 (sym (is_some-map (index_of xs n)) ∙ behind other ∙ h)),
    λ h. elim h [
      | inl e ↦ absurd (ground (arith, e))
      | inr t ↦ sym (behind other) ∙ is_some-map (index_of xs n) ∙ (index_of-IsIn xs n).1 t
    ],
  )
]
  where
    behind :
        (x == n) ≡ false
        → is_some (Option.map suc (index_of xs n))
          ≡ is_some (if x == n then some 0 else Option.map suc (index_of xs n))
    behind other = rw other refl

contains_iff :
    (s : U64Set) (n : ℕ) → NonDescending s.elements → (contains s n ≡ true) ↔ IsIn n s.elements
unfolding contains
contains_iff s n h =
    subst (λ r. (is_some r ≡ true) ↔ IsIn n s.elements) (sym (search-eq-index_of s.elements n h))
      (index_of-IsIn s.elements n)

Ascending-NonDescending : (xs : List ℕ) → Ascending xs → NonDescending xs
Ascending-NonDescending [] h = tt
Ascending-NonDescending (x ∷ xs) h =
    (All-imp (λ n. x < n) (λ n. x ≤ n) xs (λ n lt. omega arith) h.0, Ascending-NonDescending xs h.1)

-- From u64 elements in any order, with any repetitions, fewer than 2^60 - 1, `create` makes a file
-- that it opens again; the set iterates over the elements that it was created from, and no others, in
-- strictly ascending order, `len` is their number, and `contains` holds exactly for them.
pub create-contains :
    (sorter : ExternalSorter ℕ (λ a b. a ≤ b)) (elements : List ℕ)
    → All (Fits 8) elements
    → length elements + 1 < 2 ^ 60
    → (s : U64Set) × (create sorter elements ≡ ok s)
      × Ascending (iter s)
      × (len s ≡ length (iter s))
      × ((n : ℕ) → IsIn n (iter s) ↔ IsIn n elements)
      × ((n : ℕ) → (contains s n ≡ true) ↔ IsIn n elements)
unfolding create
create-contains sorter elements fit small = (
  record { entries_count = length vs; elements = vs },
  ap open_set (write_set-layout sorted (omega (arith, count)))
      ∙ open_set-layout vs vs_fit (omega (arith, count, length-runs none sorted)),
  up,
  refl,
  vs_iff,
  λ n.
      let found =
        contains_iff (record { entries_count = length vs; elements = vs }) n
          (Ascending-NonDescending vs up) in
      (λ h. (vs_iff n).0 (found.0 h), λ h. found.1 ((vs_iff n).1 h)),
)
  where
    sorted : List ℕ
    sorted = sorter.sort elements

    vs : List ℕ
    vs = runs none sorted

    up : Ascending vs
    up = runs-Ascending sorted (sorter.sorted elements)

    vs_iff : (n : ℕ) → IsIn n vs ↔ IsIn n elements
    vs_iff n =
        let same = runs_iff n sorted in
        (
          λ h. Permutation-IsIn n (sorter.permutes elements) (same.0 h),
          λ h. same.1 (Permutation-IsIn n (Permutation-sym (sorter.permutes elements)) h),
        )

    count : length sorted ≡ length elements
    count = length-Permutation (sorter.permutes elements)

    vs_fit : All (Fits 8) vs
    vs_fit = All-of (Fits 8) vs (λ n h.
        All-at (Fits 8) n sorted
          (Permutation-All (Fits 8) (Permutation-sym (sorter.permutes elements)) fit)
          ((runs_iff n sorted).0 h))

-- A release build does not see a count that is 2^61 too high: `open` accepts the file of u64
-- elements, fewer than 2^60, with such a header, and the set claims elements that the file lacks.
pub open_set-wraps :
    (vs : List ℕ)
    → length vs < 2 ^ 60
    → (s : U64Set) × (open_set (file (length vs + 2 ^ 61) vs) ≡ ok s) × (len s ≡ length vs + 2 ^ 61)
open_set-wraps vs small = (
  record {
    entries_count = length vs + 2 ^ 61;
    elements = read_ints 8 (length vs + 2 ^ 61) (encode_ints 8 vs);
  },
  open_set-file (length vs + 2 ^ 61) vs (omega arith) (omega arith),
  refl,
)
