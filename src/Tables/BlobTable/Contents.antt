-- ===== src/Tables/BlobTable/Contents.antt =====
-- The map that a blob table stands for, and `lookup` on the arrays of a list of entries.
use osmdiffs.Tables.Entries.{keys_of, find}
use osmdiffs.Base.{
  ℕ, suc, ◌+◌, ◌≡◌, refl, ap, ◌∙◌, true, Option, none, some, List, [], ◌∷◌, ◌++◌, length, concat,
  get_elem?, length-append, append_assoc, arith, ◌==◌, leb, le→leb, Bool-cases, inl, inr,
}
use osmdiffs.Base.Slice.{slice-middle}
use osmdiffs.Tables.Format.{ok, or_panic, index_or_panic}
use osmdiffs.Tables.SortedU64Index.Lookup.{index_of}
use osmdiffs.Tables.BlobTable.{BlobTable, Entry, lookup_at}
use osmdiffs.Tables.BlobTable.Writing.{offsets, blobs_of}
use mathlib.Core.Option

-- The arrays of a table that holds `es` behind `front` bytes.
abbrev pub table : List ℕ → ℕ → List Entry → BlobTable
table front at es = record {
  entries_count = length es;
  keys = keys_of es;
  starts = offsets at (blobs_of es) ++ ((at + length (concat (blobs_of es))) ∷ []);
  blob = front ++ concat (blobs_of es);
}

first_start :
    (at : ℕ) (bs : List (List ℕ))
    → get_elem? (offsets at bs ++ ((at + length (concat bs)) ∷ [])) 0 ≡ some at
unfolding offsets
first_start at [] = ap some (omega arith)
first_start at (b ∷ bs) = refl

starts_shift :
    (at k : ℕ) (b : List ℕ) (es : List Entry) (front : List ℕ)
    → (table front at ((k, b) ∷ es)).starts ≡ at ∷ (table (front ++ b) (at + length b) es).starts
unfolding offsets
starts_shift at k b es front =
    ap (λ n. at ∷ (offsets (at + length b) (blobs_of es) ++ (n ∷ [])))
      (omega (arith, length-append b (concat (blobs_of es))))

-- The first entry.
fetch_first :
    (front : List ℕ) (at k : ℕ) (b : List ℕ) (es : List Entry)
    → length front ≡ at
    → lookup_at (table front at ((k, b) ∷ es)) (some 0) ≡ ok (some b)
unfolding lookup_at
fetch_first front at k b es h =
    rw (starts_shift at k b es front, second, inside1, inside2)
      (ap (λ r. ok (some r)) (slice-middle front b (concat (blobs_of es)) at _ h (omega arith)))
  where
    second :
        index_or_panic (at ∷ (table (front ++ b) (at + length b) es).starts) (0 + 1)
        ≡ ok (at + length b)
    second = ap or_panic (first_start (at + length b) (blobs_of es))

    inside1 : leb at (at + length b) ≡ true
    inside1 = le→leb _ _ (omega arith)

    inside2 : leb (at + length b) (length (front ++ (b ++ concat (blobs_of es)))) ≡ true
    inside2 = le→leb _ _ (
        omega (
          arith,
          length-append front (b ++ concat (blobs_of es)),
          length-append b (concat (blobs_of es)),
        ))

-- A later entry is the one of the table without the first.
fetch_later :
    (front : List ℕ) (at k : ℕ) (b : List ℕ) (es : List Entry) (i : ℕ)
    → lookup_at (table front at ((k, b) ∷ es)) (some (suc i))
      ≡ lookup_at (table (front ++ b) (at + length b) es) (some i)
unfolding lookup_at
fetch_later front at k b es i =
    let next : suc i + 1 ≡ suc (i + 1) = omega arith in
    rw (next, starts_shift at k b es front, append_assoc front b (concat (blobs_of es)))

pub fetch :
    (front : List ℕ) (at : ℕ) (es : List Entry) (key : ℕ)
    → length front ≡ at
    → lookup_at (table front at es) (index_of (keys_of es) key) ≡ ok (find es key)
unfolding index_of find
fetch front at [] key h = unfold lookup_at in refl
fetch front at ((k, b) ∷ es) key h = elim (Bool-cases (k == key)) [
  | inl found ↦ rw found (fetch_first front at k b es h)
  | inr other ↦ rw other (
      shift (index_of (keys_of es) key)
      ∙ fetch (front ++ b) (at + length b) es key (omega (arith, length-append front b)))
]
  where
    shift :
        (o : Option ℕ)
        → lookup_at (table front at ((k, b) ∷ es)) (Option.map suc o)
          ≡ lookup_at (table (front ++ b) (at + length b) es) o
    shift none = unfold lookup_at in refl
    shift (some i) = fetch_later front at k b es i
