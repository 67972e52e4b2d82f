-- ===== src/Tables/BlobTable/Order.antt =====
-- Sorted entries: the order in which they are written, and the sizes that sorting keeps.
use osmdiffs.Tables.Entries.{KeyLe, Distinct}
use osmdiffs.Base.{
  ℕ, suc, ◌+◌, ◌^◌, ◌≤◌, ◌<◌, ◌≡◌, ◌≢◌, refl, ap, ◌∙◌, Option, none, some, List, [], ◌∷◌, ◌++◌,
  length, concat, length-append, arith,
}
use osmdiffs.Base.Bytes.{Fits}
use osmdiffs.Base.Predicates.{All, All-imp, Pairwise}
use osmdiffs.Tables.Sorting.{Permutation, done, skip, swap, trans, Permutation-All}
use osmdiffs.Tables.BlobTable.{Entry}
use osmdiffs.Tables.BlobTable.Writing.{offsets, blobs_of, Rising}

-- What fits a file: u64 keys, and sizes below the limits of u64.
pub record Fitting (es : List Entry) : Type 0 where
  pub keys_fit : All (λ (e : Entry). Fits 8 e.0) es
  pub count_fits : length es < 2 ^ 59
  pub blob_fits : length (concat (blobs_of es)) < 2 ^ 64

-- All keys lie behind the last one written.
abbrev pub Behind : Option ℕ → List Entry → Type 0
Behind none es = Unit
Behind (some l) es = All (λ (e : Entry). l < e.0) es

later :
    (k : ℕ) (es : List Entry)
    → All (λ (e : Entry). k ≤ e.0) es
    → All (λ (e : Entry). k ≢ e.0) es
    → All (λ (e : Entry). k < e.0) es
later k [] le ne = tt
later k (e ∷ es) le ne = (ground (arith, le.0, ne.0), later k es le.1 ne.1)

pub rising :
    (last : Option ℕ) (es : List Entry)
    → Pairwise KeyLe es
    → Distinct es
    → Behind last es
    → Rising last es
rising last [] s d h = tt
rising none ((k, b) ∷ es) s d h = (tt, rising (some k) es s.1 d.1 (later k es s.0 d.0))
rising (some l) ((k, b) ∷ es) s d h = (h.0, rising (some k) es s.1 d.1 (later k es s.0 d.0))

Rising-Behind : (l : ℕ) (es : List Entry) → Rising (some l) es → All (λ (e : Entry). l < e.0) es
Rising-Behind l [] h = tt
Rising-Behind l ((k, b) ∷ es) h = (
  h.0,
  All-imp (λ (e : Entry). k < e.0) (λ (e : Entry). l < e.0) es (λ e lt. omega (arith, h.0))
      (Rising-Behind k es h.1),
)

pub Rising-Distinct : (last : Option ℕ) (es : List Entry) → Rising last es → Distinct es
Rising-Distinct last [] h = tt
Rising-Distinct last ((k, b) ∷ es) h = (
  All-imp (λ (e : Entry). k < e.0) (λ (e : Entry). k ≢ e.0) es (λ e lt. omega arith)
      (Rising-Behind k es h.1),
  Rising-Distinct (some k) es h.1,
)

-- A permutation fits if the list does.
size-Permutation :
    {xs ys : List Entry}
    → Permutation xs ys
    → (length xs ≡ length ys) × (length (concat (blobs_of xs)) ≡ length (concat (blobs_of ys)))
size-Permutation done = (refl, refl)
size-Permutation (skip (k, b) {xs} {ys} p) =
    let (e, f) = size-Permutation p in
    (
      ap suc e,
      omega (
        arith,
        length-append b (concat (blobs_of xs)),
        length-append b (concat (blobs_of ys)),
        f,
      ),
    )
size-Permutation (swap (k, b) (j, c) es) = (
  refl,
  omega (
    arith,
    length-append b (c ++ concat (blobs_of es)),
    length-append c (concat (blobs_of es)),
    length-append c (b ++ concat (blobs_of es)),
    length-append b (concat (blobs_of es)),
  ),
)
size-Permutation (trans p q) =
    let (a, b) = size-Permutation p in let (c, d) = size-Permutation q in (a ∙ c, b ∙ d)

pub Fitting-Permutation : {xs ys : List Entry} → Permutation xs ys → Fitting xs → Fitting ys
Fitting-Permutation p f = record {
  keys_fit = Permutation-All (λ (e : Entry). Fits 8 e.0) p f.keys_fit;
  count_fits = let (e, s) = size-Permutation p in omega (arith, f.count_fits);
  blob_fits = let (e, s) = size-Permutation p in omega (arith, f.blob_fits);
}

pub offsets-Fits :
    (at : ℕ) (bs : List (List ℕ)) → at + length (concat bs) < 2 ^ 64 → All (Fits 8) (offsets at bs)
unfolding offsets
offsets-Fits at [] h = tt
offsets-Fits at (b ∷ bs) h = (
  omega (arith, length-append b (concat bs)),
  offsets-Fits (at + length b) bs (omega (arith, length-append b (concat bs))),
)

pub length-offsets : (at : ℕ) (es : List Entry) → length (offsets at (blobs_of es)) ≡ length es
unfolding offsets
length-offsets at [] = refl
length-offsets at ((k, b) ∷ es) = ap suc (length-offsets (at + length b) es)
