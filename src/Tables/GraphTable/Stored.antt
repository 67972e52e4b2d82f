-- ===== src/Tables/GraphTable/Stored.antt =====
-- A graph gives back the edges that it was created from.
use osmdiffs.Base.{
  list_eq, ℕ, ◌+◌, ◌*◌, ◌%◌, ◌≤◌, ◌<◌, ◌^◌, ◌≡◌, refl, sym, ap, ◌∙◌, subst, true, List, [], ◌∷◌,
  ◌++◌, ◌==◌, ==_iff, le→ltb_false, length, drop, drop-append, length-append, append_assoc,
  append-nil, arith, Bool-cases, inl, inr, ◌↔◌,
}
use osmdiffs.Base.Bytes.{
  Fits, encode_ints, length-encode_ints, length-to_le_bytes, read_ints, read_ints-encode_ints,
}
use osmdiffs.Base.Predicates.{All, All-imp, Pairwise, IsIn}
use osmdiffs.Base.Slice.{slice}
use osmdiffs.Tables.Format.{
  ok, u64_mod, u64_bytes, header_field, header_field-words, signature-words, length-words,
}
use osmdiffs.Tables.Sorting.{
  ExternalSorter, Permutation-All, Permutation-IsIn, Permutation-sym, length-Permutation,
}
use osmdiffs.Tables.SortedU64Index.Lookup.{NonDescending}
use osmdiffs.Tables.GraphTable.{GraphTable, parents_of}
use osmdiffs.Tables.GraphTable.Ranges.{scan, parents_of-scan}
use osmdiffs.Tables.GraphTable.File.{Edge, EdgeLe, file_signature, open_graph, create}
use osmdiffs.Tables.GraphTable.Written.{
  children_of, parents_in, length-children_of, length-parents_in, header, body, close-layout,
}

module _ (es : List Edge) (small : length es < 2 ^ 59)
    (children_fit : All (λ (e : Edge). Fits 8 e.0) es)
    (parents_fit : All (λ (e : Edge). Fits 8 e.1) es) where
  abbrev file : List ℕ
  file = header (length es) ++ body es

  length-header : length (header (length es)) ≡ 16
  length-header =
      length-words (file_signature ∷ u64_bytes (length es) ∷ [])
        (refl, (length-to_le_bytes 8 (length es), tt))

  length-file : length file ≡ 16 + 16 * length es
  length-file = omega (
    arith,
    length-append (header (length es)) (body es),
    length-header,
    length-append (encode_ints 8 (children_of es)) (encode_ints 8 (parents_in es)),
    length-encode_ints 8 (children_of es),
    length-encode_ints 8 (parents_in es),
    length-children_of es,
    length-parents_in es,
  )

  count_field : header_field file 1 ≡ length es
  count_field =
      header_field-words (file_signature ∷ []) (length es) [] (body es) 1 (refl, tt) refl
        (omega arith)

  signature : list_eq (slice file 0 8) file_signature ≡ true
  signature = signature-words file_signature (u64_bytes (length es) ∷ []) (body es) refl

  Fits-children_of :
      (fs : List Edge) → All (λ (e : Edge). Fits 8 e.0) fs → All (Fits 8) (children_of fs)
  Fits-children_of [] h = tt
  Fits-children_of ((c, p) ∷ fs) h = (h.0, Fits-children_of fs h.1)

  Fits-parents_in :
      (fs : List Edge) → All (λ (e : Edge). Fits 8 e.1) fs → All (Fits 8) (parents_in fs)
  Fits-parents_in [] h = tt
  Fits-parents_in ((c, p) ∷ fs) h = (h.0, Fits-parents_in fs h.1)

  children_read : read_ints 8 (length es) (drop 16 file) ≡ children_of es
  children_read =
      ap (read_ints 8 (length es)) (drop-append (header (length es)) (body es) 16 length-header)
      ∙ ap (λ n. read_ints 8 n (body es)) (sym (length-children_of es))
      ∙ read_ints-encode_ints 8 (children_of es) (encode_ints 8 (parents_in es))
          (Fits-children_of es children_fit)

  parents_read : read_ints 8 (length es) (drop (16 + 8 * length es) file) ≡ parents_in es
  parents_read =
      ap (read_ints 8 (length es)) (
        ap (drop (16 + 8 * length es))
          (sym (append_assoc (header (length es)) (encode_ints 8 (children_of es)) _))
        ∙ drop-append (header (length es) ++ encode_ints 8 (children_of es))
            (encode_ints 8 (parents_in es)) (16 + 8 * length es)
            (omega (
              arith,
              length-append (header (length es)) (encode_ints 8 (children_of es)),
              length-header,
              length-encode_ints 8 (children_of es),
              length-children_of es,
            ))
        ∙ sym (append-nil (encode_ints 8 (parents_in es))))
      ∙ ap (λ n. read_ints 8 n (encode_ints 8 (parents_in es) ++ [])) (sym (length-parents_in es))
      ∙ read_ints-encode_ints 8 (parents_in es) [] (Fits-parents_in es parents_fit)

  parents_offset : (16 + length es * 8 % u64_mod) % u64_mod ≡ 16 + 8 * length es
  parents_offset = omega arith

  size_exact : (length file == ((16 + length es * 16 % u64_mod) % u64_mod)) ≡ true
  size_exact = (==_iff _ _).1 (omega (arith, length-file))

  open-layout : open_graph file ≡ ok (record { children = children_of es; parents = parents_in es })
  unfolding open_graph
  open-layout = rw (
    count_field,
    signature,
    le→ltb_false (length file) 16 (omega (arith, length-file)),
    size_exact,
    parents_offset,
    children_read,
    parents_read,
  )

EdgeLe-children_of : (es : List Edge) → Pairwise EdgeLe es → NonDescending (children_of es)
EdgeLe-children_of [] h = tt
EdgeLe-children_of ((c, p) ∷ es) h = (below es h.0, EdgeLe-children_of es h.1)
  where
    below : (fs : List Edge) → All (EdgeLe (c, p)) fs → All (λ n. c ≤ n) (children_of fs)
    below [] g = tt
    below ((d, q) ∷ fs) g = (ground (arith, g.0), below fs g.1)

scan-edges :
    (es : List Edge) (c p : ℕ) → IsIn p (scan (children_of es) (parents_in es) c) ↔ IsIn (c, p) es
unfolding scan
scan-edges [] c p = (λ h. h, λ h. h)
scan-edges ((d, q) ∷ es) c p = elim (Bool-cases (d == c)) [
  | inl same ↦
      let e : d ≡ c = (==_iff d c).0 same in
      rw same (
        λ h. elim h [ inl f ↦ inl (λ i. (sym e i, f i)) | inr t ↦ inr ((scan-edges es c p).0 t) ],
        λ h. elim h [
          | inl f ↦ inl (ap (λ (x : Edge). x.1) f)
          | inr t ↦ inr ((scan-edges es c p).1 t)
        ],
      )
  | inr other ↦ rw other (
    λ h. inr ((scan-edges es c p).0 h),
    λ h. elim h [
      | inl f ↦ absurd (ground (arith, other, ap (λ (x : Edge). x.0) f))
      | inr t ↦ (scan-edges es c p).1 t
    ],
  )
]

-- From fewer than 2^59 edges between u64 nodes, in any order, `create` makes a file that it opens
-- again as a graph that is sorted by child, and the parents of a node in this graph are those that
-- the edges give it.
pub create-parents_of :
    (sorter : ExternalSorter Edge EdgeLe) (edges : List Edge)
    → All (λ (e : Edge). Fits 8 e.0 × Fits 8 e.1) edges
    → length edges < 2 ^ 59
    → (g : GraphTable) × (create sorter edges ≡ ok g)
      × NonDescending g.children
      × (length g.children ≡ length g.parents)
      × ((c p : ℕ) → IsIn p (parents_of g c) ↔ IsIn (c, p) edges)
unfolding create
create-parents_of sorter edges fit small = (
  record { children = children_of es; parents = parents_in es },
  ap open_graph (close-layout es (omega (arith, count)))
      ∙ open-layout es (omega (arith, count))
          (All-imp (λ (e : Edge). Fits 8 e.0 × Fits 8 e.1) (λ (e : Edge). Fits 8 e.0) es
            (λ e h. h.0) es_fit)
          (All-imp (λ (e : Edge). Fits 8 e.0 × Fits 8 e.1) (λ (e : Edge). Fits 8 e.1) es
            (λ e h. h.1) es_fit),
  sorted,
  same,
  λ c p.
      let (there, back) = scan-edges es c p in
      let found =
        parents_of-scan (record { children = children_of es; parents = parents_in es }) c sorted
          same in
      (
        λ h. Permutation-IsIn (c, p) (sorter.permutes edges) (there (subst (IsIn p) found h)),
        λ h.
            subst (IsIn p) (sym found)
              (back (Permutation-IsIn (c, p) (Permutation-sym (sorter.permutes edges)) h)),
      ),
)
  where
    es : List Edge
    es = sorter.sort edges

    count : length es ≡ length edges
    count = length-Permutation (sorter.permutes edges)

    sorted : NonDescending (children_of es)
    sorted = EdgeLe-children_of es (sorter.sorted edges)

    same : length (children_of es) ≡ length (parents_in es)
    same = length-children_of es ∙ sym (length-parents_in es)

    es_fit : All (λ (e : Edge). Fits 8 e.0 × Fits 8 e.1) es
    es_fit =
        Permutation-All (λ (e : Edge). Fits 8 e.0 × Fits 8 e.1)
          (Permutation-sym (sorter.permutes edges)) fit
