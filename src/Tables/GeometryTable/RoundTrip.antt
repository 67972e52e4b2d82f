-- ===== src/Tables/GeometryTable/RoundTrip.antt =====
-- A geometry table gives back the geometries that it was created from.
use osmdiffs.Base.{ℕ, ◌≡◌, ◌≢◌, refl, ap, ◌∙◌, List, [], ◌∷◌, ◌==◌, Bool-cases, inl, inr}
use osmdiffs.Base.Predicates.{All}
use osmdiffs.Tables.Entries.{KeyLe, Distinct, find}
use osmdiffs.Tables.Format.{ok, ◌>>=◌}
use osmdiffs.Tables.Sorting.{ExternalSorter}
use osmdiffs.Tables.BlobTable.{BlobTable, Entry}
use osmdiffs.Tables.BlobTable.Order.{Fitting}
use osmdiffs.Tables.BlobTable.RoundTrip.{lookup-create}
use osmdiffs.Tables.Wkb.{Wkb}
use osmdiffs.Tables.GeometryTable.{encode_entries, create, decode_wkb, decode_found, lookup}

module _ {G : Type 0} (wkb : Wkb G) where
  Distinct-encode_entries : (es : List (ℕ × G)) → Distinct es → Distinct (encode_entries wkb es)
  unfolding encode_entries
  Distinct-encode_entries [] d = tt
  Distinct-encode_entries ((k, g) ∷ es) d = (apart es d.0, Distinct-encode_entries es d.1)
    where
      apart :
          (fs : List (ℕ × G))
          → All (λ (e : ℕ × G). k ≢ e.0) fs
          → All (λ (e : Entry). k ≢ e.0) (encode_entries wkb fs)
      apart [] h = tt
      apart ((j, f) ∷ fs) h = (h.0, apart fs h.1)

  decode_found-find :
      (es : List (ℕ × G)) (key : ℕ)
      → decode_found wkb (find (encode_entries wkb es) key) ≡ ok (find es key)
  unfolding encode_entries find decode_found decode_wkb
  decode_found-find [] key = refl
  decode_found-find ((k, g) ∷ es) key = elim (Bool-cases (k == key)) [
    | inl found ↦ rw (found, wkb.read-encode g) refl
    | inr other ↦ rw other (decode_found-find es key)
  ]

  -- From geometries with distinct keys whose encodings fit a blob table, in any order, `create`
  -- makes a file that it opens again, and `lookup` of every key gives the geometry of that key, or
  -- `none` without one.
  pub lookup-create_geometries :
      (sorter : ExternalSorter Entry KeyLe) (geometries : List (ℕ × G))
      → Distinct geometries
      → Fitting (encode_entries wkb geometries)
      → (t : BlobTable) × (create wkb sorter geometries ≡ ok t)
        × ((key : ℕ) → lookup wkb t key ≡ ok (find geometries key))
  unfolding create lookup
  lookup-create_geometries sorter geometries d fit =
      let (t, made, found) =
        lookup-create sorter (encode_entries wkb geometries) (Distinct-encode_entries geometries d)
          fit in
      (
        t,
        made,
        λ key. ap (λ r. r >>= decode_found wkb) (found key) ∙ decode_found-find geometries key,
      )
