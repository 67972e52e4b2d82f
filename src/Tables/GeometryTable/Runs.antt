-- ===== src/Tables/GeometryTable/Runs.antt =====
-- Concrete runs of a geometry table.
use osmdiffs.Base.{ℕ, ◌≡◌, refl, some, List, [], ◌∷◌, arith}
use osmdiffs.Tables.Entries.{key_sorter, find}
use osmdiffs.Tables.Format.{ok}
use osmdiffs.Tables.BlobTable.{BlobTable}
use osmdiffs.Tables.BlobTable.Order.{Fitting}
use osmdiffs.Tables.Wkb.{Wkb}
use osmdiffs.Tables.GeometryTable.{create, lookup, encode_entries}
use osmdiffs.Tables.GeometryTable.RoundTrip.{lookup-create_geometries}

-- Geometries that are their own encoding.
abbrev raw : Wkb (List ℕ)
raw = record { encode_wkb = λ g. g; read_wkb = λ bs. some bs; read-encode = λ g. refl }

abbrev two : List (ℕ × List ℕ)
two = (42, 9 ∷ 8 ∷ []) ∷ (7, 1 ∷ []) ∷ []

two-Fitting : Fitting (encode_entries raw two)
unfolding encode_entries
two-Fitting = record { keys_fit = omega arith; count_fits = omega arith; blob_fits = omega arith }

lookup-create_geometries_example :
    (t : BlobTable) × (create raw key_sorter two ≡ ok t)
    × ((key : ℕ) → lookup raw t key ≡ ok (find two key))
lookup-create_geometries_example =
    lookup-create_geometries raw key_sorter two ((omega arith, tt), (tt, tt)) two-Fitting
