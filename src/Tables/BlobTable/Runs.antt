-- ===== src/Tables/BlobTable/Runs.antt =====
-- Concrete runs of a blob table.
use osmdiffs.Tables.Entries.{key_sorter, find}
use osmdiffs.Base.{ℕ, ◌≡◌, refl, List, [], ◌∷◌, arith}
use osmdiffs.Tables.Format.{ok, err, not_ascending}
use osmdiffs.Tables.BlobTable.{Entry, BlobTable, create, lookup}
use osmdiffs.Tables.BlobTable.Order.{Fitting}
use osmdiffs.Tables.BlobTable.RoundTrip.{lookup-create, create-duplicate}

abbrev two : List Entry
two = (42, 9 ∷ 8 ∷ []) ∷ (7, 1 ∷ []) ∷ []

two-Fitting : Fitting two
two-Fitting = record { keys_fit = omega arith; count_fits = omega arith; blob_fits = omega arith }

lookup-create_example :
    (t : BlobTable) × (create key_sorter two ≡ ok t)
    × ((key : ℕ) → lookup t key ≡ ok (find two key))
lookup-create_example = lookup-create key_sorter two ((omega arith, tt), (tt, tt)) two-Fitting

abbrev twice : List Entry
twice = (7, 1 ∷ []) ∷ (7, 2 ∷ []) ∷ []

create-duplicate_example : create key_sorter twice ≡ err not_ascending
create-duplicate_example = create-duplicate key_sorter twice (λ d. d.0.0 refl)
