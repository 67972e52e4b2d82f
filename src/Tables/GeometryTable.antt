-- ===== src/Tables/GeometryTable.antt =====
-- src/tables/geometry_table.rs: a blob table of encoded geometries.
mod Runs
pub mod RoundTrip
use osmdiffs.Base.{ℕ, Option, none, some, List, [], ◌∷◌}
use osmdiffs.Tables.Entries.{KeyLe}
use osmdiffs.Tables.Format.{Result, ok, ◌>>=◌, or_panic}
use osmdiffs.Tables.Sorting.{ExternalSorter}
use osmdiffs.Tables.BlobTable
use osmdiffs.Tables.BlobTable.{BlobTable, Entry}
use osmdiffs.Tables.Wkb.{Wkb}

module _ {G : Type 0} (wkb : Wkb G) where
  -- The entries that `GeometryTable::create` hands to the blob table.
  unfoldable pub encode_entries : List (ℕ × G) → List Entry
  encode_entries [] = []
  encode_entries ((key, geometry) ∷ es) = (key, wkb.encode_wkb geometry) ∷ encode_entries es

  -- `GeometryTable::create`
  unfoldable pub create : ExternalSorter Entry KeyLe → List (ℕ × G) → Result BlobTable
  create sorter geometries = BlobTable.create sorter (encode_entries geometries)

  -- `decode_wkb`
  unfoldable pub decode_wkb : List ℕ → Result G
  decode_wkb bytes = or_panic (wkb.read_wkb bytes)

  -- The `map` over what the blob table gives.
  unfoldable pub decode_found : Option (List ℕ) → Result (Option G)
  decode_found none = ok none
  decode_found (some bytes) = decode_wkb bytes >>= λ g. ok (some g)

  -- `GeometryTable::lookup`
  unfoldable pub lookup : BlobTable → ℕ → Result (Option G)
  lookup t key = BlobTable.lookup t key >>= decode_found
