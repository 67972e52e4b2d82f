-- ===== src/Tables/GeometryStore.antt =====
-- src/tables/geometry_store.rs: geometries in a spool file, found through an index in memory.
mod Runs
pub mod Latest
use osmdiffs.Base.{ℕ, ◌+◌, ◌≡◌, Option, none, some, List, [], ◌∷◌, leb, length}
use osmdiffs.Base.Output.{Output, new_output, write_all, seek_end}
use osmdiffs.Base.Slice.{slice}
use osmdiffs.Tables.Entries.{find}
use osmdiffs.Tables.Wkb.{Wkb}
use osmdiffs.Tables.Format.{Error, unexpected_end, Result, ok, ◌>>=◌, ◌>>◌, ensure, or_panic}

pub record Location : Type 0 where
  pub offset : ℕ
  pub len : ℕ

-- `index` is a `HashMap`: the first entry with a key counts, so a new one hides the old.
pub record GeometryStore : Type 0 where
  pub file : Output
  pub index : List (ℕ × Location)

-- `GeometryStore::create`
abbrev pub create : GeometryStore
create = record { file = new_output; index = [] }

-- `file.read_exact(&mut buf)` at a position.
abbrev pub read_exact : List ℕ → ℕ → ℕ → Result (List ℕ)
read_exact contents offset len = do
  ensure (leb (offset + len) (length contents)) unexpected_end
  ok (slice contents offset len)

module _ {G : Type 0} (wkb : Wkb G) where
  -- `GeometryStore::insert`
  unfoldable pub insert : GeometryStore → ℕ × G → GeometryStore
  insert store (key, geometry) =
      let bytes = wkb.encode_wkb geometry in
      let at_end = seek_end store.file in
      record {
        file = write_all bytes at_end;
        index = (key, record { offset = at_end.pos; len = length bytes }) ∷ store.index;
      }

  unfoldable pub read_at : GeometryStore → Option Location → Result (Option G)
  read_at store none = ok none
  read_at store (some l) = do
    buf ← read_exact store.file.contents l.offset l.len
    geometry ← or_panic (wkb.read_wkb buf)
    ok (some geometry)

  -- `GeometryStore::lookup`
  unfoldable pub lookup : GeometryStore → ℕ → Result (Option G)
  lookup store key = read_at store (find store.index key)
