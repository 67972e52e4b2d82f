-- ===== src/Tables/CoordTable.antt =====
-- src/tables/coord_table.rs: a map from node identifiers to coordinates in a mapped file.
mod Packing
mod Writing
mod Layout
mod Order
mod Runs
pub mod RoundTrip
use osmdiffs.Base.{
  list_eq, ℕ, ◌+◌, ◌-◌, ◌*◌, ◌<◌, ◌/◌, ◌%◌, ◌^◌, Bool, true, false, not, Option, none, some, List,
  [], ◌∷◌, ltb, leb, ◌==◌, ◌&&◌, if◌then◌else◌, length, drop, replicate, map,
}
use osmdiffs.Base.Bytes.{read_ints}
use osmdiffs.Base.Output.{Output, new_output, write_all, write_chunks, seek_start}
use osmdiffs.Base.Slice.{slice}
use osmdiffs.Tables.Entries.{KeyLe}
use osmdiffs.Tables.Format.{
  Error, wrong_signature, misplaced_keys, misplaced_values, not_ascending, Result, ok, ◌>>=◌, ◌>>◌,
  ensure, assert, ◌+u◌, ◌*u◌, is_multiple_of, header_field, u64_bytes, index_or_panic,
}
use osmdiffs.Tables.SortedU64Index.{search}
use osmdiffs.Tables.Sorting.{ExternalSorter}

abbrev pub header_size : ℕ
header_size = 8 * 8

-- "coords_0"
abbrev pub file_signature : List ℕ
file_signature = b'c' ∷ b'o' ∷ b'o' ∷ b'r' ∷ b'd' ∷ b's' ∷ b'_' ∷ b'0' ∷ []

pub record CoordTable : Type 0 where
  pub entries_count : ℕ
  pub keys : List ℕ
  pub coords : List ℕ

-- The two output files; the temporary paths and the final rename are left out.
pub record Writer : Type 0 where
  pub writer : Output
  pub coords_writer : Output
  pub coords_count : ℕ
  pub last_key : ℕ

-- `Writer::create`
unfoldable pub create_writer : Writer
create_writer = record {
  writer = write_all (replicate header_size 0) new_output;
  coords_writer = new_output;
  coords_count = 0;
  last_key = 0;
}

-- `x as u64` of an i32 with those bits: the sign is extended.
abbrev pub i32_as_u64 : ℕ → ℕ
i32_as_u64 x = if ltb x (2 ^ 31) then x else x + (2 ^ 64 - 2 ^ 32)

-- The last line of `Writer::pack_coord`, on the bits of the two i32; the `|` is of bits that do not
-- overlap.
unfoldable pub pack : ℕ × ℕ → ℕ
pack (x_i32, y_i32) = i32_as_u64 x_i32 * 2 ^ 32 % 2 ^ 64 + y_i32

-- `(val >> 32) as i32` and `val as i32` of `CoordTable::get`.
unfoldable pub unpack : ℕ → ℕ × ℕ
unpack val = (val / 2 ^ 32 % 2 ^ 32, val % 2 ^ 32)

-- `Writer::write`
unfoldable pub write : Writer → ℕ × ℕ → Result Writer
write w (key, packed_coord) = do
  ensure (not (leb key w.last_key)) not_ascending
  ok (record {
    writer = write_all (u64_bytes key) w.writer;
    coords_writer = write_all (u64_bytes packed_coord) w.coords_writer;
    coords_count = w.coords_count +u 1;
    last_key = key;
  })

-- The loop of `CoordTable::create` over the sorted entries.
unfoldable pub write_entries : Writer → List (ℕ × ℕ) → Result Writer
write_entries w [] = ok w
write_entries w (e ∷ es) = write w e >>= λ w'. write_entries w' es

-- The header fields, in the order in which `close` writes them.
abbrev pub header_chunks : ℕ → ℕ → ℕ → List (List ℕ)
header_chunks count keys_offset coords_offset =
    file_signature ∷ u64_bytes count ∷ u64_bytes keys_offset ∷ u64_bytes coords_offset ∷ []

-- `Writer::close`: the bytes of the finished file.
unfoldable pub close : Writer → Result (List ℕ)
close w = do
  let keys_offset = header_size
  let coords_offset = keys_offset +u w.coords_count *u 8
  assert (w.writer.pos == coords_offset)
  let header =
      write_chunks (header_chunks w.coords_count keys_offset coords_offset) (seek_start 0 w.writer)
  assert (leb header.pos header_size)
  ok (write_all w.coords_writer.contents (seek_start coords_offset header)).contents

-- `CoordTable::open` on the mapped bytes.
unfoldable pub open_table : List ℕ → Result CoordTable
open_table mmap = do
  ensure (not (ltb (length mmap) header_size)) wrong_signature
  ensure (list_eq (slice mmap 0 8) file_signature) wrong_signature
  let entries_count = header_field mmap 1
  let keys_offset = header_field mmap 2
  ensure (is_multiple_of keys_offset 8 && leb (keys_offset +u entries_count *u 8) (length mmap))
      misplaced_keys
  let coords_offset = header_field mmap 3
  ensure (is_multiple_of coords_offset 8 && leb (coords_offset +u entries_count *u 8) (length mmap))
      misplaced_values
  ok (record {
    entries_count = entries_count;
    keys = read_ints 8 entries_count (drop keys_offset mmap);
    coords = read_ints 8 entries_count (drop coords_offset mmap);
  })

-- The conversions between floats and fixed-point numbers: `(c * 1e7) as i32`, as bits, and
-- `(i as f64) * 1e-7`.
pub record FixedPoint (F : Type 0) : Type 0 where
  pub to_fixed : F → ℕ
  pub from_fixed : ℕ → F
  pub to_fixed_small : (f : F) → to_fixed f < 2 ^ 32

module _ {F : Type 0} (fp : FixedPoint F) where
  abbrev pub to_coord : ℕ × ℕ → F × F
  to_coord (x, y) = (fp.from_fixed x, fp.from_fixed y)

  unfoldable pub get_at : CoordTable → Option ℕ → Result (Option (F × F))
  get_at t none = ok none
  get_at t (some idx) = do val ← index_or_panic t.coords idx; ok (some (to_coord (unpack val)))

  -- `CoordTable::get`
  unfoldable pub get : CoordTable → ℕ → Result (Option (F × F))
  get t key = get_at t (search t.keys key)

  -- `Writer::pack_coord`
  unfoldable pub pack_coord : F × F → ℕ
  pack_coord (x, y) = pack (fp.to_fixed x, fp.to_fixed y)

  unfoldable pub pack_entries : List (ℕ × (F × F)) → List (ℕ × ℕ)
  pack_entries [] = []
  pack_entries ((key, coord) ∷ es) = (key, pack_coord coord) ∷ pack_entries es

  -- `CoordTable::create`, from the entries to the opened file.
  unfoldable pub create : ExternalSorter (ℕ × ℕ) KeyLe → List (ℕ × (F × F)) → Result CoordTable
  create sorter coords = do
    w ← write_entries create_writer (sorter.sort (pack_entries coords))
    bytes ← close w
    open_table bytes
