-- ===== src/Tables/BlobTable.antt =====
-- src/tables/blob_table.rs: a map from u64 keys to byte strings in a mapped file.
mod Writing
mod Layout
mod Opening
mod Contents
pub mod Order
mod Runs
pub mod RoundTrip
use osmdiffs.Base.{
  list_eq, ℕ, zero, suc, ◌+◌, ◌-◌, ◌*◌, ◌≤◌, ◌<◌, Bool, true, false, not, Option, none, some, List,
  [], ◌∷◌, ◌++◌, ltb, leb, ◌==◌, ◌&&◌, if◌then◌else◌, length, get_or, take, drop, replicate,
}
use osmdiffs.Base.Bytes.{read_ints}
use osmdiffs.Base.Output.{Output, new_output, write_all, write_chunks, seek_start, seek_end}
use osmdiffs.Base.Slice.{slice}
use osmdiffs.Tables.Format.{
  Error, wrong_signature, misplaced_keys, misplaced_values, misplaced_blob, not_ascending, Result,
  ok, err, panic, ◌>>=◌, ◌>>◌, ensure, assert, ◌+u◌, ◌*u◌, is_multiple_of, header_field, u64_bytes,
  index_or_panic,
}
use osmdiffs.Tables.Entries.{KeyLe}
use osmdiffs.Tables.SortedU64Index.{search}
use osmdiffs.Tables.Sorting.{ExternalSorter}

abbrev pub header_size : ℕ
header_size = 8 * 8

-- "blobtbl0"
abbrev pub file_signature : List ℕ
file_signature = b'b' ∷ b'l' ∷ b'o' ∷ b'b' ∷ b't' ∷ b'b' ∷ b'l' ∷ b'0' ∷ []

abbrev pub Entry : Type 0
Entry = ℕ × List ℕ

pub record BlobTable : Type 0 where
  pub entries_count : ℕ
  pub keys : List ℕ
  pub starts : List ℕ
  pub blob : List ℕ

-- The three output files; the temporary paths and the final rename are left out.
pub record Writer : Type 0 where
  pub writer : Output
  pub starts_writer : Output
  pub blob_writer : Output
  pub entries_count : ℕ
  pub last_key : Option ℕ

-- `Writer::create`
unfoldable pub create_writer : Writer
create_writer = record {
  writer = write_all (replicate header_size 0) new_output;
  starts_writer = new_output;
  blob_writer = new_output;
  entries_count = 0;
  last_key = none;
}

abbrev pub is_in_order : Option ℕ → ℕ → Bool
is_in_order none key = true
is_in_order (some last) key = not (leb key last)

-- `Writer::write`
unfoldable pub write : Writer → Entry → Result Writer
write w (key, blob) = do
  ensure (is_in_order w.last_key key) not_ascending
  ok (record {
    writer = write_all (u64_bytes key) w.writer;
    starts_writer = write_all (u64_bytes w.blob_writer.pos) w.starts_writer;
    blob_writer = write_all blob w.blob_writer;
    entries_count = w.entries_count +u 1;
    last_key = some key;
  })

-- The loop of `BlobTable::create` over the sorted entries.
unfoldable pub write_entries : Writer → List Entry → Result Writer
write_entries w [] = ok w
write_entries w (e ∷ es) = write w e >>= λ w'. write_entries w' es

-- The header fields, in the order in which `close` writes them.
abbrev pub header_chunks : ℕ → ℕ → ℕ → ℕ → List (List ℕ)
header_chunks count keys_offset starts_offset blob_offset =
    file_signature
    ∷ u64_bytes count
    ∷ u64_bytes keys_offset
    ∷ u64_bytes starts_offset
    ∷ u64_bytes blob_offset
    ∷ []

-- `Writer::close`: the bytes of the finished file.
unfoldable pub close : Writer → Result (List ℕ)
close w = do
  let starts = write_all (u64_bytes w.blob_writer.pos) w.starts_writer
  let keys_offset = header_size
  let starts_offset = keys_offset +u w.entries_count *u 8
  let blob_offset = starts_offset +u (w.entries_count +u 1) *u 8
  assert (w.writer.pos == starts_offset)
  let with_starts = write_all starts.contents w.writer
  assert (with_starts.pos == blob_offset)
  let with_blob = write_all w.blob_writer.contents with_starts
  let header =
      write_chunks (header_chunks w.entries_count keys_offset starts_offset blob_offset)
        (seek_start 0 with_blob)
  assert (leb header.pos header_size)
  ok (seek_end header).contents

-- `BlobTable::open` on the mapped bytes.
unfoldable pub open_table : List ℕ → Result BlobTable
open_table mmap = do
  ensure (not (ltb (length mmap) header_size)) wrong_signature
  ensure (list_eq (slice mmap 0 8) file_signature) wrong_signature
  let entries_count = header_field mmap 1
  let keys_offset = header_field mmap 2
  ensure (is_multiple_of keys_offset 8 && leb (keys_offset +u entries_count *u 8) (length mmap))
      misplaced_keys
  let starts_count = entries_count +u 1
  let starts_offset = header_field mmap 3
  ensure (is_multiple_of starts_offset 8 && leb (starts_offset +u starts_count *u 8) (length mmap))
      misplaced_values
  let blob_offset = header_field mmap 4
  ensure (leb blob_offset (length mmap)) misplaced_blob
  ok (record {
    entries_count = entries_count;
    keys = read_ints 8 entries_count (drop keys_offset mmap);
    starts = read_ints 8 starts_count (drop starts_offset mmap);
    blob = slice mmap blob_offset (length mmap - blob_offset);
  })

-- `&self.blob[start..end]`
abbrev pub byte_range : List ℕ → ℕ → ℕ → Result (List ℕ)
byte_range bs start end =
    if leb start end && leb end (length bs) then ok (slice bs start (end - start)) else panic

unfoldable pub lookup_at : BlobTable → Option ℕ → Result (Option (List ℕ))
lookup_at t none = ok none
lookup_at t (some idx) = do
  start ← index_or_panic t.starts idx
  end ← index_or_panic t.starts (idx + 1)
  bytes ← byte_range t.blob start end
  ok (some bytes)

-- `BlobTable::lookup`
unfoldable pub lookup : BlobTable → ℕ → Result (Option (List ℕ))
lookup t key = lookup_at t (search t.keys key)

-- `BlobTable::create`, from the entries to the opened file.
unfoldable pub create : ExternalSorter Entry KeyLe → List Entry → Result BlobTable
create sorter entries = do
  w ← write_entries create_writer (sorter.sort entries)
  bytes ← close w
  open_table bytes
