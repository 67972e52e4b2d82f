-- ===== src/Tables/U64Set.antt =====
-- src/tables/u64_set.rs: a set of u64 values in a mapped file.
mod Writing
mod Runs
pub mod RoundTrip
use osmdiffs.Base.{
  list_eq, ℕ, ◌+◌, ◌*◌, ◌≤◌, Bool, true, false, not, Option, none, some, List, [], ◌∷◌, ltb, ◌==◌,
  if◌then◌else◌, length, drop, replicate,
}
use osmdiffs.Base.Bytes.{read_ints}
use osmdiffs.Base.Output.{Output, new_output, write_all, write_chunks, seek_start, seek_end}
use osmdiffs.Base.Slice.{slice}
use osmdiffs.Tables.Format.{
  Error, wrong_signature, wrong_count, Result, ok, ◌>>=◌, ◌>>◌, ensure, ◌+u◌, ◌*u◌, header_field,
  u64_bytes,
}
use osmdiffs.Tables.SortedU64Index.{search}
use osmdiffs.Tables.Sorting.{ExternalSorter}

abbrev pub header_size : ℕ
header_size = 2 * 8

-- "u64set_0"
abbrev pub file_signature : List ℕ
file_signature = b'u' ∷ b'6' ∷ b'4' ∷ b's' ∷ b'e' ∷ b't' ∷ b'_' ∷ b'0' ∷ []

-- `elements` is the array behind the header of the mapped file.
pub record U64Set : Type 0 where
  pub entries_count : ℕ
  pub elements : List ℕ

-- The variables of the loop in `writer::create`.
pub record Unique : Type 0 where
  pub writer : Output
  pub num_unique_values : ℕ
  pub last : Option ℕ

unfoldable pub start : Unique
start = record {
  writer = write_all (replicate header_size 0) new_output;
  num_unique_values = 0;
  last = none;
}

unfoldable pub write_last : Unique → ℕ → Unique
write_last st l = record st {
  writer = write_all (u64_bytes l) st.writer;
  num_unique_values = st.num_unique_values +u 1;
}

-- One round of the loop: a value other than the last one lets the last one out.
unfoldable pub push_value : Unique → ℕ → Unique
push_value st value = elim st.last [
  | none ↦ record st { last = some value }
  | some l ↦ record (if l == value then st else write_last st l) { last = some value }
]

unfoldable pub push_values : Unique → List ℕ → Unique
push_values st [] = st
push_values st (v ∷ vs) = push_values (push_value st v) vs

-- Behind the loop: the last value is let out.
unfoldable pub flush_last : Unique → Unique
flush_last st = elim st.last [ none ↦ st | some l ↦ write_last st l ]

abbrev pub header_chunks : ℕ → List (List ℕ)
header_chunks num_unique_values = file_signature ∷ u64_bytes num_unique_values ∷ []

-- `writer::create` on the sorted values: the bytes of the file.
unfoldable pub write_set : List ℕ → List ℕ
write_set sorted =
    let st = flush_last (push_values start sorted) in
    (seek_end (write_chunks (header_chunks st.num_unique_values) (seek_start 0 st.writer))).contents

-- `U64Set::open` on the mapped bytes.
unfoldable pub open_set : List ℕ → Result U64Set
open_set mmap = do
  ensure (not (ltb (length mmap) header_size)) wrong_signature
  ensure (list_eq (slice mmap 0 8) file_signature) wrong_signature
  let entries_count = header_field mmap 1
  ensure (header_size +u entries_count *u 8 == length mmap) wrong_count
  ok (record {
    entries_count = entries_count;
    elements = read_ints 8 entries_count (drop header_size mmap);
  })

-- `U64Set::contains`
unfoldable pub contains : U64Set → ℕ → Bool
contains set n = elim (search set.elements n) [ none ↦ false | some i ↦ true ]

-- `U64Set::iter`, as the list of what it yields.
abbrev pub iter : U64Set → List ℕ
iter set = set.elements

-- `U64Set::len`
abbrev pub len : U64Set → ℕ
len set = set.entries_count

-- `U64Set::create`, from the elements to the opened file.
unfoldable pub create : ExternalSorter ℕ (λ a b. a ≤ b) → List ℕ → Result U64Set
create sorter elements = open_set (write_set (sorter.sort elements))
