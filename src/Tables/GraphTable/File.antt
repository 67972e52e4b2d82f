-- ===== src/Tables/GraphTable/File.antt =====
-- src/tables/graph.rs: the file of a graph, its writer and `open`.
use osmdiffs.Base.{list_eq, ℕ, ◌≤◌, ◌<◌, ◌≡◌, ◌⊎◌, not, List, [], ◌∷◌, ltb, ◌==◌, length, drop}
use osmdiffs.Base.Bytes.{read_ints}
use osmdiffs.Base.Output.{Output, new_output, write_all, seek_start}
use osmdiffs.Base.Slice.{slice}
use osmdiffs.Tables.Format.{
  wrong_signature, wrong_count, Result, ok, ◌>>◌, ensure, ◌+u◌, ◌*u◌, header_field, u64_bytes,
}
use osmdiffs.Tables.GraphTable.{GraphTable}
use osmdiffs.Tables.Sorting.{ExternalSorter}

abbrev pub header_size : ℕ
header_size = 16

-- "graph_v0"
abbrev pub file_signature : List ℕ
file_signature = b'g' ∷ b'r' ∷ b'a' ∷ b'p' ∷ b'h' ∷ b'_' ∷ b'v' ∷ b'0' ∷ []

-- The child and the parent.
abbrev pub Edge : Type 0
Edge = ℕ × ℕ

-- The order that `Edge` derives.
abbrev pub EdgeLe : Edge → Edge → Type 0
EdgeLe a b = (a.0 < b.0) ⊎ ((a.0 ≡ b.0) × (a.1 ≤ b.1))

-- The two output files; the temporary paths and the final rename are left out.
pub record Writer : Type 0 where
  pub edge_count : ℕ
  pub out : Output
  pub parents_out : Output

-- `Writer::create`
unfoldable pub create_writer : Writer
create_writer = record {
  edge_count = 0;
  out = write_all (u64_bytes 0) (write_all file_signature new_output);
  parents_out = new_output;
}

-- `Writer::write`
unfoldable pub write : Writer → Edge → Writer
write w (child, parent) = record {
  edge_count = w.edge_count +u 1;
  out = write_all (u64_bytes child) w.out;
  parents_out = write_all (u64_bytes parent) w.parents_out;
}

-- The loop of `GraphTable::create` over the sorted edges.
unfoldable pub write_edges : Writer → List Edge → Writer
write_edges w [] = w
write_edges w (e ∷ es) = write_edges (write w e) es

-- `Writer::close`: the bytes of the finished file.
unfoldable pub close : Writer → List ℕ
close w =
    let copied = write_all w.parents_out.contents w.out in
    (write_all (u64_bytes w.edge_count) (seek_start 8 copied)).contents

-- `GraphTable::open` on the mapped bytes.
unfoldable pub open_graph : List ℕ → Result GraphTable
open_graph mmap = do
  ensure (not (ltb (length mmap) header_size)) wrong_signature
  ensure (list_eq (slice mmap 0 8) file_signature) wrong_signature
  let edge_count = header_field mmap 1
  let expected_size = header_size +u edge_count *u 16
  ensure (length mmap == expected_size) wrong_count
  ok (record {
    children = read_ints 8 edge_count (drop header_size mmap);
    parents = read_ints 8 edge_count (drop (header_size +u edge_count *u 8) mmap);
  })

-- `GraphTable::create`, from the edges to the opened file.
unfoldable pub create : ExternalSorter Edge EdgeLe → List Edge → Result GraphTable
create sorter edges = open_graph (close (write_edges create_writer (sorter.sort edges)))
