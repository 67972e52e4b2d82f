-- ===== src/Lib.antt =====
-- osmdiffs: the disk-based tables, the geometry assembly, the matchers and the deletion candidates
-- of the pipeline that compares AllThePlaces with OpenStreetMap.
--
-- The pipeline reads a planet of OpenStreetMap features, keeps what it needs of them in read-only
-- tables that are sorted on disk and mapped into memory, builds geometries from them, and compares
-- these with the places of AllThePlaces. This development models the tables, the joining of lines, the
-- matchers of infrastructure and of public transport, the edits that are suggested, and the reasons
-- for which an unmatched feature is proposed for deletion. The matchers read tags (Matchers), the
-- deletion candidates use their kinds, ids and masks (Pipeline).
--
-- Base: lists and numbers, bytes (`to_le_bytes`), an output file with a position that `write_all`,
-- `seek` overwrite as a `BufWriter<File>` does, and slices; Text is the list of its code points, with
-- what `str` does on it (`split`, `trim`, `strip_prefix`, `parse`), Search the adaptors of iterators,
-- Keyed a `HashMap` as an association list, Ordered the sorting of strings. Tags are pairs of native
-- strings, compared whole and walked as code points.
--
-- Tables (src/tables):
--   Format            results of fallible code (`ok`, `err` for an error returned, `panic`), u64
--                     arithmetic modulo 2^64 as a release build has it, header fields.
--   Sorting           the external sorter of the crate ext_sort is a parameter. Assumed is that it
--                     gives a sorted permutation of its input; Sorting.Insertion shows that an
--                     insertion sort is such a sorter.
--   SortedU64Index    src/tables/sorted_u64_index.rs: `search`. `partition_point` is the loop of the
--                     standard library; the length of the array is fuel enough, as the range shrinks.
--   BlobTable         src/tables/blob_table.rs: `Writer::create`, `write`, `close`, and
--                     `BlobTable::create`, `open`, `lookup`, on the bytes of the file.
--   Entries           what tables from keys to values share: the abstract map of a list of entries.
--   CoordTable        src/tables/coord_table.rs: `Writer::create`, `write`, `pack_coord`, `close`, and
--                     `CoordTable::create`, `open`, `get`; the conversions between a float and a
--                     32-bit integer are parameters.
--   U64Set            src/tables/u64_set.rs: `writer::create` and `U64Set::create`, `open`,
--                     `contains`, `iter`, `len`.
--   GraphTable        src/tables/graph.rs: `parent_range`, `ancestors`, in GraphTable.Nodes
--                     `node_count`, and in GraphTable.File `Writer::create`, `write`, `close`,
--                     `GraphTable::create`, `open`. The fuel of the ancestor
--                     walk is the number of edges and two, since every node but the first is a parent.
--   Wkb               the encoding of geometries by the crate wkb is a parameter. Assumed is that what
--                     is encoded is read again.
--   GeometryStore     src/tables/geometry_store.rs: `create`, `insert`, `lookup`; an operation is one
--                     step, as the lock makes it.
--   GeometryTable     src/tables/geometry_table.rs: `create`, `lookup` on top of the blob table.
--
--   Records           src/tables/records.rs: `RecordWriter` and `RecordReader`. The varints of prost
--                     and the frames of lz4_flex are the parameter `Codec`; Records.Runs has one. The
--                     length of the stream is fuel enough, as every record takes a byte.
--
-- Matchers (src/matchers):
--   Tags, MatchMask   src/matchers/mod.rs: `MatchMask` with all arms of `add_tag` (MatchMask.Arms),
--                     `importance` in tenths, `match_distance` in metres, names and Wikidata ids. A
--                     mask is the set of its bits. Lower case and letters of Unicode are the parameter
--                     `Unicode`.
--   Score             the score of a candidate at a distance. Scores are whole numbers, hundredths or
--                     ten-thousandths times the search radius, and distances are in millimetres, so
--                     that rounding of floats is left out. The distance to a candidate is an argument.
--   Infrastructure    src/matchers/infrastructure_matcher.rs: kinds and settings, `for_place`,
--                     `factor`, `score_osm_candidate`, `may_share`.
--   Transit           src/matchers/transit_matcher.rs: Stops (`Kind`, `Modes`), Identifiers (`Ids`,
--                     `swiss_uic`, `ifopt_stop`, `compare_ids`), Names (`local_refs`, `name_factor`),
--                     `for_place`, `factor`, `score_osm_candidate`, `may_share`.
--   Phones            src/matchers/contact/phones.rs: `parse_phone_number`.
--   Address           src/matchers/address.rs: `fold_tokens`, `osm_address_in_atp_text`; the tables of
--                     Unicode are the parameter `Letters`.
--
-- EditSuggesters (src/edit_suggesters): `PoiEditSuggester::suggest_edit`, `create_edit_suggester`.
--
-- Pipeline.Deletion (src/pipeline/conflate/deletion.rs):
--   Register          the home area of the Swiss register. Country borders, S2 cells and the test
--                     whether a polygon contains a point are the parameter `World`.
--   Coverage          `AtpCoverage` with `add`, `covers_wikidata`, `covers_name`. The country of a
--                     place is that of `place_country`, as src/pipeline/conflate/mod.rs passes it.
--   Deletion          `deletion_reason`; the location that is decoded when needed is an argument.
--
-- Geometry (src/geometry):
--   Coord             a coordinate is the bits of its two floats, which `coord_key` compares; `==` on
--                     floats is a parameter.
--   LineStitcher      src/geometry/line_stitcher.rs: `stitch_round` with `add_chain`, `insert_chain`,
--                     `merge_chains`. A chain slot is emptied by each merge, so the number of slots
--                     and one is fuel enough for the merging loop.
--
-- Not modelled: errors of the operating system, temporary file names and the final renames,
-- modification times, the chunk size of external sorting; big-endian machines, on which `from_le`
-- turns the numbers of a mapped array around; in src/tables/graph.rs `nodes`; the rounding of
-- floating-point scores; the matcher of points of interest and the resolution of conflicts between
-- matches. The other parts of the program are file formats, network access and glue.
pub mod Base
pub mod Tables
pub mod Geometry
pub mod Pipeline
pub mod Matchers
pub mod EditSuggesters
