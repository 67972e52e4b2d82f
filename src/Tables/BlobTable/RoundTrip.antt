-- ===== src/Tables/BlobTable/RoundTrip.antt =====
-- A blob table gives back what it was created from.
use osmdiffs.Tables.Entries.{
  KeyLe, keys_of, find, Distinct, find-Permutation, sorted-NonDescending, length-keys_of,
  keys_of-Fits,
}
use osmdiffs.Base.{
  ℕ, ◌+◌, ◌≡◌, ◌≢◌, refl, sym, ap, ◌∙◌, none, List, [], ◌∷◌, ◌++◌, length, concat, length-append,
  append-nil, arith, replicate,
}
use osmdiffs.Base.Bytes.{Fits, to_le_bytes, encode_ints, encode_ints-append, length-encode_ints}
use osmdiffs.Base.Predicates.{All-append, Pairwise}
use osmdiffs.Base.Output.{write_all}
use osmdiffs.Tables.Format.{ok, err, ◌>>=◌, not_ascending, u64_bytes}
use osmdiffs.Tables.Sorting.{ExternalSorter, Permutation, Permutation-sym, Permutation-Pairwise}
use osmdiffs.Tables.SortedU64Index.Lookup.{search-eq-index_of}
use osmdiffs.Tables.BlobTable.{BlobTable, Entry, lookup, create, create_writer}
use osmdiffs.Tables.BlobTable.Writing.{
  offsets, blobs_of, Rising, IsSound, Wrote, written, written-Wrote, write_entries-written,
  write_entries-not_ascending,
}
use osmdiffs.Tables.BlobTable.Layout.{close-layout}
use osmdiffs.Tables.BlobTable.Opening.{open-layout}
use osmdiffs.Tables.BlobTable.{Writer, close, open_table, lookup_at}
use osmdiffs.Base.{replicate}
use osmdiffs.Base.Output.{overwrite}
use osmdiffs.Tables.BlobTable.Contents.{table, fetch}
use osmdiffs.Tables.BlobTable.Order.{
  Fitting, rising, Rising-Distinct, Fitting-Permutation, offsets-Fits, length-offsets,
}

-- The state after the sorted entries, from an empty writer.
IsSound-create_writer : IsSound create_writer
unfolding create_writer write_all overwrite
IsSound-create_writer = record {
  keys_end = refl;
  starts_end = refl;
  blob_end = refl;
  count_fits = omega arith;
}

module _ (es : List Entry) (fit : Fitting es) where
  abbrev w : Writer
  w = written create_writer es

  files : Wrote create_writer es w
  files = written-Wrote create_writer es IsSound-create_writer

  keys_file : w.writer.contents ≡ replicate 64 0 ++ encode_ints 8 (keys_of es)
  unfolding create_writer write_all overwrite
  keys_file = files.keys

  starts_file : w.starts_writer.contents ≡ encode_ints 8 (offsets 0 (blobs_of es))
  unfolding create_writer
  starts_file = files.starts

  blob_file : w.blob_writer.contents ≡ concat (blobs_of es)
  unfolding create_writer
  blob_file = files.blob

  blob_pos : w.blob_writer.pos ≡ length (concat (blobs_of es))
  blob_pos = sym files.sound.blob_end ∙ ap length blob_file

  count : w.entries_count ≡ length es
  unfolding create_writer
  count = omega (arith, files.count, fit.count_fits)

  at_zero : length (concat (blobs_of es)) ≡ 0 + length (concat (blobs_of es))
  at_zero = omega arith

  sentinel :
      encode_ints 8 (offsets 0 (blobs_of es)) ++ u64_bytes w.blob_writer.pos
      ≡ encode_ints 8 (table [] 0 es).starts
  unfolding encode_ints
  sentinel =
      ap (λ p. encode_ints 8 (offsets 0 (blobs_of es)) ++ p)
        (ap (to_le_bytes 8) (blob_pos ∙ at_zero)
          ∙ sym (append-nil (to_le_bytes 8 (0 + length (concat (blobs_of es))))))
      ∙ sym (encode_ints-append 8 (offsets 0 (blobs_of es)) _)

  opened : (close w >>= open_table) ≡ ok (table [] 0 es)
  opened =
      ap (λ r. r >>= open_table)
        (close-layout w (encode_ints 8 (keys_of es)) (encode_ints 8 (offsets 0 (blobs_of es)))
          (concat (blobs_of es)) (length es) keys_file files.sound.keys_end starts_file
          files.sound.starts_end blob_file count
          (omega (arith, length-encode_ints 8 (keys_of es), length-keys_of es))
          (omega (arith, length-encode_ints 8 (offsets 0 (blobs_of es)), length-offsets 0 es))
          fit.count_fits)
      ∙ rw sentinel (
          open-layout (keys_of es) (table [] 0 es).starts (concat (blobs_of es)) (length es)
            (length-keys_of es)
            (omega (
              arith,
              length-append (offsets 0 (blobs_of es)) ((0 + length (concat (blobs_of es))) ∷ []),
              length-offsets 0 es,
            ))
            fit.count_fits (keys_of-Fits es fit.keys_fit)
            (All-append (Fits 8) (offsets 0 (blobs_of es)) _
              (offsets-Fits 0 (blobs_of es) (omega (arith, fit.blob_fits)))
              (omega (arith, fit.blob_fits), tt)))

-- The abstract map of the sorted entries is that of the entries.
lookup-table :
    (entries es : List Entry) (key : ℕ)
    → Permutation es entries
    → Pairwise KeyLe es
    → Distinct es
    → lookup (table [] 0 es) key ≡ ok (find entries key)
unfolding lookup
lookup-table entries es key p sorted distinct =
    ap (lookup_at (table [] 0 es))
      (search-eq-index_of (keys_of es) key (sorted-NonDescending es sorted))
    ∙ fetch [] 0 es key refl
    ∙ ap ok (find-Permutation key p distinct)

Ne-sym : (a b : Entry) → a.0 ≢ b.0 → b.0 ≢ a.0
Ne-sym a b ne e = ne (sym e)

module _ (sorter : ExternalSorter Entry KeyLe) (entries : List Entry) where
  abbrev es : List Entry
  es = sorter.sort entries

  Distinct-es : Distinct entries → Distinct es
  Distinct-es d =
      Permutation-Pairwise (λ (a b : Entry). a.0 ≢ b.0) Ne-sym
        (Permutation-sym (sorter.permutes entries)) d

  -- From fewer than 2^59 entries with distinct u64 keys, in any order, whose blobs have together
  -- fewer than 2^64 bytes, `create` makes a file that it opens again, and `lookup` of every key
  -- gives the blob of the entry with that key, or `none` without one.
  pub lookup-create :
      Distinct entries
      → Fitting entries
      → (t : BlobTable) × (create sorter entries ≡ ok t)
        × ((key : ℕ) → lookup t key ≡ ok (find entries key))
  unfolding create
  lookup-create d fit =
      let rise = rising none es (sorter.sorted entries) (Distinct-es d) tt in
      (
        table [] 0 es,
        rw (write_entries-written create_writer es (starts_empty es rise))
            (opened es (Fitting-Permutation (Permutation-sym (sorter.permutes entries)) fit)),
        λ key.
            lookup-table entries es key (sorter.permutes entries) (sorter.sorted entries)
              (Distinct-es d),
      )
    where
      starts_empty : (fs : List Entry) → Rising none fs → Rising create_writer.last_key fs
      starts_empty fs r = unfold create_writer in r

  -- Two entries with one key: `create` fails, and no table is made.
  pub create-duplicate : ¬ Distinct entries → create sorter entries ≡ err not_ascending
  unfolding create
  create-duplicate twice = rw (write_entries-not_ascending create_writer es (λ r. twice (back r)))
    where
      back : Rising create_writer.last_key es → Distinct entries
      back r =
          Permutation-Pairwise (λ (a b : Entry). a.0 ≢ b.0) Ne-sym (sorter.permutes entries)
            (Rising-Distinct create_writer.last_key es r)
