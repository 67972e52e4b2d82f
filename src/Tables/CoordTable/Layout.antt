-- ===== src/Tables/CoordTable/Layout.antt =====
-- The bytes of a finished file, and what `open_table` reads from them.
use osmdiffs.Base.{
  list_eq, ℕ, ◌+◌, ◌*◌, ◌%◌, ◌^◌, ◌<◌, ◌≡◌, refl, sym, ap, ◌∙◌, true, false, List, [], ◌∷◌, ◌++◌,
  length, concat, drop, replicate, length-append, drop-append, append_assoc, append-nil, arith, leb,
  ◌==◌, ltb, le→leb, le→ltb_false, ==_iff,
}
use osmdiffs.Base.Bytes.{
  length-to_le_bytes, encode_ints, length-encode_ints, read_ints-encode_ints, Fits, read_ints,
}
use osmdiffs.Base.Output.{
  Output, AtEnd, write_all, overwrite-end, write_chunks, seek_start, write_chunks-at_start,
  pos-write_chunks,
}
use osmdiffs.Base.Predicates.{All}
use osmdiffs.Base.Slice.{slice}
use osmdiffs.Tables.Format.{
  ok, u64_mod, u64_bytes, AreWords, length-words, header_field, header_field-words, signature-words,
}
use osmdiffs.Tables.CoordTable.{
  Writer, close, open_table, header_chunks, header_size, file_signature,
}

abbrev chunks : ℕ → List (List ℕ)
chunks n = header_chunks n 64 (64 + 8 * n)

-- The header of a file with `n` entries.
pub header : ℕ → List ℕ
header n = concat (chunks n) ++ replicate 32 0

length-chunks : (n : ℕ) → length (concat (chunks n)) ≡ 32
length-chunks n = length-words (chunks n) (
  refl,
  (length-to_le_bytes 8 n, (length-to_le_bytes 8 64, (length-to_le_bytes 8 (64 + 8 * n), tt))),
)

length-header : (n : ℕ) → length (header n) ≡ 64
unfolding header
length-header n = omega (arith, length-append (concat (chunks n)) (replicate 32 0), length-chunks n)

-- `keys` and `coords` are the contents of the writer's two files.
module _ (w : Writer) (keys coords : List ℕ) (n : ℕ)
    (keys_file : w.writer.contents ≡ replicate 64 0 ++ keys) (keys_end : AtEnd w.writer)
    (coords_file : w.coords_writer.contents ≡ coords) (count : w.coords_count ≡ n)
    (keys_size : length keys ≡ 8 * n) (small : n < 2 ^ 59) where
  keys_pos : w.writer.pos ≡ 64 + 8 * n
  keys_pos = omega (arith, keys_end, ap length keys_file, length-append (replicate 64 0) keys)

  coords_offset : (64 + n * 8 % u64_mod) % u64_mod ≡ 64 + 8 * n
  coords_offset = omega arith

  abbrev headed : Output
  headed = write_chunks (chunks n) (seek_start 0 w.writer)

  header_pos : leb headed.pos 64 ≡ true
  header_pos = le→leb _ _ (
      unfold seek_start in
      omega (arith, pos-write_chunks (chunks n) (seek_start 0 w.writer), length-chunks n))

  headed_contents : headed.contents ≡ header n ++ keys
  unfolding header
  headed_contents =
      write_chunks-at_start (chunks n) w.writer
      ∙ ap (λ r. concat (chunks n) ++ drop (length (concat (chunks n))) r) keys_file
      ∙ ap (λ k. concat (chunks n) ++ drop k (replicate 64 0 ++ keys)) (length-chunks n)
      ∙ sym (append_assoc (concat (chunks n)) (replicate 32 0) keys)

  length-headed : length headed.contents ≡ 64 + 8 * n
  length-headed =
      ap length headed_contents ∙ omega (arith, length-append (header n) keys, length-header n)

  -- `close` succeeds, and the file is the header, the keys and the coordinates.
  pub close-layout : close w ≡ ok (header n ++ (keys ++ coords))
  unfolding close seek_start write_all
  close-layout =
      rw (count, coords_offset, (==_iff _ _).1 keys_pos, header_pos)
        (ap ok (
          overwrite-end headed.contents w.coords_writer.contents (64 + 8 * n) length-headed
          ∙ ap (λ r. r ++ w.coords_writer.contents) headed_contents
          ∙ ap (λ r. (header n ++ keys) ++ r) coords_file
          ∙ append_assoc (header n) keys coords))

-- `open_table` on a file of this layout.
module _ (ks vs : List ℕ) (n : ℕ) (key_count : length ks ≡ n) (coord_count : length vs ≡ n)
    (small : n < 2 ^ 59) (keys_fit : All (Fits 8) ks) (coords_fit : All (Fits 8) vs) where
  abbrev rest : List ℕ
  rest = encode_ints 8 ks ++ encode_ints 8 vs

  abbrev file : List ℕ
  file = header n ++ rest

  field :
      (pre : List (List ℕ)) (v : ℕ) (post : List (List ℕ)) (i : ℕ)
      → (pre ++ (u64_bytes v ∷ post)) ≡ chunks n
      → AreWords pre
      → length pre ≡ i
      → Fits 8 v
      → header_field file i ≡ v
  unfolding header
  field pre v post i e words at_i h =
      ap (λ r. header_field r i)
        (append_assoc (concat (chunks n)) (replicate 32 0) rest
          ∙ ap (λ cs. concat cs ++ (replicate 32 0 ++ rest)) (sym e))
      ∙ header_field-words pre v post (replicate 32 0 ++ rest) i words at_i h

  count_field : header_field file 1 ≡ n
  count_field = field (file_signature ∷ []) n _ 1 refl (refl, tt) refl (omega arith)

  keys_field : header_field file 2 ≡ 64
  keys_field =
      field (file_signature ∷ u64_bytes n ∷ []) 64 _ 2 refl (refl, (length-to_le_bytes 8 n, tt))
        refl (omega arith)

  coords_field : header_field file 3 ≡ 64 + 8 * n
  coords_field =
      field (file_signature ∷ u64_bytes n ∷ u64_bytes 64 ∷ []) (64 + 8 * n) _ 3 refl
        (refl, (length-to_le_bytes 8 n, (length-to_le_bytes 8 64, tt))) refl (omega arith)

  length-file : length file ≡ 64 + 16 * n
  length-file = omega (
    arith,
    length-append (header n) rest,
    length-header n,
    length-append (encode_ints 8 ks) (encode_ints 8 vs),
    length-encode_ints 8 ks,
    length-encode_ints 8 vs,
    key_count,
    coord_count,
  )

  signature : list_eq (slice file 0 8) file_signature ≡ true
  unfolding header
  signature =
      ap (λ r. list_eq (slice r 0 8) file_signature)
        (append_assoc (concat (chunks n)) (replicate 32 0) rest)
      ∙ signature-words file_signature (u64_bytes n ∷ u64_bytes 64 ∷ u64_bytes (64 + 8 * n) ∷ [])
          (replicate 32 0 ++ rest) refl

  keys_read : read_ints 8 n (drop 64 file) ≡ ks
  keys_read =
      ap (read_ints 8 n) (drop-append (header n) rest 64 (length-header n))
      ∙ ap (λ c. read_ints 8 c rest) (sym key_count)
      ∙ read_ints-encode_ints 8 ks (encode_ints 8 vs) keys_fit

  coords_read : read_ints 8 n (drop (64 + 8 * n) file) ≡ vs
  coords_read =
      ap (read_ints 8 n) (
        ap (drop (64 + 8 * n)) (sym (append_assoc (header n) (encode_ints 8 ks) _))
        ∙ drop-append (header n ++ encode_ints 8 ks) (encode_ints 8 vs) (64 + 8 * n) (
            omega (
              arith,
              length-append (header n) (encode_ints 8 ks),
              length-header n,
              length-encode_ints 8 ks,
              key_count,
            ))
        ∙ sym (append-nil (encode_ints 8 vs)))
      ∙ ap (λ c. read_ints 8 c (encode_ints 8 vs ++ [])) (sym coord_count)
      ∙ read_ints-encode_ints 8 vs [] coords_fit

  long_enough : ltb (length file) header_size ≡ false
  long_enough = le→ltb_false _ _ (omega (arith, length-file))

  keys_inside : leb ((64 + n * 8 % u64_mod) % u64_mod) (length file) ≡ true
  keys_inside = le→leb _ _ (omega (arith, length-file))

  coords_aligned : ((64 + 8 * n) % 8 == 0) ≡ true
  coords_aligned = (==_iff _ _).1 (omega arith)

  coords_inside : leb ((64 + 8 * n + n * 8 % u64_mod) % u64_mod) (length file) ≡ true
  coords_inside = le→leb _ _ (omega (arith, length-file))

  -- Opening such a file gives the arrays that were written.
  pub open-layout :
      open_table (header n ++ (encode_ints 8 ks ++ encode_ints 8 vs))
      ≡ ok (record { entries_count = n; keys = ks; coords = vs })
  unfolding open_table
  open-layout = rw (
    count_field, keys_field, coords_field, signature, long_enough, keys_inside, coords_aligned,
    coords_inside, keys_read, coords_read,
  )
