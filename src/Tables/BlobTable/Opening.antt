-- ===== src/Tables/BlobTable/Opening.antt =====
-- What `open_table` reads from the bytes of a finished file.
use osmdiffs.Base.{
  list_eq, ℕ, ◌+◌, ◌-◌, ◌*◌, ◌%◌, ◌^◌, ◌<◌, ◌≡◌, refl, sym, ap, ◌∙◌, true, false, List, [], ◌∷◌,
  ◌++◌, length, concat, drop, replicate, length-append, drop-append, append_assoc, append-nil,
  arith, leb, ◌==◌, ltb, le→leb, le→ltb_false, ==_iff,
}
use osmdiffs.Base.Bytes.{
  length-to_le_bytes, encode_ints, length-encode_ints, read_ints-encode_ints, Fits, read_ints,
}
use osmdiffs.Base.Predicates.{All}
use osmdiffs.Base.Slice.{slice, slice-middle}
use osmdiffs.Tables.Format.{
  ok, u64_mod, u64_bytes, AreWords, header_field, header_field-words, signature-words,
}
use osmdiffs.Tables.BlobTable.{open_table, header_chunks, header_size, file_signature}
use osmdiffs.Tables.BlobTable.Layout.{header, length-header}

-- `open_table` on a file of this layout.
module _ (ks ss : List ℕ) (blob : List ℕ) (n : ℕ) (key_count : length ks ≡ n)
    (start_count : length ss ≡ n + 1) (small : n < 2 ^ 59) (keys_fit : All (Fits 8) ks)
    (starts_fit : All (Fits 8) ss) where
  abbrev rest : List ℕ
  rest = encode_ints 8 ks ++ (encode_ints 8 ss ++ blob)

  abbrev file : List ℕ
  file = header n ++ rest

  field :
      (pre : List (List ℕ)) (v : ℕ) (post : List (List ℕ)) (i : ℕ)
      → (pre ++ (u64_bytes v ∷ post)) ≡ header_chunks n 64 (64 + 8 * n) (64 + 8 * n + 8 * (n + 1))
      → AreWords pre
      → length pre ≡ i
      → Fits 8 v
      → header_field file i ≡ v
  unfolding header
  field pre v post i e words at_i h =
      ap (λ r. header_field r i)
        (append_assoc (concat (header_chunks n 64 (64 + 8 * n) (64 + 8 * n + 8 * (n + 1))))
            (replicate 24 0) rest
          ∙ ap (λ cs. concat cs ++ (replicate 24 0 ++ rest)) (sym e))
      ∙ header_field-words pre v post (replicate 24 0 ++ rest) i words at_i h

  count_field : header_field file 1 ≡ n
  count_field = field (file_signature ∷ []) n _ 1 refl (refl, tt) refl (omega arith)

  keys_field : header_field file 2 ≡ 64
  keys_field =
      field (file_signature ∷ u64_bytes n ∷ []) 64 _ 2 refl (refl, (length-to_le_bytes 8 n, tt))
        refl (omega arith)

  starts_field : header_field file 3 ≡ 64 + 8 * n
  starts_field =
      field (file_signature ∷ u64_bytes n ∷ u64_bytes 64 ∷ []) (64 + 8 * n) _ 3 refl
        (refl, (length-to_le_bytes 8 n, (length-to_le_bytes 8 64, tt))) refl (omega arith)

  blob_field : header_field file 4 ≡ 64 + 8 * n + 8 * (n + 1)
  blob_field =
      field (file_signature ∷ u64_bytes n ∷ u64_bytes 64 ∷ u64_bytes (64 + 8 * n) ∷ [])
        (64 + 8 * n + 8 * (n + 1)) _ 4 refl
        (
          refl,
          (
            length-to_le_bytes 8 n,
            (length-to_le_bytes 8 64, (length-to_le_bytes 8 (64 + 8 * n), tt)),
          ),
        )
        refl (omega arith)

  length-file : length file ≡ 64 + 8 * n + 8 * (n + 1) + length blob
  length-file = omega (
    arith,
    length-append (header n) rest,
    length-header n,
    length-append (encode_ints 8 ks) (encode_ints 8 ss ++ blob),
    length-append (encode_ints 8 ss) blob,
    length-encode_ints 8 ks,
    length-encode_ints 8 ss,
    key_count,
    start_count,
  )

  signature : list_eq (slice file 0 8) file_signature ≡ true
  unfolding header
  signature =
      ap (λ r. list_eq (slice r 0 8) file_signature)
        (append_assoc (concat (header_chunks n 64 (64 + 8 * n) (64 + 8 * n + 8 * (n + 1))))
          (replicate 24 0) rest)
      ∙ signature-words file_signature
          (u64_bytes n
            ∷ u64_bytes 64
            ∷ u64_bytes (64 + 8 * n)
            ∷ u64_bytes (64 + 8 * n + 8 * (n + 1))
            ∷ [])
          (replicate 24 0 ++ rest) refl

  keys_read : read_ints 8 n (drop 64 file) ≡ ks
  keys_read =
      ap (read_ints 8 n) (drop-append (header n) rest 64 (length-header n))
      ∙ ap (λ c. read_ints 8 c rest) (sym key_count)
      ∙ read_ints-encode_ints 8 ks (encode_ints 8 ss ++ blob) keys_fit

  starts_read : read_ints 8 (n + 1) (drop (64 + 8 * n) file) ≡ ss
  starts_read =
      ap (read_ints 8 (n + 1)) (
        ap (drop (64 + 8 * n)) (sym (append_assoc (header n) (encode_ints 8 ks) _))
        ∙ drop-append (header n ++ encode_ints 8 ks) (encode_ints 8 ss ++ blob) (64 + 8 * n) (
            omega (
              arith,
              length-append (header n) (encode_ints 8 ks),
              length-header n,
              length-encode_ints 8 ks,
              key_count,
            )))
      ∙ ap (λ c. read_ints 8 c (encode_ints 8 ss ++ blob)) (sym start_count)
      ∙ read_ints-encode_ints 8 ss blob starts_fit

  blob_read :
      slice file (64 + 8 * n + 8 * (n + 1)) (length file - (64 + 8 * n + 8 * (n + 1))) ≡ blob
  blob_read =
      ap (λ r. slice r (64 + 8 * n + 8 * (n + 1)) (length file - (64 + 8 * n + 8 * (n + 1))))
        (sym (append_assoc (header n) (encode_ints 8 ks) _)
          ∙ sym (append_assoc (header n ++ encode_ints 8 ks) (encode_ints 8 ss) blob)
          ∙ ap (λ r. ((header n ++ encode_ints 8 ks) ++ encode_ints 8 ss) ++ r)
              (sym (append-nil blob)))
      ∙ slice-middle ((header n ++ encode_ints 8 ks) ++ encode_ints 8 ss) blob [] _ _
          (omega (
            arith,
            length-append (header n ++ encode_ints 8 ks) (encode_ints 8 ss),
            length-append (header n) (encode_ints 8 ks),
            length-header n,
            length-encode_ints 8 ks,
            length-encode_ints 8 ss,
            key_count,
            start_count,
          ))
          (omega (arith, length-file))

  long_enough : ltb (length file) header_size ≡ false
  long_enough = le→ltb_false _ _ (omega (arith, length-file))

  keys_inside : leb ((64 + n * 8 % u64_mod) % u64_mod) (length file) ≡ true
  keys_inside = le→leb _ _ (omega (arith, length-file))

  count_exact : (n + 1) % u64_mod ≡ n + 1
  count_exact = omega arith

  starts_aligned : ((64 + 8 * n) % 8 == 0) ≡ true
  starts_aligned = (==_iff _ _).1 (omega arith)

  starts_inside : leb ((64 + 8 * n + (n + 1) * 8 % u64_mod) % u64_mod) (length file) ≡ true
  starts_inside = le→leb _ _ (omega (arith, length-file))

  blob_inside : leb (64 + 8 * n + 8 * (n + 1)) (length file) ≡ true
  blob_inside = le→leb _ _ (omega (arith, length-file))

  -- Opening such a file gives the arrays that were written.
  pub open-layout :
      open_table (header n ++ (encode_ints 8 ks ++ (encode_ints 8 ss ++ blob)))
      ≡ ok (record { entries_count = n; keys = ks; starts = ss; blob = blob })
  unfolding open_table
  open-layout = rw (
    count_field, keys_field, starts_field, blob_field, signature, long_enough, keys_inside,
    count_exact, starts_aligned, starts_inside, blob_inside, keys_read, starts_read, blob_read,
  )
