-- ===== src/Tables/Records/RoundTrip.antt =====
-- What was written to a spool file is read again.
use osmdiffs.Base.{
  ltb, ℕ, zero, suc, ◌+◌, ◌/◌, ◌%◌, ◌^◌, ◌≤◌, ◌<◌, ◌≡◌, refl, sym, ap, ◌∙◌, true, false, some, List,
  [], ◌∷◌, ◌++◌, arith, length, length-append, append_assoc, append-nil, take, drop, take-append,
  drop-append, leb, ◌==◌, list_eq,
}
use osmdiffs.Base.Predicates.{All}
use osmdiffs.Base.Bytes.{from_le_bytes, length-to_le_bytes, from-to_le_bytes}
use osmdiffs.Tables.Format.{ok, ◌>>=◌, ◌>>◌, ensure, u64_bytes}
use osmdiffs.Tables.Records.{
  Codec, IsVarint, RecordReader, RecordWriter, create_writer, header_size, file_signature,
  open_records, decoded, read_varint, read_body, next_record, collect, collect_rest, iter, write,
  write_records, close,
}

module _ (codec : Codec) where
  -- The loop reads one varint, whatever follows it.
  pub read_varint-append :
      (buf bs rest : List ℕ)
      → IsVarint bs
      → length buf + length bs ≤ 10
      → read_varint codec buf (bs ++ rest) ≡ decoded codec (codec.decode_varint (buf ++ bs)) rest
  unfolding read_varint
  read_varint-append buf [] rest h short = absurd h
  read_varint-append buf (b ∷ []) rest h short = rw (space, last_byte) refl
    where
      space : leb 10 (length buf) ≡ false
      space = ground (arith, short)

      last_byte : (b / 128 % 2 == 0) ≡ true
      last_byte = ground (arith, h)
  read_varint-append buf (b ∷ (c ∷ bs)) rest h short =
      rw (space, more)
        (read_varint-append (buf ++ (b ∷ [])) (c ∷ bs) rest (h.1.1)
            (omega (arith, short, length-append buf (b ∷ [])))
          ∙ ap (λ r. decoded codec (codec.decode_varint r) rest)
              (append_assoc buf (b ∷ []) (c ∷ bs)))
    where
      space : leb 10 (length buf) ≡ false
      space = ground (arith, short)

      more : (b / 128 % 2 == 0) ≡ false
      more = ground (arith, h.0, h.1.0)

  pub read_varint-encode :
      (n : ℕ) (rest : List ℕ)
      → n < 2 ^ 64
      → read_varint codec [] (codec.encode_varint n ++ rest) ≡ ok (some (n, rest))
  read_varint-encode n rest h =
      read_varint-append [] (codec.encode_varint n) rest (codec.encode_varint-IsVarint n h)
        (omega (arith, codec.length-encode_varint n h))
      ∙ (unfold decoded in ap (λ o. decoded codec o rest) (codec.decode-encode n h))

  read_body-append :
      (r rest : List ℕ) → read_body codec (some (length r, r ++ rest)) ≡ ok (some (r, rest))
  unfolding read_body
  read_body-append r rest =
      rw (fits, take-append r rest (length r) refl, drop-append r rest (length r) refl) refl
    where
      fits : leb (length r) (length (r ++ rest)) ≡ true
      fits = ground (arith, length-append r rest)

  pub next_record-framed :
      (r rest : List ℕ)
      → length r < 2 ^ 64
      → next_record codec (codec.encode_varint (length r) ++ (r ++ rest)) ≡ ok (some (r, rest))
  unfolding next_record ◌>>=◌
  next_record-framed r rest h =
      ap (λ s. s >>= read_body codec) (read_varint-encode (length r) (r ++ rest) h)
      ∙ read_body-append r rest

  -- The stream of some records.
  abbrev frames : List (List ℕ) → List ℕ
  frames [] = []
  frames (r ∷ rs) = codec.encode_varint (length r) ++ (r ++ frames rs)

  abbrev pub AreShort : List (List ℕ) → Type 0
  AreShort = All (λ r. length r < 2 ^ 64)

  collect-frames :
      (fuel : ℕ) (rs : List (List ℕ))
      → AreShort rs
      → length rs < fuel
      → collect codec fuel (frames rs) ≡ ok rs
  unfolding collect collect_rest ◌>>=◌
  collect-frames zero rs h lt = absurd (omega (arith, lt))
  collect-frames (suc fuel) [] h lt = unfold next_record read_varint read_body in refl
  collect-frames (suc fuel) (r ∷ rs) h lt =
      ap (λ s. s >>= collect_rest (collect codec fuel)) (next_record-framed r (frames rs) h.0)
      ∙ ap (λ l. l >>= λ xs. ok (r ∷ xs)) (collect-frames fuel rs h.1 (omega (arith, lt)))

  nonempty : (bs : List ℕ) → IsVarint bs → 1 ≤ length bs
  nonempty [] h = absurd h
  nonempty (b ∷ bs) h = omega arith

  length-frames : (rs : List (List ℕ)) → AreShort rs → length rs ≤ length (frames rs)
  length-frames [] h = omega arith
  length-frames (r ∷ rs) h = omega (
    arith,
    length-frames rs h.1,
    nonempty (codec.encode_varint (length r)) (codec.encode_varint-IsVarint (length r) h.0),
    length-append (codec.encode_varint (length r)) (r ++ frames rs),
    length-append r (frames rs),
  )

  encoder-write_records :
      (w : RecordWriter) (rs : List (List ℕ))
      → (write_records codec w rs).encoder ≡ w.encoder ++ frames rs
  unfolding write_records write
  encoder-write_records w [] = sym (append-nil (w.encoder))
  encoder-write_records w (r ∷ rs) =
      encoder-write_records (write codec w r) rs
      ∙ (append_assoc (w.encoder) (codec.encode_varint (length r) ++ r) (frames rs)
          ∙ ap (λ t. w.encoder ++ t) (append_assoc (codec.encode_varint (length r)) r (frames rs)))

  count-write_records :
      (w : RecordWriter) (rs : List (List ℕ))
      → w.count + length rs < 2 ^ 64
      → (write_records codec w rs).count ≡ w.count + length rs
  unfolding write_records write
  count-write_records w [] h = omega arith
  count-write_records w (r ∷ rs) h =
      omega (arith, h, count-write_records (write codec w r) rs (omega (arith, h)))

  abbrev file_of : List (List ℕ) → List ℕ
  file_of rs = close codec (write_records codec create_writer rs)

  abbrev reader_of : List (List ℕ) → RecordReader
  reader_of rs = record { file = file_of rs; count = length rs }

  open-file_of :
      (rs : List (List ℕ)) → length rs < 2 ^ 64 → open_records (file_of rs) ≡ ok (reader_of rs)
  unfolding open_records list_eq
  open-file_of rs h = unfold ensure ◌>>=◌ ◌>>◌ close in rw (size, counted) refl
    where
      w : RecordWriter
      w = write_records codec create_writer rs

      rest : List ℕ
      rest = u64_bytes (w.count) ++ codec.compress (w.encoder)

      size : ltb (length (file_signature ++ rest)) header_size ≡ false
      size = ground (
        arith,
        length-append (u64_bytes (w.count)) (codec.compress (w.encoder)),
        length-to_le_bytes 8 (w.count),
      )

      same_count : (write_records codec create_writer rs).count ≡ length rs
      same_count = omega (arith, count-write_records create_writer rs (omega (arith, h)))

      counted : from_le_bytes (take 8 rest) ≡ length rs
      counted =
          ap from_le_bytes (
            take-append (u64_bytes (w.count)) (codec.compress (w.encoder)) 8
              (length-to_le_bytes 8 (w.count)))
          ∙ (from-to_le_bytes 8 (w.count) (omega (arith, h, same_count)) ∙ same_count)

  iter-reader_of : (rs : List (List ℕ)) → AreShort rs → iter codec (reader_of rs) ≡ ok rs
  unfolding iter
  iter-reader_of rs h =
      ap (λ t. collect codec (suc (length t)) t) stream
      ∙ collect-frames (suc (length (frames rs))) rs h (omega (arith, length-frames rs h))
    where
      w : RecordWriter
      w = write_records codec create_writer rs

      stream : codec.decompress (drop header_size (file_of rs)) ≡ frames rs
      stream =
          unfold close in
          ap codec.decompress (
            drop-append (u64_bytes (w.count)) (codec.compress (w.encoder)) 8
              (length-to_le_bytes 8 (w.count)))
          ∙ (codec.decompress-compress (w.encoder) ∙ encoder-write_records create_writer rs)

  -- A spool file of records, fewer than 2^64 and none of 2^64 bytes or more, opens; its header counts
  -- the records, and they are read in the order in which they were written.
  pub open_records-close :
      (rs : List (List ℕ))
      → length rs < 2 ^ 64
      → All (λ r. length r < 2 ^ 64) rs
      → (reader : RecordReader) × ((open_records
              (close codec (write_records codec create_writer rs))
            ≡ ok reader)
          × ((reader.count ≡ length rs) × (iter codec reader ≡ ok rs)))
  open_records-close rs h short =
      (reader_of rs, (open-file_of rs h, (refl, iter-reader_of rs short)))
