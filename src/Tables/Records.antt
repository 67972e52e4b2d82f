-- ===== src/Tables/Records.antt =====
-- src/tables/records.rs: a spool file of records, each after its length.
pub mod RoundTrip
pub mod Truncated
mod Runs
use osmdiffs.Base.{
  ℕ, zero, suc, ◌+◌, ◌*◌, ◌/◌, ◌%◌, ◌^◌, ◌≤◌, ◌<◌, ◌≡◌, Bool, true, false, not, Option, none, some,
  List, [], ◌∷◌, ◌++◌, ltb, leb, ◌==◌, if◌then◌else◌, length, take, drop, list_eq,
}
use osmdiffs.Base.Bytes.{from_le_bytes}
use osmdiffs.Base.Slice.{slice}
use osmdiffs.Tables.Format.{
  Error, wrong_signature, unexpected_end, varint_too_long, invalid_varint, Result, ok, err, ◌>>=◌,
  ◌>>◌, ensure, ◌+u◌, u64_bytes,
}

-- Every byte but the last has its high bit set.
abbrev pub IsVarint : List ℕ → Type 0
IsVarint [] = ⊥
IsVarint (b ∷ []) = b < 128
IsVarint (b ∷ (c ∷ bs)) = (128 ≤ b) × ((b < 256) × IsVarint (c ∷ bs))

-- The variable-length integers of the crate prost, and the frames of the crate lz4_flex.
pub record Codec : Type 0 where
  pub encode_varint : ℕ → List ℕ
  pub decode_varint : List ℕ → Option ℕ
  pub encode_varint-IsVarint : (n : ℕ) → n < 2 ^ 64 → IsVarint (encode_varint n)
  pub length-encode_varint : (n : ℕ) → n < 2 ^ 64 → length (encode_varint n) ≤ 10
  pub decode-encode : (n : ℕ) → n < 2 ^ 64 → decode_varint (encode_varint n) ≡ some n
  pub compress : List ℕ → List ℕ
  pub decompress : List ℕ → List ℕ
  pub decompress-compress : (bs : List ℕ) → decompress (compress bs) ≡ bs

-- "record_0"
abbrev pub file_signature : List ℕ
file_signature = b'r' ∷ b'e' ∷ b'c' ∷ b'o' ∷ b'r' ∷ b'd' ∷ b'_' ∷ b'0' ∷ []

abbrev pub header_size : ℕ
header_size = 16

-- The file, and the number of records in its header.
pub record RecordReader : Type 0 where
  pub file : List ℕ
  pub count : ℕ

unfoldable pub open_records : List ℕ → Result RecordReader
open_records file = do
  ensure (not (ltb (length file) header_size)) unexpected_end
  ensure (list_eq (slice file 0 8) file_signature) wrong_signature
  ok (record { file = file; count = from_le_bytes (slice file 8 8) })

-- A result, and the rest of the stream.
abbrev pub Step : Type 0 → Type 0
Step A = Result (Option (A × List ℕ))

-- What was written to the encoder, and the count.
pub record RecordWriter : Type 0 where
  pub encoder : List ℕ
  pub count : ℕ

abbrev pub create_writer : RecordWriter
create_writer = record { encoder = []; count = 0 }

-- The element in front of those that follow, if there is one.
unfoldable pub collect_rest :
    (List ℕ → Result (List (List ℕ))) → Option (List ℕ × List ℕ) → Result (List (List ℕ))
collect_rest later none = ok []
collect_rest later (some (r, rest)) = later rest >>= λ rs. ok (r ∷ rs)

module _ (codec : Codec) where
  unfoldable pub decoded : Option ℕ → List ℕ → Step ℕ
  decoded none rest = err invalid_varint
  decoded (some n) rest = ok (some (n, rest))

  -- The loop of `read_varint`, with the bytes read so far.
  unfoldable pub read_varint : List ℕ → List ℕ → Step ℕ
  unfolding decoded
  read_varint buf [] = if length buf == 0 then ok none else err unexpected_end
  read_varint buf (b ∷ rest) =
      let next = read_varint (buf ++ (b ∷ [])) rest in
      if leb 10 (length buf)
      then err varint_too_long
      else if b / 128 % 2 == 0
      then decoded (codec.decode_varint (buf ++ (b ∷ []))) rest
      else next

  -- `read_exact` of the body.
  unfoldable pub read_body : Option (ℕ × List ℕ) → Step (List ℕ)
  read_body none = ok none
  read_body (some (n, rest)) =
      if leb n (length rest) then ok (some (take n rest, drop n rest)) else err unexpected_end

  unfoldable pub next_record : List ℕ → Step (List ℕ)
  unfolding read_varint read_body
  next_record stream = read_varint [] stream >>= read_body

  -- The iterator run to its end or its first error.
  unfoldable pub collect : ℕ → List ℕ → Result (List (List ℕ))
  collect zero stream = ok []
  collect (suc fuel) stream = next_record stream >>= λ step. collect_rest (collect fuel) step

  unfoldable pub iter : RecordReader → Result (List (List ℕ))
  iter r =
      let stream = codec.decompress (drop header_size (r.file)) in
      collect (suc (length stream)) stream

  unfoldable pub write : RecordWriter → List ℕ → RecordWriter
  write w bytes = record {
    encoder = w.encoder ++ (codec.encode_varint (length bytes) ++ bytes);
    count = w.count +u 1;
  }

  unfoldable pub write_records : RecordWriter → List (List ℕ) → RecordWriter
  unfolding write
  write_records w [] = w
  write_records w (r ∷ rs) = write_records (write w r) rs

  unfoldable pub close : RecordWriter → List ℕ
  close w = file_signature ++ (u64_bytes (w.count) ++ codec.compress (w.encoder))
