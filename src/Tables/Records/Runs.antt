-- ===== src/Tables/Records/Runs.antt =====
-- Varints in groups of seven bits, and a spool file of two records.
use osmdiffs.Base.{
  ℕ, zero, suc, ◌+◌, ◌*◌, ◌/◌, ◌%◌, ◌^◌, ◌≤◌, ◌<◌, ◌≡◌, refl, ap, some, List, [], ◌∷◌, ◌++◌, arith,
  length, take, ltb, if◌then◌else◌, Bool-cases, inl, inr,
}
use native.Mathlib.Nat.{pow-suc}
use osmdiffs.Tables.Format.{ok, err, unexpected_end}
use osmdiffs.Tables.Records.{
  Codec, IsVarint, RecordReader, create_writer, open_records, next_record, iter, write_records,
  close,
}
use osmdiffs.Tables.Records.RoundTrip.{open_records-close}
use osmdiffs.Tables.Records.Truncated.{next_record-take}

unfoldable groups : ℕ → ℕ → List ℕ
groups zero n = n ∷ []
groups (suc fuel) n =
    let more = groups fuel (n / 128) in if ltb n 128 then n ∷ [] else (n % 128 + 128) ∷ more

unfoldable ungroup : List ℕ → ℕ
ungroup [] = 0
ungroup (b ∷ bs) = b % 128 + 128 * ungroup bs

IsVarint-cons : (b : ℕ) (bs : List ℕ) → 128 ≤ b → b < 256 → IsVarint bs → IsVarint (b ∷ bs)
IsVarint-cons b [] h k v = absurd v
IsVarint-cons b (c ∷ bs) h k v = (h, (k, v))

groups-IsVarint : (fuel n : ℕ) → n < 128 * 128 ^ fuel → IsVarint (groups fuel n)
unfolding groups
groups-IsVarint zero n h = omega (arith, h)
groups-IsVarint (suc fuel) n h = elim (Bool-cases (ltb n 128)) [
  | inl small ↦ rw small (ground (arith, small))
  | inr large ↦ rw large (
      IsVarint-cons (n % 128 + 128) (groups fuel (n / 128)) (omega arith) (omega arith)
        (groups-IsVarint fuel (n / 128) (omega (arith, h, pow-suc 128 fuel))))
]

length-groups : (fuel n : ℕ) → length (groups fuel n) ≤ suc fuel
unfolding groups
length-groups zero n = omega arith
length-groups (suc fuel) n = elim (Bool-cases (ltb n 128)) [
  | inl small ↦ rw small (omega arith)
  | inr large ↦ rw large (omega (arith, length-groups fuel (n / 128)))
]

ungroup-groups : (fuel n : ℕ) → n < 128 * 128 ^ fuel → ungroup (groups fuel n) ≡ n
unfolding groups ungroup
ungroup-groups zero n h = omega (arith, h)
ungroup-groups (suc fuel) n h = elim (Bool-cases (ltb n 128)) [
  | inl small ↦ rw small (ground (arith, small))
  | inr large ↦
      rw large (omega (arith, ungroup-groups fuel (n / 128) (omega (arith, h, pow-suc 128 fuel))))
]

-- No compression, as lz4 stores what it cannot shorten.
abbrev plain : Codec
plain = record {
  encode_varint = groups 9;
  decode_varint = λ bs. some (ungroup bs);
  encode_varint-IsVarint = λ n h. groups-IsVarint 9 n (omega (arith, h));
  length-encode_varint = λ n h. length-groups 9 n;
  decode-encode = λ n h. ap some (ungroup-groups 9 n (omega (arith, h)));
  compress = λ bs. bs;
  decompress = λ bs. bs;
  decompress-compress = λ bs. refl;
}

abbrev two : List (List ℕ)
two = (1 ∷ 2 ∷ 3 ∷ []) ∷ [] ∷ []

open_records-close_example :
    (reader : RecordReader) × ((open_records (close plain (write_records plain create_writer two))
        ≡ ok reader)
      × ((reader.count ≡ 2) × (iter plain reader ≡ ok two)))
open_records-close_example =
    open_records-close plain two (omega arith) (omega arith, (omega arith, tt))

next_record-take_example :
    next_record plain (take 3 (groups 9 3 ++ (1 ∷ 2 ∷ 3 ∷ []))) ≡ err unexpected_end
next_record-take_example =
    next_record-take plain (1 ∷ 2 ∷ 3 ∷ []) 3 (omega arith) (omega arith) long
  where
    long : 3 < length (groups 9 3 ++ (1 ∷ 2 ∷ 3 ∷ []))
    long = unfold groups in omega arith
