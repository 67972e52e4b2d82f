-- ===== src/Tables/Records/Truncated.antt =====
-- A spool file that ends within a record is an error, not the end.
use osmdiffs.Base.{
  ℕ, zero, suc, ◌+◌, ◌-◌, ◌/◌, ◌%◌, ◌^◌, ◌≤◌, ◌<◌, ◌≡◌, refl, ap, ◌∙◌, false, some, List, [], ◌∷◌,
  ◌++◌, arith, length, length-append, length-take, take, take-append_more, take-append_less, leb,
  ltb, ◌==◌, Bool-cases, inl, inr,
}
use osmdiffs.Tables.Format.{err, ◌>>=◌, unexpected_end}
use osmdiffs.Tables.Records.{Codec, IsVarint, read_varint, read_body, next_record}
use osmdiffs.Tables.Records.RoundTrip.{read_varint-encode}

module _ (codec : Codec) where
  read_varint-take :
      (k : ℕ) (buf bs : List ℕ)
      → IsVarint bs
      → length buf + length bs ≤ 10
      → k < length bs
      → 0 < length buf + k
      → read_varint codec buf (take k bs) ≡ err unexpected_end
  unfolding read_varint
  read_varint-take zero buf bs h short lt pos = rw begun refl
    where
      begun : (length buf == 0) ≡ false
      begun = ground (arith, pos)
  read_varint-take (suc k) buf [] h short lt pos = absurd h
  read_varint-take (suc k) buf (b ∷ []) h short lt pos = absurd (omega (arith, lt))
  read_varint-take (suc k) buf (b ∷ (c ∷ bs)) h short lt pos =
      rw (space, more)
        (read_varint-take k (buf ++ (b ∷ [])) (c ∷ bs) (h.1.1)
          (omega (arith, short, length-append buf (b ∷ []))) (omega (arith, lt))
          (omega (arith, length-append buf (b ∷ []))))
    where
      space : leb 10 (length buf) ≡ false
      space = ground (arith, short)

      more : (b / 128 % 2 == 0) ≡ false
      more = ground (arith, h.0, h.1.0)

  read_body-short :
      (n : ℕ) (rest : List ℕ)
      → length rest < n
      → read_body codec (some (n, rest)) ≡ err unexpected_end
  unfolding read_body
  read_body-short n rest h = ground (arith, h)

  -- A record that is cut off after its first byte gives an error, whether within its length or within
  -- its body.
  pub next_record-take :
      (r : List ℕ) (k : ℕ)
      → length r < 2 ^ 64
      → 0 < k
      → k < length (codec.encode_varint (length r) ++ r)
      → next_record codec (take k (codec.encode_varint (length r) ++ r)) ≡ err unexpected_end
  unfolding next_record ◌>>=◌
  next_record-take r k h pos lt =
      elim (Bool-cases (ltb k (length (codec.encode_varint (length r))))) [
        | inl early ↦
            ap (λ t. read_varint codec [] t >>= read_body codec)
              (take-append_less (codec.encode_varint (length r)) r k (ground (arith, early)))
            ∙ ap (λ s. s >>= read_body codec)
                (read_varint-take k [] (codec.encode_varint (length r))
                  (codec.encode_varint-IsVarint (length r) h)
                  (omega (arith, codec.length-encode_varint (length r) h)) (ground (arith, early))
                  (omega (arith, pos)))
        | inr late ↦
            ap (λ t. read_varint codec [] t >>= read_body codec)
              (ap (λ j. take j (codec.encode_varint (length r) ++ r)) (split late)
                ∙ take-append_more (codec.encode_varint (length r)) r
                    (k - length (codec.encode_varint (length r))))
            ∙ (ap (λ s. s >>= read_body codec)
                  (read_varint-encode codec (length r)
                    (take (k - length (codec.encode_varint (length r))) r) h)
                ∙ read_body-short (length r) (take (k - length (codec.encode_varint (length r))) r)
                    (short late))
      ]
    where
      split :
          ltb k (length (codec.encode_varint (length r))) ≡ false
          → k
            ≡ length (codec.encode_varint (length r))
              + (k - length (codec.encode_varint (length r)))
      split late = ground (arith, late)

      short :
          ltb k (length (codec.encode_varint (length r))) ≡ false
          → length (take (k - length (codec.encode_varint (length r))) r) < length r
      short late = ground (
        arith,
        late,
        lt,
        length-append (codec.encode_varint (length r)) r,
        length-take (k - length (codec.encode_varint (length r))) r,
      )
