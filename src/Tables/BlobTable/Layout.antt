-- ===== src/Tables/BlobTable/Layout.antt =====
-- The bytes of a finished file.
use osmdiffs.Base.{
  ℕ, ◌+◌, ◌*◌, ◌%◌, ◌^◌, ◌<◌, ◌≡◌, refl, sym, ap, ◌∙◌, true, List, ◌++◌, length, concat, drop,
  replicate, length-append, append_assoc, arith, leb, le→leb, ==_iff,
}
use osmdiffs.Base.Bytes.{length-to_le_bytes}
use osmdiffs.Base.Output.{
  Output, AtEnd, write_all, write_chunks, seek_start, seek_end, contents-write_all, write_all-AtEnd,
  write_chunks-at_start, pos-write_chunks,
}
use osmdiffs.Tables.Format.{ok, u64_mod, u64_bytes, AreWords, length-words}
use osmdiffs.Tables.BlobTable.{Writer, close, header_chunks}

-- The header of a file with `n` entries.
unfoldable pub header : ℕ → List ℕ
header n = concat (header_chunks n 64 (64 + 8 * n) (64 + 8 * n + 8 * (n + 1))) ++ replicate 24 0

chunks-AreWords : (a b c d : ℕ) → AreWords (header_chunks a b c d)
chunks-AreWords a b c d = (
  refl,
  (
    length-to_le_bytes 8 a,
    (length-to_le_bytes 8 b, (length-to_le_bytes 8 c, (length-to_le_bytes 8 d, tt))),
  ),
)

length-chunks : (a b c d : ℕ) → length (concat (header_chunks a b c d)) ≡ 40
length-chunks a b c d = length-words (header_chunks a b c d) (chunks-AreWords a b c d)

pub length-header : (n : ℕ) → length (header n) ≡ 64
unfolding header
length-header n = omega (
  arith,
  length-append (concat (header_chunks n 64 (64 + 8 * n) (64 + 8 * n + 8 * (n + 1))))
      (replicate 24 0),
  length-chunks n 64 (64 + 8 * n) (64 + 8 * n + 8 * (n + 1)),
)

-- `keys`, `starts` and `blob` are the contents of the writer's three files.
module _ (w : Writer) (keys starts blob : List ℕ) (n : ℕ)
    (keys_file : w.writer.contents ≡ replicate 64 0 ++ keys) (keys_end : AtEnd w.writer)
    (starts_file : w.starts_writer.contents ≡ starts) (starts_end : AtEnd w.starts_writer)
    (blob_file : w.blob_writer.contents ≡ blob) (count : w.entries_count ≡ n)
    (keys_size : length keys ≡ 8 * n) (starts_size : length starts ≡ 8 * n)
    (small : n < 2 ^ 59) where
  keys_pos : w.writer.pos ≡ 64 + 8 * n
  keys_pos = omega (arith, keys_end, ap length keys_file, length-append (replicate 64 0) keys)

  abbrev starts' : Output
  starts' = write_all (u64_bytes w.blob_writer.pos) w.starts_writer

  abbrev body : List ℕ
  body = keys ++ ((starts ++ u64_bytes w.blob_writer.pos) ++ blob)

  starts'_contents : starts'.contents ≡ starts ++ u64_bytes w.blob_writer.pos
  starts'_contents =
      contents-write_all _ w.starts_writer starts_end
      ∙ ap (λ r. r ++ u64_bytes w.blob_writer.pos) starts_file

  with_starts_pos : (write_all starts'.contents w.writer).pos ≡ 64 + 8 * n + 8 * (n + 1)
  with_starts_pos =
      unfold write_all in
      omega (
        arith,
        keys_pos,
        ap length starts'_contents,
        length-append starts (u64_bytes w.blob_writer.pos),
        length-to_le_bytes 8 w.blob_writer.pos,
      )

  abbrev with_blob : Output
  with_blob = write_all w.blob_writer.contents (write_all starts'.contents w.writer)

  with_blob_contents : with_blob.contents ≡ replicate 64 0 ++ body
  with_blob_contents =
      contents-write_all _ (write_all starts'.contents w.writer)
        (write_all-AtEnd starts'.contents w.writer keys_end)
      ∙ ap (λ r. r ++ w.blob_writer.contents)
          (contents-write_all starts'.contents w.writer keys_end)
      ∙ rw (keys_file, starts'_contents, blob_file)
          (append_assoc (replicate 64 0 ++ keys) (starts ++ u64_bytes w.blob_writer.pos) blob
            ∙ append_assoc (replicate 64 0) keys _)

  starts_offset : (64 + w.entries_count * 8 % u64_mod) % u64_mod ≡ 64 + 8 * n
  starts_offset = omega (arith, count)

  blob_offset :
      (64 + 8 * n + (w.entries_count + 1) % u64_mod * 8 % u64_mod) % u64_mod
      ≡ 64 + 8 * n + 8 * (n + 1)
  blob_offset = omega (arith, count)

  abbrev chunks : List (List ℕ)
  chunks = header_chunks w.entries_count 64 (64 + 8 * n) (64 + 8 * n + 8 * (n + 1))

  header_pos : leb (write_chunks chunks (seek_start 0 with_blob)).pos 64 ≡ true
  header_pos = le→leb _ _ (
      unfold seek_start in
      omega (
        arith,
        pos-write_chunks chunks (seek_start 0 with_blob),
        length-chunks w.entries_count 64 (64 + 8 * n) (64 + 8 * n + 8 * (n + 1)),
      ))

  header_contents : (write_chunks chunks (seek_start 0 with_blob)).contents ≡ header n ++ body
  unfolding header
  header_contents =
      write_chunks-at_start chunks with_blob
      ∙ ap (λ r. concat chunks ++ r)
          (ap (drop (length (concat chunks))) with_blob_contents
            ∙ ap (λ k. drop k (replicate 64 0 ++ body))
                (length-chunks w.entries_count 64 (64 + 8 * n) (64 + 8 * n + 8 * (n + 1))))
      ∙ sym (append_assoc (concat chunks) (replicate 24 0) body)
      ∙ ap (λ r. r ++ body)
          (ap
            (λ c.
              concat (header_chunks c 64 (64 + 8 * n) (64 + 8 * n + 8 * (n + 1))) ++ replicate 24 0)
            count)

  -- `close` succeeds, and the file is the header, the keys, the starts with their sentinel, and the
  -- blob.
  pub close-layout :
      close w ≡ ok (header n ++ (keys ++ ((starts ++ u64_bytes w.blob_writer.pos) ++ blob)))
  unfolding close
  close-layout =
      rw
        (
          starts_offset,
          blob_offset,
          (==_iff _ _).1 keys_pos,
          (==_iff _ _).1 with_starts_pos,
          header_pos,
        )
        (unfold seek_end in ap ok header_contents)
