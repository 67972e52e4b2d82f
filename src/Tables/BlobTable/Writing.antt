-- ===== src/Tables/BlobTable/Writing.antt =====
-- What the writer has put into its three files.
use osmdiffs.Tables.Entries.{keys_of}
use osmdiffs.Base.{
  ℕ, ◌+◌, ◌%◌, ◌<◌, ◌≡◌, refl, sym, ap, ◌∙◌, true, false, Option, none, some, List, [], ◌∷◌, ◌++◌,
  length, concat, append-nil, append_assoc, arith, Bool-cases, inl, inr,
}
use osmdiffs.Base.Bytes.{encode_ints}
use osmdiffs.Base.Output.{Output, AtEnd, write_all, write_all-AtEnd, contents-write_all}
use osmdiffs.Tables.Format.{ok, err, not_ascending, u64_mod, u64_bytes}
use osmdiffs.Tables.BlobTable.{is_in_order, Entry, Writer, write, write_entries}

-- Where each blob begins, the first one at `at`.
unfoldable pub offsets : ℕ → List (List ℕ) → List ℕ
offsets at [] = []
offsets at (b ∷ bs) = at ∷ offsets (at + length b) bs

abbrev pub blobs_of : List Entry → List (List ℕ)
blobs_of [] = []
blobs_of ((k, b) ∷ es) = b ∷ blobs_of es

-- The key may follow what was written before.
abbrev pub Follows : Option ℕ → ℕ → Type 0
Follows none key = Unit
Follows (some last) key = last < key

-- The keys rise, from the last one written on.
abbrev pub Rising : Option ℕ → List Entry → Type 0
Rising last [] = Unit
Rising last ((k, b) ∷ es) = Follows last k × Rising (some k) es

pub record IsSound (w : Writer) : Type 0 where
  pub keys_end : AtEnd w.writer
  pub starts_end : AtEnd w.starts_writer
  pub blob_end : AtEnd w.blob_writer
  pub count_fits : w.entries_count < u64_mod

-- `w'` is `w` after the entries `es`.
pub record Wrote (w : Writer) (es : List Entry) (w' : Writer) : Type 0 where
  pub sound : IsSound w'
  pub keys : w'.writer.contents ≡ w.writer.contents ++ encode_ints 8 (keys_of es)
  pub starts :
      w'.starts_writer.contents
      ≡ w.starts_writer.contents ++ encode_ints 8 (offsets w.blob_writer.pos (blobs_of es))
  pub blob : w'.blob_writer.contents ≡ w.blob_writer.contents ++ concat (blobs_of es)
  pub count : w'.entries_count ≡ (w.entries_count + length es) % u64_mod

-- The state after a successful `write`.
pub push : Writer → Entry → Writer
push w (key, blob) = record {
  writer = write_all (u64_bytes key) w.writer;
  starts_writer = write_all (u64_bytes w.blob_writer.pos) w.starts_writer;
  blob_writer = write_all blob w.blob_writer;
  entries_count = (w.entries_count + 1) % u64_mod;
  last_key = some key;
}

Rising-push :
    (w : Writer) (k : ℕ) (b : List ℕ) (es : List Entry)
    → Rising (some k) es
    → Rising (push w (k, b)).last_key es
unfolding push
Rising-push w k b es h = h

pub written : Writer → List Entry → Writer
written w [] = w
written w (e ∷ es) = written (push w e) es

push-IsSound : (w : Writer) (e : Entry) → IsSound w → IsSound (push w e)
unfolding push
push-IsSound w (k, b) s = record {
  keys_end = write_all-AtEnd _ w.writer s.keys_end;
  starts_end = write_all-AtEnd _ w.starts_writer s.starts_end;
  blob_end = write_all-AtEnd b w.blob_writer s.blob_end;
  count_fits = omega arith;
}

-- One more piece in front of what follows.
extend :
    (o : Output) (a b : List ℕ) (c : List ℕ)
    → AtEnd o
    → c ≡ (write_all a o).contents ++ b
    → c ≡ o.contents ++ (a ++ b)
extend o a b c end e =
    e ∙ ap (λ r. r ++ b) (contents-write_all a o end) ∙ append_assoc o.contents a b

Wrote-nil : (w : Writer) → IsSound w → Wrote w [] w
unfolding encode_ints offsets
Wrote-nil w s = record {
  sound = s;
  keys = sym (append-nil w.writer.contents);
  starts = sym (append-nil w.starts_writer.contents);
  blob = sym (append-nil w.blob_writer.contents);
  count = omega (arith, s.count_fits);
}

Wrote-cons :
    (w w' : Writer) (k : ℕ) (b : List ℕ) (es : List Entry)
    → IsSound w
    → Wrote (push w (k, b)) es w'
    → Wrote w ((k, b) ∷ es) w'
unfolding encode_ints offsets push write_all
Wrote-cons w w' k b es s rest = record {
  sound = rest.sound;
  keys = extend w.writer (u64_bytes k) (encode_ints 8 (keys_of es)) _ s.keys_end rest.keys;
  starts =
      extend w.starts_writer (u64_bytes w.blob_writer.pos)
        (encode_ints 8 (offsets (w.blob_writer.pos + length b) (blobs_of es))) _ s.starts_end
        rest.starts;
  blob = extend w.blob_writer b (concat (blobs_of es)) _ s.blob_end rest.blob;
  count = omega (arith, rest.count);
}

pub written-Wrote : (w : Writer) (es : List Entry) → IsSound w → Wrote w es (written w es)
unfolding written
written-Wrote w [] s = Wrote-nil w s
written-Wrote w ((k, b) ∷ es) s =
    Wrote-cons w _ k b es s (written-Wrote (push w (k, b)) es (push-IsSound w (k, b) s))

Follows-is_in_order : (last : Option ℕ) (key : ℕ) → Follows last key → is_in_order last key ≡ true
Follows-is_in_order none key h = refl
Follows-is_in_order (some last) key h = ground arith

is_in_order-Follows : (last : Option ℕ) (key : ℕ) → is_in_order last key ≡ true → Follows last key
is_in_order-Follows none key h = tt
is_in_order-Follows (some last) key h = ground arith

Rising-push_back :
    (w : Writer) (k : ℕ) (b : List ℕ) (es : List Entry)
    → Rising (push w (k, b)).last_key es
    → Rising (some k) es
unfolding push
Rising-push_back w k b es h = h

write-refuses :
    (w : Writer) (k : ℕ) (b : List ℕ)
    → is_in_order w.last_key k ≡ false
    → write w (k, b) ≡ err not_ascending
unfolding write
write-refuses w k b h = rw h

pub write-push :
    (w : Writer) (k : ℕ) (b : List ℕ) → Follows w.last_key k → write w (k, b) ≡ ok (push w (k, b))
unfolding write push
write-push w k b h = rw (Follows-is_in_order w.last_key k h)

-- In ascending order every write succeeds.
pub write_entries-written :
    (w : Writer) (es : List Entry) → Rising w.last_key es → write_entries w es ≡ ok (written w es)
unfolding write_entries written
write_entries-written w [] h = refl
write_entries-written w ((k, b) ∷ es) h =
    rw (write-push w k b h.0) (write_entries-written (push w (k, b)) es (Rising-push w k b es h.1))

-- An entry out of order stops the loop with an error.
pub write_entries-not_ascending :
    (w : Writer) (es : List Entry) → ¬ Rising w.last_key es → write_entries w es ≡ err not_ascending
unfolding write_entries
write_entries-not_ascending w [] h = absurd (h tt)
write_entries-not_ascending w ((k, b) ∷ es) h = elim (Bool-cases (is_in_order w.last_key k)) [
  | inl good ↦
      let follows = is_in_order-Follows w.last_key k good in
      rw (write-push w k b follows) (
        write_entries-not_ascending (push w (k, b)) es
          (λ r. h (follows, Rising-push_back w k b es r)))
  | inr bad ↦ rw (write-refuses w k b bad)
]
