-- ===== src/Tables/CoordTable/Writing.antt =====
-- What the writer has put into its two files after a list of entries.
use osmdiffs.Base.{
  ℕ, ◌+◌, ◌<◌, ◌^◌, ◌≡◌, refl, sym, ap, ◌∙◌, true, false, List, [], ◌∷◌, ◌++◌, leb, length,
  append-nil, arith, Bool-cases, inl, inr,
}
use osmdiffs.Base.Bytes.{encode_ints}
use osmdiffs.Base.Output.{AtEnd, write_all, write_all-AtEnd}
use osmdiffs.Tables.Entries.{keys_of}
use osmdiffs.Tables.Format.{extend, ok, err, ◌>>=◌, not_ascending, u64_bytes, ◌+u◌}
use osmdiffs.Tables.CoordTable.{Writer, write, write_entries}

abbrev pub coords_of : List (ℕ × ℕ) → List ℕ
coords_of [] = []
coords_of ((k, v) ∷ es) = v ∷ coords_of es

-- Every key lies above the one before it, the first above `last`.
abbrev pub Rising : ℕ → List (ℕ × ℕ) → Type 0
Rising last [] = Unit
Rising last ((k, v) ∷ es) = (last < k) × Rising k es

pub record IsSound (w : Writer) : Type 0 where
  pub keys_end : AtEnd w.writer
  pub coords_end : AtEnd w.coords_writer

pub record Wrote (w : Writer) (es : List (ℕ × ℕ)) (w' : Writer) : Type 0 where
  pub sound : IsSound w'
  pub keys : w'.writer.contents ≡ w.writer.contents ++ encode_ints 8 (keys_of es)
  pub coords : w'.coords_writer.contents ≡ w.coords_writer.contents ++ encode_ints 8 (coords_of es)
  pub count : w'.coords_count ≡ w.coords_count + length es

push : Writer → ℕ → ℕ → Writer
push w k v = record {
  writer = write_all (u64_bytes k) w.writer;
  coords_writer = write_all (u64_bytes v) w.coords_writer;
  coords_count = w.coords_count +u 1;
  last_key = k;
}

write-push : (w : Writer) (k v : ℕ) → leb k w.last_key ≡ false → write w (k, v) ≡ ok (push w k v)
unfolding write push
write-push w k v h = rw h refl

write-refuses :
    (w : Writer) (k v : ℕ) → leb k w.last_key ≡ true → write w (k, v) ≡ err not_ascending
unfolding write
write-refuses w k v h = rw h refl

Wrote-push :
    (w : Writer) (k v : ℕ) (es : List (ℕ × ℕ)) (w' : Writer)
    → IsSound w
    → w.coords_count + 1 < 2 ^ 64
    → Wrote (push w k v) es w'
    → Wrote w ((k, v) ∷ es) w'
unfolding push
Wrote-push w k v es w' s small h = record {
  sound = h.sound;
  keys = extend w.writer k (keys_of es) _ s.keys_end h.keys;
  coords = extend w.coords_writer v (coords_of es) _ s.coords_end h.coords;
  count = omega (arith, h.count);
}

IsSound-push : (w : Writer) (k v : ℕ) → IsSound w → IsSound (push w k v)
unfolding push
IsSound-push w k v s = record {
  keys_end = write_all-AtEnd (u64_bytes k) w.writer s.keys_end;
  coords_end = write_all-AtEnd (u64_bytes v) w.coords_writer s.coords_end;
}

-- Rising keys are written.
pub write_entries-Wrote :
    (w : Writer) (es : List (ℕ × ℕ))
    → IsSound w
    → w.coords_count + length es < 2 ^ 64
    → Rising w.last_key es
    → (w' : Writer) × (write_entries w es ≡ ok w') × Wrote w es w'
unfolding write_entries push
write_entries-Wrote w [] s small h = (
  w,
  refl,
  record {
    sound = s;
    keys = unfold encode_ints in sym (append-nil w.writer.contents);
    coords = unfold encode_ints in sym (append-nil w.coords_writer.contents);
    count = omega arith;
  },
)
write_entries-Wrote w ((k, v) ∷ es) s small h =
    let (w', e, wrote) =
      write_entries-Wrote (push w k v) es (IsSound-push w k v s) (omega arith) h.1 in
    (
      w',
      ap (λ r. r >>= λ w''. write_entries w'' es) (write-push w k v (ground (arith, h.0))) ∙ e,
      Wrote-push w k v es w' s (omega arith) wrote,
    )

-- Other keys are refused.
pub write_entries-not_ascending :
    (w : Writer) (es : List (ℕ × ℕ))
    → ¬ Rising w.last_key es
    → write_entries w es ≡ err not_ascending
unfolding write_entries push
write_entries-not_ascending w [] h = absurd (h tt)
write_entries-not_ascending w ((k, v) ∷ es) h = elim (Bool-cases (leb k w.last_key)) [
  | inl low ↦ ap (λ r. r >>= λ w''. write_entries w'' es) (write-refuses w k v low)
  | inr high ↦
      ap (λ r. r >>= λ w''. write_entries w'' es) (write-push w k v high)
      ∙ write_entries-not_ascending (push w k v) es (λ r. h (ground (arith, high), r))
]
