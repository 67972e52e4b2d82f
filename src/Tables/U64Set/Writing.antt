-- ===== src/Tables/U64Set/Writing.antt =====
-- What the writer lets out, and the bytes of the finished file.
use osmdiffs.Base.{
  ℕ, ◌+◌, ◌≤◌, ◌<◌, ◌^◌, ◌≡◌, refl, sym, ap, ◌∙◌, subst, true, false, Option, none, some, List, [],
  ◌∷◌, ◌++◌, ◌==◌, if◌then◌else◌, length, length-append, concat, drop, replicate, append_assoc,
  append-nil, arith, Bool-cases, inl, inr, ◌↔◌, ==_iff,
}
use osmdiffs.Base.Bytes.{encode_ints, encode_ints-append, length-to_le_bytes}
use osmdiffs.Base.Output.{
  Output, AtEnd, new_output, write_all, overwrite, seek_end, contents-write_all, write_all-AtEnd,
  write_chunks-at_start,
}
use osmdiffs.Base.Predicates.{All, All-imp, IsIn}
use osmdiffs.Tables.Format.{u64_bytes, length-words}
use osmdiffs.Tables.SortedU64Index.Lookup.{NonDescending, Ascending}
use osmdiffs.Tables.U64Set.{
  Unique, start, write_last, push_value, push_values, flush_last, header_chunks, write_set,
}

-- The values that are let out after `last`.
pub runs : Option ℕ → List ℕ → List ℕ
runs none [] = []
runs (some l) [] = l ∷ []
runs none (v ∷ vs) = runs (some v) vs
runs (some l) (v ∷ vs) = let rest = runs (some v) vs in if l == v then rest else l ∷ rest

runs_same : (l v : ℕ) (vs : List ℕ) → (l == v) ≡ true → runs (some l) (v ∷ vs) ≡ runs (some v) vs
unfolding runs
runs_same l v vs h = rw h refl

runs_other :
    (l v : ℕ) (vs : List ℕ) → (l == v) ≡ false → runs (some l) (v ∷ vs) ≡ l ∷ runs (some v) vs
unfolding runs
runs_other l v vs h = rw h refl

-- From a file `w` with `n` values on, the writer has let out exactly `vs`.
record LetOut (w : Output) (n : ℕ) (to : Unique) (vs : List ℕ) : Type 0 where
  contents : to.writer.contents ≡ w.contents ++ encode_ints 8 vs
  at_end : AtEnd to.writer
  counted : to.num_unique_values ≡ n + length vs

LetOut-write_last :
    (st : Unique) (l : ℕ)
    → AtEnd st.writer
    → st.num_unique_values + 1 < 2 ^ 64
    → LetOut st.writer st.num_unique_values (write_last st l) (l ∷ [])
unfolding write_last encode_ints
LetOut-write_last st l e h = record {
  contents =
      contents-write_all (u64_bytes l) st.writer e
      ∙ ap (λ r. st.writer.contents ++ r) (sym (append-nil (u64_bytes l)));
  at_end = write_all-AtEnd (u64_bytes l) st.writer e;
  counted = omega arith;
}

LetOut-trans :
    (w : Output) (n : ℕ) (b c : Unique) (xs ys : List ℕ)
    → LetOut w n b xs
    → LetOut b.writer b.num_unique_values c ys
    → LetOut w n c (xs ++ ys)
LetOut-trans w n b c xs ys p q = record {
  contents =
      q.contents
      ∙ ap (λ r. r ++ encode_ints 8 ys) p.contents
      ∙ append_assoc w.contents (encode_ints 8 xs) (encode_ints 8 ys)
      ∙ ap (λ r. w.contents ++ r) (sym (encode_ints-append 8 xs ys));
  at_end = q.at_end;
  counted = omega (arith, p.counted, q.counted, length-append xs ys);
}

abbrev state : Output → ℕ → Option ℕ → Unique
state w n last = record { writer = w; num_unique_values = n; last = last }

-- The loop and what follows it let out the runs.
push_values-LetOut :
    (vs : List ℕ) (w : Output) (n : ℕ) (last : Option ℕ)
    → AtEnd w
    → n + length vs + 1 < 2 ^ 64
    → LetOut w n (flush_last (push_values (state w n last) vs)) (runs last vs)
unfolding push_values push_value flush_last runs
push_values-LetOut [] w n none e h = record {
  contents = unfold encode_ints in sym (append-nil w.contents);
  at_end = e;
  counted = omega arith;
}
push_values-LetOut [] w n (some l) e h = LetOut-write_last (state w n (some l)) l e (omega arith)
push_values-LetOut (v ∷ vs) w n none e h = push_values-LetOut vs w n (some v) e (omega arith)
push_values-LetOut (v ∷ vs) w n (some l) e h = elim (Bool-cases (l == v)) [
  | inl same ↦ rw same (push_values-LetOut vs w n (some v) e (omega arith))
  | inr other ↦
      let first = LetOut-write_last (state w n (some l)) l e (omega arith) in
      rw other (
        LetOut-trans w n (write_last (state w n (some l)) l) _ (l ∷ []) (runs (some v) vs) first (
          push_values-LetOut vs (write_last (state w n (some l)) l).writer
            (write_last (state w n (some l)) l).num_unique_values (some v) first.at_end
            (omega (arith, first.counted))))
]

-- The file: the header and the runs.
pub write_set-layout :
    (vs : List ℕ)
    → length vs + 1 < 2 ^ 64
    → write_set vs ≡ concat (header_chunks (length (runs none vs))) ++ encode_ints 8 (runs none vs)
unfolding write_set start seek_end write_all overwrite
write_set-layout vs h =
    write_chunks-at_start (header_chunks st.num_unique_values) st.writer
    ∙ ap (λ k. concat (header_chunks st.num_unique_values) ++ drop k st.writer.contents)
        (length-words (header_chunks st.num_unique_values)
          (refl, (length-to_le_bytes 8 st.num_unique_values, tt)))
    ∙ ap (λ c. concat (header_chunks st.num_unique_values) ++ drop 16 c) out.contents
    ∙ ap (λ n. concat (header_chunks n) ++ encode_ints 8 (runs none vs)) (out.counted ∙ omega arith)
  where
    st : Unique
    st = flush_last (push_values start vs)

    out : LetOut (write_all (replicate 16 0) new_output) 0 st (runs none vs)
    out =
        push_values-LetOut vs (write_all (replicate 16 0) new_output) 0 none
          (unfold write_all overwrite in refl) (omega arith)

-- The runs have the elements of the list.
runs-IsIn : (n l : ℕ) (vs : List ℕ) → IsIn n (l ∷ vs) → IsIn n (runs (some l) vs)
unfolding runs
runs-IsIn n l [] h = h
runs-IsIn n l (v ∷ vs) h = elim (Bool-cases (l == v)) [
  | inl same ↦ subst (IsIn n) (sym (runs_same l v vs same)) (elim h [
    | inl e ↦ runs-IsIn n v vs (inl (e ∙ (==_iff l v).0 same))
    | inr t ↦ runs-IsIn n v vs t
  ])
  | inr other ↦
      subst (IsIn n) (sym (runs_other l v vs other))
        (elim h [ inl e ↦ inl e | inr t ↦ inr (runs-IsIn n v vs t) ])
]

IsIn-runs : (n l : ℕ) (vs : List ℕ) → IsIn n (runs (some l) vs) → IsIn n (l ∷ vs)
unfolding runs
IsIn-runs n l [] h = h
IsIn-runs n l (v ∷ vs) h = elim (Bool-cases (l == v)) [
  | inl same ↦ inr (IsIn-runs n v vs (subst (IsIn n) (runs_same l v vs same) h))
  | inr other ↦ elim (subst (IsIn n) (runs_other l v vs other) h) [
    | inl e ↦ inl e
    | inr t ↦ inr (IsIn-runs n v vs t)
  ]
]

pub runs_iff : (n : ℕ) (vs : List ℕ) → IsIn n (runs none vs) ↔ IsIn n vs
unfolding runs
runs_iff n [] = (λ h. h, λ h. h)
runs_iff n (v ∷ vs) = (IsIn-runs n v vs, runs-IsIn n v vs)

-- The runs of a sorted list ascend.
runs-above :
    (l : ℕ) (vs : List ℕ)
    → NonDescending (l ∷ vs)
    → Ascending (runs (some l) vs) × All (λ n. l ≤ n) (runs (some l) vs)
unfolding runs
runs-above l [] h = ((tt, tt), (omega arith, tt))
runs-above l (v ∷ vs) h =
    let (up, above) = runs-above v vs h.1 in
    elim (Bool-cases (l == v)) [
      | inl same ↦
          subst (λ (r : List ℕ). Ascending r × All (λ n. l ≤ n) r) (sym (runs_same l v vs same))
            (up, All-imp (λ n. v ≤ n) (λ n. l ≤ n) _ (λ n le. omega (arith, h.0.0)) above)
      | inr other ↦
          subst (λ (r : List ℕ). Ascending r × All (λ n. l ≤ n) r) (sym (runs_other l v vs other))
            (
              (All-imp (λ n. v ≤ n) (λ n. l < n) _ (λ n le. ground (arith, h.0.0)) above, up),
              (
                omega arith,
                All-imp (λ n. v ≤ n) (λ n. l ≤ n) _ (λ n le. omega (arith, h.0.0)) above,
              ),
            )
    ]

pub runs-Ascending : (vs : List ℕ) → NonDescending vs → Ascending (runs none vs)
unfolding runs
runs-Ascending [] h = tt
runs-Ascending (v ∷ vs) h = (runs-above v vs h).0

pub length-runs : (last : Option ℕ) (vs : List ℕ) → length (runs last vs) ≤ length vs + 1
unfolding runs
length-runs none [] = omega arith
length-runs (some l) [] = omega arith
length-runs none (v ∷ vs) = omega (arith, length-runs (some v) vs)
length-runs (some l) (v ∷ vs) = ground (arith, length-runs (some v) vs)
