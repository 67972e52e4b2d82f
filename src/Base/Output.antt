-- ===== src/Base/Output.antt =====
-- An output file with a write position: what `BufWriter<File>` is to the tables' writers. Writes
-- overwrite what stands at the position, and extend the file past its end.
use Prim.Native.Nat.{ℕ, zero, suc, ◌+◌}
use mathlib.Core.Path.{◌≡◌, refl, sym, ap, ◌∙◌}
use mathlib.Core.List.{List, [], ◌∷◌, ◌++◌, append-nil, append_assoc}
use native.Mathlib.Omega.{arith}
use osmdiffs.Base.Lists.{length, drop, concat, drop-append, drop-drop, drop-nil, length-append}

-- The bytes `bs` written at offset `pos`; a gap past the end is filled with zeros.
unfoldable pub overwrite : List ℕ → ℕ → List ℕ → List ℕ
overwrite c zero bs = bs ++ drop (length bs) c
overwrite [] (suc pos) bs = 0 ∷ overwrite [] pos bs
overwrite (b ∷ c) (suc pos) bs = b ∷ overwrite c pos bs

pub record Output : Type 0 where
  pub contents : List ℕ
  pub pos : ℕ

abbrev pub new_output : Output
new_output = record { contents = []; pos = 0 }

unfoldable pub write_all : List ℕ → Output → Output
write_all bs o = record { contents = overwrite o.contents o.pos bs; pos = o.pos + length bs }

unfoldable pub seek_start : ℕ → Output → Output
seek_start p o = record o { pos = p }

unfoldable pub seek_end : Output → Output
seek_end o = record o { pos = length o.contents }

-- What stands at a position is replaced by as many bytes.
pub overwrite-middle :
    (a b c bs : List ℕ) (pos : ℕ)
    → length a ≡ pos
    → length b ≡ length bs
    → overwrite (a ++ (b ++ c)) pos bs ≡ a ++ (bs ++ c)
unfolding overwrite
overwrite-middle [] b c bs zero ha hb = ap (λ r. bs ++ r) (drop-append b c (length bs) hb)
overwrite-middle [] b c bs (suc pos) ha hb = absurd (omega arith)
overwrite-middle (x ∷ a) b c bs zero ha hb = absurd (omega arith)
overwrite-middle (x ∷ a) b c bs (suc pos) ha hb =
    ap (λ r. x ∷ r) (overwrite-middle a b c bs pos (omega arith) hb)

-- Whatever is written behind `a` replaces what stands there, as far as it reaches.
pub overwrite-behind :
    (a rest bs : List ℕ) (pos : ℕ)
    → length a ≡ pos
    → overwrite (a ++ rest) pos bs ≡ a ++ (bs ++ drop (length bs) rest)
unfolding overwrite
overwrite-behind [] rest bs zero h = refl
overwrite-behind [] rest bs (suc pos) h = absurd (omega arith)
overwrite-behind (x ∷ a) rest bs zero h = absurd (omega arith)
overwrite-behind (x ∷ a) rest bs (suc pos) h =
    ap (λ r. x ∷ r) (overwrite-behind a rest bs pos (omega arith))

-- Several `write_all` calls in a row.
unfoldable pub write_chunks : List (List ℕ) → Output → Output
write_chunks [] o = o
write_chunks (c ∷ cs) o = write_chunks cs (write_all c o)

merge :
    (c : List ℕ) (cs : List (List ℕ)) (rest : List ℕ)
    → drop (length (concat cs)) (drop (length c) rest) ≡ drop (length (c ++ concat cs)) rest
merge c cs rest =
    drop-drop (length c) (length (concat cs)) rest
    ∙ ap (λ k. drop k rest) (sym (length-append c (concat cs)))

chunks_behind :
    (cs : List (List ℕ)) (o : Output) (a rest : List ℕ)
    → o.contents ≡ a ++ rest
    → length a ≡ o.pos
    → (write_chunks cs o).contents ≡ a ++ (concat cs ++ drop (length (concat cs)) rest)
unfolding write_chunks
chunks_behind [] o a rest e h = e
chunks_behind (c ∷ cs) o a rest e h =
    chunks_behind cs (write_all c o) (a ++ c) (drop (length c) rest)
      (unfold write_all in
        ap (λ r. overwrite r o.pos c) e
        ∙ overwrite-behind a rest c o.pos h
        ∙ sym (append_assoc a c (drop (length c) rest)))
      (unfold write_all in omega (arith, length-append a c))
    ∙ append_assoc a c _
    ∙ ap (λ r. a ++ (c ++ r)) (ap (λ r. concat cs ++ r) (merge c cs rest))
    ∙ ap (λ r. a ++ r) (sym (append_assoc c (concat cs) _))

pub pos-write_chunks :
    (cs : List (List ℕ)) (o : Output) → (write_chunks cs o).pos ≡ o.pos + length (concat cs)
unfolding write_chunks write_all
pos-write_chunks [] o = omega arith
pos-write_chunks (c ∷ cs) o =
    omega (arith, pos-write_chunks cs (write_all c o), length-append c (concat cs))

-- Chunks written from the start of a file replace as many bytes.
pub write_chunks-at_start :
    (cs : List (List ℕ)) (o : Output)
    → (write_chunks cs (seek_start 0 o)).contents
      ≡ concat cs ++ drop (length (concat cs)) o.contents
unfolding seek_start
write_chunks-at_start cs o = chunks_behind cs (record o { pos = 0 }) [] o.contents refl refl

pub overwrite-end : (c bs : List ℕ) (pos : ℕ) → length c ≡ pos → overwrite c pos bs ≡ c ++ bs
unfolding overwrite
overwrite-end [] bs zero h = ap (λ r. bs ++ r) (drop-nil (length bs)) ∙ append-nil bs
overwrite-end [] bs (suc pos) h = absurd (omega arith)
overwrite-end (b ∷ c) bs zero h = absurd (omega arith)
overwrite-end (b ∷ c) bs (suc pos) h = ap (λ r. b ∷ r) (overwrite-end c bs pos (omega arith))

-- A file that is only ever appended to holds its position at its end.
abbrev pub AtEnd : Output → Type 0
AtEnd o = length o.contents ≡ o.pos

pub write_all-AtEnd : (bs : List ℕ) (o : Output) → AtEnd o → AtEnd (write_all bs o)
unfolding write_all
write_all-AtEnd bs o h =
    ap length (overwrite-end o.contents bs o.pos h) ∙ omega (arith, length-append o.contents bs)

pub contents-write_all :
    (bs : List ℕ) (o : Output) → AtEnd o → (write_all bs o).contents ≡ o.contents ++ bs
unfolding write_all
contents-write_all bs o h = overwrite-end o.contents bs o.pos h
