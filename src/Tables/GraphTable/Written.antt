-- ===== src/Tables/GraphTable/Written.antt =====
-- The bytes that the writer of a graph makes of a list of edges.
use osmdiffs.Base.{
  ℕ, suc, ◌+◌, ◌%◌, ◌<◌, ◌^◌, ◌≡◌, refl, sym, ap, ◌∙◌, List, [], ◌∷◌, ◌++◌, length, concat,
  append_assoc, append-nil, arith,
}
use osmdiffs.Base.Bytes.{encode_ints, length-to_le_bytes, to_le_bytes}
use osmdiffs.Base.Output.{
  Output, AtEnd, new_output, write_all, overwrite, overwrite-middle, seek_start, contents-write_all,
  write_all-AtEnd,
}
use osmdiffs.Tables.Format.{extend, u64_mod, u64_bytes}
use osmdiffs.Tables.GraphTable.File.{
  Edge, Writer, file_signature, create_writer, write, write_edges, close,
}

abbrev pub children_of : List Edge → List ℕ
children_of [] = []
children_of ((c, p) ∷ es) = c ∷ children_of es

abbrev pub parents_in : List Edge → List ℕ
parents_in [] = []
parents_in ((c, p) ∷ es) = p ∷ parents_in es

pub length-children_of : (es : List Edge) → length (children_of es) ≡ length es
length-children_of [] = refl
length-children_of ((c, p) ∷ es) = ap suc (length-children_of es)

pub length-parents_in : (es : List Edge) → length (parents_in es) ≡ length es
length-parents_in [] = refl
length-parents_in ((c, p) ∷ es) = ap suc (length-parents_in es)

-- What the writer has put into its files.
record Wrote (out parents_out : Output) (n : ℕ) (es : List Edge) (w : Writer) : Type 0 where
  children : w.out.contents ≡ out.contents ++ encode_ints 8 (children_of es)
  parents : w.parents_out.contents ≡ parents_out.contents ++ encode_ints 8 (parents_in es)
  out_end : AtEnd w.out
  count : w.edge_count ≡ n + length es

write_edges-Wrote :
    (out parents_out : Output) (n : ℕ) (es : List Edge)
    → AtEnd out
    → AtEnd parents_out
    → n + length es < 2 ^ 64
    → Wrote out parents_out n es
        (write_edges (record { edge_count = n; out = out; parents_out = parents_out }) es)
unfolding write_edges write
write_edges-Wrote out parents_out n [] e f h = record {
  children = unfold encode_ints in sym (append-nil out.contents);
  parents = unfold encode_ints in sym (append-nil parents_out.contents);
  out_end = e;
  count = omega arith;
}
write_edges-Wrote out parents_out n ((c, p) ∷ es) e f h =
    let rest =
      write_edges-Wrote (write_all (u64_bytes c) out) (write_all (u64_bytes p) parents_out)
        ((n + 1) % u64_mod) es (write_all-AtEnd (u64_bytes c) out e)
        (write_all-AtEnd (u64_bytes p) parents_out f) (omega arith) in
    record {
      children = extend out c (children_of es) _ e rest.children;
      parents = extend parents_out p (parents_in es) _ f rest.parents;
      out_end = rest.out_end;
      count = omega (arith, rest.count);
    }

abbrev pub header : ℕ → List ℕ
header n = concat (file_signature ∷ u64_bytes n ∷ [])

abbrev pub body : List Edge → List ℕ
body es = encode_ints 8 (children_of es) ++ encode_ints 8 (parents_in es)

-- The file of a list of edges: the header and the two columns.
pub close-layout :
    (es : List Edge)
    → length es < 2 ^ 64
    → close (write_edges create_writer es) ≡ header (length es) ++ body es
unfolding close create_writer seek_start write_all overwrite to_le_bytes
close-layout es small =
    ap (λ r. overwrite r 8 (u64_bytes w.edge_count))
      (contents-write_all w.parents_out.contents w.out wrote.out_end
        ∙ ap (λ r. w.out.contents ++ r) wrote.parents
        ∙ ap (λ r. r ++ encode_ints 8 (parents_in es)) wrote.children
        ∙ append_assoc (file_signature ++ u64_bytes 0) (encode_ints 8 (children_of es)) _
        ∙ append_assoc file_signature (u64_bytes 0) (body es))
    ∙ overwrite-middle file_signature (u64_bytes 0) (body es) (u64_bytes w.edge_count) 8 refl
        (length-to_le_bytes 8 0 ∙ sym (length-to_le_bytes 8 w.edge_count))
    ∙ ap (λ n. file_signature ++ (u64_bytes n ++ body es)) (wrote.count ∙ omega arith)
    ∙ ap (λ r. file_signature ++ (r ++ body es)) (sym (append-nil (u64_bytes (length es))))
  where
    w : Writer
    w = write_edges create_writer es

    wrote : Wrote (write_all (u64_bytes 0) (write_all file_signature new_output)) new_output 0 es w
    wrote = write_edges-Wrote create_writer.out new_output 0 es refl refl (omega arith)
