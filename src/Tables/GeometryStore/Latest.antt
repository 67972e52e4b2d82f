-- ===== src/Tables/GeometryStore/Latest.antt =====
-- A store gives the latest geometry of every key.
use osmdiffs.Base.{
  ℕ, zero, suc, ◌+◌, ◌≤◌, ◌≡◌, refl, sym, ap, ◌∙◌, subst, some, List, [], ◌∷◌, ◌++◌, le→leb, ◌==◌,
  length, take, length-append, arith, Bool-cases, inl, inr, append-nil,
}
use osmdiffs.Base.Output.{write_all, seek_end, contents-write_all}
use osmdiffs.Base.Slice.{slice, slice-middle}
use osmdiffs.Tables.Entries.{find}
use osmdiffs.Tables.Format.{ok}
use osmdiffs.Tables.Wkb.{Wkb}
use osmdiffs.Tables.GeometryStore.{Location, GeometryStore, create, insert, read_at, lookup}

take-prefix : (n : ℕ) (c w : List ℕ) → n ≤ length c → take n (c ++ w) ≡ take n c
take-prefix zero c w h = refl
take-prefix (suc n) [] w h = absurd (omega arith)
take-prefix (suc n) (x ∷ c) w h = ap (λ r. x ∷ r) (take-prefix n c w (omega arith))

slice-prefix :
    (offset len : ℕ) (c w : List ℕ)
    → offset + len ≤ length c
    → slice (c ++ w) offset len ≡ slice c offset len
slice-prefix zero len c w h = take-prefix len c w (omega arith)
slice-prefix (suc offset) len [] w h = absurd (omega arith)
slice-prefix (suc offset) len (x ∷ c) w h = slice-prefix offset len c w (omega arith)

module _ {G : Type 0} (wkb : Wkb G) where
  -- A location holds the encoding of a geometry.
  record Holds (contents : List ℕ) (l : Location) (g : G) : Type 0 where
    bytes : slice contents l.offset l.len ≡ wkb.encode_wkb g
    inside : l.offset + l.len ≤ length contents

  -- The index and the inserted entries, latest first.
  abbrev Stored : List ℕ → List (ℕ × Location) → List (ℕ × G) → Type 0
  Stored contents [] [] = Unit
  Stored contents [] (e ∷ es) = ⊥
  Stored contents (i ∷ is) [] = ⊥
  Stored contents ((k, l) ∷ is) ((j, g) ∷ es) =
      (k ≡ j) × (Holds contents l g × Stored contents is es)

  Holds-append : (c w : List ℕ) (l : Location) (g : G) → Holds c l g → Holds (c ++ w) l g
  Holds-append c w l g h = record {
    bytes = slice-prefix l.offset l.len c w h.inside ∙ h.bytes;
    inside = omega (arith, h.inside, length-append c w);
  }

  Stored-append :
      (c w : List ℕ) (is : List (ℕ × Location)) (es : List (ℕ × G))
      → Stored c is es
      → Stored (c ++ w) is es
  Stored-append c w [] [] h = tt
  Stored-append c w [] (e ∷ es) h = absurd h
  Stored-append c w (i ∷ is) [] h = absurd h
  Stored-append c w ((k, l) ∷ is) ((j, g) ∷ es) h =
      (h.0, (Holds-append c w l g h.1.0, Stored-append c w is es h.1.1))

  unfoldable pub insert_all : GeometryStore → List (ℕ × G) → GeometryStore
  insert_all store [] = store
  insert_all store (e ∷ es) = insert wkb (insert_all store es) e

  Stored-insert_all :
      (es : List (ℕ × G))
      → let store = insert_all create es in Stored store.file.contents store.index es
  unfolding insert_all insert seek_end
  Stored-insert_all [] = tt
  Stored-insert_all ((key, g) ∷ es) =
      let store = insert_all create es in
      let old = store.file.contents in
      let grown : (write_all (wkb.encode_wkb g) (seek_end store.file)).contents
          ≡ old ++ wkb.encode_wkb g =
        contents-write_all (wkb.encode_wkb g) (seek_end store.file) refl in
      subst
        (λ c.
          Stored c
            ((key, record { offset = length old; len = length (wkb.encode_wkb g) }) ∷ store.index)
            ((key, g) ∷ es))
        (sym grown)
        (
          refl,
          (
            record {
              bytes =
                  ap (λ r. slice (old ++ r) (length old) (length (wkb.encode_wkb g)))
                    (sym (append-nil (wkb.encode_wkb g)))
                  ∙ slice-middle old (wkb.encode_wkb g) [] (length old) (length (wkb.encode_wkb g))
                      refl refl;
              inside = omega (arith, length-append old (wkb.encode_wkb g));
            },
            Stored-append old (wkb.encode_wkb g) store.index es (Stored-insert_all es),
          ),
        )

  read_at-Holds :
      (store : GeometryStore) (l : Location) (g : G)
      → Holds store.file.contents l g
      → read_at wkb store (some l) ≡ ok (some g)
  unfolding read_at
  read_at-Holds store l g h =
      rw
        (
          le→leb (l.offset + l.len) (length store.file.contents) h.inside,
          h.bytes,
          wkb.read-encode g,
        )
        refl

  lookup-Stored :
      (store : GeometryStore) (is : List (ℕ × Location)) (es : List (ℕ × G)) (key : ℕ)
      → Stored store.file.contents is es
      → read_at wkb store (find is key) ≡ ok (find es key)
  unfolding find
  lookup-Stored store [] [] key h = unfold read_at in refl
  lookup-Stored store [] (e ∷ es) key h = absurd h
  lookup-Stored store (i ∷ is) [] key h = absurd h
  lookup-Stored store ((k, l) ∷ is) ((j, g) ∷ es) key h =
      rw (sym h.0) (elim (Bool-cases (k == key)) [
        | inl found ↦ rw found (read_at-Holds store l g h.1.0)
        | inr other ↦ rw other (lookup-Stored store is es key h.1.1)
      ])

  -- After any insertions into a new store, listed with the latest first, `lookup` of a key gives
  -- the geometry that was inserted last under that key, or `none` if there was none.
  pub lookup-insert_all :
      (es : List (ℕ × G)) (key : ℕ) → lookup wkb (insert_all create es) key ≡ ok (find es key)
  unfolding lookup
  lookup-insert_all es key =
      lookup-Stored (insert_all create es) (insert_all create es).index es key
        (Stored-insert_all es)
