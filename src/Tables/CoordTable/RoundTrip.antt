-- ===== src/Tables/CoordTable/RoundTrip.antt =====
-- A coordinate table gives back what it was created from.
use osmdiffs.Base.{
  ℕ, ◌<◌, ◌^◌, ◌≡◌, ◌≢◌, refl, sym, ap, ◌∙◌, Option, none, some, List, [], ◌∷◌, length, suc, ◌==◌,
  arith, Bool-cases, inl, inr,
}
use osmdiffs.Base.Bytes.{Fits, encode_ints, length-encode_ints}
use osmdiffs.Base.Output.{write_all, overwrite}
use osmdiffs.Base.Predicates.{All}
use osmdiffs.Tables.Entries.{
  KeyLe, Distinct, find, find-Permutation, keys_of, sorted-NonDescending, length-keys_of,
  keys_of-Fits,
}
use osmdiffs.Tables.Format.{ok, err, ◌>>=◌, not_ascending}
use osmdiffs.Tables.Sorting.{
  ExternalSorter, Permutation, Permutation-All, Permutation-sym, Permutation-Pairwise,
  length-Permutation,
}
use osmdiffs.Tables.SortedU64Index.Lookup.{index_of, search-eq-index_of}
use osmdiffs.Tables.CoordTable.{
  CoordTable, FixedPoint, Writer, to_coord, get_at, get, unpack, pack_coord, pack_entries, create,
  create_writer, close, open_table,
}
use osmdiffs.Tables.CoordTable.Packing.{unpack-pack}
use osmdiffs.Tables.CoordTable.Writing.{
  coords_of, Rising, IsSound, Wrote, write_entries-Wrote, write_entries-not_ascending,
}
use osmdiffs.Tables.CoordTable.Layout.{close-layout, open-layout}
use osmdiffs.Tables.CoordTable.Order.{
  Distinct-Rising, Rising-All, Rising-Distinct, length-coords_of, coords_of-Fits, All-pack_entries,
  Distinct-pack_entries, length-pack_entries, pack_entries-Fits, find-pack_entries,
}
use mathlib.Core.Option

IsSound-create_writer : IsSound create_writer
unfolding create_writer write_all overwrite
IsSound-create_writer = record { keys_end = refl; coords_end = refl }

-- The table of sorted entries.
abbrev table : List (ℕ × ℕ) → CoordTable
table es = record { entries_count = length es; keys = keys_of es; coords = coords_of es }

-- The file of a writer that has written `es` opens as their table.
opened :
    (es : List (ℕ × ℕ)) (w : Writer)
    → Wrote create_writer es w
    → length es < 2 ^ 59
    → All (λ (e : ℕ × ℕ). Fits 8 e.0) es
    → All (λ (e : ℕ × ℕ). Fits 8 e.1) es
    → (close w >>= open_table) ≡ ok (table es)
unfolding create_writer write_all overwrite
opened es w wrote small keys_fit coords_fit =
    ap (λ r. r >>= open_table)
      (close-layout w (encode_ints 8 (keys_of es)) (encode_ints 8 (coords_of es)) (length es)
        wrote.keys wrote.sound.keys_end wrote.coords (wrote.count ∙ omega arith)
        (omega (arith, length-encode_ints 8 (keys_of es), length-keys_of es)) small)
    ∙ open-layout (keys_of es) (coords_of es) (length es) (length-keys_of es) (length-coords_of es)
        small (keys_of-Fits es keys_fit) (coords_of-Fits es coords_fit)

module _ {F : Type 0} (fp : FixedPoint F) where
  -- What fixed-point numbers keep of a coordinate.
  abbrev pub rounded : F × F → F × F
  rounded (x, y) = (fp.from_fixed (fp.to_fixed x), fp.from_fixed (fp.to_fixed y))

  unpack-pack_coord : (c : F × F) → to_coord fp (unpack (pack_coord fp c)) ≡ rounded c
  unfolding pack_coord
  unpack-pack_coord (x, y) =
      ap (to_coord fp)
        (unpack-pack (fp.to_fixed x) (fp.to_fixed y) (fp.to_fixed_small x) (fp.to_fixed_small y))

  map-unpack :
      (o : Option (F × F))
      → Option.map (λ v. to_coord fp (unpack v)) (Option.map (pack_coord fp) o)
        ≡ Option.map rounded o
  map-unpack none = refl
  map-unpack (some c) = ap some (unpack-pack_coord c)

  abbrev part : ℕ → List ℕ → List ℕ → CoordTable
  part n ks vs = record { entries_count = n; keys = ks; coords = vs }

  fetch_later :
      (n : ℕ) (ks : List ℕ) (v : ℕ) (vs : List ℕ) (o : Option ℕ)
      → get_at fp (part n ks (v ∷ vs)) (Option.map suc o) ≡ get_at fp (part n ks vs) o
  unfolding get_at
  fetch_later n ks v vs none = refl
  fetch_later n ks v vs (some i) = refl

  fetch :
      (n : ℕ) (ks : List ℕ) (es : List (ℕ × ℕ)) (key : ℕ)
      → get_at fp (part n ks (coords_of es)) (index_of (keys_of es) key)
        ≡ ok (Option.map (λ v. to_coord fp (unpack v)) (find es key))
  unfolding index_of find
  fetch n ks [] key = unfold get_at in refl
  fetch n ks ((k, v) ∷ es) key = elim (Bool-cases (k == key)) [
    | inl found ↦ rw found (unfold get_at in refl)
    | inr other ↦
        rw other (fetch_later n ks v (coords_of es) (index_of (keys_of es) key) ∙ fetch n ks es key)
  ]

  module _ (sorter : ExternalSorter (ℕ × ℕ) KeyLe) (coords : List (ℕ × (F × F))) where
    abbrev es : List (ℕ × ℕ)
    es = sorter.sort (pack_entries fp coords)

    to_es : Permutation (pack_entries fp coords) es
    to_es = Permutation-sym (sorter.permutes (pack_entries fp coords))

    Ne-sym : (a b : ℕ × ℕ) → a.0 ≢ b.0 → b.0 ≢ a.0
    Ne-sym a b ne e = ne (sym e)

    Distinct-es : Distinct coords → Distinct es
    Distinct-es d =
        Permutation-Pairwise (λ (a b : ℕ × ℕ). a.0 ≢ b.0) Ne-sym to_es
          ((Distinct-pack_entries fp coords).0 d)

    All-es :
        (P : ℕ → Type 0) → All (λ (e : ℕ × (F × F)). P e.0) coords → All (λ (e : ℕ × ℕ). P e.0) es
    All-es P h = Permutation-All (λ (e : ℕ × ℕ). P e.0) to_es ((All-pack_entries fp P coords).0 h)

    length-es : length es ≡ length coords
    length-es =
        length-Permutation (sorter.permutes (pack_entries fp coords))
        ∙ length-pack_entries fp coords

    get-table :
        (key : ℕ)
        → Distinct coords
        → get fp (table es) key ≡ ok (Option.map rounded (find coords key))
    unfolding get
    get-table key d =
        ap (get_at fp (table es)) (
          search-eq-index_of (keys_of es) key
            (sorted-NonDescending es (sorter.sorted (pack_entries fp coords))))
        ∙ fetch (length es) (keys_of es) es key
        ∙ ap (λ o. ok (Option.map (λ v. to_coord fp (unpack v)) o))
            (find-Permutation key (sorter.permutes (pack_entries fp coords)) (Distinct-es d)
              ∙ find-pack_entries fp coords key)
        ∙ ap ok (map-unpack (find coords key))

    -- From fewer than 2^59 coordinates with distinct u64 keys other than 0, in any order, `create`
    -- makes a file that it opens again, and `get` of every key gives the coordinate of that key
    -- rounded to fixed-point numbers, or `none` without one.
    pub get-create :
        Distinct coords
        → All (λ (e : ℕ × (F × F)). 0 < e.0) coords
        → All (λ (e : ℕ × (F × F)). Fits 8 e.0) coords
        → length coords < 2 ^ 59
        → (t : CoordTable) × (create fp sorter coords ≡ ok t)
          × ((key : ℕ) → get fp t key ≡ ok (Option.map rounded (find coords key)))
    unfolding create
    get-create d positive fit small =
        let (w, e, wrote) =
          write_entries-Wrote create_writer es IsSound-create_writer
            (unfold create_writer in omega (arith, length-es))
            (unfold create_writer in
              Distinct-Rising 0 es (sorter.sorted (pack_entries fp coords)) (Distinct-es d)
                (All-es (λ k. 0 < k) positive)) in
        (
          table es,
          rw e (
              opened es w wrote (omega (arith, length-es)) (All-es (Fits 8) fit)
                (Permutation-All (λ (e : ℕ × ℕ). Fits 8 e.1) to_es (pack_entries-Fits fp coords))),
          λ key. get-table key d,
        )

    -- With a repeated key, or with the key 0, `create` fails.
    pub create-refuses :
        ¬ (Distinct coords × All (λ (e : ℕ × (F × F)). 0 < e.0) coords)
        → create fp sorter coords ≡ err not_ascending
    unfolding create
    create-refuses bad = rw (write_entries-not_ascending create_writer es (λ r. bad (back r)))
      where
        back :
            Rising create_writer.last_key es
            → Distinct coords × All (λ (e : ℕ × (F × F)). 0 < e.0) coords
        back r =
            let rising : Rising 0 es = unfold create_writer in r in
            (
              (Distinct-pack_entries fp coords).1 (
                  Permutation-Pairwise (λ (a b : ℕ × ℕ). a.0 ≢ b.0) Ne-sym
                    (sorter.permutes (pack_entries fp coords)) (Rising-Distinct 0 es rising)),
              (All-pack_entries fp (λ k. 0 < k) coords).1 (
                  Permutation-All (λ (e : ℕ × ℕ). 0 < e.0)
                    (sorter.permutes (pack_entries fp coords)) (Rising-All 0 es rising)),
            )
