-- ===== src/Pipeline/Deletion/Missing.antt =====
-- What the tests for a stop that the register lacks say of its place and its tags.
use osmdiffs.Base.Distinct.{contains, contains-false}
use osmdiffs.Pipeline.Deletion.Register.{
  campione, swiss_register, buesingen, is_home_country, in_swiss_home, World,
}
use Prim.Native.String.{String}
use text.Mathlib.Text.{◌==◌ as str_eq}
use text.Mathlib.TextEquality.{eq_iff}
use osmdiffs.Base.{
  ◌⊎◌, ℕ, some, List, ◌≡◌, ◌≢◌, refl, Bool, true, false, [], ◌∷◌, arith, inl, inr, Bool-cases,
  Option-cases,
}
use osmdiffs.Base.Predicates.{All}
use osmdiffs.Base.Search.{any}
use osmdiffs.Base.Text.{Text, chars, contains_text_in}
use osmdiffs.Matchers.Tags.{Tag, Tags, is_one_of}
use osmdiffs.Matchers.Transit.Identifiers.{ifopt_keys}
use osmdiffs.Pipeline.Deletion.Coverage.{
  has_swiss_stop_near, AtpCoverage, swiss_ifopts, swiss_uics_in, fold,
}
use osmdiffs.Pipeline.Deletion.{Scan, knows_ifopt, note_id, note_any, scan_tag, scan, no_ids}
use osmdiffs.Pipeline.Deletion.Folds.{fold-keeps}

-- The tag is not one for the ids of stops.
abbrev pub HasNoId : Tag → Type 0
HasNoId t =
    ((t.0) ≢ "uic_ref")
    × (((t.0) ≢ "ref:IFOPT") × (((t.0) ≢ "ref:sloid") × ((t.0) ≢ "railway:ref:sloid")))

abbrev Found : Scan → Type 0
Found s = s.has_any_id ≡ true

note_id-Found : (knows : Text → Bool) (s : Scan) (t : Text) → Found s → Found (note_id knows s t)
unfolding note_id
note_id-Found knows s t h = h

other_keys :
    (key value : String)
    → is_one_of ifopt_keys key ≡ false
    → str_eq key "uic_ref" ≡ false
    → HasNoId (key, value)
unfolding is_one_of any
other_keys key value h k = (
  λ e. absurd (ground (arith, k, e, eq_iff key "uic_ref")),
  (
    λ e. absurd (ground (arith, h, e, eq_iff "ref:IFOPT" key)),
    (
      λ e. absurd (ground (arith, h, e, eq_iff "ref:sloid" key)),
      λ e. absurd (ground (arith, h, e, eq_iff "railway:ref:sloid" key)),
    ),
  ),
)

module _ (atp : AtpCoverage) where
  -- A tag for ids is noted, whatever its value.
  ifopt_noted :
      (s : Scan) (key value : String)
      → is_one_of ifopt_keys key ≡ true
      → Found (scan_tag atp s (key, value))
  unfolding scan_tag note_any
  ifopt_noted s key value h = rw h (
      fold-keeps Found (note_id (knows_ifopt atp)) (note_any s) (swiss_ifopts (chars value))
        (note_id-Found (knows_ifopt atp)) refl)

  uic_noted :
      (s : Scan) (key value : String)
      → is_one_of ifopt_keys key ≡ false
      → str_eq key "uic_ref" ≡ true
      → Found (scan_tag atp s (key, value))
  unfolding scan_tag note_any
  uic_noted s key value h k =
      rw (h, k)
        (fold-keeps Found (note_id (contains_text_in (atp.swiss_uics))) (note_any s)
          (swiss_uics_in (chars value)) (note_id-Found (contains_text_in (atp.swiss_uics))) refl)

  scan_tag-same :
      (s : Scan) (key value : String)
      → is_one_of ifopt_keys key ≡ false
      → str_eq key "uic_ref" ≡ false
      → scan_tag atp s (key, value) ≡ s
  unfolding scan_tag
  scan_tag-same s key value h k = rw (h, k) refl

  scan_tag-Found : (s : Scan) (t : Tag) → Found s → Found (scan_tag atp s t)
  scan_tag-Found s (key, value) h = elim (Bool-cases (is_one_of ifopt_keys key)) [
    | inl a ↦ ifopt_noted s key value a
    | inr a ↦ elim (Bool-cases (str_eq key "uic_ref")) [
      | inl b ↦ uic_noted s key value a b
      | inr b ↦ rw (scan_tag-same s key value a b) h
    ]
  ]

  fold-HasNoId :
      (s : Scan) (tags : Tags) → (fold (scan_tag atp) s tags).has_any_id ≡ false → All HasNoId tags
  unfolding fold
  fold-HasNoId s [] h = tt
  fold-HasNoId s ((key, value) ∷ tags) h = elim (Bool-cases (is_one_of ifopt_keys key)) [
    | inl a ↦ absurd (cc (h, later (ifopt_noted s key value a)))
    | inr a ↦ elim (Bool-cases (str_eq key "uic_ref")) [
      | inl b ↦ absurd (cc (h, later (uic_noted s key value a b)))
      | inr b ↦ (other_keys key value a b, fold-HasNoId (scan_tag atp s (key, value)) tags h)
    ]
  ]
    where
      later :
          Found (scan_tag atp s (key, value))
          → Found (fold (scan_tag atp) (scan_tag atp s (key, value)) tags)
      later f = fold-keeps Found (scan_tag atp) (scan_tag atp s (key, value)) tags scan_tag-Found f

  -- A scan that finds no id has seen no tag for one.
  pub scan-HasNoId : (tags : Tags) → (scan atp tags).has_any_id ≡ false → All HasNoId tags
  unfolding scan
  scan-HasNoId tags h = fold-HasNoId no_ids tags h

-- Where the register lists all stops: two countries and two enclaves.
module _ {Location : Type 0} (world : World Location) where
  abbrev pub IsHome : Location → Type 0
  IsHome l =
      ((world.country l ≡ some "CH") ⊎ (world.country l ≡ some "LI"))
      ⊎ (((world.country l ≡ some "DE") × (world.contains buesingen l ≡ true))
          ⊎ ((world.country l ≡ some "IT") × (world.contains campione l ≡ true)))

  pub in_swiss_home-IsHome :
      (l : Location) → in_swiss_home world (world.country l) l ≡ true → IsHome l
  unfolding in_swiss_home is_home_country swiss_register any
  in_swiss_home-IsHome l h = elim (Option-cases (world.country l)) [
    | inl e ↦ absurd (cc (rw e at h))
    | inr (c, e) ↦
        ground (arith, e, rw e at h, eq_iff "CH" c, eq_iff "LI" c, eq_iff "DE" c, eq_iff "IT" c)
  ]

  -- No stop of the register is in the cell of a place, nor in a neighboring one.
  abbrev pub HasNoneNear : AtpCoverage → Location → Type 0
  HasNoneNear atp l =
      All (λ n. All (λ x. x ≢ n) (atp.swiss_cells))
        (world.parent (world.cell_at l) ∷ world.neighbors (world.parent (world.cell_at l)))

  none_of :
      (cells ns : List ℕ)
      → any (λ n. contains cells n) ns ≡ false
      → All (λ n. All (λ x. x ≢ n) cells) ns
  unfolding any
  none_of cells [] h = tt
  none_of cells (n ∷ ns) h =
      (contains-false cells n (ground (arith, h)), none_of cells ns (ground (arith, h)))

  pub near-HasNoneNear :
      (atp : AtpCoverage) (l : Location)
      → has_swiss_stop_near world atp l ≡ false
      → HasNoneNear atp l
  unfolding has_swiss_stop_near
  near-HasNoneNear atp l h =
      let cell = world.parent (world.cell_at l) in
      (
        contains-false (atp.swiss_cells) cell (ground (arith, h)),
        none_of (atp.swiss_cells) (world.neighbors cell) (ground (arith, h)),
      )
