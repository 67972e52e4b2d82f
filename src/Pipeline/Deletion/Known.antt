-- ===== src/Pipeline/Deletion/Known.antt =====
-- A stop that AllThePlaces knows by its id is never proposed for deletion.
use text.Mathlib.Text.{◌==◌ as str_eq}
use osmdiffs.Base.{
  ◌≡◌, refl, subst, Bool, true, false, Option, none, List, [], ◌∷◌, arith, inl, inr, if◌then◌else◌,
}
use osmdiffs.Base.Predicates.{Any, IsIn}
use osmdiffs.Base.Text.{Text, chars, contains_text_in}
use osmdiffs.Matchers.Tags.{Tag, Tags, Unicode, is_one_of}
use osmdiffs.Matchers.Score.{Place}
use osmdiffs.Matchers.Transit.Identifiers.{ifopt_keys}
use osmdiffs.Matchers.Transit.Scores.{contains_text_in-IsIn}
use osmdiffs.Matchers.Transit.Stops.{is_stop}
use osmdiffs.Pipeline.Deletion.Register.{World}
use osmdiffs.Pipeline.Deletion.Coverage.{
  AtpCoverage, swiss_ifopts, swiss_uics_in, has_swiss_transit, add_places,
}
use osmdiffs.Pipeline.Deletion.{
  Scan, knows_ifopt, note_id, note_any, scan_tag, scan, no_ids, stop_reason, deletion_reason,
}
use osmdiffs.Pipeline.Deletion.Folds.{fold-keeps, fold-reaches}
use osmdiffs.Pipeline.Deletion.Adding.{GivesIfopt, HasIfopt, Knows, PlaceHas, add_places-reaches}

abbrev IsKnown : Scan → Type 0
IsKnown s = s.known ≡ true

note_id-keeps :
    (knows : Text → Bool) (s : Scan) (t : Text) → IsKnown s → IsKnown (note_id knows s t)
unfolding note_id
note_id-keeps knows s t h = ground (arith, h)

note_id-reaches :
    (atp : AtpCoverage) (id : Text) (s : Scan) (t : Text)
    → Knows id atp
    → id ≡ t
    → IsKnown (note_id (knows_ifopt atp) s t)
unfolding note_id knows_ifopt
note_id-reaches atp id s t h e = ground (
  arith,
  subst (λ r. contains_text_in (atp.swiss_ifopt) r ≡ true) e
      (contains_text_in-IsIn (atp.swiss_ifopt) id h),
)

IsIn-Any : (id : Text) (ts : List Text) → IsIn id ts → Any (λ t. id ≡ t) ts
IsIn-Any id [] h = h
IsIn-Any id (t ∷ ts) (inl e) = inl e
IsIn-Any id (t ∷ ts) (inr h) = inr (IsIn-Any id ts h)

scan_keeps : (t : Bool) (a b : Scan) → IsKnown a → IsKnown b → IsKnown (if t then a else b)
scan_keeps true a b h k = h
scan_keeps false a b h k = k

module _ (atp : AtpCoverage) where
  scan_tag-keeps : (s : Scan) (t : Tag) → IsKnown s → IsKnown (scan_tag atp s t)
  unfolding scan_tag note_any
  scan_tag-keeps s (key, value) h =
      scan_keeps (is_one_of ifopt_keys key) _ _
        (fold-keeps IsKnown (note_id (knows_ifopt atp)) (note_any s) (swiss_ifopts (chars value))
          (note_id-keeps (knows_ifopt atp)) h)
        (scan_keeps (str_eq key "uic_ref") _ s
          (fold-keeps IsKnown (note_id (contains_text_in (atp.swiss_uics))) (note_any s)
            (swiss_uics_in (chars value)) (note_id-keeps (contains_text_in (atp.swiss_uics))) h)
          h)

  scan_tag-reaches :
      (id : Text) (s : Scan) (t : Tag) → Knows id atp → GivesIfopt id t → IsKnown (scan_tag atp s t)
  unfolding scan_tag
  scan_tag-reaches id s (key, value) h (k, i) = rw k (
      fold-reaches IsKnown (λ t. id ≡ t) (note_id (knows_ifopt atp)) (note_any s)
        (swiss_ifopts (chars value)) (note_id-keeps (knows_ifopt atp))
        (λ r t. note_id-reaches atp id r t h) (IsIn-Any id (swiss_ifopts (chars value)) i))

  scan-known :
      (id : Text) (tags : Tags) → Knows id atp → HasIfopt id tags → (scan atp tags).known ≡ true
  unfolding scan
  scan-known id tags h has =
      fold-reaches IsKnown (GivesIfopt id) (scan_tag atp) no_ids tags scan_tag-keeps
        (λ s t g. scan_tag-reaches id s t h g) has

-- Once AllThePlaces has the Swiss register, a stop with a Swiss IFOPT id that one of the added places
-- gives is not proposed for deletion, wherever it is.
pub deletion_reason-HasIfopt :
    {Location : Type 0} (u : Unicode) (world : World Location) (c : AtpCoverage)
    (places : List Place) (tags : Tags) (location : Option Location) (id : Text)
    → Any (PlaceHas id) places
    → HasIfopt id tags
    → is_stop tags ≡ true
    → has_swiss_transit (add_places u world c places) ≡ true
    → deletion_reason u world (add_places u world c places) tags location ≡ none
unfolding deletion_reason stop_reason
deletion_reason-HasIfopt u world c places tags location id given has stop register =
    rw
      (
        stop,
        register,
        scan-known (add_places u world c places) id tags
            (add_places-reaches u world id c places given) has,
      )
      refl
