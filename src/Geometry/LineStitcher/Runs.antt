-- ===== src/Geometry/LineStitcher/Runs.antt =====
-- Concrete runs of the line stitcher.
use osmdiffs.Base.{ℕ, ◌≡◌, refl, some, List, [], ◌∷◌, arith}
use osmdiffs.Base.Predicates.{Pairwise}
use osmdiffs.Geometry.Coord.{Coord, key_eq, get, remove, insert}
use osmdiffs.Geometry.LineStitcher.{
  Chain, degrees, stitch_round, add_chains, add_chain, partner, is_joint, count_end, insert_chain,
  absorb, take_slot, remove_remaining_endpoint, merge_chains,
}
use osmdiffs.Geometry.LineStitcher.Segments.{segment_total}
use osmdiffs.Geometry.LineStitcher.Stitching.{stitch_round-segments}
use osmdiffs.Geometry.LineStitcher.Maximal.{Apart, stitch_round-Apart}

abbrev at : ℕ → Coord
at n = record { x_bits = n; y_bits = 0 }

-- Three lines that meet at 2 and at 3, the second one the other way round.
abbrev three : List Chain
three = (at 1 ∷ at 2 ∷ []) ∷ (at 3 ∷ at 2 ∷ []) ∷ (at 3 ∷ at 4 ∷ []) ∷ []

three_joined : stitch_round key_eq three ≡ some ((at 1 ∷ at 2 ∷ at 3 ∷ at 4 ∷ []) ∷ [])
unfolding stitch_round key_eq get remove insert degrees add_chains add_chain partner is_joint
    count_end insert_chain absorb take_slot remove_remaining_endpoint merge_chains
three_joined = refl

stitch_round-segments_example :
    (chains : List Chain) × (stitch_round key_eq three ≡ some chains)
    × ((p q : Coord) → segment_total p q chains ≡ segment_total p q three)
stitch_round-segments_example = stitch_round-segments key_eq three (omega arith)

stitch_round-Apart_example :
    (chains : List Chain) × (stitch_round key_eq three ≡ some chains)
    × Pairwise (Apart key_eq three) chains
stitch_round-Apart_example = stitch_round-Apart key_eq three (omega arith)
