-- ===== src/Matchers/Score.antt =====
-- Places, and how scores fall with the distance (src/matchers/mod.rs). Scores are in hundredths,
-- times the search radius, so that no score is a fraction; distances and radii are in millimetres.
pub mod Laws
use Prim.Native.String.{String}
use osmdiffs.Base.{
  ℕ, ◌+◌, ◌-◌, ◌*◌, ◌≤◌, ◌<◌, ◌≡◌, Bool, true, false, Option, none, some, arith, ltb, ◌==◌,
  if◌then◌else◌,
}
use osmdiffs.Matchers.Tags.{Tags}
use osmdiffs.Matchers.MatchMask.{MatchMask}

-- What matching needs of a feature of AllThePlaces.
pub record Place : Type 0 where
  pub spider : String
  pub s2_cell_id : ℕ
  pub mask : MatchMask
  pub tags : Tags

-- The score at distance 0, the score at the end of the radius, and the radius.
pub record Factor : Type 0 where
  pub best : ℕ
  pub worst : ℕ
  pub radius : ℕ

unfoldable pub no_match : Factor
no_match = record { best = 0; worst = 0; radius = 0 }

-- `worst + (best - worst) * geo_point_distance_score(…)`, and 0 beyond the radius. There is no
-- distance to a candidate whose geometry is unreadable or has no centroid.
unfoldable pub score_at : Factor → Option ℕ → ℕ
score_at f none = 0
score_at f (some distance) =
    if f.best == 0
    then 0
    else if ltb (f.radius) distance
    then 0
    else f.worst * f.radius + (f.best - f.worst) * (f.radius - distance)
