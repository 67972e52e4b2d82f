-- ===== src/Tables/Wkb.antt =====
-- Encoded geometries: src/geometry/wkb_writer.rs encodes with the crate wkb, which is a parameter.
use osmdiffs.Base.{ℕ, ◌≡◌, Option, some, List}

-- `encode_wkb` and `read_wkb` with `to_geometry`, of the crate wkb: what is encoded is read again.
pub record Wkb (G : Type 0) : Type 0 where
  pub encode_wkb : G → List ℕ
  pub read_wkb : List ℕ → Option G
  pub read-encode : (g : G) → read_wkb (encode_wkb g) ≡ some g
