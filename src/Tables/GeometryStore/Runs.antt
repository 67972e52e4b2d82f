-- ===== src/Tables/GeometryStore/Runs.antt =====
-- Concrete runs of a geometry store.
use osmdiffs.Base.{ℕ, ◌≡◌, refl, some, List, [], ◌∷◌}
use osmdiffs.Tables.Entries.{find}
use osmdiffs.Tables.Format.{ok}
use osmdiffs.Tables.Wkb.{Wkb}
use osmdiffs.Tables.GeometryStore.{create, lookup}
use osmdiffs.Tables.GeometryStore.Latest.{insert_all, lookup-insert_all}

-- Geometries that are their own encoding.
abbrev raw : Wkb (List ℕ)
raw = record { encode_wkb = λ g. g; read_wkb = λ bs. some bs; read-encode = λ g. refl }

abbrev replaced : List (ℕ × List ℕ)
replaced = (17, 1 ∷ 2 ∷ []) ∷ (42, 3 ∷ []) ∷ (17, 4 ∷ []) ∷ []

lookup-insert_all_example : lookup raw (insert_all raw create replaced) 17 ≡ ok (find replaced 17)
lookup-insert_all_example = lookup-insert_all raw replaced 17
