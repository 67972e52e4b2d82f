-- ===== src/Tables/CoordTable/Runs.antt =====
-- Concrete runs of a coordinate table.
use osmdiffs.Base.{ℕ, ◌%◌, ◌^◌, ◌≡◌, List, [], ◌∷◌, arith}
use osmdiffs.Tables.Entries.{key_sorter, find}
use osmdiffs.Tables.Format.{ok, err, not_ascending}
use osmdiffs.Tables.CoordTable.{CoordTable, FixedPoint, create, get}
use osmdiffs.Tables.CoordTable.RoundTrip.{rounded, get-create, create-refuses}
use mathlib.Core.Option

-- Floats that are whole multiples of 1e-7.
abbrev bits : FixedPoint ℕ
bits = record { to_fixed = λ n. n % 2 ^ 32; from_fixed = λ n. n; to_fixed_small = λ n. omega arith }

abbrev two : List (ℕ × (ℕ × ℕ))
two = (42, (7, 8)) ∷ (5, (1, 4294967295)) ∷ []

get-create_example :
    (t : CoordTable) × (create bits key_sorter two ≡ ok t)
    × ((key : ℕ) → get bits t key ≡ ok (Option.map (rounded bits) (find two key)))
get-create_example =
    get-create bits key_sorter two ((omega arith, tt), (tt, tt)) (omega arith, (omega arith, tt))
      (omega arith, (omega arith, tt)) (omega arith)

abbrev with_zero : List (ℕ × (ℕ × ℕ))
with_zero = (3, (7, 8)) ∷ (0, (1, 2)) ∷ []

create-refuses_example : create bits key_sorter with_zero ≡ err not_ascending
create-refuses_example = create-refuses bits key_sorter with_zero (λ h. omega (arith, h.1.1.0))
