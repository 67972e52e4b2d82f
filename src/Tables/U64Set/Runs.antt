-- ===== src/Tables/U64Set/Runs.antt =====
-- Concrete runs of a set.
use osmdiffs.Base.{
  ℕ, ◌≡◌, ◌≤◌, ◌+◌, ◌^◌, ◌↔◌, true, List, [], ◌∷◌, leb, leb→le, leb_false→le, arith, length,
}
use osmdiffs.Base.Predicates.{IsIn}
use osmdiffs.Tables.Format.{ok}
use osmdiffs.Tables.Sorting.{ExternalSorter}
use osmdiffs.Tables.Sorting.Insertion.{insertion_sorter}
use osmdiffs.Tables.SortedU64Index.Lookup.{Ascending}
use osmdiffs.Tables.U64Set.{U64Set, create, contains, iter, len, open_set}
use osmdiffs.Tables.U64Set.RoundTrip.{create-contains, open_set-wraps, file}

sorter : ExternalSorter ℕ (λ a b. a ≤ b)
sorter = insertion_sorter leb leb→le leb_false→le (λ a b c p q. omega arith)

abbrev repeated : List ℕ
repeated = 42 ∷ 7 ∷ 23 ∷ 7 ∷ []

create-contains_example :
    (s : U64Set) × (create sorter repeated ≡ ok s)
    × Ascending (iter s)
    × (len s ≡ length (iter s))
    × ((n : ℕ) → IsIn n (iter s) ↔ IsIn n repeated)
    × ((n : ℕ) → (contains s n ≡ true) ↔ IsIn n repeated)
create-contains_example = create-contains sorter repeated (omega arith) (omega arith)

open_set-wraps_example :
    (s : U64Set) × (open_set (file (2 + 2 ^ 61) (7 ∷ 9 ∷ [])) ≡ ok s) × (len s ≡ 2 + 2 ^ 61)
open_set-wraps_example = open_set-wraps (7 ∷ 9 ∷ []) (omega arith)
