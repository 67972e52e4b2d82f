-- ===== src/Tables/SortedU64Index/Runs.antt =====
-- Concrete runs of the search.
use osmdiffs.Base.{ℕ, ◌≡◌, refl, some, none, List, [], ◌∷◌, arith}
use osmdiffs.Tables.SortedU64Index.{search, partition_point, narrow}
use osmdiffs.Tables.SortedU64Index.Lookup.{index_of, search-eq-index_of}

abbrev sorted : List ℕ
sorted = 3 ∷ 7 ∷ 7 ∷ 9 ∷ []

found : search sorted 7 ≡ some 1
unfolding search partition_point narrow
found = refl

missing : search sorted 8 ≡ none
unfolding search partition_point narrow
missing = refl

search-eq-index_of_example : search sorted 7 ≡ index_of sorted 7
search-eq-index_of_example = search-eq-index_of sorted 7 (omega arith)
