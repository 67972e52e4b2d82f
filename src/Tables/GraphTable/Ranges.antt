-- ===== src/Tables/GraphTable/Ranges.antt =====
-- `parent_range` finds exactly the edges of its child.
use osmdiffs.Base.{
  ℕ, zero, suc, ◌+◌, ◌-◌, ◌≤◌, ◌<◌, ◌≡◌, refl, sym, ap, ◌∙◌, List, [], ◌∷◌, ltb, ◌==◌,
  if◌then◌else◌, length, get_or, take, drop, length-drop, arith, Bool-cases, inl, inr,
}
use osmdiffs.Base.Predicates.{All, All-imp}
use osmdiffs.Tables.SortedU64Index.{partition_point}
use osmdiffs.Tables.SortedU64Index.Partition.{IsBoundary, partition_point-IsBoundary}
use osmdiffs.Tables.SortedU64Index.Lookup.{NonDescending, sorted-IsPartitioned}
use osmdiffs.Tables.GraphTable.{GraphTable, run_end, parent_range, parents_of}

-- The specification: the parents of all edges with that child, by a scan of the edge list.
unfoldable pub scan : List ℕ → List ℕ → ℕ → List ℕ
scan [] ps child = []
scan (c ∷ cs) [] child = []
scan (c ∷ cs) (p ∷ ps) child = let rest = scan cs ps child in if c == child then p ∷ rest else rest

-- How many elements at the front equal `child`.
run : List ℕ → ℕ → ℕ
run [] child = 0
run (c ∷ cs) child = let rest = run cs child in if c == child then suc rest else 0

drop-get_or : (xs : List ℕ) (i : ℕ) → i < length xs → drop i xs ≡ get_or xs i 0 ∷ drop (i + 1) xs
drop-get_or [] i h = absurd (omega arith)
drop-get_or (x ∷ xs) zero h = refl
drop-get_or (x ∷ xs) (suc i) h =
    drop-get_or xs i (omega arith) ∙ ap (λ k. get_or xs i 0 ∷ drop k (x ∷ xs)) (step i)
  where
    step : (a : ℕ) → suc (a + 1) ≡ suc a + 1
    step a = omega arith

drop_past : (xs : List ℕ) (i : ℕ) → length xs ≤ i → drop i xs ≡ []
drop_past [] zero h = refl
drop_past [] (suc i) h = refl
drop_past (x ∷ xs) zero h = absurd (omega arith)
drop_past (x ∷ xs) (suc i) h = drop_past xs i (omega arith)

run-drop :
    (children : List ℕ) (child hi : ℕ)
    → hi < length children
    → run (drop hi children) child
      ≡ (if get_or children hi 0 == child then suc (run (drop (hi + 1) children) child) else 0)
unfolding run
run-drop children child hi h = ap (λ r. run r child) (drop-get_or children hi h)

run_end-run :
    (fuel : ℕ) (children : List ℕ) (child hi : ℕ)
    → length children < fuel + hi
    → run_end fuel children child hi ≡ hi + run (drop hi children) child
unfolding run_end run
run_end-run zero children child hi h =
    omega (arith, ap (λ r. run r child) (drop_past children hi (omega arith)))
run_end-run (suc fuel) children child hi h = elim (Bool-cases (ltb hi (length children))) [
  | inl inside ↦ ground (
    arith,
    run-drop children child hi (ground arith),
    run_end-run fuel children child (hi + 1) (omega arith),
  )
  | inr past ↦ rw past (omega (arith, ap (λ r. run r child) (drop_past children hi (ground arith))))
]

scan_none : (cs ps : List ℕ) (child : ℕ) → All (λ c. child < c) cs → scan cs ps child ≡ []
unfolding scan
scan_none [] ps child h = refl
scan_none (c ∷ cs) [] child h = refl
scan_none (c ∷ cs) (p ∷ ps) child h = ground (arith, h.0, scan_none cs ps child h.1)

-- In a sorted column that starts at `child` or above, the edges of `child` stand in front.
scan-run :
    (cs ps : List ℕ) (child : ℕ)
    → NonDescending cs
    → All (λ c. child ≤ c) cs
    → length cs ≡ length ps
    → take (run cs child) ps ≡ scan cs ps child
unfolding scan run
scan-run [] ps child s a e = refl
scan-run (c ∷ cs) [] child s a e = absurd (omega arith)
scan-run (c ∷ cs) (p ∷ ps) child s a e = elim (Bool-cases (c == child)) [
  | inl same ↦ rw same (ap (λ r. p ∷ r) (scan-run cs ps child s.1 a.1 (omega arith)))
  | inr more ↦ rw more (
      sym (
        scan_none cs ps child
          (All-imp (λ d. c ≤ d) (λ d. child < d) cs (λ d le. ground (arith, a.0)) s.0)))
]

-- Edges of smaller children do not matter.
scan_below :
    (n : ℕ) (cs ps : List ℕ) (child : ℕ)
    → ((i : ℕ) → i < n → get_or cs i 0 < child)
    → n ≤ length cs
    → length cs ≡ length ps
    → scan (drop n cs) (drop n ps) child ≡ scan cs ps child
unfolding scan
scan_below zero cs ps child h le e = refl
scan_below (suc n) [] ps child h le e = absurd (omega arith)
scan_below (suc n) (c ∷ cs) [] child h le e = absurd (omega arith)
scan_below (suc n) (c ∷ cs) (p ∷ ps) child h le e = ground (
  arith,
  h 0 (omega arith),
  scan_below n cs ps child (λ i lt. h (suc i) (omega arith)) (omega arith) (omega arith),
)

Pairwise-drop : (n : ℕ) (xs : List ℕ) → NonDescending xs → NonDescending (drop n xs)
Pairwise-drop zero xs h = h
Pairwise-drop (suc n) [] h = tt
Pairwise-drop (suc n) (x ∷ xs) h = Pairwise-drop n xs h.1

All-drop :
    (n : ℕ) (xs : List ℕ) (child : ℕ)
    → ((i : ℕ) → n ≤ i → i < length xs → child ≤ get_or xs i 0)
    → All (λ c. child ≤ c) (drop n xs)
All-drop (suc n) [] child h = tt
All-drop zero [] child h = tt
All-drop zero (x ∷ xs) child h = (
  h 0 (omega arith) (omega arith),
  All-drop zero xs child (λ i le lt. h (suc i) (omega arith) (omega arith)),
)
All-drop (suc n) (x ∷ xs) child h =
    All-drop n xs child (λ i le lt. h (suc i) (omega arith) (omega arith))

-- On a graph whose edges are sorted by child, the range that the binary search and the loop find
-- holds the parents of all edges with that child, and no other.
pub parents_of-scan :
    (g : GraphTable) (child : ℕ)
    → NonDescending g.children
    → length g.children ≡ length g.parents
    → parents_of g child ≡ scan g.children g.parents child
unfolding parents_of parent_range
parents_of-scan g child sorted same =
    ap (λ k. take k (drop lo g.parents))
      (ap (λ (h : ℕ). h - lo)
          (run_end-run (length g.children + 1) g.children child lo (omega (arith, b.within)))
        ∙ omega arith)
    ∙ scan-run (drop lo g.children) (drop lo g.parents) child (Pairwise-drop lo g.children sorted)
        (All-drop lo g.children child (λ i le lt. ground (arith, b.behind i le lt)))
        (omega (arith, length-drop lo g.children, length-drop lo g.parents))
    ∙ scan_below lo g.children g.parents child (λ i lt. ground (arith, b.before i lt)) b.within same
  where
    lo : ℕ
    lo = partition_point (λ i. ltb (get_or g.children i 0) child) (length g.children)

    b : IsBoundary (λ i. ltb (get_or g.children i 0) child) (length g.children) lo
    b = partition_point-IsBoundary (sorted-IsPartitioned g.children child sorted)
