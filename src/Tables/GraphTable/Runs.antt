-- ===== src/Tables/GraphTable/Runs.antt =====
-- Concrete runs on a graph.
use osmdiffs.Tables.GraphTable.Nodes.{node_count}
use osmdiffs.Tables.GraphTable.Counting.{node_count-length}
use osmdiffs.Base.{ltb, leb, ◌==◌, ◌&&◌, ◌||◌, Bool, true, false, Bool-cases, inl, inr, length}
use osmdiffs.Tables.Format.{ok}
use osmdiffs.Tables.Sorting.{ExternalSorter}
use osmdiffs.Tables.Sorting.Insertion.{insertion_sorter}
use osmdiffs.Tables.SortedU64Index.Lookup.{NonDescending}
use osmdiffs.Tables.GraphTable.File.{Edge, EdgeLe, create}
use osmdiffs.Tables.GraphTable.Stored.{create-parents_of}
use osmdiffs.Base.{ℕ, ◌≡◌, ◌↔◌, refl, some, List, [], ◌∷◌, arith}
use osmdiffs.Base.Distinct.{Distinct, contains}
use osmdiffs.Tables.SortedU64Index.{partition_point, narrow}
use osmdiffs.Tables.GraphTable.{
  GraphTable, parent_range, run_end, parents_of, ancestors, collect, next_ancestor, visit_parents,
}
use osmdiffs.Tables.GraphTable.Ranges.{scan, parents_of-scan}
use osmdiffs.Tables.GraphTable.Ancestors.{Reach, ancestors-Reach}
use osmdiffs.Base.Predicates.{IsIn}

-- A diamond with a cycle: 1 is in 2 and 3, both are in 4, and 4 is in 2.
abbrev diamond : GraphTable
diamond = record { children = 1 ∷ 1 ∷ 2 ∷ 3 ∷ 4 ∷ []; parents = 2 ∷ 3 ∷ 4 ∷ 4 ∷ 2 ∷ [] }

above_one : ancestors diamond 1 ≡ some (1 ∷ 2 ∷ 3 ∷ 4 ∷ [])
unfolding ancestors collect next_ancestor visit_parents contains parents_of parent_range run_end
    partition_point narrow
above_one = refl

parents_of-scan_example : parents_of diamond 1 ≡ scan diamond.children diamond.parents 1
parents_of-scan_example = parents_of-scan diamond 1 (omega arith) refl

ancestors-Reach_example :
    (ns : List ℕ) × (ancestors diamond 1 ≡ some ns)
    × Distinct ns
    × ((n : ℕ) → IsIn n ns ↔ Reach diamond 1 n)
ancestors-Reach_example = ancestors-Reach diamond 1 (omega arith) refl

leq : Edge → Edge → Bool
leq a b = ltb a.0 b.0 || (a.0 == b.0 && leb a.1 b.1)

leq→EdgeLe : (a b : Edge) → leq a b ≡ true → EdgeLe a b
unfolding leq
leq→EdgeLe a b h = elim (Bool-cases (ltb a.0 b.0)) [
  | inl less ↦ inl (ground arith)
  | inr more ↦ inr (ground arith, ground arith)
]

leq_false→EdgeLe : (a b : Edge) → leq a b ≡ false → EdgeLe b a
unfolding leq
leq_false→EdgeLe a b h = elim (Bool-cases (ltb b.0 a.0)) [
  | inl less ↦ inl (ground arith)
  | inr more ↦ inr (ground arith, ground arith)
]

EdgeLe-trans : (a b c : Edge) → EdgeLe a b → EdgeLe b c → EdgeLe a c
EdgeLe-trans a b c (inl p) (inl q) = inl (omega arith)
EdgeLe-trans a b c (inl p) (inr q) = inl (omega (arith, q.0))
EdgeLe-trans a b c (inr p) (inl q) = inl (omega (arith, p.0))
EdgeLe-trans a b c (inr p) (inr q) = inr (omega (arith, p.0, q.0), omega (arith, p.1, q.1))

sorter : ExternalSorter Edge EdgeLe
sorter = insertion_sorter leq leq→EdgeLe leq_false→EdgeLe EdgeLe-trans

abbrev edges : List Edge
edges = (2, 4) ∷ (1, 3) ∷ (1, 2) ∷ []

create-parents_of_example :
    (g : GraphTable) × (create sorter edges ≡ ok g)
    × NonDescending g.children
    × (length g.children ≡ length g.parents)
    × ((c p : ℕ) → IsIn p (parents_of g c) ↔ IsIn (c, p) edges)
create-parents_of_example = create-parents_of sorter edges (omega arith) (omega arith)

-- 1 is in 2, and 2 is in 3.
abbrev chain : GraphTable
chain = record { children = 1 ∷ 2 ∷ []; parents = 2 ∷ 3 ∷ [] }

node_count-length_example : node_count chain ≡ 3
node_count-length_example =
    node_count-length chain (1 ∷ 2 ∷ 3 ∷ []) (omega arith) (grind arith)
      (λ n. (λ h. grind arith, λ h. grind arith))
