-- ===== src/Tables/GraphTable.antt =====
-- src/tables/graph.rs: the graph of edges from child to parent, and its traversals.
pub mod Ranges
pub mod Ancestors
mod Nodes
pub mod Counting
pub mod File
mod Written
pub mod Stored
mod Runs
use osmdiffs.Base.{
  ℕ, zero, suc, ◌+◌, ◌-◌, Bool, true, false, not, ◌&&◌, ◌||◌, Option, none, some, List, [], ◌∷◌,
  ◌++◌, ltb, ◌==◌, if◌then◌else◌, length, get_or, replicate, drop,
}
use osmdiffs.Base.Distinct.{contains}
use osmdiffs.Base.Slice.{slice}
use osmdiffs.Tables.SortedU64Index.{partition_point}

-- The two columns of the edge list, after `u64::from_le`.
pub record GraphTable : Type 0 where
  pub children : List ℕ
  pub parents : List ℕ

abbrev pub edge_count : GraphTable → ℕ
edge_count g = length g.children

-- `while hi < self.children.len() && self.child_at(hi) == child { hi += 1 }`; an index passes the
-- end of the array before the fuel is used up.
unfoldable pub run_end : ℕ → List ℕ → ℕ → ℕ → ℕ
run_end zero children child hi = hi
run_end (suc fuel) children child hi =
    let rest = run_end fuel children child (hi + 1) in
    if ltb hi (length children) && (get_or children hi 0 == child) then rest else hi

-- `GraphTable::parent_range`
unfoldable pub parent_range : GraphTable → ℕ → ℕ × ℕ
parent_range g child =
    let lo = partition_point (λ i. ltb (get_or g.children i 0) child) (length g.children) in
    (lo, run_end (length g.children + 1) g.children child lo)

-- The parents that the iterators read at the indices of the range.
unfoldable pub parents_of : GraphTable → ℕ → List ℕ
parents_of g child = let (lo, hi) = parent_range g child in slice g.parents lo (hi - lo)

-- `visited` is a `HashSet<u64>`, here the list of its elements in the order of their insertion.
pub record AncestorIter : Type 0 where
  pub queue : List ℕ
  pub visited : List ℕ

-- The loop of `AncestorIter::next` over the parents of a node.
unfoldable pub visit_parents : List ℕ → AncestorIter → AncestorIter
visit_parents [] it = it
visit_parents (p ∷ ps) it = visit_parents ps (
    if contains it.visited p
    then it
    else record { queue = it.queue ++ (p ∷ []); visited = it.visited ++ (p ∷ []) })

-- `AncestorIter::next`
unfoldable pub next_ancestor : GraphTable → AncestorIter → Option (ℕ × AncestorIter)
next_ancestor g it = elim it.queue [
  | [] ↦ none
  | child ∷ rest ↦ some (child, visit_parents (parents_of g child) (record it { queue = rest }))
]

-- What the iterator yields until it ends; `none` if the fuel runs out before.
unfoldable pub collect : ℕ → GraphTable → AncestorIter → Option (List ℕ)
collect zero g it = none
collect (suc fuel) g it = elim (next_ancestor g it) [
  | none ↦ some []
  | some (n, it') ↦ elim (collect fuel g it') [ none ↦ none | some ns ↦ some (n ∷ ns) ]
]

-- `GraphTable::ancestors`: every node but the first is a parent in some edge, so the edges bound
-- the rounds.
unfoldable pub ancestors : GraphTable → ℕ → Option (List ℕ)
ancestors g start =
    collect (length g.parents + 2) g (record { queue = start ∷ []; visited = start ∷ [] })
