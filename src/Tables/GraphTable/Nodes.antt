-- ===== src/Tables/GraphTable/Nodes.antt =====
-- src/tables/graph.rs: `node_count`.
use osmdiffs.Base.{ℕ, ◌+◌, Option, none, some, List, [], ◌∷◌, ◌++◌, ◌==◌, if◌then◌else◌, length}
use osmdiffs.Base.Distinct.{contains}
use osmdiffs.Tables.GraphTable.{GraphTable}

-- `parents.insert(parent)` and `parents.remove(&child)` on a `HashSet<u64>`.
unfoldable pub insert_all : List ℕ → List ℕ → List ℕ
insert_all set [] = set
insert_all set (p ∷ ps) = insert_all (if contains set p then set else set ++ (p ∷ [])) ps

unfoldable pub remove : List ℕ → ℕ → List ℕ
remove [] n = []
remove (m ∷ ms) n = let rest = remove ms n in if m == n then rest else m ∷ rest

-- The loop over the children: `prev`, `distinct_children` and `parents`.
unfoldable pub count_children : Option ℕ → ℕ → List ℕ → List ℕ → ℕ × List ℕ
count_children prev distinct parents [] = (distinct, parents)
count_children none distinct parents (c ∷ cs) =
    count_children (some c) (distinct + 1) (remove parents c) cs
count_children (some b) distinct parents (c ∷ cs) =
    let same = count_children (some b) distinct parents cs in
    let next = count_children (some c) (distinct + 1) (remove parents c) cs in
    if b == c then same else next

-- `GraphTable::node_count`
unfoldable pub node_count : GraphTable → ℕ
node_count g =
    let (distinct_children, parents) = count_children none 0 (insert_all [] g.parents) g.children in
    distinct_children + length parents
