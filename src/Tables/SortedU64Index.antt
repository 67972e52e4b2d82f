-- ===== src/Tables/SortedU64Index.antt =====
-- src/tables/sorted_u64_index.rs: search in a sorted array of u64 keys.
pub mod Partition
pub mod Lookup
mod Runs
use osmdiffs.Base.{
  ℕ, zero, suc, ◌+◌, ◌-◌, ◌/◌, Bool, ◌&&◌, Option, none, some, List, ltb, leb, ◌==◌, if◌then◌else◌,
  length, get_or,
}

-- The loop of the standard library's `binary_search_by`, with the comparator of `partition_point`
-- (`Less` where the predicate holds, `Greater` elsewhere). `test i` is the predicate at index `i`.
-- The size falls each round, so it is fuel enough.
unfoldable pub narrow : ℕ → (ℕ → Bool) → ℕ → ℕ → ℕ
narrow zero test base size = base
narrow (suc fuel) test base size =
    let half = size / 2 in
    let mid = base + half in
    let rest = narrow fuel test (if test mid then mid else base) (size - half) in
    if leb size 1 then base else rest

-- `slice::partition_point`: the first index at which the predicate fails.
unfoldable pub partition_point : (ℕ → Bool) → ℕ → ℕ
partition_point test len =
    if len == 0
    then 0
    else (let base = narrow len test 0 len in if test base then base + 1 else base)

-- `keys` holds the values after `u64::from_le`.
unfoldable pub search : List ℕ → ℕ → Option ℕ
search keys key =
    let idx = partition_point (λ i. ltb (get_or keys i 0) key) (length keys) in
    if ltb idx (length keys) && (get_or keys idx 0 == key) then some idx else none
