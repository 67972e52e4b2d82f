-- ===== src/Geometry/LineStitcher.antt =====
-- src/geometry/line_stitcher.rs: joining lines at shared endpoints.
mod Slots
mod Segments
mod Invariant
pub mod Stitching
mod Completeness
pub mod Maximal
mod Runs
use osmdiffs.Base.{
  ℕ, zero, suc, ◌+◌, Bool, true, false, not, Option, none, some, List, [], ◌∷◌, ◌++◌, ltb, ◌==◌,
  ◌&&◌, if◌then◌else◌, length,
}
use osmdiffs.Geometry.Coord.{Coord, FloatEq, KeyMap, get, remove, insert}
use mathlib.Core.List.{reverse}

-- A stored line: a `VecDeque` of coordinates.
abbrev pub Chain : Type 0
Chain = List Coord

pub data ChainEnd : Type 0 where
  front back : ChainEnd

-- `none` is a panic: an index out of bounds, a failed `unwrap` or `expect`; or fuel that ran out.
infixl 5 ◌>>=◌
abbrev pub ◌>>=◌ : {A B : Type 0} → Option A → (A → Option B) → Option B
none >>= f = none
some a >>= f = f a

-- `chain[0]` and `chain.back().unwrap()`
abbrev pub first : Chain → Option Coord
first [] = none
first (c ∷ cs) = some c

abbrev pub last : Chain → Option Coord
last [] = none
last (c ∷ []) = some c
last (c ∷ d ∷ cs) = last (d ∷ cs)

abbrev pub end_coord : Chain → ChainEnd → Option Coord
end_coord chain front = first chain
end_coord chain back = last chain

abbrev pub opposite : ChainEnd → ChainEnd
opposite front = back
opposite back = front

-- The degree of each node, the chains found so far (a slot is emptied when its chain is merged into
-- another), and which chain's end stands at a node.
pub record Stitch : Type 0 where
  pub chains : List (Option Chain)
  pub endpoint_index : KeyMap (ℕ × ChainEnd)

-- `*degree.entry(key).or_insert(0) += 1`
unfoldable pub count_end : Coord → KeyMap ℕ → KeyMap ℕ
count_end k m = elim (get k m) [ none ↦ insert k 1 m | some n ↦ insert k (n + 1) m ]

unfoldable pub degrees : List Chain → KeyMap ℕ → Option (KeyMap ℕ)
degrees [] m = some m
degrees (line ∷ lines) m = do
  f ← first line
  b ← last line
  degrees lines (count_end b (count_end f m))

-- `degree.get(&key) == Some(&2)`
unfoldable pub is_joint : KeyMap ℕ → Coord → Bool
is_joint degree k = elim (get k degree) [ none ↦ false | some n ↦ n == 2 ]

-- `chains[idx].take().expect(…)`
unfoldable pub take_slot : List (Option Chain) → ℕ → Option (Chain × List (Option Chain))
take_slot [] i = none
take_slot (none ∷ slots) zero = none
take_slot (some c ∷ slots) zero = some (c, none ∷ slots)
take_slot (s ∷ slots) (suc i) = do (c, rest) ← take_slot slots i; some (c, s ∷ rest)

abbrev pub reverse_at : ChainEnd → Chain → Chain
reverse_at front c = reverse c
reverse_at back c = c

abbrev pub pop_front : Chain → Chain
pop_front [] = []
pop_front (c ∷ cs) = cs

-- The existing chain comes to end where the new one, turned to begin there, goes on.
unfoldable pub merge_chains : Chain → ChainEnd → Chain → ChainEnd → Chain
merge_chains existing existing_end new_chain new_end =
    reverse_at existing_end existing ++ pop_front (reverse_at (opposite new_end) new_chain)

unfoldable pub remove_remaining_endpoint :
    KeyMap (ℕ × ChainEnd) → Chain → ChainEnd → Option (KeyMap (ℕ × ChainEnd))
remove_remaining_endpoint index other consumed_end = do
  coord ← end_coord other (opposite consumed_end)
  some (remove coord index)

module _ (feq : FloatEq) (degree : KeyMap ℕ) where
  unfoldable pub insert_chain : Stitch → Chain → Option Stitch
  insert_chain st chain = do
    f ← first chain
    b ← last chain
    let closed = ltb 1 (length chain) && feq f b
    let idx = length st.chains
    let with_front =
        if not closed && is_joint degree f
        then insert f (idx, front) st.endpoint_index
        else st.endpoint_index
    let with_back =
        if not closed && is_joint degree b then insert b (idx, back) with_front else with_front
    some (record { chains = st.chains ++ (some chain ∷ []); endpoint_index = with_back })

  -- `degree.get(key) == Some(&2) && let Some(found) = endpoint_index.get(key)`
  unfoldable pub partner : Stitch → Coord → Option (ℕ × ChainEnd)
  partner st k = if is_joint degree k then get k st.endpoint_index else none

  -- The chain at slot `idx` is taken out, and `chain` is joined to it at the node `k`.
  unfoldable pub absorb : Stitch → Coord → ℕ × ChainEnd → Chain → ChainEnd → Option (Stitch × Chain)
  absorb st k (idx, end) chain new_end = do
    (other, slots) ← take_slot st.chains idx
    index ← remove_remaining_endpoint (remove k st.endpoint_index) other end
    some (record { chains = slots; endpoint_index = index }, merge_chains other end chain new_end)

  unfoldable pub add_chain : ℕ → Stitch → Chain → Option Stitch
  add_chain zero st chain = none
  add_chain (suc fuel) st chain = do
    f ← first chain
    b ← last chain
    let at_front =
        λ (p : ℕ × ChainEnd). absorb st f p chain front >>= λ (st', c). add_chain fuel st' c
    let at_back =
        λ (p : ℕ × ChainEnd). absorb st b p chain back >>= λ (st', c). add_chain fuel st' c
    let open_ended : Option Stitch = elim (partner st f) [
      | some p ↦ at_front p
      | none ↦ elim (partner st b) [ some p ↦ at_back p | none ↦ insert_chain st chain ]
    ]
    if ltb 1 (length chain) && feq f b then insert_chain st chain else open_ended

  -- A merge empties a slot, so one round more than there are slots is enough.
  unfoldable pub add_chains : Stitch → List Chain → Option Stitch
  add_chains st [] = some st
  add_chains st (line ∷ lines) =
      add_chain (length st.chains + 1) st line >>= λ st'. add_chains st' lines

abbrev pub occupied : List (Option Chain) → List Chain
occupied [] = []
occupied (none ∷ slots) = occupied slots
occupied (some c ∷ slots) = c ∷ occupied slots

unfoldable pub stitch_round : FloatEq → List Chain → Option (List Chain)
stitch_round feq lines = do
  degree ← degrees lines []
  st ← add_chains feq degree (record { chains = []; endpoint_index = [] }) lines
  some (occupied st.chains)
