-- ===== src/Geometry/LineStitcher/Segments.antt =====
-- The undirected segments of chains, and how merging two chains keeps them.
use osmdiffs.Base.{
  ℕ, ◌+◌, ◌≡◌, refl, ap, ◌∙◌, ◌&&◌, ◌||◌, some, List, [], ◌∷◌, ◌++◌, append_assoc, if◌then◌else◌,
  arith, length, length-append, ◌<◌,
}
use osmdiffs.Geometry.Coord.{Coord, key_eq}
use osmdiffs.Geometry.LineStitcher.{
  Chain, ChainEnd, front, back, last, end_coord, opposite, merge_chains, reverse_at, pop_front,
}
use mathlib.Core.Option.{some-injective}
use mathlib.Core.List.{reverse, reverse-append}

-- Whether the segment from `x` to `y` joins `p` and `q`, in either direction.
abbrev pub joins : Coord → Coord → Coord → Coord → ℕ
joins p q x y = if (key_eq p x && key_eq q y) || (key_eq p y && key_eq q x) then 1 else 0

-- How often a chain runs between `p` and `q`.
unfoldable pub segment_count : Coord → Coord → Chain → ℕ
segment_count p q [] = 0
segment_count p q (x ∷ []) = 0
segment_count p q (x ∷ y ∷ cs) = joins p q x y + segment_count p q (y ∷ cs)

unfoldable pub segment_total : Coord → Coord → List Chain → ℕ
segment_total p q [] = 0
segment_total p q (c ∷ cs) = segment_count p q c + segment_total p q cs

module _ (p q : Coord) where
  joins_comm : (x y : Coord) → joins p q x y ≡ joins p q y x
  joins_comm x y = ground arith

  count-glue :
      (a : Chain) (m : Coord) (b : Chain)
      → segment_count p q (a ++ (m ∷ b))
        ≡ segment_count p q (a ++ (m ∷ [])) + segment_count p q (m ∷ b)
  unfolding segment_count
  count-glue [] m b = omega arith
  count-glue (x ∷ []) m b = omega arith
  count-glue (x ∷ y ∷ a) m b = omega (arith, count-glue (y ∷ a) m b)

  count-snoc2 :
      (a : Chain) (y x : Coord)
      → segment_count p q ((a ++ (y ∷ [])) ++ (x ∷ []))
        ≡ segment_count p q (a ++ (y ∷ [])) + joins p q y x
  unfolding segment_count
  count-snoc2 a y x =
      ap (segment_count p q) (append_assoc a (y ∷ []) (x ∷ []))
      ∙ omega (arith, count-glue a y (x ∷ []))

  count-cons2 :
      (x y : Coord) (c : Chain)
      → segment_count p q (x ∷ y ∷ c) ≡ joins p q x y + segment_count p q (y ∷ c)
  unfolding segment_count
  count-cons2 x y c = refl

  pub count-reverse : (c : Chain) → segment_count p q (reverse c) ≡ segment_count p q c
  count-reverse [] = refl
  count-reverse (x ∷ []) = refl
  count-reverse (x ∷ y ∷ c) =
      ap (segment_count p q) (reverse-append (x ∷ []) (y ∷ c))
      ∙ ap (λ r. segment_count p q (r ++ (x ∷ []))) (reverse-append (y ∷ []) c)
      ∙ count-snoc2 (reverse c) y x
      ∙ omega (
        arith,
        ap (segment_count p q) (reverse-append (y ∷ []) c),
        count-reverse (y ∷ c),
        joins_comm x y,
        count-cons2 x y c,
      )

  count-reverse_at :
      (e : ChainEnd) (c : Chain) → segment_count p q (reverse_at e c) ≡ segment_count p q c
  count-reverse_at front c = count-reverse c
  count-reverse_at back c = refl

pub last-snoc : (c : Chain) (k : Coord) → last c ≡ some k → (a : Chain) × (c ≡ a ++ (k ∷ []))
last-snoc [] k h = cc
last-snoc (x ∷ []) k h = ([], cc)
last-snoc (x ∷ y ∷ c) k h = let (a, e) = last-snoc (y ∷ c) k h in (x ∷ a, ap (λ r. x ∷ r) e)

-- Turned so that the end `e` comes last, a chain ends with the coordinate at `e` …
ends_with :
    (e : ChainEnd) (c : Chain) (k : Coord)
    → end_coord c e ≡ some k
    → (a : Chain) × (reverse_at e c ≡ a ++ (k ∷ []))
ends_with front [] k h = cc
ends_with front (x ∷ c) k h =
    (reverse c, reverse-append (x ∷ []) c ∙ ap (λ z. reverse c ++ (z ∷ [])) (some-injective x k h))
ends_with back c k h = last-snoc c k h

-- … and turned the other way it begins with that coordinate.
begins_with :
    (e : ChainEnd) (c : Chain) (k : Coord)
    → end_coord c e ≡ some k
    → (b : Chain) × (reverse_at (opposite e) c ≡ k ∷ b)
begins_with front [] k h = cc
begins_with front (x ∷ c) k h = (c, ap (λ z. z ∷ c) (some-injective x k h))
begins_with back c k h =
    let (a, e) = last-snoc c k h in (reverse a, ap reverse e ∙ reverse-append a (k ∷ []))

-- Two chains that meet at `k` merge into one with the segments of both.
pub count-merge_chains :
    (p q : Coord) (other : Chain) (end : ChainEnd) (chain : Chain) (new_end : ChainEnd) (k : Coord)
    → end_coord other end ≡ some k
    → end_coord chain new_end ≡ some k
    → segment_count p q (merge_chains other end chain new_end)
      ≡ segment_count p q other + segment_count p q chain
unfolding merge_chains
count-merge_chains p q other end chain new_end k ho hc =
    let (a, ea) = ends_with end other k ho in
    let (b, eb) = begins_with new_end chain k hc in
    ap (λ r. segment_count p q (reverse_at end other ++ pop_front r)) eb
    ∙ ap (λ r. segment_count p q (r ++ b)) ea
    ∙ ap (segment_count p q) (append_assoc a (k ∷ []) b)
    ∙ omega (
      arith,
      count-glue p q a k b,
      ap (segment_count p q) ea,
      ap (segment_count p q) eb,
      count-reverse_at p q end other,
      count-reverse_at p q (opposite new_end) chain,
    )

pub length-merge_chains :
    (other : Chain) (end : ChainEnd) (chain : Chain) (new_end : ChainEnd) (k : Coord)
    → end_coord other end ≡ some k
    → 0 < length (merge_chains other end chain new_end)
unfolding merge_chains
length-merge_chains other end chain new_end k h =
    let (a, e) = ends_with end other k h in
    omega (
      arith,
      length-append (reverse_at end other) (pop_front (reverse_at (opposite new_end) chain)),
      ap length e,
      length-append a (k ∷ []),
    )

pub segment_total-append :
    (p q : Coord) (xs ys : List Chain)
    → segment_total p q (xs ++ ys) ≡ segment_total p q xs + segment_total p q ys
unfolding segment_total
segment_total-append p q [] ys = omega arith
segment_total-append p q (x ∷ xs) ys = omega (arith, segment_total-append p q xs ys)

-- A chain of one coordinate at least has both ends.
pub end_coord-some :
    (c : Chain) (e : ChainEnd) → 0 < length c → (k : Coord) × (end_coord c e ≡ some k)
end_coord-some [] e h = absurd (omega arith)
end_coord-some (x ∷ c) front h = (x, refl)
end_coord-some (x ∷ []) back h = (x, refl)
end_coord-some (x ∷ y ∷ c) back h = end_coord-some (y ∷ c) back (omega arith)

pub length_of_end_coord :
    (c : Chain) (e : ChainEnd) (k : Coord) → end_coord c e ≡ some k → 0 < length c
length_of_end_coord [] front k h = cc
length_of_end_coord [] back k h = cc
length_of_end_coord (x ∷ c) e k h = omega arith
