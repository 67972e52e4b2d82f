-- ===== src/Geometry/LineStitcher/Maximal.antt =====
-- After a round of stitching no two chains can be joined any more.
use osmdiffs.Base.{
  ℕ, suc, ◌+◌, ◌==◌, ==_iff, ◌&&◌, ◌<◌, ◌≡◌, ◌≢◌, true, if◌then◌else◌, Option-cases, refl, sym, ap,
  ◌∙◌, false, Option, none, some, List, [], ◌∷◌, length, arith, Bool-cases, inl, inr,
}
use mathlib.Core.Option.{some-injective}
use osmdiffs.Base.Predicates.{All, Pairwise}
use osmdiffs.Geometry.Coord.{Coord, FloatEq, KeyMap, get, insert, key_eq, key_eq_iff, get-insert}
use osmdiffs.Geometry.LineStitcher.{
  Chain, ChainEnd, first, last, end_coord, Stitch, is_joint, occupied, count_end, degrees,
  stitch_round,
}
use osmdiffs.Geometry.LineStitcher.Slots.{slot}
use osmdiffs.Geometry.LineStitcher.Completeness.{IsOpen, IsDone}
use osmdiffs.Geometry.LineStitcher.Stitching.{
  degrees-some, add_chains-keeps, start, start-IsIndexed, start-IsDone,
}

-- How many of the two ends of each line are at a node.
abbrev pub end_at : Coord → Option Coord → ℕ
end_at k none = 0
end_at k (some j) = if (j.x_bits == k.x_bits) && (j.y_bits == k.y_bits) then 1 else 0

abbrev pub line_ends : Coord → List Chain → ℕ
line_ends k [] = 0
line_ends k (line ∷ lines) = end_at k (first line) + end_at k (last line) + line_ends k lines

-- No node that exactly two line ends touch is an end of both chains, unless one of them is a loop.
abbrev pub Apart : FloatEq → List Chain → Chain → Chain → Type 0
Apart feq lines c d =
    (k : Coord) (e e' : ChainEnd)
    → IsOpen feq c
    → IsOpen feq d
    → end_coord c e ≡ some k
    → end_coord d e' ≡ some k
    → line_ends k lines ≢ 2

-- What the map counts at a node.
abbrev count : Option ℕ → ℕ
count none = 0
count (some n) = n

get-count_end :
    (k j : Coord) (m : KeyMap ℕ)
    → get k (count_end j m) ≡ (if key_eq j k then some (count (get j m) + 1) else get k m)
unfolding count_end
get-count_end k j m = of (get j m)
  where
    of :
        (o : Option ℕ)
        → get k (elim o [ none ↦ insert j 1 m | some n ↦ insert j (n + 1) m ])
          ≡ (if key_eq j k then some (count o + 1) else get k m)
    of none = get-insert j k 1 m
    of (some n) = get-insert j k (n + 1) m

count-count_end :
    (k j : Coord) (m : KeyMap ℕ)
    → count (get k (count_end j m)) ≡ end_at k (some j) + count (get k m)
unfolding key_eq
count-count_end k j m = elim (Bool-cases (key_eq j k)) [
  | inl t ↦
      ap count (rw t at (get-count_end k j m))
      ∙ rw t (omega (arith, ap (λ c. count (get c m)) ((key_eq_iff j k).0 t)))
  | inr f ↦ ap count (rw f at (get-count_end k j m)) ∙ rw f (omega arith)
]

-- The first pass counts the line ends at each node.
count-degrees :
    (k : Coord) (lines : List Chain) (m degree : KeyMap ℕ)
    → degrees lines m ≡ some degree
    → count (get k degree) ≡ line_ends k lines + count (get k m)
unfolding degrees
count-degrees k [] m degree h =
    omega (arith, ap (λ d. count (get k d)) (sym (some-injective m degree h)))
count-degrees k (line ∷ lines) m degree h = elim (Option-cases (first line)) [
  | inl e ↦ absurd (cc (rw e at h))
  | inr (f, ef) ↦ elim (Option-cases (last line)) [
    | inl e ↦ absurd (cc (rw (ef, e) at h))
    | inr (b, eb) ↦
        rw (ef, eb)
          (omega (
            arith,
            count-degrees k lines (count_end b (count_end f m)) degree (rw (ef, eb) at h),
            count-count_end k b (count_end f m),
            count-count_end k f m,
          ))
  ]
]

joint_at_two : (k : Coord) (degree : KeyMap ℕ) → count (get k degree) ≡ 2 → is_joint degree k ≡ true
unfolding is_joint
joint_at_two k degree h = of (get k degree) h
  where
    of : (o : Option ℕ) → count o ≡ 2 → elim o [ none ↦ false | some n ↦ n == 2 ] ≡ true
    of none e = absurd (omega (arith, e))
    of (some n) e = (==_iff n 2).1 e

occupied-All :
    (P : Chain → Type 0) (slots : List (Option Chain))
    → ((i : ℕ) (c : Chain) → slot slots i ≡ some c → P c)
    → All P (occupied slots)
occupied-All P [] h = tt
occupied-All P (none ∷ slots) h = occupied-All P slots (λ i c s. h (suc i) c s)
occupied-All P (some c ∷ slots) h = (h 0 c refl, occupied-All P slots (λ i c s. h (suc i) c s))

occupied-Pairwise :
    (R : Chain → Chain → Type 0) (slots : List (Option Chain))
    → ((i j : ℕ) (c d : Chain) → i < j → slot slots i ≡ some c → slot slots j ≡ some d → R c d)
    → Pairwise R (occupied slots)
occupied-Pairwise R [] h = tt
occupied-Pairwise R (none ∷ slots) h =
    occupied-Pairwise R slots (λ i j c d lt. h (suc i) (suc j) c d (omega arith))
occupied-Pairwise R (some c ∷ slots) h = (
  occupied-All (R c) slots (λ j d s. h 0 (suc j) c d (omega arith) refl s),
  occupied-Pairwise R slots (λ i j c d lt. h (suc i) (suc j) c d (omega arith)),
)

module _ (feq : FloatEq) (degree : KeyMap ℕ) where
  done-loose :
      (st : Stitch) (i j : ℕ) (c d : Chain)
      → IsDone feq degree st
      → i < j
      → slot st.chains i ≡ some c
      → slot st.chains j ≡ some d
      → (k : Coord) (e e' : ChainEnd) → IsOpen feq c
      → IsOpen feq d
      → end_coord c e ≡ some k
      → end_coord d e' ≡ some k
      → is_joint degree k ≡ false
  done-loose st i j c d done lt sc sd k e e' oc od hc hd = elim (Bool-cases (is_joint degree k)) [
    | inr loose ↦ loose
    | inl joint ↦
        let (x, gx) = done.listed i c e k sc oc hc joint in
        let (y, gy) = done.listed j d e' k sd od hd joint in
        let same : i ≡ j =
          ap (λ (z : ℕ × ChainEnd). z.0) (some-injective (i, x) (j, y) (sym gx ∙ gy)) in
        absurd (omega arith)
  ]

-- A round of stitching of nonempty lines ends without a panic, and of the chains that come out no
-- two open ones end at one node that exactly two line ends of the input touch.
pub stitch_round-Apart :
    (feq : FloatEq) (lines : List Chain)
    → All (λ c. 0 < length c) lines
    → (chains : List Chain) × (stitch_round feq lines ≡ some chains)
      × Pairwise (Apart feq lines) chains
unfolding stitch_round
stitch_round-Apart feq lines h =
    let (degree, ed) = degrees-some lines [] h in
    let (st, es, done, t) =
      add_chains-keeps feq degree start lines start-IsIndexed (start-IsDone feq degree) h in
    (
      occupied st.chains,
      rw (ed, es),
      occupied-Pairwise (Apart feq lines) st.chains (λ i j c d lt sc sd k e e' oc od hc hd two.
          absurd (
            cc (
              joint_at_two k degree
                  (omega (arith, two, count-degrees k lines [] degree ed, nothing k)),
              done-loose feq degree st i j c d done lt sc sd k e e' oc od hc hd,
            ))),
    )
  where
    nothing : (k : Coord) → count (get k []) ≡ 0
    nothing k = unfold get in refl
