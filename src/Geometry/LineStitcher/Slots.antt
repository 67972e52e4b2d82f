-- ===== src/Geometry/LineStitcher/Slots.antt =====
-- The slots of the chains found so far.
use osmdiffs.Base.{
  ℕ, zero, suc, ◌+◌, ◌≤◌, ◌<◌, ◌≡◌, ◌≢◌, refl, ap, Option, none, some, List, [], ◌∷◌, ◌++◌, length,
  arith,
}
use mathlib.Core.Option.{some-injective}
use osmdiffs.Geometry.Coord.{Coord}
use osmdiffs.Geometry.LineStitcher.Segments.{segment_count, segment_total}
use osmdiffs.Geometry.LineStitcher.{Chain, take_slot, occupied}

abbrev pub slot : List (Option Chain) → ℕ → Option Chain
slot [] i = none
slot (s ∷ slots) zero = s
slot (s ∷ slots) (suc i) = slot slots i

-- Taking out an occupied slot succeeds, empties that slot and no other.
pub record Taken (slots : List (Option Chain)) (i : ℕ) (c : Chain) : Type 0 where
  pub rest : List (Option Chain)
  pub taken : take_slot slots i ≡ some (c, rest)
  pub others : (j : ℕ) → j ≢ i → slot rest j ≡ slot slots j
  pub emptied : slot rest i ≡ none
  pub same_length : length rest ≡ length slots
  pub segments :
      (p q : Coord)
      → segment_total p q (occupied rest) + segment_count p q c ≡ segment_total p q (occupied slots)
  pub fewer : length (occupied rest) + 1 ≡ length (occupied slots)

segments-first :
    (p q : Coord) (d c : Chain) (slots : List (Option Chain))
    → d ≡ c
    → segment_total p q (occupied (none ∷ slots)) + segment_count p q c
      ≡ segment_total p q (occupied (some d ∷ slots))
unfolding segment_total
segments-first p q d c slots e = omega (arith, ap (segment_count p q) e)

segments-cons :
    (p q : Coord) (d : Chain) (rest slots : List (Option Chain)) (c : Chain)
    → segment_total p q (occupied rest) + segment_count p q c ≡ segment_total p q (occupied slots)
    → segment_total p q (occupied (some d ∷ rest)) + segment_count p q c
      ≡ segment_total p q (occupied (some d ∷ slots))
unfolding segment_total
segments-cons p q d rest slots c h = omega arith

pub take_slot-Taken :
    (slots : List (Option Chain)) (i : ℕ) (c : Chain) → slot slots i ≡ some c → Taken slots i c
unfolding take_slot
take_slot-Taken [] i c h = cc
take_slot-Taken (none ∷ slots) zero c h = cc
take_slot-Taken (some d ∷ slots) zero c h = record {
  rest = none ∷ slots;
  taken = cc;
  others = elim [ zero ↦ λ ne. absurd (ne refl) | suc j ↦ λ ne. refl ];
  emptied = refl;
  same_length = refl;
  segments = λ p q. segments-first p q d c slots (some-injective d c h);
  fewer = omega arith;
}
take_slot-Taken (none ∷ slots) (suc i) c h =
    let t = take_slot-Taken slots i c h in
    record {
      rest = none ∷ t.rest;
      taken = rw t.taken;
      others = elim [ zero ↦ λ ne. refl | suc j ↦ λ ne. t.others j (λ e. ne (ap suc e)) ];
      emptied = t.emptied;
      same_length = ap suc t.same_length;
      segments = t.segments;
      fewer = t.fewer;
    }
take_slot-Taken (some d ∷ slots) (suc i) c h =
    let t = take_slot-Taken slots i c h in
    record {
      rest = some d ∷ t.rest;
      taken = rw t.taken;
      others = elim [ zero ↦ λ ne. refl | suc j ↦ λ ne. t.others j (λ e. ne (ap suc e)) ];
      emptied = t.emptied;
      same_length = ap suc t.same_length;
      segments = λ p q. segments-cons p q d t.rest slots c (t.segments p q);
      fewer = omega (arith, t.fewer);
    }

pub slot-append_old :
    (slots : List (Option Chain)) (c : Chain) (j : ℕ)
    → j < length slots
    → slot (slots ++ (some c ∷ [])) j ≡ slot slots j
slot-append_old [] c j h = absurd (omega arith)
slot-append_old (s ∷ slots) c zero h = refl
slot-append_old (s ∷ slots) c (suc j) h = slot-append_old slots c j (omega arith)

pub slot-append_new :
    (slots : List (Option Chain)) (c : Chain)
    → slot (slots ++ (some c ∷ [])) (length slots) ≡ some c
slot-append_new [] c = refl
slot-append_new (s ∷ slots) c = slot-append_new slots c

-- An occupied slot is there.
pub slot-lt :
    (slots : List (Option Chain)) (j : ℕ) (c : Chain) → slot slots j ≡ some c → j < length slots
slot-lt [] j c h = cc
slot-lt (s ∷ slots) zero c h = omega arith
slot-lt (s ∷ slots) (suc j) c h = omega (arith, slot-lt slots j c h)

pub occupied-append :
    (slots : List (Option Chain)) (c : Chain)
    → occupied (slots ++ (some c ∷ [])) ≡ occupied slots ++ (c ∷ [])
occupied-append [] c = refl
occupied-append (none ∷ slots) c = occupied-append slots c
occupied-append (some d ∷ slots) c = ap (λ r. d ∷ r) (occupied-append slots c)

pub occupied-le-length : (slots : List (Option Chain)) → length (occupied slots) ≤ length slots
occupied-le-length [] = omega arith
occupied-le-length (none ∷ slots) = omega (arith, occupied-le-length slots)
occupied-le-length (some c ∷ slots) = omega (arith, occupied-le-length slots)
