-- ===== src/Matchers/Phones/Bounds.antt =====
-- A phone number that parses has 7 to 15 digits, and is what its digits say.
use native.Mathlib.Nat.{pow-suc, pow-le-pow_right}
use mathlib.Core.Option.{some-injective}
use osmdiffs.Base.{
  ℕ, suc, ◌+◌, ◌-◌, ◌*◌, ◌%◌, ◌^◌, ◌≤◌, ◌<◌, ◌≡◌, ◌≢◌, refl, sym, ap, ◌∙◌, subst, true, false, ◌&&◌,
  some, [], ◌∷◌, arith, leb, ltb, ◌==◌, Bool-cases, Option-cases, ◌⊎◌, inl, inr,
}
use osmdiffs.Base.Search.{and_then, filter}
use osmdiffs.Base.Text.{Text, is_ascii_digit, decimal, strip_prefix, trim}
use osmdiffs.Matchers.Phones.{
  Dialled, no_digits, is_separator, dial, finish, dial_all, parse_phone_number,
}

-- The number has as many digits as are counted, and no more than 15.
abbrev IsDialled : Dialled → Type 0
IsDialled d =
    (d.digits ≤ 15)
    × ((d.number < 10 ^ d.digits) × ((d.digits ≡ 0) ⊎ (10 ^ d.digits ≤ d.number * 10)))

-- What the rest of the text does to the digits so far.
abbrev says : Dialled → Text → ℕ
says d s = decimal (d.number) (filter is_ascii_digit s)

power_step : (k : ℕ) → 10 ^ (k + 1) ≡ 10 ^ k * 10
power_step k = ap (λ j. 10 ^ j) (next k) ∙ pow-suc 10 k
  where
    next : (j : ℕ) → j + 1 ≡ suc j
    next j = omega arith

power_bound : (k : ℕ) → k ≤ 15 → 10 ^ k ≤ 1000000000000000
power_bound k h = pow-le-pow_right {n = 10} (omega arith) h

abbrev press : Dialled → ℕ → Dialled
press d c = record { number = (d.number * 10 + (c - b'0')) % 2 ^ 64; digits = d.digits + 1 }

-- With at most 15 digits nothing wraps around.
number-press :
    (d : Dialled) (c : ℕ)
    → IsDialled d
    → d.digits + 1 ≤ 15
    → c ≤ b'9'
    → ((press d c).number ≡ d.number * 10 + (c - b'0')) × ((press d c).number < 10 ^ (d.digits + 1))
number-press d c (few, (small, shape)) room digit = (
  omega (arith, small, digit, power_step (d.digits), power_bound (d.digits + 1) room),
  omega (arith, small, digit, power_step (d.digits), power_bound (d.digits + 1) room),
)

press-shape :
    (d : Dialled) (c : ℕ)
    → IsDialled d
    → (d.digits ≢ 0) ⊎ (b'0' < c)
    → (press d c).number ≡ d.number * 10 + (c - b'0')
    → 10 ^ (d.digits + 1) ≤ (press d c).number * 10
press-shape d c (few, (small, inr shape)) starts value =
    omega (arith, shape, value, power_step (d.digits))
press-shape d c (few, (small, inl empty)) (inl some_digits) value = absurd (some_digits empty)
press-shape d c (few, (small, inl empty)) (inr positive) value =
    omega (arith, positive, value, power_step (d.digits), ap (λ k. 10 ^ k) empty)

is_ascii_digit-range : (c : ℕ) → is_ascii_digit c ≡ true → (b'0' ≤ c) × (c ≤ b'9')
unfolding is_ascii_digit
is_ascii_digit-range c h = ground (arith, h)

dial-digit :
    (d : Dialled) (c : ℕ) (s : Text)
    → IsDialled d
    → is_ascii_digit c ≡ true
    → ((d.digits == 0) && (c == b'0')) ≡ false
    → ltb 15 (d.digits + 1) ≡ false
    → IsDialled (press d c) × (says d (c ∷ s) ≡ says (press d c) s)
unfolding filter decimal
dial-digit d c s inv digit starts room = (
  (fits, (value.1, inr (press-shape d c inv begins (value.0)))),
  rw digit (ap (λ n. decimal n (filter is_ascii_digit s)) (sym (value.0))),
)
  where
    fits : d.digits + 1 ≤ 15
    fits = ground (arith, room)

    range : (b'0' ≤ c) × (c ≤ b'9')
    range = is_ascii_digit-range c digit

    begins : (d.digits ≢ 0) ⊎ (b'0' < c)
    begins = ground (arith, starts, range)

    value :
        ((press d c).number ≡ d.number * 10 + (c - b'0'))
        × ((press d c).number < 10 ^ (d.digits + 1))
    value = number-press d c inv fits (range.1)

dial-IsDialled :
    (d e : Dialled) (c : ℕ) (s : Text)
    → IsDialled d
    → dial d c ≡ some e
    → IsDialled e × (says d (c ∷ s) ≡ says e s)
dial-IsDialled d e c s inv h = elim (Bool-cases (is_ascii_digit c)) [
  | inl digit ↦ elim (Bool-cases ((d.digits == 0) && (c == b'0'))) [
    | inl zero_first ↦ absurd (unfold dial in ground (arith, h, digit, zero_first))
    | inr starts ↦ elim (Bool-cases (ltb 15 (d.digits + 1))) [
      | inl long ↦ absurd (unfold dial in ground (arith, h, digit, starts, long))
      | inr room ↦
          subst (λ r. IsDialled r × (says d (c ∷ s) ≡ says r s))
            (some-injective (press d c) e (sym (pressed digit starts room) ∙ h))
            (dial-digit d c s inv digit starts room)
    ]
  ]
  | inr other ↦ elim (Bool-cases (is_separator c)) [
    | inl sep ↦
        subst (λ r. IsDialled r × (says d (c ∷ s) ≡ says r s))
          (some-injective d e (sym (skipped other sep) ∙ h)) (inv, unfold filter in rw other refl)
    | inr bad ↦ absurd (unfold dial in ground (arith, h, other, bad))
  ]
]
  where
    pressed :
        is_ascii_digit c ≡ true
        → ((d.digits == 0) && (c == b'0')) ≡ false
        → ltb 15 (d.digits + 1) ≡ false
        → dial d c ≡ some (press d c)
    pressed x y z = unfold dial in rw (x, y, z) refl

    skipped : is_ascii_digit c ≡ false → is_separator c ≡ true → dial d c ≡ some d
    skipped x y = unfold dial in rw (x, y) refl

finish-bounds :
    (d : Dialled) (n : ℕ)
    → IsDialled d
    → finish d ≡ some n
    → ((1000000 ≤ n) × (n < 1000000000000000)) × (n ≡ says d [])
unfolding finish decimal filter
finish-bounds d n (few, (small, shape)) h = elim (Bool-cases (leb 7 (d.digits))) [
  | inr short ↦ absurd (ground (arith, h, short))
  | inl long ↦
      subst (λ r. ((1000000 ≤ r) × (r < 1000000000000000)) × (r ≡ d.number))
        (some-injective (d.number) n (sym (rw long refl) ∙ h))
        (
          (large shape (ground (arith, long)), omega (arith, small, power_bound (d.digits) few)),
          refl,
        )
]
  where
    large : (d.digits ≡ 0) ⊎ (10 ^ d.digits ≤ d.number * 10) → 7 ≤ d.digits → 1000000 ≤ d.number
    large (inl empty) seven = absurd (omega (arith, empty, seven))
    large (inr k) seven = omega (arith, k, pow-le-pow_right {n = 10} (omega arith) seven)

-- Seven to fifteen digits, the first not 0.
dial_all-bounds :
    (d : Dialled) (s : Text) (n : ℕ)
    → IsDialled d
    → dial_all d s ≡ some n
    → ((1000000 ≤ n) × (n < 1000000000000000)) × (n ≡ says d s)
unfolding dial_all and_then
dial_all-bounds d [] n inv h = finish-bounds d n inv h
dial_all-bounds d (c ∷ s) n inv h = elim (Option-cases (dial d c)) [
  | inl e ↦ absurd (ground (arith, h, e))
  | inr (e, at) ↦
      let step = dial-IsDialled d e c s inv at in
      let rest = dial_all-bounds e s n (step.0) (sym (rw at refl) ∙ h) in
      (rest.0, rest.1 ∙ sym (step.1))
]

-- A phone number that parses is from 10^6 to below 10^15, and is the decimal number of all digits
-- after the plus sign, whatever separators stand between them.
pub parse_phone_number-bounds :
    (part : Text) (n : ℕ)
    → parse_phone_number part ≡ some n
    → ((1000000 ≤ n) × (n < 1000000000000000))
      × ((rest : Text) × ((strip_prefix (b'+' ∷ []) (trim part) ≡ some rest)
            × (n ≡ decimal 0 (filter is_ascii_digit rest))))
unfolding parse_phone_number and_then
parse_phone_number-bounds part n h = elim (Option-cases (strip_prefix (b'+' ∷ []) (trim part))) [
  | inl e ↦ absurd (ground (arith, h, e))
  | inr (rest, at) ↦
      let found = dial_all-bounds no_digits rest n start (sym (rw at refl) ∙ h) in
      (found.0, (rest, (at, found.1)))
]
  where
    start : IsDialled no_digits
    start = (omega arith, (omega arith, inl refl))
