-- ===== src/Matchers/Transit/Codes.antt =====
-- The fields of IFOPT ids, and the UIC codes that Swiss ids give.
use mathlib.Core.Option.{some-injective}
use osmdiffs.Base.{
  min, ◌+◌, ◌⊎◌, ℕ, zero, suc, ◌-◌, ◌≤◌, ◌≡◌, refl, sym, ap, subst, ◌∙◌, Bool, true, not, ◌&&◌,
  ◌||◌, some, [], ◌∷◌, ◌++◌, arith, ◌==◌, ltb, length, length-append, length-replicate, replicate,
  Bool-cases, inl, inr, if◌then◌else◌, Option-cases,
}
use osmdiffs.Base.Search.{all, and_then}
use osmdiffs.Base.Text.{Text, chars, starts_with, is_empty, is_ascii_digit, before, strip_prefix}
use osmdiffs.Matchers.Transit.Identifiers.{
  swiss_prefix, uic_code, uic_of_number, swiss_uic, cut_fields, count_colons, stop_fields,
  ifopt_stop,
}

-- Where the text is cut: at its end, or before a colon.
abbrev pub StartsAtColon : Text → Type 0
StartsAtColon [] = Unit
StartsAtColon (c ∷ s) = c ≡ b':'

cut_fields-append :
    (n : ℕ) (s : Text)
    → ((cut_fields n s).0 ++ (cut_fields n s).1 ≡ s) × StartsAtColon ((cut_fields n s).1)
unfolding cut_fields
cut_fields-append n [] = (refl, tt)
cut_fields-append n (c ∷ s) = elim (Bool-cases ((c == b':') && (n == 1))) [
  | inl h ↦ rw h (refl, ground (arith, h))
  | inr h ↦ rw h (
    ap (λ r. c ∷ r) ((cut_fields-append (if c == b':' then n - 1 else n) s).0),
    (cut_fields-append (if c == b':' then n - 1 else n) s).1,
  )
]

abbrev pub colons : Text → ℕ
colons [] = 0
colons (c ∷ s) = (if c == b':' then 1 else 0) + colons s

count_colons-colons : (s : Text) → count_colons s ≡ colons s
unfolding count_colons
count_colons-colons [] = refl
count_colons-colons (c ∷ s) = ground (arith, count_colons-colons s)

colons-cut_fields :
    (n : ℕ) (s : Text) → 1 ≤ n → colons ((cut_fields n s).0) ≡ min (n - 1) (colons s)
unfolding cut_fields
colons-cut_fields n [] h = omega (arith, h)
colons-cut_fields n (c ∷ s) h = elim (Bool-cases (c == b':')) [
  | inl colon ↦ elim (Bool-cases (n == 1)) [
    | inl last ↦ rw (colon, last) (ground (arith, last))
    | inr more ↦
        rw (colon, more)
          (rw colon (ground (arith, more, colons-cut_fields (n - 1) s (ground (arith, h, more)))))
  ]
  | inr other ↦ rw other (rw other (omega (arith, colons-cut_fields n s h)))
]

abbrev pub IsSwiss : Text → Type 0
IsSwiss id = (number : Text) × (id ≡ chars "ch:1:sloid:" ++ number)

starts_with→append : (p s : Text) → starts_with p s ≡ true → (rest : Text) × (s ≡ p ++ rest)
unfolding starts_with
starts_with→append [] s h = (s, refl)
starts_with→append (d ∷ p) [] h = absurd (ground (arith, h))
starts_with→append (d ∷ p) (c ∷ s) h =
    let (rest, e) = starts_with→append p s (ground (arith, h)) in
    let same : c ≡ d = ground (arith, h) in
    (rest, ap (λ r. c ∷ r) e ∙ ap (λ b. b ∷ (p ++ rest)) same)

starts_with-append : (p s : Text) → starts_with p (p ++ s) ≡ true
unfolding starts_with
starts_with-append [] s = refl
starts_with-append (d ∷ p) s = ground (arith, starts_with-append p s)

-- The stop of an id has `n` colons: three if the id is Swiss, two if not, and fewer only if the
-- id has.
abbrev pub StopHas : Text → ℕ → Type 0
StopHas id n = (IsSwiss id × (n ≡ min 3 (colons id))) ⊎ ((¬ IsSwiss id) × (n ≡ min 2 (colons id)))

cut_fields-StopHas : (id : Text) → StopHas id (colons ((cut_fields (stop_fields id) id).0))
unfolding stop_fields
cut_fields-StopHas id = elim (Bool-cases (starts_with swiss_prefix id)) [
  | inl swiss ↦
      rw swiss
        (inl (starts_with→append swiss_prefix id swiss, colons-cut_fields 4 id (omega arith)))
  | inr other ↦ rw other (
      inr (
        λ (number, e).
            absurd
              (cc (other, ap (starts_with swiss_prefix) e, starts_with-append swiss_prefix number)),
        colons-cut_fields 3 id (omega arith),
      ))
]

-- An id is its stop and the rest, which begins with a colon if there is one; the depth counts the
-- colons of the rest, and the stop has three colons if the id begins with `ch:1:sloid:`, two if
-- not, and fewer only if the id has.
pub ifopt_stop-append :
    (id : Text)
    → (rest : Text) × (((ifopt_stop id).0 ++ rest ≡ id)
        × (StartsAtColon rest
            × (((ifopt_stop id).1 ≡ colons rest) × StopHas id (colons ((ifopt_stop id).0)))))
unfolding ifopt_stop
ifopt_stop-append id = (
  (cut_fields (stop_fields id) id).1,
  (
    (cut_fields-append (stop_fields id) id).0,
    (
      (cut_fields-append (stop_fields id) id).1,
      (count_colons-colons ((cut_fields (stop_fields id) id).1), cut_fields-StopHas id),
    ),
  ),
)

all-append : (p : ℕ → Bool) (xs ys : Text) → all p (xs ++ ys) ≡ (all p xs && all p ys)
unfolding all
all-append p [] ys = refl
all-append p (x ∷ xs) ys = ground (arith, all-append p xs ys)

all-zeros : (n : ℕ) → all is_ascii_digit (replicate n b'0') ≡ true
unfolding all is_ascii_digit
all-zeros zero = refl
all-zeros (suc n) = all-zeros n

-- Seven digits, of which the first two are 85.
abbrev pub IsSwissCode : Text → Type 0
IsSwissCode code =
    (length code ≡ 7)
    × ((all is_ascii_digit code ≡ true) × ((number : Text) × (code ≡ b'8' ∷ (b'5' ∷ number))))

uic_code-IsSwissCode :
    (number : Text)
    → length number ≤ 5
    → all is_ascii_digit number ≡ true
    → IsSwissCode (uic_code number)
unfolding uic_code
uic_code-IsSwissCode number short digits = (
  omega (
    arith,
    short,
    length-append (replicate (5 - length number) b'0') number,
    length-replicate {A = ℕ} (5 - length number) b'0',
  ),
  (
    front (
        cc (
          all-append is_ascii_digit (replicate (5 - length number) b'0') number,
          all-zeros (5 - length number),
          digits,
        )),
    (replicate (5 - length number) b'0' ++ number, refl),
  ),
)
  where
    front :
        all is_ascii_digit (replicate (5 - length number) b'0' ++ number) ≡ true
        → all is_ascii_digit (b'8' ∷ (b'5' ∷ (replicate (5 - length number) b'0' ++ number))) ≡ true
    front h = unfold all is_ascii_digit in h

uic_of_number-IsSwissCode :
    (number code : Text) → uic_of_number number ≡ some code → IsSwissCode code
unfolding uic_of_number
uic_of_number-IsSwissCode number code h =
    elim (Bool-cases
      (is_empty number || (ltb 5 (length number) || not (all is_ascii_digit number)))) [
        | inl bad ↦ absurd (ground (arith, h, bad))
        | inr good ↦
            subst IsSwissCode (some-injective (uic_code number) code (sym (rw good refl) ∙ h))
              (uic_code-IsSwissCode number (ground (arith, good)) (ground (arith, good)))
      ]

-- What a Swiss id gives as a UIC code has seven digits, and 85 in front.
pub swiss_uic-IsSwissCode : (ifopt code : Text) → swiss_uic ifopt ≡ some code → IsSwissCode code
unfolding swiss_uic and_then
swiss_uic-IsSwissCode ifopt code h = elim (Option-cases (strip_prefix swiss_prefix ifopt)) [
  | inl e ↦ absurd (ground (arith, h, e))
  | inr (rest, e) ↦ uic_of_number-IsSwissCode (before b':' rest) code (sym (rw e refl) ∙ h)
]
