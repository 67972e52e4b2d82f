-- ===== src/Base/Distinct.antt =====
-- Lists of numbers without repetition.
use osmdiffs.Base.{
  ℕ, suc, ◌≤◌, ◌≡◌, ◌≢◌, refl, sym, Bool, true, false, ◌||◌, List, [], ◌∷◌, ◌++◌, ◌==◌,
  if◌then◌else◌, length, arith, Bool-cases, inl, inr, ◌⊎◌, subst,
}
use osmdiffs.Base.Predicates.{All, Pairwise, IsIn}

abbrev pub Distinct : List ℕ → Type 0
Distinct = Pairwise (λ a b. a ≢ b)

-- A `HashSet<u64>` is the list of its elements in the order in which they were inserted.
unfoldable pub contains : List ℕ → ℕ → Bool
contains [] n = false
contains (m ∷ ms) n = m == n || contains ms n

pub contains→IsIn : (xs : List ℕ) (n : ℕ) → contains xs n ≡ true → IsIn n xs
unfolding contains
contains→IsIn [] n h = cc
contains→IsIn (x ∷ xs) n h = elim (Bool-cases (x == n)) [
  | inl same ↦ inl (ground arith)
  | inr other ↦ inr (contains→IsIn xs n (ground arith))
]

pub contains-false : (xs : List ℕ) (n : ℕ) → contains xs n ≡ false → All (λ x. x ≢ n) xs
unfolding contains
contains-false [] n h = tt
contains-false (x ∷ xs) n h = (ground arith, contains-false xs n (ground arith))

pub IsIn-append_left : (n : ℕ) (xs ys : List ℕ) → IsIn n xs → IsIn n (xs ++ ys)
IsIn-append_left n [] ys h = absurd h
IsIn-append_left n (x ∷ xs) ys (inl e) = inl e
IsIn-append_left n (x ∷ xs) ys (inr h) = inr (IsIn-append_left n xs ys h)

pub IsIn-append_right : (n : ℕ) (xs ys : List ℕ) → IsIn n ys → IsIn n (xs ++ ys)
IsIn-append_right n [] ys h = h
IsIn-append_right n (x ∷ xs) ys h = inr (IsIn-append_right n xs ys h)

pub Distinct-snoc :
    (xs : List ℕ) (n : ℕ) → Distinct xs → All (λ x. x ≢ n) xs → Distinct (xs ++ (n ∷ []))
Distinct-snoc [] n d h = (tt, tt)
Distinct-snoc (x ∷ xs) n d h = (apart xs d.0, Distinct-snoc xs n d.1 h.1)
  where
    apart : (ys : List ℕ) → All (λ y. x ≢ y) ys → All (λ y. x ≢ y) (ys ++ (n ∷ []))
    apart [] a = (h.0, tt)
    apart (y ∷ ys) a = (a.0, apart ys a.1)

-- The first occurrence taken out.
without : ℕ → List ℕ → List ℕ
without n [] = []
without n (y ∷ ys) = let rest = without n ys in if n == y then ys else y ∷ rest

without_same : (n y : ℕ) (ys : List ℕ) → (n == y) ≡ true → without n (y ∷ ys) ≡ ys
unfolding without
without_same n y ys h = rw h refl

without_other : (n y : ℕ) (ys : List ℕ) → (n == y) ≡ false → without n (y ∷ ys) ≡ y ∷ without n ys
unfolding without
without_other n y ys h = rw h refl

length-without : (n : ℕ) (ys : List ℕ) → IsIn n ys → length ys ≡ suc (length (without n ys))
length-without n [] h = absurd h
length-without n (y ∷ ys) h = elim (Bool-cases (n == y)) [
  | inl same ↦ rw (without_same n y ys same) refl
  | inr other ↦
      rw (without_other n y ys other) (elim h [
        | inl e ↦ absurd (ground (arith, e))
        | inr t ↦ omega (arith, length-without n ys t)
      ])
]

IsIn-without : (m n : ℕ) (ys : List ℕ) → m ≢ n → IsIn m ys → IsIn m (without n ys)
IsIn-without m n [] ne h = absurd h
IsIn-without m n (y ∷ ys) ne h = elim (Bool-cases (n == y)) [
  | inl same ↦
      rw (without_same n y ys same) (elim h [ inl e ↦ absurd (ground (arith, ne, e)) | inr t ↦ t ])
  | inr other ↦
      rw (without_other n y ys other)
        (elim h [ inl e ↦ inl e | inr t ↦ inr (IsIn-without m n ys ne t) ])
]

-- A list without repetition is no longer than one that has all its elements.
pub Distinct-length :
    (xs ys : List ℕ) → Distinct xs → All (λ x. IsIn x ys) xs → length xs ≤ length ys
Distinct-length [] ys d h = omega arith
Distinct-length (x ∷ xs) ys d h =
    omega (arith, length-without x ys h.0, Distinct-length xs (without x ys) d.1 (kept xs d.0 h.1))
  where
    kept :
        (zs : List ℕ)
        → All (λ z. x ≢ z) zs
        → All (λ z. IsIn z ys) zs
        → All (λ z. IsIn z (without x ys)) zs
    kept [] a b = tt
    kept (z ∷ zs) a b = (IsIn-without z x ys (λ e. a.0 (sym e)) b.0, kept zs a.1 b.1)

pub IsIn-append : (n : ℕ) (xs ys : List ℕ) → IsIn n (xs ++ ys) → IsIn n xs ⊎ IsIn n ys
IsIn-append n [] ys h = inr h
IsIn-append n (x ∷ xs) ys (inl e) = inl (inl e)
IsIn-append n (x ∷ xs) ys (inr h) = elim (IsIn-append n xs ys h) [
  | inl a ↦ inl (inr a)
  | inr b ↦ inr b
]

pub All-of : (P : ℕ → Type 0) (xs : List ℕ) → ((n : ℕ) → IsIn n xs → P n) → All P xs
All-of P [] f = tt
All-of P (x ∷ xs) f = (f x (inl refl), All-of P xs (λ n h. f n (inr h)))

pub All-at : (P : ℕ → Type 0) (n : ℕ) (xs : List ℕ) → All P xs → IsIn n xs → P n
All-at P n [] a h = absurd h
All-at P n (x ∷ xs) a (inl e) = subst P (sym e) a.0
All-at P n (x ∷ xs) a (inr h) = All-at P n xs a.1 h
