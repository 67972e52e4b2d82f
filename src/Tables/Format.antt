-- ===== src/Tables/Format.antt =====
-- What the table files share: results, u64 arithmetic, header fields and arrays of a mapped file.
use osmdiffs.Base.{
  list_eq, list_eq_refl, ℕ, ◌+◌, ◌*◌, ◌%◌, ◌^◌, ◌≡◌, refl, ap, ◌∙◌, Bool, true, false, Option, none,
  some, List, [], ◌∷◌, ◌++◌, length, concat, get_elem?, length-append, append_assoc, ◌==◌, arith,
}
use osmdiffs.Base.Output.{Output, AtEnd, write_all, contents-write_all}
use osmdiffs.Base.Bytes.{
  encode_ints, Fits, from_le_bytes, to_le_bytes, length-to_le_bytes, from-to_le_bytes,
}
use osmdiffs.Base.Predicates.{All}
use osmdiffs.Base.Slice.{slice, slice-concat}

-- Why a writer or `open` returns an error.
pub data Error : Type 0 where
  wrong_signature wrong_count misplaced_keys misplaced_values misplaced_blob misplaced_buckets :
      Error
  not_ascending not_sorted too_many_entries unexpected_end varint_too_long invalid_varint : Error

-- `panic` is a failed assertion or an index out of bounds.
pub data Result {ℓ} (A : Type ℓ) : Type ℓ where
  ok : A → Result A
  err : Error → Result A
  panic : Result A

infixl 5 ◌>>=◌
abbrev pub ◌>>=◌ {ℓ κ} : {A : Type ℓ} {B : Type κ} → Result A → (A → Result B) → Result B
ok a >>= f = f a
err e >>= f = err e
panic >>= f = panic

-- `anyhow::bail!` under a test, and `assert!`.
abbrev pub ensure : Bool → Error → Result (Unit {0})
ensure true e = ok tt
ensure false e = err e

abbrev pub assert : Bool → Result (Unit {0})
assert true = ok tt
assert false = panic

infixl 5 ◌>>◌
abbrev pub ◌>>◌ {ℓ} : {B : Type ℓ} → Result (Unit {0}) → Result B → Result B
m >> k = m >>= λ _. k

-- `xs[i]`
abbrev pub or_panic {ℓ} : {A : Type ℓ} → Option A → Result A
or_panic none = panic
or_panic (some a) = ok a

abbrev pub index_or_panic {ℓ} : {A : Type ℓ} → List A → ℕ → Result A
index_or_panic xs i = or_panic (get_elem? xs i)

-- u64 and usize arithmetic of a release build.
abbrev pub u64_mod : ℕ
u64_mod = 2 ^ 64

infixl 65 ◌+u◌
abbrev pub ◌+u◌ : ℕ → ℕ → ℕ
a +u b = (a + b) % u64_mod

infixl 70 ◌*u◌
abbrev pub ◌*u◌ : ℕ → ℕ → ℕ
a *u b = a * b % u64_mod

abbrev pub is_multiple_of : ℕ → ℕ → Bool
is_multiple_of n d = n % d == 0

-- `header[i]` of a mapped file, an array of u64 at its start.
unfoldable pub header_field : List ℕ → ℕ → ℕ
header_field mmap i = from_le_bytes (slice mmap (8 * i) 8)

abbrev pub u64_bytes : ℕ → List ℕ
u64_bytes v = to_le_bytes 8 v

-- Parts of a header, eight bytes each.
abbrev pub AreWords : List (List ℕ) → Type 0
AreWords = All (λ c. length c ≡ 8)

pub length-words : (cs : List (List ℕ)) → AreWords cs → length (concat cs) ≡ 8 * length cs
length-words [] h = omega arith
length-words (c ∷ cs) h = omega (arith, length-append c (concat cs), length-words cs h.1)

-- Field `i` of a header reads back.
pub header_field-words :
    (pre : List (List ℕ)) (v : ℕ) (post : List (List ℕ)) (rest : List ℕ) (i : ℕ)
    → AreWords pre
    → length pre ≡ i
    → Fits 8 v
    → header_field (concat (pre ++ (u64_bytes v ∷ post)) ++ rest) i ≡ v
unfolding header_field
header_field-words pre v post rest i words e h =
    ap from_le_bytes (
      slice-concat pre (u64_bytes v) post rest (8 * i) 8 (omega (arith, length-words pre words))
        (length-to_le_bytes 8 v))
    ∙ from-to_le_bytes 8 v h

pub signature-words :
    (sig : List ℕ) (post : List (List ℕ)) (rest : List ℕ)
    → length sig ≡ 8
    → list_eq (slice (concat (sig ∷ post) ++ rest) 0 8) sig ≡ true
signature-words sig post rest h =
    ap (λ r. list_eq r sig) (slice-concat [] sig post rest 0 8 refl h) ∙ list_eq_refl sig

-- A file grows by one number, and then by more.
pub extend :
    (o : Output) (v : ℕ) (vs c : List ℕ)
    → AtEnd o
    → c ≡ (write_all (u64_bytes v) o).contents ++ encode_ints 8 vs
    → c ≡ o.contents ++ encode_ints 8 (v ∷ vs)
unfolding encode_ints
extend o v vs c e h =
    h
    ∙ ap (λ r. r ++ encode_ints 8 vs) (contents-write_all (u64_bytes v) o e)
    ∙ append_assoc o.contents (u64_bytes v) (encode_ints 8 vs)
