-- ===== src/Base/Bytes.antt =====
-- Integers as little-endian bytes, the layout of every table file.
use Prim.Native.Nat.{ℕ, zero, suc, ◌+◌, ◌*◌, ◌/◌, ◌%◌, ◌^◌, ◌<◌}
use mathlib.Core.Path.{◌≡◌, refl, ap, ap₂, sym, ◌∙◌}
use mathlib.Core.List.{List, [], ◌∷◌, ◌++◌, append_assoc}
use native.Mathlib.Omega.{arith}
use native.Mathlib.Nat.{pow-suc}
use osmdiffs.Base.Lists.{length, take, drop, length-append, take-append, drop-append}
use osmdiffs.Base.Predicates.{All}

-- An integer of `w` bytes.
abbrev pub Fits : ℕ → ℕ → Type 0
Fits w v = v < 256 ^ w

abbrev pub IsByte : ℕ → Type 0
IsByte b = b < 256

unfoldable pub to_le_bytes : ℕ → ℕ → List ℕ
to_le_bytes zero v = []
to_le_bytes (suc w) v = (v % 256) ∷ to_le_bytes w (v / 256)

unfoldable pub from_le_bytes : List ℕ → ℕ
from_le_bytes [] = 0
from_le_bytes (b ∷ bs) = b + 256 * from_le_bytes bs

-- An array of integers of `w` bytes each.
unfoldable pub encode_ints : ℕ → List ℕ → List ℕ
encode_ints w [] = []
encode_ints w (v ∷ vs) = to_le_bytes w v ++ encode_ints w vs

-- The first `count` integers of `w` bytes each.
unfoldable pub read_ints : ℕ → ℕ → List ℕ → List ℕ
read_ints w zero bs = []
read_ints w (suc count) bs = from_le_bytes (take w bs) ∷ read_ints w count (drop w bs)

pub length-to_le_bytes : (w v : ℕ) → length (to_le_bytes w v) ≡ w
unfolding to_le_bytes
length-to_le_bytes zero v = refl
length-to_le_bytes (suc w) v = ap suc (length-to_le_bytes w (v / 256))

pub to_le_bytes-IsByte : (w v : ℕ) → All IsByte (to_le_bytes w v)
unfolding to_le_bytes
to_le_bytes-IsByte zero v = tt
to_le_bytes-IsByte (suc w) v = (omega arith, to_le_bytes-IsByte w (v / 256))

pub from-to_le_bytes : (w v : ℕ) → Fits w v → from_le_bytes (to_le_bytes w v) ≡ v
unfolding to_le_bytes from_le_bytes
from-to_le_bytes zero v h = omega arith
from-to_le_bytes (suc w) v h =
    let smaller : v / 256 < 256 ^ w = omega (arith, pow-suc 256 w) in
    omega (arith, from-to_le_bytes w (v / 256) smaller)

pub length-encode_ints : (w : ℕ) (vs : List ℕ) → length (encode_ints w vs) ≡ w * length vs
unfolding encode_ints
length-encode_ints w [] = omega arith
length-encode_ints w (v ∷ vs) = omega (
  arith,
  length-append (to_le_bytes w v) (encode_ints w vs),
  length-to_le_bytes w v,
  length-encode_ints w vs,
)

pub encode_ints-append :
    (w : ℕ) (xs ys : List ℕ) → encode_ints w (xs ++ ys) ≡ encode_ints w xs ++ encode_ints w ys
unfolding encode_ints
encode_ints-append w [] ys = refl
encode_ints-append w (x ∷ xs) ys =
    ap (λ r. to_le_bytes w x ++ r) (encode_ints-append w xs ys)
    ∙ sym (append_assoc (to_le_bytes w x) (encode_ints w xs) (encode_ints w ys))

pub read_ints-cons :
    (w v count : ℕ) (rest : List ℕ)
    → Fits w v
    → read_ints w (suc count) (to_le_bytes w v ++ rest) ≡ v ∷ read_ints w count rest
unfolding read_ints
read_ints-cons w v count rest h =
    ap₂ (λ (a : ℕ) (r : List ℕ). a ∷ r)
      (ap from_le_bytes (take-append (to_le_bytes w v) rest w (length-to_le_bytes w v))
        ∙ from-to_le_bytes w v h)
      (ap (read_ints w count) (drop-append (to_le_bytes w v) rest w (length-to_le_bytes w v)))

-- An array reads back, whatever stands behind it.
pub read_ints-encode_ints :
    (w : ℕ) (vs rest : List ℕ)
    → All (Fits w) vs
    → read_ints w (length vs) (encode_ints w vs ++ rest) ≡ vs
unfolding encode_ints
read_ints-encode_ints w [] rest h = unfold read_ints in refl
read_ints-encode_ints w (v ∷ vs) rest h =
    ap (read_ints w (suc (length vs))) (append_assoc (to_le_bytes w v) (encode_ints w vs) rest)
    ∙ read_ints-cons w v (length vs) (encode_ints w vs ++ rest) h.0
    ∙ ap (λ r. v ∷ r) (read_ints-encode_ints w vs rest h.1)

pub length-read_ints : (w count : ℕ) (bs : List ℕ) → length (read_ints w count bs) ≡ count
unfolding read_ints
length-read_ints w zero bs = refl
length-read_ints w (suc count) bs = ap suc (length-read_ints w count (drop w bs))
