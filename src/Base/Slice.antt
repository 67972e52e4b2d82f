-- ===== src/Base/Slice.antt =====
-- Slices of a mapped file.
use Prim.Native.Nat.{ℕ}
use mathlib.Core.Path.{◌≡◌, ap, ◌∙◌}
use mathlib.Core.List.{List, ◌∷◌, ◌++◌, append_assoc}
use osmdiffs.Base.Lists.{length, take, drop, concat, concat-append, take-append, drop-append}

-- `len` elements from `offset` on.
abbrev pub slice {ℓ} : {A : Type ℓ} → List A → ℕ → ℕ → List A
slice xs offset len = take len (drop offset xs)

-- The middle part of a file, cut at its offset and with its length.
pub slice-middle {ℓ} :
    {A : Type ℓ} (a b c : List A) (offset len : ℕ)
    → length a ≡ offset
    → length b ≡ len
    → slice (a ++ (b ++ c)) offset len ≡ b
slice-middle a b c offset len ha hb =
    ap (take len) (drop-append a (b ++ c) offset ha) ∙ take-append b c len hb

-- One of several parts in a row.
pub slice-concat {ℓ} :
    {A : Type ℓ} (pre : List (List A)) (c : List A) (post : List (List A)) (rest : List A)
    (offset len : ℕ)
    → length (concat pre) ≡ offset
    → length c ≡ len
    → slice (concat (pre ++ (c ∷ post)) ++ rest) offset len ≡ c
slice-concat pre c post rest offset len ho hl =
    ap (λ r. slice (r ++ rest) offset len) (concat-append pre (c ∷ post))
    ∙ ap (λ r. slice r offset len)
        (append_assoc (concat pre) (c ++ concat post) rest
          ∙ ap (λ r. concat pre ++ r) (append_assoc c (concat post) rest))
    ∙ slice-middle (concat pre) c (concat post ++ rest) offset len ho hl
