-- ===== src/Matchers/Infrastructure/Refs.antt =====
-- Refs compare without their leading zeros.
use osmdiffs.Base.Words.{words, split_whitespace-visible, split-cases, last_word-append}
use osmdiffs.Matchers.Infrastructure.Kinds.{ignore, equal, last_word, without_prefix, RefRule}
use osmdiffs.Base.{
  none, inr, inl, Option, ◌⊎◌, some, List, true, ℕ, zero, suc, ◌≡◌, refl, sym, ap, ◌∙◌, false, [],
  ◌∷◌, ◌++◌, arith, replicate,
}
use osmdiffs.Base.Search.{or_else, last, and_then}
use osmdiffs.Base.Text.{chars, strip_prefix, Text, is_whitespace, trim, trim_start, trim_end}
use osmdiffs.Matchers.Tags.{Unicode}
use osmdiffs.Matchers.Infrastructure.{without_prefix, reference_of, normalize_ref, significant}

-- No white space at the start.
abbrev pub IsFlush : Text → Type 0
IsFlush [] = Unit
IsFlush (c ∷ s) = is_whitespace c ≡ false

trim_start-flush : (s : Text) → IsFlush s → trim_start is_whitespace s ≡ s
unfolding trim_start
trim_start-flush [] h = refl
trim_start-flush (c ∷ s) h = rw h refl

trim_end-visible :
    (c : ℕ) (s : Text)
    → is_whitespace c ≡ false
    → trim_end is_whitespace (c ∷ s) ≡ c ∷ trim_end is_whitespace s
unfolding trim_end
trim_end-visible c s h = ground (arith, h)

zero_is_visible : is_whitespace b'0' ≡ false
unfolding is_whitespace
zero_is_visible = refl

trim-zero : (s : Text) → IsFlush s → trim (b'0' ∷ s) ≡ b'0' ∷ trim s
unfolding trim
trim-zero s h =
    ap (trim_end is_whitespace) (trim_start-flush (b'0' ∷ s) zero_is_visible)
    ∙ (trim_end-visible b'0' s zero_is_visible
        ∙ ap (λ t. b'0' ∷ trim_end is_whitespace t) (sym (trim_start-flush s h)))

significant-zero : (u : Unicode) (s : Text) → significant u (b'0' ∷ s) ≡ significant u s
unfolding significant trim_start
significant-zero u s = refl

normalize_ref-zero :
    (u : Unicode) (s : Text)
    → IsFlush s
    → normalize_ref u false (b'0' ∷ s) ≡ normalize_ref u false s
unfolding normalize_ref and_then
normalize_ref-zero u s h = ap (significant u) (trim-zero s h) ∙ significant-zero u (trim s)

IsFlush-zeros : (n : ℕ) (s : Text) → IsFlush s → IsFlush (replicate n b'0' ++ s)
IsFlush-zeros zero s h = h
IsFlush-zeros (suc n) s h = zero_is_visible

-- Zeros in front of a ref that is compared whole.
normalize_ref-replicate :
    (u : Unicode) (n : ℕ) (s : Text)
    → IsFlush s
    → normalize_ref u false (replicate n b'0' ++ s) ≡ normalize_ref u false s
normalize_ref-replicate u zero s h = refl
normalize_ref-replicate u (suc n) s h =
    normalize_ref-zero u (replicate n b'0' ++ s) (IsFlush-zeros n s h)
    ∙ normalize_ref-replicate u n s h

significant-last :
    (u : Unicode) (w : Text) (ws : List Text)
    → and_then (last ((b'0' ∷ w) ∷ ws)) (significant u) ≡ and_then (last (w ∷ ws)) (significant u)
unfolding last and_then or_else
significant-last u w ws = of (last ws)
  where
    of :
        (o : Option Text)
        → and_then (or_else o (some (b'0' ∷ w))) (significant u)
          ≡ and_then (or_else o (some w)) (significant u)
    of none = significant-zero u w
    of (some v) = refl

-- A zero in front of the first word, which may be the last one.
last_word-zero :
    (u : Unicode) (c : ℕ) (s : Text)
    → is_whitespace c ≡ false
    → normalize_ref u true (b'0' ∷ (c ∷ s)) ≡ normalize_ref u true (c ∷ s)
unfolding normalize_ref
last_word-zero u c s h =
    let (part, parts, q) = split-cases is_whitespace s in
    let (cut, plain) = split_whitespace-visible c s part parts h q in
    let (cut', zeros) =
      split_whitespace-visible b'0' (c ∷ s) (c ∷ part) parts zero_is_visible cut in
    ap (λ ws. and_then (last ws) (significant u)) zeros
    ∙ significant-last u (c ∷ part) (words parts)
    ∙ ap (λ ws. and_then (last ws) (significant u)) (sym plain)

last_word-zeros :
    (u : Unicode) (n c : ℕ) (s : Text)
    → is_whitespace c ≡ false
    → normalize_ref u true (replicate n b'0' ++ (c ∷ s)) ≡ normalize_ref u true (c ∷ s)
last_word-zeros u zero c s h = refl
last_word-zeros u (suc zero) c s h = last_word-zero u c s h
last_word-zeros u (suc (suc n)) c s h =
    last_word-zero u b'0' (replicate n b'0' ++ (c ∷ s)) zero_is_visible
    ∙ last_word-zeros u (suc n) c s h

-- After white space, only what follows counts.
last_word-after :
    (u : Unicode) (t : Text) (w n c : ℕ) (s : Text)
    → is_whitespace w ≡ true
    → is_whitespace c ≡ false
    → normalize_ref u true (t ++ (w ∷ (replicate n b'0' ++ (c ∷ s)))) ≡ normalize_ref u true (c ∷ s)
unfolding normalize_ref
last_word-after u t w zero c s hw hc =
    ap (λ o. and_then o (significant u)) (last_word-append t w c s hw hc)
last_word-after u t w (suc n) c s hw hc =
    ap (λ o. and_then o (significant u))
      (last_word-append t w b'0' (replicate n b'0' ++ (c ∷ s)) hw zero_is_visible)
    ∙ last_word-zeros u (suc n) c s hc

-- What may stand before the zeros of a ref from AllThePlaces, by the rule for its spider: a text
-- that is empty or ends in white space, where the last word counts; the prefix, where one is
-- stripped; nothing, where refs are compared whole.
abbrev pub Leads : RefRule → Text → Type 0
Leads ignore lead = Unit
Leads equal lead = lead ≡ []
Leads last_word lead =
    (lead ≡ []) ⊎ ((t : Text) × (w : ℕ) × (is_whitespace w ≡ true) × (lead ≡ t ++ (w ∷ [])))
Leads (without_prefix prefix) lead = lead ≡ chars prefix

strip_prefix-append : (p s : Text) → strip_prefix p (p ++ s) ≡ some s
unfolding strip_prefix
strip_prefix-append [] s = refl
strip_prefix-append (c ∷ p) s = ground (arith, strip_prefix-append p s)

append-after : (t : Text) (w : ℕ) (s : Text) → (t ++ (w ∷ [])) ++ s ≡ t ++ (w ∷ s)
append-after [] w s = refl
append-after (c ∷ t) w s = ap (λ r. c ∷ r) (append-after t w s)

reference_of-zeros :
    (u : Unicode) (rule : RefRule) (lead : Text) (n c : ℕ) (s : Text)
    → Leads rule lead
    → is_whitespace c ≡ false
    → reference_of u rule (some (lead ++ (replicate n b'0' ++ (c ∷ s))))
      ≡ reference_of u rule (some (lead ++ (c ∷ s)))
unfolding reference_of and_then
reference_of-zeros u ignore lead n c s h v = refl
reference_of-zeros u equal lead n c s h v = rw h (normalize_ref-replicate u n (c ∷ s) v)
reference_of-zeros u last_word lead n c s (inl e) v = rw e (last_word-zeros u n c s v)
reference_of-zeros u last_word lead n c s (inr (t, w, white, e)) v =
    ap (λ l. normalize_ref u true (l ++ (replicate n b'0' ++ (c ∷ s)))) e
    ∙ ap (normalize_ref u true) (append-after t w (replicate n b'0' ++ (c ∷ s)))
    ∙ last_word-after u t w n c s white v
    ∙ sym (last_word-after u t w zero c s white v)
    ∙ ap (normalize_ref u true) (sym (append-after t w (c ∷ s)))
    ∙ ap (λ l. normalize_ref u true (l ++ (c ∷ s))) (sym e)
reference_of-zeros u (without_prefix prefix) lead n c s h v =
    rw
      (
        h,
        strip_prefix-append (chars prefix) (replicate n b'0' ++ (c ∷ s)),
        strip_prefix-append (chars prefix) (c ∷ s),
      )
      (normalize_ref-replicate u n (c ∷ s) v)

-- Zeros that a visible character follows do not change the ref of a place that is compared, where
-- they stand at the start of a ref that counts whole, after the prefix that is stripped, or at the
-- start of a word where the last word counts; nor the ref of a candidate, at its start.
pub reference_of-replicate :
    (u : Unicode) (rule : RefRule) (lead : Text) (n c : ℕ) (s : Text)
    → Leads rule lead
    → is_whitespace c ≡ false
    → (reference_of u rule (some (lead ++ (replicate n b'0' ++ (c ∷ s))))
        ≡ reference_of u rule (some (lead ++ (c ∷ s))))
      × (normalize_ref u false (replicate n b'0' ++ (c ∷ s)) ≡ normalize_ref u false (c ∷ s))
reference_of-replicate u rule lead n c s h v =
    (reference_of-zeros u rule lead n c s h v, normalize_ref-replicate u n (c ∷ s) v)
