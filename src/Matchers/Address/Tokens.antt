-- ===== src/Matchers/Address/Tokens.antt =====
-- The tokens of an address are its letters and digits, cut where words end and digits begin or end.
use osmdiffs.Base.{
  ℕ, ◌≡◌, refl, sym, ap, ◌∙◌, subst, Bool, true, false, ◌&&◌, List, [], ◌∷◌, ◌++◌, map,
  append_assoc, concat, arith, Bool-cases, inl, inr,
}
use osmdiffs.Base.Predicates.{All}
use osmdiffs.Base.Search.{all, filter}
use osmdiffs.Base.Text.{Text, is_empty}
use osmdiffs.Matchers.Address.{
  Letters, sharp_s, agree, push_token, ends_token, next_token, next_numeric, tokens_from,
  fold_tokens,
}

concat-push_token : (t : Text) (ts : List Text) → concat (push_token t ts) ≡ t ++ concat ts
unfolding push_token is_empty
concat-push_token [] ts = refl
concat-push_token (c ∷ t) ts = refl

module _ (letters : Letters) where
  begun :
      (cur : Text) (n : Bool) (c : ℕ)
      → letters.is_alphanumeric c ≡ true
      → ends_token letters cur n c ≡ true
      → next_token letters cur n c ≡ c ∷ []
  begun cur n c h k = unfold next_token ends_token in ground (arith, h, k)

  extended :
      (cur : Text) (n : Bool) (c : ℕ)
      → letters.is_alphanumeric c ≡ true
      → ends_token letters cur n c ≡ false
      → next_token letters cur n c ≡ cur ++ (c ∷ [])
  extended cur n c h k = unfold next_token ends_token in ground (arith, h, k)

  tokens_from_step :
      (cur : Text) (n : Bool) (c : ℕ) (s : Text)
      → concat (tokens_from letters (next_token letters cur n c) (next_numeric letters n c) s)
        ≡ next_token letters cur n c ++ filter (letters.is_alphanumeric) s
      → concat (tokens_from letters cur n (c ∷ s)) ≡ cur ++ filter (letters.is_alphanumeric) (c ∷ s)
  unfolding tokens_from filter
  tokens_from_step cur n c s later = elim (Bool-cases (letters.is_alphanumeric c)) [
    | inr other ↦
        rw (ends other, other)
          (concat-push_token cur
              (tokens_from letters (next_token letters cur n c) (next_numeric letters n c) s)
            ∙ ap (λ r. cur ++ r)
                (later ∙ ap (λ t. t ++ filter (letters.is_alphanumeric) s) (cleared other)))
    | inl letter ↦ elim (Bool-cases (ends_token letters cur n c)) [
      | inl cut ↦
          rw (cut, letter)
            (concat-push_token cur
                (tokens_from letters (next_token letters cur n c) (next_numeric letters n c) s)
              ∙ ap (λ r. cur ++ r)
                  (later
                    ∙ ap (λ t. t ++ filter (letters.is_alphanumeric) s) (begun cur n c letter cut)))
      | inr goes ↦
          rw (goes, letter)
            (later
              ∙ (ap (λ t. t ++ filter (letters.is_alphanumeric) s) (extended cur n c letter goes)
                  ∙ append_assoc cur (c ∷ []) (filter (letters.is_alphanumeric) s)))
    ]
  ]
    where
      ends : letters.is_alphanumeric c ≡ false → ends_token letters cur n c ≡ true
      ends h = unfold ends_token in ground (arith, h)

      cleared : letters.is_alphanumeric c ≡ false → next_token letters cur n c ≡ []
      cleared h = unfold next_token in rw h refl

  concat-tokens_from :
      (cur : Text) (n : Bool) (s : Text)
      → concat (tokens_from letters cur n s) ≡ cur ++ filter (letters.is_alphanumeric) s
  concat-tokens_from cur n [] = unfold tokens_from filter in concat-push_token cur []
  concat-tokens_from cur n (c ∷ s) =
      tokens_from_step cur n c s
        (concat-tokens_from (next_token letters cur n c) (next_numeric letters n c) s)

  -- All characters of a token are numeric, or none is.
  abbrev pub IsUniform : Text → Type 0
  IsUniform t =
      (is_empty t ≡ false) × ((n : Bool) × (all (λ c. agree (letters.is_numeric c) n) t ≡ true))

  all-snoc :
      (p : ℕ → Bool) (xs : Text) (c : ℕ)
      → all p xs ≡ true
      → p c ≡ true
      → all p (xs ++ (c ∷ [])) ≡ true
  unfolding all
  all-snoc p [] c h k = ground (arith, k)
  all-snoc p (x ∷ xs) c h k = ground (arith, h, all-snoc p xs c (ground (arith, h)) k)

  push_token-IsUniform :
      (n : Bool) (t : Text) (ts : List Text)
      → all (λ c. agree (letters.is_numeric c) n) t ≡ true
      → All IsUniform ts
      → All IsUniform (push_token t ts)
  unfolding push_token is_empty
  push_token-IsUniform n [] ts h k = k
  push_token-IsUniform n (c ∷ t) ts h k = ((refl, (n, h)), k)

  agree_same : (b : Bool) → (agree b b && true) ≡ true
  agree_same b = unfold agree in ground arith

  grows :
      (cur : Text) (n : Bool) (c : ℕ)
      → all (λ d. agree (letters.is_numeric d) n) cur ≡ true
      → letters.is_alphanumeric c ≡ true
      → ends_token letters cur n c ≡ false
      → all (λ d. agree (letters.is_numeric d) (next_numeric letters n c)) (cur ++ (c ∷ [])) ≡ true
  grows [] n c h letter goes =
      unfold all next_numeric in rw letter (agree_same (letters.is_numeric c))
  grows (x ∷ xs) n c h letter goes =
      subst (λ m. all (λ d. agree (letters.is_numeric d) m) ((x ∷ xs) ++ (c ∷ [])) ≡ true)
        (sym stays) (all-snoc (λ d. agree (letters.is_numeric d) n) (x ∷ xs) c h fits)
    where
      fits : agree (letters.is_numeric c) n ≡ true
      fits = unfold ends_token is_empty in ground (arith, letter, goes)

      stays : next_numeric letters n c ≡ n
      stays = unfold next_numeric agree in ground (arith, letter, fits)

  next_token-uniform :
      (cur : Text) (n : Bool) (c : ℕ)
      → all (λ d. agree (letters.is_numeric d) n) cur ≡ true
      → all
          (λ d. agree (letters.is_numeric d) (next_numeric letters n c))
          (next_token letters cur n c)
        ≡ true
  next_token-uniform cur n c h = elim (Bool-cases (letters.is_alphanumeric c)) [
    | inr other ↦ unfold next_token all in rw other refl
    | inl letter ↦ elim (Bool-cases (ends_token letters cur n c)) [
      | inl cut ↦
          rw (begun cur n c letter cut)
            (unfold all next_numeric in rw letter (agree_same (letters.is_numeric c)))
      | inr goes ↦ rw (extended cur n c letter goes) (grows cur n c h letter goes)
    ]
  ]

  tokens_from-IsUniform :
      (cur : Text) (n : Bool) (s : Text)
      → all (λ d. agree (letters.is_numeric d) n) cur ≡ true
      → All IsUniform (tokens_from letters cur n s)
  unfolding tokens_from
  tokens_from-IsUniform cur n [] h = push_token-IsUniform n cur [] h tt
  tokens_from-IsUniform cur n (c ∷ s) h =
      let later =
        tokens_from-IsUniform (next_token letters cur n c) (next_numeric letters n c) s
          (next_token-uniform cur n c h) in
      elim (Bool-cases (ends_token letters cur n c)) [
        | inl cut ↦ rw cut (
            push_token-IsUniform n cur
              (tokens_from letters (next_token letters cur n c) (next_numeric letters n c) s) h
              later)
        | inr goes ↦ rw goes later
      ]

  -- The tokens in a row are the letters and digits of the folded text, and each token is not empty and
  -- of numeric characters only, or of none.
  pub fold_tokens-concat :
      (s : Text)
      → (concat (fold_tokens letters s)
          ≡ filter (letters.is_alphanumeric) (map sharp_s (letters.fold s)))
        × All IsUniform (fold_tokens letters s)
  unfolding fold_tokens
  fold_tokens-concat s = (
    concat-tokens_from [] false (map sharp_s (letters.fold s)),
    tokens_from-IsUniform [] false (map sharp_s (letters.fold s)) (unfold all in refl),
  )
