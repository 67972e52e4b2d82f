-- ===== src/Matchers/Transit/Symmetry.antt =====
-- Evidence does not depend on which side it is taken from.
use osmdiffs.Base.{
  ◌≡◌, refl, sym, ap, ◌∙◌, Bool, false, not, ◌&&◌, ◌||◌, List, [], ◌∷◌, arith, ◌==◌, list_eq,
  list_eq_comm,
}
use osmdiffs.Base.Search.{any, any-ext, any-swap}
use osmdiffs.Base.Text.{Text, before, contains_text_in}
use osmdiffs.Matchers.Tags.{Unicode}
use osmdiffs.Matchers.Transit.Identifiers.{
  Ids, Flags, flags, is_comparable, is_same_stop, compare_pair, compare_row, compare_rows,
  share_text, compare_uic, compare_ids, ifopt_stop,
}
use osmdiffs.Matchers.Transit.Names.{texts_eq, local_ref_factor, name_factor, name_words}
use osmdiffs.Matchers.Transit.Stops.{
  Kind, station, stop_area, platform, stop_position, fit, Modes, mode_index, compatible,
}

share_text_comm : (xs ys : List Text) → share_text xs ys ≡ share_text ys xs
unfolding share_text contains_text_in
share_text_comm xs ys =
    any-swap (λ x u. list_eq u x) xs ys
    ∙ any-ext (λ y. any (λ x. list_eq y x) xs) (λ y. any (λ u. list_eq u y) xs) ys
        (λ y. any-ext (λ x. list_eq y x) (λ u. list_eq u y) xs (λ x. list_eq_comm y x))

is_comparable_comm : (a o : Text) → is_comparable a o ≡ is_comparable o a
unfolding is_comparable
is_comparable_comm a o = list_eq_comm (before b':' a) (before b':' o)

is_same_stop_comm : (a o : Text) → is_same_stop a o ≡ is_same_stop o a
unfolding is_same_stop
is_same_stop_comm a o = ground (arith, list_eq_comm ((ifopt_stop a).0) ((ifopt_stop o).0))

abbrev says_same : Text → Text → Bool
says_same a o = is_comparable a o && is_same_stop a o

abbrev says_different : Text → Text → Bool
says_different a o = is_comparable a o && not (is_same_stop a o)

compare_pair-flags :
    (s d : Bool) (a o : Text)
    → compare_pair (flags s d) a o ≡ flags (s || says_same a o) (d || says_different a o)
unfolding compare_pair flags
compare_pair-flags s d a o = ground arith

regroup :
    (s1 s2 s3 d1 d2 d3 : Bool)
    → flags ((s1 || s2) || s3) ((d1 || d2) || d3) ≡ flags (s1 || (s2 || s3)) (d1 || (d2 || d3))
unfolding flags
regroup s1 s2 s3 d1 d2 d3 = ground arith

compare_row-flags :
    (s d : Bool) (a : Text) (os : List Text)
    → compare_row (flags s d) a os
      ≡ flags (s || any (says_same a) os) (d || any (says_different a) os)
unfolding compare_row any flags
compare_row-flags s d a [] = ground arith
compare_row-flags s d a (o ∷ os) =
    ap (λ f. compare_row f a os) (compare_pair-flags s d a o)
    ∙ (compare_row-flags (s || says_same a o) (d || says_different a o) a os
        ∙ regroup s (says_same a o) (any (says_same a) os) d (says_different a o)
            (any (says_different a) os))

compare_rows-flags :
    (s d : Bool) (rows os : List Text)
    → compare_rows (flags s d) rows os
      ≡ flags
          (s || any (λ a. any (says_same a) os) rows)
          (d || any (λ a. any (says_different a) os) rows)
unfolding compare_rows any flags
compare_rows-flags s d [] os = ground arith
compare_rows-flags s d (a ∷ rows) os =
    ap (λ f. compare_rows f rows os) (compare_row-flags s d a os)
    ∙ (compare_rows-flags (s || any (says_same a) os) (d || any (says_different a) os) rows os
        ∙ regroup s (any (says_same a) os) (any (λ b. any (says_same b) os) rows) d
            (any (says_different a) os) (any (λ b. any (says_different b) os) rows))

says_same_comm :
    (xs ys : List Text) → any (λ x. any (says_same x) ys) xs ≡ any (λ y. any (says_same y) xs) ys
says_same_comm xs ys =
    any-swap says_same xs ys
    ∙ any-ext (λ y. any (λ x. says_same x y) xs) (λ y. any (says_same y) xs) ys
        (λ y.
          any-ext (λ x. says_same x y) (says_same y) xs
            (λ x. cc (is_comparable_comm x y, is_same_stop_comm x y)))

says_different_comm :
    (xs ys : List Text)
    → any (λ x. any (says_different x) ys) xs ≡ any (λ y. any (says_different y) xs) ys
says_different_comm xs ys =
    any-swap says_different xs ys
    ∙ any-ext (λ y. any (λ x. says_different x y) xs) (λ y. any (says_different y) xs) ys
        (λ y.
          any-ext (λ x. says_different x y) (says_different y) xs
            (λ x. cc (is_comparable_comm x y, is_same_stop_comm x y)))

compare_rows_comm :
    (xs ys : List Text)
    → compare_rows (flags false false) xs ys ≡ compare_rows (flags false false) ys xs
compare_rows_comm xs ys =
    compare_rows-flags false false xs ys
    ∙ (ap (λ s. flags s (any (λ x. any (says_different x) ys) xs)) (says_same_comm xs ys)
        ∙ (ap (flags (any (λ y. any (says_same y) xs) ys)) (says_different_comm xs ys)
            ∙ sym (compare_rows-flags false false ys xs)))

compare_uic_comm : (f : Flags) (xs ys : List Text) → compare_uic f xs ys ≡ compare_uic f ys xs
unfolding compare_uic
compare_uic_comm f xs ys = ground (arith, share_text_comm xs ys)

-- Two sets of ids give the same evidence, whichever comes first.
pub compare_ids_comm : (a b : Ids) → compare_ids a b ≡ compare_ids b a
unfolding compare_ids
compare_ids_comm a b = cc (
  share_text_comm (a.ifopt) (b.ifopt),
  compare_rows_comm (a.ifopt) (b.ifopt),
  compare_uic_comm (compare_rows (flags false false) (a.ifopt) (b.ifopt)) (a.uic) (b.uic),
)

texts_eq_comm : (xs ys : List Text) → texts_eq xs ys ≡ texts_eq ys xs
unfolding texts_eq
texts_eq_comm [] [] = refl
texts_eq_comm [] (y ∷ ys) = refl
texts_eq_comm (x ∷ xs) [] = refl
texts_eq_comm (x ∷ xs) (y ∷ ys) = cc (list_eq_comm x y, texts_eq_comm xs ys)

local_ref_factor_comm : (xs ys : List Text) → local_ref_factor xs ys ≡ local_ref_factor ys xs
unfolding local_ref_factor
local_ref_factor_comm xs ys = ground (arith, texts_eq_comm xs ys, shared)
  where
    shared : any (λ r. contains_text_in ys r) xs ≡ any (λ r. contains_text_in xs r) ys
    shared = unfold share_text in share_text_comm xs ys

name_factor_comm : (u : Unicode) (a b : Text) → name_factor u a b ≡ name_factor u b a
unfolding name_factor
name_factor_comm u a b = ground (arith, list_eq_comm (name_words u a) (name_words u b))

compatible_comm : (m n : Modes) → compatible m n ≡ compatible n m
unfolding compatible
compatible_comm m n = ground (
  arith,
  any-swap (λ a b. mode_index a == mode_index b) m n
      ∙ any-ext (λ b. any (λ a. mode_index a == mode_index b) m)
          (λ b. any (λ a. mode_index b == mode_index a) m) n
          (λ b.
            any-ext (λ a. mode_index a == mode_index b) (λ a. mode_index b == mode_index a) m
              (λ a. ground arith)),
)

fit_comm : (a b : Kind) → fit a b ≡ fit b a
unfolding fit
fit_comm station station = refl
fit_comm station stop_area = refl
fit_comm station platform = refl
fit_comm station stop_position = refl
fit_comm stop_area station = refl
fit_comm stop_area stop_area = refl
fit_comm stop_area platform = refl
fit_comm stop_area stop_position = refl
fit_comm platform station = refl
fit_comm platform stop_area = refl
fit_comm platform platform = refl
fit_comm platform stop_position = refl
fit_comm stop_position station = refl
fit_comm stop_position stop_area = refl
fit_comm stop_position platform = refl
fit_comm stop_position stop_position = refl

-- Kinds, means of transport, local refs and names agree as well on one side as on the other.
pub factors_comm :
    (u : Unicode) (k l : Kind) (m n : Modes) (rs ss : List Text) (x y : Text)
    → (fit k l ≡ fit l k)
      × ((compatible m n ≡ compatible n m)
          × ((local_ref_factor rs ss ≡ local_ref_factor ss rs)
              × (name_factor u x y ≡ name_factor u y x)))
factors_comm u k l m n rs ss x y =
    (fit_comm k l, (compatible_comm m n, (local_ref_factor_comm rs ss, name_factor_comm u x y)))
