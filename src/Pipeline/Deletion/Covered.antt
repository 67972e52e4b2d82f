-- ===== src/Pipeline/Deletion/Covered.antt =====
-- The coverage by Wikidata ids answers as the list of places does.
use Prim.Native.String.{String}
use text.Mathlib.TextEquality.{eq_iff}
use text.Mathlib.TextPositions.{eq_refl}
use osmdiffs.Base.{
  ℕ, ◌≡◌, refl, ap, ◌∙◌, Bool, true, false, not, ◌&&◌, ◌||◌, Option, none, some, List, [], ◌∷◌,
  ◌==◌, map, arith, if◌then◌else◌,
}
use osmdiffs.Base.Keyed.{get, value_or, get-update}
use osmdiffs.Base.Search.{any, any-ext, any-or, is_some, is_some_and, filter_map}
use osmdiffs.Base.Text.{Text, chars}
use osmdiffs.Matchers.Tags.{Tag, Tags, Unicode, is_one_of, parse_wikidata_ids, normalize_name}
use osmdiffs.Matchers.MatchMask.{MatchMask, empty_mask, union, intersects, category_bits}
use osmdiffs.Matchers.Score.{Place}
use osmdiffs.Matchers.Transit.Identifiers.{split_values, swiss_uic}
use osmdiffs.Pipeline.Deletion.Register.{Country, World}
use osmdiffs.Pipeline.Deletion.Coverage.{
  wikidata_keys, IdKey, country_eq, id_eq, AtpCoverage, no_coverage, swiss_ifopts, swiss_uics_in,
  add_id, add_name, add_swiss_ids, add_tag, count_swiss, has_swiss_ifopt, add, add_places, fold,
  infrastructure_of, is_abroad, place_country, by_mask, covers_wikidata,
}

country_eq_refl : (c : Option Country) → country_eq c c ≡ true
unfolding country_eq
country_eq_refl none = refl
country_eq_refl (some c) = eq_refl c

country_eq→eq : (c d : Option Country) → country_eq c d ≡ true → c ≡ d
unfolding country_eq
country_eq→eq none none h = refl
country_eq→eq none (some d) h = absurd (ground (arith, h))
country_eq→eq (some c) none h = absurd (ground (arith, h))
country_eq→eq (some c) (some d) h = ground (arith, h, eq_iff c d)

id_eq_refl : (k : IdKey) → id_eq k k ≡ true
unfolding id_eq
id_eq_refl k = ground (arith, country_eq_refl (k.1))

id_eq→eq : (k l : IdKey) → id_eq k l ≡ true → k ≡ l
unfolding id_eq
id_eq→eq (i, c) (j, d) h = ground (arith, h, country_eq→eq c d)

intersects-union :
    (m n k : MatchMask) → intersects (union m n) k ≡ (intersects m k || intersects n k)
unfolding intersects
intersects-union m n k =
    any-ext (λ b. (m b || n b) && k b) (λ b. (m b && k b) || (n b && k b)) category_bits
      (λ b. ground arith)
    ∙ any-or (λ b. m b && k b) (λ b. n b && k b) category_bits

intersects-empty : (k : MatchMask) → intersects empty_mask k ≡ false
unfolding intersects any
intersects-empty k = refl

and_assoc : (a b c : Bool) → ((a && b) && c) ≡ (a && (b && c))
and_assoc a b c = ground arith

is_some_and-union :
    (mask added : MatchMask) (b : Bool) (o : Option MatchMask)
    → is_some_and
        (λ m. intersects m mask)
        (if b then some (union (value_or empty_mask o) added) else o)
      ≡ (is_some_and (λ m. intersects m mask) o || (b && intersects added mask))
unfolding is_some_and value_or
is_some_and-union mask added true none =
    ground (arith, intersects-union empty_mask added mask, intersects-empty mask)
is_some_and-union mask added true (some m) = intersects-union m added mask
is_some_and-union mask added false none = refl
is_some_and-union mask added false (some m) = ground arith

module _ (n : ℕ) (home : Option Country) (mask : MatchMask) where
  abbrev covered : AtpCoverage → Bool
  covered c = covers_wikidata c home (by_mask mask) n

  module _ (added : MatchMask) (country : Option Country) where
    covered-add_id :
        (c : AtpCoverage) (i : ℕ)
        → covered (add_id added country none c i)
          ≡ (covered c || ((i == n) && (country_eq country home && intersects added mask)))
    unfolding covers_wikidata add_id
    covered-add_id c i =
        ap (is_some_and (λ m. intersects m mask)) (
          get-update id_eq (i, country) (n, home) empty_mask (λ m. union m added) (c.wikidata)
            id_eq_refl id_eq→eq)
        ∙ (is_some_and-union mask added (id_eq (i, country) (n, home))
              (get id_eq (n, home) (c.wikidata))
            ∙ ap (λ r. covered c || r)
                (unfold id_eq in
                  and_assoc (i == n) (country_eq country home) (intersects added mask)))

    covered-fold :
        (c : AtpCoverage) (ids : List ℕ)
        → covered (fold (add_id added country none) c ids) ≡ (
            covered c
            || (any (λ i. i == n) ids && (country_eq country home && intersects added mask)))
    unfolding fold any
    covered-fold c [] = ground arith
    covered-fold c (i ∷ ids) =
        ground (arith, covered-fold (add_id added country none c i) ids, covered-add_id c i)

    covered-fold_names :
        (kind : Option String) (c : AtpCoverage) (names : List Text)
        → covered (fold (add_name added country kind) c names) ≡ covered c
    unfolding fold covers_wikidata add_name
    covered-fold_names kind c [] = refl
    covered-fold_names none c (t ∷ ts) =
        covered-fold_names none (add_name added country none c t) ts
    covered-fold_names (some k) c (t ∷ ts) =
        covered-fold_names (some k) (add_name added country (some k) c t) ts

    covered-fold_infrastructure :
        (kind : String) (c : AtpCoverage) (ids : List ℕ)
        → covered (fold (add_id added country (some kind)) c ids) ≡ covered c
    unfolding fold covers_wikidata add_id
    covered-fold_infrastructure kind c [] = refl
    covered-fold_infrastructure kind c (i ∷ ids) =
        covered-fold_infrastructure kind (add_id added country (some kind) c i) ids

    -- A tag that names the id.
    abbrev names_id : Tag → Bool
    names_id t = is_one_of wikidata_keys (t.0) && any (λ i. i == n) (parse_wikidata_ids (t.1))

    -- The Wikidata ids of a feature count, whose kind is its mask.
    abbrev counts : Option String → Bool → Bool
    counts kind abroad =
        (not (is_some kind) && not abroad) && (country_eq country home && intersects added mask)

    covered-add_swiss_ids :
        (c : AtpCoverage) (ids codes : List Text) → covered (add_swiss_ids c ids codes) ≡ covered c
    unfolding covers_wikidata add_swiss_ids
    covered-add_swiss_ids c ids codes = refl

    covered-add_tag :
        (u : Unicode) (kind : Option String) (abroad : Bool) (c : AtpCoverage) (t : Tag)
        → covered (add_tag u added country kind abroad c t)
          ≡ (covered c || (names_id t && counts kind abroad))
    unfolding add_tag is_some
    covered-add_tag u none abroad c (key, value) = ground (
      arith,
      covered-fold c (parse_wikidata_ids value),
      covered-fold_names none c (map (normalize_name u) (split_values (chars value))),
      covered-add_swiss_ids c (swiss_ifopts (chars value))
          (filter_map swiss_uic (swiss_ifopts (chars value))),
      covered-add_swiss_ids c [] (swiss_uics_in (chars value)),
    )
    covered-add_tag u (some k) abroad c (key, value) = ground (
      arith,
      covered-fold_infrastructure k c (parse_wikidata_ids value),
      covered-fold_names (some k) c (map (normalize_name u) (split_values (chars value))),
      covered-add_swiss_ids c (swiss_ifopts (chars value))
          (filter_map swiss_uic (swiss_ifopts (chars value))),
      covered-add_swiss_ids c [] (swiss_uics_in (chars value)),
    )

    covered-fold_tags :
        (u : Unicode) (kind : Option String) (abroad : Bool) (c : AtpCoverage) (tags : Tags)
        → covered (fold (add_tag u added country kind abroad) c tags)
          ≡ (covered c || (any names_id tags && counts kind abroad))
    unfolding fold any
    covered-fold_tags u kind abroad c [] = ground arith
    covered-fold_tags u kind abroad c (t ∷ tags) = ground (
      arith,
      covered-fold_tags u kind abroad (add_tag u added country kind abroad c t) tags,
      covered-add_tag u kind abroad c t,
    )

-- A place stands for a brand in a country: it names the id, its kind is a mask that meets the given
-- one, and it is no stop of the Swiss register abroad.
abbrev pub stands_for :
    {Location : Type 0} → World Location → ℕ → Option Country → MatchMask → Place → Bool
stands_for world n home mask p =
    any (λ t. is_one_of wikidata_keys (t.0) && any (λ i. i == n) (parse_wikidata_ids (t.1)))
      (p.tags)
    && ((not (is_some (infrastructure_of (p.mask) (p.tags)))
          && not (is_abroad (p.tags) (place_country world p)))
        && (country_eq (place_country world p) home && intersects (p.mask) mask))

module _ {Location : Type 0} (u : Unicode) (world : World Location) (n : ℕ) (home : Option Country)
    (mask : MatchMask) where
  covered-add :
      (c : AtpCoverage) (p : Place)
      → covered n home mask (add u world c p (place_country world p))
        ≡ (covered n home mask c || stands_for world n home mask p)
  unfolding add
  covered-add c p =
      same (has_swiss_ifopt (p.tags)) (
        fold
          (add_tag u (p.mask) (place_country world p) (infrastructure_of (p.mask) (p.tags))
            (is_abroad (p.tags) (place_country world p)))
          c (p.tags))
      ∙ covered-fold_tags n home mask (p.mask) (place_country world p) u
          (infrastructure_of (p.mask) (p.tags)) (is_abroad (p.tags) (place_country world p)) c
          (p.tags)
    where
      same :
          (t : Bool) (d : AtpCoverage)
          → covered n home mask (if t then count_swiss (world.parent (p.s2_cell_id)) d else d)
            ≡ covered n home mask d
      same true d = unfold covers_wikidata count_swiss in refl
      same false d = refl

  covered-add_places :
      (c : AtpCoverage) (ps : List Place)
      → covered n home mask (add_places u world c ps)
        ≡ (covered n home mask c || any (stands_for world n home mask) ps)
  unfolding add_places any
  covered-add_places c [] = ground arith
  covered-add_places c (p ∷ ps) =
      ground
        (arith, covered-add_places (add u world c p (place_country world p)) ps, covered-add c p)

  -- What the coverage of all places says of a Wikidata id, a country and a mask is what the list of
  -- places says: whether one of them stands for it.
  pub covers_wikidata-add_places :
      (ps : List Place)
      → covers_wikidata (add_places u world no_coverage ps) home (by_mask mask) n
        ≡ any (stands_for world n home mask) ps
  covers_wikidata-add_places ps =
      covered-add_places no_coverage ps
      ∙ ap (λ r. r || any (stands_for world n home mask) ps) nothing
    where
      nothing : covered n home mask no_coverage ≡ false
      nothing = unfold covers_wikidata get is_some_and in refl
