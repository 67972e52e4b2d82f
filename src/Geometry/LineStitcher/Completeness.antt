-- ===== src/Geometry/LineStitcher/Completeness.antt =====
-- The endpoint index lists every open joint, so that a round of stitching leaves none undone.
use osmdiffs.Base.{
  ℕ, ◌<◌, ◌≡◌, ◌≢◌, ◌⊎◌, refl, sym, ap, ◌∙◌, Bool, true, false, ◌&&◌, Option, none, some, List, [],
  ◌∷◌, ◌++◌, ltb, length, length-append, if◌then◌else◌, arith, Bool-cases, inl, inr,
}
use mathlib.Core.Option.{some-injective}
use osmdiffs.Geometry.Coord.{
  Coord, FloatEq, KeyMap, key_eq, key_eq_iff, get, remove, insert, get-remove, get-insert,
}
use osmdiffs.Geometry.LineStitcher.{
  Chain, ChainEnd, front, back, first, last, end_coord, opposite, Stitch, is_joint,
}
use osmdiffs.Geometry.LineStitcher.Slots.{slot, Taken, slot-append_old, slot-append_new, slot-lt}
use osmdiffs.Geometry.LineStitcher.Invariant.{Index, PointsTo, not_removed}

kept :
    (j k r : Coord) (index : Index)
    → j ≢ k
    → j ≢ r
    → get j (remove r (remove k index)) ≡ get j index
kept j k r index jk jr =
    ground
      (arith, get-remove r j (remove k index), get-remove k j index, key_eq_iff k j, key_eq_iff r j)

get-insert_if :
    (b : Bool) (k j : Coord) (v : ℕ × ChainEnd) (index : Index)
    → get j (if b then insert k v index else index)
      ≡ (if b && key_eq k j then some v else get j index)
get-insert_if false k j v index = refl
get-insert_if true k j v index = get-insert k j v index

-- A slot that is still occupied is another one.
elsewhere :
    (chains : List (Option Chain)) (i j : ℕ) (other c : Chain) (t : Taken chains i other)
    → slot t.rest j ≡ some c
    → (j ≢ i) × (slot chains j ≡ some c)
elsewhere chains i j other c t s = (ne, sym (t.others j ne) ∙ s)
  where
    ne : j ≢ i
    ne e = cc (t.emptied, sym s, ap (slot t.rest) e)

-- One key has one entry.
same_slot :
    (k : Coord) (index : Index) (i j : ℕ) (e e' : ChainEnd)
    → get k index ≡ some (i, e)
    → get k index ≡ some (j, e')
    → j ≡ i
same_slot k index i j e e' p q =
    ap (λ (z : ℕ × ChainEnd). z.0) (some-injective (j, e') (i, e) (sym q ∙ p))

entry_slot :
    (k : Coord) (i j : ℕ) (e e' : ChainEnd)
    → ◌≡◌ {A = Option (ℕ × ChainEnd)} (some (i, e)) (some (j, e'))
    → j ≡ i
entry_slot k i j e e' p = ap (λ (z : ℕ × ChainEnd). z.0) (some-injective (j, e') (i, e) (sym p))

-- The chain is no loop.
abbrev pub IsOpen : FloatEq → Chain → Type 0
IsOpen feq c =
    (f b : Coord) → first c ≡ some f → last c ≡ some b → (ltb 1 (length c) && feq f b) ≡ false

module _ (feq : FloatEq) (degree : KeyMap ℕ) where
  -- Every joint at an end of an open chain is in the index, under that chain; and the index names
  -- open chains only.
  pub record IsComplete (chains : List (Option Chain)) (index : Index) : Type 0 where
    pub listed :
        (i : ℕ) (c : Chain) (e : ChainEnd) (k : Coord)
        → slot chains i ≡ some c
        → IsOpen feq c
        → end_coord c e ≡ some k
        → is_joint degree k ≡ true
        → (e' : ChainEnd) × (get k index ≡ some (i, e'))
    pub named_open :
        (k : Coord) (i : ℕ) (e : ChainEnd) (c : Chain)
        → get k index ≡ some (i, e)
        → slot chains i ≡ some c
        → IsOpen feq c

  -- Taking a chain out, with the entries at both its ends.
  pub IsComplete-absorb :
      (chains : List (Option Chain)) (index : Index) (i : ℕ) (end : ChainEnd) (other : Chain)
      (k r : Coord) (t : Taken chains i other)
      → slot chains i ≡ some other
      → get k index ≡ some (i, end)
      → end_coord other (opposite end) ≡ some r
      → IsComplete chains index
      → IsComplete t.rest (remove r (remove k index))
  IsComplete-absorb chains index i end other k r t hs hg hr h = record {
    listed = λ j c e k' s o he joint.
        let (ne, s') = elsewhere chains i j other c t s in
        let (e', g) = h.listed j c e k' s' o he joint in
        (
          e',
          kept k' k r index (λ p. ne (same_slot k index i j end e' hg (rw p at g)))
                (λ p. ne (at_r j e' (rw p at joint) (rw p at g)))
              ∙ g,
        );
    named_open = λ k' j e c g s.
        let (ne, s') = elsewhere chains i j other c t s in
        h.named_open k' j e c (not_removed k' k r index (j, e) g).2 s';
  }
    where
      at_r : (j : ℕ) (e' : ChainEnd) → is_joint degree r ≡ true → get r index ≡ some (j, e') → j ≡ i
      at_r j e' joint g =
          let (e'', g') =
            h.listed i other (opposite end) r hs (h.named_open k i end other hg hs) hr joint in
          same_slot r index i j e'' e' g' g

  slot_split :
      (chains : List (Option Chain)) (chain : Chain) (i : ℕ) (c : Chain)
      → slot (chains ++ (some chain ∷ [])) i ≡ some c
      → ((i < length chains) × (slot chains i ≡ some c)) ⊎ ((i ≡ length chains) × (chain ≡ c))
  slot_split chains chain i c s = elim (Bool-cases (ltb i (length chains))) [
    | inl old ↦
        let lt : i < length chains = ground arith in
        inl (lt, sym (slot-append_old chains chain i lt) ∙ s)
    | inr new ↦
        let bound : i < length (chains ++ (some chain ∷ [])) = slot-lt _ i c s in
        let e : i ≡ length chains = ground (arith, bound, length-append chains (some chain ∷ [])) in
        inr (
          e,
          some-injective chain c (
              sym (slot-append_new chains chain)
              ∙ ap (slot (chains ++ (some chain ∷ []))) (sym e)
              ∙ s),
        )
  ]

  module _ (chains : List (Option Chain)) (index : Index) (chain : Chain) (f b : Coord)
      (hf : first chain ≡ some f) (hb : last chain ≡ some b) (indexed : PointsTo chains index)
      (complete : IsComplete chains index) where
    abbrev chains' : List (Option Chain)
    chains' = chains ++ (some chain ∷ [])

    old-IsOpen :
        (k : Coord) (i : ℕ) (e : ChainEnd) (c : Chain)
        → get k index ≡ some (i, e)
        → slot chains' i ≡ some c
        → IsOpen feq c
    old-IsOpen k i e c g s =
        let (d, sd, x) = indexed.at k i e g in
        complete.named_open k i e c g
          (sym (slot-append_old chains chain i (slot-lt chains i d sd)) ∙ s)

    pub IsComplete-closed : (ltb 1 (length chain) && feq f b) ≡ true → IsComplete chains' index
    IsComplete-closed closed = record {
      listed = λ i c e k s o he joint. elim (slot_split chains chain i c s) [
        | inl (lt, s') ↦ complete.listed i c e k s' o he joint
        | inr (ei, ec) ↦
            absurd (cc (closed, o f b (ap first (sym ec) ∙ hf) (ap last (sym ec) ∙ hb)))
      ];
      named_open = old-IsOpen;
    }

    module _ (open_ended : (ltb 1 (length chain) && feq f b) ≡ false)
        (free_f : is_joint degree f ≡ true → get f index ≡ none)
        (free_b : is_joint degree b ≡ true → get b index ≡ none) where
      abbrev index1 : Index
      index1 = if is_joint degree f then insert f (length chains, front) index else index

      abbrev index2 : Index
      index2 = if is_joint degree b then insert b (length chains, back) index1 else index1

      new-IsOpen : IsOpen feq chain
      new-IsOpen f' b' hf' hb' =
          rw (some-injective f' f (sym hf' ∙ hf), some-injective b' b (sym hb' ∙ hb)) open_ended

      at_old :
          (k : Coord) (v : ℕ × ChainEnd)
          → is_joint degree k ≡ true
          → get k index ≡ some v
          → get k index2 ≡ some v
      at_old k v joint g =
          let kf : k ≢ f = λ e. cc (g, free_f (rw e at joint), e) in
          let kb : k ≢ b = λ e. cc (g, free_b (rw e at joint), e) in
          ground (
            arith,
            get-insert_if (is_joint degree b) b k (length chains, back) index1,
            get-insert_if (is_joint degree f) f k (length chains, front) index,
            key_eq_iff b k,
            key_eq_iff f k,
          )

      at_back : is_joint degree b ≡ true → get b index2 ≡ some (length chains, back)
      at_back joint = ground (
        arith,
        get-insert_if (is_joint degree b) b b (length chains, back) index1,
        key_eq_iff b b,
      )

      at_front :
          is_joint degree f ≡ true → (e : ChainEnd) × (get f index2 ≡ some (length chains, e))
      at_front joint = elim (Bool-cases (is_joint degree b && key_eq b f)) [
        | inl same ↦
            (back, get-insert_if (is_joint degree b) b f (length chains, back) index1 ∙ rw same)
        | inr other ↦ (
          front,
          get-insert_if (is_joint degree b) b f (length chains, back) index1
              ∙ rw other (
                  ground (
                    arith,
                    get-insert_if (is_joint degree f) f f (length chains, front) index,
                    key_eq_iff f f,
                  )),
        )
      ]

      listed_new :
          (e : ChainEnd) (k : Coord)
          → end_coord chain e ≡ some k
          → is_joint degree k ≡ true
          → (e' : ChainEnd) × (get k index2 ≡ some (length chains, e'))
      listed_new front k h joint =
          let q : k ≡ f = some-injective k f (sym h ∙ hf) in rw q (at_front (rw q at joint))
      listed_new back k h joint =
          let q : k ≡ b = some-injective k b (sym h ∙ hb) in rw q (back, at_back (rw q at joint))

      new_or_old :
          (k : Coord) (i : ℕ) (e : ChainEnd)
          → get k index2 ≡ some (i, e)
          → (i ≡ length chains) ⊎ (get k index ≡ some (i, e))
      new_or_old k i e g = elim (Bool-cases (is_joint degree b && key_eq b k)) [
        | inl at_b ↦ inl (
            entry_slot k (length chains) i back e (
              rw at_b at (sym (get-insert_if (is_joint degree b) b k (length chains, back) index1))
              ∙ g))
        | inr not_b ↦
            let g1 : get k index1 ≡ some (i, e) =
              rw not_b at (sym (get-insert_if (is_joint degree b) b k (length chains, back) index1))
              ∙ g in
            elim (Bool-cases (is_joint degree f && key_eq f k)) [
              | inl at_f ↦ inl (
                  entry_slot k (length chains) i front e (
                    rw at_f at
                      (sym (get-insert_if (is_joint degree f) f k (length chains, front) index))
                    ∙ g1))
              | inr not_f ↦ inr (
                  rw not_f at
                    (sym (get-insert_if (is_joint degree f) f k (length chains, front) index))
                  ∙ g1)
            ]
      ]

      pub IsComplete-open : IsComplete chains' index2
      IsComplete-open = record {
        listed = λ i c e k s o he joint. elim (slot_split chains chain i c s) [
          | inl (lt, s') ↦
              let (e', g) = complete.listed i c e k s' o he joint in (e', at_old k (i, e') joint g)
          | inr (ei, ec) ↦ rw ei (listed_new e k (ap (λ d. end_coord d e) ec ∙ he) joint)
        ];
        named_open = λ k i e c g s. elim (new_or_old k i e g) [
          | inl ei ↦
              let q : c ≡ chain =
                some-injective c chain
                  (sym s ∙ ap (slot chains') ei ∙ slot-append_new chains chain) in
              rw q new-IsOpen
          | inr g' ↦ old-IsOpen k i e c g' s
        ];
      }

  abbrev pub IsDone : Stitch → Type 0
  IsDone st = IsComplete st.chains st.endpoint_index
