-- ===== src/Geometry/LineStitcher/Stitching.antt =====
-- A round of stitching never panics, ends, and keeps every segment.
use osmdiffs.Base.{
  ℕ, zero, suc, ◌+◌, ◌<◌, ◌≡◌, refl, ap, ◌∙◌, true, false, ◌&&◌, Option, none, some, List, [], ◌∷◌,
  ◌++◌, ltb, length, length-append, if◌then◌else◌, arith, Bool-cases, Option-cases, inl, inr,
}
use osmdiffs.Base.Predicates.{All}
use osmdiffs.Geometry.Coord.{Coord, FloatEq, KeyMap, get, remove, insert}
use osmdiffs.Geometry.LineStitcher.{
  Chain, ChainEnd, front, back, first, last, end_coord, opposite, Stitch, is_joint, merge_chains,
  remove_remaining_endpoint, insert_chain, partner, absorb, occupied, add_chain, add_chains,
  degrees, count_end, stitch_round,
}
use osmdiffs.Geometry.LineStitcher.Segments.{
  segment_count, segment_total, segment_total-append, count-merge_chains, length-merge_chains,
  end_coord-some, length_of_end_coord,
}
use osmdiffs.Geometry.LineStitcher.Slots.{
  Taken, take_slot-Taken, slot-append_new, occupied-append, occupied-le-length,
}
use osmdiffs.Geometry.LineStitcher.Completeness.{
  IsDone, IsComplete-absorb, IsComplete-closed, IsComplete-open,
}
use osmdiffs.Geometry.LineStitcher.Invariant.{
  PointsTo, PointsTo-append, PointsTo-insert, PointsTo-absorb,
}

abbrev pub IsIndexed : Stitch → Type 0
IsIndexed st = PointsTo st.chains st.endpoint_index

abbrev total : Coord → Coord → Stitch → ℕ
total p q st = segment_total p q (occupied st.chains)

module _ (feq : FloatEq) (degree : KeyMap ℕ) where
  -- `st'` is `st` with the segments of `chain` added.
  pub record Added (st : Stitch) (chain : Chain) (st' : Stitch) : Type 0 where
    pub indexed : IsIndexed st'
    pub complete : IsDone feq degree st'
    pub segments : (p q : Coord) → total p q st' ≡ total p q st + segment_count p q chain
    pub slots : length st'.chains ≡ length st.chains + 1

  -- What a merge leaves: a state with one chain less, and a longer chain to go on with.
  record Absorbed (st : Stitch) (chain : Chain) (st' : Stitch) (chain' : Chain) : Type 0 where
    indexed : IsIndexed st'
    complete : IsDone feq degree st'
    nonempty : 0 < length chain'
    segments :
        (p q : Coord)
        → total p q st' + segment_count p q chain' ≡ total p q st + segment_count p q chain
    fewer : length (occupied st'.chains) + 1 ≡ length (occupied st.chains)
    slots : length st'.chains ≡ length st.chains

  partner-get :
      (st : Stitch) (k : Coord) (v : ℕ × ChainEnd)
      → partner feq degree st k ≡ some v
      → get k st.endpoint_index ≡ some v
  unfolding partner
  partner-get st k v h = ground arith

  absorb-Absorbed :
      (st : Stitch) (k : Coord) (i : ℕ) (end : ChainEnd) (chain : Chain) (new_end : ChainEnd)
      → IsIndexed st
      → IsDone feq degree st
      → get k st.endpoint_index ≡ some (i, end)
      → end_coord chain new_end ≡ some k
      → (st' : Stitch) × (chain' : Chain) × (absorb feq degree st k (i, end) chain new_end
          ≡ some (st', chain'))
        × Absorbed st chain st' chain'
  unfolding absorb remove_remaining_endpoint
  absorb-Absorbed st k i end chain new_end good done g hc =
      let (other, hs, hk) = good.at k i end g in
      let t : Taken st.chains i other = take_slot-Taken st.chains i other hs in
      let (r, hr) = end_coord-some other (opposite end) (length_of_end_coord other end k hk) in
      (
        record { chains = t.rest; endpoint_index = remove r (remove k st.endpoint_index) },
        merge_chains other end chain new_end,
        rw (t.taken, hr),
        record {
          indexed = PointsTo-absorb st.chains st.endpoint_index i end other k r t hs hk hr good;
          complete =
              IsComplete-absorb feq degree st.chains st.endpoint_index i end other k r t hs g hr
                done;
          nonempty = length-merge_chains other end chain new_end k hk;
          segments = λ p q.
              omega (arith, t.segments p q, count-merge_chains p q other end chain new_end k hk hc);
          fewer = t.fewer;
          slots = t.same_length;
        },
      )

  grow :
      (st : Stitch) (chain : Chain) (p q : Coord)
      → segment_total p q (occupied (st.chains ++ (some chain ∷ [])))
        ≡ segment_total p q (occupied st.chains) + segment_count p q chain
  grow st chain p q =
      ap (segment_total p q) (occupied-append st.chains chain)
      ∙ segment_total-append p q (occupied st.chains) (chain ∷ [])
      ∙ unfold segment_total in omega arith

  module _ (st : Stitch) (chain : Chain) (f b : Coord) (hf : first chain ≡ some f)
      (hb : last chain ≡ some b) (good : IsIndexed st) (done : IsDone feq degree st) where
    abbrev chains' : List (Option Chain)
    chains' = st.chains ++ (some chain ∷ [])

    -- A loop is put away with no entry in the index.
    insert_chain_closed :
        (ltb 1 (length chain) && feq f b) ≡ true
        → (st' : Stitch) × (insert_chain feq degree st chain ≡ some st') × Added st chain st'
    unfolding insert_chain
    insert_chain_closed closed = (
      record st { chains = chains' },
      rw (hf, hb, closed),
      record {
        indexed = PointsTo-append st.chains st.endpoint_index chain good;
        complete =
            IsComplete-closed feq degree st.chains st.endpoint_index chain f b hf hb good done
              closed;
        segments = grow st chain;
        slots = length-append st.chains (some chain ∷ []);
      },
    )

    -- An open chain at whose ends no other chain waits.
    insert_chain_open :
        (ltb 1 (length chain) && feq f b) ≡ false
        → partner feq degree st f ≡ none
        → partner feq degree st b ≡ none
        → (st' : Stitch) × (insert_chain feq degree st chain ≡ some st') × Added st chain st'
    unfolding insert_chain partner
    insert_chain_open open' nf nb =
        let i = length st.chains in
        let index1 =
          if is_joint degree f then insert f (i, front) st.endpoint_index else st.endpoint_index in
        let index2 = if is_joint degree b then insert b (i, back) index1 else index1 in
        (
          record { chains = chains'; endpoint_index = index2 },
          rw (hf, hb, open'),
          record {
            indexed =
                PointsTo-insert chains' index1 (is_joint degree b) b i back chain
                  (slot-append_new st.chains chain) hb
                  (PointsTo-insert chains' st.endpoint_index (is_joint degree f) f i front chain
                    (slot-append_new st.chains chain) hf
                    (PointsTo-append st.chains st.endpoint_index chain good));
            complete =
                IsComplete-open feq degree st.chains st.endpoint_index chain f b hf hb good done
                  open' (λ joint. rw joint at nf) (λ joint. rw joint at nb);
            segments = grow st chain;
            slots = length-append st.chains (some chain ∷ []);
          },
        )

  Absorbed-Added :
      {st st' st'' : Stitch} {chain chain' : Chain}
      → Absorbed st chain st' chain'
      → Added st' chain' st''
      → Added st chain st''
  Absorbed-Added a b = record {
    indexed = b.indexed;
    complete = b.complete;
    segments = λ p q. omega (arith, a.segments p q, b.segments p q);
    slots = omega (arith, a.slots, b.slots);
  }

  -- One more line: the loop ends within the fuel, and all segments are there afterwards.
  pub add_chain-Added :
      (fuel : ℕ) (st : Stitch) (chain : Chain)
      → IsIndexed st
      → IsDone feq degree st
      → 0 < length chain
      → length (occupied st.chains) < fuel
      → (st' : Stitch) × (add_chain feq degree fuel st chain ≡ some st') × Added st chain st'
  unfolding add_chain
  add_chain-Added zero st chain good done ne lt = absurd (omega arith)
  add_chain-Added (suc fuel) st chain good done ne lt =
      let (f, hf) = end_coord-some chain front ne in
      let (b, hb) = end_coord-some chain back ne in
      elim (Bool-cases (ltb 1 (length chain) && feq f b)) [
        | inl closed ↦ rw (hf, hb, closed) (insert_chain_closed st chain f b hf hb good done closed)
        | inr open' ↦ elim (Option-cases (partner feq degree st f)) [
          | inr ((i, e), pf) ↦
              let (st1, c1, ea, a) =
                absorb-Absorbed st f i e chain front good done (partner-get st f (i, e) pf) hf in
              let (st2, e2, d) =
                add_chain-Added fuel st1 c1 a.indexed a.complete a.nonempty
                  (omega (arith, a.fewer)) in
              (st2, rw (hf, hb, open', pf, ea) e2, Absorbed-Added a d)
          | inl nf ↦ elim (Option-cases (partner feq degree st b)) [
            | inr ((i, e), pb) ↦
                let (st1, c1, ea, a) =
                  absorb-Absorbed st b i e chain back good done (partner-get st b (i, e) pb) hb in
                let (st2, e2, d) =
                  add_chain-Added fuel st1 c1 a.indexed a.complete a.nonempty
                    (omega (arith, a.fewer)) in
                (st2, rw (hf, hb, open', nf, pb, ea) e2, Absorbed-Added a d)
            | inl nb ↦
                rw (hf, hb, open', nf, nb)
                  (insert_chain_open st chain f b hf hb good done open' nf nb)
          ]
        ]
      ]

  pub add_chains-keeps :
      (st : Stitch) (lines : List Chain)
      → IsIndexed st
      → IsDone feq degree st
      → All (λ c. 0 < length c) lines
      → (st' : Stitch) × (add_chains feq degree st lines ≡ some st')
        × IsDone feq degree st'
        × ((p q : Coord) → total p q st' ≡ total p q st + segment_total p q lines)
  unfolding add_chains segment_total
  add_chains-keeps st [] good done h = (st, refl, done, λ p q. omega arith)
  add_chains-keeps st (line ∷ lines) good done h =
      let (st1, e1, a) =
        add_chain-Added (length st.chains + 1) st line good done h.0
          (omega (arith, occupied-le-length st.chains)) in
      let (st2, e2, d, t) = add_chains-keeps st1 lines a.indexed a.complete h.1 in
      (st2, rw e1 e2, d, λ p q. omega (arith, a.segments p q, t p q))

pub degrees-some :
    (lines : List Chain) (m : KeyMap ℕ)
    → All (λ c. 0 < length c) lines
    → (degree : KeyMap ℕ) × (degrees lines m ≡ some degree)
unfolding degrees
degrees-some [] m h = (m, refl)
degrees-some (line ∷ lines) m h =
    let (f, hf) = end_coord-some line front h.0 in
    let (b, hb) = end_coord-some line back h.0 in
    let (d, e) = degrees-some lines (count_end b (count_end f m)) h.1 in (d, rw (hf, hb) e)

abbrev pub start : Stitch
start = record { chains = []; endpoint_index = [] }

pub start-IsIndexed : IsIndexed start
start-IsIndexed = record { at = λ k i e g. unfold get in cc }

pub start-IsDone : (feq : FloatEq) (degree : KeyMap ℕ) → IsDone feq degree start
start-IsDone feq degree = record {
  listed = λ i c e k s o he joint. cc;
  named_open = λ k i e c g s. cc;
}

-- Whatever the float comparison says, a round of stitching of nonempty lines ends without a panic,
-- and between any two nodes the chains that come out run as often, in either direction, as the
-- lines that went in.
pub stitch_round-segments :
    (feq : FloatEq) (lines : List Chain)
    → All (λ c. 0 < length c) lines
    → (chains : List Chain) × (stitch_round feq lines ≡ some chains)
      × ((p q : Coord) → segment_total p q chains ≡ segment_total p q lines)
unfolding stitch_round
stitch_round-segments feq lines h =
    let (degree, ed) = degrees-some lines [] h in
    let (st, es, d, t) =
      add_chains-keeps feq degree start lines start-IsIndexed (start-IsDone feq degree) h in
    (occupied st.chains, rw (ed, es), λ p q. t p q ∙ nothing p q)
  where
    nothing : (p q : Coord) → total p q start + segment_total p q lines ≡ segment_total p q lines
    nothing p q = unfold segment_total in omega arith
