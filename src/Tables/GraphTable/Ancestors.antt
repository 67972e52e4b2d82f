-- ===== src/Tables/GraphTable/Ancestors.antt =====
-- What the walk over the ancestors yields.
use osmdiffs.Base.{
  ℕ, zero, suc, ◌+◌, ◌≤◌, ◌≡◌, refl, sym, ap, ◌∙◌, true, false, Option, none, some, List, [], ◌∷◌,
  ◌++◌, if◌then◌else◌, ◌==◌, length, length-append, append_assoc, append-nil, arith, Bool-cases,
  inl, inr, ◌↔◌, subst,
}
use osmdiffs.Base.Predicates.{All, All-imp, All-append, IsIn}
use osmdiffs.Base.Distinct.{
  Distinct, contains, contains→IsIn, contains-false, IsIn-append_left, IsIn-append_right,
  Distinct-snoc, Distinct-length, IsIn-append, All-of, All-at,
}
use osmdiffs.Tables.GraphTable.{
  GraphTable, parents_of, AncestorIter, visit_parents, next_ancestor, collect, ancestors,
}
use osmdiffs.Tables.SortedU64Index.Lookup.{NonDescending}
use osmdiffs.Tables.GraphTable.Ranges.{scan, parents_of-scan}

-- The parents that are not yet among the visited, each once.
fresh : List ℕ → List ℕ → List ℕ
fresh [] seen = []
fresh (p ∷ ps) seen =
    let old = fresh ps seen in
    let new = fresh ps (seen ++ (p ∷ [])) in if contains seen p then old else p ∷ new

fresh_seen :
    (p : ℕ) (ps seen : List ℕ) → contains seen p ≡ true → fresh (p ∷ ps) seen ≡ fresh ps seen
unfolding fresh
fresh_seen p ps seen h = rw h refl

fresh_unseen :
    (p : ℕ) (ps seen : List ℕ)
    → contains seen p ≡ false
    → fresh (p ∷ ps) seen ≡ p ∷ fresh ps (seen ++ (p ∷ []))
unfolding fresh
fresh_unseen p ps seen h = rw h refl

-- The walk's state with `new` at the end of its queue and visited.
grown : AncestorIter → List ℕ → AncestorIter
grown it new = record { queue = it.queue ++ new; visited = it.visited ++ new }

grown-grown :
    (it : AncestorIter) (p : ℕ) (new : List ℕ) → grown (grown it (p ∷ [])) new ≡ grown it (p ∷ new)
unfolding grown
grown-grown it p new = λ i. record {
  queue = append_assoc it.queue (p ∷ []) new i;
  visited = append_assoc it.visited (p ∷ []) new i;
}

visit_parents-fresh :
    (ps : List ℕ) (it : AncestorIter) → visit_parents ps it ≡ grown it (fresh ps it.visited)
unfolding visit_parents fresh grown
visit_parents-fresh [] it =
    λ i. record { queue = sym (append-nil it.queue) i; visited = sym (append-nil it.visited) i }
visit_parents-fresh (p ∷ ps) it = elim (Bool-cases (contains it.visited p)) [
  | inl old ↦
      ap (λ b. visit_parents ps (if b then it else grown it (p ∷ []))) old
      ∙ visit_parents-fresh ps it
      ∙ ap (grown it) (sym (fresh_seen p ps it.visited old))
  | inr new ↦
      ap (λ b. visit_parents ps (if b then it else grown it (p ∷ []))) new
      ∙ visit_parents-fresh ps (grown it (p ∷ []))
      ∙ grown-grown it p (fresh ps (it.visited ++ (p ∷ [])))
      ∙ ap (grown it) (sym (fresh_unseen p ps it.visited new))
]

fresh-Distinct : (ps seen : List ℕ) → Distinct seen → Distinct (seen ++ fresh ps seen)
unfolding fresh
fresh-Distinct [] seen d = rw (append-nil seen) d
fresh-Distinct (p ∷ ps) seen d = elim (Bool-cases (contains seen p)) [
  | inl old ↦
      subst (λ r. Distinct (seen ++ r)) (sym (fresh_seen p ps seen old)) (fresh-Distinct ps seen d)
  | inr new ↦
      subst Distinct
        (append_assoc seen (p ∷ []) (fresh ps (seen ++ (p ∷ [])))
          ∙ ap (λ r. seen ++ r) (sym (fresh_unseen p ps seen new)))
        (fresh-Distinct ps (seen ++ (p ∷ [])) (Distinct-snoc seen p d (contains-false seen p new)))
]

fresh-All : (P : ℕ → Type 0) (ps seen : List ℕ) → All P ps → All P (fresh ps seen)
unfolding fresh
fresh-All P [] seen h = tt
fresh-All P (p ∷ ps) seen h = elim (Bool-cases (contains seen p)) [
  | inl old ↦ subst (All P) (sym (fresh_seen p ps seen old)) (fresh-All P ps seen h.1)
  | inr new ↦
      subst (All P) (sym (fresh_unseen p ps seen new)) (h.0, fresh-All P ps (seen ++ (p ∷ [])) h.1)
]

fresh-covers : (n : ℕ) (ps seen : List ℕ) → IsIn n ps → IsIn n (seen ++ fresh ps seen)
unfolding fresh
fresh-covers n [] seen h = absurd h
fresh-covers n (p ∷ ps) seen h = elim (Bool-cases (contains seen p)) [
  | inl old ↦
      subst (λ r. IsIn n (seen ++ r)) (sym (fresh_seen p ps seen old))
        (elim h [
          | inl e ↦ IsIn-append_left n seen (fresh ps seen) (contains→IsIn seen n (rw e old))
          | inr t ↦ fresh-covers n ps seen t
        ])
  | inr new ↦
      subst (λ r. IsIn n (seen ++ r)) (sym (fresh_unseen p ps seen new))
        (elim h [
          | inl e ↦ IsIn-append_right n seen (p ∷ fresh ps (seen ++ (p ∷ []))) (inl e)
          | inr t ↦
              subst (IsIn n) (append_assoc seen (p ∷ []) (fresh ps (seen ++ (p ∷ []))))
                (fresh-covers n ps (seen ++ (p ∷ [])) t)
        ])
]

-- The specification: `start` and, with a node, the parents of its edges.
pub data Reach (g : GraphTable) (start : ℕ) : ℕ → Type 0 where
  here : Reach g start start
  above : {m n : ℕ} → Reach g start m → IsIn n (scan g.children g.parents m) → Reach g start n

IsIn-scan : (n : ℕ) (cs ps : List ℕ) (child : ℕ) → IsIn n (scan cs ps child) → IsIn n ps
unfolding scan
IsIn-scan n [] ps child h = absurd h
IsIn-scan n (c ∷ cs) [] child h = absurd h
IsIn-scan n (c ∷ cs) (p ∷ ps) child h = elim (Bool-cases (c == child)) [
  | inl same ↦
      elim (subst (λ b. IsIn n (if b then p ∷ scan cs ps child else scan cs ps child)) same h) [
        | inl e ↦ inl e
        | inr t ↦ inr (IsIn-scan n cs ps child t)
      ]
  | inr other ↦ inr (
      IsIn-scan n cs ps child
        (subst (λ b. IsIn n (if b then p ∷ scan cs ps child else scan cs ps child)) other h))
]

module _ (g : GraphTable) (start : ℕ) where
  Reach-IsIn : (n : ℕ) → Reach g start n → IsIn n (start ∷ g.parents)
  Reach-IsIn n here = inl refl
  Reach-IsIn n (above {m} r h) = inr (IsIn-scan n g.children g.parents m h)

  -- Between two rounds: what is yielded and what is queued are together the visited nodes.
  record Walked (done queue visited : List ℕ) : Type 0 where
    split : visited ≡ done ++ queue
    distinct : Distinct visited
    reached : All (Reach g start) visited
    closed : (c p : ℕ) → IsIn c done → IsIn p (scan g.children g.parents c) → IsIn p visited
    started : IsIn start visited

  length-Walked :
      (done queue visited : List ℕ) → Walked done queue visited → length done ≤ length g.parents + 1
  length-Walked done queue visited w = omega (
    arith,
    ap length w.split,
    length-append done queue,
    Distinct-length visited (start ∷ g.parents) w.distinct
        (All-imp (Reach g start) (λ n. IsIn n (start ∷ g.parents)) visited Reach-IsIn w.reached),
  )

  module _ (sorted : NonDescending g.children) (same : length g.children ≡ length g.parents) where
    Walked-next :
        (done : List ℕ) (child : ℕ) (rest visited : List ℕ)
        → Walked done (child ∷ rest) visited
        → let new = fresh (parents_of g child) visited in
          Walked (done ++ (child ∷ [])) (rest ++ new) (visited ++ new)
    Walked-next done child rest visited w = record {
      split =
          ap (λ v. v ++ new) w.split
          ∙ append_assoc done (child ∷ rest) new
          ∙ sym (append_assoc done (child ∷ []) (rest ++ new));
      distinct = fresh-Distinct (parents_of g child) visited w.distinct;
      reached = All-append (Reach g start) visited new w.reached (
          fresh-All (Reach g start) (parents_of g child) visited (
            All-of (Reach g start) (parents_of g child) (λ p h.
              above (All-at (Reach g start) child visited w.reached child_seen)
                (subst (IsIn p) found h))));
      closed = λ c p hc hp. elim (IsIn-append c done (child ∷ []) hc) [
        | inl old ↦ IsIn-append_left p visited new (w.closed c p old hp)
        | inr last ↦ fresh-covers p (parents_of g child) visited (
            subst (IsIn p) (sym found)
              (subst (λ k. IsIn p (scan g.children g.parents k)) (only c last) hp))
      ];
      started = IsIn-append_left start visited new w.started;
    }
      where
        new : List ℕ
        new = fresh (parents_of g child) visited

        found : parents_of g child ≡ scan g.children g.parents child
        found = parents_of-scan g child sorted same

        child_seen : IsIn child visited
        child_seen =
            subst (IsIn child) (sym w.split)
              (IsIn-append_right child done (child ∷ rest) (inl refl))

        only : (c : ℕ) → IsIn c (child ∷ []) → c ≡ child
        only c (inl e) = e
        only c (inr h) = absurd h

    collect-Walked :
        (fuel : ℕ) (done queue visited : List ℕ)
        → Walked done queue visited
        → length g.parents + 2 ≤ fuel + length done
        → (ns : List ℕ) × (collect fuel g (record { queue = queue; visited = visited }) ≡ some ns)
          × Walked (done ++ ns) [] (done ++ ns)
    unfolding collect next_ancestor grown
    collect-Walked zero done queue visited w h =
        absurd (omega (arith, length-Walked done queue visited w))
    collect-Walked (suc fuel) done [] visited w h = (
      [],
      refl,
      subst (λ v. Walked (done ++ []) [] v) w.split
          (subst (λ d. Walked d [] visited) (sym (append-nil done)) w),
    )
    collect-Walked (suc fuel) done (child ∷ rest) visited w h =
        let (ns, e, end) =
          collect-Walked fuel (done ++ (child ∷ [])) (rest ++ fresh (parents_of g child) visited)
            (visited ++ fresh (parents_of g child) visited) (Walked-next done child rest visited w)
            (omega (arith, length-append done (child ∷ []))) in
        (
          child ∷ ns,
          ap (λ r. elim r as (λ _. Option (List ℕ)) [ none ↦ none | some ms ↦ some (child ∷ ms) ])
              (ap (collect fuel g) (
                  visit_parents-fresh (parents_of g child)
                    (record { queue = rest; visited = visited }))
                ∙ e),
          subst (λ d. Walked d [] d) (append_assoc done (child ∷ []) ns) end,
        )

    -- On a graph that is sorted by child, the walk from any node ends, yields no node twice, and
    -- yields exactly the nodes that can be reached from the start by edges from child to parent.
    pub ancestors-Reach :
        (ns : List ℕ) × (ancestors g start ≡ some ns)
        × Distinct ns
        × ((n : ℕ) → IsIn n ns ↔ Reach g start n)
    unfolding ancestors
    ancestors-Reach =
        let (ns, e, w) =
          collect-Walked (length g.parents + 2) [] (start ∷ []) (start ∷ []) begin (omega arith) in
        (
          ns,
          e,
          w.distinct,
          λ n. (λ h. All-at (Reach g start) n ns w.reached h, λ r. inside ns w n r),
        )
      where
        begin : Walked [] (start ∷ []) (start ∷ [])
        begin = record {
          split = refl;
          distinct = (tt, tt);
          reached = (here, tt);
          closed = λ c p h. absurd h;
          started = inl refl;
        }

        inside : (ns : List ℕ) → Walked ns [] ns → (n : ℕ) → Reach g start n → IsIn n ns
        inside ns w n here = w.started
        inside ns w n (above {m} r h) = w.closed m n (inside ns w m r) h
