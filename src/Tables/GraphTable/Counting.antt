-- ===== src/Tables/GraphTable/Counting.antt =====
-- `node_count` counts every node once.
use osmdiffs.Base.{
  ℕ, ◌+◌, ◌≤◌, ◌<◌, ◌≡◌, ◌≢◌, refl, sym, ◌∙◌, subst, true, false, none, some, List, [], ◌∷◌, ◌++◌,
  ◌==◌, ==_iff, length, length-append, arith, Bool-cases, inl, inr, ◌↔◌, ◌⊎◌,
}
use osmdiffs.Base.Distinct.{
  Distinct, contains, contains→IsIn, contains-false, Distinct-snoc, Distinct-length, IsIn-append,
  IsIn-append_left, IsIn-append_right, All-of, All-at,
}
use osmdiffs.Base.Predicates.{IsIn}
use osmdiffs.Tables.SortedU64Index.Lookup.{NonDescending}
use osmdiffs.Tables.GraphTable.{GraphTable}
use osmdiffs.Tables.GraphTable.Nodes.{insert_all, remove, count_children, node_count}

remove_hit : (m n : ℕ) (ms : List ℕ) → (m == n) ≡ true → remove (m ∷ ms) n ≡ remove ms n
unfolding remove
remove_hit m n ms h = rw h refl

remove_miss : (m n : ℕ) (ms : List ℕ) → (m == n) ≡ false → remove (m ∷ ms) n ≡ m ∷ remove ms n
unfolding remove
remove_miss m n ms h = rw h refl

IsIn-remove : (n c : ℕ) (ms : List ℕ) → IsIn n (remove ms c) → IsIn n ms × (n ≢ c)
unfolding remove
IsIn-remove n c [] h = absurd h
IsIn-remove n c (m ∷ ms) h = elim (Bool-cases (m == c)) [
  | inl same ↦
      let (a, b) = IsIn-remove n c ms (subst (IsIn n) (remove_hit m c ms same) h) in (inr a, b)
  | inr other ↦ elim (subst (IsIn n) (remove_miss m c ms other) h) [
    | inl e ↦ (inl e, λ f. absurd (ground (arith, e, f, other)))
    | inr t ↦ let (a, b) = IsIn-remove n c ms t in (inr a, b)
  ]
]

remove-IsIn : (n c : ℕ) (ms : List ℕ) → IsIn n ms → (n ≡ c) ⊎ IsIn n (remove ms c)
remove-IsIn n c [] h = absurd h
remove-IsIn n c (m ∷ ms) h = elim (Bool-cases (m == c)) [
  | inl same ↦
      rw (remove_hit m c ms same)
        (elim h [ inl e ↦ inl (e ∙ (==_iff m c).0 same) | inr t ↦ remove-IsIn n c ms t ])
  | inr other ↦ rw (remove_miss m c ms other) (elim h [
    | inl e ↦ inr (inl e)
    | inr t ↦ elim (remove-IsIn n c ms t) [ inl e ↦ inl e | inr s ↦ inr (inr s) ]
  ])
]

Distinct-remove : (c : ℕ) (ms : List ℕ) → Distinct ms → Distinct (remove ms c)
unfolding remove
Distinct-remove c [] d = tt
Distinct-remove c (m ∷ ms) d = elim (Bool-cases (m == c)) [
  | inl same ↦ subst Distinct (sym (remove_hit m c ms same)) (Distinct-remove c ms d.1)
  | inr other ↦ subst Distinct (sym (remove_miss m c ms other)) (
    All-of (λ n. m ≢ n) (remove ms c)
        (λ n h. All-at (λ k. m ≢ k) n ms d.0 (IsIn-remove n c ms h).0),
    Distinct-remove c ms d.1,
  )
]

-- The set of all inserted values.
insert_all-Distinct : (set ps : List ℕ) → Distinct set → Distinct (insert_all set ps)
unfolding insert_all
insert_all-Distinct set [] d = d
insert_all-Distinct set (p ∷ ps) d = elim (Bool-cases (contains set p)) [
  | inl old ↦ rw old (insert_all-Distinct set ps d)
  | inr new ↦
      rw new (
        insert_all-Distinct (set ++ (p ∷ [])) ps (Distinct-snoc set p d (contains-false set p new)))
]

insert_all-IsIn : (n : ℕ) (set ps : List ℕ) → IsIn n (insert_all set ps) ↔ (IsIn n set ⊎ IsIn n ps)
unfolding insert_all
insert_all-IsIn n set [] = (λ h. inl h, λ h. elim h [ inl a ↦ a | inr b ↦ absurd b ])
insert_all-IsIn n set (p ∷ ps) = elim (Bool-cases (contains set p)) [
  | inl old ↦
      let (there, back) = insert_all-IsIn n set ps in
      rw old (
        λ h. elim (there h) [ inl a ↦ inl a | inr b ↦ inr (inr b) ],
        λ h. elim h [
          | inl a ↦ back (inl a)
          | inr b ↦ elim b [
            | inl e ↦
                back (inl (contains→IsIn set n (subst (λ k. contains set k ≡ true) (sym e) old)))
            | inr t ↦ back (inr t)
          ]
        ],
      )
  | inr new ↦
      let (there, back) = insert_all-IsIn n (set ++ (p ∷ [])) ps in
      rw new (
        λ h. elim (there h) [
          | inl a ↦ elim (IsIn-append n set (p ∷ []) a) [
            | inl s ↦ inl s
            | inr s ↦ inr (elim s [ inl e ↦ inl e | inr f ↦ absurd f ])
          ]
          | inr b ↦ inr (inr b)
        ],
        λ h. elim h [
          | inl a ↦ back (inl (IsIn-append_left n set (p ∷ []) a))
          | inr b ↦ elim b [
            | inl e ↦ back (inl (IsIn-append_right n set (p ∷ []) (inl e)))
            | inr t ↦ back (inr t)
          ]
        ],
      )
]

-- What the loop has counted since the child `b`, and what it has left of the parents.
record Counted (b d : ℕ) (parents cs : List ℕ) (r : ℕ × List ℕ) : Type 0 where
  counted : List ℕ
  total : r.0 ≡ d + length counted
  distinct : Distinct (b ∷ (counted ++ r.1))
  sound : (n : ℕ) → IsIn n (b ∷ (counted ++ r.1)) → IsIn n (b ∷ cs) ⊎ IsIn n parents
  complete : (n : ℕ) → IsIn n (b ∷ cs) ⊎ IsIn n parents → IsIn n (b ∷ (counted ++ r.1))

count_children-Counted :
    (b d : ℕ) (parents cs : List ℕ)
    → NonDescending (b ∷ cs)
    → Distinct (b ∷ parents)
    → Counted b d parents cs (count_children (some b) d parents cs)
unfolding count_children
count_children-Counted b d parents [] s u = record {
  counted = [];
  total = omega arith;
  distinct = u;
  sound = λ n h. elim h [ inl e ↦ inl (inl e) | inr t ↦ inr t ];
  complete = λ n h. elim h [ inl a ↦ elim a [ inl e ↦ inl e | inr f ↦ absurd f ] | inr t ↦ inr t ];
}
count_children-Counted b d parents (c ∷ cs) s u = elim (Bool-cases (b == c)) [
  | inl same ↦
      let r = count_children-Counted b d parents cs (s.0.1, s.1.1) u in
      let e : b ≡ c = (==_iff b c).0 same in
      rw same (record {
        counted = r.counted;
        total = r.total;
        distinct = r.distinct;
        sound = λ n h. elim (r.sound n h) [
          | inl a ↦ inl (elim a [ inl f ↦ inl f | inr t ↦ inr (inr t) ])
          | inr p ↦ inr p
        ];
        complete = λ n h. r.complete n (elim h [
          | inl a ↦ inl (elim a [
            | inl f ↦ inl f
            | inr t ↦ elim t [ inl g ↦ inl (g ∙ sym e) | inr t' ↦ inr t' ]
          ])
          | inr p ↦ inr p
        ]);
      })
  | inr other ↦
      let less : b < c = ground (arith, s.0.0) in
      let r = count_children-Counted c (d + 1) (remove parents c) cs s.1 (
        All-of (λ n. c ≢ n) (remove parents c) (λ n h f. (IsIn-remove n c parents h).1 (sym f)),
        Distinct-remove c parents u.1,
      ) in
      rw other (record {
        counted = c ∷ r.counted;
        total = r.total ∙ omega arith;
        distinct = (
          All-of (λ n. b ≢ n)
              (c ∷ (r.counted ++ (count_children (some c) (d + 1) (remove parents c) cs).1))
              (λ n h. elim (r.sound n h) [
                | inl a ↦ elim a [
                  | inl f ↦ ground (arith, f)
                  | inr t ↦ ground (arith, All-at (λ k. c ≤ k) n cs s.1.0 t)
                ]
                | inr p ↦ All-at (λ k. b ≢ k) n parents u.0 (IsIn-remove n c parents p).0
              ]),
          r.distinct,
        );
        sound = λ n h. elim h [
          | inl e ↦ inl (inl e)
          | inr t ↦ elim (r.sound n t) [
            | inl a ↦ inl (inr a)
            | inr p ↦ inr (IsIn-remove n c parents p).0
          ]
        ];
        complete = λ n h. elim h [
          | inl a ↦ elim a [ inl e ↦ inl e | inr t ↦ inr (r.complete n (inl t)) ]
          | inr p ↦ inr (
              r.complete n
                (elim (remove-IsIn n c parents p) [ inl e ↦ inl (inl e) | inr q ↦ inr q ]))
        ];
      })
]

same_length :
    (xs ys : List ℕ)
    → Distinct xs
    → Distinct ys
    → ((n : ℕ) → IsIn n xs ↔ IsIn n ys)
    → length xs ≡ length ys
same_length xs ys d e h = omega (
  arith,
  Distinct-length xs ys d (All-of (λ n. IsIn n ys) xs (λ n. (h n).0)),
  Distinct-length ys xs e (All-of (λ n. IsIn n xs) ys (λ n. (h n).1)),
)

abbrev pub IsNode : GraphTable → ℕ → Type 0
IsNode g n = IsIn n g.children ⊎ IsIn n g.parents

count_nodes :
    (cs ps ns : List ℕ)
    → NonDescending cs
    → Distinct ps
    → Distinct ns
    → ((n : ℕ) → IsIn n ns ↔ (IsIn n cs ⊎ IsIn n ps))
    → let r = count_children none 0 ps cs in r.0 + length r.1 ≡ length ns
unfolding count_children
count_nodes [] ps ns s p d h = omega (
  arith,
  same_length ps ns p d
      (λ n. (λ t. (h n).1 (inr t), λ t. elim ((h n).0 t) [ inl f ↦ absurd f | inr u ↦ u ])),
)
count_nodes (c ∷ cs) ps ns s p d h =
    let left = (count_children (some c) 1 (remove ps c) cs).1 in
    let r = count_children-Counted c 1 (remove ps c) cs s (
      All-of (λ n. c ≢ n) (remove ps c) (λ n t f. (IsIn-remove n c ps t).1 (sym f)),
      Distinct-remove c ps p,
    ) in
    omega (
      arith,
      r.total,
      length-append r.counted left,
      same_length (c ∷ (r.counted ++ left)) ns r.distinct d (λ n. (
        λ t. (h n).1 (elim (r.sound n t) [ inl a ↦ inl a | inr q ↦ inr (IsIn-remove n c ps q).0 ]),
        λ t. r.complete n (elim ((h n).0 t) [
          | inl a ↦ inl a
          | inr q ↦ elim (remove-IsIn n c ps q) [ inl e ↦ inl (inl e) | inr k ↦ inr k ]
        ]),
      )),
    )

-- On a graph sorted by child, `node_count` is the length of every list without repetition that
-- holds exactly the children and the parents of its edges.
pub node_count-length :
    (g : GraphTable) (ns : List ℕ)
    → NonDescending g.children
    → Distinct ns
    → ((n : ℕ) → IsIn n ns ↔ IsNode g n)
    → node_count g ≡ length ns
unfolding node_count
node_count-length g ns sorted d h =
    count_nodes g.children (insert_all [] g.parents) ns sorted (insert_all-Distinct [] g.parents tt)
      d
      (λ n. (
        λ t. elim ((h n).0 t) [
          | inl a ↦ inl a
          | inr b ↦ inr ((insert_all-IsIn n [] g.parents).1 (inr b))
        ],
        λ t. (h n).1 (elim t [
          | inl a ↦ inl a
          | inr b ↦
              inr (elim ((insert_all-IsIn n [] g.parents).0 b) [ inl f ↦ absurd f | inr c ↦ c ])
        ]),
      ))
