-- ===== src/Worker/Matcher/Grow.antt =====
-- worker/custom_matcher.py: a node that `_build` adds to the trie.
use alert_bot_project.Common.{
  ℕ, suc, ◌<◌, Text, ◌≡◌, ◌≢◌, refl, sym, subst, inl, inr, none, some, List, [], ◌∷◌, ◌++◌, length,
  arith, Bool-cases, set, length-append, length-set, get_or-set, get_or_past, get_or-snoc, ◌==◌,
  ==_iff, if◌then◌else◌, dec_lt,
}
use alert_bot_project.Worker.Matcher.{Edges, Machine, edge_at, row, fail_of, outputs_of, grow}
use alert_bot_project.Worker.Matcher.Labels.{IsPrefix, IsRow, IsTrie, IsLabelled, edge_missing}

-- One more label.
abbrev pub relabel : (ℕ → Text) → ℕ → Text → ℕ → Text
relabel lab k t i = if i == k then t else lab i

module _ (lab : ℕ → Text) (size : ℕ) (t : Text) where
  IsRow-relabel :
      (parent low : ℕ) (r : Edges)
      → parent < size
      → IsRow lab size parent low r
      → IsRow (relabel lab size t) (suc size) parent low r
  IsRow-relabel parent low [] lt h = tt
  IsRow-relabel parent low ((c, k) ∷ r) lt h =
      (h.0, omega (arith, h.1), ground (arith, h), IsRow-relabel parent k r lt h.3)

  IsRow-snoc :
      (parent low c : ℕ) (r : Edges)
      → parent < size
      → low < size
      → t ≡ c ∷ lab parent
      → IsRow lab size parent low r
      → IsRow (relabel lab size t) (suc size) parent low (r ++ (c, size) ∷ [])
  IsRow-snoc parent low c [] lt small e h = (small, omega arith, ground arith, tt)
  IsRow-snoc parent low c ((d, k) ∷ r) lt small e h =
      (h.0, omega (arith, h.1), ground (arith, h), IsRow-snoc parent k c r lt h.1 e h.3)

module _ (phrases : List Text) (lab : ℕ → Text) (m : Machine) (node c : ℕ) where
  abbrev size : ℕ
  size = length m.edges

  pub length-grow : length (grow m node c).edges ≡ suc (length m.edges)
  unfolding grow
  length-grow = omega (
    arith,
    length-append (set m.edges node (row m node ++ (c, length m.edges) ∷ [])) ([] ∷ []),
    length-set m.edges node (row m node ++ (c, length m.edges) ∷ []),
  )

  row-grow :
      (n : ℕ)
      → node < length m.edges
      → row (grow m node c) n ≡ (
          if n == length m.edges
          then []
          else if node == n
          then row m node ++ (c, length m.edges) ∷ []
          else row m n)
  unfolding grow
  row-grow n lt = ground (
    arith,
    get_or-snoc (set m.edges node (row m node ++ (c, length m.edges) ∷ [])) n [] [],
    length-set m.edges node (row m node ++ (c, length m.edges) ∷ []),
    get_or-set m.edges node n (row m node ++ (c, length m.edges) ∷ []) [] lt,
  )

  fail-grow :
      (n : ℕ)
      → length m.fail ≡ length m.edges
      → fail_of (grow m node c) n ≡ (if n == length m.edges then 0 else fail_of m n)
  unfolding grow
  fail-grow n e = ground (arith, get_or-snoc m.fail n 0 0)

  pub outputs-grow :
      (n : ℕ) → length m.outputs ≡ length m.edges → outputs_of (grow m node c) n ≡ outputs_of m n
  unfolding grow
  outputs-grow n e = ground (arith, get_or-snoc m.outputs n [] [], get_or_past m.outputs n [])

  lengths-grow :
      length m.fail ≡ length m.edges
      → length m.outputs ≡ length m.edges
      → (length (grow m node c).fail ≡ suc (length m.edges))
        × (length (grow m node c).outputs ≡ suc (length m.edges))
  unfolding grow
  lengths-grow e f =
      omega (arith, length-append m.fail (0 ∷ []), length-append {0} m.outputs ([] ∷ []))

  abbrev lab' : ℕ → Text
  lab' = relabel lab (length m.edges) (c ∷ lab node)

  edge_at-snoc :
      (r : Edges) (d k : ℕ)
      → edge_at d (r ++ (c, k) ∷ [])
        ≡ elim (edge_at d r) [ some child ↦ some child | none ↦ if c == d then some k else none ]
  unfolding edge_at
  edge_at-snoc [] d k = refl
  edge_at-snoc ((e, child) ∷ r) d k = ground (arith, edge_at-snoc r d k)

  module _ (t : IsTrie lab m.edges) (lt : node < length m.edges) where
    grow_rows : (n : ℕ) → IsRow lab' (length (grow m node c).edges) n n (row (grow m node c) n)
    grow_rows n =
        rw (length-grow, row-grow n lt)
          (elim (dec_lt n (length m.edges)) [
            | yes old ↦
                let kept = IsRow-relabel lab size (c ∷ lab node) n n (row m n) old (t.rows n) in
                elim (Bool-cases (node == n)) [
                  | inl e ↦
                      let longer =
                        IsRow-snoc lab size (c ∷ lab node) node node c (row m node) lt lt refl
                          (t.rows node) in
                      ground (
                        arith,
                        subst
                            (λ k.
                              IsRow lab' (suc size) k k (row m node ++ (c, length m.edges) ∷ []))
                            ((==_iff node n).0 e) longer,
                      )
                  | inr e ↦ ground (arith, kept)
                ]
            | no new ↦ ground (arith, get_or_past m.edges n [])
          ])

    -- An edge that was there is there.
    grow_edge :
        (n d k : ℕ)
        → n < length m.edges
        → edge_at d (row m n) ≡ some k
        → edge_at d (row (grow m node c) n) ≡ some k
    grow_edge n d k nlt e = rw (row-grow n lt) (elim (Bool-cases (node == n)) [
      | inl same ↦
          let here : node ≡ n = (==_iff node n).0 same in
          let there = subst (λ i. edge_at d (row m i) ≡ some k) (sym here) e in
          ground (arith, edge_at-snoc (row m node) d (length m.edges))
      | inr other ↦ ground arith
    ])

    module _ (new : edge_at c (row m node) ≡ none) where
      grow_new : edge_at c (row (grow m node c) node) ≡ some (length m.edges)
      grow_new =
          rw (row-grow node lt) (ground (arith, edge_at-snoc (row m node) c (length m.edges)))

      grow_parents :
          (k : ℕ)
          → k < suc (length m.edges)
          → k ≢ 0
          → (n : ℕ) × (d : ℕ) × (n < suc (length m.edges))
            × (edge_at d (row (grow m node c) n) ≡ some k)
      grow_parents k klt pos = elim (dec_lt k (length m.edges)) [
        | yes old ↦
            let (n, d, nlt, e) = t.parents k old pos in (n, d, omega arith, grow_edge n d k nlt e)
        | no other ↦
            let this : length m.edges ≡ k = omega arith in
            (node, c, omega arith, ground (arith, grow_new))
      ]

      grow_unique :
          (n k : ℕ) → n < suc (length m.edges) → k < suc (length m.edges) → lab' n ≡ lab' k → n ≡ k
      grow_unique n k nlt klt e =
          ground (arith, t.unique n k, edge_missing t node c n lt, edge_missing t node c k lt)

      pub grow-IsTrie : IsTrie lab' (grow m node c).edges
      grow-IsTrie = record {
        rooted = ground (arith, length-grow, t.rooted);
        rows = grow_rows;
        deep = λ n h. ground (arith, length-grow, t.deep n, t.deep node);
        parents = rw length-grow grow_parents;
        unique = rw length-grow grow_unique;
      }

  module _ (l : IsLabelled phrases lab m) (lt : node < length m.edges) where
    grow_falls :
        (n : ℕ)
        → n < length (grow m node c).edges
        → (fail_of (grow m node c) n < length (grow m node c).edges)
          × IsPrefix (lab' (fail_of (grow m node c) n)) (lab' n)
          × (n ≢ 0 → length (lab' (fail_of (grow m node c) n)) < length (lab' n))
    grow_falls n =
        rw (length-grow, fail-grow n l.fails) (λ h. ground (arith, l.falls n, l.trie.rooted))

    -- A new node keeps the labels of the others.
    pub grow-IsLabelled : edge_at c (row m node) ≡ none → IsLabelled phrases lab' (grow m node c)
    grow-IsLabelled new = record {
      trie = grow-IsTrie l.trie lt new;
      fails = omega (arith, lengths-grow l.fails l.outs, length-grow);
      outs = omega (arith, lengths-grow l.fails l.outs, length-grow);
      falls = grow_falls;
      shown =
          λ n. rw (outputs-grow n l.outs) (ground (arith, l.shown n, get_or_past m.outputs n []));
    }
