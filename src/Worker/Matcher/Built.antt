-- ===== src/Worker/Matcher/Built.antt =====
-- worker/custom_matcher.py: `_build` ends, and then every node has its longest fallback and shows
-- every phrase that ends its label.
use alert_bot_project.Common.{
  sorted, ℕ, zero, suc, ◌-◌, ◌^◌, ◌≤◌, ◌<◌, Text, ◌≡◌, ◌≢◌, refl, sym, ◌∙◌, ap, subst, ◌⊎◌, inl,
  inr, Option, some, List, [], ◌∷◌, ◌++◌, length, arith, dec_lt, append-nil, append_assoc, true,
  is_in, get_or,
}
use native.Mathlib.Nat.{one-le-pow}
use alert_bot_project.Worker.Matcher.{
  Machine, edge_at, row, outputs_of, link_row, link_all, children, build, blank, add_phrases,
}
use alert_bot_project.Worker.Matcher.Labels.{IsLabelled, onto, length-onto, edge_lem}
use alert_bot_project.Worker.Matcher.Trie.{IsOwned, trie_of}
use alert_bot_project.Worker.Matcher.Fall.{IsLongest, IsPrefix-whole}
use alert_bot_project.Worker.Matcher.Links.{IsDone, ShowsAll}
use alert_bot_project.Worker.Matcher.Queue.{IsIn, IsDoneTo}
use alert_bot_project.Worker.Matcher.Rows.{
  IsIn-split, children-IsRow, IsIn-append_left, IsIn-append_right, edge_at-IsIn, weight,
  weight-append, weight-children, Rowed, link_row_lem,
}

module _ (phrases : List Text) (lab : ℕ → Text) where
  -- The queue holds nodes of one depth, and behind them nodes of the next: those whose parent has
  -- been taken from the queue. They are done.
  pub record IsLevel (depth : ℕ) (m : Machine) (level next : List ℕ) : Type 0 where
    pub state : IsDoneTo phrases lab depth m
    pub pos : 0 < depth
    pub at_level : (n : ℕ) → IsIn n level → (n < length m.edges) × (length (lab n) ≡ depth)
    pub at_next :
        (n : ℕ)
        → IsIn n next
        → (n < length m.edges) × (length (lab n) ≡ suc depth) × IsDone phrases lab m n
    pub queued :
        (n c k : ℕ)
        → n < length m.edges
        → length (lab n) ≡ depth
        → edge_at c (row m n) ≡ some k
        → IsIn n level ⊎ IsIn k next

  -- A node of the next depth is in the queue, where the level is used up.
  waits :
      {depth : ℕ} {m : Machine} {next : List ℕ}
      → IsLevel depth m [] next
      → (n : ℕ) → n < length m.edges
      → length (lab n) ≡ suc depth
      → IsIn n next
  waits {depth} {m} v n nlt deep =
      let t = v.state.labelled.trie in
      let rooted : n ≢ 0 = λ e. ground (arith, ap (λ i. length (lab i)) e, ap length t.rooted.1) in
      let (p, c, plt, edge) = t.parents n nlt rooted in
      let (_, _, spelt) = edge_lem t p c n edge in
      elim (v.queued p c n plt (omega (arith, ap length spelt)) edge) [
        | inl nowhere ↦ absurd nowhere
        | inr there ↦ there
      ]

  -- The next level.
  IsLevel-next :
      {depth : ℕ} {m : Machine} {next : List ℕ}
      → IsLevel depth m [] next
      → IsLevel (suc depth) m next []
  IsLevel-next {depth} {m} v = record {
    state = record {
      labelled = v.state.labelled;
      owned = v.state.owned;
      done = λ n nlt le. elim (dec_lt (length (lab n)) (suc depth)) [
        | yes lt ↦ v.state.done n nlt (omega arith)
        | no ge ↦ (v.at_next n (waits v n nlt (omega arith))).2
      ];
    };
    pos = omega arith;
    at_level = λ n h. ((v.at_next n h).0, (v.at_next n h).1);
    at_next = λ n h. absurd h;
    queued = λ n c k nlt deep edge. inl (waits v n nlt deep);
  }

  -- Where the queue is empty, no node is deeper.
  no_deeper :
      {depth : ℕ} {m : Machine}
      → IsLevel depth m [] []
      → (fuel n : ℕ) → n < fuel
      → n < length m.edges
      → length (lab n) ≤ depth
  no_deeper v zero n h nlt = absurd (omega arith)
  no_deeper {depth} {m} v (suc fuel) n h nlt = elim (dec_lt depth (length (lab n))) [
    | no le ↦ omega arith
    | yes lt ↦
        let t = v.state.labelled.trie in
        let rooted : n ≢ 0 =
          λ e. ground (arith, ap (λ i. length (lab i)) e, ap length t.rooted.1) in
        let (p, c, plt, edge) = t.parents n nlt rooted in
        let (less, _, spelt) = edge_lem t p c n edge in
        let shallow = no_deeper v fuel p (omega arith) plt in
        absurd (waits v n nlt (omega (arith, ap length spelt)))
  ]

  -- One node is taken from the queue.
  module _ {depth : ℕ} {m : Machine} {u : ℕ} {level next : List ℕ}
      (v : IsLevel depth m (u ∷ level) next) where
    row_links : Rowed phrases lab depth m (row m u) (link_row m u (row m u))
    row_links =
        let (ult, deep) = v.at_level u (inl refl) in
        let t = v.state.labelled.trie in
        let rooted : u ≢ 0 =
          λ e. ground (arith, ap (λ i. length (lab i)) e, ap length t.rooted.1, v.pos) in
        link_row_lem phrases lab depth m u u (row m u) v.state ult rooted deep (t.rows u)

    row-IsLevel :
        (m' : Machine)
        → m'.edges ≡ m.edges
        → IsDoneTo phrases lab depth m'
        → ((n : ℕ) → IsDone phrases lab m n → IsDone phrases lab m' n)
        → ((k : ℕ) → IsIn k (children (row m u)) → IsDone phrases lab m' k)
        → IsLevel depth m' level (next ++ children (row m u))
    row-IsLevel m' same d stays now = record {
      state = d;
      pos = v.pos;
      at_level =
          λ n h. let (nlt, deep) = v.at_level n (inr h) in (omega (arith, ap length same), deep);
      at_next = λ n h. elim (IsIn-split n next (children (row m u)) h) [
        | inl old ↦
            let (nlt, deep, done) = v.at_next n old in
            (omega (arith, ap length same), deep, stays n done)
        | inr new ↦
            let (nlt, deep) =
              children-IsRow lab (length m.edges) u u n (row m u) (v.state.labelled.trie.rows u)
                new in
            (omega (arith, ap length same), omega (arith, v.at_level u (inl refl)), now n new)
      ];
      queued = λ n c k nlt deep edge.
          let old = subst (λ es. edge_at c (get_or es n []) ≡ some k) same edge in
          elim (v.queued n c k (omega (arith, ap length same)) deep old) [
            | inl (inl this) ↦
                let mine = subst (λ i. edge_at c (row m i) ≡ some k) (sym this) old in
                inr
                  (IsIn-append_right k next (children (row m u)) (edge_at-IsIn c k (row m u) mine))
            | inl (inr later) ↦ inl later
            | inr there ↦ inr (IsIn-append_left k next (children (row m u)) there)
          ];
    }

  -- The machine that the loop leaves, with the trie as it was.
  pub record IsComplete (m : Machine) : Type 0 where
    pub labelled : IsLabelled phrases lab m
    pub owned : (p : Text) → is_in p phrases ≡ true → IsOwned lab m p
    pub done : (n : ℕ) → n < length m.edges → IsDone phrases lab m n

  abbrev Builds : Option Machine → Type 0
  Builds r = (m : Machine) × (r ≡ some m) × IsComplete m

  IsComplete-end : {depth : ℕ} {m : Machine} → IsLevel depth m [] [] → IsComplete m
  IsComplete-end {depth} {m} v = record {
    labelled = v.state.labelled;
    owned = v.state.owned;
    done = λ n nlt. v.state.done n nlt (no_deeper v (suc n) n (omega arith) nlt);
  }

  abbrev Ends : ℕ → Type 0
  Ends fuel =
      (depth : ℕ) (m : Machine) (level next : List ℕ)
      → IsLevel depth m level next
      → weight (length m.edges) (level ++ next) ≤ fuel
      → Builds (link_all fuel m (level ++ next))

  -- A round costs the weight of the node and adds less.
  weight_falls :
      {depth : ℕ} {m : Machine} {u : ℕ} {level next : List ℕ}
      → IsLevel depth m (u ∷ level) next
      → weight (length m.edges) (level ++ (next ++ children (row m u)))
        < weight (length m.edges) (u ∷ (level ++ next))
  unfolding weight
  weight_falls {depth} {m} {u} {level} {next} v =
      let size = length m.edges in
      omega (
        arith,
        weight-append size level (next ++ children (row m u)),
        weight-append size next (children (row m u)),
        weight-append size level next,
        weight-children lab size u u (row m u) (v.at_level u (inl refl)).0
            (v.state.labelled.trie.rows u),
      )

  link_all-some :
      (fuel : ℕ) (m m' : Machine) (u : ℕ) (queue : List ℕ)
      → link_row m u (row m u) ≡ some m'
      → link_all (suc fuel) m (u ∷ queue) ≡ link_all fuel m' (queue ++ children (row m u))
  unfolding link_all
  link_all-some fuel m m' u queue e = ground arith

  one_round :
      (fuel depth : ℕ) (m : Machine) (u : ℕ) (level next : List ℕ)
      → Ends fuel
      → IsLevel depth m (u ∷ level) next
      → weight (length m.edges) (u ∷ (level ++ next)) ≤ suc fuel
      → Builds (link_all (suc fuel) m (u ∷ (level ++ next)))
  one_round fuel depth m u level next rest v h =
      let (m', e, same, d, stays, now) = row_links v in
      let v' = row-IsLevel v m' same d stays now in
      let light =
        subst (λ es. weight (length es) (level ++ (next ++ children (row m u))) ≤ fuel) (sym same)
          (omega (arith, weight_falls v)) in
      subst Builds
        (sym (
          link_all-some fuel m m' u (level ++ next) e
          ∙ ap (link_all fuel m') (append_assoc level next (children (row m u)))))
        (rest depth m' level (next ++ children (row m u)) v' light)

  link_all_lem : (fuel : ℕ) → Ends fuel
  unfolding link_all weight
  link_all_lem fuel depth m [] [] v h = (m, ended fuel, IsComplete-end v)
    where
      ended : (f : ℕ) → link_all f m [] ≡ some m
      ended zero = refl
      ended (suc f) = refl
  link_all_lem zero depth m (u ∷ level) next v h =
      absurd (omega (arith, one-le-pow (length m.edges - u) 2 (omega arith)))
  link_all_lem (suc fuel) depth m (u ∷ level) next v h =
      one_round fuel depth m u level next (link_all_lem fuel) v h
  link_all_lem zero depth m [] (k ∷ next) v h =
      absurd (omega (arith, one-le-pow (length m.edges - k) 2 (omega arith)))
  link_all_lem (suc fuel) depth m [] (k ∷ next) v h =
      subst (λ q. Builds (link_all (suc fuel) m (k ∷ q))) (append-nil next)
        (one_round fuel (suc depth) m k next [] (link_all_lem fuel) (IsLevel-next v)
          (subst (λ q. weight (length m.edges) (k ∷ q) ≤ suc fuel) (sym (append-nil next)) h))

  -- The children of the root are done as the trie is.
  module _ (m : Machine) (l : IsLabelled phrases lab m)
      (owned : (p : Text) → is_in p phrases ≡ true → IsOwned lab m p) where
    short-IsDone : (n : ℕ) → n < length m.edges → length (lab n) ≤ 1 → IsDone phrases lab m n
    short-IsDone n nlt short = (longest, shows)
      where
        longest : IsLongest lab m n
        longest [] label part less = tt
        longest (a ∷ s) label part less = absurd (omega arith)

        shows : ShowsAll phrases lab m n
        shows [] listed some_text part = absurd (some_text refl)
        shows (a ∷ p) listed some_text part =
            let (k, klt, e, has) = owned (a ∷ p) listed in
            let whole : onto (a ∷ p) [] ≡ lab n =
              IsPrefix-whole (onto (a ∷ p) []) (lab n) part
                (omega (arith, length-onto (a ∷ p) [])) in
            let here : k ≡ n = l.trie.unique k n klt nlt (e ∙ whole) in
            subst (λ i. is_in (a ∷ p) (outputs_of m i) ≡ true) here has

    IsLevel-first : IsLevel 1 m (children (row m 0)) []
    IsLevel-first = record {
      state = record { labelled = l; owned = owned; done = short-IsDone };
      pos = omega arith;
      at_level = λ n h.
          let (nlt, deep) = children-IsRow lab (length m.edges) 0 0 n (row m 0) (l.trie.rows 0) h in
          (nlt, omega (arith, ap length l.trie.rooted.1));
      at_next = λ n h. absurd h;
      queued = λ n c k nlt deep edge.
          let rooted : n ≢ 0 =
            λ e. ground (arith, ap (λ i. length (lab i)) e, ap length l.trie.rooted.1) in
          let (p, d, plt, above) = l.trie.parents n nlt rooted in
          let (_, _, spelt) = edge_lem l.trie p d n above in
          let root : p ≡ 0 = grind (arith, l.trie.deep p plt, ap length spelt) in
          inl (edge_at-IsIn d n (row m 0) (subst (λ i. edge_at d (row m i) ≡ some n) root above));
    }

-- `_build` ends for every set of phrases, with every node done.
pub build_lem :
    (phrases : List Text)
    → (lab : ℕ → Text) × (m : Machine) × (build phrases ≡ some m) × IsComplete phrases lab m
unfolding build
build_lem phrases =
    let m = add_phrases blank (sorted phrases) in
    let (lab, l, owned) = trie_of phrases in
    let first = IsLevel-first phrases lab m l owned in
    let light =
      weight-children lab (length m.edges) 0 0 (row m 0) l.trie.rooted.0 (l.trie.rows 0) in
    let whole : length m.edges - 0 ≡ length m.edges = omega arith in
    let queue = append-nil (children (row m 0)) in
    let (m', e, done) =
      link_all_lem phrases lab (2 ^ length m.edges) 1 m (children (row m 0)) [] first (
        subst (λ q. weight (length m.edges) q ≤ 2 ^ length m.edges) (sym queue)
          (omega (arith, ap (λ (t : ℕ). 2 ^ t) whole))) in
    (lab, m', ap (link_all (2 ^ length m.edges) m) (sym queue) ∙ e, done)
