-- ===== src/Worker/Matcher/Trie.antt =====
-- worker/custom_matcher.py: the trie that the first loop of `_build` makes of the phrases.
use alert_bot_project.Common.{
  ℕ, ◌<◌, Text, ◌≡◌, refl, sym, ◌∙◌, ap, subst, inl, inr, true, none, some, List, [], ◌∷◌, ◌++◌,
  All, length, arith, Bool-cases, Option-cases, is_in, get_or, length-set, get_or-set, All-append,
  ◌==◌, ==_iff, if◌then◌else◌, is_in-append_left, is_in-append_right, same_self, Text-discrete,
  zero, suc, sorted, is_in-sorted,
}
use alert_bot_project.Worker.Matcher.{
  Machine, edge_at, row, fail_of, outputs_of, blank, grow, add_char, add_chars, add_output,
  add_phrases,
}
use alert_bot_project.Worker.Matcher.Labels.{
  IsPrefix, IsPrefix-refl, onto, IsRow, IsLabelled, IsOutput, edge_lem,
}
use alert_bot_project.Worker.Matcher.Grow.{relabel, grow-IsLabelled, length-grow, outputs-grow}

-- The nodes of `m` are there, with their labels and their outputs.
abbrev Extends : (ℕ → Text) → Machine → (ℕ → Text) → Machine → Type 0
Extends lab m lab' m' =
    (n : ℕ)
    → n < length m.edges
    → (n < length m'.edges) × (lab' n ≡ lab n) × (outputs_of m' n ≡ outputs_of m n)

-- The node that spells the phrase has it as an output.
abbrev pub IsOwned : (ℕ → Text) → Machine → Text → Type 0
IsOwned lab m p =
    (n : ℕ) × (n < length m.edges) × (lab n ≡ onto p []) × (is_in p (outputs_of m n) ≡ true)

abbrev Reaches : List Text → (ℕ → Text) → Machine → Text → Machine × ℕ → Type 0
Reaches phrases lab m spelt r =
    (lab' : ℕ → Text) × IsLabelled phrases lab' r.0
    × (r.1 < length r.0.edges)
    × (lab' r.1 ≡ spelt)
    × Extends lab m lab' r.0

add_char_new :
    (m : Machine) (node c : ℕ)
    → edge_at c (row m node) ≡ none
    → add_char m node c ≡ (grow m node c, length m.edges)
unfolding add_char
add_char_new m node c e = ground arith

add_char_old :
    (m : Machine) (node c child : ℕ)
    → edge_at c (row m node) ≡ some child
    → add_char m node c ≡ (m, child)
unfolding add_char
add_char_old m node c child e = ground arith

module _ (phrases : List Text) where
  add_char_lem :
      (lab : ℕ → Text) (m : Machine) (node c : ℕ)
      → IsLabelled phrases lab m
      → node < length m.edges
      → Reaches phrases lab m (c ∷ lab node) (add_char m node c)
  add_char_lem lab m node c l lt = elim (Option-cases (edge_at c (row m node))) [
    | inl new ↦ subst (Reaches phrases lab m (c ∷ lab node)) (sym (add_char_new m node c new)) (
      relabel lab (length m.edges) (c ∷ lab node),
      grow-IsLabelled phrases lab m node c l lt new,
      omega (arith, length-grow phrases lab m node c),
      ground arith,
      λ n nlt.
          ground
            (arith, length-grow phrases lab m node c, outputs-grow phrases lab m node c n l.outs),
    )
    | inr (child, e) ↦
        let (_, clt, spelt) = edge_lem l.trie node c child e in
        subst (Reaches phrases lab m (c ∷ lab node)) (sym (add_char_old m node c child e))
          (lab, l, clt, spelt, λ n nlt. (nlt, refl, refl))
  ]

  add_chars_lem :
      (lab : ℕ → Text) (m : Machine) (node : ℕ) (cs : Text)
      → IsLabelled phrases lab m
      → node < length m.edges
      → Reaches phrases lab m (onto cs (lab node)) (add_chars m node cs)
  unfolding add_chars onto
  add_chars_lem lab m node [] l lt = (lab, l, lt, refl, λ n nlt. (nlt, refl, refl))
  add_chars_lem lab m node (c ∷ cs) l lt =
      let (lab1, l1, lt1, spelt1, kept1) = add_char_lem lab m node c l lt in
      let step = add_char m node c in
      let (lab2, l2, lt2, spelt2, kept2) = add_chars_lem lab1 step.0 step.1 cs l1 lt1 in
      (lab2, l2, lt2, spelt2 ∙ ap (onto cs) spelt1, λ n nlt. ground (arith, kept1 n nlt, kept2 n))

  module _ (lab : ℕ → Text) (m : Machine) (node : ℕ) (p : Text) (l : IsLabelled phrases lab m)
      (lt : node < length m.edges) where
    outputs-add_output :
        (n : ℕ)
        → outputs_of (add_output m node p) n
          ≡ (if node == n then outputs_of m node ++ p ∷ [] else outputs_of m n)
    unfolding add_output
    outputs-add_output n =
        get_or-set m.outputs node n (outputs_of m node ++ p ∷ []) [] (omega (arith, l.outs))

    add_output-IsLabelled :
        is_in p phrases ≡ true → lab node ≡ onto p [] → IsLabelled phrases lab (add_output m node p)
    unfolding add_output
    add_output-IsLabelled listed spelt = record {
      trie = l.trie;
      fails = l.fails;
      outs = length-set m.outputs node (outputs_of m node ++ p ∷ []) ∙ l.outs;
      falls = l.falls;
      shown = λ n.
          rw (get_or-set m.outputs node n (outputs_of m node ++ p ∷ []) [] (omega (arith, l.outs)))
            (elim (Bool-cases (node == n)) [
              | inl e ↦
                  let added =
                    All-append (IsOutput phrases (lab node)) (outputs_of m node) (p ∷ [])
                      (l.shown node)
                      (
                        (
                          subst (λ t. IsPrefix (onto p []) t) (sym spelt)
                              (IsPrefix-refl (onto p [])),
                          listed,
                        ),
                        tt,
                      ) in
                  ground (
                    arith,
                    subst (λ i. All (IsOutput phrases (lab i)) (outputs_of m node ++ p ∷ []))
                        ((==_iff node n).0 e) added,
                  )
              | inr e ↦ ground (arith, l.shown n)
            ]);
    }

    -- The phrase is owned now, and what was owned stays so.
    add_output-IsOwned :
        lab node ≡ onto p []
        → IsOwned lab (add_output m node p) p
          × ((q : Text) → IsOwned lab m q → IsOwned lab (add_output m node p) q)
    unfolding add_output
    add_output-IsOwned spelt = (
      (
        node,
        lt,
        spelt,
        ground (
          arith,
          outputs-add_output node,
          is_in-append_right p (outputs_of m node) (p ∷ []) (ground (arith, same_self p)),
        ),
      ),
      λ q o.
          let (n, nlt, e, listed) = o in
          (
            n,
            nlt,
            e,
            elim (Bool-cases (node == n)) [
              | inl this ↦
                  let there =
                    subst (λ i. is_in q (outputs_of m i) ≡ true) (sym ((==_iff node n).0 this))
                      listed in
                  ground (
                    arith,
                    outputs-add_output n,
                    is_in-append_left q (outputs_of m node) (p ∷ []) there,
                  )
              | inr other ↦ ground (arith, outputs-add_output n)
            ],
          ),
    )

  -- The trie of the phrases `ps`, on top of what the machine has.
  abbrev Grows : (ℕ → Text) → Machine → List Text → Machine → Type 0
  Grows lab m ps m' =
      (lab' : ℕ → Text) × IsLabelled phrases lab' m'
      × ((q : Text) → IsOwned lab m q → IsOwned lab' m' q)
      × ((q : Text) → is_in q ps ≡ true → IsOwned lab' m' q)

  add_phrases_lem :
      (lab : ℕ → Text) (m : Machine) (ps : List Text)
      → IsLabelled phrases lab m
      → ((q : Text) → is_in q ps ≡ true → is_in q phrases ≡ true)
      → Grows lab m ps (add_phrases m ps)
  unfolding add_phrases
  add_phrases_lem lab m [] l listed = (lab, l, λ q o. o, λ q h. absurd (ground arith))
  add_phrases_lem lab m (p ∷ ps) l listed =
      let (lab1, l1, lt, spelt, kept) = add_chars_lem lab m 0 p l l.trie.rooted.0 in
      let step = add_chars m 0 p in
      let spelt' : lab1 step.1 ≡ onto p [] = spelt ∙ ap (onto p) l.trie.rooted.1 in
      let l2 =
        add_output-IsLabelled lab1 step.0 step.1 p l1 lt (listed p (ground (arith, same_self p)))
          spelt' in
      let (own, keep) = add_output-IsOwned lab1 step.0 step.1 p l1 lt spelt' in
      let (lab3, l3, keep3, own3) =
        add_phrases_lem lab1 (add_output step.0 step.1 p) ps l2 (λ q h. listed q (ground arith)) in
      (
        lab3,
        l3,
        λ q o.
            let (n, nlt, e, has) = o in
            let (nlt', e', has') = kept n nlt in keep3 q (keep q (n, nlt', e' ∙ e, ground arith)),
        λ q h. elim (Text-discrete p q) [
          | yes e ↦
              subst (λ t. IsOwned lab3 (add_phrases (add_output step.0 step.1 p) ps) t) e
                (keep3 p own)
          | no ne ↦ own3 q (ground arith)
        ],
      )

blank-IsLabelled : (phrases : List Text) → IsLabelled phrases (λ n. []) blank
unfolding get_or
blank-IsLabelled phrases = record {
  trie = record {
    rooted = (omega arith, refl);
    rows = rows_blank;
    deep = λ n h. (omega arith, λ pos. absurd (omega arith));
    parents = λ k h pos. absurd (omega arith);
    unique = λ n k h h' e. omega arith;
  };
  fails = refl;
  outs = refl;
  falls = λ n h. (root_blank n, tt, λ pos. absurd (omega arith));
  shown = shown_blank;
}
  where
    rows_blank : (n : ℕ) → IsRow (λ n. []) 1 n n (get_or ([] ∷ []) n [])
    rows_blank zero = tt
    rows_blank (suc n) = tt

    root_blank : (n : ℕ) → fail_of blank n < 1
    root_blank zero = omega arith
    root_blank (suc zero) = omega arith
    root_blank (suc (suc n)) = omega arith

    shown_blank : (n : ℕ) → All (IsOutput phrases []) (get_or ([] ∷ []) n [])
    shown_blank zero = tt
    shown_blank (suc n) = tt

-- The first loop of `_build`.
pub trie_of :
    (phrases : List Text)
    → (lab : ℕ → Text) × IsLabelled phrases lab (add_phrases blank (sorted phrases))
      × ((q : Text) → is_in q phrases ≡ true → IsOwned lab (add_phrases blank (sorted phrases)) q)
trie_of phrases =
    let (lab, l, _, own) =
      add_phrases_lem phrases (λ n. []) blank (sorted phrases) (blank-IsLabelled phrases)
        (λ q h. sym (is_in-sorted q phrases) ∙ h) in
    (lab, l, λ q h. own q (is_in-sorted q phrases ∙ h))
