-- ===== src/Worker/Matcher/Links.antt =====
-- worker/custom_matcher.py: the fallback and the outputs that the second loop of `_build` writes for
-- one node.
use alert_bot_project.Common.{
  ℕ, ◌<◌, Text, ◌≡◌, ◌≢◌, sym, ◌∙◌, subst, inl, inr, true, List, [], ◌++◌, length, arith,
  Bool-cases, dec_lt, ◌==◌, ==_iff, All, All-append, All-map, get_or-set, length-set, is_in,
  is_in-append_left, is_in-append_right, if◌then◌else◌,
}
use alert_bot_project.Worker.Matcher.{Machine, fail_of, outputs_of, link}
use alert_bot_project.Worker.Matcher.Labels.{IsPrefix, IsPrefix-trans, onto, IsLabelled, IsOutput}
use alert_bot_project.Worker.Matcher.Trie.{IsOwned}
use alert_bot_project.Worker.Matcher.Fall.{IsPrefix-whole, IsLabel, IsLongest}

module _ (phrases : List Text) (lab : ℕ → Text) where
  -- Every phrase that ends the label is an output.
  abbrev pub ShowsAll : Machine → ℕ → Type 0
  ShowsAll m n =
      (p : Text)
      → is_in p phrases ≡ true
      → p ≢ []
      → IsPrefix (onto p []) (lab n)
      → is_in p (outputs_of m n) ≡ true

  abbrev pub IsDone : Machine → ℕ → Type 0
  IsDone m n = IsLongest lab m n × ShowsAll m n

  abbrev pub AllOwned : Machine → Type 0
  AllOwned m = (p : Text) → is_in p phrases ≡ true → IsOwned lab m p

  module _ (m : Machine) (l : IsLabelled phrases lab m) (child k : ℕ) (clt : child < length m.edges)
      (klt : k < length m.edges) where
    fail-link : (n : ℕ) → fail_of (link m child k) n ≡ (if child == n then k else fail_of m n)
    unfolding link
    fail-link n = get_or-set m.fail child n k 0 (omega (arith, l.fails))

    outputs-link :
        (n : ℕ)
        → outputs_of (link m child k) n
          ≡ (if child == n then outputs_of m child ++ outputs_of m k else outputs_of m n)
    unfolding link
    outputs-link n =
        get_or-set m.outputs child n (outputs_of m child ++ outputs_of m k) []
          (omega (arith, l.outs))

    -- What a node shows it still shows.
    outputs_kept :
        (n : ℕ) (p : Text)
        → is_in p (outputs_of m n) ≡ true
        → is_in p (outputs_of (link m child k) n) ≡ true
    outputs_kept n p h = elim (Bool-cases (child == n)) [
      | inl e ↦
          let there = subst (λ i. is_in p (outputs_of m i) ≡ true) (sym ((==_iff child n).0 e)) h in
          ground
            (arith, outputs-link n, is_in-append_left p (outputs_of m child) (outputs_of m k) there)
      | inr e ↦ ground (arith, outputs-link n)
    ]

    pub link-AllOwned : AllOwned m → AllOwned (link m child k)
    unfolding link
    link-AllOwned owned p listed =
        let (n, nlt, e, has) = owned p listed in (n, nlt, e, outputs_kept n p has)

    pub link-IsDone_other : (n : ℕ) → child ≢ n → IsDone m n → IsDone (link m child k) n
    unfolding link
    link-IsDone_other n other done = (
      λ s label part short.
          subst (λ i. IsPrefix s (lab i)) (sym (fail-link n ∙ ground (arith, ==_iff child n)))
            (done.0 s label part short),
      λ p listed some_text part. outputs_kept n p (done.1 p listed some_text part),
    )

    module _ (part : IsPrefix (lab k) (lab child))
        (shorter : length (lab k) < length (lab child)) where
      link_falls :
          (n : ℕ)
          → n < length m.edges
          → (fail_of (link m child k) n < length m.edges)
            × IsPrefix (lab (fail_of (link m child k) n)) (lab n)
            × (n ≢ 0 → length (lab (fail_of (link m child k) n)) < length (lab n))
      link_falls n nlt = rw (fail-link n) (elim (Bool-cases (child == n)) [
        | inl e ↦
            let here : child ≡ n = (==_iff child n).0 e in
            subst
              (λ (j : ℕ).
                (j < length m.edges)
                × IsPrefix (lab j) (lab n)
                × (n ≢ 0 → length (lab j) < length (lab n)))
              (ground arith)
              (
                klt,
                subst (λ i. IsPrefix (lab k) (lab i)) here part,
                λ pos. subst (λ i. length (lab k) < length (lab i)) here shorter,
              )
        | inr e ↦ ground (arith, l.falls n nlt)
      ])

      link_shown : (n : ℕ) → All (IsOutput phrases (lab n)) (outputs_of (link m child k) n)
      link_shown n = rw (outputs-link n) (elim (Bool-cases (child == n)) [
        | inl e ↦
            let both =
              All-append (IsOutput phrases (lab child)) (outputs_of m child) (outputs_of m k)
                (l.shown child)
                (All-map (IsOutput phrases (lab k)) (IsOutput phrases (lab child)) (outputs_of m k)
                  (λ p h. (IsPrefix-trans (onto p []) (lab k) (lab child) h.0 part, h.1))
                  (l.shown k)) in
            ground (
              arith,
              subst (λ i. All (IsOutput phrases (lab i)) (outputs_of m child ++ outputs_of m k))
                  ((==_iff child n).0 e) both,
            )
        | inr e ↦ ground (arith, l.shown n)
      ])

      pub link-IsLabelled : IsLabelled phrases lab (link m child k)
      unfolding link
      link-IsLabelled = record {
        trie = l.trie;
        fails = length-set m.fail child k ∙ l.fails;
        outs = length-set m.outputs child (outputs_of m child ++ outputs_of m k) ∙ l.outs;
        falls = link_falls;
        shown = link_shown;
      }

      -- With the longest fallback, the child is done.
      pub link-IsDone :
          ((s : Text)
            → IsLabel lab (length m.edges) s
            → IsPrefix s (lab child)
            → length s < length (lab child)
            → IsPrefix s (lab k))
          → AllOwned m
          → ShowsAll m k
          → IsDone (link m child k) child
      unfolding link
      link-IsDone longest owned shows = (
        λ s label within short.
            subst (λ i. IsPrefix s (lab i)) (sym (fail-link child ∙ ground arith))
              (longest s label within short),
        λ p listed some_text within.
            let (n, nlt, e, has) = owned p listed in
            elim (dec_lt (length (onto p [])) (length (lab child))) [
              | yes lt ↦
                  let there =
                    shows p listed some_text (longest (onto p []) (n, nlt, e) within lt) in
                  ground (
                    arith,
                    outputs-link child,
                    is_in-append_right p (outputs_of m child) (outputs_of m k) there,
                  )
              | no ge ↦
                  let whole : onto p [] ≡ lab child =
                    IsPrefix-whole (onto p []) (lab child) within (omega arith) in
                  let here : n ≡ child = l.trie.unique n child nlt clt (e ∙ whole) in
                  outputs_kept child p (subst (λ i. is_in p (outputs_of m i) ≡ true) here has)
            ],
      )
