-- ===== src/Worker/Matcher/Queue.antt =====
-- worker/custom_matcher.py: the second loop of `_build`, over the queue of nodes, ends with every
-- node done.
use alert_bot_project.Common.{
  ℕ, ◌≤◌, ◌<◌, Text, ◌≡◌, ◌≢◌, refl, sym, ap, subst, ◌⊎◌, Option, some, List, [], ◌∷◌, length,
  arith, ℕ_discrete,
}
use alert_bot_project.Worker.Matcher.{Machine, fail_of, fall, target, link}
use alert_bot_project.Worker.Matcher.Labels.{IsPrefix, IsPrefix-trans, IsLabelled}
use alert_bot_project.Worker.Matcher.Fall.{
  IsLabel, IsLabel-tail, length-IsPrefix, Reads, Keeps, fall_lem, target_lem,
}
use alert_bot_project.Worker.Matcher.Links.{
  IsDone, AllOwned, link-AllOwned, link-IsDone_other, link-IsLabelled, link-IsDone,
}

abbrev pub IsIn : ℕ → List ℕ → Type 0
IsIn k [] = ⊥
IsIn k (x ∷ xs) = (x ≡ k) ⊎ IsIn k xs

module _ (phrases : List Text) (lab : ℕ → Text) where
  -- The machine while all nodes down to a depth are done.
  pub record IsDoneTo (depth : ℕ) (m : Machine) : Type 0 where
    pub labelled : IsLabelled phrases lab m
    pub owned : AllOwned phrases lab m
    pub done : (n : ℕ) → n < length m.edges → length (lab n) ≤ depth → IsDone phrases lab m n

  -- One child: its fallback is found, and it is done.
  abbrev pub Linked : ℕ → Machine → ℕ → Option ℕ → ℕ → Type 0
  Linked depth m child r c =
      (f : ℕ) × (r ≡ some f)
      × IsDoneTo depth (link m child (target m f c))
      × IsDone phrases lab (link m child (target m f c)) child
      × ((n : ℕ) → IsDone phrases lab m n → IsDone phrases lab (link m child (target m f c)) n)

  module _ (depth : ℕ) (m : Machine) (d : IsDoneTo depth m) (node c child : ℕ)
      (nlt : node < length m.edges) (pos : node ≢ 0) (deep : length (lab node) ≡ depth)
      (clt : child < length m.edges) (spelt : lab child ≡ c ∷ lab node) where
    open d use {labelled, owned, done}

    module _ (f k : ℕ) (within : IsPrefix (lab f) (lab (fail_of m node)))
        (keeps : Keeps labelled c (fail_of m node) f) (reads : Reads labelled f c k) where
      fallback_part : IsPrefix (lab k) (lab child) × (length (lab k) < length (lab child))
      fallback_part =
          let (flt, low, shorter) = labelled.falls node nlt in
          let higher = IsPrefix-trans (lab f) (lab (fail_of m node)) (lab node) within low in
          let one : IsPrefix (c ∷ lab f) (c ∷ lab node) = (refl, higher) in
          let f_short = length-IsPrefix (lab f) (lab (fail_of m node)) within in
          let k_short = length-IsPrefix (lab k) (c ∷ lab f) reads.1 in
          (
            subst (IsPrefix (lab k)) (sym spelt)
                (IsPrefix-trans (lab k) (c ∷ lab f) (c ∷ lab node) reads.1 one),
            omega (arith, shorter pos, ap length spelt),
          )

      fallback_longest :
          (s : Text)
          → IsLabel lab (length m.edges) s
          → IsPrefix s (lab child)
          → length s < length (lab child)
          → IsPrefix s (lab k)
      fallback_longest [] label part short = tt
      fallback_longest (a ∷ s) label part short =
          let here : IsPrefix (a ∷ s) (c ∷ lab node) = subst (IsPrefix (a ∷ s)) spelt part in
          let label' = subst (λ b. IsLabel lab (length m.edges) (b ∷ s)) here.0 label in
          let tail = IsLabel-tail labelled c s label' in
          let lower =
            (done node nlt (omega arith)).0 s tail here.1 (omega (arith, ap length spelt)) in
          let shorter = (labelled.falls node nlt).2 pos in
          let read =
            reads.2 s label' (keeps (λ n h le. (done n h (omega arith)).0) s label' lower) in
          subst (λ b. IsPrefix (b ∷ s) (lab k)) (sym here.0) read

      child-IsDone : IsDone phrases lab (link m child k) child
      child-IsDone =
          link-IsDone phrases lab m labelled child k clt reads.0 fallback_part.0 fallback_part.1
            fallback_longest owned
            (done k reads.0 (omega (arith, fallback_part.1, ap length spelt))).1

      others-IsDone : (n : ℕ) → IsDone phrases lab m n → IsDone phrases lab (link m child k) n
      others-IsDone n h = elim (ℕ_discrete child n) [
        | yes same ↦ subst (λ i. IsDone phrases lab (link m child k) i) same child-IsDone
        | no other ↦ link-IsDone_other phrases lab m labelled child k clt reads.0 n other h
      ]

      all_done : IsDoneTo depth (link m child k)
      unfolding link
      all_done = record {
        labelled =
            link-IsLabelled phrases lab m labelled child k clt reads.0 fallback_part.0
              fallback_part.1;
        owned = link-AllOwned phrases lab m labelled child k clt reads.0 owned;
        done = λ n h le. others-IsDone n (done n h le);
      }

    pub link_child : Linked depth m child (fall m (length m.edges) (fail_of m node) c) c
    link_child =
        let (flt, low, shorter) = labelled.falls node nlt in
        let (f, e, ok, within, can, keeps) =
          fall_lem labelled (length m.edges) (fail_of m node) c flt
            (omega (arith, shorter pos, labelled.trie.deep node nlt)) in
        let reads = target_lem labelled f c can in
        (
          f,
          e,
          all_done f (target m f c) within keeps reads,
          child-IsDone f (target m f c) within keeps reads,
          others-IsDone f (target m f c) within keeps reads,
        )
