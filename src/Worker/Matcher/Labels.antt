-- ===== src/Worker/Matcher/Labels.antt =====
-- worker/custom_matcher.py: the path to a node spells a text, its label, here from its last
-- character to its first, so that a fallback is a node whose label is a prefix.
use alert_bot_project.Common.{
  ℕ, ◌+◌, ◌≤◌, ◌<◌, Text, ◌≡◌, ◌≢◌, refl, ◌∙◌, subst, ap, inl, inr, true, none, some, List, [], ◌∷◌,
  All, length, arith, Bool-cases, is_in, get_or, ◌==◌, dec_lt,
}
use alert_bot_project.Worker.Matcher.{Edges, Machine, edge_at, fail_of, outputs_of}

abbrev pub IsPrefix : Text → Text → Type 0
IsPrefix [] t = Unit
IsPrefix (a ∷ s) [] = ⊥
IsPrefix (a ∷ s) (b ∷ t) = (a ≡ b) × IsPrefix s t

pub IsPrefix-refl : (s : Text) → IsPrefix s s
IsPrefix-refl [] = tt
IsPrefix-refl (a ∷ s) = (refl, IsPrefix-refl s)

pub IsPrefix-trans : (s t u : Text) → IsPrefix s t → IsPrefix t u → IsPrefix s u
IsPrefix-trans [] t u h k = tt
IsPrefix-trans (a ∷ s) [] u h k = absurd h
IsPrefix-trans (a ∷ s) (b ∷ t) [] h k = absurd k
IsPrefix-trans (a ∷ s) (b ∷ t) (c ∷ u) h k = (h.0 ∙ k.0, IsPrefix-trans s t u h.1 k.1)

-- `s` written backwards before `w`.
unfoldable pub onto : Text → Text → Text
onto [] w = w
onto (c ∷ s) w = onto s (c ∷ w)

pub length-onto : (s w : Text) → length (onto s w) ≡ length s + length w
unfolding onto
length-onto [] w = omega arith
length-onto (c ∷ s) w = omega (arith, length-onto s (c ∷ w))

-- The edges of a row lead to ever larger nodes, whose labels are one character longer.
abbrev pub IsRow : (ℕ → Text) → ℕ → ℕ → ℕ → Edges → Type 0
IsRow lab size parent low [] = Unit
IsRow lab size parent low ((c, child) ∷ r) =
    (low < child) × (child < size) × (lab child ≡ c ∷ lab parent) × IsRow lab size parent child r

pub edge_at-IsRow :
    (lab : ℕ → Text) (size parent low : ℕ) (r : Edges) (c child : ℕ)
    → IsRow lab size parent low r
    → edge_at c r ≡ some child
    → (low < child) × (child < size) × (lab child ≡ c ∷ lab parent)
unfolding edge_at
edge_at-IsRow lab size parent low [] c child h e = absurd (ground arith)
edge_at-IsRow lab size parent low ((d, k) ∷ r) c child h e = elim (Bool-cases (d == c)) [
  | inl this ↦ ground (arith, h)
  | inr other ↦ ground (arith, edge_at-IsRow lab size parent k r c child h.3)
]

-- What an output of a node is: a phrase that ends its label.
abbrev pub IsOutput : List Text → Text → Text → Type 0
IsOutput phrases label p = IsPrefix (onto p []) label × (is_in p phrases ≡ true)

-- The edges form a tree: every node but the root has a parent, and no two have one label.
pub record IsTrie (lab : ℕ → Text) (edges : List Edges) : Type 0 where
  pub rooted : (0 < length edges) × (lab 0 ≡ [])
  pub rows : (n : ℕ) → IsRow lab (length edges) n n (get_or edges n [])
  pub deep : (n : ℕ) → n < length edges → (length (lab n) ≤ n) × (n ≢ 0 → 0 < length (lab n))
  pub parents :
      (k : ℕ)
      → k < length edges
      → k ≢ 0
      → (n : ℕ) × (c : ℕ) × (n < length edges) × (edge_at c (get_or edges n []) ≡ some k)
  pub unique : (n k : ℕ) → n < length edges → k < length edges → lab n ≡ lab k → n ≡ k

pub record IsLabelled (phrases : List Text) (lab : ℕ → Text) (m : Machine) : Type 0 where
  pub trie : IsTrie lab m.edges
  pub fails : length m.fail ≡ length m.edges
  pub outs : length m.outputs ≡ length m.edges
  pub falls :
      (n : ℕ)
      → n < length m.edges
      → (fail_of m n < length m.edges)
        × IsPrefix (lab (fail_of m n)) (lab n)
        × (n ≢ 0 → length (lab (fail_of m n)) < length (lab n))
  pub shown : (n : ℕ) → All (IsOutput phrases (lab n)) (outputs_of m n)

module _ {lab : ℕ → Text} {edges : List Edges} (t : IsTrie lab edges) where
  -- An edge leads to a larger node, whose label is longer by its character.
  pub edge_lem :
      (n c k : ℕ)
      → edge_at c (get_or edges n []) ≡ some k
      → (n < k) × (k < length edges) × (lab k ≡ c ∷ lab n)
  edge_lem n c k = edge_at-IsRow lab (length edges) n n (get_or edges n []) c k (t.rows n)

  -- Where an edge is missing, no node has the longer label.
  pub edge_missing :
      (n c k : ℕ)
      → n < length edges
      → k < length edges
      → edge_at c (get_or edges n []) ≡ none
      → lab k ≢ c ∷ lab n
  edge_missing n c k lt klt missing e = elim (dec_lt 0 k) [
    | yes pos ↦
        let (p, d, plt, edge) = t.parents k klt (omega arith) in
        let (_, _, spelt) = edge_lem p d k edge in
        let parent : p ≡ n = t.unique p n plt lt (ground (arith, spelt, e)) in
        let char : d ≡ c = ground (arith, spelt, e) in
        cc (
          subst (λ i. edge_at c (get_or edges i []) ≡ some k) parent
            (subst (λ i. edge_at i (get_or edges p []) ≡ some k) char edge))
    | no root ↦ let zero_root : k ≡ 0 = omega arith in ground (arith, ap lab zero_root, t.rooted, e)
  ]
