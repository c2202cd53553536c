-- ===== src/Worker/Matcher/Fall.antt =====
-- worker/custom_matcher.py: the inner `while` loops, which follow the fallbacks of a node until a
-- character can be read.
use alert_bot_project.Common.{
  ℕ, zero, suc, ◌≤◌, ◌<◌, Text, ◌≡◌, ◌≢◌, refl, sym, ◌∙◌, ap, subst, ◌⊎◌, inl, inr, Option, none,
  some, List, [], ◌∷◌, length, arith, Option-cases, Bool-cases, dec_lt, ◌==◌,
}
use alert_bot_project.Worker.Matcher.{Machine, edge_at, row, fail_of, fall, target}
use alert_bot_project.Worker.Matcher.Labels.{
  IsPrefix, IsPrefix-refl, IsPrefix-trans, IsTrie, IsLabelled, edge_lem, edge_missing,
}

pub length-IsPrefix : (s t : Text) → IsPrefix s t → length s ≤ length t
length-IsPrefix [] t h = omega arith
length-IsPrefix (a ∷ s) [] h = absurd h
length-IsPrefix (a ∷ s) (b ∷ t) h = omega (arith, length-IsPrefix s t h.1)

pub IsPrefix-whole : (s t : Text) → IsPrefix s t → length t ≤ length s → s ≡ t
IsPrefix-whole [] [] h lt = refl
IsPrefix-whole [] (b ∷ t) h lt = absurd (omega arith)
IsPrefix-whole (a ∷ s) [] h lt = absurd h
IsPrefix-whole (a ∷ s) (b ∷ t) h lt = cc (IsPrefix-whole s t h.1 (omega arith), h.0)

-- A node spells the text.
abbrev pub IsLabel : (ℕ → Text) → ℕ → Text → Type 0
IsLabel lab size s = (n : ℕ) × (n < size) × (lab n ≡ s)

-- The fallback of a node is the longest proper part of its label that is a label.
abbrev pub IsLongest : (ℕ → Text) → Machine → ℕ → Type 0
IsLongest lab m n =
    (s : Text)
    → IsLabel lab (length m.edges) s
    → IsPrefix s (lab n)
    → length s < length (lab n)
    → IsPrefix s (lab (fail_of m n))

module _ {phrases : List Text} {lab : ℕ → Text} {m : Machine} (l : IsLabelled phrases lab m) where
  abbrev trie : IsTrie lab m.edges
  trie = l.trie

  pub IsLabel-tail :
      (c : ℕ) (s : Text) → IsLabel lab (length m.edges) (c ∷ s) → IsLabel lab (length m.edges) s
  IsLabel-tail c s (k, klt, e) = elim (dec_lt 0 k) [
    | yes pos ↦
        let (n, d, nlt, edge) = trie.parents k klt (omega arith) in
        (n, nlt, ground (arith, edge_lem trie n d k edge, e))
    | no root ↦
        let zero_root : k ≡ 0 = omega arith in
        absurd (ground (arith, ap lab zero_root, trie.rooted, e))
  ]

  abbrev pub CanRead : ℕ → ℕ → Type 0
  CanRead f c = (f ≡ 0) ⊎ ((child : ℕ) × (edge_at c (row m f) ≡ some child))

  -- Nothing that can be read on is lost on the way from one node to the other.
  abbrev pub Keeps : ℕ → ℕ → ℕ → Type 0
  Keeps c n f =
      ((k : ℕ) → k < length m.edges → length (lab k) ≤ length (lab n) → IsLongest lab m k)
      → (s : Text) → IsLabel lab (length m.edges) (c ∷ s)
      → IsPrefix s (lab n)
      → IsPrefix s (lab f)

  abbrev pub Falls : ℕ → ℕ → Option ℕ → Type 0
  Falls n c r =
      (f : ℕ) × (r ≡ some f)
      × (f < length m.edges)
      × IsPrefix (lab f) (lab n)
      × CanRead f c
      × Keeps c n f

  Keeps-step :
      (c n f : ℕ)
      → n < length m.edges
      → n ≢ 0
      → edge_at c (row m n) ≡ none
      → Keeps c (fail_of m n) f
      → Keeps c n f
  Keeps-step c n f nlt pos missing keeps longest s label part =
      let (flt, within, shorter) = l.falls n nlt in
      keeps (λ k klt le. longest k klt (omega (arith, shorter pos))) s label
        (elim (dec_lt (length s) (length (lab n))) [
          | yes lt ↦ longest n nlt (omega arith) s (IsLabel-tail c s label) part lt
          | no ge ↦
              let (k, klt, e) = label in
              let whole : s ≡ lab n = IsPrefix-whole s (lab n) part (omega arith) in
              absurd (edge_missing trie n c k nlt klt missing (e ∙ ap (λ t. c ∷ t) whole))
        ])

  -- The loop ends within as many rounds as the label is long, and one.
  pub fall_lem :
      (fuel n c : ℕ) → n < length m.edges → length (lab n) < fuel → Falls n c (fall m fuel n c)
  unfolding fall
  fall_lem zero n c nlt h = absurd (omega arith)
  fall_lem (suc fuel) n c nlt h = elim (Bool-cases (n == 0)) [
    | inl root ↦ (
      n,
      ground arith,
      nlt,
      IsPrefix-refl (lab n),
      inl (ground arith),
      λ longest s label part. part,
    )
    | inr other ↦ elim (Option-cases (edge_at c (row m n))) [
      | inl missing ↦
          let (flt, within, shorter) = l.falls n nlt in
          let pos : n ≢ 0 = ground arith in
          let (f, e, ok, part, can, keeps) =
            fall_lem fuel (fail_of m n) c flt (omega (arith, shorter pos)) in
          (
            f,
            ground arith,
            ok,
            IsPrefix-trans (lab f) (lab (fail_of m n)) (lab n) part within,
            can,
            Keeps-step c n f nlt pos missing keeps,
          )
      | inr (child, e) ↦ (
        n,
        ground arith,
        nlt,
        IsPrefix-refl (lab n),
        inr (child, e),
        λ longest s label part. part,
      )
    ]
  ]

  -- `k` is where `c` is read after `f`: its label ends what is read, and keeps all labels.
  abbrev pub Reads : ℕ → ℕ → ℕ → Type 0
  Reads f c k =
      (k < length m.edges)
      × IsPrefix (lab k) (c ∷ lab f)
      × ((s : Text)
          → IsLabel lab (length m.edges) (c ∷ s)
          → IsPrefix s (lab f)
          → IsPrefix (c ∷ s) (lab k))

  target-none : (f c : ℕ) → edge_at c (row m f) ≡ none → target m f c ≡ 0
  target-none f c e = ground arith

  target-some : (f c k : ℕ) → edge_at c (row m f) ≡ some k → target m f c ≡ k
  target-some f c k e = ground arith

  Reads-root : (c : ℕ) → edge_at c (row m 0) ≡ none → Reads 0 c 0
  Reads-root c missing = (
    trie.rooted.0,
    subst (λ t. IsPrefix t (c ∷ lab 0)) (sym trie.rooted.1) tt,
    λ s label part.
        let (k, klt, e) = label in
        let short = length-IsPrefix s (lab 0) part in
        let same : s ≡ lab 0 =
          IsPrefix-whole s (lab 0) part (omega (arith, ap length trie.rooted.1)) in
        absurd (edge_missing trie 0 c k trie.rooted.0 klt missing (e ∙ ap (λ t. c ∷ t) same)),
  )

  Reads-child : (f c k : ℕ) → edge_at c (row m f) ≡ some k → Reads f c k
  Reads-child f c k e =
      let (_, klt, spelt) = edge_lem trie f c k e in
      (
        klt,
        subst (λ t. IsPrefix t (c ∷ lab f)) (sym spelt) (IsPrefix-refl (c ∷ lab f)),
        λ s label part. subst (λ t. IsPrefix (c ∷ s) t) (sym spelt) (refl, part),
      )

  pub target_lem : (f c : ℕ) → CanRead f c → Reads f c (target m f c)
  target_lem f c can = elim (Option-cases (edge_at c (row m f))) [
    | inl missing ↦
        let root : f ≡ 0 = ground (arith, can) in
        subst (Reads f c) (sym (target-none f c missing)) (
          subst (λ i. Reads i c 0) (sym root)
            (Reads-root c (subst (λ i. edge_at c (row m i) ≡ none) root missing)))
    | inr (child, e) ↦ subst (Reads f c) (sym (target-some f c child e)) (Reads-child f c child e)
  ]
