-- ===== src/Worker/Matcher/Rows.antt =====
-- worker/custom_matcher.py: one round of the second loop of `_build`, over the children of a node.
use alert_bot_project.Common.{
  ℕ, suc, ◌+◌, ◌-◌, ◌^◌, ◌≤◌, ◌<◌, Text, ◌≡◌, ◌≢◌, refl, sym, ◌∙◌, ap, subst, ◌⊎◌, inl, inr, Option,
  some, List, [], ◌∷◌, ◌++◌, length, arith, Bool-cases, ◌==◌,
}
use native.Mathlib.Nat.{one-le-pow, pow-le-pow_right, two-pow-succ}
use alert_bot_project.Worker.Matcher.{Edges, Machine, edge_at, target, link, link_row, children}
use alert_bot_project.Worker.Matcher.Labels.{IsRow}
use alert_bot_project.Worker.Matcher.Links.{IsDone}
use alert_bot_project.Worker.Matcher.Queue.{IsIn, IsDoneTo, link_child}

pub IsIn-append_left : (k : ℕ) (xs ys : List ℕ) → IsIn k xs → IsIn k (xs ++ ys)
IsIn-append_left k [] ys h = absurd h
IsIn-append_left k (x ∷ xs) ys (inl e) = inl e
IsIn-append_left k (x ∷ xs) ys (inr h) = inr (IsIn-append_left k xs ys h)

pub IsIn-append_right : (k : ℕ) (xs ys : List ℕ) → IsIn k ys → IsIn k (xs ++ ys)
IsIn-append_right k [] ys h = h
IsIn-append_right k (x ∷ xs) ys h = inr (IsIn-append_right k xs ys h)

pub edge_at-IsIn : (c k : ℕ) (r : Edges) → edge_at c r ≡ some k → IsIn k (children r)
unfolding edge_at
edge_at-IsIn c k [] e = absurd (ground arith)
edge_at-IsIn c k ((d, child) ∷ r) e = elim (Bool-cases (d == c)) [
  | inl this ↦ inl (ground arith)
  | inr other ↦ inr (edge_at-IsIn c k r (ground arith))
]

pub IsIn-split : (k : ℕ) (xs ys : List ℕ) → IsIn k (xs ++ ys) → IsIn k xs ⊎ IsIn k ys
IsIn-split k [] ys h = inr h
IsIn-split k (x ∷ xs) ys (inl e) = inl (inl e)
IsIn-split k (x ∷ xs) ys (inr h) = ground (arith, IsIn-split k xs ys h)

pub children-IsRow :
    (lab : ℕ → Text) (size node low k : ℕ) (r : Edges)
    → IsRow lab size node low r
    → IsIn k (children r)
    → (k < size) × (length (lab k) ≡ suc (length (lab node)))
children-IsRow lab size node low k [] h there = absurd there
children-IsRow lab size node low k ((c, child) ∷ r) h (inl e) =
    (ground (arith, h), ap (λ i. length (lab i)) (sym e) ∙ ap length h.2)
children-IsRow lab size node low k ((c, child) ∷ r) h (inr there) =
    children-IsRow lab size node child k r h.3 there

-- The rounds that the nodes of a queue may cost.
unfoldable pub weight : ℕ → List ℕ → ℕ
weight size [] = 0
weight size (k ∷ ks) = 2 ^ (size - k) + weight size ks

pub weight-append :
    (size : ℕ) (xs ys : List ℕ) → weight size (xs ++ ys) ≡ weight size xs + weight size ys
unfolding weight
weight-append size [] ys = omega arith
weight-append size (x ∷ xs) ys = omega (arith, weight-append size xs ys)

-- The children of a node cost less than the node.
pub weight-children :
    (lab : ℕ → Text) (size node low : ℕ) (r : Edges)
    → low < size
    → IsRow lab size node low r
    → weight size (children r) < 2 ^ (size - low)
unfolding weight
weight-children lab size node low [] lt h = one-le-pow (size - low) 2 (omega arith)
weight-children lab size node low ((c, k) ∷ r) lt h =
    let apart : size - low ≡ suc (size - low - 1) = omega arith in
    let half : 2 ^ (size - k) ≤ 2 ^ (size - low - 1) =
      pow-le-pow_right {n = 2} (omega arith) (omega (arith, h.0, h.1)) in
    let rest : weight size (children r) < 2 ^ (size - k) =
      weight-children lab size node k r h.1 h.3 in
    omega (arith, ap (λ (n : ℕ). 2 ^ n) apart, two-pow-succ (size - low - 1))

module _ (phrases : List Text) (lab : ℕ → Text) (depth : ℕ) where
  -- After a row: no edge has changed, all that was done is done, and so are the children.
  abbrev pub Rowed : Machine → Edges → Option Machine → Type 0
  Rowed m r result =
      (m' : Machine) × (result ≡ some m')
      × (m'.edges ≡ m.edges)
      × IsDoneTo phrases lab depth m'
      × ((n : ℕ) → IsDone phrases lab m n → IsDone phrases lab m' n)
      × ((k : ℕ) → IsIn k (children r) → IsDone phrases lab m' k)

  pub link_row_lem :
      (m : Machine) (node low : ℕ) (r : Edges)
      → IsDoneTo phrases lab depth m
      → node < length m.edges
      → node ≢ 0
      → length (lab node) ≡ depth
      → IsRow lab (length m.edges) node low r
      → Rowed m r (link_row m node r)
  unfolding link_row link
  link_row_lem m node low [] d nlt pos deep h =
      (m, refl, refl, d, λ n done. done, λ k none_there. absurd none_there)
  link_row_lem m node low ((c, child) ∷ r) d nlt pos deep h =
      let (f, e, d', now, stays) =
        link_child phrases lab depth m d node c child nlt pos deep h.1 h.2 in
      let (m', e', edges, d2, stays', all) =
        link_row_lem (link m child (target m f c)) node child r d' nlt pos deep h.3 in
      (
        m',
        ground arith,
        edges,
        d2,
        λ n done. stays' n (stays n done),
        λ k. elim [
          | inl same ↦ subst (IsDone phrases lab m') same (stays' child now)
          | inr later ↦ all k later
        ],
      )
