-- ===== src/Worker/Matcher/Found.antt =====
-- worker/custom_matcher.py: what `_match` collects on its way through the text.
use alert_bot_project.Common.{
  ℕ, ◌+◌, ◌<◌, Text, ◌≡◌, ◌≢◌, refl, sym, ◌∙◌, ap, subst, ◌⊎◌, inl, inr, Bool, true, false, not,
  ◌&&◌, ◌||◌, some, List, [], ◌∷◌, ◌++◌, All, length, arith, Bool-cases, is_in, same, if◌then◌else◌,
  same_self, Text-discrete,
}
use alert_bot_project.Worker.Matcher.{
  Machine, outputs_of, fall, target, stands, add_matches, scan_text,
}
use alert_bot_project.Worker.Matcher.Labels.{IsPrefix, IsPrefix-trans, onto, IsOutput}
use alert_bot_project.Worker.Matcher.Fall.{
  IsLabel, IsLabel-tail, Reads, Keeps, fall_lem, target_lem,
}
use alert_bot_project.Worker.Matcher.Built.{IsComplete}

is_in-append : (t : Text) (xs ys : List Text) → is_in t (xs ++ ys) ≡ (is_in t xs || is_in t ys)
is_in-append t [] ys = refl
is_in-append t (x ∷ xs) ys = ground (arith, is_in-append t xs ys)

All-is_in {κ} : (P : Text → Type κ) (t : Text) (xs : List Text) → All P xs → is_in t xs ≡ true → P t
All-is_in P t [] h e = absurd (ground arith)
All-is_in P t (x ∷ xs) h e = elim (Text-discrete t x) [
  | yes same_text ↦ subst P (sym same_text) h.0
  | no other ↦ All-is_in P t xs h.1 (ground arith)
]

is_in-add :
    (p q : Text) (stands_here : Bool) (matches : List Text)
    → is_in p (if stands_here && not (is_in q matches) then matches ++ q ∷ [] else matches)
      ≡ (is_in p matches || (same p q && stands_here))
is_in-add p q false matches = ground arith
is_in-add p q true matches = elim (Text-discrete p q) [
  | yes this ↦
      subst
        (λ t.
          is_in p (if not (is_in t matches) then matches ++ t ∷ [] else matches)
          ≡ (is_in p matches || (same p t && true)))
        this (ground (arith, is_in-append p matches (p ∷ []), same_self p))
  | no other ↦ ground (arith, is_in-append p matches (q ∷ []))
]

module _ (is_alnum : ℕ → Bool) where
  add_matches_lem :
      (text : Text) (end : ℕ) (p : Text) (ps matches : List Text)
      → is_in p (add_matches is_alnum text end ps matches)
        ≡ (is_in p matches || (is_in p ps && stands is_alnum text end p))
  unfolding add_matches
  add_matches_lem text end p [] matches = ground arith
  add_matches_lem text end p (q ∷ ps) matches =
      let more =
        if stands is_alnum text end q && not (is_in q matches)
        then matches ++ q ∷ []
        else matches in
      let rest = add_matches_lem text end p ps more in
      let one = is_in-add p q (stands is_alnum text end q) matches in
      elim (Text-discrete p q) [
        | yes this ↦ let there = ap (stands is_alnum text end) this in ground arith
        | no other ↦ ground arith
      ]

  -- The phrase ends at some character of the rest, and stands as a word there.
  abbrev pub FoundIn : Text → Text → Text → Text → Type 0
  FoundIn text read [] p = ⊥
  FoundIn text read (c ∷ cs) p =
      IsPrefix (onto p []) (c ∷ read) × (stands is_alnum text (length read) p ≡ true)
      ⊎ FoundIn text (c ∷ read) cs p

  module _ {phrases : List Text} {lab : ℕ → Text} {m : Machine} (b : IsComplete phrases lab m) where
    -- The node has read as much of the end of the text as any label.
    abbrev pub IsAt : Text → ℕ → Type 0
    IsAt read node =
        (node < length m.edges)
        × IsPrefix (lab node) read
        × ((s : Text) → IsLabel lab (length m.edges) s → IsPrefix s read → IsPrefix s (lab node))

    abbrev pub Collects : Text → Text → Text → List Text → List Text → Type 0
    Collects text read cs matches r =
        (p : Text)
        → (is_in p r ≡ true
            → (is_in p matches ≡ true) ⊎ ((is_in p phrases ≡ true) × FoundIn text read cs p))
          × (is_in p matches ≡ true → is_in p r ≡ true)
          × (is_in p phrases ≡ true → p ≢ [] → FoundIn text read cs p → is_in p r ≡ true)

    pub IsAt-root : IsAt [] 0
    IsAt-root =
        let (some_node, empty) = b.labelled.trie.rooted in
        (some_node, subst (λ t. IsPrefix t []) (sym empty) tt, short)
      where
        short : (s : Text) → IsLabel lab (length m.edges) s → IsPrefix s [] → IsPrefix s (lab 0)
        short [] label part = tt
        short (a ∷ s) label part = absurd part

    longest_read :
        (read : Text) (node c f k : ℕ)
        → IsAt read node
        → Keeps b.labelled c node f
        → Reads b.labelled f c k
        → (s : Text) → IsLabel lab (length m.edges) s
        → IsPrefix s (c ∷ read)
        → IsPrefix s (lab k)
    longest_read read node c f k at keeps reads [] label part = tt
    longest_read read node c f k at keeps reads (a ∷ s) label part =
        let label' = subst (λ x. IsLabel lab (length m.edges) (x ∷ s)) part.0 label in
        let before = at.2 s (IsLabel-tail b.labelled c s label') part.1 in
        let kept = keeps (λ n nlt le. (b.done n nlt).0) s label' before in
        subst (λ x. IsPrefix (x ∷ s) (lab k)) (sym part.0) (reads.2 s label' kept)

    one_char :
        (read : Text) (node c : ℕ)
        → IsAt read node
        → (f : ℕ) × (fall m (length m.edges) node c ≡ some f) × IsAt (c ∷ read) (target m f c)
    one_char read node c at =
        let l = b.labelled in
        let (f, e, flt, within, can, keeps) =
          fall_lem l (length m.edges) node c at.0 (omega (arith, l.trie.deep node at.0)) in
        let reads = target_lem l f c can in
        let higher : IsPrefix (c ∷ lab f) (c ∷ read) =
          (refl, IsPrefix-trans (lab f) (lab node) read within at.1) in
        (
          f,
          e,
          (
            reads.0,
            IsPrefix-trans (lab (target m f c)) (c ∷ lab f) (c ∷ read) reads.1 higher,
            longest_read read node c f (target m f c) at keeps reads,
          ),
        )

    -- The outputs of the node are the phrases that end what has been read.
    outputs_lem :
        (read : Text) (k : ℕ) (p : Text)
        → IsAt read k
        → (is_in p (outputs_of m k) ≡ true → (is_in p phrases ≡ true) × IsPrefix (onto p []) read)
          × (is_in p phrases ≡ true
              → p ≢ []
              → IsPrefix (onto p []) read
              → is_in p (outputs_of m k) ≡ true)
    outputs_lem read k p (klt, part, longest) = (
      λ h.
          let (ends, listed) =
            All-is_in (IsOutput phrases (lab k)) p (outputs_of m k) (b.labelled.shown k) h in
          (listed, IsPrefix-trans (onto p []) (lab k) read ends part),
      λ listed some_text ends.
          let (n, nlt, e, _) = b.owned p listed in
          (b.done k klt).1 p listed some_text (longest (onto p []) (n, nlt, e) ends),
    )

    Collects-step :
        (text read cs : Text) (c k : ℕ) (matches r : List Text)
        → IsAt (c ∷ read) k
        → Collects text
            (c ∷ read)
            cs
            (add_matches is_alnum text (length read) (outputs_of m k) matches)
            r
        → Collects text read (c ∷ cs) matches r
    Collects-step text read cs c k matches r at all p =
        let added = add_matches_lem text (length read) p (outputs_of m k) matches in
        let (shown, shows) = outputs_lem (c ∷ read) k p at in
        let (sound, kept, complete) = all p in
        (
          λ h. elim (sound h) [
            | inr (listed, later) ↦ inr (listed, inr later)
            | inl more ↦ elim (Bool-cases (is_in p matches)) [
              | inl old ↦ inl old
              | inr new ↦
                  let (listed, ends) = shown (ground arith) in
                  inr (listed, inl (ends, ground arith))
            ]
          ],
          λ old. kept (ground arith),
          λ listed some_text. elim [
            | inl (ends, stand) ↦ let there = shows listed some_text ends in kept (ground arith)
            | inr later ↦ complete listed some_text later
          ],
        )

    scan_text-some :
        (text cs : Text) (node end c f : ℕ) (matches : List Text)
        → fall m (length m.edges) node c ≡ some f
        → scan_text is_alnum m text node end (c ∷ cs) matches
          ≡ scan_text is_alnum m text
              (target m f c)
              (end + 1)
              cs
              (add_matches is_alnum text end (outputs_of m (target m f c)) matches)
    unfolding scan_text
    scan_text-some text cs node end c f matches e = ground arith

    pub scan_text_lem :
        (text read cs : Text) (node : ℕ) (matches : List Text)
        → IsAt read node
        → (r : List Text) × (scan_text is_alnum m text node (length read) cs matches ≡ some r)
          × Collects text read cs matches r
    unfolding scan_text
    scan_text_lem text read [] node matches at =
        (matches, refl, λ p. (λ h. inl h, λ h. h, λ listed some_text nowhere. absurd nowhere))
    scan_text_lem text read (c ∷ cs) node matches at =
        let (f, e, at') = one_char read node c at in
        let k = target m f c in
        let more = add_matches is_alnum text (length read) (outputs_of m k) matches in
        let next : length read + 1 ≡ length (c ∷ read) = omega arith in
        let (r, e', all) = scan_text_lem text (c ∷ read) cs k more at' in
        (
          r,
          scan_text-some text cs node (length read) c f matches e
              ∙ ap (λ i. scan_text is_alnum m text k i cs more) next
              ∙ e',
          Collects-step text read cs c k matches r at' all,
        )
