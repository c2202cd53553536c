-- ===== src/Worker/Matcher/Exact.antt =====
-- worker/custom_matcher.py: the matcher finds what a search of the text for each phrase finds.
use alert_bot_project.Common.{
  sorted, is_in-sorted, ℕ, Text, ◌≡◌, ◌≢◌, refl, sym, ◌∙◌, ap, subst, ◌⊎◌, inl, inr, ◌↔◌, Bool,
  true, false, ◌&&◌, Option, some, List, [], ◌∷◌, ◌++◌, length, arith, is_in, same_self,
  append_assoc, append-nil, Text-discrete,
}
use alert_bot_project.Shared.WordSearch.{short_suffix, search}
use alert_bot_project.Shared.WordSearch.Occurrence.{
  joined_after, Occurs, short_suffix_lem, short_suffix-IsShort, search_iff,
}
use alert_bot_project.Worker.Matcher.{
  Machine, word_char, stands, build, find_matches, CustomTriggerMatcher, same_version,
}
use alert_bot_project.Worker.Matcher.Labels.{IsPrefix, onto}
use alert_bot_project.Worker.Matcher.Built.{IsComplete, build_lem}
use alert_bot_project.Worker.Matcher.Bounds.{
  onto-append, onto_apart, onto-onto, IsPrefix-rest, IsPrefix-append, behind, behind_lem,
  stands_lem,
}
use alert_bot_project.Worker.Matcher.Found.{FoundIn, scan_text_lem, IsAt-root}

last_split : (p : Text) → p ≢ [] → (q : Text) × (c : ℕ) × (p ≡ q ++ c ∷ [])
last_split [] h = absurd (h refl)
last_split (a ∷ []) h = ([], a, refl)
last_split (a ∷ b ∷ p) h =
    let (q, c, e) = last_split (b ∷ p) (λ e. cc) in (a ∷ q, c, ap (λ t. a ∷ t) e)

module _ (is_alnum : ℕ → Bool) where
  abbrev word : ℕ → Bool
  word = word_char is_alnum

  FoundIn-Occurs :
      (read cs p : Text)
      → FoundIn is_alnum (onto read cs) read cs p
      → Occurs word false (p ∷ []) (onto read cs)
  unfolding onto
  FoundIn-Occurs read [] p h = absurd h
  FoundIn-Occurs read (c ∷ cs) p (inr later) = FoundIn-Occurs (c ∷ read) cs p later
  FoundIn-Occurs read (c ∷ cs) p (inl (ends, stand)) =
      let (r, e) = IsPrefix-rest (onto p []) (c ∷ read) ends in
      let both = stands_lem is_alnum p r (c ∷ read) cs (length read) e refl in
      let text : onto (c ∷ read) cs ≡ onto r [] ++ (p ++ cs) =
        ap (λ t. onto t cs) e
        ∙ onto-append (onto p []) r cs
        ∙ ap (onto r) (onto-onto p [] cs)
        ∙ onto_apart r (p ++ cs) in
      (
        onto r [],
        p,
        cs,
        text,
        ground (arith, same_self p),
        behind_lem is_alnum r ∙ ground arith,
        short_suffix_lem word 3 cs (ground arith),
      )

  FoundIn-at :
      (text read xs cs p : Text) (c : ℕ)
      → IsPrefix (onto p []) (c ∷ onto xs read)
      → stands is_alnum text (length (onto xs read)) p ≡ true
      → FoundIn is_alnum text read (xs ++ (c ∷ cs)) p
  unfolding onto
  FoundIn-at text read [] cs p c ends stand = inl (ends, stand)
  FoundIn-at text read (x ∷ xs) cs p c ends stand =
      inr (FoundIn-at text (x ∷ read) xs cs p c ends stand)

  module _ (before q rest : Text) (c : ℕ) where
    abbrev phrase : Text
    phrase = q ++ c ∷ []

    abbrev read_on : Text
    read_on = onto (before ++ q) []

    read_phrase : c ∷ read_on ≡ onto phrase [] ++ onto before []
    unfolding onto
    read_phrase =
        ap (λ t. c ∷ t) (onto-append before q [])
        ∙ sym (onto-append q (c ∷ []) (onto before []))
        ∙ onto_apart phrase (onto before [])

    whole_text : before ++ (phrase ++ rest) ≡ onto (c ∷ read_on) rest
    unfolding onto
    whole_text =
        ap (λ t. before ++ t) (append_assoc q (c ∷ []) rest)
        ∙ sym (append_assoc before q (c ∷ rest))
        ∙ sym (onto-onto (before ++ q) [] (c ∷ rest))

    stands_here :
        joined_after word false before ≡ false
        → short_suffix word 3 rest ≡ true
        → stands is_alnum (before ++ (phrase ++ rest)) (length read_on) phrase ≡ true
    unfolding onto
    stands_here apart short =
        let twice : onto (onto before []) [] ≡ before =
          onto-onto before [] [] ∙ append-nil before in
        let free : behind is_alnum (onto before []) ≡ false =
          sym (behind_lem is_alnum (onto before [])) ∙ ap (joined_after word false) twice ∙ apart in
        ap (λ t. stands is_alnum t (length read_on) phrase) whole_text
        ∙ stands_lem is_alnum phrase (onto before []) (c ∷ read_on) rest (length read_on)
            read_phrase refl
        ∙ ground arith

    FoundIn-phrase :
        joined_after word false before ≡ false
        → short_suffix word 3 rest ≡ true
        → FoundIn is_alnum (before ++ (phrase ++ rest)) [] (before ++ (phrase ++ rest)) phrase
    FoundIn-phrase apart short =
        let split : before ++ (phrase ++ rest) ≡ (before ++ q) ++ (c ∷ rest) =
          ap (λ t. before ++ t) (append_assoc q (c ∷ []) rest)
          ∙ sym (append_assoc before q (c ∷ rest)) in
        let ends =
          subst (IsPrefix (onto phrase [])) (sym read_phrase)
            (IsPrefix-append (onto phrase []) (onto before [])) in
        subst (λ t. FoundIn is_alnum (before ++ (phrase ++ rest)) [] t phrase) (sym split)
          (FoundIn-at (before ++ (phrase ++ rest)) [] (before ++ q) rest phrase c ends
            (stands_here apart short))

  Occurs-FoundIn :
      (text p : Text) → p ≢ [] → Occurs word false (p ∷ []) text → FoundIn is_alnum text [] text p
  Occurs-FoundIn text p some_text (before, w, rest, split, listed, apart, short) =
      let (q, c, e) = last_split p some_text in
      let (suffix, after, parts, words, few, behind_it) = short in
      let short' : short_suffix word 3 rest ≡ true =
        ap (short_suffix word 3) parts
        ∙ short_suffix-IsShort word 3 suffix after words few behind_it in
      let this : w ≡ p = only listed in
      let whole : before ++ (p ++ rest) ≡ text =
        sym (split ∙ ap (λ t. before ++ (t ++ rest)) this) in
      subst (λ t. FoundIn is_alnum t [] t p) whole
        (subst (λ t. FoundIn is_alnum (before ++ (t ++ rest)) [] (before ++ (t ++ rest)) t) (sym e)
          (FoundIn-phrase before q rest c apart short'))
    where
      only : is_in w (p ∷ []) ≡ true → w ≡ p
      only h = elim (Text-discrete w p) [ yes e ↦ e | no ne ↦ absurd (ground arith) ]

  -- The phrases of the set that the word search finds in the text.
  abbrev pub IsExact : List Text → Text → List Text → Type 0
  IsExact phrases text r =
      (p : Text)
      → (is_in p r ≡ true) ↔ (is_in p phrases ≡ true) × (search word false (p ∷ []) text ≡ true)

  pub find_matches_lem :
      (phrases : List Text) (m : Machine) (text : Text)
      → build phrases ≡ some m
      → (r : List Text) × (find_matches is_alnum m text ≡ some r)
        × (is_in [] phrases ≡ false → IsExact phrases text r)
  unfolding find_matches onto
  find_matches_lem phrases m text built =
      let (lab, m', e, b) = build_lem phrases in
      let same_machine : m' ≡ m = ground arith in
      let b' = subst (IsComplete phrases lab) same_machine b in
      let (r, e', all) = scan_text_lem is_alnum b' text [] text 0 [] (IsAt-root is_alnum b') in
      let finds = λ (p : Text). search_iff word false (p ∷ []) text in
      (
        sorted r,
        ground arith,
        λ no_empty p. (
          λ h. elim ((all p).0 (sym (is_in-sorted p r) ∙ h)) [
            | inl nowhere ↦ absurd (ground arith)
            | inr (listed, found) ↦ (listed, (finds p).1 (FoundIn-Occurs [] text p found))
          ],
          λ h.
              let some_text : p ≢ [] =
                λ e. absurd (ground (arith, subst (λ t. is_in t phrases ≡ true) e h.0)) in
              is_in-sorted p r
              ∙ (all p).2 h.0 some_text (Occurs-FoundIn text p some_text ((finds p).0 h.1)),
        ),
      )

-- A loaded matcher holds the machine of some set of phrases.
abbrev pub IsBuilt : CustomTriggerMatcher → Type 0
IsBuilt s = (s.loaded ≡ false) ⊎ ((phrases : List Text) × (build phrases ≡ some s.machine))

-- A matcher that need not be loaded again for the version holds the machine of these phrases.
abbrev pub IsCurrent : Option Text → List Text → CustomTriggerMatcher → Type 0
IsCurrent version phrases s =
    ((s.loaded && same_version version s.version) ≡ false) ⊎ (build phrases ≡ some s.machine)
