-- ===== src/Worker/Matcher/Bounds.antt =====
-- worker/custom_matcher.py: the tests of `_match` on the characters before and behind a phrase, and
-- the pattern of core_shared/text_processor.py.
use alert_bot_project.Common.{
  ℕ, zero, suc, ◌+◌, ◌-◌, Text, ◌≡◌, refl, sym, ◌∙◌, ap, inl, inr, Bool, true, false, not, ◌&&◌, [],
  ◌∷◌, ◌++◌, length, arith, Bool-cases, ltb, get_or, append_assoc, length-append, tests, lt→ltb,
}
use alert_bot_project.Shared.WordSearch.{short_suffix}
use alert_bot_project.Shared.WordSearch.Occurrence.{joined_after}
use alert_bot_project.Worker.Matcher.{word_char, word_at, skip_suffix, stands}
use alert_bot_project.Worker.Matcher.Labels.{IsPrefix, onto, length-onto}

pub onto-append : (s t w : Text) → onto (s ++ t) w ≡ onto t (onto s w)
unfolding onto
onto-append [] t w = refl
onto-append (c ∷ s) t w = onto-append s t (c ∷ w)

pub onto_apart : (s w : Text) → onto s w ≡ onto s [] ++ w
unfolding onto
onto_apart [] w = refl
onto_apart (c ∷ s) w =
    onto_apart s (c ∷ w)
    ∙ sym (ap (λ t. t ++ w) (onto_apart s (c ∷ [])) ∙ append_assoc (onto s []) (c ∷ []) w)

pub onto-onto : (s w v : Text) → onto (onto s w) v ≡ onto w (s ++ v)
unfolding onto
onto-onto [] w v = refl
onto-onto (c ∷ s) w v = onto-onto s (c ∷ w) v

pub IsPrefix-rest : (s t : Text) → IsPrefix s t → (r : Text) × (t ≡ s ++ r)
IsPrefix-rest [] t h = (t, refl)
IsPrefix-rest (a ∷ s) [] h = absurd h
IsPrefix-rest (a ∷ s) (b ∷ t) h = let (r, e) = IsPrefix-rest s t h.1 in (r, cc (h.0, e))

pub IsPrefix-append : (s r : Text) → IsPrefix s (s ++ r)
IsPrefix-append [] r = tt
IsPrefix-append (a ∷ s) r = (refl, IsPrefix-append s r)

get_or-onto : (r w : Text) (i d : ℕ) → get_or (onto r w) (length r + i) d ≡ get_or w i d
unfolding onto get_or
get_or-onto [] w i d = ap (λ j. get_or w j d) (omega arith)
get_or-onto (c ∷ r) w i d =
    let next : suc (length r) + i ≡ length r + suc i = omega arith in
    ap (λ j. get_or (onto r (c ∷ w)) j d) next ∙ get_or-onto r (c ∷ w) (suc i) d

module _ (is_alnum : ℕ → Bool) where
  abbrev word : ℕ → Bool
  word = word_char is_alnum

  -- The character before a place of the text.
  abbrev pub behind : Text → Bool
  behind [] = false
  behind (x ∷ r) = word x

  joined_after-onto :
      (joined : Bool) (x : ℕ) (r w : Text)
      → joined_after word joined (onto r (x ∷ w)) ≡ joined_after word (word x) w
  unfolding onto
  joined_after-onto joined x [] w = refl
  joined_after-onto joined x (y ∷ r) w = joined_after-onto joined y r (x ∷ w)

  pub behind_lem : (r : Text) → joined_after word false (onto r []) ≡ behind r
  unfolding onto
  behind_lem [] = refl
  behind_lem (x ∷ r) = joined_after-onto false x r []

  abbrev ahead : Text → Bool
  ahead [] = false
  ahead (c ∷ cs) = word c

  word_at_lem : (read cs : Text) → word_at is_alnum (onto read cs) (length read) ≡ ahead cs
  unfolding get_or
  word_at_lem read [] = ground (arith, length-onto read [])
  word_at_lem read (c ∷ cs) =
      let here : get_or (onto read (c ∷ cs)) (length read) 0 ≡ c =
        ap (λ j. get_or (onto read (c ∷ cs)) j 0) (omega arith) ∙ get_or-onto read (c ∷ cs) 0 0 in
      let within : ltb (length read) (length (onto read (c ∷ cs))) ≡ true =
        omega (tests, length-onto read (c ∷ cs)) in
      rw (within, here)

  skip_suffix_lem :
      (n : ℕ) (read cs : Text)
      → not (word_at is_alnum (onto read cs) (skip_suffix is_alnum n (onto read cs) (length read)))
        ≡ short_suffix word n cs
  unfolding skip_suffix onto
  skip_suffix_lem zero read [] = rw (word_at_lem read [])
  skip_suffix_lem zero read (c ∷ cs) = rw (word_at_lem read (c ∷ cs))
  skip_suffix_lem (suc n) read [] = rw (word_at_lem read []) (rw (word_at_lem read []))
  skip_suffix_lem (suc n) read (c ∷ cs) =
      let next : length read + 1 ≡ length (c ∷ read) = omega arith in
      let rest = skip_suffix_lem n (c ∷ read) cs in
      elim (Bool-cases (word c)) [
        | inl e ↦ rw (word_at_lem read (c ∷ cs), e, next) rest
        | inr e ↦ rw (word_at_lem read (c ∷ cs), e) (rw (word_at_lem read (c ∷ cs), e) refl)
      ]

  front_lem :
      (r w : Text)
      → not (ltb 0 (length r) && word (get_or (onto r w) (length r - 1) 0)) ≡ not (behind r)
  unfolding onto get_or
  front_lem [] w = refl
  front_lem (x ∷ r) w =
      let place : length (x ∷ r) - 1 ≡ length r + 0 = omega arith in
      let here : get_or (onto (x ∷ r) w) (length (x ∷ r) - 1) 0 ≡ x =
        ap (λ j. get_or (onto r (x ∷ w)) j 0) place ∙ get_or-onto r (x ∷ w) 0 0 in
      rw (lt→ltb 0 (length (x ∷ r)) (omega arith), here)

  abbrev tests_at : Text → ℕ → ℕ → Bool
  tests_at text start next =
      not (ltb 0 start && word (get_or text (start - 1) 0))
      && not (word_at is_alnum text (skip_suffix is_alnum 3 text next))

  stands_eq :
      (text p : Text) (end : ℕ)
      → stands is_alnum text end p ≡ tests_at text (end + 1 - length p) (end + 1)
  unfolding stands
  stands_eq text p end = refl

  -- Where a phrase ends what has been read, the tests say that it stands as a word.
  pub stands_lem :
      (p r read cs : Text) (end : ℕ)
      → read ≡ onto p [] ++ r
      → suc end ≡ length read
      → stands is_alnum (onto read cs) end p ≡ (not (behind r) && short_suffix word 3 cs)
  unfolding onto
  stands_lem p r read cs end split at =
      let size = length-append (onto p []) r in
      let start : end + 1 - length p ≡ length r =
        omega (arith, ap length split, length-onto p []) in
      let next : end + 1 ≡ length read = omega arith in
      let text : onto read cs ≡ onto r (p ++ cs) =
        ap (λ t. onto t cs) split
        ∙ onto-append (onto p []) r cs
        ∙ ap (onto r) (onto-onto p [] cs) in
      stands_eq (onto read cs) p end
      ∙ ap (λ i. tests_at (onto read cs) i (end + 1)) start
      ∙ ap (λ i. tests_at (onto read cs) (length r) i) next
      ∙ ap (λ b. not (ltb 0 (length r) && word (get_or (onto read cs) (length r - 1) 0)) && b)
          (skip_suffix_lem 3 read cs)
      ∙ ap
          (λ t.
            not (ltb 0 (length r) && word (get_or t (length r - 1) 0)) && short_suffix word 3 cs)
          text
      ∙ ap (λ b. b && short_suffix word 3 cs) (front_lem r (p ++ cs))
