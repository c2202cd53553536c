-- ===== src/Shared/WordSearch/Occurrence.antt =====
-- core_shared/text_processor.py: what a search for words finds.
use alert_bot_project.Common.{
  ℕ, zero, suc, ◌≤◌, Text, ◌≡◌, refl, ap, ◌↔◌, inl, inr, Bool, true, false, not, List, [], ◌∷◌,
  ◌++◌, All, length, arith, Bool-cases, sym, subst, is_in, ◌&&◌,
}
use alert_bot_project.Shared.WordSearch.{short_suffix, matches_word, matches_any, search}

module _ (is_word : ℕ → Bool) where
  -- The text does not begin with a character of a word.
  abbrev pub IsApart : Text → Type 0
  IsApart [] = Unit
  IsApart (c ∷ cs) = is_word c ≡ false

  -- Whether the last character before a place is one of a word.
  abbrev pub joined_after : Bool → Text → Bool
  joined_after joined [] = joined
  joined_after joined (c ∷ cs) = joined_after (is_word c) cs

  -- At most n characters of a word, and then its end.
  abbrev pub IsShort : ℕ → Text → Type 0
  IsShort n t =
      (suffix : Text) × (after : Text) × (t ≡ suffix ++ after)
      × All (λ c. is_word c ≡ true) suffix
      × (length suffix ≤ n)
      × IsApart after

  pub short_suffix_lem : (n : ℕ) (t : Text) → short_suffix is_word n t ≡ true → IsShort n t
  short_suffix_lem n [] h = ([], [], refl, tt, omega arith, tt)
  short_suffix_lem zero (c ∷ cs) h = ([], c ∷ cs, refl, tt, omega arith, ground arith)
  short_suffix_lem (suc n) (c ∷ cs) h = elim (Bool-cases (is_word c)) [
    | inl e ↦
        let (suffix, after, split, words, few, apart) = short_suffix_lem n cs (ground arith) in
        (c ∷ suffix, after, ap (λ t. c ∷ t) split, (e, words), omega arith, apart)
    | inr e ↦ ([], c ∷ cs, refl, tt, omega arith, e)
  ]

  pub short_suffix-IsShort :
      (n : ℕ) (suffix after : Text)
      → All (λ c. is_word c ≡ true) suffix
      → length suffix ≤ n
      → IsApart after
      → short_suffix is_word n (suffix ++ after) ≡ true
  short_suffix-IsShort n [] [] words few apart = ground arith
  short_suffix-IsShort zero [] (c ∷ cs) words few apart = ground arith
  short_suffix-IsShort (suc n) [] (c ∷ cs) words few apart = ground arith
  short_suffix-IsShort zero (c ∷ suffix) after words few apart = absurd (omega arith)
  short_suffix-IsShort (suc n) (c ∷ suffix) after words few apart =
      ground (arith, short_suffix-IsShort n suffix after words.1 (omega arith) apart)

  -- One of the words, here: as it is written, or with up to three more characters.
  abbrev IsHere : Text → Text → Type 0
  IsHere word t = (rest : Text) × (t ≡ word ++ rest) × IsShort 3 rest

  matches_word_lem : (word t : Text) → matches_word is_word word t ≡ true → IsHere word t
  matches_word_lem [] t h = (t, refl, short_suffix_lem 3 t h)
  matches_word_lem (k ∷ ks) [] h = absurd (ground arith)
  matches_word_lem (k ∷ ks) (c ∷ cs) h =
      let (rest, split, short) = matches_word_lem ks cs (ground arith) in
      let first : k ≡ c = ground arith in (rest, cc, short)

  matches_word-IsHere :
      (word rest : Text) → IsShort 3 rest → matches_word is_word word (word ++ rest) ≡ true
  matches_word-IsHere [] rest (suffix, after, split, words, few, apart) =
      subst (λ t. short_suffix is_word 3 t ≡ true) (sym split)
        (short_suffix-IsShort 3 suffix after words few apart)
  matches_word-IsHere (k ∷ ks) rest short = ground (arith, matches_word-IsHere ks rest short)

  matches_any_lem :
      (words : List Text) (t : Text)
      → matches_any is_word words t ≡ true
      → (word : Text) × (is_in word words ≡ true) × IsHere word t
  matches_any_lem [] t h = absurd (ground arith)
  matches_any_lem (word ∷ words) t h = elim (Bool-cases (matches_word is_word word t)) [
    | inl e ↦ (word, ground arith, matches_word_lem word t e)
    | inr e ↦
        let (other, listed, here) = matches_any_lem words t (ground arith) in
        (other, ground arith, here)
  ]

  matches_any-is_in :
      (words : List Text) (word t : Text)
      → is_in word words ≡ true
      → matches_word is_word word t ≡ true
      → matches_any is_word words t ≡ true
  matches_any-is_in [] word t h m = absurd (ground arith)
  matches_any-is_in (w ∷ words) word t h m = ground (arith, matches_any-is_in words word t)

  -- A place of the text where one of the words stands as a word: no character of a word before it,
  -- and at most three more behind it.
  abbrev pub Occurs : Bool → List Text → Text → Type 0
  Occurs joined words t =
      (before : Text) × (word : Text) × (rest : Text) × (t ≡ before ++ (word ++ rest))
      × (is_in word words ≡ true)
      × (joined_after joined before ≡ false)
      × IsShort 3 rest

  search-Occurs :
      (joined : Bool) (words : List Text) (t : Text)
      → search is_word joined words t ≡ true
      → Occurs joined words t
  unfolding search
  search-Occurs joined words [] h =
      let (word, listed, (rest, split, short)) = matches_any_lem words [] (ground arith) in
      ([], word, rest, split, listed, ground arith, short)
  search-Occurs joined words (c ∷ cs) h =
      elim (Bool-cases (not joined && matches_any is_word words (c ∷ cs))) [
        | inl e ↦
            let (word, listed, (rest, split, short)) =
              matches_any_lem words (c ∷ cs) (ground arith) in
            ([], word, rest, split, listed, ground arith, short)
        | inr e ↦
            let (before, word, rest, split, listed, apart, short) =
              search-Occurs (is_word c) words cs (ground arith) in
            (c ∷ before, word, rest, ap (λ t. c ∷ t) split, listed, apart, short)
      ]

  search_at :
      (joined : Bool) (words : List Text) (before word rest : Text)
      → is_in word words ≡ true
      → joined_after joined before ≡ false
      → IsShort 3 rest
      → search is_word joined words (before ++ (word ++ rest)) ≡ true
  unfolding search
  search_at joined words [] word rest listed apart short = begins (word ++ rest) found
    where
      found : matches_any is_word words (word ++ rest) ≡ true
      found =
          matches_any-is_in words word (word ++ rest) listed (matches_word-IsHere word rest short)

      begins :
          (t : Text) → matches_any is_word words t ≡ true → search is_word joined words t ≡ true
      begins [] m = ground arith
      begins (c ∷ cs) m = ground arith
  search_at joined words (c ∷ before) word rest listed apart short =
      ground (arith, search_at (is_word c) words before word rest listed apart short)

  -- The search finds a word exactly where the text has one that stands as a word.
  pub search_iff :
      (joined : Bool) (words : List Text) (t : Text)
      → (search is_word joined words t ≡ true) ↔ Occurs joined words t
  search_iff joined words t = (
    search-Occurs joined words t,
    λ o.
        subst (λ u. search is_word joined words u ≡ true) (sym o.3)
          (search_at joined words o.0 o.1 o.2 o.4 o.5 o.6),
  )
