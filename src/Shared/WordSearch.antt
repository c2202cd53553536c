-- ===== src/Shared/WordSearch.antt =====
-- core_shared/text_processor.py, `_compile_word_boundary_pattern`: the pattern
-- (?<![\w])(w1|w2|..)\w{0,3}(?![\w]) as a search by recursion on the text.
pub mod Occurrence
use alert_bot_project.Common.{
  ℕ, zero, suc, Text, Bool, true, false, not, ◌&&◌, ◌||◌, List, [], ◌∷◌, ◌==◌, if◌then◌else◌,
}

-- The class \w of a character.
module _ (is_word : ℕ → Bool) where
  -- \w{0,n}(?![\w])
  abbrev pub short_suffix : ℕ → Text → Bool
  short_suffix n [] = true
  short_suffix zero (c ∷ cs) = not (is_word c)
  short_suffix (suc n) (c ∷ cs) = if is_word c then short_suffix n cs else true

  -- one word of the pattern, here
  abbrev pub matches_word : Text → Text → Bool
  matches_word [] text = short_suffix 3 text
  matches_word (k ∷ ks) [] = false
  matches_word (k ∷ ks) (c ∷ cs) = (k == c) && matches_word ks cs

  abbrev pub matches_any : List Text → Text → Bool
  matches_any [] text = false
  matches_any (word ∷ words) text = matches_word word text || matches_any words text

  -- pattern.search from a place on, where `joined` says that the character before is in \w
  unfoldable pub search : Bool → List Text → Text → Bool
  search joined words [] = not joined && matches_any words []
  search joined words (c ∷ cs) =
      (not joined && matches_any words (c ∷ cs)) || search (is_word c) words cs
