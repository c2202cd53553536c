-- ===== src/Shared/TextProcessor.antt =====
-- core_shared/text_processor.py: what a post says. The patterns with IGNORECASE go to Python's
-- regular expressions; the patterns of words are searched for in Shared.WordSearch. A set is the
-- list of its elements without repetition.
pub mod Signals
use alert_bot_project.Common.{
  ℕ, Text, codes, Bool, true, false, not, ◌&&◌, ◌||◌, List, [], ◌∷◌, ◌++◌, ◌==◌, if◌then◌else◌,
  is_in, is_empty,
}
use alert_bot_project.Shared.Platform.{Platform}
use alert_bot_project.Shared.Places.{Place, Category, kr_potvory}
use alert_bot_project.Shared.Places.Odesa.{odesa_locs}
use alert_bot_project.Shared.Places.Outside.{outside_locs}
use alert_bot_project.Shared.WordSearch.{search}

abbrev pub clear_pattern : Text
clear_pattern = codes "\\b(?:відбій|отбой|тривогу скасовано|тревога отменена)\\b"

abbrev pub negation_pattern : Text
negation_pattern =
    codes
      "\\b(?:не\\s+(?:виявлено|зафіксовано|підтверджено|обнаружено|зафиксировано)|нет\\s+(?:угрозы|ракет|бпла)|загрози\\s+немає)\\b"

abbrev pub resolved_pattern : Text
resolved_pattern = codes "\\b(?:минул\\w*|більше\\s+не|больше\\s+не|чисто)\\b"

abbrev pub clause_split_pattern : Text
clause_split_pattern = codes "[,.;!?\\n]+|\\b(?:але|однак|но)\\b"

-- A set with one more element.
abbrev pub insert : Text → List Text → List Text
insert t xs = if is_in t xs then xs else xs ++ t ∷ []

abbrev pub update : List Text → List Text → List Text
update xs [] = xs
update xs (t ∷ ts) = update (insert t xs) ts

-- TextProcessor.parse_message
pub record Analysis : Type 0 where
  pub categories : List Text
  pub locations : List Text

pub data SignalStatus : Type 0 where
  active clear negated unknown : SignalStatus

pub record SignalAnalysis : Type 0 where
  pub status : SignalStatus
  pub positive_text : Text
  pub clear_locations : List Text
  pub global_clear : Bool

-- The variables of the loop of analyze_signal.
pub record Clauses : Type 0 where
  pub clear_locations : List Text
  pub global_clear : Bool
  pub saw_negation : Bool
  pub saw_active : Bool
  pub positive_clauses : List Text

abbrev pub no_clauses : Clauses
no_clauses = record {
  clear_locations = [];
  global_clear = false;
  saw_negation = false;
  saw_active = false;
  positive_clauses = [];
}

-- " ".join
unfoldable pub joined : List Text → Text
joined [] = []
joined (t ∷ []) = t
joined (t ∷ u ∷ us) = t ++ 32 ∷ joined (u ∷ us)

abbrev pub is_blank : Text → Bool
is_blank [] = true
is_blank (c ∷ cs) = false

module _ (P : Platform) where
  open P use {is_word, is_space, lower, search_ignorecase, split_ignorecase}

  -- CLEAN_PATTERN.sub("", ..)
  unfoldable pub cleaned : Text → Text
  cleaned [] = []
  cleaned (c ∷ cs) =
      let rest = cleaned cs in if is_word c || (is_space c || (c == 45)) then c ∷ rest else rest

  unfoldable pub lstrip : Text → Text
  lstrip [] = []
  lstrip (c ∷ cs) = let rest = lstrip cs in if is_space c then rest else c ∷ cs

  unfoldable pub rstrip : Text → Text
  rstrip [] = []
  rstrip (c ∷ cs) = let rest = rstrip cs in if is_blank rest && is_space c then [] else c ∷ rest

  unfoldable pub normalize : Text → Text
  unfolding cleaned lstrip rstrip
  normalize [] = []
  normalize (c ∷ cs) = rstrip (lstrip (cleaned (lower (c ∷ cs))))

  -- The keys of COMPILED_CATEGORIES and of COMPILED_LOCATIONS whose pattern is found.
  unfoldable pub found_categories : List Category → Text → List Text
  found_categories [] t = []
  found_categories (c ∷ cs) t =
      let rest = found_categories cs t in
      if search is_word false c.keywords t then c.name ∷ rest else rest

  unfoldable pub found_locations : List Place → Text → List Text
  found_locations [] t = []
  found_locations (p ∷ ps) t =
      let rest = found_locations ps t in
      if search is_word false p.patterns t then p.key ∷ rest else rest

  -- of a normalized text
  unfoldable pub parse_normalized : Text → Analysis
  unfolding found_categories found_locations
  parse_normalized [] = record { categories = []; locations = [] }
  parse_normalized (c ∷ cs) = record {
    categories = found_categories kr_potvory (c ∷ cs);
    locations = found_locations (odesa_locs ++ outside_locs) (c ∷ cs);
  }

  unfoldable pub parse_message : Text → Analysis
  unfolding parse_normalized normalize
  parse_message raw_text = parse_normalized (normalize raw_text)

  -- the body of the loop, for a clause and its normal form
  unfoldable pub add_clause : Text → Text → Clauses → Clauses
  unfolding parse_message
  add_clause raw_clause clause s =
      let locations = (parse_message raw_clause).locations in
      if is_blank clause
      then s
      else if search_ignorecase clear_pattern clause || search_ignorecase resolved_pattern clause
      then (if not (is_empty locations)
          then record s { clear_locations = update s.clear_locations locations }
          else record s { global_clear = true })
      else if search_ignorecase negation_pattern clause
      then record s { saw_negation = true }
      else record s {
        positive_clauses = s.positive_clauses ++ raw_clause ∷ [];
        saw_active = s.saw_active || not (is_empty (found_categories kr_potvory clause));
      }

  unfoldable pub add_clauses : List Text → Clauses → Clauses
  unfolding add_clause normalize
  add_clauses [] s = s
  add_clauses (t ∷ ts) s = add_clauses ts (add_clause t (normalize t) s)

  abbrev pub status_of : Clauses → SignalStatus
  status_of s =
      if s.saw_active
      then active
      else if s.global_clear || not (is_empty s.clear_locations)
      then clear
      else if s.saw_negation
      then negated
      else unknown

  unfoldable pub analyze_signal : Text → SignalAnalysis
  unfolding add_clauses joined
  analyze_signal raw_text =
      let s = add_clauses (split_ignorecase clause_split_pattern raw_text) no_clauses in
      record {
        status = status_of s;
        positive_text = joined s.positive_clauses;
        clear_locations = s.clear_locations;
        global_clear = s.global_clear;
      }
