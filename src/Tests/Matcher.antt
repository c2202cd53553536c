-- ===== src/Tests/Matcher.antt =====
-- The custom phrase matcher on a text with overlapping phrases.
use alert_bot_project.Common.{
  ℕ, Text, codes, ◌≡◌, refl, inl, Bool, false, ◌&&◌, none, some, List, [], ◌∷◌, arith, leb, get_or,
  set, Text-discrete, ℕ_discrete,
}
use alert_bot_project.Worker.Matcher.{
  CustomTriggerMatcher, MatchAnswer, matched, blank, edge_at, get_matches,
}
use alert_bot_project.Worker.Matcher.Reload.{Matches, Ends, get_matches_lem, get_matches-Ends}

abbrev is_alnum : ℕ → Bool
is_alnum c = leb b'a' c && leb c b'z'

abbrev phrases : List Text
phrases = codes "she" ∷ codes "he" ∷ codes "hers" ∷ codes "cat" ∷ []

abbrev text : Text
text = codes "ushers hershe shes cats"

abbrev unloaded : CustomTriggerMatcher
unloaded = record { machine = blank; version = none; loaded = false }

abbrev found : MatchAnswer × CustomTriggerMatcher
found = get_matches is_alnum (some (codes "7")) phrases text unloaded

matches_of_text : found.0 ≡ matched (codes "cat" ∷ codes "hers" ∷ codes "she" ∷ [])
unfolding get_matches edge_at get_or set Text-discrete ℕ_discrete
matches_of_text = refl

get_matches_lem_example : Matches is_alnum (some (codes "7")) phrases text unloaded found
unfolding Text-discrete
get_matches_lem_example =
    get_matches_lem is_alnum (some (codes "7")) phrases text unloaded (inl refl) refl (omega arith)

get_matches-Ends_example : Ends is_alnum (some (codes "7")) phrases text unloaded found
get_matches-Ends_example =
    get_matches-Ends is_alnum (some (codes "7")) phrases text unloaded (inl refl)
