-- ===== src/Tests/Texts.antt =====
-- Witnesses for the search for words and the analysis of a post.
use alert_bot_project.Common.{
  Text, codes, ◌≡◌, ◌↔◌, true, false, ◌&&◌, List, [], ◌∷◌, is_in, is_empty, any, filter,
}
use alert_bot_project.Shared.TextProcessor.{joined, analyze_signal}
use alert_bot_project.Shared.TextProcessor.Signals.{
  is_all_clear, is_denial, is_statement, names_threat, places_in, clauses_of, decided,
  analyze_signal_lem,
}
use alert_bot_project.Shared.WordSearch.{search}
use alert_bot_project.Shared.WordSearch.Occurrence.{Occurs, search_iff}
use alert_bot_project.Tests.{platform, is_letter}

abbrev words : List Text
words = codes "port" ∷ codes "dron" ∷ []

search_iff_example :
    (search is_letter false words (codes "two drony") ≡ true)
    ↔ Occurs is_letter false words (codes "two drony")
search_iff_example = search_iff is_letter false words (codes "two drony")

abbrev pub two_clauses : Text
two_clauses = codes "reaktivn port.all clear"

analyze_signal_lem_example :
    ((analyze_signal platform two_clauses).positive_text
      ≡ joined (filter (is_statement platform) (clauses_of platform two_clauses)))
    × ((analyze_signal platform two_clauses).global_clear
        ≡ any
            (λ t. is_all_clear platform t && is_empty (places_in platform t))
            (clauses_of platform two_clauses))
    × ((l : Text)
        → is_in l (analyze_signal platform two_clauses).clear_locations
          ≡ any
              (λ t. is_all_clear platform t && is_in l (places_in platform t))
              (clauses_of platform two_clauses))
    × ((analyze_signal platform two_clauses).status
        ≡ decided platform
            (any
              (λ t. is_statement platform t && names_threat platform t)
              (clauses_of platform two_clauses))
            (any (is_all_clear platform) (clauses_of platform two_clauses))
            (any (is_denial platform) (clauses_of platform two_clauses)))
analyze_signal_lem_example = analyze_signal_lem platform two_clauses
