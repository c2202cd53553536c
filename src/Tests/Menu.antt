-- ===== src/Tests/Menu.antt =====
-- Witnesses for the keyboards and the settings of users.
use alert_bot_project.Common.{ℕ, suc, pos, map, Text, codes, ◌≡◌, List, [], ◌∷◌, some, length}
use alert_bot_project.Database.{Tables}
use alert_bot_project.Services.Users.Limits.{IsLimited}
use alert_bot_project.Bot.Keyboards.{places_of, max_page}
use alert_bot_project.Bot.Keyboards.Pages.{keys_below, build_locations_complete}
use alert_bot_project.Bot.Settings.Limits.{
  Update, start, location, keyword, delete_keyword, handle_all, no_tables, handle_all-IsLimited,
}
use alert_bot_project.Tests.{platform}

abbrev outside : Text
outside = codes "outside"

build_locations_complete_example :
    keys_below outside (codes "reni" ∷ []) (suc (max_page (length (places_of outside))))
    ≡ map (λ p. p.key) (places_of outside)
build_locations_complete_example = build_locations_complete outside (codes "reni" ∷ [])

abbrev one_trigger : Tables
one_trigger = record no_tables {
  user_triggers = record { user_id = 7; trigger_word = codes "port" } ∷ [];
}

abbrev updates : List (ℕ × Update)
updates =
    (20000, start 7)
    ∷ (20000, location 7 (codes "odesa") (codes "port") (pos 0))
    ∷ (20000, keyword 7 (codes "bridge"))
    ∷ (20001, delete_keyword 7 (some (codes "bridge")))
    ∷ []

handle_all-IsLimited_example : IsLimited (handle_all platform updates no_tables)
handle_all-IsLimited_example = handle_all-IsLimited platform updates
