-- ===== src/Tests/Migration.antt =====
-- The migration of legacy words on a few rows.
use alert_bot_project.Common.{
  ℕ, ◌↔◌, Text, Text-discrete, ℕ_discrete, codes, ◌≡◌, refl, true, false, List, [], ◌∷◌, filter,
}
use alert_bot_project.Database.{UserTrigger}
use alert_bot_project.Database.Migration.{migration_map, run_legacy_keys_migration}
use alert_bot_project.Database.Migration.Succeeds.{NoClash}
use alert_bot_project.Database.Migration.Decided.{Decided, run_legacy_keys_migration-Decided}

abbrev row : ℕ → Text → UserTrigger
row id w = record { user_id = id; trigger_word = w }

abbrev rows : List UserTrigger
rows = row 7 (codes "центр") ∷ row 8 (codes "поскот") ∷ []

abbrev migrated : List UserTrigger
migrated = row 7 (codes "center") ∷ row 8 (codes "kotovskogo") ∷ []

migration_of_rows : run_legacy_keys_migration false migration_map rows ≡ (true, migrated)
unfolding run_legacy_keys_migration filter Text-discrete ℕ_discrete
migration_of_rows = refl

-- PostgreSQL refuses the DELETE: the user keeps both words, and the migration fails.
migration_of_clash :
    run_legacy_keys_migration false migration_map
      (row 7 (codes "центр") ∷ row 7 (codes "center") ∷ [])
    ≡ (false, row 7 (codes "центр") ∷ row 7 (codes "center") ∷ [])
unfolding run_legacy_keys_migration filter Text-discrete ℕ_discrete
migration_of_clash = refl

abbrev clash : List UserTrigger
clash = row 7 (codes "центр") ∷ row 7 (codes "center") ∷ row 8 (codes "поскот") ∷ []

run_legacy_keys_migration-Decided_example :
    (((run_legacy_keys_migration false migration_map clash).0 ≡ true) ↔ NoClash migration_map clash)
    × Decided clash (run_legacy_keys_migration false migration_map clash)
run_legacy_keys_migration-Decided_example = run_legacy_keys_migration-Decided clash
