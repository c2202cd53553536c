-- ===== src/Database/Migration.antt =====
-- database/migration.py: the legacy words of the users become the keys of today.
pub mod Translated
pub mod Succeeds
pub mod Decided
use alert_bot_project.Common.{
  ℕ, Text, codes, Bool, true, false, not, ◌&&◌, Option, none, some, List, [], ◌∷◌, if◌then◌else◌,
  same, any, filter, Text-discrete,
}
use alert_bot_project.Database.{UserTrigger, is_row, remove_rows}

abbrev pub Translations : Type 0
Translations = List (Text × Text)

abbrev pub migration_map : Translations
migration_map =
    (codes "город", codes "city")
    ∷ (codes "центр", codes "center")
    ∷ (codes "черемушки", codes "cheremushki")
    ∷ (codes "port", codes "port")
    ∷ (codes "молдованка", codes "moldovanka")
    ∷ (codes "бугаевка", codes "bugaevka")
    ∷ (codes "слободка", codes "slobodka")
    ∷ (codes "таирово", codes "tairovo")
    ∷ (codes "совиньон", codes "sovignon")
    ∷ (codes "ланжерон", codes "lanzheron")
    ∷ (codes "поселок", codes "kotovskogo")
    ∷ (codes "поскот", codes "kotovskogo")
    ∷ (codes "южный", codes "yuzhny_dist")
    ∷ (codes "фонтанка", codes "fontanka")
    ∷ (codes "пересыпь", codes "peresyp")
    ∷ (codes "аркадия", codes "arkadia")
    ∷ (codes "берег", codes "coast")
    ∷ (codes "усатово", codes "usatovo")
    ∷ (codes "южное", codes "yuzhne")
    ∷ (codes "беляевк", codes "belyaevka")
    ∷ (codes "овидиополь", codes "ovidiopol")
    ∷ (codes "черноморск", codes "chernomorsk")
    ∷ (codes "черноморка", codes "chernomorka")
    ∷ (codes "новые беляр", codes "novi_belyari")
    ∷ (codes "reni", codes "reni")
    ∷ (codes "измаил", codes "izmail")
    ∷ (codes "татарбунар", codes "tatarbunary")
    ∷ (codes "березовк", codes "berezovka")
    ∷ (codes "вилково", codes "vilkovo")
    ∷ (codes "авангард", codes "avangard")
    ∷ (codes "лиманк", codes "limanka")
    ∷ (codes "заток", codes "zatoka")
    ∷ (codes "белгород", codes "belgorod")
    ∷ (codes "теплодар", codes "teplodar")
    ∷ (codes "доброслав", codes "dobroslav")
    ∷ (codes "тузлы", codes "tuzly")
    ∷ []

-- MIGRATION_MAP.get(word)
unfoldable pub new_key : Translations → Text → Option Text
new_key [] w = none
new_key ((old, new) ∷ m) w = let rest = new_key m w in if same old w then some new else rest

abbrev is_some {ℓ} : {A : Type ℓ} → Option A → Bool
is_some none = false
is_some (some a) = true

abbrev pub is_legacy : Translations → UserTrigger → Bool
is_legacy m t = is_some (new_key m t.trigger_word)

-- the UPDATE of one user's word
unfoldable pub rename : ℕ → Text → Text → List UserTrigger → List UserTrigger
rename id old new [] = []
rename id old new (t ∷ ts) =
    (if is_row id old t then record { user_id = id; trigger_word = new } else t)
    ∷ rename id old new ts

-- IntegrityError: the UPDATE would make two rows of one user and one word
unfoldable pub collides : ℕ → Text → Text → List UserTrigger → Bool
collides id old new ts = any (is_row id old) ts && any (is_row id new) ts && not (same old new)

-- One entry. The DELETE follows an error in the same savepoint: `accepts` says whether the database
-- takes a statement after an error. PostgreSQL does not, and then the transaction fails.
unfoldable pub migrate_entry : Bool → ℕ → Text → Text → List UserTrigger → Option (List UserTrigger)
unfolding rename collides
migrate_entry accepts id old new ts =
    if collides id old new ts
    then (if accepts then some (remove_rows id old ts) else none)
    else some (rename id old new ts)

abbrev or_same : Option Text → Text → Text
or_same none w = w
or_same (some new) w = new

unfoldable pub translate : Translations → Text → Text
unfolding new_key
translate m w = or_same (new_key m w) w

-- the loop over the entries that were read
unfoldable pub migrate_entries :
    Bool → Translations → List UserTrigger → List UserTrigger → Option (List UserTrigger)
unfolding migrate_entry translate
migrate_entries accepts m [] ts = some ts
migrate_entries accepts m (e ∷ es) ts =
    elim (migrate_entry accepts e.user_id e.trigger_word (translate m e.trigger_word) ts) [
      | none ↦ none
      | some ts' ↦ migrate_entries accepts m es ts'
    ]

-- run_legacy_keys_migration: the rows after it, and whether it succeeded; an error rolls back
unfoldable pub run_legacy_keys_migration :
    Bool → Translations → List UserTrigger → Bool × List UserTrigger
unfolding migrate_entries
run_legacy_keys_migration accepts m ts =
    elim (migrate_entries accepts m (filter (is_legacy m) ts) ts) [
      | none ↦ (false, ts)
      | some ts' ↦ (true, ts')
    ]
