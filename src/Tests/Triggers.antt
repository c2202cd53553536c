-- ===== src/Tests/Triggers.antt =====
-- A set of phrases in memory, and a witness for the repair of the trigger cache.
use alert_bot_project.Common.{
  Text, Text-discrete, codes, ◌≡◌, refl, true, not, ◌&&◌, ◌||◌, some, List, [], ◌∷◌, same, is_in,
  if◌then◌else◌, arith, ℕ_discrete, ◌≤◌,
}
use alert_bot_project.Shared.TriggerCache.{TriggerSet, TriggerCache, Reconciled}
use alert_bot_project.Shared.TriggerCache.Contents.{Holds, are_distinct}
use alert_bot_project.Shared.Places.Odesa.{odesa_locs}
use alert_bot_project.Shared.Places.Outside.{outside_locs}
use alert_bot_project.Database.{Tables}
use alert_bot_project.Services.Users.{custom_words, distinct, global_count, is_static}
use alert_bot_project.Worker.Sync.{sync_global_custom_triggers, sync_global_custom_triggers-Holds}

abbrev added : Text → List Text → List Text
added w s = if is_in w s then s else w ∷ s

abbrev removed : Text → List Text → List Text
removed w [] = []
removed w (x ∷ xs) = let rest = removed w xs in if same x w then rest else x ∷ rest

is_in-added : (t w : Text) (s : List Text) → is_in t (added w s) ≡ (same t w || is_in t s)
is_in-added t w s = elim (Text-discrete t w) [
  | yes e ↦ ground (arith, e)
  | no e ↦ ground (arith, e)
]

is_in-removed : (t w : Text) (s : List Text) → is_in t (removed w s) ≡ (not (same t w) && is_in t s)
is_in-removed t w [] = ground arith
is_in-removed t w (x ∷ xs) = ground (arith, is_in-removed t w xs)

abbrev in_memory : TriggerSet
in_memory = record {
  Phrases = List Text;
  smembers = λ s. s;
  sadd = added;
  srem = removed;
  deleted = [];
  smembers-sadd = is_in-added;
  smembers-srem = is_in-removed;
  smembers-deleted = refl;
}

abbrev cache : TriggerCache in_memory
cache = record { phrases = codes "bridge" ∷ []; version = some 3 }

distinct_before : are_distinct cache.phrases ≡ true
unfolding Text-discrete ℕ_discrete
distinct_before = refl

abbrev tables : Tables
tables = record {
  user_settings = [];
  user_triggers =
      record { user_id = 7; trigger_word = codes "tower" }
      ∷ record { user_id = 7; trigger_word = codes "port" }
      ∷ record { user_id = 8; trigger_word = codes "tower" }
      ∷ [];
  user_activity_daily = [];
}

within_limit : global_count tables ≤ 5000
unfolding global_count custom_words distinct is_static odesa_locs outside_locs Text-discrete
    ℕ_discrete
within_limit = omega arith

sync_global_custom_triggers-Holds_example :
    (answer : Reconciled) × (c' : TriggerCache in_memory) × (sync_global_custom_triggers in_memory
        cache.version tables cache
      ≡ some (answer, c'))
    × Holds in_memory (custom_words tables.user_triggers) c'
sync_global_custom_triggers-Holds_example =
    sync_global_custom_triggers-Holds in_memory tables cache within_limit distinct_before
