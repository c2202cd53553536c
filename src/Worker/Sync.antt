-- ===== src/Worker/Sync.antt =====
-- worker/main.py, `sync_global_custom_triggers`: the repair of the phrases in Redis from the tables.
use alert_bot_project.Common.{
  ℕ, ◌≤◌, ◌≡◌, refl, ◌∙◌, Text, true, Option, none, some, List, [], ◌∷◌, ltb, if◌then◌else◌,
  if_false, ge→ltb, length, is_in, same, arith,
}
use alert_bot_project.Shared.Constants.{max_global_custom_triggers}
use alert_bot_project.Shared.TriggerCache.{
  TriggerSet, TriggerCache, version_text, Reconciled, reconcile_custom_trigger_cache,
}
use alert_bot_project.Shared.TriggerCache.Contents.{
  are_distinct, Holds, reconcile_custom_trigger_cache-Holds,
}
use alert_bot_project.Database.{Tables}
use alert_bot_project.Services.Users.{custom_words, distinct, global_count}

is_in-distinct : (t : Text) (ts : List Text) → is_in t (distinct ts) ≡ is_in t ts
unfolding distinct
is_in-distinct t [] = refl
is_in-distinct t (u ∷ us) = ground (arith, is_in-distinct t us)

module _ (S : TriggerSet) where
  open S use {smembers}

  -- The version that was read before the rows, the rows, and the cache when the script runs; none is
  -- the ValueError.
  unfoldable pub sync_global_custom_triggers :
      Option ℕ → Tables → TriggerCache S → Option (Reconciled × TriggerCache S)
  sync_global_custom_triggers version db c =
      let desired = distinct (custom_words db.user_triggers) in
      let changed = reconcile_custom_trigger_cache S desired version c in
      if ltb max_global_custom_triggers (length desired) then none else some changed

  -- A repair of a cache whose version did not change since it was read: it succeeds within the limit
  -- of phrases, and the cache then holds exactly the phrases of the tables. The phrases of the cache
  -- are distinct, as those of a set are.
  pub sync_global_custom_triggers-Holds :
      (db : Tables) (c : TriggerCache S)
      → global_count db ≤ max_global_custom_triggers
      → are_distinct (smembers c.phrases) ≡ true
      → (answer : Reconciled) × (c' : TriggerCache S) × (sync_global_custom_triggers c.version db c
          ≡ some (answer, c'))
        × Holds S (custom_words db.user_triggers) c'
  unfolding sync_global_custom_triggers global_count
  sync_global_custom_triggers-Holds db c few d =
      let desired = distinct (custom_words db.user_triggers) in
      let result = reconcile_custom_trigger_cache S desired c.version c in
      let same_version : same (version_text S c.version) (version_text S c.version) ≡ true =
        ground arith in
      let held =
        ((reconcile_custom_trigger_cache-Holds S desired c.version c d).1 same_version).0 in
      (
        result.0,
        result.1,
        if_false _ _ _
            (ge→ltb max_global_custom_triggers (length desired) (λ h. omega (arith, few, h))),
        λ t. held t ∙ is_in-distinct t (custom_words db.user_triggers),
      )
