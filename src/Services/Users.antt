-- ===== src/Services/Users.antt =====
-- services/user_service.py: the settings of a user, in the tables and in the caches of Redis. A
-- failure of Redis is logged, and the cache stays as it is.
pub mod Limits
pub mod Toggle
use alert_bot_project.Common.{
  ℕ, ◌+◌, ◌-◌, ◌*◌, ◌/◌, max, pos, str, Text, codes, Bool, true, false, not, ◌&&◌, ◌||◌, Option,
  none, some, List, [], ◌∷◌, ◌++◌, ltb, leb, if◌then◌else◌, same, is_in, any, filter, length, map,
}
use alert_bot_project.Redis.{word, Redis, mute}
use alert_bot_project.Shared.Constants.{max_custom_triggers, max_global_custom_triggers}
use alert_bot_project.Shared.Places.{has_place}
use alert_bot_project.Shared.Places.Odesa.{odesa_locs}
use alert_bot_project.Shared.Places.Outside.{outside_locs}
use alert_bot_project.Shared.TriggerCache.{TriggerSet, TriggerCache, update_custom_trigger_cache}
use alert_bot_project.Database.{
  Tables, UserTrigger, get_or_create_user, add_user_trigger, remove_user_trigger, triggers_set,
  record_activity, update_user_mute,
}

-- static_keys
unfoldable pub is_static : Text → Bool
is_static w = has_place w odesa_locs || has_place w outside_locs

unfoldable pub toggle_location : ℕ → ℕ → Text → Tables → List Text × Tables
unfolding triggers_set
toggle_location today id location_key db =
    let (user, db1) = get_or_create_user id db in
    let db2 =
      if is_in location_key (triggers_set id db1)
      then remove_user_trigger id location_key db1
      else (add_user_trigger id location_key db1).1 in
    (triggers_set id db2, record_activity today id false db2)

-- The words of all rows that are no static keys.
unfoldable pub custom_words : List UserTrigger → List Text
custom_words [] = []
custom_words (t ∷ ts) =
    let rest = custom_words ts in if is_static t.trigger_word then rest else t.trigger_word ∷ rest

-- SELECT DISTINCT
unfoldable pub distinct : List Text → List Text
distinct [] = []
distinct (t ∷ ts) = let rest = distinct ts in if is_in t ts then rest else t ∷ rest

unfoldable pub custom_count : ℕ → Tables → ℕ
unfolding filter
custom_count id db = length (filter (λ w. not (is_static w)) (triggers_set id db))

unfoldable pub global_count : Tables → ℕ
global_count db = length (distinct (custom_words db.user_triggers))

-- The answers of add_custom_trigger.
pub data Added : Type 0 where
  bad_length user_limit global_limit added not_saved : Added

unfoldable pub add_custom_trigger : ℕ → ℕ → Text → Tables → Added × Tables
add_custom_trigger today id trigger_word db =
    let (user, db1) = get_or_create_user id db in
    let (success, db2) = add_user_trigger id trigger_word db1 in
    if not (leb 3 (length trigger_word) && leb (length trigger_word) 30)
    then (bad_length, db)
    else if leb max_custom_triggers (custom_count id db1)
    then (user_limit, db1)
    else if not (any (λ t. same trigger_word t.trigger_word) db1.user_triggers)
        && leb max_global_custom_triggers (global_count db1)
    then (global_limit, db1)
    else if success
    then (added, record_activity today id false db2)
    else (not_saved, db2)

unfoldable pub delete_custom_trigger : ℕ → ℕ → Text → Tables → Tables
delete_custom_trigger today id trigger_word db =
    (get_or_create_user id
      (record_activity today id false (remove_user_trigger id trigger_word db))).1

module _ (S : TriggerSet) where
  abbrev update_if : Bool → Text → Bool → TriggerCache S → TriggerCache S
  update_if b w add c = if b then (update_custom_trigger_cache S w add c).1 else c

  abbrev is_added : Added → Bool
  is_added added = true
  is_added _ = false

  -- The cache after add_custom_trigger and after delete_custom_trigger; `answers` is false for a
  -- RedisError.
  unfoldable pub cache_added : Bool → Text → Added → TriggerCache S → TriggerCache S
  cache_added answers w result c = update_if (is_added result && answers) w true c

  unfoldable pub cache_deleted : Bool → Text → Tables → TriggerCache S → TriggerCache S
  cache_deleted answers w db c =
      update_if (not (any (λ t. same w t.trigger_word) db.user_triggers) && answers) w false c

abbrev pub microsecond : ℕ
microsecond = 1000000

abbrev pub day : ℕ
day = 24 * 3600 * microsecond

abbrev hours_of : Text → Option ℕ
hours_of preset =
    if same preset (codes "1")
    then some 1
    else if same preset (codes "2")
    then some 2
    else if same preset (codes "4")
    then some 4
    else none

-- What a preset means: the sound on, silence until an instant, or the ValueError.
pub data Preset : Type 0 where
  sound_on unknown_preset : Preset
  until : ℕ → Preset

-- The instants in Kyiv: `local` gives the wall clock of an instant, `utc` the instant of a wall
-- clock, which zoneinfo computes.
module _ (local utc : ℕ → ℕ) where
  -- the next 07:00 of a wall clock
  abbrev pub next_morning : ℕ → ℕ
  next_morning kyiv_now =
      let kyiv_target = kyiv_now / day * day + 7 * 3600 * microsecond in
      if leb kyiv_target kyiv_now then kyiv_target + day else kyiv_target

  unfoldable pub preset_of : ℕ → Text → Preset
  preset_of now preset =
      let hours = hours_of preset in
      if same preset (codes "clear") then sound_on else elim hours [
        | some h ↦ until (now + h * 3600 * microsecond)
        | none ↦
            if same preset (codes "morning")
            then until (utc (next_morning (local now)))
            else unknown_preset
      ]

  module _ (R : Redis) where
    open R use {Keys, set_px, del}

    -- SET user_mute:{id} 1 EX seconds
    abbrev pub set_mute : ℕ → ℕ → ℕ → Keys → Keys
    set_mute clock id seconds s =
        set_px clock (mute (str (pos id))) (word (codes "1")) (seconds * 1000) s

    -- apply_mute_preset at the instant `now`; the clock of Redis is in milliseconds. int(..) cuts the
    -- fraction of a second off; a time that has passed counts as 0, which max makes 1.
    unfoldable pub apply_mute_preset :
        ℕ → ℕ → ℕ → ℕ → Text → Bool → Tables → Keys → Option (Tables × Keys)
    apply_mute_preset today now clock id preset answers db s = elim (preset_of now preset) [
      | unknown_preset ↦ none
      | sound_on ↦ some (
        record_activity today id false (update_user_mute id none db),
        if answers then del (mute (str (pos id))) s else s,
      )
      | until at ↦ some (
        record_activity today id false (update_user_mute id (some at) db),
        if answers then set_mute clock id (max 1 ((at - now) / microsecond)) s else s,
      )
    ]

    unfoldable pub acknowledge_alert : ℕ → ℕ → ℕ → ℕ → Bool → Tables → Keys → Tables × Keys
    acknowledge_alert today now clock id answers db s = (
      record_activity today id false (update_user_mute id (some (now + 10 * 60 * microsecond)) db),
      if answers then set_mute clock id 600 s else s,
    )
