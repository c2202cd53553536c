-- ===== src/Bot/Settings.antt =====
-- bot/handlers/settings.py and the throttle of bot/middlewares/throttling.py: what an update of a
-- user does. Of the replies, the keyboards and the outcome are kept.
pub mod Limits
use alert_bot_project.Common.{
  ℕ, ◌+◌, ℤ, pos, str, Text, codes, Bool, true, false, not, ◌&&◌, ◌||◌, Option, none, some, List,
  [], ◌∷◌, ◌++◌, ltb, leb, if◌then◌else◌, same, is_in, is_empty, filter, length,
}
use alert_bot_project.Redis.{word, Redis, throttle}
use alert_bot_project.Shared.Platform.{Platform}
use alert_bot_project.Shared.Places.{has_place, has_category, kr_potvory}
use alert_bot_project.Shared.Places.Odesa.{odesa_locs}
use alert_bot_project.Shared.Places.Outside.{outside_locs}
use alert_bot_project.Shared.TextProcessor.{normalize, found_locations}
use alert_bot_project.Services.Privacy.{exists}
use alert_bot_project.Services.Users.{
  is_static, toggle_location, Added, add_custom_trigger, delete_custom_trigger,
}
use alert_bot_project.Database.{
  UserProfile, Tables, get_or_create_user, triggers_set, change_user, record_activity,
}
use alert_bot_project.Bot.Keyboards.{
  Button, build_locations_paginated_keyboard, build_threat_categories_keyboard,
  build_custom_triggers_management_keyboard,
}

-- { t for t in user.triggers_set if t not in static_keys }
abbrev custom_phrases : ℕ → Tables → List Text
custom_phrases id db = filter (λ w. not (is_static w)) (triggers_set id db)

unfoldable show_custom_phrases_menu : ℕ → Tables → List Button × Tables
unfolding filter
show_custom_phrases_menu id db =
    let (user, db') = get_or_create_user id db in
    (build_custom_triggers_management_keyboard (custom_phrases id db'), db')

unfoldable show_paginated_locations : ℕ → Text → ℤ → Tables → List Button × Tables
show_paginated_locations id group page db =
    let (user, db') = get_or_create_user id db in
    (build_locations_paginated_keyboard group (triggers_set id db') page, db')

-- none is the alert of an unknown place.
unfoldable pub toggle_location_trigger :
    ℕ → ℕ → Text → Text → ℤ → Tables → Option (List Button) × Tables
toggle_location_trigger today id group location_key page db =
    let (updated_triggers, db') = toggle_location today id location_key db in
    if not (has_place location_key odesa_locs) && not (has_place location_key outside_locs)
    then (none, db)
    else (some (build_locations_paginated_keyboard group updated_triggers page), db')

unfoldable show_threat_categories : ℕ → Tables → List Button × Tables
show_threat_categories id db =
    let (user, db') = get_or_create_user id db in
    (build_threat_categories_keyboard user.potvory, db')

-- list.remove
abbrev pub remove_first : Text → List Text → List Text
remove_first t [] = []
remove_first t (x ∷ xs) = let rest = remove_first t xs in if same t x then xs else x ∷ rest

abbrev pub switched : Text → List Text → List Text
switched c categories =
    if is_in c categories then remove_first c categories else categories ++ c ∷ []

-- none is the alert of an unknown category.
unfoldable pub toggle_threat_category : ℕ → ℕ → Text → Tables → Option (List Button) × Tables
unfolding change_user
toggle_threat_category today id category db =
    let (user, db1) = get_or_create_user id db in
    let categories = switched category user.potvory in
    let db2 = record db1 {
      user_settings = change_user id (λ u. record u { potvory = categories }) db1.user_settings;
    } in
    if not (has_category category kr_potvory)
    then (none, db)
    else (some (build_threat_categories_keyboard categories), record_activity today id false db2)

-- What store_custom_user_keyword answers.
pub data Stored : Type 0 where
  ignored bad_input built_in : Stored
  answered : Added → Stored

module _ (P : Platform) where
  -- The answer, whether the user is still asked for a keyword, and the tables.
  unfoldable pub store_custom_user_keyword : ℕ → ℕ → Text → Tables → Stored × Bool × Tables
  store_custom_user_keyword today id text db =
      let cleaned_input = normalize P text in
      let (result, db') = add_custom_trigger today id cleaned_input db in
      if is_empty text
      then (ignored, true, db)
      else if ltb (length cleaned_input) 3 || ltb 30 (length cleaned_input)
      then (bad_input, true, db)
      else if not (is_empty (found_locations P (odesa_locs ++ outside_locs) cleaned_input))
      then (built_in, false, db)
      else (answered result, false, db')

abbrev is_missing : Option Text → Bool
is_missing none = true
is_missing (some t) = is_empty t

abbrev phrase_of : Option Text → Text
phrase_of none = []
phrase_of (some t) = t

-- none is the alert of a missing phrase.
unfoldable pub delete_custom_user_keyword :
    ℕ → ℕ → Option Text → Tables → Option (List Button) × Tables
unfolding filter
delete_custom_user_keyword today id phrase db =
    let db' = delete_custom_trigger today id (phrase_of phrase) db in
    if is_missing phrase
    then (none, db)
    else (some (build_custom_triggers_management_keyboard (custom_phrases id db')), db')

module _ (R : Redis) where
  open R use {Keys, get, set_px}

  -- ThrottlingMiddleware at its default rate of 0.5 s: whether the handler runs.
  unfoldable pub throttled : ℕ → Option ℤ → Keys → Bool × Keys
  throttled now none s = (true, s)
  throttled now (some id) s =
      let key = throttle (str id) in
      if exists (get now s key) then (false, s) else (true, set_px now key (word (codes "1")) 500 s)
