-- ===== src/Bot/Settings/Limits.antt =====
-- bot/handlers/settings.py and bot/handlers/start.py: the limits on phrases over any updates of users.
use alert_bot_project.Common.{
  ℕ, ℤ, Text, ◌≡◌, ◌⊎◌, refl, sym, subst, true, false, Option, none, some, List, [], ◌∷◌, arith,
  filter, inl, inr,
}
use alert_bot_project.Shared.Platform.{Platform}
use alert_bot_project.Services.Users.{
  is_static, toggle_location, custom_count, global_count, custom_words, distinct,
  add_custom_trigger, delete_custom_trigger,
}
use alert_bot_project.Services.Users.Limits.{
  IsLimited, add_custom_trigger-IsLimited, delete_custom_trigger-IsLimited,
  toggle_location-IsLimited, rows-IsLimited,
}
use alert_bot_project.Shared.TextProcessor.{normalize}
use alert_bot_project.Database.{
  Tables, triggers_set, words_of, get_or_create_user, record_activity, update_user_mute,
  prune_old_activity,
}
use alert_bot_project.Bot.Settings.{
  toggle_location_trigger, toggle_threat_category, store_custom_user_keyword,
  delete_custom_user_keyword,
}

-- What changes the tables of users: the updates that the handlers take, and the daily clean-up.
pub data Update : Type 0 where
  start : ℕ → Update
  location : ℕ → Text → Text → ℤ → Update
  category : ℕ → Text → Update
  keyword : ℕ → Text → Update
  delete_keyword : ℕ → Option Text → Update
  mute : ℕ → Option ℕ → Update
  prune : Update

-- The handlers on the tables, on a day.
unfoldable pub handle : Platform → ℕ → Update → Tables → Tables
handle P today (start id) db = record_activity today id false (get_or_create_user id db).1
handle P today (location id group key page) db =
    (toggle_location_trigger today id group key page db).1
handle P today (category id c) db = (toggle_threat_category today id c db).1
handle P today (keyword id text) db = (store_custom_user_keyword P today id text db).2
handle P today (delete_keyword id phrase) db = (delete_custom_user_keyword today id phrase db).1
handle P today (mute id until) db = record_activity today id false (update_user_mute id until db)
handle P today prune db = prune_old_activity today db

unfoldable pub handle_all : Platform → List (ℕ × Update) → Tables → Tables
unfolding handle
handle_all P [] db = db
handle_all P ((today, u) ∷ us) db = handle_all P us (handle P today u db)

abbrev pub no_tables : Tables
no_tables = record { user_settings = []; user_triggers = []; user_activity_daily = [] }

location_cases :
    (today id : ℕ) (group key : Text) (page : ℤ) (db : Tables)
    → ((toggle_location_trigger today id group key page db).1 ≡ db)
      ⊎ ((is_static key ≡ true)
          × ((toggle_location_trigger today id group key page db).1
              ≡ (toggle_location today id key db).1))
unfolding toggle_location_trigger is_static
location_cases today id group key page db = ground arith

keyword_cases :
    (P : Platform) (today id : ℕ) (text : Text) (db : Tables)
    → ((store_custom_user_keyword P today id text db).2 ≡ db)
      ⊎ ((store_custom_user_keyword P today id text db).2
          ≡ (add_custom_trigger today id (normalize P text) db).1)
unfolding store_custom_user_keyword
keyword_cases P today id text db = ground arith

delete_cases :
    (today id : ℕ) (phrase : Option Text) (db : Tables)
    → ((delete_custom_user_keyword today id phrase db).1 ≡ db)
      ⊎ ((w : Text) × ((delete_custom_user_keyword today id phrase db).1
            ≡ delete_custom_trigger today id w db))
unfolding delete_custom_user_keyword
delete_cases today id none db = inl refl
delete_cases today id (some []) db = inl refl
delete_cases today id (some (c ∷ w)) db = inr (c ∷ w, refl)

handle-IsLimited :
    (P : Platform) (today : ℕ) (u : Update) (db : Tables)
    → IsLimited db
    → IsLimited (handle P today u db)
unfolding handle get_or_create_user record_activity update_user_mute prune_old_activity
    toggle_threat_category
handle-IsLimited P today (start id) db h = rows-IsLimited db _ refl h
handle-IsLimited P today (location id group key page) db h =
    elim (location_cases today id group key page db) [
      | inl kept ↦ subst IsLimited (sym kept) h
      | inr (static, toggled) ↦
          subst IsLimited (sym toggled) (toggle_location-IsLimited today id key db static h)
    ]
handle-IsLimited P today (category id c) db h = rows-IsLimited db _ (ground arith) h
handle-IsLimited P today (keyword id text) db h = elim (keyword_cases P today id text db) [
  | inl kept ↦ subst IsLimited (sym kept) h
  | inr stored ↦
      subst IsLimited (sym stored) (add_custom_trigger-IsLimited today id (normalize P text) db h)
]
handle-IsLimited P today (delete_keyword id phrase) db h = elim (delete_cases today id phrase db) [
  | inl kept ↦ subst IsLimited (sym kept) h
  | inr (w, removed) ↦
      subst IsLimited (sym removed) (delete_custom_trigger-IsLimited today id w db h)
]
handle-IsLimited P today (mute id until) db h = rows-IsLimited db _ refl h
handle-IsLimited P today prune db h = rows-IsLimited db _ refl h

no_tables-IsLimited : IsLimited no_tables
unfolding custom_count global_count triggers_set words_of filter custom_words distinct
no_tables-IsLimited = (λ id. omega arith, omega arith)

keeps-IsLimited :
    (P : Platform) (updates : List (ℕ × Update)) (db : Tables)
    → IsLimited db
    → IsLimited (handle_all P updates db)
unfolding handle_all
keeps-IsLimited P [] db h = h
keeps-IsLimited P ((today, u) ∷ us) db h =
    keeps-IsLimited P us (handle P today u db) (handle-IsLimited P today u db h)

-- Whatever updates of any users are handled one after another, from empty tables, no user has more
-- than five phrases of their own, and the users together have at most 5000.
pub handle_all-IsLimited :
    (P : Platform) (updates : List (ℕ × Update)) → IsLimited (handle_all P updates no_tables)
handle_all-IsLimited P updates = keeps-IsLimited P updates no_tables no_tables-IsLimited
