-- ===== src/Database.antt =====
-- database/models.py, database/crud.py and database/activity.py: the tables of users as lists of
-- rows, which PostgreSQL keeps in no order, and the statements on them. A session reads its own
-- statements, and bot/middlewares/db.py commits what a handler leaves when it returns.
pub mod Rows
pub mod Migration
use alert_bot_project.Common.{
  ℕ, ◌+◌, ◌-◌, Text, Text-discrete, codes, Bool, true, false, not, ◌&&◌, ◌||◌, Option, none, some,
  List, [], ◌∷◌, ltb, leb, ◌==◌, if◌then◌else◌, same, is_in, any, filter, length,
}

-- UserSettings without its relation
pub record UserProfile : Type 0 where
  pub user_id : ℕ
  pub potvory : List Text
  pub muted_until : Option ℕ

pub record UserTrigger : Type 0 where
  pub user_id : ℕ
  pub trigger_word : Text

-- activity_date is a count of days.
pub record UserActivityDaily : Type 0 where
  pub user_id : ℕ
  pub activity_date : ℕ
  pub interacted : Bool
  pub delivered : Bool

pub record Tables : Type 0 where
  pub user_settings : List UserProfile
  pub user_triggers : List UserTrigger
  pub user_activity_daily : List UserActivityDaily

unfoldable pub find_user : ℕ → List UserProfile → Option UserProfile
find_user id [] = none
find_user id (u ∷ us) = let rest = find_user id us in if u.user_id == id then some u else rest

abbrev pub new_user : ℕ → UserProfile
new_user id = record {
  user_id = id;
  potvory = codes "Мопеди" ∷ codes "Ракети" ∷ [];
  muted_until = none;
}

abbrev or_new : ℕ → Option UserProfile → UserProfile
or_new id none = new_user id
or_new id (some u) = u

abbrev with_user : ℕ → Option UserProfile → List UserProfile → List UserProfile
with_user id none us = new_user id ∷ us
with_user id (some u) us = us

unfoldable pub get_or_create_user : ℕ → Tables → UserProfile × Tables
unfolding find_user
get_or_create_user id db =
    let user = find_user id db.user_settings in
    (or_new id user, record db { user_settings = with_user id user db.user_settings })

abbrev pub is_row : ℕ → Text → UserTrigger → Bool
is_row id w t = (t.user_id == id) && same w t.trigger_word

-- add_user_trigger: whether the row is new
unfoldable pub add_user_trigger : ℕ → Text → Tables → Bool × Tables
add_user_trigger id w db = if any (is_row id w) db.user_triggers then (false, db) else (
  true,
  record db { user_triggers = record { user_id = id; trigger_word = w } ∷ db.user_triggers },
)

unfoldable pub remove_rows : ℕ → Text → List UserTrigger → List UserTrigger
remove_rows id w [] = []
remove_rows id w (t ∷ ts) =
    let rest = remove_rows id w ts in if is_row id w t then rest else t ∷ rest

unfoldable pub remove_user_trigger : ℕ → Text → Tables → Tables
remove_user_trigger id w db = record db { user_triggers = remove_rows id w db.user_triggers }

-- triggers_set
unfoldable pub words_of : ℕ → List UserTrigger → List Text
words_of id [] = []
words_of id (t ∷ ts) =
    let rest = words_of id ts in if t.user_id == id then t.trigger_word ∷ rest else rest

unfoldable pub triggers_set : ℕ → Tables → List Text
triggers_set id db = words_of id db.user_triggers

unfoldable pub change_user : ℕ → (UserProfile → UserProfile) → List UserProfile → List UserProfile
change_user id f [] = []
change_user id f (u ∷ us) =
    let rest = change_user id f us in if u.user_id == id then f u ∷ us else u ∷ rest

unfoldable pub update_user_potvory : ℕ → List Text → Tables → Tables
unfolding get_or_create_user change_user
update_user_potvory id potvory_list db =
    let db' = (get_or_create_user id db).1 in
    record db' {
      user_settings = change_user id (λ u. record u { potvory = potvory_list }) db'.user_settings;
    }

unfoldable pub update_user_mute : ℕ → Option ℕ → Tables → Tables
unfolding get_or_create_user change_user
update_user_mute id muted_until db =
    let db' = (get_or_create_user id db).1 in
    record db' {
      user_settings =
          change_user id (λ u. record u { muted_until = muted_until }) db'.user_settings;
    }

-- The upsert of record_activity.
unfoldable pub upsert_activity :
    ℕ → ℕ → Bool → Bool → List UserActivityDaily → List UserActivityDaily
upsert_activity id day interacted delivered [] =
    record { user_id = id; activity_date = day; interacted = interacted; delivered = delivered }
    ∷ []
upsert_activity id day interacted delivered (a ∷ rows) =
    let rest = upsert_activity id day interacted delivered rows in
    if (a.user_id == id) && (a.activity_date == day)
    then record a { interacted = a.interacted || interacted; delivered = a.delivered || delivered }
      ∷ rows
    else a ∷ rest

unfoldable pub record_activity : ℕ → ℕ → Bool → Tables → Tables
unfolding upsert_activity
record_activity day id delivered db = record db {
  user_activity_daily = upsert_activity id day (not delivered) delivered db.user_activity_daily;
}

-- The users of the rows that pass a test, each once.
unfoldable pub distinct_users : (UserActivityDaily → Bool) → List UserActivityDaily → List ℕ
distinct_users p [] = []
distinct_users p (a ∷ rows) =
    let rest = distinct_users p rows in
    if p a && not (any (λ id. id == a.user_id) rest) then a.user_id ∷ rest else rest

abbrev in_month : ℕ → UserActivityDaily → Bool
in_month end a = leb end (a.activity_date + 29) && leb a.activity_date end

-- count_active_users: those who used the bot and those who were sent an alert, in the 30 days to
-- `end`
unfoldable pub count_active_users : ℕ → Tables → ℕ × ℕ
unfolding distinct_users
count_active_users end db = (
  length (distinct_users (λ a. in_month end a && a.interacted) db.user_activity_daily),
  length (distinct_users (λ a. in_month end a && a.delivered) db.user_activity_daily),
)

unfoldable pub prune_old_activity : ℕ → Tables → Tables
unfolding filter
prune_old_activity today db = record db {
  user_activity_daily = filter (λ a. leb today (a.activity_date + 30)) db.user_activity_daily;
}
