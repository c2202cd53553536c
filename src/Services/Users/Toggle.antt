-- ===== src/Services/Users/Toggle.antt =====
-- services/user_service.py: a place that is switched twice.
use alert_bot_project.Common.{ℕ, Text, ◌≡◌, not, ◌&&◌, ◌==◌, if◌then◌else◌, same, is_in, arith}
use alert_bot_project.Database.{Tables, triggers_set, get_or_create_user, record_activity}
use alert_bot_project.Database.Rows.{triggers_set-add, triggers_set-remove}
use alert_bot_project.Services.Users.{toggle_location}

-- A word of a user is switched by the toggle of that user and word, and no other word of anyone.
pub toggle_location_lem :
    (today id j : ℕ) (key v : Text) (db : Tables)
    → is_in v (triggers_set j (toggle_location today id key db).1) ≡ (
        if (id == j) && same key v
        then not (is_in v (triggers_set j db))
        else is_in v (triggers_set j db))
unfolding toggle_location triggers_set get_or_create_user record_activity
toggle_location_lem today id j key v db =
    let created = (get_or_create_user id db).1 in
    ground (arith, triggers_set-add id j key v created, triggers_set-remove id j key v created)

-- Switching a place twice restores the words of every user.
pub toggle_location_twice :
    (today later id j : ℕ) (key v : Text) (db : Tables)
    → is_in v (triggers_set j (toggle_location later id key (toggle_location today id key db).1).1)
      ≡ is_in v (triggers_set j db)
toggle_location_twice today later id j key v db = ground (
  arith,
  toggle_location_lem today id j key v db,
  toggle_location_lem later id j key v (toggle_location today id key db).1,
)
