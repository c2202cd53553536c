-- ===== src/Database/Rows.antt =====
-- database/crud.py: which words a user has after a row is added or removed.
use alert_bot_project.Common.{
  ℕ, Text, ◌≡◌, refl, not, ◌&&◌, ◌||◌, List, [], ◌∷◌, ◌==◌, same, is_in, any, arith,
}
use alert_bot_project.Database.{
  UserTrigger, Tables, is_row, remove_rows, words_of, triggers_set, add_user_trigger,
  remove_user_trigger,
}

pub is_in-words_of :
    (id : ℕ) (w : Text) (rows : List UserTrigger)
    → is_in w (words_of id rows) ≡ any (is_row id w) rows
unfolding words_of
is_in-words_of id w [] = refl
is_in-words_of id w (t ∷ rows) = ground (arith, is_in-words_of id w rows)

pub any-remove_rows :
    (id j : ℕ) (w v : Text) (rows : List UserTrigger)
    → any (is_row j v) (remove_rows id w rows)
      ≡ (not ((id == j) && same w v) && any (is_row j v) rows)
unfolding remove_rows
any-remove_rows id j w v [] = ground arith
any-remove_rows id j w v (t ∷ rows) = ground (arith, any-remove_rows id j w v rows)

-- The words of every user after a removal and after an addition.
pub triggers_set-remove :
    (id j : ℕ) (w v : Text) (db : Tables)
    → is_in v (triggers_set j (remove_user_trigger id w db))
      ≡ (not ((id == j) && same w v) && is_in v (triggers_set j db))
unfolding triggers_set remove_user_trigger
triggers_set-remove id j w v db = ground (
  arith,
  any-remove_rows id j w v db.user_triggers,
  is_in-words_of j v db.user_triggers,
  is_in-words_of j v (remove_rows id w db.user_triggers),
)

pub triggers_set-add :
    (id j : ℕ) (w v : Text) (db : Tables)
    → is_in v (triggers_set j (add_user_trigger id w db).1)
      ≡ (((id == j) && same w v) || is_in v (triggers_set j db))
unfolding triggers_set add_user_trigger words_of
triggers_set-add id j w v db =
    ground (arith, is_in-words_of j v db.user_triggers, is_in-words_of id w db.user_triggers)
