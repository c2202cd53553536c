-- ===== src/Services/Users/Limits.antt =====
-- services/user_service.py: the limits on the phrases of users.
use alert_bot_project.Common.{
  ℕ, ◌+◌, ◌≤◌, ◌<◌, Text, ◌≡◌, ◌⊎◌, refl, sym, subst, Bool, true, false, not, List, [], ◌∷◌,
  if◌then◌else◌, same, is_in, any, filter, length, arith, Bool-cases, inl, inr,
}
use alert_bot_project.Shared.Constants.{max_custom_triggers, max_global_custom_triggers}
use alert_bot_project.Database.{
  Tables, UserTrigger, remove_rows, words_of, triggers_set, add_user_trigger, remove_user_trigger,
  get_or_create_user, record_activity,
}
use alert_bot_project.Services.Users.{
  is_static, toggle_location, custom_words, distinct, custom_count, global_count,
  add_custom_trigger, delete_custom_trigger,
}

abbrev phrases_in : ℕ → List UserTrigger → ℕ
phrases_in id rows = length (filter (λ w. not (is_static w)) (words_of id rows))

abbrev distinct_in : List UserTrigger → ℕ
distinct_in rows = length (distinct (custom_words rows))

-- No user has more than five phrases of their own, and there are at most 5000 of them in all.
abbrev pub IsLimited : Tables → Type 0
IsLimited db =
    ((id : ℕ) → custom_count id db ≤ max_custom_triggers)
    × (global_count db ≤ max_global_custom_triggers)

phrases_in-remove :
    (id j : ℕ) (w : Text) (rows : List UserTrigger)
    → phrases_in j (remove_rows id w rows) ≤ phrases_in j rows
unfolding remove_rows words_of filter
phrases_in-remove id j w [] = omega arith
phrases_in-remove id j w (t ∷ rows) = ground (arith, phrases_in-remove id j w rows)

-- 1 for a test that holds.
abbrev one_if : Bool → ℕ
one_if b = if b then 1 else 0

custom_words-remove :
    (id : ℕ) (w v : Text) (rows : List UserTrigger)
    → is_in v (custom_words (remove_rows id w rows)) ≡ true
    → is_in v (custom_words rows) ≡ true
unfolding remove_rows custom_words
custom_words-remove id w v [] h = h
custom_words-remove id w v (t ∷ rows) h = ground (arith, h, custom_words-remove id w v rows)

custom_words-keeps :
    (id : ℕ) (w v : Text) (rows : List UserTrigger)
    → same w v ≡ false
    → is_in v (custom_words (remove_rows id w rows)) ≡ is_in v (custom_words rows)
unfolding remove_rows custom_words
custom_words-keeps id w v [] h = refl
custom_words-keeps id w v (t ∷ rows) h = ground (arith, h, custom_words-keeps id w v rows h)

-- A removal takes one phrase away if it was the last row of it.
distinct_in-remove_row :
    (id : ℕ) (w : Text) (rows : List UserTrigger)
    → distinct_in (remove_rows id w rows) + one_if (is_in w (custom_words rows))
      ≤ distinct_in rows + one_if (is_in w (custom_words (remove_rows id w rows)))
unfolding remove_rows custom_words distinct
distinct_in-remove_row id w [] = omega arith
distinct_in-remove_row id w (t ∷ rows) = ground (
  arith,
  distinct_in-remove_row id w rows,
  custom_words-remove id w w rows,
  custom_words-keeps id w t.trigger_word rows,
)

distinct_in-remove :
    (id : ℕ) (w : Text) (rows : List UserTrigger)
    → distinct_in (remove_rows id w rows) ≤ distinct_in rows
distinct_in-remove id w rows =
    ground (arith, distinct_in-remove_row id w rows, custom_words-remove id w w rows)

pub remove-IsLimited :
    (id : ℕ) (w : Text) (db : Tables) → IsLimited db → IsLimited (remove_user_trigger id w db)
unfolding remove_user_trigger custom_count global_count triggers_set
remove-IsLimited id w db h = (
  λ j. omega (arith, h.0 j, phrases_in-remove id j w db.user_triggers),
  omega (arith, h.1, distinct_in-remove id w db.user_triggers),
)

is_in-custom_words :
    (w : Text) (rows : List UserTrigger)
    → is_static w ≡ false
    → is_in w (custom_words rows) ≡ any (λ t. same w t.trigger_word) rows
unfolding custom_words
is_in-custom_words w [] h = refl
is_in-custom_words w (t ∷ rows) h = ground (arith, h, is_in-custom_words w rows h)

-- The rows alone decide; an addition of a static key, or of a phrase within the limits.
abbrev IsLimitedRows : List UserTrigger → Type 0
IsLimitedRows rows =
    ((id : ℕ) → phrases_in id rows ≤ max_custom_triggers)
    × (distinct_in rows ≤ max_global_custom_triggers)

IsLimited-of_rows : (db : Tables) → IsLimitedRows db.user_triggers → IsLimited db
unfolding custom_count global_count triggers_set
IsLimited-of_rows db h = h

rows-of_IsLimited : (db : Tables) → IsLimited db → IsLimitedRows db.user_triggers
unfolding custom_count global_count triggers_set
rows-of_IsLimited db h = h

add_static :
    (id : ℕ) (w : Text) (rows : List UserTrigger)
    → is_static w ≡ true
    → IsLimitedRows rows
    → IsLimitedRows (record { user_id = id; trigger_word = w } ∷ rows)
unfolding words_of filter custom_words
add_static id w rows static h = (λ j. ground (arith, h.0 j, static), ground (arith, h.1, static))

add_phrase :
    (id : ℕ) (w : Text) (rows : List UserTrigger)
    → phrases_in id rows < max_custom_triggers
    → (any (λ t. same w t.trigger_word) rows ≡ false
        → distinct_in rows < max_global_custom_triggers)
    → IsLimitedRows rows
    → IsLimitedRows (record { user_id = id; trigger_word = w } ∷ rows)
unfolding words_of filter custom_words distinct
add_phrase id w rows few room h = (
  λ j. ground (arith, h.0 j, few),
  elim (Bool-cases (is_static w)) [
    | inl e ↦ ground (arith, e, h.1)
    | inr e ↦ ground (arith, e, h.1, room, is_in-custom_words w rows e)
  ],
)

abbrev row : ℕ → Text → UserTrigger
row id w = record { user_id = id; trigger_word = w }

add_custom_trigger_rows :
    (today id : ℕ) (w : Text) (db : Tables)
    → ((add_custom_trigger today id w db).1.user_triggers ≡ db.user_triggers)
      ⊎ (((add_custom_trigger today id w db).1.user_triggers ≡ row id w ∷ db.user_triggers)
          × (phrases_in id db.user_triggers < max_custom_triggers)
          × (any (λ t. same w t.trigger_word) db.user_triggers ≡ false
              → distinct_in db.user_triggers < max_global_custom_triggers))
unfolding add_custom_trigger add_user_trigger get_or_create_user record_activity custom_count
    global_count triggers_set
add_custom_trigger_rows today id w db = ground arith

pub add_custom_trigger-IsLimited :
    (today id : ℕ) (w : Text) (db : Tables)
    → IsLimited db
    → IsLimited (add_custom_trigger today id w db).1
add_custom_trigger-IsLimited today id w db h =
    IsLimited-of_rows (add_custom_trigger today id w db).1
      (elim (add_custom_trigger_rows today id w db) [
        | inl same_rows ↦ subst IsLimitedRows (sym same_rows) (rows-of_IsLimited db h)
        | inr (more, few, room) ↦
            subst IsLimitedRows (sym more)
              (add_phrase id w db.user_triggers few room (rows-of_IsLimited db h))
      ])

pub delete_custom_trigger-IsLimited :
    (today id : ℕ) (w : Text) (db : Tables)
    → IsLimited db
    → IsLimited (delete_custom_trigger today id w db)
unfolding delete_custom_trigger get_or_create_user record_activity custom_count global_count
    triggers_set
delete_custom_trigger-IsLimited today id w db h = remove-IsLimited id w db h

toggle_location_rows :
    (today id : ℕ) (w : Text) (db : Tables)
    → ((toggle_location today id w db).1.user_triggers ≡ db.user_triggers)
      ⊎ (((toggle_location today id w db).1.user_triggers ≡ row id w ∷ db.user_triggers)
          ⊎ ((toggle_location today id w db).1.user_triggers
              ≡ (remove_user_trigger id w db).user_triggers))
unfolding toggle_location add_user_trigger get_or_create_user record_activity remove_user_trigger
toggle_location_rows today id w db = ground arith

pub toggle_location-IsLimited :
    (today id : ℕ) (key : Text) (db : Tables)
    → is_static key ≡ true
    → IsLimited db
    → IsLimited (toggle_location today id key db).1
toggle_location-IsLimited today id key db static h =
    IsLimited-of_rows (toggle_location today id key db).1
      (elim (toggle_location_rows today id key db) [
        | inl same_rows ↦ subst IsLimitedRows (sym same_rows) (rows-of_IsLimited db h)
        | inr (inl more) ↦
            subst IsLimitedRows (sym more)
              (add_static id key db.user_triggers static (rows-of_IsLimited db h))
        | inr (inr fewer) ↦
            subst IsLimitedRows (sym fewer)
              (rows-of_IsLimited (remove_user_trigger id key db) (remove-IsLimited id key db h))
      ])

-- The limits depend on the rows of user_triggers only.
pub rows-IsLimited :
    (db after : Tables) → after.user_triggers ≡ db.user_triggers → IsLimited db → IsLimited after
rows-IsLimited db after same_rows h =
    IsLimited-of_rows after (subst IsLimitedRows (sym same_rows) (rows-of_IsLimited db h))
