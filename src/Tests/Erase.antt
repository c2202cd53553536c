-- ===== src/Tests/Erase.antt =====
-- A witness for the deletion of a user's data.
use alert_bot_project.Common.{
  ℤ, Text-discrete, ℕ_discrete, ℤ-discrete, codes, digits, str, ◌≡◌, refl, Option, none, some, [],
  ◌∷◌, arith, filter,
}
use alert_bot_project.Redis.{Key-discrete}
use alert_bot_project.Redis.Memory.{memory, no_keys, no_streams}
use alert_bot_project.Shared.Json.{Json, int, find_last}
use alert_bot_project.Worker.Job.{read_int}
use alert_bot_project.Services.Privacy.{fence_deletion, await_idle}
use alert_bot_project.Services.Privacy.Erase.{
  Deletion, Data, done, scrub_stream, scrub_delayed, scrub_both, delete_user_data_locked, del_all,
  names_user,
}
use alert_bot_project.Services.Privacy.Erase.Complete.{
  IsForgotten, delete_user_data_locked-IsForgotten,
}
use alert_bot_project.Tests.{platform, first_payload, second_payload}

abbrev int_of : Json → Option ℤ
int_of (int n) = some n
int_of (Json.str t) = read_int t
int_of _ = none

abbrev deletion : Deletion memory.Keys
deletion = record {
  generation = codes "abcd";
  polls = (1000, λ s. s) ∷ [];
  matched = [];
  members = second_payload ∷ codes "other" ∷ [];
}

abbrev data_before : Data platform memory int_of
data_before = record {
  tables = record {
    user_settings = record { user_id = 7; potvory = []; muted_until = none } ∷ [];
    user_triggers = [];
    user_activity_daily = [];
  };
  keys = no_keys;
  streams = no_streams;
  delayed = (second_payload, 960) ∷ (codes "other", 970) ∷ [];
  delivery =
      record { id = codes "1-0"; payload = some first_payload }
      ∷ record { id = codes "2-0"; payload = none }
      ∷ [];
  dead_letters = [];
}

finishes : (delete_user_data_locked platform memory int_of 5 7 deletion data_before).0 ≡ done
unfolding delete_user_data_locked scrub_both scrub_stream scrub_delayed await_idle fence_deletion
    del_all Key-discrete Text-discrete ℕ_discrete ℤ-discrete digits str read_int find_last
    names_user filter
finishes = refl

delete_user_data_locked-IsForgotten_example :
    IsForgotten platform memory int_of 7 data_before
      (delete_user_data_locked platform memory int_of 5 7 deletion data_before).1
      deletion
delete_user_data_locked-IsForgotten_example =
    delete_user_data_locked-IsForgotten platform memory int_of 5 7 deletion data_before
      (omega arith) (omega arith) finishes
