-- ===== src/Tests.antt =====
-- Data for the tests and witnesses: a platform, a store, and a job.
mod Owned
mod Phrases
mod Consume
mod Migration
mod Matcher
mod Deliver
mod Queue
mod Limits
mod Recipient
mod Sources
mod Publishing
mod Menu
mod Alarm
mod Texts
mod Source
mod Payload
mod Retention
mod Erase
mod Triggers
use alert_bot_project.Common.{
  ℕ, ◌≡◌, refl, Text-discrete, ℕ_discrete, digits, str, ℤ, pos, negsuc, Text, codes, Bool, true,
  false, Option, none, some, List, [], ◌∷◌, ◌&&◌, ◌||◌, leb, if◌then◌else◌, ◌==◌, ◌++◌,
}
use alert_bot_project.Redis.{Redis, Db}
use alert_bot_project.Redis.Memory.{memory, no_keys, no_streams}
use alert_bot_project.Shared.Json.{
  Json, null, bool, int, arr, obj, Members, end, member, find, is_unique,
}
use alert_bot_project.Shared.Platform.{Platform, instant}
use alert_bot_project.Shared.TextProcessor.{clear_pattern}
use alert_bot_project.Worker.Contract.{
  same, DeliveryJob, parse_delivery_job, model_validate, only_known, field_chat, canonical_chat_id,
  field_step, field_text, field_silent, field_event, field_source_chat, field_source_message,
  field_timestamp, field_locations, field_generation, consistent_identity, identity, read_int,
}
use alert_bot_project.Worker.Broadcaster.Attempt.{Config, Response, delivered, Attempt}

-- {"chat_id": "7", "step": .., "text": "go", "event_id": "1:5:7", "source_chat_id": 1, ...}
abbrev pub job_members : ℕ → Members
job_members step = member (codes "chat_id") (Json.str (codes "7")) (
    member (codes "step") (int (pos step)) (
      member (codes "text") (Json.str (codes "go")) (
        member (codes "event_id") (Json.str (codes "1:5:7")) (
          member (codes "source_chat_id") (int (pos 1)) (
            member (codes "source_message_id") (int (pos 5))
              (member (codes "source_timestamp") (Json.str (codes "then")) end))))))

abbrev pub first_payload : Text
first_payload = codes "first"

abbrev pub second_payload : Text
second_payload = codes "second"

abbrev pub read : Text → Option Json
read t =
    if same t first_payload
    then some (obj (job_members 1))
    else if same t second_payload
    then some (obj (job_members 2))
    else none

abbrev text_member : Option Json → Text
text_member (some (Json.str t)) = t
text_member _ = codes ""

abbrev shown_text : Json → Text
shown_text (obj ms) = text_member (find (codes "text") ms)
shown_text _ = codes ""

abbrev pub is_letter : ℕ → Bool
is_letter c = (leb 48 c && leb c 57) || (leb 97 c && leb c 122)

-- The parts of a text between its full stops.
abbrev split_dots : Text → Text → List Text
split_dots part [] = part ∷ []
split_dots part (c ∷ cs) =
    if c == 46 then part ∷ split_dots [] cs else split_dots (part ++ c ∷ []) cs

abbrev pub platform : Platform
platform = record {
  is_alnum = is_letter;
  is_word = is_letter;
  loads = read;
  decode = read;
  dumps = shown_text;
  read_time = λ t. some (instant 900);
  isoformat = λ at. codes "then";
  kyiv_minute = λ at. codes "now";
  format_0f = λ v. codes "7";
  tostring = λ v. codes "0";
  py_str = λ v. codes "";
  lower = λ t. t;
  upper = λ t. t;
  is_space = λ c. c == 32;
  search_ignorecase = λ pattern t. same pattern clear_pattern && same t (codes "all clear");
  split_ignorecase = λ pattern t. split_dots [] t;
}

abbrev pub empty_store : Db memory
empty_store = record { keys = no_keys; streams = no_streams; delayed = [] }

abbrev pub message : Text
message = codes "1-0"

abbrev pub config : Config
config = record { night_start_hour = 22; night_end_hour = 7; telegram_max_retry_seconds = 30 }

abbrev pub attempt_at : ℕ → Attempt memory
attempt_at now = record {
  start = now;
  finish = now;
  local = 0;
  muted_until = none;
  lags = 0 ∷ [];
  waiting = λ s. s;
  sending = λ s. s;
  guard = none;
  response = delivered;
}

abbrev pub first_job : DeliveryJob
first_job = record {
  chat_id = pos 7;
  step = 1;
  text = codes "go";
  silent = false;
  event_id = some (codes "1:5:7");
  source_chat_id = some (pos 1);
  source_message_id = some 5;
  source_timestamp = some (instant 900);
  source_locations = [];
  recipient_generation = codes "0";
}

first_validates :
    (model_validate platform (instant 1000) (job_members 1) ≡ some first_job)
    × (model_validate platform (instant 2000) (job_members 1) ≡ some first_job)
unfolding model_validate only_known field_chat canonical_chat_id field_step field_text field_silent
    field_event field_source_chat field_source_message field_timestamp field_locations
    field_generation consistent_identity identity read_int find Text-discrete ℕ_discrete digits str
first_validates = (refl, refl)

pub first_parses :
    (parse_delivery_job platform (instant 1000) first_payload ≡ some first_job)
    × (parse_delivery_job platform (instant 2000) first_payload ≡ some first_job)
unfolding parse_delivery_job is_unique Text-discrete ℕ_discrete
first_parses = first_validates
