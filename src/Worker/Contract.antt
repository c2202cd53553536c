-- ===== src/Worker/Contract.antt =====
-- worker/delivery_contract.py: the contract of the jobs in the delivery stream. All errors of the
-- validation are one `none`: every caller handles them alike. Texts hold no lone surrogates.
pub mod Valid
pub mod Freshness
pub mod Identity
use alert_bot_project.Common.{
  ℕ, suc, ◌+◌, ◌-◌, ◌*◌, ◌^◌, ℤ, pos, negsuc, str, Text, Text-discrete, codes, Bool, true, false,
  not, ◌&&◌, ◌||◌, Option, none, some, List, [], ◌∷◌, ◌++◌, ite, ltb, leb, ◌==◌, if◌then◌else◌,
  length, take, all,
}
use alert_bot_project.Shared.Constants.{alert_first}
use alert_bot_project.Shared.Json.{
  Json, null, bool, int, arr, obj, Items, nil, cons, Members, end, member, find, is_unique,
}
use alert_bot_project.Shared.Json
use alert_bot_project.Shared.Platform.{Platform}
unfoldable pub use alert_bot_project.Worker.Job.{
  read_int, canonical_chat_id, identity, only_known, field_step, field_text, field_silent,
  field_source_chat, field_source_message, field_generation, field_chat, consistent_identity,
  nonzero, text_items,
}
pub use alert_bot_project.Worker.Job.{
  ◌>>=◌, ◌>>◌, check, second, max_job_bytes, freshness_seconds, max_delivery_age_seconds, same,
  in_id_range, without_joiners, bounded_text, is_event, DeliveryJob,
}

module _ (P : Platform) where
  open P use {is_alnum, is_word, loads, read_time}

  -- pattern=r"^[\w:-]+$"
  abbrev pub event_char : ℕ → Bool
  event_char c = is_word c || c == b':' || c == b'-'

  unfoldable pub field_event : Option Json → Option (Option Text)
  field_event none = some none
  field_event (some null) = some none
  field_event (some (Json.str t)) = do
    e ← bounded_text 128 t
    check (all event_char e)
    some (some e)
  field_event (some _) = none

  -- source_time_type, AwareDatetime and source_time: at most 300 s ahead of the clock
  unfoldable pub field_timestamp : ℕ → Option Json → Option (Option ℕ)
  field_timestamp now none = some none
  field_timestamp now (some null) = some none
  field_timestamp now (some (Json.str t)) = do
    at ← read_time t
    check (leb at (now + 300 * second))
    some (some at)
  field_timestamp now (some _) = none

  -- str.isalnum
  abbrev pub is_alnum_text : Text → Bool
  is_alnum_text t = leb 1 (length t) && all is_alnum t

  -- location_keys
  abbrev pub location_key : Text → Bool
  location_key t = leb 1 (length t) && (leb (length t) 64 && is_alnum_text (without_joiners t))

  unfoldable pub field_locations : Option Json → Option (List Text)
  unfolding text_items
  field_locations none = some []
  field_locations (some (arr xs)) = do
    ts ← text_items xs
    check (leb (length ts) 64)
    check (all location_key ts)
    some ts
  field_locations (some _) = none

  -- DeliveryJob.model_validate
  unfoldable pub model_validate : ℕ → Members → Option DeliveryJob
  model_validate now ms = do
    check (only_known ms)
    chat ← field_chat (find (codes "chat_id") ms)
    step ← field_step (find (codes "step") ms)
    text ← field_text (find (codes "text") ms)
    silent ← field_silent (find (codes "silent") ms)
    event ← field_event (find (codes "event_id") ms)
    source ← field_source_chat (find (codes "source_chat_id") ms)
    message ← field_source_message (find (codes "source_message_id") ms)
    at ← field_timestamp now (find (codes "source_timestamp") ms)
    locations ← field_locations (find (codes "source_locations") ms)
    generation ← field_generation (find (codes "recipient_generation") ms)
    let j : DeliveryJob = record {
      chat_id = chat;
      step = step;
      text = text;
      silent = silent;
      event_id = event;
      source_chat_id = source;
      source_message_id = message;
      source_timestamp = at;
      source_locations = locations;
      recipient_generation = generation;
    }
    check (consistent_identity j)
    some j

  -- the length of payload.encode("utf-8")
  abbrev pub utf8_length : Text → ℕ
  utf8_length [] = 0
  utf8_length (c ∷ cs) =
      (if ltb c 128 then 1 else if ltb c 2048 then 2 else if ltb c 65536 then 3 else 4)
      + utf8_length cs

  unfoldable pub object : Json → Option Members
  object (obj ms) = some ms
  object _ = none

  unfoldable pub parse_delivery_job : ℕ → Text → Option DeliveryJob
  unfolding object
  parse_delivery_job now payload = do
    check (leb (utf8_length payload) max_job_bytes)
    value ← loads payload
    check (is_unique value)
    ms ← object value
    model_validate now ms

-- HISTORICAL_NOTICE
unfoldable pub historical_notice : Text
historical_notice =
    codes "⚠"
    ++ 0xfe0f
      ∷ codes
          " Затримане повідомлення про загрозу. Воно може бути неактуальним; перевірте поточний стан в офіційних джерелах."

-- text.removeprefix(prefix): none if the text does not begin so
strip_prefix : Text → Text → Option Text
strip_prefix [] t = some t
strip_prefix (p ∷ ps) [] = none
strip_prefix (p ∷ ps) (c ∷ cs) = let rest = strip_prefix ps cs in if p == c then rest else none

unfoldable pub removeprefix : Text → Text → Text
unfolding strip_prefix
removeprefix t prefix = elim (strip_prefix prefix t) [ none ↦ t | some rest ↦ rest ]

-- age > limit seconds; an instant ahead of the clock has a negative age
abbrev pub older_than : ℕ → ℕ → Option ℕ → Bool
older_than now limit none = false
older_than now limit (some at) = ltb (at + limit * second) now

abbrev pub unknown_time : Option ℕ → Bool
unknown_time none = true
unknown_time (some _) = false

-- (HISTORICAL_NOTICE + text.removeprefix(ALERT_FIRST))[:4096]
unfoldable pub as_notice : Text → Text
as_notice text = take 4096 (historical_notice ++ removeprefix text alert_first)

-- delivery_content
unfoldable pub delivery_content : ℕ → DeliveryJob → Text → Bool → Option (Text × Bool)
delivery_content now job text silent =
    if older_than now max_delivery_age_seconds job.source_timestamp
    then none
    else if unknown_time job.source_timestamp
        || older_than now freshness_seconds job.source_timestamp
    then (if ltb 1 job.step then none else some (as_notice text, true))
    else some (text, silent)
