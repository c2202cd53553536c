-- ===== src/Worker/Broadcaster/Enqueue/Accepted.antt =====
-- worker/broadcaster.py and worker/delivery_contract.py: what `enqueue_alert` writes is read back.
use alert_bot_project.Common.{
  ℕ, ◌+◌, ◌*◌, ◌≤◌, ◌<◌, ◌≡◌, ◌≢◌, ◌∙◌, refl, ap, ℤ, pos, str, Text, Text-discrete, ℕ_discrete,
  codes, Bool, true, Option, none, some, List, [], ◌∷◌, all, length, leb, arith,
}
use alert_bot_project.Shared.Json.{Json, bool, int, arr, obj, Members, end, find, is_unique}
use alert_bot_project.Shared.Platform.{Platform}
use alert_bot_project.Worker.Contract.{
  second, max_job_bytes, utf8_length, object, DeliveryJob, parse_delivery_job, model_validate,
  only_known, field_chat, field_step, field_text, field_silent, field_event, field_source_chat,
  field_source_message, field_timestamp, field_locations, field_generation, consistent_identity,
  location_key,
}
use alert_bot_project.Worker.Job.{in_id_range, text_items}
use alert_bot_project.Worker.Contract.Identity.{field_chat-str, field_event-identity}
use alert_bot_project.Worker.Broadcaster.Enqueue.{
  Alert, sorted, texts, optional_text, event_of, job_json,
}

text_items-texts : (ts : List Text) → text_items (texts ts) ≡ some ts
unfolding text_items texts
text_items-texts [] = refl
text_items-texts (t ∷ ts) = ground (arith, text_items-texts ts)

unique_texts : (ts : List Text) → is_unique (arr (texts ts)) ≡ true
unfolding is_unique texts
unique_texts [] = refl
unique_texts (t ∷ ts) = unique_texts ts

unique_optional : (f : ℕ → Text) (o : Option ℕ) → is_unique (optional_text f o) ≡ true
unfolding is_unique optional_text
unique_optional f none = refl
unique_optional f (some at) = refl

module _ (P : Platform) where
  open P use {is_word, loads, dumps, read_time, isoformat}

  module _ (digit_is_word : (c : ℕ) → 48 ≤ c → c ≤ 57 → is_word c ≡ true) where
    module _ (now : ℕ) (a : Alert) (chat : ℤ) (g : Text) (step : ℕ) (text : Text)
        (silent : Bool) where
      -- The job that the payload of a stage describes.
      abbrev pub described : DeliveryJob
      described = record {
        chat_id = chat;
        step = step;
        text = text;
        silent = silent;
        event_id = some (event_of P a chat);
        source_chat_id = some a.source_chat_id;
        source_message_id = some a.source_message_id;
        source_timestamp = a.source_timestamp;
        source_locations = sorted a.locations;
        recipient_generation = g;
      }

      abbrev members_of : Json → Members
      members_of (obj ms) = ms
      members_of _ = end

      abbrev ms : Members
      ms = members_of (job_json P a chat g step text silent)

      names_known : only_known ms ≡ true
      unfolding only_known job_json Text-discrete ℕ_discrete
      names_known = refl

      names_unique : is_unique (job_json P a chat g step text silent) ≡ true
      unfolding is_unique job_json optional_text Text-discrete ℕ_discrete
      names_unique =
          ground
            (arith, unique_optional isoformat a.source_timestamp, unique_texts (sorted a.locations))

      fields_found :
          (find (codes "chat_id") ms ≡ some (Json.str (str chat)))
          × (find (codes "step") ms ≡ some (int (pos step)))
          × (find (codes "text") ms ≡ some (Json.str text))
          × (find (codes "silent") ms ≡ some (bool silent))
          × (find (codes "event_id") ms ≡ some (Json.str (event_of P a chat)))
          × (find (codes "source_chat_id") ms ≡ some (int a.source_chat_id))
          × (find (codes "source_message_id") ms ≡ some (int (pos a.source_message_id)))
          × (find (codes "source_timestamp") ms ≡ some (optional_text isoformat a.source_timestamp))
          × (find (codes "source_locations") ms ≡ some (arr (texts (sorted a.locations))))
          × (find (codes "recipient_generation") ms ≡ some (Json.str g))
      unfolding find job_json Text-discrete ℕ_discrete
      fields_found = (refl, refl, refl, refl, refl, refl, refl, refl, refl, refl)

      -- The time of the post, written and read again.
      abbrev IsReadBack : Option ℕ → Type 0
      IsReadBack none = Unit
      IsReadBack (some at) = (read_time (isoformat at) ≡ some at) × (at ≤ now + 300 * second)

      timestamp_read :
          (o : Option ℕ)
          → IsReadBack o
          → field_timestamp P now (some (optional_text isoformat o)) ≡ some o
      unfolding field_timestamp optional_text
      timestamp_read none h = refl
      timestamp_read (some at) h = ground (arith, h.0, h.1)

      locations_read :
          (ts : List Text)
          → length ts ≤ 64
          → all (location_key P) ts ≡ true
          → field_locations P (some (arr (texts ts))) ≡ some ts
      unfolding field_locations
      locations_read ts few keys = ground (arith, text_items-texts ts, few, keys)

      numbers_read :
          in_id_range a.source_chat_id ≡ true
          → 0 < a.source_message_id
          → a.source_message_id ≤ 2147483647
          → 0 < step
          → step ≤ 3
          → (field_source_chat (some (int a.source_chat_id)) ≡ some (some a.source_chat_id))
            × (field_source_message (some (int (pos a.source_message_id)))
                ≡ some (some a.source_message_id))
            × (field_step (some (int (pos step))) ≡ some step)
      unfolding field_source_chat field_source_message field_step
      numbers_read c m0 m1 s0 s1 =
          (ground (arith, c), ground (arith, m0, m1), ground (arith, s0, s1))

      texts_read :
          0 < length text
          → length text ≤ 4096
          → 0 < length g
          → length g ≤ 64
          → (field_text (some (Json.str text)) ≡ some text)
            × (field_generation (some (Json.str g)) ≡ some g)
            × (field_silent (some (bool silent)) ≡ some silent)
      unfolding field_text field_generation field_silent
      texts_read t0 t1 g0 g1 = (ground (arith, t0, t1), ground (arith, g0, g1), refl)

      described_consistent : consistent_identity described ≡ true
      unfolding consistent_identity Text-discrete
      described_consistent = ground arith

      model_validate-described :
          in_id_range chat ≡ true
          → chat ≢ pos 0
          → in_id_range a.source_chat_id ≡ true
          → 0 < a.source_message_id
          → a.source_message_id ≤ 2147483647
          → 0 < step
          → step ≤ 3
          → 0 < length text
          → length text ≤ 4096
          → 0 < length g
          → length g ≤ 64
          → IsReadBack a.source_timestamp
          → length (sorted a.locations) ≤ 64
          → all (location_key P) (sorted a.locations) ≡ true
          → model_validate P now ms ≡ some described
      unfolding model_validate
      model_validate-described c0 c1 c2 m0 m1 s0 s1 t0 t1 g0 g1 at l0 l1 =
          let (
            f_chat, f_step, f_text, f_silent, f_event, f_source, f_message, f_time, f_places,
            f_generation,
          ) =
            fields_found in
          let (source_read, message_read, step_read) = numbers_read c2 m0 m1 s0 s1 in
          let (text_read, generation_read, silent_read) = texts_read t0 t1 g0 g1 in
          rw
            (
              names_known,
              ap field_chat f_chat ∙ field_chat-str chat c0 c1,
              ap field_step f_step ∙ step_read,
              ap field_text f_text ∙ text_read,
              ap field_silent f_silent ∙ silent_read,
              ap (field_event P) f_event
                  ∙ field_event-identity P digit_is_word a.source_chat_id a.source_message_id chat
                      c2 (ground (arith, m1)) c0,
              ap field_source_chat f_source ∙ source_read,
              ap field_source_message f_message ∙ message_read,
              ap (field_timestamp P now) f_time ∙ timestamp_read a.source_timestamp at,
              ap (field_locations P) f_places ∙ locations_read (sorted a.locations) l0 l1,
              ap field_generation f_generation ∙ generation_read,
              described_consistent,
            )
            refl

      whole_object : object P (job_json P a chat g step text silent) ≡ some ms
      unfolding object job_json
      whole_object = refl

      -- The payload that enqueue_alert writes for a stage is parsed into the job that it describes,
      -- at any time at which the time of the post is at most 300 s ahead: for identifiers in range
      -- and a chat that is not 0, a stage from 1 to 3, a text and a generation that are not empty
      -- and not too long, at most 64 places with proper keys, and a payload that is not too large,
      -- where json.loads reads what json.dumps writes, AwareDatetime reads what isoformat writes,
      -- and the digits are in the class \w.
      pub parse_delivery_job-job_json :
          loads (dumps (job_json P a chat g step text silent))
            ≡ some (job_json P a chat g step text silent)
          → utf8_length P (dumps (job_json P a chat g step text silent)) ≤ max_job_bytes
          → in_id_range chat ≡ true
          → chat ≢ pos 0
          → in_id_range a.source_chat_id ≡ true
          → 0 < a.source_message_id
          → a.source_message_id ≤ 2147483647
          → 0 < step
          → step ≤ 3
          → 0 < length text
          → length text ≤ 4096
          → 0 < length g
          → length g ≤ 64
          → IsReadBack a.source_timestamp
          → length (sorted a.locations) ≤ 64
          → all (location_key P) (sorted a.locations) ≡ true
          → parse_delivery_job P now (dumps (job_json P a chat g step text silent)) ≡ some described
      unfolding parse_delivery_job object
      parse_delivery_job-job_json back size c0 c1 c2 m0 m1 s0 s1 t0 t1 g0 g1 at l0 l1 =
          let valid = model_validate-described c0 c1 c2 m0 m1 s0 s1 t0 t1 g0 g1 at l0 l1 in
          let small : leb (utf8_length P (dumps (job_json P a chat g step text silent)))
                max_job_bytes
              ≡ true =
            ground (arith, size) in
          rw (small, back, names_unique, whole_object) valid
