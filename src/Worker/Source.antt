-- ===== src/Worker/Source.antt =====
-- worker/main.py, `process_single_stream_payload`: from an entry of the source stream to the jobs of
-- its recipients, where Redis answers and the matcher is within its limit: an error of these leaves
-- the handling, and is in Worker/Consume.
pub mod Acknowledged
pub mod Settled
pub mod Recipients
pub mod Phrases
use alert_bot_project.Common.{
  ℕ, ◌+◌, ◌*◌, ℤ, pos, str, Text, codes, Bool, true, false, not, ◌&&◌, ◌||◌, Option, none, some,
  List, [], ◌∷◌, map, ltb, leb, if◌then◌else◌, length, is_empty,
}
use alert_bot_project.Redis.{
  MessageId, word, count_of, Redis, Db, alerts_stream, dead_letter_queue, expired_alerts_queue,
  dead, failed_task, retry_count, expired_audited, clear_id,
}
use alert_bot_project.Shared.Constants.{source_replay_horizon_seconds}
use alert_bot_project.Shared.Platform.{Platform, instant}
use alert_bot_project.Shared.TextProcessor.{
  Analysis, SignalStatus, active, clear, negated, unknown, analyze_signal, parse_message, normalize,
}
use alert_bot_project.Services.Privacy.{exists}
use alert_bot_project.Services.Alarm.Poller.{Settings, check_official_air_alarm}
use alert_bot_project.Worker.Contract.{second}
use alert_bot_project.Worker.Clear.{record_clears}
use alert_bot_project.Worker.Triggers.{resolve_trigger_words}
use alert_bot_project.Worker.FanOut.{UserSettings, get_target_user_ids_page, last_of, page_limit}
use alert_bot_project.Worker.Broadcaster.Attempt.{Config, is_night}
use alert_bot_project.Worker.Broadcaster.Enqueue.{Alert, dispatch_alerts}
use alert_bot_project.Worker.Broadcaster.Verdict.{cleared_by, scoped_clear}

-- AlertMessage, of a post of Telegram, whose id is a natural number
pub record AlertMessage : Type 0 where
  pub message_id : ℕ
  pub chat_id : ℤ
  pub raw_text : Text
  pub timestamp : ℕ

-- What the handling of an entry meets.
pub record Encounter : Type 0 where
  -- the clock, and the local time of day in microseconds
  pub now : ℕ
  pub local : ℕ
  -- the entry, and what pydantic reads of its fields, before the checks of AlertMessage
  pub message : MessageId
  pub raw_json : Text
  pub fields : Option AlertMessage
  -- the phrases of users that trigger_matcher finds in a normalized text
  pub matched_custom : Text → List Text
  -- whether Redis answers check_official_air_alarm
  pub alarm_answers : Bool
  -- whether the database answers, for each page that is asked for, and its rows
  pub pages : List Bool
  pub users : List UserSettings
  -- the name of the class of its error
  pub error_name : Text

-- AlertMessage: max_length, validate_source_time
unfoldable pub validate_payload : ℕ → Option AlertMessage → Option AlertMessage
validate_payload now none = none
validate_payload now (some m) =
    if leb (length m.raw_text) 4096 && leb m.timestamp (instant now + 300 * second)
    then some m
    else none

-- How the handling ends.
pub data Ending : Type 0 where
  invalid all_clear denied suppressed unwanted daytime dispatched database_failed out_of_rounds :
      Ending

-- What the loop over the pages does: it ends, the database fails, or the rounds run out.
pub data Paging : Type 0 where
  complete failed out_of_pages : Paging

abbrev default_categories : List Text → List Text
default_categories [] = codes "Мопеди" ∷ codes "Ракети" ∷ []
default_categories (c ∷ cs) = c ∷ cs

abbrev page_of : Option (List ℕ) → List ℕ
page_of none = []
page_of (some page) = page

module _ (P : Platform) (R : Redis) (config : Config) (alarm : Settings) where
  open R use {Keys, get, set_px, del, incr, expire, xadd, xack}

  abbrev pub ack_source : MessageId → Db R → Db R
  ack_source m s = record s { streams = xack alerts_stream m s.streams }

  -- AUDIT_EXPIRED_LUA
  unfoldable pub audit_expired : ℕ → MessageId → Text → Db R → Db R
  audit_expired now m raw_json s =
      if exists (get now s.keys (expired_audited m)) then s else record s {
        streams = xadd expired_alerts_queue (dead raw_json (codes "older_than_600s") m) s.streams;
        keys =
            set_px now (expired_audited m) (word (codes "1")) (source_replay_horizon_seconds * 1000)
              s.keys;
      }

  -- _handle_db_failure
  unfoldable pub handle_db_failure : ℕ → MessageId → Text → Text → Db R → Db R
  handle_db_failure now m raw_json error_name s =
      let counted = expire now (retry_count m) 3600000 (incr now (retry_count m) s.keys) in
      let current_retries = count_of (get now (incr now (retry_count m) s.keys) (retry_count m)) in
      if ltb 5 current_retries
      then record s {
        streams =
            xack alerts_stream m
              (xadd dead_letter_queue (failed_task raw_json error_name) s.streams);
        keys = del (retry_count m) counted;
      }
      else record s { keys = counted }

  -- The loop over the pages, for each page whether the database answers.
  unfoldable pub fan_out_pages :
      List Bool
      → ℕ
      → Alert
      → List Text
      → List Text
      → List UserSettings
      → Option ℕ
      → Db R
      → Paging × Db R
  fan_out_pages [] now a categories triggers users after s = (out_of_pages, s)
  fan_out_pages (answers ∷ pages) now a categories triggers users after s =
      let page =
        page_of (get_target_user_ids_page now categories triggers after page_limit users) in
      let s' = dispatch_alerts P R now a (map pos page) s in
      let rest = fan_out_pages pages now a categories triggers users (some (last_of 0 page)) s' in
      if not answers
      then (failed, s)
      else if ltb 0 (length page)
      then (if ltb (length page) page_limit then (complete, s') else rest)
      else (complete, s)

  -- The end of the handling, after the loop.
  abbrev pub settle_pages : Encounter → Paging × Db R → Ending × Db R
  settle_pages e (complete, s) = (
    dispatched,
    record s {
      streams = xack alerts_stream e.message s.streams;
      keys = del (retry_count e.message) s.keys;
    },
  )
  settle_pages e (failed, s) =
      (database_failed, handle_db_failure e.now e.message e.raw_json e.error_name s)
  settle_pages e (out_of_pages, s) = (out_of_rounds, s)

  abbrev pub alert_of : AlertMessage → Analysis → Bool → Alert
  alert_of m analysis stale = record {
    source_chat_id = m.chat_id;
    source_message_id = m.message_id;
    source_timestamp = some m.timestamp;
    categories = default_categories analysis.categories;
    locations = analysis.locations;
    stale = stale;
  }

  -- A newer clear of the channel, or of every place of the post.
  unfoldable pub is_suppressed : ℕ → AlertMessage → List Text → Keys → Bool
  is_suppressed now m locations s =
      cleared_by R (get now s (clear_id (str m.chat_id))) m.message_id
      || scoped_clear R now s (str m.chat_id) m.message_id locations

  -- for the trigger words, from the default categories on
  unfoldable pub send_out :
      Encounter → AlertMessage → Analysis → Bool → Option (List Text) → Db R → Ending × Db R
  unfolding fan_out_pages handle_db_failure
  send_out e m analysis stale none s = (unwanted, ack_source e.message s)
  send_out e m analysis stale (some words) s =
      let a = alert_of m analysis stale in
      let paged = fan_out_pages e.pages e.now a a.categories words e.users none s in
      let done = settle_pages e paged in
      if not stale && not (is_night config e.local) then (daytime, ack_source e.message s) else done

  -- a post with something to report, from its analysis on
  unfoldable pub route : Encounter → AlertMessage → Text → Bool → Db R → Ending × Db R
  unfolding send_out is_suppressed
  route e m positive_text stale s =
      let analysis = parse_message P positive_text in
      let words =
        resolve_trigger_words analysis.categories analysis.locations
          (e.matched_custom (normalize P positive_text))
          (check_official_air_alarm P R alarm e.now e.alarm_answers s.keys) in
      let sent = send_out e m analysis stale words s in
      if is_suppressed e.now m analysis.locations s.keys
      then (suppressed, ack_source e.message s)
      else sent

  abbrev pub is_stale : ℕ → AlertMessage → Bool
  is_stale now m = ltb (m.timestamp + 600 * second) (instant now)

  -- the audit and the record of the clears, of a valid post
  abbrev pub recorded : Encounter → AlertMessage → Db R → Db R
  recorded e m s =
      let signal = analyze_signal P m.raw_text in
      let s' = if is_stale e.now m then audit_expired e.now e.message e.raw_json s else s in
      record s' {
        keys =
            record_clears R e.now m.chat_id m.message_id signal.global_clear signal.clear_locations
              s'.keys;
      }

  unfoldable pub process_valid : Encounter → AlertMessage → Db R → Ending × Db R
  unfolding route audit_expired
  process_valid e m s =
      let signal = analyze_signal P m.raw_text in
      let s' = recorded e m s in
      let routed = route e m signal.positive_text (is_stale e.now m) s' in
      elim signal.status [
        | clear ↦ (all_clear, ack_source e.message s')
        | negated ↦ (denied, ack_source e.message s')
        | _ ↦ routed
      ]

  -- process_single_stream_payload
  unfoldable pub process_payload : Encounter → Db R → Ending × Db R
  unfolding process_valid validate_payload
  process_payload e s = elim (validate_payload e.now e.fields) [
    | none ↦ (invalid, ack_source e.message s)
    | some m ↦ process_valid e m s
  ]
