-- ===== src/Tests/Source.antt =====
-- Witnesses for the handling of source posts.
use alert_bot_project.Common.{
  ℕ, ◌+◌, ◌<◌, ◌≤◌, ◌++◌, pos, Text, codes, ◌≡◌, refl, Bool, true, none, some, List, [], ◌∷◌, arith,
  Text-discrete, ℕ_discrete, digits, str,
}
use alert_bot_project.Redis.{Db, num, failed_task, dead_letter_queue, retry_count, Key-discrete}
use alert_bot_project.Redis.Memory.{memory}
use alert_bot_project.Shared.Places.{kr_potvory}
use alert_bot_project.Shared.Places.Odesa.{odesa_locs}
use alert_bot_project.Shared.Places.Outside.{outside_locs}
use alert_bot_project.Shared.WordSearch.{search}
use alert_bot_project.Shared.TextProcessor.{
  active, analyze_signal, parse_message, joined, add_clause, add_clauses,
}
use alert_bot_project.Services.Alarm.Poller.{check_official_air_alarm}
use alert_bot_project.Worker.Triggers.{resolve_trigger_words}
use alert_bot_project.Worker.Clear.{record_clears, record_locations}
use alert_bot_project.Worker.Broadcaster.Attempt.{is_night}
use alert_bot_project.Worker.Broadcaster.Verdict.{cleared_by, scoped_clear}
use alert_bot_project.Worker.FanOut.{UserSettings, selected, is_target, overlap}
use alert_bot_project.Worker.Source.{
  validate_payload, is_suppressed, audit_expired, AlertMessage, Encounter, dispatched,
  process_payload, recorded, handle_db_failure, alert_of, is_stale,
}
use alert_bot_project.Worker.Source.Acknowledged.{hour_ms, pending_for, handle_db_failure_lem}
use alert_bot_project.Worker.Source.Recipients.{
  all_enqueued, recipients, analysis_of, IsSentOut, categories_of, process_payload-recipients,
}
use alert_bot_project.Tests.{platform, empty_store, message, config}
use alert_bot_project.Tests.Alarm.{alarm}

abbrev pub post : AlertMessage
post = record {
  message_id = 5;
  chat_id = pos 1;
  raw_text = codes "reaktivn port";
  timestamp = 62135596801000000;
}

abbrev pub user : ℕ → Text → UserSettings
user n word = record {
  user_id = n;
  potvory = codes "Мопеди" ∷ [];
  muted_until = none;
  trigger_words = word ∷ [];
}

abbrev pub encounter : List Bool → Encounter
encounter pages = record {
  now = 2000;
  local = 0;
  message = message;
  raw_json = codes "{}";
  fields = some post;
  matched_custom = λ t. [];
  alarm_answers = true;
  pages = pages;
  users = user 3 (codes "port") ∷ user 4 (codes "reni") ∷ user 7 (codes "port") ∷ [];
  error_name = codes "OperationalError";
}

abbrev after_failure : Db memory
after_failure =
    handle_db_failure platform memory config alarm 2000 message (codes "{}") (codes "Error")
      empty_store

handle_db_failure_lem_example :
    (0 < 5
      → (after_failure.streams ≡ empty_store.streams)
        × (pending_for platform memory after_failure message
            ≡ pending_for platform memory empty_store message)
        × ((u : ℕ)
            → 2000 ≤ u
            → u < 2000 + hour_ms
            → memory.get u after_failure.keys (retry_count message) ≡ some (num 1)))
    × (5 ≤ 0
        → (pending_for platform memory after_failure message ≡ none)
          × (memory.entries after_failure.streams dead_letter_queue
              ≡ memory.entries empty_store.streams dead_letter_queue
                ++ failed_task (codes "{}") (codes "Error") ∷ [])
          × ((u : ℕ) → memory.get u after_failure.keys (retry_count message) ≡ none))
handle_db_failure_lem_example =
    handle_db_failure_lem platform memory config alarm 2000 0 message (codes "{}") (codes "Error")
      empty_store refl

abbrev two_pages : Encounter
two_pages = encounter (true ∷ true ∷ true ∷ [])

found_in_post :
    (analysis_of platform memory config alarm post
      ≡ record { categories = codes "Мопеди" ∷ []; locations = codes "port" ∷ [] })
    × ((analyze_signal platform (codes "reaktivn port")).status ≡ active)
unfolding analyze_signal parse_message odesa_locs outside_locs kr_potvory search joined add_clause
    add_clauses Text-discrete ℕ_discrete
found_in_post = (refl, refl)

sent_out : IsSentOut platform memory config alarm two_pages post (codes "port" ∷ []) empty_store
unfolding validate_payload analyze_signal parse_message odesa_locs outside_locs kr_potvory search
    joined add_clause add_clauses Text-discrete ℕ_discrete is_suppressed resolve_trigger_words
    check_official_air_alarm record_clears audit_expired is_night cleared_by scoped_clear
    record_locations Key-discrete digits str
sent_out = (refl, λ h. absurd (ground arith), λ h. absurd (ground arith), refl, refl, refl)

two_recipients :
    recipients platform memory config alarm two_pages
      (categories_of platform memory config alarm post)
      (codes "port" ∷ [])
    ≡ 3 ∷ 7 ∷ []
unfolding analyze_signal parse_message odesa_locs outside_locs kr_potvory search joined add_clause
    add_clauses Text-discrete ℕ_discrete selected is_target overlap
two_recipients = refl

process_payload-recipients_example :
    process_payload platform memory config alarm two_pages empty_store ≡ (
      dispatched,
      all_enqueued platform memory config alarm two_pages
          (alert_of platform memory config alarm post
            (analysis_of platform memory config alarm post)
            (is_stale platform memory config alarm 2000 post))
          (recipients platform memory config alarm two_pages
            (categories_of platform memory config alarm post)
            (codes "port" ∷ []))
          (recorded platform memory config alarm two_pages post empty_store),
    )
process_payload-recipients_example =
    process_payload-recipients platform memory config alarm two_pages post (codes "port" ∷ [])
      empty_store sent_out (refl, (refl, (refl, tt)))
      ((omega arith, (omega arith, tt)), ((omega arith, tt), (tt, tt)))
      (rw two_recipients (omega arith))
