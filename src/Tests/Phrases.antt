-- ===== src/Tests/Phrases.antt =====
-- A witness for a phrase of a user's own: the post "reaktivn port", and a user who asked for "por".
use alert_bot_project.Common.{
  ℕ, Text, codes, ◌≡◌, refl, inl, inr, true, false, none, List, [], ◌∷◌, arith, is_in,
  Text-discrete, ℕ_discrete, digits, str, get_or, set,
}
use alert_bot_project.Redis.{Key-discrete}
use alert_bot_project.Redis.Memory.{memory}
use alert_bot_project.Shared.Places.{kr_potvory}
use alert_bot_project.Shared.Places.Odesa.{odesa_locs}
use alert_bot_project.Shared.Places.Outside.{outside_locs}
use alert_bot_project.Shared.WordSearch.{search}
use alert_bot_project.Shared.TextProcessor.{
  analyze_signal, parse_message, joined, add_clause, add_clauses, normalize,
}
use alert_bot_project.Services.Alarm.Poller.{check_official_air_alarm}
use alert_bot_project.Worker.Triggers.{resolve_trigger_words}
use alert_bot_project.Worker.Clear.{record_clears, record_locations}
use alert_bot_project.Worker.Broadcaster.Attempt.{is_night}
use alert_bot_project.Worker.Broadcaster.Verdict.{cleared_by, scoped_clear}
use alert_bot_project.Worker.FanOut.{
  UserSettings, selected, is_target, overlap, contains, not_muted,
}
use alert_bot_project.Worker.Matcher.{CustomTriggerMatcher, blank, get_matches, edge_at, word_char}
use alert_bot_project.Worker.Matcher.Queue.{IsIn}
use alert_bot_project.Worker.Source.{
  validate_payload, is_suppressed, audit_expired, Encounter, dispatched, process_payload, recorded,
  alert_of, is_stale,
}
use alert_bot_project.Worker.Source.Recipients.{
  recipients, analysis_of, IsSentOut, categories_of, all_enqueued,
}
use alert_bot_project.Worker.Source.Phrases.{searched, answered, process_payload-phrase}
use alert_bot_project.Tests.{platform, empty_store, config}
use alert_bot_project.Tests.Alarm.{alarm}
use alert_bot_project.Tests.Source.{encounter, user, post}

abbrev phrases : List Text
phrases = codes "por" ∷ codes "zatoka" ∷ []

abbrev matcher : CustomTriggerMatcher
matcher = record { machine = blank; version = none; loaded = false }

abbrev asked : UserSettings
asked = user 9 (codes "por")

abbrev meeting : Encounter
meeting = record (encounter (true ∷ true ∷ true ∷ true ∷ [])) {
  matched_custom = λ t. answered (get_matches platform.is_alnum none phrases t matcher).0;
  users = user 3 (codes "port") ∷ user 4 (codes "reni") ∷ asked ∷ [];
}

abbrev words : List Text
words = codes "port" ∷ codes "por" ∷ []

sent_out : IsSentOut platform memory config alarm meeting post words empty_store
unfolding validate_payload analyze_signal parse_message odesa_locs outside_locs kr_potvory search
    joined add_clause add_clauses Text-discrete ℕ_discrete is_suppressed resolve_trigger_words
    check_official_air_alarm record_clears audit_expired is_night cleared_by scoped_clear
    record_locations Key-discrete digits str get_matches edge_at get_or set normalize
sent_out = (refl, λ h. absurd (ground arith), λ h. absurd (ground arith), refl, refl, refl)

two_recipients :
    recipients platform memory config alarm meeting
      (categories_of platform memory config alarm post)
      words
    ≡ 3 ∷ 9 ∷ []
unfolding analyze_signal parse_message odesa_locs outside_locs kr_potvory search joined add_clause
    add_clauses Text-discrete ℕ_discrete selected is_target overlap contains
two_recipients = refl

found :
    (is_in (codes "por") phrases ≡ true)
    × (search
          (word_char platform.is_alnum)
          false
          (codes "por" ∷ [])
          (searched platform memory config alarm post)
        ≡ true)
unfolding analyze_signal search joined Text-discrete ℕ_discrete normalize
found = (refl, refl)

no_empty : is_in [] phrases ≡ false
unfolding Text-discrete
no_empty = refl

wants :
    (is_in (codes "por") asked.trigger_words ≡ true)
    × (overlap asked.potvory (categories_of platform memory config alarm post) ≡ true)
    × (not_muted 2000 asked.muted_until ≡ true)
unfolding analyze_signal parse_message odesa_locs outside_locs kr_potvory search joined add_clause
    add_clauses Text-discrete ℕ_discrete overlap contains
wants = (refl, refl, refl)

process_payload-phrase_example :
    (ids : List ℕ) × (process_payload platform memory config alarm meeting empty_store ≡ (
      dispatched,
      all_enqueued platform memory config alarm meeting
          (alert_of platform memory config alarm post
            (analysis_of platform memory config alarm post)
            (is_stale platform memory config alarm 2000 post))
          ids
          (recorded platform memory config alarm meeting post empty_store),
    ))
    × IsIn 9 ids
process_payload-phrase_example =
    process_payload-phrase platform memory config alarm meeting post words empty_store none phrases
      matcher (codes "por") asked sent_out (refl, (refl, (refl, (refl, tt))))
      ((omega arith, (omega arith, tt)), ((omega arith, tt), (tt, tt)))
      (rw two_recipients (omega arith)) (inl refl) no_empty (omega arith) refl found
      (inr (inr (inl refl))) wants
