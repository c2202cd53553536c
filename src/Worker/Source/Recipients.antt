-- ===== src/Worker/Source/Recipients.antt =====
-- worker/main.py: who is alerted of a post that is sent out.
use alert_bot_project.Common.{
  ℕ, ◌<◌, ◌≡◌, ◌≢◌, ◌∙◌, refl, ap, pos, Text, Bool, true, false, not, ◌&&◌, ◌||◌, Option, none,
  some, List, [], ◌∷◌, map, length, All, if◌then◌else◌, if_false, arith,
}
use alert_bot_project.Redis.{Redis, Db, alerts_stream, retry_count}
use alert_bot_project.Shared.Platform.{Platform}
use alert_bot_project.Shared.TextProcessor.{
  Analysis, clear, negated, analyze_signal, parse_message, normalize,
}
use alert_bot_project.Services.Alarm.Poller.{Settings, check_official_air_alarm}
use alert_bot_project.Worker.Triggers.{resolve_trigger_words}
use alert_bot_project.Worker.FanOut.{UserSettings, is_target, selected, fan_out}
use alert_bot_project.Worker.FanOut.Pages.{IsOrdered}
use alert_bot_project.Worker.FanOut.Complete.{fan_out-selected}
use alert_bot_project.Worker.Broadcaster.Attempt.{Config, is_night}
use alert_bot_project.Worker.Broadcaster.Enqueue.{Alert, dispatch_alerts}
use alert_bot_project.Worker.Source.{
  AlertMessage, Encounter, Ending, dispatched, complete, out_of_pages, is_suppressed, fan_out_pages,
  settle_pages, recorded, send_out, route, process_valid, process_payload, alert_of, is_stale,
  validate_payload, default_categories, invalid, ack_source,
}

module _ (P : Platform) (R : Redis) (c : Config) (alarm : Settings) where
  open R use {xack, del}

  -- While the database answers, the loop is that of fan_out, with a page for each round.
  fan_out_pages-fan_out :
      (pages : List Bool) (now : ℕ) (a : Alert) (categories triggers : List Text)
      (users : List UserSettings) (after : Option ℕ) (s : Db R)
      → All (λ answers. answers ≡ true) pages
      → fan_out_pages P R c alarm pages now a categories triggers users after s ≡ (
        if (fan_out P R (length pages) now a categories triggers users after s).0
            then complete
            else out_of_pages,
        (fan_out P R (length pages) now a categories triggers users after s).1,
      )
  unfolding fan_out_pages fan_out
  fan_out_pages-fan_out [] now a categories triggers users after s h = refl
  fan_out_pages-fan_out (true ∷ pages) now a categories triggers users after s h = grind (
    arith,
    λ (later : Option ℕ) (s' : Db R).
        fan_out_pages-fan_out pages now a categories triggers users later s' h.1,
  )
  fan_out_pages-fan_out (false ∷ pages) now a categories triggers users after s h =
      absurd (ground (arith, h.0))

  -- The state after all of a list of users are enqueued and the entry is acknowledged.
  abbrev pub all_enqueued : Encounter → Alert → List ℕ → Db R → Db R
  all_enqueued e a ids s =
      let s' = dispatch_alerts P R e.now a (map pos ids) s in
      record s' {
        streams = xack alerts_stream e.message s'.streams;
        keys = del (retry_count e.message) s'.keys;
      }

  -- The users whose settings a post meets.
  abbrev pub recipients : Encounter → List Text → List Text → List ℕ
  recipients e categories words = selected (is_target e.now categories words) none e.users

  fan_out_recipients :
      (e : Encounter) (a : Alert) (found words : List Text) (s : Db R)
      → All (λ answers. answers ≡ true) e.pages
      → IsOrdered e.users
      → length (recipients e (default_categories found) words) < length e.pages
      → fan_out_pages P R c alarm e.pages e.now a (default_categories found) words e.users none s
        ≡ (
          complete,
          dispatch_alerts P R e.now a (map pos (recipients e (default_categories found) words)) s,
        )
  fan_out_recipients e a [] words s answers ordered enough =
      fan_out_pages-fan_out e.pages e.now a _ words e.users none s answers
      ∙ ap (λ r. (if r.0 then complete else out_of_pages, r.1))
          (fan_out-selected P R (length e.pages) e.now a _ _ words e.users none s ordered enough)
  fan_out_recipients e a (f ∷ found) words s answers ordered enough =
      fan_out_pages-fan_out e.pages e.now a _ words e.users none s answers
      ∙ ap (λ r. (if r.0 then complete else out_of_pages, r.1))
          (fan_out-selected P R (length e.pages) e.now a _ _ words e.users none s ordered enough)

  abbrev pub analysis_of : AlertMessage → Analysis
  analysis_of m = parse_message P (analyze_signal P m.raw_text).positive_text

  -- The words that a post is sent out for, in a state.
  abbrev pub words_for : Encounter → AlertMessage → Db R → Option (List Text)
  words_for e m s =
      resolve_trigger_words (analysis_of m).categories (analysis_of m).locations
        (e.matched_custom (normalize P (analyze_signal P m.raw_text).positive_text))
        (check_official_air_alarm P R alarm e.now e.alarm_answers s.keys)

  send_out-recipients :
      (e : Encounter) (m : AlertMessage) (a : Analysis) (stale : Bool) (words : List Text)
      (s : Db R)
      → (stale || is_night c e.local) ≡ true
      → All (λ answers. answers ≡ true) e.pages
      → IsOrdered e.users
      → length (recipients e (default_categories a.categories) words) < length e.pages
      → send_out P R c alarm e m a stale (some words) s ≡ (
        dispatched,
        all_enqueued e
            (alert_of P R c alarm m a stale)
            (recipients e (default_categories a.categories) words)
            s,
      )
  unfolding send_out
  send_out-recipients e m a stale words s night answers ordered enough =
      let loop =
        fan_out_recipients e (alert_of P R c alarm m a stale) a.categories words s answers ordered
          enough in
      let by_night : (not stale && not (is_night c e.local)) ≡ false = ground (arith, night) in
      if_false _ _ _ by_night ∙ ap (settle_pages P R c alarm e) loop

  -- What the handling knows of a valid post before it looks for users, in the state s' where the
  -- clears of the post are recorded: it is no all-clear and no denial, no newer clear suppresses
  -- it, it is sent out for some words, and it is stale or comes at night.
  abbrev pub IsSentOut : Encounter → AlertMessage → List Text → Db R → Type 0
  IsSentOut e m words s =
      (validate_payload e.now e.fields ≡ some m)
      × ((analyze_signal P m.raw_text).status ≢ clear)
      × ((analyze_signal P m.raw_text).status ≢ negated)
      × (is_suppressed P R c alarm e.now m (analysis_of m).locations
            (recorded P R c alarm e m s).keys
          ≡ false)
      × (words_for e m (recorded P R c alarm e m s) ≡ some words)
      × ((is_stale P R c alarm e.now m || is_night c e.local) ≡ true)

  -- The categories of a post, or those of a user by default where it names none.
  abbrev pub categories_of : AlertMessage → List Text
  categories_of m = default_categories (analysis_of m).categories

  routed : Encounter → AlertMessage → Db R → Ending × Db R
  routed e m s =
      route P R c alarm e m (analyze_signal P m.raw_text).positive_text
        (is_stale P R c alarm e.now m) s

  routed_lem :
      (e : Encounter) (m : AlertMessage) (s : Db R)
      → (analyze_signal P m.raw_text).status ≢ clear
      → (analyze_signal P m.raw_text).status ≢ negated
      → process_valid P R c alarm e m s ≡ routed e m (recorded P R c alarm e m s)
  unfolding process_valid routed
  routed_lem e m s h k = ground (arith, h, k)

  -- A valid post that is sent out: if the database answers and the table is ordered by its key, the
  -- loop over the pages ends, and the alert is enqueued for exactly the users whose settings it
  -- meets, each once, before the entry is acknowledged.
  pub process_payload-recipients :
      (e : Encounter) (m : AlertMessage) (words : List Text) (s : Db R)
      → IsSentOut e m words s
      → All (λ answers. answers ≡ true) e.pages
      → IsOrdered e.users
      → length (recipients e (categories_of m) words) < length e.pages
      → process_payload P R c alarm e s ≡ (
        dispatched,
        all_enqueued e
            (alert_of P R c alarm m (analysis_of m) (is_stale P R c alarm e.now m))
            (recipients e (categories_of m) words)
            (recorded P R c alarm e m s),
      )
  unfolding process_payload route routed
  process_payload-recipients e m words s (valid, active_1, active_2, shown, wanted, night) answers
        ordered enough =
      let s' = recorded P R c alarm e m s in
      let stale = is_stale P R c alarm e.now m in
      ap (by_message e s) valid
      ∙ routed_lem e m s active_1 active_2
      ∙ if_false _ _ _ shown
      ∙ ap (λ w. send_out P R c alarm e m (analysis_of m) stale w s') wanted
      ∙ send_out-recipients e m (analysis_of m) stale words s' night answers ordered enough
    where
      by_message : Encounter → Db R → Option AlertMessage → Ending × Db R
      by_message e s o = elim o [
        | none ↦ (invalid, ack_source P R c alarm e.message s)
        | some m ↦ process_valid P R c alarm e m s
      ]
