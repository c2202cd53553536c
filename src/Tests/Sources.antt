-- ===== src/Tests/Sources.antt =====
-- Witnesses for the source posts, the all-clears and the fan-out.
use alert_bot_project.Common.{
  ℕ, ◌≤◌, arith, pos, map, Text, codes, ◌≡◌, refl, ℤ, true, false, none, some, List, [], ◌∷◌, All,
  ℕ_discrete, ℤ-discrete, Text-discrete,
}
use alert_bot_project.Redis.{Db}
use alert_bot_project.Redis.Memory.{memory}
use alert_bot_project.Worker.Contract.{DeliveryJob}
use alert_bot_project.Worker.Clear.{record_clears}
use alert_bot_project.Worker.Clear.Cancels.{all_clear_cancels}
use alert_bot_project.Worker.Broadcaster.Enqueue.{Alert, dispatch_alerts}
use alert_bot_project.Worker.Broadcaster.Deliver.{deliver_job}
use alert_bot_project.Worker.FanOut.{UserSettings, is_target, selected, fan_out, overlap}
use alert_bot_project.Worker.FanOut.Complete.{fan_out-selected}
use alert_bot_project.Scraper.Outbox.{ScraperOutbox, checkpoint, find_checkpoint}
use alert_bot_project.Scraper.Catchup.{
  HistoryMessage, catch_up_channel, scan, payload_of, raw_text, is_alert_message,
}
use alert_bot_project.Scraper.Catchup.Recovered.{
  Keeps, HasRow, catch_up_channel-HasRow, catch_up_channel-Keeps,
}
use alert_bot_project.Tests.{
  platform, empty_store, message, config, attempt_at, first_job, second_payload,
}

abbrev dump : ℕ → ℤ → Text → ℕ → Text
dump n chat text at = text

abbrev history : List HistoryMessage
history =
    record { id = 9; date = some 9; text = some (codes "nine"); caption = none }
    ∷ record { id = 8; date = some 8; text = none; caption = none }
    ∷ record { id = 5; date = some 5; text = some (codes "five"); caption = none }
    ∷ []

abbrev outbox : ScraperOutbox
outbox = record {
  pending_posts = [];
  source_checkpoints = record { chat_id = pos 1; last_reconciled_id = 5 } ∷ [];
}

checkpoint_five : checkpoint (pos 1) outbox ≡ some 5
unfolding checkpoint find_checkpoint ℤ-discrete ℕ_discrete
checkpoint_five = refl

one_recovered : (catch_up_channel dump 10 (pos 1) history outbox).0 ≡ some 1
unfolding catch_up_channel scan payload_of raw_text is_alert_message checkpoint find_checkpoint
    ℤ-discrete ℕ_discrete
one_recovered = refl

catch_up_channel-HasRow_example :
    All (HasRow dump 10 (pos 1) 5 (catch_up_channel dump 10 (pos 1) history outbox).1) history
catch_up_channel-HasRow_example =
    catch_up_channel-HasRow dump 10 (pos 1) history outbox 1 5 one_recovered checkpoint_five
      ((omega arith, (omega arith, tt)), ((omega arith, tt), (tt, tt)))

catch_up_channel-Keeps_example :
    Keeps outbox (catch_up_channel dump 10 (pos 1) history outbox).1
    × ((d : ℕ) × (checkpoint (pos 1) (catch_up_channel dump 10 (pos 1) history outbox).1 ≡ some d)
        × (5 ≤ d))
    × ((catch_up_channel dump 10 (pos 1) history outbox).0 ≡ none
        → (catch_up_channel dump 10 (pos 1) history outbox).1.source_checkpoints
          ≡ outbox.source_checkpoints)
catch_up_channel-Keeps_example =
    catch_up_channel-Keeps dump 10 (pos 1) history outbox 5 checkpoint_five

abbrev reminder : DeliveryJob
reminder = record first_job { step = 2 }

abbrev cleared_store : Db memory
cleared_store = record empty_store {
  keys = record_clears memory 1000 (pos 1) 6 true (codes "bucha" ∷ []) empty_store.keys;
}

all_clear_cancels_example :
    (deliver_job memory platform config
      (attempt_at 2000)
      message
      second_payload
      reminder
      cleared_store).1
    ≡ none
all_clear_cancels_example =
    all_clear_cancels memory platform 1000 (pos 1) 6 5 (codes "bucha" ∷ []) empty_store.keys config
      (attempt_at 2000) message second_payload reminder cleared_store refl refl (omega arith)
      (omega arith) (omega arith) refl refl

abbrev user : ℕ → Text → UserSettings
user n category = record {
  user_id = n;
  potvory = category ∷ [];
  muted_until = none;
  trigger_words = codes "port" ∷ [];
}

abbrev users : List UserSettings
users = user 3 (codes "a") ∷ user 4 (codes "b") ∷ user 7 (codes "a") ∷ []

abbrev post : Alert
post = record {
  source_chat_id = pos 1;
  source_message_id = 5;
  source_timestamp = none;
  categories = codes "a" ∷ [];
  locations = codes "port" ∷ [];
  stale = false;
}

two_selected :
    selected (is_target 1000 (codes "a" ∷ []) (codes "port" ∷ [])) none users ≡ 3 ∷ 7 ∷ []
unfolding selected is_target overlap Text-discrete ℕ_discrete
two_selected = refl

fan_out-selected_example :
    fan_out platform memory 4 1000 post (codes "a" ∷ []) (codes "port" ∷ []) users none empty_store
    ≡ (
      true,
      dispatch_alerts platform memory 1000 post
          (map pos (selected (is_target 1000 (codes "a" ∷ []) (codes "port" ∷ [])) none users))
          empty_store,
    )
fan_out-selected_example =
    fan_out-selected platform memory 4 1000 post (codes "a") [] (codes "port" ∷ []) users none
      empty_store ((omega arith, (omega arith, tt)), ((omega arith, tt), (tt, tt)))
      (rw two_selected (omega arith))

abbrev no_words : List Text
no_words = []
