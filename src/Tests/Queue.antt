-- ===== src/Tests/Queue.antt =====
-- Witnesses for the producers, the transfer of delayed payloads and the dead letters.
use alert_bot_project.Common.{
  ℕ, arith, pos, Text-discrete, codes, ◌≡◌, refl, true, false, none, some, ◌⊎◌, List, [], ◌∷◌,
  ℕ_discrete, str, Option,
}
use alert_bot_project.Redis.{Db, generation}
use alert_bot_project.Redis.Memory.{memory}
use alert_bot_project.Shared.Json.{Json, obj, find_last}
use alert_bot_project.Services.Privacy.{generation_of}
use alert_bot_project.Worker.Broadcaster.{telegram_5xx, allowed, move_to_dlq}
use alert_bot_project.Worker.Broadcaster.Recipient.{IsNoId, IsUnreadable}
use alert_bot_project.Worker.Broadcaster.Enqueue.{Alert, enqueue_alert, enqueue_script}
use alert_bot_project.Worker.Broadcaster.Enqueue.Once.{
  IsEnqueued, enqueue_alert-IsEnqueued, enqueue_alert_once,
}
use alert_bot_project.Worker.Broadcaster.DeadLetter.{IsDeadLettered, move_to_dlq-IsDeadLettered}
use alert_bot_project.Worker.Broadcaster.DeadLetter.Attempts.{after_failures}
use alert_bot_project.Tests.{platform, empty_store, message, first_payload, second_payload}

abbrev alert : Alert
alert = record {
  source_chat_id = pos 1;
  source_message_id = 5;
  source_timestamp = some 0;
  categories = [];
  locations = codes "bucha" ∷ [];
  stale = false;
}

abbrev enqueued_store : Db memory
enqueued_store = (enqueue_alert platform memory 1000 (λ s. s) alert (pos 7) empty_store).1

enqueue_alert-IsEnqueued_example :
    (enqueue_alert platform memory 1000 (λ s. s) alert (pos 7) empty_store ≡ (false, empty_store))
    ⊎ (((enqueue_alert platform memory 1000 (λ s. s) alert (pos 7) empty_store).0 ≡ true)
        × IsEnqueued platform memory 1000 alert
            (pos 7)
            (generation_of (memory.get 1000 empty_store.keys (generation (str (pos 7)))))
            empty_store
            enqueued_store)
enqueue_alert-IsEnqueued_example =
    enqueue_alert-IsEnqueued platform memory 1000 (λ s. s) alert (pos 7) empty_store

alert_accepted : (enqueue_alert platform memory 1000 (λ s. s) alert (pos 7) empty_store).0 ≡ true
unfolding enqueue_alert enqueue_script allowed generation_of Text-discrete ℕ_discrete
alert_accepted = refl

enqueue_alert_once_example :
    enqueue_alert platform memory 2000 (λ s. s) alert (pos 7) enqueued_store
    ≡ (false, enqueued_store)
enqueue_alert_once_example =
    enqueue_alert_once platform memory 1000 2000 (λ s. s) (λ s. s) alert alert (pos 7) empty_store
      enqueued_store alert_accepted refl refl (omega arith) (λ h. h)

abbrev delayed_store : Db memory
delayed_store = record empty_store { delayed = (second_payload, 10) ∷ (codes "later", 99) ∷ [] }

move_to_dlq-IsDeadLettered_example :
    (IsUnreadable platform first_payload
      × (move_to_dlq memory platform 1000 message first_payload telegram_5xx none empty_store
          ≡ (false, empty_store)))
    ⊎ (((move_to_dlq memory platform 1000 message first_payload telegram_5xx none empty_store).0
          ≡ true)
        × IsDeadLettered platform memory 1000 message first_payload telegram_5xx empty_store
            (move_to_dlq memory platform 1000 message first_payload telegram_5xx none
              empty_store).1)
move_to_dlq-IsDeadLettered_example =
    move_to_dlq-IsDeadLettered platform memory 1000 message first_payload telegram_5xx none
      empty_store

abbrev failure_times : List ℕ
failure_times = 1000 ∷ 2000 ∷ 3000 ∷ 4000 ∷ []

abbrev four_failures : Db memory
four_failures =
    after_failures platform memory first_payload message telegram_5xx failure_times empty_store

-- What an object would have to be for the scripts to refuse it.
abbrev UnreadableValue : Option Json → Type 0
UnreadableValue (some (obj ms)) = IsNoId platform (find_last (codes "chat_id") ms)
UnreadableValue _ = ⊥
