-- ===== src/Tests/Deliver.antt =====
-- Witnesses for the deliveries.
use alert_bot_project.Common.{
  arith, pos, Text-discrete, codes, ◌≡◌, refl, none, some, false, ℕ_discrete, digits, str,
}
use alert_bot_project.Redis.{Key-discrete}
use alert_bot_project.Redis.Memory.{memory}
use alert_bot_project.Shared.Platform.{instant}
use alert_bot_project.Services.Privacy.{generation_of, is_token, begin_delivery}
use alert_bot_project.Worker.RateLimit.{acquire, acquire_slot}
use alert_bot_project.Worker.Contract.{DeliveryJob, parse_delivery_job, delivery_content}
use alert_bot_project.Worker.Broadcaster.Attempt.{Post}
use alert_bot_project.Worker.Broadcaster.Verdict.{verdict, already_sent}
use alert_bot_project.Worker.Broadcaster.Admit.{admit, reserve, run_guard}
use alert_bot_project.Worker.Broadcaster.Deliver.{deliver_one, deliver_job, send_and_settle}
use alert_bot_project.Worker.Broadcaster.Deliver.Checked.{
  IsClear, IsReserved, deliver_one-IsChecked,
}
use alert_bot_project.Worker.Broadcaster.Deliver.Sent.{deliver_one_once}
use alert_bot_project.Tests.{
  platform, empty_store, message, config, attempt_at, first_payload, first_job, first_parses,
}

abbrev request : Post
request = record { chat_id = pos 7; text = codes "go"; silent = false }

first_request :
    (deliver_job memory platform config
      (attempt_at 1000)
      message
      first_payload
      first_job
      empty_store).1
    ≡ some request
unfolding deliver_job send_and_settle verdict already_sent is_token generation_of admit reserve
    run_guard begin_delivery acquire acquire_slot delivery_content Text-discrete ℕ_discrete digits
    str Key-discrete
first_request = refl

first_delivery :
    (deliver_one memory platform config (attempt_at 1000) message first_payload empty_store).1
    ≡ some request
unfolding deliver_one
first_delivery = rw (deliver_one, first_parses.0) first_request

deliver_one-IsChecked_example :
    (j : DeliveryJob) × (parse_delivery_job platform (instant 1000) first_payload ≡ some j)
    × (request.chat_id ≡ j.chat_id)
    × IsClear memory config (attempt_at 1000) j empty_store.keys
    × IsReserved memory config (attempt_at 1000) j empty_store request
deliver_one-IsChecked_example =
    deliver_one-IsChecked memory platform config (attempt_at 1000) message first_payload empty_store
      request first_delivery

deliver_one_once_example :
    (deliver_one memory platform config
      (attempt_at 2000)
      (codes "2-0")
      first_payload
      (deliver_one memory platform config
        (attempt_at 1000)
        message
        first_payload
        empty_store).0.1).1
    ≡ none
deliver_one_once_example =
    deliver_one_once memory platform config (attempt_at 1000) (attempt_at 2000) message
      (codes "2-0") first_payload first_payload empty_store
      (deliver_one memory platform config (attempt_at 1000) message first_payload empty_store).0.1
      request first_job first_job (codes "1:5:7") first_delivery refl first_parses.0 first_parses.1
      refl refl refl (omega arith) refl
