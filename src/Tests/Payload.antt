-- ===== src/Tests/Payload.antt =====
-- A witness for the payloads of deliveries: a platform that reads back what it writes.
use alert_bot_project.Common.{
  ℕ, sorted, ◌≤◌, pos, codes, ◌≡◌, refl, true, false, some, [], ◌∷◌, arith,
}
use alert_bot_project.Shared.Json.{Json}
use alert_bot_project.Shared.Platform.{Platform, instant}
use alert_bot_project.Worker.Contract.{parse_delivery_job}
use alert_bot_project.Worker.Broadcaster.Enqueue.{Alert, job_json}
use alert_bot_project.Worker.Broadcaster.Enqueue.Accepted.{described, parse_delivery_job-job_json}
use alert_bot_project.Tests.{platform, is_letter}

abbrev alert : Alert
alert = record {
  source_chat_id = pos 1;
  source_message_id = 5;
  source_timestamp = some (instant 900);
  categories = [];
  locations = codes "port" ∷ [];
  stale = false;
}

abbrev written : Json
written = job_json platform alert (pos 7) (codes "0") 2 (codes "go") false

abbrev echo : Platform
echo = record platform { dumps = λ v. codes "job"; loads = λ t. some written }

reads_back :
    echo.loads (echo.dumps written)
    ≡ some (job_json echo alert (pos 7) (codes "0") 2 (codes "go") false)
unfolding job_json
reads_back = refl

digit_is_word : (c : ℕ) → 48 ≤ c → c ≤ 57 → is_letter c ≡ true
digit_is_word c low high = ground (arith, low, high)

parse_delivery_job-job_json_example :
    parse_delivery_job echo
      (instant 1000)
      (echo.dumps (job_json echo alert (pos 7) (codes "0") 2 (codes "go") false))
    ≡ some
        (described echo digit_is_word (instant 1000) alert (pos 7) (codes "0") 2 (codes "go") false)
unfolding sorted
parse_delivery_job-job_json_example =
    parse_delivery_job-job_json echo digit_is_word (instant 1000) alert (pos 7) (codes "0") 2
      (codes "go") false reads_back (omega arith) refl (λ e. ground arith) refl (omega arith)
      (omega arith) (omega arith) (omega arith) (omega arith) (omega arith) (omega arith)
      (omega arith) (refl, omega arith) (omega arith) refl
