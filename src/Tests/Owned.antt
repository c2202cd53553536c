-- ===== src/Tests/Owned.antt =====
-- A witness for two entries of the delivery stream that carry the same stage of one event.
use alert_bot_project.Common.{◌≡◌, refl, codes, [], arith}
use alert_bot_project.Redis.{Db}
use alert_bot_project.Redis.Memory.{memory}
use alert_bot_project.Worker.Lease.{run}
use alert_bot_project.Worker.Broadcaster.Deliver.{deliver_one}
use alert_bot_project.Worker.Broadcaster.Owned.{OwnedEntry, parsed, lease_for, deliver_owned}
use alert_bot_project.Worker.Broadcaster.Owned.Stages.{IsStage, deliver_owned-undisturbed}
use alert_bot_project.Tests.{
  platform, message, config, attempt_at, first_payload, first_job, first_parses,
}
use alert_bot_project.Tests.Limits.{pending_store}

abbrev first : OwnedEntry memory
first = record {
  message_id = message;
  payload = first_payload;
  token = codes "a";
  now = 1000;
  beats = [];
  stop = 1500;
  attempt = attempt_at 1000;
}

abbrev copy : OwnedEntry memory
copy = record first {
  message_id = codes "2-0";
  token = codes "b";
  now = 2000;
  stop = 2500;
  attempt = attempt_at 2000;
}

first-IsStage : IsStage (parsed platform memory first) (codes "1:5:7") 1
first-IsStage = (first_job, first_parses.0, refl, refl)

copy-IsStage : IsStage (parsed platform memory copy) (codes "1:5:7") 1
copy-IsStage = (first_job, first_parses.1, refl, refl)

-- The other delivery starts when the first has the lease and has done nothing yet.
abbrev work : Db memory → Db memory
work u = (deliver_one memory platform config first.attempt first.message_id first.payload u).0.1

deliver_owned-undisturbed_example :
    run memory
      (lease_for platform memory (codes "worker") first)
      1000
      []
      (λ u. work (deliver_owned platform memory config (codes "other") copy u).1)
      1500
      pending_store
    ≡ deliver_owned platform memory config (codes "worker") first pending_store
deliver_owned-undisturbed_example =
    deliver_owned-undisturbed platform memory config (codes "worker") (codes "other") first copy
      (codes "1:5:7") 1 (λ u. u) work pending_store refl first-IsStage copy-IsStage
      (λ e. ground arith) (omega arith) (omega arith) (λ u. refl) (λ u. refl)
