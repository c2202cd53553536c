-- ===== src/Worker/Broadcaster/Owned.antt =====
-- worker/broadcaster.py: the loops over the delivery stream and over the delayed set, and one entry
-- of the stream under its lease. The renewals within a delivery are its `beats`.
pub mod Stages
use alert_bot_project.Common.{
  ℕ, ◌/◌, pos, str, Text, codes, Bool, true, false, Option, none, some, List, [], ◌∷◌, ◌++◌,
  is_empty, if◌then◌else◌,
}
use alert_bot_project.Redis.{MessageId, Redis, Db, delivery_stream}
use alert_bot_project.Shared.Platform.{Platform, instant}
use alert_bot_project.Database.{Tables, record_activity}
use alert_bot_project.Worker.Contract.{DeliveryJob, parse_delivery_job}
use alert_bot_project.Worker.Lease.{DeliveryLease, Outcome, refused, run}
use alert_bot_project.Worker.Broadcaster.Attempt.{Config, Attempt}
use alert_bot_project.Worker.Broadcaster.Deliver.{deliver_one}
use alert_bot_project.Worker.Broadcaster.Mature.{pop_mature_tasks}

-- An entry that a consumer has, and what it meets: the token of its lease, the clock at the start,
-- the heartbeats of the lease with what happens between them, and the time of the release.
pub record OwnedEntry (R : Redis) : Type 0 where
  pub message_id : MessageId
  -- "" if the entry has none
  pub payload : Text
  pub token : Text
  pub now : ℕ
  pub beats : List (ℕ × (Db R → Db R))
  pub stop : ℕ
  pub attempt : Attempt R

abbrev named : MessageId → ℕ → Option Text → Text
named m step none = codes "legacy:" ++ m
named m step (some e) =
    if is_empty e then codes "legacy:" ++ m else e ++ (codes ":" ++ str (pos step))

-- `stage` of _deliver_owned, for the parsed payload
unfoldable pub stage_name : MessageId → Option DeliveryJob → Text
stage_name m none = codes "invalid:" ++ m
stage_name m (some j) = named m j.step j.event_id

-- What a round of process_delivery_stream meets: the cursor and the entries that XAUTOCLAIM gives,
-- and then the new entries of XREADGROUP, each with what the command does to the store; or an error.
pub data DeliveryRound (R : Redis) : Type 0 where
  served :
      (Db R → Db R)
      → Text
      → List (OwnedEntry R)
      → (Db R → Db R)
      → List (OwnedEntry R)
      → DeliveryRound R
  no_group failed : DeliveryRound R

-- _record_delivered: a failure of the database is logged
unfoldable pub record_delivered : Bool → ℕ → ℕ → Tables → Tables
record_delivered answers day chat_id db =
    if answers then record_activity day chat_id true db else db

module _ (P : Platform) (R : Redis) where
  abbrev pub parsed : OwnedEntry R → Option DeliveryJob
  parsed e = parse_delivery_job P (instant e.now) e.payload

  unfoldable pub lease_for : Text → OwnedEntry R → DeliveryLease
  unfolding stage_name
  lease_for consumer e = record {
    stream = delivery_stream;
    consumer = consumer;
    message_id = e.message_id;
    stage = stage_name e.message_id (parsed e);
    token = e.token;
  }

  module _ (c : Config) where
    -- _deliver_owned
    unfoldable pub deliver_owned : Text → OwnedEntry R → Db R → Outcome × Db R
    unfolding lease_for
    deliver_owned consumer e s =
        run R (lease_for consumer e) e.now e.beats
          (λ t. (deliver_one R P c e.attempt e.message_id e.payload t).0.1) e.stop s

    unfoldable pub deliver_each : Text → List (OwnedEntry R) → Db R → Db R
    unfolding deliver_owned
    deliver_each consumer [] s = s
    deliver_each consumer (e ∷ es) s = deliver_each consumer es (deliver_owned consumer e s).1

    -- A worker of the stream: its cursor, whether the group is there, and the store.
    pub record DeliveryWorker : Type 0 where
      pub next_start_id : Text
      pub group : Bool
      pub db : Db R

    -- process_delivery_stream, for the rounds until it is cancelled
    unfoldable pub process_delivery_stream :
        Text → List (DeliveryRound R) → DeliveryWorker → DeliveryWorker
    unfolding deliver_each
    process_delivery_stream consumer [] w = w
    process_delivery_stream consumer (served claim next claimed read incoming ∷ rs) w =
        process_delivery_stream consumer rs (record w {
          next_start_id = next;
          db = deliver_each consumer incoming (read (deliver_each consumer claimed (claim w.db)));
        })
    process_delivery_stream consumer (no_group ∷ rs) w =
        process_delivery_stream consumer rs (record w { group = true })
    process_delivery_stream consumer (failed ∷ rs) w = process_delivery_stream consumer rs w

  -- process_delayed_alerts, for the times of its rounds in milliseconds
  unfoldable pub process_delayed_alerts : List ℕ → Db R → Db R
  unfolding pop_mature_tasks
  process_delayed_alerts [] s = s
  process_delayed_alerts (now ∷ later) s =
      process_delayed_alerts later (pop_mature_tasks P R now (now / 1000) s).1
