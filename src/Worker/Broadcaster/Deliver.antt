-- ===== src/Worker/Broadcaster/Deliver.antt =====
-- worker/broadcaster.py, `_deliver_one`: one delivery, from the stream entry to what is left in
-- Redis. A flag is false where an error of the dead-letter script is raised. Metrics and the
-- activity aggregate in PostgreSQL (`_record_delivered`) are left out.
pub mod Checked
pub mod Sent
use alert_bot_project.Common.{
  ℕ, ◌+◌, ◌/◌, pos, str, Text, codes, Bool, true, false, Option, none, some,
}
use alert_bot_project.Redis.{MessageId, word, Redis, Db, blocked, retry}
use alert_bot_project.Shared.Platform.{Platform, instant}
use alert_bot_project.Services.Privacy.{end_delivery}
use alert_bot_project.Worker.Contract.{DeliveryJob, parse_delivery_job}
use alert_bot_project.Worker.Broadcaster.{
  Reason, ownership_lost, stale_delivery, invalid_delivery_contract, previous_stage_failed,
  recipient_blocked, ack, set_stage, skip_stage, move_to_dlq, finish_failed_job,
}
use alert_bot_project.Worker.Broadcaster.Attempt.{
  Config, sent, retry_later, cancelled, blocked_bot, permanent, DeliveryOutcome, Post, Attempt,
}
use alert_bot_project.Worker.Broadcaster.Verdict.{
  dropped, skipped, prior_failed, postponed, unreachable, proceed, verdict, event_text,
}
use alert_bot_project.Worker.Broadcaster.Admit.{
  declined, admitted, admit, outcome_of, after_response,
}

module _ (R : Redis) where
  open R use {Keys, get, set, set_px, del, zadd}

  -- the pipeline after a send: the stage, the acknowledgement and the retry counter
  unfoldable pub settle_sent : ℕ → MessageId → DeliveryJob → Db R → Db R
  settle_sent now m j s =
      let marked : Db R = elim j.event_id [
        | none ↦ s
        | some e ↦ set_stage R now e (str (pos j.step)) (codes "sent") s
      ] in
      let acked = ack R m marked in record acked { keys = del (retry m) acked.keys }

  -- a cancelled outcome
  unfoldable pub settle_cancelled : ℕ → MessageId → DeliveryJob → Reason → Db R → Db R
  settle_cancelled now m j stale_delivery s = elim j.event_id [
    | none ↦ ack R m s
    | some e ↦ skip_stage R now m e j.step s
  ]
  settle_cancelled now m j _ s = ack R m s

  module _ (P : Platform) where
    -- the branches of `_deliver_one` on the outcome
    unfoldable pub settle :
        ℕ → MessageId → Text → DeliveryJob → DeliveryOutcome → Db R → Bool × Db R
    settle now m payload j o s =
        let fail = λ (permanently : Bool) (s' : Db R).
          finish_failed_job R P now m payload o.reason permanently s' in
        elim o.status [
          | cancelled ↦ (true, settle_cancelled now m j o.reason s)
          | sent ↦ (true, settle_sent now m j s)
          | retry_later ↦ elim o.reason [ ownership_lost ↦ (true, s) | _ ↦ fail false s ]
          | blocked_bot ↦ fail true (record s {
            keys = set (blocked (str j.chat_id)) (word (codes "re_onboarding_required")) s.keys;
          })
          | permanent ↦ fail true s
        ]

    -- the `finally` of `_deliver_one`; it runs after an error too
    unfoldable pub finally_end : ℕ → DeliveryJob → Bool × Db R → Bool × Db R
    finally_end now j (ok, s) = (ok, record s { keys = end_delivery R now (str j.chat_id) s.keys })

    -- the send and what follows it, with the request that was made
    unfoldable pub send_and_settle :
        Config → Attempt R → MessageId → Text → DeliveryJob → Db R → (Bool × Db R) × Option Post
    unfolding finally_end
    send_and_settle c a m payload j s =
        let (admission, s1) = admit R c a j s in
        elim admission [
          | declined o ↦ (settle a.finish m payload j o s1, none)
          | admitted text silent t ↦
              let s2 = after_response R a.finish a.response (a.sending s1) in
              (
                finally_end a.finish j (settle a.finish m payload j (outcome_of a.response) s2),
                some (record { chat_id = j.chat_id; text = text; silent = silent }),
              )
        ]

    unfoldable pub deliver_job :
        Config → Attempt R → MessageId → Text → DeliveryJob → Db R → (Bool × Db R) × Option Post
    deliver_job c a m payload j s = elim (verdict R c a j s.keys) [
      | dropped ↦ ((true, ack R m s), none)
      | skipped ↦ ((true, skip_stage R a.start m (event_text j) j.step s), none)
      | prior_failed ↦ (
        move_to_dlq R P a.start m payload previous_stage_failed
            (some (event_text j, str (pos j.step))) s,
        none,
      )
      | postponed ↦ (
        (true, ack R m (record s { delayed = zadd (a.start / 1000 + 10) payload s.delayed })),
        none,
      )
      | unreachable ↦ (finish_failed_job R P a.start m payload recipient_blocked true s, none)
      | proceed ↦ send_and_settle c a m payload j s
    ]

    -- _deliver_one: `payload` is the entry's, "" if it has none
    unfoldable pub deliver_one :
        Config → Attempt R → MessageId → Text → Db R → (Bool × Db R) × Option Post
    deliver_one c a m payload s = elim (parse_delivery_job P (instant a.start) payload) [
      | none ↦ (move_to_dlq R P a.start m (codes "") invalid_delivery_contract none s, none)
      | some j ↦ deliver_job c a m payload j s
    ]
