-- ===== src/Worker/Broadcaster/Deliver/Sent.antt =====
-- worker/broadcaster.py, `_deliver_one`: a stage that was sent is not sent again.
use mathlib.Core.Logic.{if_pos}
use alert_bot_project.Common.{
  ℕ, ◌+◌, ◌<◌, ◌≡◌, pos, str, Text, codes, Bool, true, none, some, arith, inl, inr, refl,
}
use alert_bot_project.Redis.{MessageId, word, Redis, Db, Value-discrete, retry, stage}
use alert_bot_project.Shared.Platform.{Platform, instant}
use alert_bot_project.Services.Privacy.{is_token}
use alert_bot_project.Services.Privacy.Frame.{get-end_delivery}
use alert_bot_project.Worker.Contract.{DeliveryJob, parse_delivery_job}
use alert_bot_project.Worker.Broadcaster.{week_ms}
use alert_bot_project.Worker.Broadcaster.Attempt.{Config, delivered, Post, Attempt}
use alert_bot_project.Worker.Broadcaster.Verdict.{already_sent, verdict}
use alert_bot_project.Worker.Broadcaster.Admit.{admit, outcome_of, after_response}
use alert_bot_project.Worker.Broadcaster.Deliver.{
  finally_end, settle_sent, settle, send_and_settle, deliver_job, deliver_one,
}
use alert_bot_project.Worker.Broadcaster.Deliver.Checked.{Admission-cases, deliver_job-proceed}

module _ (R : Redis) where
  open R use {Keys, get, set_px, del, get-set_px, get-del}

  settle_sent-stage :
      (now u : ℕ) (m : MessageId) (j : DeliveryJob) (s : Db R) (e : Text)
      → j.event_id ≡ some e
      → u < now + week_ms
      → get u (settle_sent R now m j s).keys (stage e (str (pos j.step)))
        ≡ some (word (codes "sent"))
  unfolding settle_sent
  settle_sent-stage now u m j s e h lt =
      let k = stage e (str (pos j.step)) in
      let marked = set_px now k (word (codes "sent")) week_ms s.keys in
      ground (
        arith,
        get-del u marked (retry m) k,
        get-set_px now u s.keys k k (word (codes "sent")) week_ms,
      )

  module _ (P : Platform) where
    send-stage :
        (c : Config) (a : Attempt R) (m : MessageId) (payload : Text) (j : DeliveryJob) (s : Db R)
        (p : Post) (e : Text) (u : ℕ)
        → (send_and_settle R P c a m payload j s).1 ≡ some p
        → a.response ≡ delivered
        → j.event_id ≡ some e
        → u < a.finish + week_ms
        → get u (send_and_settle R P c a m payload j s).0.1.keys (stage e (str (pos j.step)))
          ≡ some (word (codes "sent"))
    unfolding send_and_settle settle outcome_of after_response finally_end
    send-stage c a m payload j s p e u made ok h lt = elim (Admission-cases (admit R c a j s).0) [
      | inl (o, d) ↦ absurd (ground arith)
      | inr (text, silent, t, d) ↦
          let s2 = a.sending (admit R c a j s).1 in
          let s3 = settle_sent R a.finish m j s2 in
          let k = stage e (str (pos j.step)) in
          ground (
            arith,
            settle_sent-stage a.finish u m j s2 e h lt,
            get-end_delivery R a.finish u (str j.chat_id) s3.keys k,
          )
    ]

    already_sent-none :
        (c : Config) (a : Attempt R) (m : MessageId) (payload : Text) (j : DeliveryJob) (s : Db R)
        → already_sent R a.start s.keys j ≡ true
        → (deliver_job R P c a m payload j s).1 ≡ none
    unfolding deliver_job verdict
    already_sent-none c a m payload j s h = ground arith

    sent-already_sent :
        (now : ℕ) (i : DeliveryJob) (s : Keys) (e : Text)
        → i.event_id ≡ some e
        → get now s (stage e (str (pos i.step))) ≡ some (word (codes "sent"))
        → already_sent R now s i ≡ true
    unfolding already_sent is_token
    sent-already_sent now i s e h at =
        ground (
          arith,
          if_pos {C = Bool} (Value-discrete (word (codes "sent")) (word (codes "sent"))) refl,
        )

    -- A delivery whose request was answered, of a job with an event: from the answer on, for a week,
    -- a delivery of any payload that parses to a job of the same event and step makes no request,
    -- in every state of the store in which the key of that stage reads as the first delivery left
    -- it.
    pub deliver_one_once :
        (c : Config) (a b : Attempt R) (m n : MessageId) (payload again : Text) (s later : Db R)
        (p : Post) (j i : DeliveryJob) (e : Text)
        → (deliver_one R P c a m payload s).1 ≡ some p
        → a.response ≡ delivered
        → parse_delivery_job P (instant a.start) payload ≡ some j
        → parse_delivery_job P (instant b.start) again ≡ some i
        → j.event_id ≡ some e
        → i.event_id ≡ some e
        → i.step ≡ j.step
        → b.start < a.finish + week_ms
        → get b.start later.keys (stage e (str (pos j.step)))
          ≡ get b.start (deliver_one R P c a m payload s).0.1.keys (stage e (str (pos j.step)))
        → (deliver_one R P c b n again later).1 ≡ none
    unfolding deliver_one
    deliver_one_once c a b m n payload again s later p j i e made ok hj hi ej ei st lt same =
        let first = deliver_job-proceed R P c a m payload j s p (ground arith) in
        let left = send-stage c a m payload j s p e b.start first.1 ok ej lt in
        let kept = sent-already_sent b.start i later.keys e ei (ground arith) in
        ground (arith, already_sent-none c b n again i later kept)
