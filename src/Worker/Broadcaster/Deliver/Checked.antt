-- ===== src/Worker/Broadcaster/Deliver/Checked.antt =====
-- worker/broadcaster.py, `_deliver_one`: what holds of every request that is made to Telegram.
use alert_bot_project.Common.{
  ℕ, ◌+◌, ◌*◌, ◌<◌, ◌≡◌, str, Text, codes, Bool, true, false, some, arith, ltb, Option-cases, inl,
  inr, refl, ◌⊎◌,
}
use alert_bot_project.Redis.{MessageId, Redis, Db, generation, deleted, blocked}
use alert_bot_project.Shared.Platform.{Platform, instant}
use alert_bot_project.Services.Privacy.{exists, generation_of, same_text, begin_delivery}
use alert_bot_project.Worker.RateLimit.{acquire}
use alert_bot_project.Worker.Contract.{DeliveryJob, parse_delivery_job, delivery_content}
use alert_bot_project.Worker.Broadcaster.Attempt.{
  Config, is_night, db_mute_active, Post, DeliveryOutcome, Attempt,
}
use alert_bot_project.Worker.Broadcaster.Verdict.{
  proceed, is_cleared, already_sent, reminder_verdict, verdict, prior,
}
use alert_bot_project.Worker.Broadcaster.Recipient.{IsFree}
use alert_bot_project.Worker.Broadcaster.Admit.{
  Admission, declined, admitted, admit, reserve, run_guard,
}
use alert_bot_project.Worker.Broadcaster.Deliver.{send_and_settle, deliver_job, deliver_one}

pub Admission-cases :
    (x : Admission)
    → ((o : DeliveryOutcome) × (x ≡ declined o))
      ⊎ ((text : Text) × (silent : Bool) × (t : ℕ) × (x ≡ admitted text silent t))
Admission-cases (declined o) = inl (o, refl)
Admission-cases (admitted text silent t) = inr (text, silent, t, refl)

module _ (R : Redis) where
  open R use {Keys, get}

  -- What a reminder needs besides: no clear of its source, the previous stage sent, night, and no
  -- mute.
  pub record IsDue (c : Config) (a : Attempt R) (j : DeliveryJob) (s : Keys) : Type 0 where
    pub not_cleared : is_cleared R a.start s j ≡ false
    pub prior_sent : prior R a.start s j (codes "sent") ≡ true
    pub at_night : is_night c a.local ≡ true
    pub not_muted : db_mute_active (instant a.start) a.muted_until ≡ false

  -- The checks of a job against the store.
  pub record IsClear (c : Config) (a : Attempt R) (j : DeliveryJob) (s : Keys) : Type 0 where
    pub same_generation :
        same_text j.recipient_generation
          (generation_of (get a.start s (generation (str j.chat_id))))
        ≡ true
    pub not_deleted : exists (get a.start s (deleted (str j.chat_id))) ≡ false
    pub not_blocked : exists (get a.start s (blocked (str j.chat_id))) ≡ false
    pub not_sent : already_sent R a.start s j ≡ false
    pub due : 1 < j.step → IsDue c a j s

  reminder_verdict-IsDue :
      (c : Config) (a : Attempt R) (j : DeliveryJob) (s : Keys)
      → reminder_verdict R c a j s ≡ proceed
      → IsDue c a j s
  unfolding reminder_verdict
  reminder_verdict-IsDue c a j s h = record {
    not_cleared = ground arith;
    prior_sent = ground arith;
    at_night = ground arith;
    not_muted = ground arith;
  }

  verdict-IsClear :
      (c : Config) (a : Attempt R) (j : DeliveryJob) (s : Keys)
      → verdict R c a j s ≡ proceed
      → IsClear c a j s
  unfolding verdict
  verdict-IsClear c a j s h = record {
    same_generation = ground arith;
    not_deleted = ground arith;
    not_blocked = ground arith;
    not_sent = ground arith;
    due = λ p. reminder_verdict-IsDue c a j s (ground arith);
  }

  -- The store after the wait for a rate slot, with what others did during it.
  abbrev pub waited_store : Config → Attempt R → DeliveryJob → Db R → Db R
  waited_store c a j s =
      let deadline = a.start + c.telegram_max_retry_seconds * 1000 in
      a.waiting (record s {
        keys = (acquire R a.lags a.start deadline (str j.chat_id) (ltb 1 j.step) s.keys).1;
      })

  -- A request of this delivery: it had a rate slot; the lease was still held at that time; the
  -- content is that of the job then; and in the store that the check of the lease left, the chat was
  -- not fenced and had the job's generation, and the reservation was granted.
  pub record IsReserved (c : Config) (a : Attempt R) (j : DeliveryJob) (s : Db R) (p : Post)
      : Type 0 where
    pub slot : ℕ
    pub slot_granted :
        (acquire R a.lags a.start
          (a.start + c.telegram_max_retry_seconds * 1000)
          (str j.chat_id)
          (ltb 1 j.step)
          s.keys).0
        ≡ some slot
    pub owned : (run_guard R a.guard slot (waited_store c a j s)).0 ≡ true
    pub content : delivery_content (instant slot) j j.text j.silent ≡ some (p.text, p.silent)
    pub free :
        IsFree R slot
          (str j.chat_id)
          j.recipient_generation
          (run_guard R a.guard slot (waited_store c a j s)).1.keys
    pub reserved :
        (begin_delivery R slot
          (str j.chat_id)
          j.recipient_generation
          (run_guard R a.guard slot (waited_store c a j s)).1.keys).0
        ≡ true

  begin_delivery-IsFree :
      (now : ℕ) (id g : Text) (k : Keys)
      → (begin_delivery R now id g k).0 ≡ true
      → IsFree R now id g k
  unfolding begin_delivery
  begin_delivery-IsFree now id g k h = elim (Option-cases (get now k (deleted id))) [
    | inl e ↦ (e, ground arith)
    | inr (v, e) ↦ absurd (ground arith)
  ]

  reserve_lem :
      (j : DeliveryJob) (s : Db R) (p : Post) (t u : ℕ)
      → (reserve R t j s).0 ≡ admitted p.text p.silent u
      → (delivery_content (instant t) j j.text j.silent ≡ some (p.text, p.silent))
        × ((begin_delivery R t (str j.chat_id) j.recipient_generation s.keys).0 ≡ true)
  unfolding reserve
  reserve_lem j s p t u h = (ground arith, ground arith)

  admit-IsReserved :
      (c : Config) (a : Attempt R) (j : DeliveryJob) (s : Db R) (p : Post) (u : ℕ)
      → (admit R c a j s).0 ≡ admitted p.text p.silent u
      → IsReserved c a j s p
  unfolding admit
  admit-IsReserved c a j s p u h =
      let deadline = a.start + c.telegram_max_retry_seconds * 1000 in
      let round = acquire R a.lags a.start deadline (str j.chat_id) (ltb 1 j.step) s.keys in
      elim (Option-cases round.0) [
        | inl e ↦ absurd (ground arith)
        | inr (t, e) ↦
            let checked = run_guard R a.guard t (waited_store c a j s) in
            let granted = reserve_lem j checked.1 p t u (ground arith) in
            record {
              slot = t;
              slot_granted = e;
              owned = ground arith;
              content = granted.0;
              free =
                  begin_delivery-IsFree t (str j.chat_id) j.recipient_generation checked.1.keys
                    granted.1;
              reserved = granted.1;
            }
      ]

  module _ (P : Platform) where
    send-IsReserved :
        (c : Config) (a : Attempt R) (m : MessageId) (payload : Text) (j : DeliveryJob) (s : Db R)
        (p : Post)
        → (send_and_settle R P c a m payload j s).1 ≡ some p
        → IsReserved c a j s p × (p.chat_id ≡ j.chat_id)
    unfolding send_and_settle
    send-IsReserved c a m payload j s p h = elim (Admission-cases (admit R c a j s).0) [
      | inl (o, e) ↦ absurd (ground arith)
      | inr (text, silent, t, e) ↦ (admit-IsReserved c a j s p t (ground arith), ground arith)
    ]

    pub deliver_job-proceed :
        (c : Config) (a : Attempt R) (m : MessageId) (payload : Text) (j : DeliveryJob) (s : Db R)
        (p : Post)
        → (deliver_job R P c a m payload j s).1 ≡ some p
        → (verdict R c a j s.keys ≡ proceed)
          × ((send_and_settle R P c a m payload j s).1 ≡ some p)
          × (deliver_job R P c a m payload j s ≡ send_and_settle R P c a m payload j s)
    unfolding deliver_job
    deliver_job-proceed c a m payload j s p h = (ground arith, ground arith, ground arith)

    -- A request that a delivery makes, whatever the entry's payload and the state of the store: the
    -- payload is a valid job, the request goes to its recipient, and the job passed every check in
    -- the state that the delivery read. The delivery got a rate slot, and held the lease then; in the
    -- store that this check left, no deletion had fenced the recipient, who had the job's generation,
    -- and the reservation was granted; and the text and the silence are what delivery_content gives
    -- for the job at the time of the slot.
    pub deliver_one-IsChecked :
        (c : Config) (a : Attempt R) (m : MessageId) (payload : Text) (s : Db R) (p : Post)
        → (deliver_one R P c a m payload s).1 ≡ some p
        → (j : DeliveryJob) × (parse_delivery_job P (instant a.start) payload ≡ some j)
          × (p.chat_id ≡ j.chat_id)
          × IsClear c a j s.keys
          × IsReserved c a j s p
    unfolding deliver_one
    deliver_one-IsChecked c a m payload s p h =
        elim (Option-cases (parse_delivery_job P (instant a.start) payload)) [
          | inl e ↦ absurd (ground arith)
          | inr (j, e) ↦
              let made = deliver_job-proceed c a m payload j s p (ground arith) in
              let sent' = send-IsReserved c a m payload j s p made.1 in
              (j, e, sent'.1, verdict-IsClear c a j s.keys made.0, sent'.0)
        ]
