-- ===== src/Worker/Broadcaster/Enqueue/Once.antt =====
-- worker/broadcaster.py, `enqueue_alert`: what an accepted alert puts into Redis, and that a source
-- post is accepted once per recipient.
use alert_bot_project.Common.{
  codes, ℕ, sym, ◌+◌, ◌<◌, ◌≡◌, ◌≢◌, ◌/◌, ℤ, str, Text, true, false, none, some, [], ◌∷◌, ◌++◌,
  arith, ◌⊎◌, Bool-cases, inl, inr,
}
use alert_bot_project.Redis.{word, Redis, Db, delivery_stream, job, enqueued, generation}
use alert_bot_project.Shared.Constants.{alert_delay_1, alert_delay_2}
use alert_bot_project.Shared.Platform.{Platform}
use alert_bot_project.Services.Privacy.{generation_of}
use alert_bot_project.Worker.Broadcaster.{allowed}
use alert_bot_project.Worker.Broadcaster.Enqueue.{
  Alert, horizon_ms, event_of, payload_1, payload_2, payload_3, enqueue_script, enqueue_alert,
}

module _ (P : Platform) (R : Redis) where
  open R use {get, entries, score, set_px, xadd, zadd, get-set_px, entries-xadd, score-zadd}

  -- The effect of an accepted alert from the state `s`, with the generation `g`.
  pub record IsEnqueued (now : ℕ) (a : Alert) (chat : ℤ) (g : Text) (s s' : Db R) : Type 0 where
    pub was_allowed : allowed R now (str chat) g s.keys ≡ true
    pub was_new : get now s.keys (enqueued (event_of P a chat)) ≡ none
    pub first_stage :
        entries s'.streams delivery_stream
        ≡ entries s.streams delivery_stream ++ job (payload_1 P a chat g) ∷ []
    pub second_stage :
        a.stale ≡ false
        → payload_2 P a chat g ≢ payload_3 P a chat g
        → score s'.delayed (payload_2 P a chat g) ≡ some (now / 1000 + alert_delay_1)
    pub third_stage :
        a.stale ≡ false
        → score s'.delayed (payload_3 P a chat g)
          ≡ some (now / 1000 + alert_delay_1 + alert_delay_2)
    pub no_reminders : a.stale ≡ true → s'.delayed ≡ s.delayed
    pub marked :
        (u : ℕ) → u < now + horizon_ms → get u s'.keys (enqueued (event_of P a chat)) ≢ none

  enqueue_script-IsEnqueued :
      (now : ℕ) (a : Alert) (chat : ℤ) (g : Text) (s : Db R)
      → (enqueue_script P R now a chat g s).0 ≡ true
      → IsEnqueued now a chat g s (enqueue_script P R now a chat g s).1
  unfolding enqueue_script
  enqueue_script-IsEnqueued now a chat g s h =
      let e = enqueued (event_of P a chat) in
      let p2 = payload_2 P a chat g in
      let p3 = payload_3 P a chat g in
      let z = zadd (now / 1000 + alert_delay_1) p2 s.delayed in
      record {
        was_allowed = ground arith;
        was_new = ground arith;
        first_stage = ground (
          arith,
          entries-xadd s.streams delivery_stream delivery_stream (job (payload_1 P a chat g)),
        );
        second_stage = λ f d. ground (
          arith,
          score-zadd s.delayed (now / 1000 + alert_delay_1) p2 p2,
          score-zadd z (now / 1000 + alert_delay_1 + alert_delay_2) p3 p2,
        );
        third_stage =
            λ f. ground (arith, score-zadd z (now / 1000 + alert_delay_1 + alert_delay_2) p3 p3);
        no_reminders = λ f. ground arith;
        marked = λ u lt. ground (arith, get-set_px now u s.keys e e (word (codes "1")) horizon_ms);
      }

  enqueue_script-refused :
      (now : ℕ) (a : Alert) (chat : ℤ) (g : Text) (s : Db R)
      → (enqueue_script P R now a chat g s).0 ≡ false
      → enqueue_script P R now a chat g s ≡ (false, s)
  unfolding enqueue_script
  enqueue_script-refused now a chat g s h = ground arith

  enqueue_script-known :
      (now : ℕ) (a : Alert) (chat : ℤ) (g : Text) (s : Db R)
      → get now s.keys (enqueued (event_of P a chat)) ≢ none
      → enqueue_script P R now a chat g s ≡ (false, s)
  unfolding enqueue_script
  enqueue_script-known now a chat g s h = ground arith

  -- Whatever other processes do between the read of the generation and the script: an alert that is
  -- refused leaves the store as the script met it; an accepted one has its full effect, which is
  -- the first stage at the end of the stream, the reminders with their times unless the post is
  -- stale, and the mark of its identity, and the recipient's generation was then the one that was
  -- read.
  pub enqueue_alert-IsEnqueued :
      (now : ℕ) (meanwhile : Db R → Db R) (a : Alert) (chat : ℤ) (s : Db R)
      → enqueue_alert P R now meanwhile a chat s ≡ (false, meanwhile s)
        ⊎ ((enqueue_alert P R now meanwhile a chat s).0 ≡ true
            × IsEnqueued now a chat
                (generation_of (get now s.keys (generation (str chat))))
                (meanwhile s)
                (enqueue_alert P R now meanwhile a chat s).1)
  unfolding enqueue_alert
  enqueue_alert-IsEnqueued now meanwhile a chat s =
      let g = generation_of (get now s.keys (generation (str chat))) in
      elim (Bool-cases (enqueue_script P R now a chat g (meanwhile s)).0) [
        | inl e ↦ inr (e, enqueue_script-IsEnqueued now a chat g (meanwhile s) e)
        | inr e ↦ inl (enqueue_script-refused now a chat g (meanwhile s) e)
      ]

  -- After an alert was accepted for a recipient, an alert of the same source post for the same
  -- recipient is refused and changes nothing, within the replay horizon and in every state in which
  -- the key of the identity still exists if it did when the first call returned.
  pub enqueue_alert_once :
      (now u : ℕ) (meanwhile meanwhile' : Db R → Db R) (a b : Alert) (chat : ℤ) (s later : Db R)
      → (enqueue_alert P R now meanwhile a chat s).0 ≡ true
      → b.source_chat_id ≡ a.source_chat_id
      → b.source_message_id ≡ a.source_message_id
      → u < now + horizon_ms
      → (get u (enqueue_alert P R now meanwhile a chat s).1.keys (enqueued (event_of P a chat))
            ≢ none
          → get u (meanwhile' later).keys (enqueued (event_of P a chat)) ≢ none)
      → enqueue_alert P R u meanwhile' b chat later ≡ (false, meanwhile' later)
  unfolding enqueue_alert
  enqueue_alert_once now u meanwhile meanwhile' a b chat s later h ec em lt keep =
      let g = generation_of (get now s.keys (generation (str chat))) in
      let g' = generation_of (get u later.keys (generation (str chat))) in
      let first = enqueue_script-IsEnqueued now a chat g (meanwhile s) h in
      enqueue_script-known u b chat g' (meanwhile' later)
        (λ z. keep (first.marked u lt) (rw (sym ec, sym em) z))
