-- ===== src/Worker/Consume/Kept.antt =====
-- worker/main.py: what the handling of entries leaves of any entry of the source stream.
use alert_bot_project.Common.{
  ℕ, Text, ◌≡◌, refl, Bool, true, false, Option, none, some, ◌⊎◌, inl, inr, List, [], ◌∷◌,
  if◌then◌else◌, arith, is_empty, Bool-cases, Option-cases, All,
}
use alert_bot_project.Redis.{
  MessageId, Redis, Db, alerts_stream, expired_alerts_queue, dead_letter_queue, failed_task,
}
use alert_bot_project.Shared.Platform.{Platform}
use alert_bot_project.Shared.TextProcessor.{
  Analysis, SignalStatus, active, clear, negated, unknown, analyze_signal,
}
use alert_bot_project.Services.Alarm.Poller.{Settings}
use alert_bot_project.Worker.Broadcaster.Attempt.{Config}
use alert_bot_project.Worker.Source.{
  AlertMessage, Encounter, Ending, Paging, complete, failed, out_of_pages, ack_source,
  audit_expired, all_clear, denied, invalid, handle_db_failure, settle_pages, recorded, send_out,
  route, process_valid, process_payload, alert_of, is_stale, validate_payload,
}
use alert_bot_project.Worker.Source.Acknowledged.{pending_for, fan_out-pending}
use alert_bot_project.Worker.Consume.{Handling, is_broken, handle_entry, consume_batch}

module _ (P : Platform) (R : Redis) (c : Config) (alarm : Settings) (m : MessageId) where
  open R use {owner, xadd, owner-xadd, owner-xack}

  -- The entry `m` is as it was, or it is acknowledged.
  abbrev pub Kept : Db R → Db R → Type 0
  Kept s t = (pending_for P R t m ≡ pending_for P R s m) ⊎ (pending_for P R t m ≡ none)

  ack-Kept : (n : MessageId) (s : Db R) → Kept s (ack_source P R c alarm n s)
  ack-Kept n s = ground (arith, owner-xack s.streams alerts_stream alerts_stream n m)

  handle_db_failure-Kept :
      (now : ℕ) (n : MessageId) (raw_json error_name : Text) (s : Db R)
      → Kept s (handle_db_failure P R c alarm now n raw_json error_name s)
  unfolding handle_db_failure
  handle_db_failure-Kept now n raw_json error_name s = ground (
    arith,
    owner-xack (xadd dead_letter_queue (failed_task raw_json error_name) s.streams) alerts_stream
        alerts_stream n m,
    owner-xadd s.streams dead_letter_queue alerts_stream (failed_task raw_json error_name) m,
  )

  if-Kept :
      (s : Db R) (b : Bool) (x y : Ending × Db R)
      → Kept s x.1
      → Kept s y.1
      → Kept s (if b then x else y).1
  if-Kept s true x y hx hy = hx
  if-Kept s false x y hx hy = hy

  pub Kept-through : (s s' t : Db R) → Kept s s' → Kept s' t → Kept s t
  Kept-through s s' t h k = ground arith

  settle_pages-Kept :
      (e : Encounter) (s : Db R) (ended : Paging) (after : Db R)
      → pending_for P R after m ≡ pending_for P R s m
      → Kept s (settle_pages P R c alarm e (ended, after)).1
  settle_pages-Kept e s complete after same =
      Kept-through s after (settle_pages P R c alarm e (complete, after)).1 (inl same)
        (ack-Kept e.message after)
  settle_pages-Kept e s failed after same =
      Kept-through s after (settle_pages P R c alarm e (failed, after)).1 (inl same)
        (handle_db_failure-Kept e.now e.message e.raw_json e.error_name after)
  settle_pages-Kept e s out_of_pages after same = inl same

  send_out-Kept :
      (e : Encounter) (a : AlertMessage) (x : Analysis) (stale : Bool) (words : Option (List Text))
      (s : Db R)
      → Kept s (send_out P R c alarm e a x stale words s).1
  unfolding send_out
  send_out-Kept e a x stale none s = ack-Kept e.message s
  send_out-Kept e a x stale (some words) s = if-Kept s _ _ _ (ack-Kept e.message s) (
      settle_pages-Kept e s _ _ (
        fan_out-pending P R c alarm e.pages e.now (alert_of P R c alarm a x stale) _ words e.users
          none s m))

  route-Kept :
      (e : Encounter) (a : AlertMessage) (t : Text) (stale : Bool) (s : Db R)
      → Kept s (route P R c alarm e a t stale s).1
  unfolding route
  route-Kept e a t stale s = if-Kept s _ _ _ (ack-Kept e.message s) (send_out-Kept e a _ stale _ s)

  audit-Kept :
      (now : ℕ) (n : MessageId) (raw_json : Text) (s : Db R)
      → Kept s (audit_expired P R c alarm now n raw_json s)
  unfolding audit_expired
  audit-Kept now n raw_json s =
      grind (arith, owner-xadd s.streams expired_alerts_queue alerts_stream)

  recorded-Kept :
      (e : Encounter) (a : AlertMessage) (s : Db R) → Kept s (recorded P R c alarm e a s)
  recorded-Kept e a s = ground (arith, audit-Kept e.now e.message e.raw_json s)

  process_valid-Kept :
      (e : Encounter) (a : AlertMessage) (s : Db R) → Kept s (process_valid P R c alarm e a s).1
  unfolding process_valid
  process_valid-Kept e a s = by_status (analyze_signal P a.raw_text).status
    where
      s' : Db R
      s' = recorded P R c alarm e a s

      routed : Ending × Db R
      routed =
          route P R c alarm e a (analyze_signal P a.raw_text).positive_text
            (is_stale P R c alarm e.now a) s'

      by_status :
          (st : SignalStatus)
          → Kept s
              (elim st as (λ x. Ending × Db R) [
                | clear ↦ (all_clear, ack_source P R c alarm e.message s')
                | negated ↦ (denied, ack_source P R c alarm e.message s')
                | _ ↦ routed
              ]).1
      by_status clear =
          Kept-through s s' (ack_source P R c alarm e.message s') (recorded-Kept e a s)
            (ack-Kept e.message s')
      by_status negated =
          Kept-through s s' (ack_source P R c alarm e.message s') (recorded-Kept e a s)
            (ack-Kept e.message s')
      by_status active = Kept-through s s' routed.1 (recorded-Kept e a s) (route-Kept e a _ _ s')
      by_status unknown = Kept-through s s' routed.1 (recorded-Kept e a s) (route-Kept e a _ _ s')

  process_payload-Kept : (e : Encounter) (s : Db R) → Kept s (process_payload P R c alarm e s).1
  unfolding process_payload
  process_payload-Kept e s = by_message (validate_payload e.now e.fields)
    where
      by_message :
          (o : Option AlertMessage)
          → Kept s
              (elim o as (λ x. Ending × Db R) [
                | none ↦ (invalid, ack_source P R c alarm e.message s)
                | some a ↦ process_valid P R c alarm e a s
              ]).1
      by_message none = ack-Kept e.message s
      by_message (some a) = process_valid-Kept e a s

  -- An error leaves the entry `m` as it was, or acknowledged.
  abbrev pub IsPartial : Handling R → Type 0
  IsPartial h = (part : Db R → Db R) → h.raised ≡ some part → (s : Db R) → Kept s (part s)

  pub handle_entry-Kept :
      (h : Handling R) (s : Db R) → IsPartial h → Kept s (handle_entry P R c alarm h s).1
  unfolding handle_entry
  handle_entry-Kept h s partial = elim (Option-cases h.raised) [
    | inr (part, e) ↦ ground (arith, e, partial part e s)
    | inl e ↦ elim (Bool-cases (is_empty h.encounter.raw_json)) [
      | inl b ↦ ground (arith, e, ack-Kept h.encounter.message s)
      | inr b ↦ ground (arith, e, process_payload-Kept h.encounter s)
    ]
  ]

  pub consume_batch-Kept :
      (hs : List (Handling R)) (s : Db R)
      → All IsPartial hs
      → Kept s (consume_batch P R c alarm hs s).1
  unfolding consume_batch
  consume_batch-Kept [] s partial = inl refl
  consume_batch-Kept (h ∷ hs) s partial =
      let s' = (handle_entry P R c alarm h s).1 in
      let here = handle_entry-Kept h s partial.0 in
      let rest =
        Kept-through s s' (consume_batch P R c alarm hs s').1 here
          (consume_batch-Kept hs s' partial.1) in
      elim (Bool-cases (is_broken (handle_entry P R c alarm h s).0)) [
        | inl b ↦ rw b here
        | inr b ↦ rw b rest
      ]
