-- ===== src/Worker/Source/Settled.antt =====
-- worker/main.py: how the handling of an entry of the source stream ends.
use alert_bot_project.Common.{
  ◌≡◌, ◌∙◌, refl, Text, Bool, true, false, Option, none, some, ◌⊎◌, inl, inr, List, if◌then◌else◌,
  arith,
}
use alert_bot_project.Redis.{Redis, Db}
use alert_bot_project.Shared.Platform.{Platform}
use alert_bot_project.Shared.TextProcessor.{
  Analysis, SignalStatus, active, clear, negated, unknown, analyze_signal,
}
use alert_bot_project.Services.Alarm.Poller.{Settings}
use alert_bot_project.Worker.Broadcaster.Attempt.{Config}
use alert_bot_project.Worker.Source.{
  AlertMessage, Encounter, Ending, invalid, all_clear, denied, database_failed, out_of_rounds,
  Paging, complete, failed, out_of_pages, ack_source, handle_db_failure, settle_pages, recorded,
  send_out, route, process_valid, process_payload, alert_of, is_stale, validate_payload,
}
use alert_bot_project.Worker.Source.Acknowledged.{
  pending_for, ack-pending, fan_out-pending, audit-pending,
}

module _ (P : Platform) (R : Redis) (c : Config) (alarm : Settings) where
  -- An entry after its handling: acknowledged; or left as it was when the database failed, up to
  -- the count of the failures; or the rounds of the model ran out.
  abbrev pub IsSettled : Encounter → Db R → Ending × Db R → Type 0
  IsSettled e s result =
      (pending_for P R result.1 e.message ≡ none)
      ⊎ ((result.0 ≡ out_of_rounds)
          ⊎ ((result.0 ≡ database_failed)
              × ((before : Db R) × (pending_for P R before e.message ≡ pending_for P R s e.message)
                  × (result.1
                      ≡ handle_db_failure P R c alarm e.now e.message e.raw_json e.error_name
                          before))))

  settle_pages-IsSettled :
      (e : Encounter) (s : Db R) (ended : Paging) (after : Db R)
      → pending_for P R after e.message ≡ pending_for P R s e.message
      → IsSettled e s (settle_pages P R c alarm e (ended, after))
  settle_pages-IsSettled e s complete after same = inl (ack-pending P R after.streams e.message)
  settle_pages-IsSettled e s failed after same = inr (inr (refl, (after, same, refl)))
  settle_pages-IsSettled e s out_of_pages after same = inr (inl refl)

  -- One of two results.
  either-IsSettled :
      (e : Encounter) (s : Db R) (b : Bool) (x y : Ending × Db R)
      → IsSettled e s x
      → IsSettled e s y
      → IsSettled e s (if b then x else y)
  either-IsSettled e s true x y hx hy = hx
  either-IsSettled e s false x y hx hy = hy

  send_out-IsSettled :
      (e : Encounter) (m : AlertMessage) (a : Analysis) (stale : Bool) (words : Option (List Text))
      (s : Db R)
      → IsSettled e s (send_out P R c alarm e m a stale words s)
  unfolding send_out
  send_out-IsSettled e m a stale none s = inl (ack-pending P R s.streams e.message)
  send_out-IsSettled e m a stale (some words) s =
      either-IsSettled e s _ _ _ (inl (ack-pending P R s.streams e.message)) (
        settle_pages-IsSettled e s _ _ (
          fan_out-pending P R c alarm e.pages e.now (alert_of P R c alarm m a stale) _ words e.users
            none s e.message))

  route-IsSettled :
      (e : Encounter) (m : AlertMessage) (t : Text) (stale : Bool) (s : Db R)
      → IsSettled e s (route P R c alarm e m t stale s)
  unfolding route
  route-IsSettled e m t stale s =
      either-IsSettled e s _ _ _ (inl (ack-pending P R s.streams e.message))
        (send_out-IsSettled e m _ stale _ s)

  recorded-pending :
      (e : Encounter) (m : AlertMessage) (s : Db R)
      → pending_for P R (recorded P R c alarm e m s) e.message ≡ pending_for P R s e.message
  recorded-pending e m s = ground (arith, audit-pending P R c alarm e.now e.message e.raw_json s)

  carried-IsSettled :
      (e : Encounter) (s s' : Db R) (x : Ending × Db R)
      → pending_for P R s' e.message ≡ pending_for P R s e.message
      → IsSettled e s' x
      → IsSettled e s x
  carried-IsSettled e s s' x same (inl h) = inl h
  carried-IsSettled e s s' x same (inr (inl h)) = inr (inl h)
  carried-IsSettled e s s' x same (inr (inr (h, (before, kept, result)))) =
      inr (inr (h, (before, kept ∙ same, result)))

  process_valid-IsSettled :
      (e : Encounter) (m : AlertMessage) (s : Db R)
      → IsSettled e s (process_valid P R c alarm e m s)
  unfolding process_valid
  process_valid-IsSettled e m s = by_status (analyze_signal P m.raw_text).status
    where
      s' : Db R
      s' = recorded P R c alarm e m s

      routed : Ending × Db R
      routed =
          route P R c alarm e m (analyze_signal P m.raw_text).positive_text
            (is_stale P R c alarm e.now m) s'

      by_status :
          (st : SignalStatus)
          → IsSettled e s (elim st [
            | clear ↦ (all_clear, ack_source P R c alarm e.message s')
            | negated ↦ (denied, ack_source P R c alarm e.message s')
            | _ ↦ routed
          ])
      by_status clear = inl (ack-pending P R s'.streams e.message)
      by_status negated = inl (ack-pending P R s'.streams e.message)
      by_status active =
          carried-IsSettled e s s' routed (recorded-pending e m s) (route-IsSettled e m _ _ s')
      by_status unknown =
          carried-IsSettled e s s' routed (recorded-pending e m s) (route-IsSettled e m _ _ s')

  -- The handling of an entry, where no error leaves it.
  pub process_payload-IsSettled :
      (e : Encounter) (s : Db R) → IsSettled e s (process_payload P R c alarm e s)
  unfolding process_payload
  process_payload-IsSettled e s = by_message (validate_payload e.now e.fields)
    where
      by_message :
          (o : Option AlertMessage)
          → IsSettled e s (elim o [
            | none ↦ (invalid, ack_source P R c alarm e.message s)
            | some m ↦ process_valid P R c alarm e m s
          ])
      by_message none = inl (ack-pending P R s.streams e.message)
      by_message (some m) = process_valid-IsSettled e m s
