-- ===== src/Worker/Lease.antt =====
-- worker/delivery_lease.py: a lease keeps a pending stream entry with its consumer, and keeps other
-- processes off the same delivery stage.
pub mod Exclusion
use alert_bot_project.Common.{
  ℕ, Text, Text-discrete, Bool, true, false, Option, none, some, List, [], ◌∷◌, ite, not, ◌&&◌,
  if◌then◌else◌,
}
use alert_bot_project.Redis.{MessageId, Value, Value-discrete, word, Stream, Redis, Db, lease}

-- DeliveryLease; the group is the one group of the stream
pub record DeliveryLease : Type 0 where
  pub stream : Stream
  pub consumer : Text
  pub message_id : MessageId
  pub stage : Text
  pub token : Text

abbrev pub ttl_ms : ℕ
ttl_ms = 90000

-- redis.call('GET', key) == word, for what GET returned
unfoldable pub holds : Option Value → Text → Bool
unfolding Value-discrete
holds none w = false
holds (some v) w = ite (Value-discrete v (word w)) true false

abbrev pub is_owner : Option Text → Text → Bool
is_owner none c = false
is_owner (some o) c = ite (Text-discrete o c) true false

abbrev pub is_some {ℓ} : {A : Type ℓ} → Option A → Bool
is_some none = false
is_some (some _) = true

pub data Outcome : Type 0 where
  -- the first renewal failed, and the operation was not started
  refused : Outcome
  -- the operation ended, by itself or by its time budget
  ended : Outcome
  -- a later renewal failed, and the operation was cancelled
  lost : Outcome

module _ (R : Redis) where
  open R use {get, set_px, del, owner, xclaim}

  -- RENEW_DELIVERY_LUA, through DeliveryLease.renew
  unfoldable pub renew : DeliveryLease → ℕ → Db R → Bool × Db R
  renew l now s =
      let pending = owner s.streams l.stream l.message_id in
      let holder = get now s.keys (lease l.stage) in
      let s' = record s {
        keys = set_px now (lease l.stage) (word l.token) ttl_ms s.keys;
        streams = xclaim l.stream l.consumer l.message_id s.streams;
      } in
      if not (is_owner pending l.consumer)
      then (false, s)
      else if is_some holder && not (holds holder l.token)
      then (false, s)
      else (true, s')

  -- RELEASE_DELIVERY_LUA
  unfoldable pub release : DeliveryLease → ℕ → Db R → Db R
  release l now s =
      if holds (get now s.keys (lease l.stage)) l.token
      then record s { keys = del (lease l.stage) s.keys }
      else s

  -- The heartbeat of `run`: at each beat, what the operation and the other processes did to the
  -- store since the last beat, and then a renewal. It ends at the first renewal that fails.
  unfoldable pub heartbeat : DeliveryLease → List (ℕ × (Db R → Db R)) → Db R → Bool × Db R
  heartbeat l [] s = (true, s)
  heartbeat l ((t, work) ∷ beats) s =
      let (kept, s') = renew l t (work s) in
      let rest = heartbeat l beats s' in if kept then rest else (false, s')

  -- DeliveryLease.run: `beats` are the heartbeats before the operation or its budget ends, `finish`
  -- is what happens after the last of them, and `stop` the time of the release.
  unfoldable pub run :
      DeliveryLease → ℕ → List (ℕ × (Db R → Db R)) → (Db R → Db R) → ℕ → Db R → Outcome × Db R
  unfolding heartbeat
  run l now beats finish stop s =
      let (started, s1) = renew l now s in
      let (kept, s2) = heartbeat l beats s1 in
      if started
      then (if kept then (ended, release l stop (finish s2)) else (lost, release l stop s2))
      else (refused, s)
