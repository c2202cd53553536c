-- ===== src/Tests/Limits.antt =====
-- Witnesses for the rate limiter and the leases.
use alert_bot_project.Common.{
  ℕ, ◌+◌, ◌≤◌, max, arith, Text, Text-discrete, codes, ◌≡◌, ◌≢◌, refl, true, false, some, [], ◌∷◌,
  All, ℕ_discrete,
}
use alert_bot_project.Redis.{Db, delivery_stream}
use alert_bot_project.Redis.Memory.{memory, no_keys, no_streams}
use alert_bot_project.Worker.RateLimit.{acquire_slot, acquire}
use alert_bot_project.Worker.RateLimit.Spacing.{slot, IsSpaced, grants, acquire_slot-IsSpaced}
use alert_bot_project.Worker.RateLimit.Progress.{acquire_granted}
use alert_bot_project.Worker.Lease.{DeliveryLease, renew}
use alert_bot_project.Worker.Lease.Exclusion.{
  renewal, giving_up, renewals, lease_of, renew-excludes,
}
use alert_bot_project.Tests.{empty_store, message}

acquire_slot-IsSpaced_example : All (IsSpaced memory 1000 (codes "7") false no_keys) (
    grants memory
      (slot 1020 (codes "8") false ∷ slot 2500 (codes "7") true ∷ [])
      (acquire_slot memory 1000 (codes "7") false no_keys).1)
unfolding acquire_slot
acquire_slot-IsSpaced_example =
    acquire_slot-IsSpaced memory 1000 (codes "7") false no_keys
      (slot 1020 (codes "8") false ∷ slot 2500 (codes "7") true ∷ []) refl
      (omega arith, (omega arith, tt))

acquire_granted_example :
    (t : ℕ) × ((acquire memory (0 ∷ 0 ∷ []) 1000 9000 (codes "7") false no_keys).0 ≡ some t)
    × (1000 ≤ t)
    × (t ≤ max 1000 (1000 + 10 + 0))
acquire_granted_example =
    acquire_granted memory (0 ∷ 0 ∷ []) 1000 9000 1000 0 (codes "7") false no_keys
      (λ u h. ground arith) (omega arith, (omega arith, tt)) (omega arith) (omega arith)
      (omega arith)

abbrev lease_by : Text → DeliveryLease
lease_by token = record {
  stream = delivery_stream;
  consumer = codes "worker";
  message_id = message;
  stage = codes "1:5:7:1";
  token = token;
}

-- The message is pending with the consumer.
abbrev pub pending_store : Db memory
pending_store = record empty_store {
  streams = record no_streams { owners = λ n i. some (codes "worker") };
}

renew-excludes_example :
    All
      (λ a. (lease_of a).stage ≢ codes "1:5:7:1")
      (renewals memory
        (renewal (lease_by (codes "b")) 2000 ∷ giving_up (lease_by (codes "b")) 3000 ∷ [])
        (renew memory (lease_by (codes "a")) 1000 pending_store).1)
unfolding renew Text-discrete ℕ_discrete
renew-excludes_example =
    renew-excludes memory (lease_by (codes "a")) 1000 pending_store
      (renewal (lease_by (codes "b")) 2000 ∷ giving_up (lease_by (codes "b")) 3000 ∷ []) refl
      (
        λ e. ground arith,
        omega arith,
        omega arith,
        (λ e. ground arith, omega arith, omega arith, tt),
      )
