-- ===== src/Worker/Broadcaster/Owned/Stages.antt =====
-- worker/broadcaster.py: two entries for one stage of an event.
use alert_bot_project.Common.{
  ℕ, ◌+◌, ◌≤◌, ◌<◌, Text, ◌≡◌, ◌≢◌, sym, ◌∙◌, subst, inr, true, false, Option, some, is_empty,
  arith, pos, str, codes, ◌++◌, List, [], ◌∷◌, ap, Bool-cases, inl,
}
use alert_bot_project.Redis.{Redis, Db, MessageId, lease, word}
use alert_bot_project.Shared.Platform.{Platform}
use alert_bot_project.Worker.Contract.{DeliveryJob}
use alert_bot_project.Worker.Lease.{DeliveryLease, ttl_ms, renew, heartbeat, run, refused}
use alert_bot_project.Worker.Lease.Exclusion.{renew-Held, run-refused}
use alert_bot_project.Worker.Broadcaster.Attempt.{Config}
use alert_bot_project.Worker.Broadcaster.Deliver.{deliver_one}
use alert_bot_project.Worker.Broadcaster.Owned.{
  OwnedEntry, stage_name, parsed, lease_for, deliver_owned,
}

-- The job is the stage `step` of the event.
abbrev pub IsStage : Option DeliveryJob → Text → ℕ → Type 0
IsStage job event step =
    (j : DeliveryJob) × (job ≡ some j) × (j.event_id ≡ some event) × (j.step ≡ step)

stage_name-IsStage :
    (m : MessageId) (job : Option DeliveryJob) (event : Text) (step : ℕ)
    → is_empty event ≡ false
    → IsStage job event step
    → stage_name m job ≡ event ++ (codes ":" ++ str (pos step))
unfolding stage_name
stage_name-IsStage m job event step some_event (j, e, named, at) = ground arith

-- The time of the last renewal of a lease.
abbrev pub last_renewal : {R : Redis} → ℕ → List (ℕ × (Db R → Db R)) → ℕ
last_renewal now [] = now
last_renewal now (beat ∷ beats) = last_renewal beat.0 beats

module _ (R : Redis) (l : DeliveryLease) where
  open R use {get}

  -- The lease reads its token for its time after a renewal.
  abbrev IsHeld : ℕ → Db R → Type 0
  IsHeld t s = (u : ℕ) → t ≤ u → u < t + ttl_ms → get u s.keys (lease l.stage) ≡ some (word l.token)

  heartbeat-IsHeld :
      (now : ℕ) (beats : List (ℕ × (Db R → Db R))) (s : Db R)
      → IsHeld now s
      → (heartbeat R l beats s).0 ≡ true
      → IsHeld (last_renewal now beats) (heartbeat R l beats s).1
  unfolding heartbeat
  heartbeat-IsHeld now [] s held kept = held
  heartbeat-IsHeld now ((t, work) ∷ beats) s held kept =
      elim (Bool-cases (renew R l t (work s)).0) [
        | inl won ↦ rw won (
            heartbeat-IsHeld t beats (renew R l t (work s)).1
              (λ u from until. renew-Held R l t (work s) won u from until) (ground arith))
        | inr failed ↦ absurd (ground arith)
      ]

  -- Two operations that agree on every store in which the lease is held make one run.
  run-agree :
      (now : ℕ) (beats : List (ℕ × (Db R → Db R))) (first second : Db R → Db R) (stop : ℕ)
      (s : Db R)
      → ((u : Db R) → IsHeld (last_renewal now beats) u → first u ≡ second u)
      → run R l now beats first stop s ≡ run R l now beats second stop s
  unfolding run
  run-agree now beats first second stop s agree = elim (Bool-cases (renew R l now s).0) [
    | inl won ↦ elim (Bool-cases (heartbeat R l beats (renew R l now s).1).0) [
      | inl kept ↦
          let held =
            heartbeat-IsHeld now beats (renew R l now s).1
              (λ u from until. renew-Held R l now s won u from until) kept in
          let same = agree (heartbeat R l beats (renew R l now s).1).1 held in
          ground (arith, won, kept, same)
      | inr lost' ↦ ground (arith, won, lost')
    ]
    | inr failed ↦ ground (arith, failed)
  ]

module _ (P : Platform) (R : Redis) (c : Config) where
  -- A delivery by another token of an entry for the same stage, where the lease is held.
  held-refused :
      (one two : Text) (a b : OwnedEntry R) (event : Text) (step : ℕ) (s : Db R)
      → is_empty event ≡ false
      → IsStage (parsed P R a) event step
      → IsStage (parsed P R b) event step
      → a.token ≢ b.token
      → R.get b.now s.keys (lease (lease_for P R one a).stage) ≡ some (word a.token)
      → deliver_owned P R c two b s ≡ (refused, s)
  unfolding deliver_owned lease_for
  held-refused one two a b event step s some_event sa sb other held =
      let same_stage : (lease_for P R one a).stage ≡ (lease_for P R two b).stage =
        stage_name-IsStage a.message_id (parsed P R a) event step some_event sa
        ∙ sym (stage_name-IsStage b.message_id (parsed P R b) event step some_event sb) in
      run-refused R (lease_for P R two b) b.now b.beats
        (λ u. (deliver_one R P c b.attempt b.message_id b.payload u).0.1) b.stop s a.token
        (inr
          (subst (λ g. R.get b.now s.keys (lease g) ≡ some (word a.token)) same_stage held, other))

  -- A delivery of an entry, in the middle of whose work another token starts a delivery of an entry
  -- for the same stage of the same event: it ends as it would alone, with the same store, so the
  -- other delivery did nothing. The other starts within 90 s after the last renewal of the first,
  -- and what the first has done until then leaves the key of the lease as it is.
  pub deliver_owned-undisturbed :
      (one two : Text) (a b : OwnedEntry R) (event : Text) (step : ℕ) (earlier later : Db R → Db R)
      (s : Db R)
      → is_empty event ≡ false
      → IsStage (parsed P R a) event step
      → IsStage (parsed P R b) event step
      → a.token ≢ b.token
      → last_renewal a.now a.beats ≤ b.now
      → b.now < last_renewal a.now a.beats + ttl_ms
      → ((u : Db R)
          → R.get b.now (earlier u).keys (lease (lease_for P R one a).stage)
            ≡ R.get b.now u.keys (lease (lease_for P R one a).stage))
      → ((u : Db R)
          → later (earlier u) ≡ (deliver_one R P c a.attempt a.message_id a.payload u).0.1)
      → run R
          (lease_for P R one a)
          a.now
          a.beats
          (λ u. later (deliver_owned P R c two b (earlier u)).1)
          a.stop
          s
        ≡ deliver_owned P R c one a s
  unfolding deliver_owned lease_for
  deliver_owned-undisturbed one two a b event step earlier later s some_event sa sb other from until
        keeps parts =
      run-agree R (lease_for P R one a) a.now a.beats
        (λ u. later (deliver_owned P R c two b (earlier u)).1)
        (λ u. (deliver_one R P c a.attempt a.message_id a.payload u).0.1) a.stop s
        (λ u held.
          let alone =
            held-refused one two a b event step (earlier u) some_event sa sb other
              (keeps u ∙ held b.now from until) in
          ap (λ r. later r.1) alone ∙ parts u)
