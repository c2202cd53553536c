-- ===== src/Worker/Lease/Exclusion.antt =====
-- No two processes hold the lease of one stage at a time.
use alert_bot_project.Common.{
  ℕ, ◌+◌, ◌≤◌, ◌<◌, Text, ◌≡◌, ◌≢◌, sym, ◌⊎◌, inl, inr, Bool, true, false, some, List, [], ◌∷◌, All,
  if◌then◌else◌, arith, Bool-cases,
}
use mathlib.Core.Path.{subst}
use alert_bot_project.Redis.{Redis, Db, lease, word}
use alert_bot_project.Worker.Lease.{
  DeliveryLease, ttl_ms, holds, is_owner, renew, release, run, refused,
}

-- What processes do to the leases, with the time.
pub data Attempt : Type 0 where
  renewal : DeliveryLease → ℕ → Attempt
  giving_up : DeliveryLease → ℕ → Attempt

abbrev pub lease_of : Attempt → DeliveryLease
lease_of (renewal l _) = l
lease_of (giving_up l _) = l

abbrev pub at : Attempt → ℕ
at (renewal _ t) = t
at (giving_up _ t) = t

module _ (R : Redis) where
  open R use {get, set_px, del, owner, get-set_px, get-del}

  -- The token holds the stage from `now` on and before `limit`.
  abbrev pub Held : Text → Text → ℕ → ℕ → Db R → Type 0
  Held stage token now limit s =
      (u : ℕ) → now ≤ u → u < limit → get u s.keys (lease stage) ≡ some (word token)

  pub renew-Held :
      (l : DeliveryLease) (now : ℕ) (s : Db R)
      → (renew R l now s).0 ≡ true
      → Held l.stage l.token now (now + ttl_ms) (renew R l now s).1
  unfolding renew
  renew-Held l now s e u h lt =
      ground (arith, get-set_px now u s.keys (lease l.stage) (lease l.stage) (word l.token) ttl_ms)

  perform : Attempt → Db R → Bool × Db R
  perform (renewal l t) s = renew R l t s
  perform (giving_up l t) s = (false, release R l t s)

  -- The attempts that renewed a lease.
  pub renewals : List Attempt → Db R → List Attempt
  unfolding perform
  renewals [] s = []
  renewals (a ∷ later) s =
      let (won, s') = perform a s in let rest = renewals later s' in if won then a ∷ rest else rest

  other_keeps :
      (a : Attempt) (stage token : Text) (now limit : ℕ) (s : Db R)
      → (lease_of a).token ≢ token
      → now ≤ at a
      → Held stage token now limit s
      → Held stage token (at a) limit (perform a s).1
  unfolding perform renew release holds
  other_keeps (renewal l t) stage token now limit s ne h held u hu lt = ground (
    arith,
    held t,
    held u,
    get-set_px t u s.keys (lease l.stage) (lease stage) (word l.token) ttl_ms,
  )
  other_keeps (giving_up l t) stage token now limit s ne h held u hu lt =
      ground (arith, held t, held u, get-del u s.keys (lease l.stage) (lease stage))

  other_refused :
      (l : DeliveryLease) (t : ℕ) (token : Text) (now limit : ℕ) (s : Db R)
      → l.token ≢ token
      → now ≤ t
      → t < limit
      → Held l.stage token now limit s
      → renew R l t s ≡ (false, s)
  unfolding renew holds
  other_refused l t token now limit s ne h lt held = ground (arith, held t)

  other_loses :
      (l : DeliveryLease) (t : ℕ) (stage token : Text) (now limit : ℕ) (s : Db R)
      → l.token ≢ token
      → now ≤ t
      → t < limit
      → Held stage token now limit s
      → (renew R l t s).0 ≡ true
      → l.stage ≢ stage
  other_loses l t stage token now limit s ne h lt held won e =
      let mine : Held l.stage token now limit s =
        subst (λ x. Held x token now limit s) (sym e) held in
      cc (won, other_refused l t token now limit s ne h lt mine)

  -- Attempts by other tokens, in the order of the clock, before `limit`.
  abbrev pub AreOthers : Text → ℕ → ℕ → List Attempt → Type 0
  AreOthers token now limit [] = Unit
  AreOthers token now limit (a ∷ later) =
      ((lease_of a).token ≢ token)
      × (now ≤ at a)
      × (at a < limit)
      × AreOthers token (at a) limit later

  others_fail :
      (attempts : List Attempt) (stage token : Text) (now limit : ℕ) (s : Db R)
      → AreOthers token now limit attempts
      → Held stage token now limit s
      → All (λ a. (lease_of a).stage ≢ stage) (renewals attempts s)
  unfolding renewals
  others_fail [] stage token now limit s o held = tt
  others_fail (giving_up l t ∷ later) stage token now limit s o held =
      others_fail later stage token t limit (release R l t s) o.3
        (other_keeps (giving_up l t) stage token now limit s o.0 o.1 held)
  others_fail (renewal l t ∷ later) stage token now limit s o held =
      let rest : All (λ a. (lease_of a).stage ≢ stage) (renewals later (renew R l t s).1) =
        others_fail later stage token t limit (renew R l t s).1 o.3
          (other_keeps (renewal l t) stage token now limit s o.0 o.1 held) in
      elim (Bool-cases (renew R l t s).0) [
        | inl won ↦ rw won (other_loses l t stage token now limit s o.0 o.1 o.2 held won, rest)
        | inr failed ↦ rw failed rest
      ]

  -- A renewal that succeeds at time t excludes the others: of any renewals and releases with other
  -- tokens that follow within the lifetime of 90 s, no renewal of the same stage succeeds.
  pub renew-excludes :
      (l : DeliveryLease) (t : ℕ) (s : Db R) (others : List Attempt)
      → (renew R l t s).0 ≡ true
      → AreOthers l.token t (t + ttl_ms) others
      → All (λ a. (lease_of a).stage ≢ l.stage) (renewals others (renew R l t s).1)
  renew-excludes l t s others e o =
      others_fail others l.stage l.token t (t + ttl_ms) (renew R l t s).1 o (renew-Held l t s e)

  -- A process whose entry was taken over by another consumer, or that never owned it, or whose
  -- stage another token holds, does not start the operation and changes nothing: `run` is refused.
  pub run-refused :
      (l : DeliveryLease) (now : ℕ) (beats : List (ℕ × (Db R → Db R))) (finish : Db R → Db R)
      (stop : ℕ) (s : Db R) (token : Text)
      → (is_owner (owner s.streams l.stream l.message_id) l.consumer ≡ false)
        ⊎ ((get now s.keys (lease l.stage) ≡ some (word token)) × (token ≢ l.token))
      → run R l now beats finish stop s ≡ (refused, s)
  unfolding run renew holds
  run-refused l now beats finish stop s token (inl e) = ground arith
  run-refused l now beats finish stop s token (inr e) = ground arith
