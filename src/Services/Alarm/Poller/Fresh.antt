-- ===== src/Services/Alarm/Poller/Fresh.antt =====
-- services/ukrainealarm.py and worker/main.py: what the worker reads after a round that succeeds.
use alert_bot_project.Common.{
  ℕ, ◌+◌, ◌-◌, ◌*◌, ◌≤◌, ◌<◌, ◌≡◌, refl, sym, subst, Text, codes, Bool, true, false, Option, some,
  ◌⊎◌, inl, inr, List, arith, Bool-cases,
}
use alert_bot_project.Redis.{Value-discrete, word, Redis, official_alarm}
use alert_bot_project.Shared.Platform.{Platform}
use alert_bot_project.Services.Privacy.{exists, is_token}
use alert_bot_project.Services.Alarm.{
  ApiError, Answer, get_status_index, get_region_alerts, is_air_active,
}
use alert_bot_project.Services.Alarm.Poller.{
  Settings, state_ttl, Poller, Round, index_safe, Ending, refreshed, written_state, raised,
  write_state, need_full, full_poll, poll_region, check_official_air_alarm,
}
use alert_bot_project.Services.Alarm.Poller.Fallback.{get_written, get_refreshed}

Answer-cases :
    {A : Type 0} (a : Answer A) → ((e : ApiError) × (a ≡ inl e)) ⊎ ((x : A) × (a ≡ inr x))
Answer-cases (inl e) = inl (e, refl)
Answer-cases (inr x) = inr (x, refl)

module _ (P : Platform) (R : Redis) (c : Settings) where
  open R use {Keys, get}

  -- The worker sees `active` as long as a state lives that is set at t.
  abbrev pub Shows : ℕ → Bool → Keys → Type 0
  Shows t active s =
      (u : ℕ) → t ≤ u → u < t + state_ttl → check_official_air_alarm P R c u true s ≡ active

  write_state-Shows :
      (t : ℕ) (active : Bool) (s : Keys) → Shows t active (write_state P R c t active s)
  unfolding check_official_air_alarm is_token write_state Value-discrete
  write_state-Shows t true s u h k = ground (arith, get_written P R c t u (word (codes "1")) s)
  write_state-Shows t false s u h k = ground (arith, get_written P R c t u (word (codes "0")) s)

  -- The round read the alerts of the region and left their state for the worker.
  abbrev pub IsRead : Round → Keys → Type 0
  IsRead r s =
      (found : List (List Text)) × (get_region_alerts r.alerts ≡ inr found)
      × Shows r.clock (is_air_active P found) s

  -- The round found the index of the last full poll, which is less than 45 s old, and left the state
  -- as it was.
  abbrev pub IsKept : Round → Poller → Keys → Keys → Type 0
  IsKept r p before after =
      (n : ℕ) × (get_status_index r.status ≡ inr n)
      × (p.last_index ≡ some n)
      × ((r.checked - p.last_success_ts) * 2 < state_ttl)
      × Shows r.clock (check_official_air_alarm P R c r.clock true before) after

  abbrev IsFresh : Round → Poller → Keys → Ending × Poller × Keys → Type 0
  IsFresh r p s after =
      (after.0 ≡ written_state → IsRead r after.2) × (after.0 ≡ refreshed → IsKept r p s after.2)

  full_poll_written :
      (r : Round) (index : Option ℕ) (p : Poller) (s : Keys) (found : List (List Text))
      → get_region_alerts r.alerts ≡ inr found
      → r.set_answers ≡ true
      → (full_poll P R c r index p s).2 ≡ write_state P R c r.clock (is_air_active P found) s
  unfolding full_poll
  full_poll_written r index p s found up answers = ground (arith, up, answers)

  full_poll-IsRead :
      (r : Round) (index : Option ℕ) (p : Poller) (s : Keys)
      → (full_poll P R c r index p s).0 ≡ written_state
      → IsRead r (full_poll P R c r index p s).2
  unfolding full_poll
  full_poll-IsRead r index p s h = elim (Answer-cases (get_region_alerts r.alerts)) [
    | inl (e, down) ↦ absurd (ground (arith, down))
    | inr (found, up) ↦
        let same = full_poll_written r index p s found up (ground (arith, up)) in
        (
          found,
          up,
          subst (Shows r.clock (is_air_active P found)) (sym same)
              (write_state-Shows r.clock (is_air_active P found) s),
        )
  ]

  full_poll_ends :
      (r : Round) (index : Option ℕ) (p : Poller) (s : Keys)
      → (full_poll P R c r index p s).0 ≡ refreshed
      → ⊥
  unfolding full_poll
  full_poll_ends r index p s h = ground arith

  refresh-Shows :
      (t : ℕ) (s : Keys)
      → exists (get t s official_alarm) ≡ true
      → Shows t (check_official_air_alarm P R c t true s) (R.expire t official_alarm state_ttl s)
  unfolding check_official_air_alarm is_token
  refresh-Shows t s h u hu k = ground (arith, get_refreshed P R c t u s hu)

  -- The three ways of a round whose region is known.
  abbrev by_full_poll : Round → Poller → Keys → Ending × Poller × Keys
  by_full_poll r p s = full_poll P R c r (index_safe (get_status_index r.status)) p s

  poll_region_ways :
      (r : Round) (p : Poller) (s : Keys)
      → (poll_region P R c r p s ≡ by_full_poll r p s)
        ⊎ ((poll_region P R c r p s ≡ (raised, p, s))
            ⊎ ((need_full P R c (index_safe (get_status_index r.status)) r.checked p ≡ false)
                × (exists (get r.clock s official_alarm) ≡ true)
                × (poll_region P R c r p s
                    ≡ (refreshed, p, R.expire r.clock official_alarm state_ttl s))))
  unfolding poll_region
  poll_region_ways r p s =
      elim (Bool-cases (need_full P R c (index_safe (get_status_index r.status)) r.checked p)) [
        | inl full ↦ inl (rw full refl)
        | inr cheap ↦ elim (Bool-cases r.expire_answers) [
          | inr silent ↦ inr (inl (rw (cheap, silent) refl))
          | inl answers ↦ elim (Bool-cases (exists (get r.clock s official_alarm))) [
            | inl there ↦ inr (inr (cheap, there, rw (cheap, answers, there) refl))
            | inr gone ↦ inl (rw (cheap, answers, gone) refl)
          ]
        ]
      ]

  not_full :
      (r : Round) (p : Poller)
      → need_full P R c (index_safe (get_status_index r.status)) r.checked p ≡ false
      → (n : ℕ) × (get_status_index r.status ≡ inr n)
        × (p.last_index ≡ some n)
        × ((r.checked - p.last_success_ts) * 2 < state_ttl)
  unfolding need_full
  not_full r p h = elim (Answer-cases (get_status_index r.status)) [
    | inl (e, down) ↦ absurd (ground (arith, down))
    | inr (n, up) ↦ (n, up, ground (arith, up), ground (arith, up))
  ]

  -- A poll that succeeds by a full poll leaves the state of the alerts that it read for the worker,
  -- for 90 s. One that succeeds without it found the index of the last full poll, which is less than
  -- 45 s old, and leaves the state that the worker saw, for 90 s more.
  pub poll_region-IsFresh :
      (r : Round) (p : Poller) (s : Keys)
      → ((poll_region P R c r p s).0 ≡ written_state → IsRead r (poll_region P R c r p s).2)
        × ((poll_region P R c r p s).0 ≡ refreshed → IsKept r p s (poll_region P R c r p s).2)
  poll_region-IsFresh r p s = elim (poll_region_ways r p s) [
    | inl full ↦
        subst (IsFresh r p s) (sym full)
          (full_poll-IsRead r _ p s, λ h. absurd (full_poll_ends r _ p s h))
    | inr (inl failed) ↦ subst (IsFresh r p s) (sym failed) (λ h. absurd (cc h), λ h. absurd (cc h))
    | inr (inr (cheap, there, kept)) ↦
        let (n, up, last, young) = not_full r p cheap in
        subst (IsFresh r p s) (sym kept)
          (λ h. absurd (cc h), λ h. (n, up, last, young, refresh-Shows r.clock s there))
  ]
