-- ===== src/Services/Alarm/Poller/Fallback.antt =====
-- services/ukrainealarm.py and worker/main.py: how long the worker trusts a state of the alarm.
use mathlib.Core.Logic.{if_pos}
use alert_bot_project.Common.{
  ℕ, ◌+◌, ◌≤◌, ◌≡◌, refl, sym, ◌∙◌, subst, Bool, Option, none, some, ◌⊎◌, inl, List, [], ◌∷◌, All,
  ltb, arith, if◌then◌else◌,
}
use alert_bot_project.Redis.{Value, Value-discrete, Key-discrete, Redis, official_alarm}
use alert_bot_project.Shared.Platform.{Platform}
use alert_bot_project.Services.Privacy.{is_token}
use alert_bot_project.Services.Alarm.{ApiError, get_status_index, get_region_alerts}
use alert_bot_project.Services.Alarm.Poller.{
  Settings, state_ttl, Poller, Round, state_word, raised, write_state, need_full, full_poll,
  poll_region, poll_once, maybe_failsafe, round, run, check_official_air_alarm,
}

module _ (P : Platform) (R : Redis) (c : Settings) where
  open R use {Keys, get, set_px, expire, get-set_px, get-expire}

  -- From the lifetime of a state after t on, the key is gone or holds the failsafe.
  abbrev pub FallsBack : ℕ → Keys → Type 0
  FallsBack t s =
      (u : ℕ)
      → t + state_ttl ≤ u
      → (get u s official_alarm ≡ none) ⊎ (get u s official_alarm ≡ some (state_word c.failsafe))

  pub get_written :
      (t u : ℕ) (v : Value) (s : Keys)
      → get u (set_px t official_alarm v state_ttl s) official_alarm
        ≡ (if ltb u (t + state_ttl) then some v else none)
  get_written t u v s =
      get-set_px t u s official_alarm official_alarm v state_ttl
      ∙ if_pos (Key-discrete official_alarm official_alarm) refl _ _

  pub get_refreshed :
      (t u : ℕ) (s : Keys)
      → t ≤ u
      → get u (expire t official_alarm state_ttl s) official_alarm
        ≡ (if ltb u (t + state_ttl) then get t s official_alarm else none)
  get_refreshed t u s h =
      get-expire t s official_alarm official_alarm state_ttl u h
      ∙ if_pos (Key-discrete official_alarm official_alarm) refl _ _

  full_poll-FallsBack :
      (t : ℕ) (r : Round) (index : Option ℕ) (p : Poller) (s : Keys)
      → r.clock ≤ t
      → FallsBack t s
      → FallsBack t (full_poll P R c r index p s).2
  unfolding full_poll write_state
  full_poll-FallsBack t r index p s h f u hu = grind (arith, f u hu, get_written r.clock u)

  poll_once-FallsBack :
      (t : ℕ) (r : Round) (p : Poller) (s : Keys)
      → r.clock ≤ t
      → FallsBack t s
      → FallsBack t (poll_once P R c r p s).2
  unfolding poll_once poll_region
  poll_once-FallsBack t r p s h f u hu = grind (
    arith,
    f u hu,
    get_refreshed r.clock u s,
    λ (index : Option ℕ) (q : Poller). full_poll-FallsBack t r index q s h f u hu,
  )

  poll_once-raised :
      (r : Round) (p : Poller) (s : Keys)
      → (poll_once P R c r p s).0 ≡ raised
      → (poll_once P R c r p s).2 ≡ s
  unfolding poll_once poll_region full_poll
  poll_once-raised r p s h = ground arith

  maybe_failsafe-FallsBack :
      (t : ℕ) (r : Round) (p : Poller) (s : Keys)
      → FallsBack t s
      → FallsBack t (maybe_failsafe P R c r p s).1
  unfolding maybe_failsafe
  maybe_failsafe-FallsBack t r p s f u hu =
      ground (arith, f u hu, get_written r.clock u (state_word c.failsafe) s)

  round-FallsBack :
      (t : ℕ) (r : Round) (p : Poller) (s : Keys)
      → r.clock ≤ t
      → FallsBack t s
      → FallsBack t (round P R c r p s).2
  unfolding round
  round-FallsBack t r p s h f u hu = ground (
    arith,
    poll_once-FallsBack t r p s h f u hu,
    maybe_failsafe-FallsBack t r (poll_once P R c r p s).1 (poll_once P R c r p s).2
        (poll_once-FallsBack t r p s h f) u hu,
  )

  run-FallsBack :
      (t : ℕ) (rs : List Round) (p : Poller) (s : Keys)
      → All (λ r. r.clock ≤ t) rs
      → FallsBack t s
      → FallsBack t (run P R c rs p s).1
  unfolding run
  run-FallsBack t [] p s h f u hu = f u hu
  run-FallsBack t (r ∷ rs) p s h f u hu = ground (
    arith,
    round-FallsBack t r p s h.0 f u hu,
    run-FallsBack t rs (round P R c r p s).1 (round P R c r p s).2 h.1
        (round-FallsBack t r p s h.0 f) u hu,
  )

  -- The API answers neither request of the round.
  abbrev pub IsDown : Round → Type 0
  IsDown r =
      ((e : ApiError) × (get_status_index r.status ≡ inl e))
      × ((e : ApiError) × (get_region_alerts r.alerts ≡ inl e))

  poll_once-IsDown :
      (r : Round) (p : Poller) (s : Keys) → IsDown r → (poll_once P R c r p s).0 ≡ raised
  unfolding poll_once poll_region full_poll need_full
  poll_once-IsDown r p s h =
      let status = h.0.1 in let alerts = h.1.1 in ground (arith, status, alerts)

  round-down :
      (t : ℕ) (r : Round) (p : Poller) (s : Keys)
      → IsDown r
      → FallsBack t s
      → FallsBack t (round P R c r p s).2
  unfolding round
  round-down t r p s down f u hu =
      let kept = poll_once-raised r p s (poll_once-IsDown r p s down) in
      let before : FallsBack t (poll_once P R c r p s).2 = subst (FallsBack t) (sym kept) f in
      ground (
        arith,
        poll_once-IsDown r p s down,
        maybe_failsafe-FallsBack t r (poll_once P R c r p s).1 (poll_once P R c r p s).2 before u
            hu,
      )

  run-down :
      (t : ℕ) (rs : List Round) (p : Poller) (s : Keys)
      → All IsDown rs
      → FallsBack t s
      → FallsBack t (run P R c rs p s).1
  unfolding run
  run-down t [] p s h f u hu = f u hu
  run-down t (r ∷ rs) p s h f u hu = ground (
    arith,
    round-down t r p s h.0 f u hu,
    run-down t rs (round P R c r p s).1 (round P R c r p s).2 h.1 (round-down t r p s h.0 f) u hu,
  )

  -- After any rounds until the time t and then any rounds in which the API answers no request, the
  -- worker sees the failsafe from 90 s after t on, if so it did before these rounds; it does so too
  -- while Redis does not answer.
  pub alarm-FallsBack :
      (t u : ℕ) (rs down : List Round) (p : Poller) (s : Keys) (answers : Bool)
      → FallsBack t s
      → All (λ r. r.clock ≤ t) rs
      → All IsDown down
      → t + state_ttl ≤ u
      → check_official_air_alarm P R c u answers
          (run P R c down (run P R c rs p s).0 (run P R c rs p s).1).1
        ≡ c.failsafe
  unfolding check_official_air_alarm is_token Value-discrete
  alarm-FallsBack t u rs down p s answers f early silent hu =
      let at_end =
        run-down t down (run P R c rs p s).0 (run P R c rs p s).1 silent
          (run-FallsBack t rs p s early f) u hu in
      ground (arith, at_end)
