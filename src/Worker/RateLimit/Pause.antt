-- ===== src/Worker/RateLimit/Pause.antt =====
-- No slot is granted before a pause has passed.
use alert_bot_project.Common.{
  ℕ, ◌+◌, ◌*◌, ◌≤◌, ◌<◌, max, Text, ◌≡◌, refl, inl, Bool, none, some, List, [], ◌∷◌, All, ◌++◌, ltb,
  if◌then◌else◌, arith, All-map,
}
use mathlib.Core.Logic.{if_pos}
use alert_bot_project.Redis.{Key-discrete, Redis, num, count_of, rate_global}
use alert_bot_project.Worker.RateLimit.{acquire_slot, pause}
use alert_bot_project.Worker.RateLimit.Spacing.{
  Blocked, Call, InOrder, apply, grants, grants-IsLate, hold, slot, slot_laws,
}

module _ (R : Redis) where
  open R use {Keys, get, set_px, get-set_px}

  -- A stamp stays until the time that it names.
  abbrev Lasts : Keys → ℕ → Type 0
  Lasts s now =
      (t u : ℕ)
      → now ≤ t
      → t ≤ u
      → u < count_of (get t s rate_global)
      → count_of (get t s rate_global) ≤ count_of (get u s rate_global)

  slot-Lasts :
      (s : Keys) (now t : ℕ) (chat : Text) (again : Bool)
      → Lasts s now
      → now ≤ t
      → Lasts (acquire_slot R t chat again s).1 t
  unfolding acquire_slot
  slot-Lasts s now t chat again l h v u hv hu lt =
      ground (arith, l v u, slot_laws R t chat s v rate_global, slot_laws R t chat s u rate_global)

  pause_law :
      (s : Keys) (t seconds u : ℕ)
      → get u
          (set_px t rate_global
            (num (t + max 1000 (seconds * 1000)))
            (max 1000 (seconds * 1000) + 2000)
            s)
          rate_global
        ≡ (if ltb u (t + (max 1000 (seconds * 1000) + 2000))
            then some (num (t + max 1000 (seconds * 1000)))
            else none)
  pause_law s t seconds u = rw (get-set_px, if_pos (Key-discrete rate_global rate_global) refl)

  pause-Lasts :
      (s : Keys) (now t seconds : ℕ) → Lasts s now → now ≤ t → Lasts (pause R t seconds s) t
  unfolding pause
  pause-Lasts s now t seconds l h v u hv hu lt =
      ground (arith, l v u, pause_law s t seconds v, pause_law s t seconds u)

  pause-Blocked :
      (t seconds : ℕ) (s : Keys)
      → Lasts s t
      → Blocked R rate_global (pause R t seconds s) t (t + max 1000 (seconds * 1000))
  unfolding pause
  pause-Blocked t seconds s l u h lt = ground (arith, l t u, pause_law s t seconds u)

  -- The keys after the calls.
  pub run : List Call → Keys → Keys
  run [] s = s
  run (c ∷ cs) s = run cs (apply R c s).1

  run_held :
      (cs later : List Call) (s : Keys) (now t seconds : ℕ)
      → Lasts s now
      → InOrder now (cs ++ hold t seconds ∷ later)
      → All
          (λ g. t + max 1000 (seconds * 1000) ≤ g.time)
          (grants R later (pause R t seconds (run cs s)))
  unfolding run apply
  run_held [] later s now t seconds l o =
      All-map _ _ (grants R later (pause R t seconds s)) (λ g w. w (inl refl))
        (grants-IsLate R later rate_global (pause R t seconds s) t (t + max 1000 (seconds * 1000))
          (pause-Blocked t seconds s (λ v u hv. l v u (omega (arith, o.0)))) o.1)
  run_held (slot t' chat again ∷ cs) later s now t seconds l o =
      run_held cs later (acquire_slot R t' chat again s).1 t' t seconds
        (slot-Lasts s now t' chat again l o.0) o.1
  run_held (hold t' seconds' ∷ cs) later s now t seconds l o =
      run_held cs later (pause R t' seconds' s) t' t seconds (pause-Lasts s now t' seconds' l o.0)
        o.1

  -- From keys with no global stamp, after any calls and then a pause of some seconds at time t: no
  -- call that follows in the order of the clock is granted a slot before those seconds (at least
  -- one) have passed.
  pub pause_holds :
      (s : Keys) (now : ℕ) (before later : List Call) (t seconds : ℕ)
      → ((u : ℕ) → get u s rate_global ≡ none)
      → InOrder now (before ++ hold t seconds ∷ later)
      → All
          (λ g. t + max 1000 (seconds * 1000) ≤ g.time)
          (grants R later (pause R t seconds (run before s)))
  pause_holds s now before later t seconds e o =
      run_held before later s now t seconds (λ v u hv hu lt. absurd (ground (arith, e v))) o
