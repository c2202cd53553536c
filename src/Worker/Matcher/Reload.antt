-- ===== src/Worker/Matcher/Reload.antt =====
-- worker/custom_matcher.py, `get_matches`: the matcher is built again when the version has changed.
use alert_bot_project.Common.{
  ℕ, ◌≤◌, Text, ◌≡◌, ◌≢◌, refl, sym, subst, inl, inr, Bool, true, false, ◌&&◌, Option, none, some,
  List, length, arith, Bool-cases, ltb, Text-discrete, is_in, [],
}
use alert_bot_project.Shared.Constants.{max_global_custom_triggers}
use alert_bot_project.Worker.Matcher.{
  Machine, build, find_matches, get_matches, CustomTriggerMatcher, MatchAnswer, answer, matched,
  limit_exceeded, out_of_fuel, same_version,
}
use alert_bot_project.Worker.Matcher.Built.{build_lem}
use alert_bot_project.Worker.Matcher.Exact.{IsExact, IsBuilt, IsCurrent, find_matches_lem}

same_version_lem : (a b : Option Text) → same_version a b ≡ true → b ≡ a
same_version_lem none none h = refl
same_version_lem none (some b) h = absurd (ground arith)
same_version_lem (some a) none h = absurd (ground arith)
same_version_lem (some a) (some b) h = elim (Text-discrete a b) [
  | yes e ↦ ground arith
  | no ne ↦ absurd (ground arith)
]

module _ (is_alnum : ℕ → Bool) (version : Option Text) (phrases : List Text) (text : Text)
    (s : CustomTriggerMatcher) where
  abbrev is_cached : Bool
  is_cached = s.loaded && same_version version s.version

  cached_lem :
      is_cached ≡ true
      → get_matches is_alnum version phrases text s
        ≡ (answer (find_matches is_alnum s.machine text), s)
  unfolding get_matches
  cached_lem h = ground arith

  refused_lem :
      is_cached ≡ false
      → ltb max_global_custom_triggers (length phrases) ≡ true
      → get_matches is_alnum version phrases text s ≡ (limit_exceeded, s)
  unfolding get_matches
  refused_lem h over = ground arith

  abbrev reloaded : Machine → CustomTriggerMatcher
  reloaded m = record { machine = m; version = version; loaded = true }

  loaded_lem :
      (m : Machine)
      → is_cached ≡ false
      → ltb max_global_custom_triggers (length phrases) ≡ false
      → build phrases ≡ some m
      → get_matches is_alnum version phrases text s
        ≡ (answer (find_matches is_alnum m text), reloaded m)
  unfolding get_matches
  loaded_lem m h within e = ground arith

  abbrev pub Matches : MatchAnswer × CustomTriggerMatcher → Type 0
  Matches a =
      (r : List Text) × (a.0 ≡ matched r)
      × IsExact is_alnum phrases text r
      × (a.1.loaded ≡ true)
      × (a.1.version ≡ version)
      × (build phrases ≡ some a.1.machine)

  pub get_matches_lem :
      IsCurrent version phrases s
      → is_in [] phrases ≡ false
      → length phrases ≤ max_global_custom_triggers
      → Matches (get_matches is_alnum version phrases text s)
  get_matches_lem current no_empty few = elim (Bool-cases is_cached) [
    | inl hit ↦
        let held : build phrases ≡ some s.machine = ground (arith, current) in
        let (r, e, exact) = find_matches_lem is_alnum phrases s.machine text held in
        subst Matches (sym (cached_lem hit)) (
          r,
          ground arith,
          exact no_empty,
          ground arith,
          same_version_lem version s.version (ground arith),
          held,
        )
    | inr miss ↦
        let (_, m, e, _) = build_lem phrases in
        let (r, e', exact) = find_matches_lem is_alnum phrases m text e in
        subst Matches (sym (loaded_lem m miss (ground arith) e))
          (r, ground arith, exact no_empty, refl, refl, e)
  ]

  abbrev pub Ends : MatchAnswer × CustomTriggerMatcher → Type 0
  Ends a = (a.0 ≢ out_of_fuel) × IsBuilt a.1

  pub get_matches-Ends : IsBuilt s → Ends (get_matches is_alnum version phrases text s)
  get_matches-Ends built = elim (Bool-cases is_cached) [
    | inl hit ↦ elim built [
      | inl empty ↦ absurd (ground arith)
      | inr (ps, e) ↦
          let (r, found, _) = find_matches_lem is_alnum ps s.machine text e in
          subst Ends (sym (cached_lem hit)) (ground arith, inr (ps, e))
    ]
    | inr miss ↦ elim (Bool-cases (ltb max_global_custom_triggers (length phrases))) [
      | inl over ↦ subst Ends (sym (refused_lem miss over)) (ground arith, built)
      | inr within ↦
          let (_, m, e, _) = build_lem phrases in
          let (r, found, _) = find_matches_lem is_alnum phrases m text e in
          subst Ends (sym (loaded_lem m miss within e)) (ground arith, inr (phrases, e))
    ]
  ]
