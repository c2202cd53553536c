-- ===== src/Worker/Source/Phrases.antt =====
-- worker/main.py and worker/custom_matcher.py: a phrase of a user's own, from the text of a post to
-- the job of the user.
use alert_bot_project.Common.{
  ℕ, ◌≤◌, ◌<◌, Text, Text-discrete, ◌≡◌, ◌≢◌, ◌⊎◌, codes, if◌then◌else◌, refl, sym, ◌∙◌, ap, subst,
  inl, inr, Bool, true, false, ◌&&◌, Option, none, some, List, [], ◌∷◌, ◌++◌, All, length, arith,
  is_in, is_in-append_right,
}
use alert_bot_project.Redis.{Redis, Db}
use alert_bot_project.Shared.Constants.{max_global_custom_triggers}
use alert_bot_project.Shared.Platform.{Platform}
use alert_bot_project.Shared.TextProcessor.{normalize, analyze_signal}
use alert_bot_project.Shared.WordSearch.{search}
use alert_bot_project.Services.Alarm.Poller.{Settings, check_official_air_alarm}
use alert_bot_project.Worker.Broadcaster.Attempt.{Config}
use alert_bot_project.Worker.Triggers.Decision.{resolve_trigger_words_lem}
use alert_bot_project.Worker.FanOut.{
  UserSettings, selected, is_target, overlap, contains, not_muted, has_word,
}
use alert_bot_project.Worker.Matcher.{
  CustomTriggerMatcher, MatchAnswer, matched, word_char, get_matches,
}
use alert_bot_project.Worker.Matcher.Queue.{IsIn}
use alert_bot_project.Worker.Matcher.Exact.{IsCurrent}
use alert_bot_project.Worker.Matcher.Reload.{get_matches_lem}
use alert_bot_project.Worker.FanOut.Pages.{IsOrdered}
use alert_bot_project.Worker.Source.{
  AlertMessage, Encounter, process_payload, dispatched, alert_of, is_stale, recorded,
}
use alert_bot_project.Worker.Source.Recipients.{
  recipients, analysis_of, words_for, categories_of, IsSentOut, all_enqueued,
  process_payload-recipients,
}

contains-eq : (p : Text) (xs : List Text) → contains p xs ≡ is_in p xs
unfolding contains
contains-eq p [] = refl
contains-eq p (x ∷ xs) = ground (arith, contains-eq p xs)

overlap_at :
    (p : Text) (xs ys : List Text) → is_in p xs ≡ true → is_in p ys ≡ true → overlap xs ys ≡ true
unfolding overlap
overlap_at p [] ys h k = absurd (ground arith)
overlap_at p (x ∷ xs) ys h k = elim (Text-discrete p x) [
  | yes this ↦
      let there = subst (λ t. contains t ys ≡ true) this (contains-eq p ys ∙ k) in ground arith
  | no other ↦ ground (arith, overlap_at p xs ys)
]

has_word_at :
    (p : Text) (xs ys : List Text) → is_in p xs ≡ true → is_in p ys ≡ true → has_word xs ys ≡ true
has_word_at p [] ys h k = refl
has_word_at p (x ∷ xs) ys h k = overlap_at p (x ∷ xs) ys h k

-- A user who is in the table.
abbrev pub Includes : List UserSettings → UserSettings → Type 0
Includes [] u = ⊥
Includes (x ∷ xs) u = (x ≡ u) ⊎ Includes xs u

selected_at :
    (test : UserSettings → Bool) (us : List UserSettings) (u : UserSettings)
    → Includes us u
    → test u ≡ true
    → IsIn u.user_id (selected test none us)
unfolding selected
selected_at test [] u h k = absurd h
selected_at test (x ∷ us) u (inl this) k =
    subst
      (λ v.
        IsIn u.user_id
          (if test v && true then v.user_id ∷ selected test none us else selected test none us))
      (sym this) (here u k)
  where
    here :
        (v : UserSettings)
        → test v ≡ true
        → IsIn v.user_id
            (if test v && true then v.user_id ∷ selected test none us else selected test none us)
    here v e = ground arith
selected_at test (x ∷ us) u (inr later) k = ground (arith, selected_at test us u later k)

targeted :
    (now : ℕ) (categories words : List Text) (u : UserSettings)
    → not_muted now u.muted_until ≡ true
    → overlap u.potvory categories ≡ true
    → has_word words u.trigger_words ≡ true
    → is_target now categories words u ≡ true
unfolding is_target
targeted now categories words u loud category word = ground arith

-- What the matcher answers for a text.
abbrev pub answered : MatchAnswer → List Text
answered (matched r) = r
answered _ = []

module _ (P : Platform) (R : Redis) (c : Config) (alarm : Settings) where
  -- the text in which phrases are searched
  abbrev pub searched : AlertMessage → Text
  searched m = normalize P (analyze_signal P m.raw_text).positive_text

  sent_for :
      (e : Encounter) (m : AlertMessage) (words : List Text) (s : Db R) (p : Text)
      → words_for P R c alarm e m s ≡ some words
      → is_in p (e.matched_custom (searched m)) ≡ true
      → is_in p words ≡ true
  sent_for e m words s p wanted h = elim (split words wanted) [
    | inl e1 ↦
        subst (λ t. is_in p t ≡ true) (sym e1)
          (is_in-append_right p (analysis_of P R c alarm m).locations
            (e.matched_custom (searched m)) h)
    | inr (_, _, none_found, _, _) ↦
        absurd (ground (arith, subst (λ t. is_in p t ≡ true) none_found h))
  ]
    where
      split :
          (ws : List Text)
          → words_for P R c alarm e m s ≡ some ws
          → (ws ≡ (analysis_of P R c alarm m).locations ++ e.matched_custom (searched m))
            ⊎ ((ws ≡ codes "city" ∷ [])
                × ((analysis_of P R c alarm m).locations ≡ [])
                × (e.matched_custom (searched m) ≡ [])
                × (check_official_air_alarm P R alarm e.now e.alarm_answers s.keys ≡ true)
                × ((analysis_of P R c alarm m).categories ≢ []))
      split =
          (resolve_trigger_words_lem (analysis_of P R c alarm m).categories
            (analysis_of P R c alarm m).locations (e.matched_custom (searched m))
            (check_official_air_alarm P R alarm e.now e.alarm_answers s.keys)).1

  phrase_reaches :
      (e : Encounter) (m : AlertMessage) (words : List Text) (s : Db R) (version : Option Text)
      (phrases : List Text) (matcher : CustomTriggerMatcher) (p : Text) (u : UserSettings)
      → IsCurrent version phrases matcher
      → is_in [] phrases ≡ false
      → length phrases ≤ max_global_custom_triggers
      → e.matched_custom (searched m)
        ≡ answered (get_matches P.is_alnum version phrases (searched m) matcher).0
      → words_for P R c alarm e m s ≡ some words
      → is_in p phrases ≡ true
      → search (word_char P.is_alnum) false (p ∷ []) (searched m) ≡ true
      → Includes e.users u
      → is_in p u.trigger_words ≡ true
      → overlap u.potvory (categories_of P R c alarm m) ≡ true
      → not_muted e.now u.muted_until ≡ true
      → IsIn u.user_id (recipients P R c alarm e (categories_of P R c alarm m) words)
  phrase_reaches e m words s version phrases matcher p u current no_empty few answers wanted listed
        found there has_phrase category loud =
      let (r, e1, exact, _, _, _) =
        get_matches_lem P.is_alnum version phrases (searched m) matcher current no_empty few in
      let in_r : is_in p r ≡ true = (exact p).1 (listed, found) in
      let given : e.matched_custom (searched m) ≡ r = answers ∙ ap answered e1 in
      let in_given : is_in p (e.matched_custom (searched m)) ≡ true =
        subst (λ t. is_in p t ≡ true) (sym given) in_r in
      let in_words : is_in p words ≡ true = sent_for e m words s p wanted in_given in
      selected_at (is_target e.now (categories_of P R c alarm m) words) e.users u there (
        targeted e.now (categories_of P R c alarm m) words u loud category
          (has_word_at p words u.trigger_words in_words has_phrase))

  -- A post that is sent out while the matcher is current for the phrases, which are within the limit
  -- and not empty: where the word search of the text processor finds a phrase in the text of the
  -- post, a user who has that phrase and one of the categories, and is not muted, is among those for
  -- whom the alert is enqueued, if the database answers and the table is ordered by its key.
  pub process_payload-phrase :
      (e : Encounter) (m : AlertMessage) (words : List Text) (s : Db R) (version : Option Text)
      (phrases : List Text) (matcher : CustomTriggerMatcher) (p : Text) (u : UserSettings)
      → IsSentOut P R c alarm e m words s
      → All (λ answers. answers ≡ true) e.pages
      → IsOrdered e.users
      → length (recipients P R c alarm e (categories_of P R c alarm m) words) < length e.pages
      → IsCurrent version phrases matcher
      → is_in [] phrases ≡ false
      → length phrases ≤ max_global_custom_triggers
      → e.matched_custom (searched m)
        ≡ answered (get_matches P.is_alnum version phrases (searched m) matcher).0
      → (is_in p phrases ≡ true)
        × (search (word_char P.is_alnum) false (p ∷ []) (searched m) ≡ true)
      → Includes e.users u
      → (is_in p u.trigger_words ≡ true)
        × (overlap u.potvory (categories_of P R c alarm m) ≡ true)
        × (not_muted e.now u.muted_until ≡ true)
      → (ids : List ℕ) × (process_payload P R c alarm e s ≡ (
        dispatched,
        all_enqueued P R c alarm e
            (alert_of P R c alarm m (analysis_of P R c alarm m) (is_stale P R c alarm e.now m))
            ids
            (recorded P R c alarm e m s),
      ))
        × IsIn u.user_id ids
  process_payload-phrase e m words s version phrases matcher p u sent_out answers ordered enough
        current no_empty few given (listed, found) there (has_phrase, category, loud) =
      (
        recipients P R c alarm e (categories_of P R c alarm m) words,
        process_payload-recipients P R c alarm e m words s sent_out answers ordered enough,
        phrase_reaches e m words (recorded P R c alarm e m s) version phrases matcher p u current
            no_empty few given sent_out.4 listed found there has_phrase category loud,
      )
