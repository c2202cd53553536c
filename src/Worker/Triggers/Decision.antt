-- ===== src/Worker/Triggers/Decision.antt =====
-- worker/main.py: when a post is not sent out, and the words that it is sent out for.
use alert_bot_project.Common.{
  Text, codes, ◌≡◌, ◌≢◌, ◌↔◌, ◌⊎◌, Bool, true, false, none, some, List, [], ◌∷◌, ◌++◌, arith,
}
use alert_bot_project.Worker.Triggers.{resolve_trigger_words}

-- A post is not sent out exactly when it names no place and no phrase of a user and, besides, there
-- is no official alarm or no category; or when there is no official alarm and no category. One
-- that is sent out goes to the subscribers of its places and phrases, or to those of the whole
-- city, and then it names neither, an official alarm is active and it has a category.
pub resolve_trigger_words_lem :
    (categories locations matched : List Text) (alarm : Bool)
    → ((resolve_trigger_words categories locations matched alarm ≡ none) ↔ (
        ((locations ≡ []) × (matched ≡ []) × ((alarm ≡ false) ⊎ (categories ≡ [])))
        ⊎ ((alarm ≡ false) × (categories ≡ []))))
      × ((words : List Text)
          → resolve_trigger_words categories locations matched alarm ≡ some words
          → (words ≡ locations ++ matched)
            ⊎ ((words ≡ codes "city" ∷ [])
                × (locations ≡ [])
                × (matched ≡ [])
                × (alarm ≡ true)
                × (categories ≢ [])))
unfolding resolve_trigger_words
resolve_trigger_words_lem categories locations matched alarm =
    ((λ h. ground arith, λ h. ground arith), λ words h. ground arith)
