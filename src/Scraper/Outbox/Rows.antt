-- ===== src/Scraper/Outbox/Rows.antt =====
-- scraper/outbox.py: what a statement changes for a key.
use alert_bot_project.Common.{
  ℕ, ℤ, Text, ◌≡◌, ◌≢◌, refl, ◌⊎◌, inl, inr, Option, none, some, List, [], ◌∷◌, max, arith,
  Option-cases,
}
use alert_bot_project.Scraper.Outbox.{
  Post, Checkpoint, find_post, insert_post, delete_post, find_checkpoint, upsert_checkpoint,
}

-- A row that is there stays with its payload, and the inserted key is there.
pub find_post-insert_post :
    (chat other : ℤ) (message n : ℕ) (payload : Text) (ps : List Post)
    → ((t : Text)
        → find_post other n ps ≡ some t
        → find_post other n (insert_post chat message payload ps) ≡ some t)
      × ((t : Text) × (find_post chat message (insert_post chat message payload ps) ≡ some t)
          × ((find_post chat message ps ≡ some t) ⊎ (t ≡ payload)))
unfolding insert_post find_post
find_post-insert_post chat other message n payload ps =
    elim (Option-cases (find_post chat message ps)) [
      | inl e ↦ (λ t h. ground arith, (payload, ground arith, inr refl))
      | inr (t, e) ↦ (λ u h. ground arith, (t, ground arith, inl e))
    ]

-- Another key keeps its row when one is deleted; the deleted one is gone.
pub find_post-delete_post :
    (chat other : ℤ) (message n : ℕ) (ps : List Post)
    → (find_post chat message (delete_post chat message ps) ≡ none)
      × (((other ≢ chat) ⊎ (n ≢ message))
          → find_post other n (delete_post chat message ps) ≡ find_post other n ps)
unfolding delete_post find_post
find_post-delete_post chat other message n [] = (refl, λ h. refl)
find_post-delete_post chat other message n (p ∷ ps) =
    let rest = find_post-delete_post chat other message n ps in
    (ground (arith, rest.0), λ h. ground (arith, rest.1 h))

abbrev pub raised : Option ℕ → ℕ → ℕ
raised none m = m
raised (some c) m = max c m

-- A checkpoint is raised to the new id if it lies below, and the others stay.
pub find_checkpoint-upsert_checkpoint :
    (chat other : ℤ) (message : ℕ) (cs : List Checkpoint)
    → (find_checkpoint chat (upsert_checkpoint chat message cs)
        ≡ some (raised (find_checkpoint chat cs) message))
      × (other ≢ chat
          → find_checkpoint other (upsert_checkpoint chat message cs) ≡ find_checkpoint other cs)
unfolding upsert_checkpoint find_checkpoint
find_checkpoint-upsert_checkpoint chat other message [] = (ground arith, λ h. ground arith)
find_checkpoint-upsert_checkpoint chat other message (c ∷ cs) =
    let rest = find_checkpoint-upsert_checkpoint chat other message cs in
    (ground (arith, rest.0), λ h. ground (arith, rest.1 h))
