-- ===== src/Tests/Publishing.antt =====
-- Witnesses for the publication of source posts.
use alert_bot_project.Common.{
  ℕ, arith, pos, Text, codes, ◌≡◌, ◌≢◌, refl, ℤ, some, List, [], ◌∷◌, ◌++◌, ◌⊎◌,
}
use alert_bot_project.Redis.{alerts_stream, job}
use alert_bot_project.Redis.Memory.{memory}
use alert_bot_project.Scraper.Outbox.{ScraperOutbox, find_post}
use alert_bot_project.Scraper.Publisher.{Call, answered, lost, attempts, handle_channel_post}
use alert_bot_project.Scraper.Publisher.Once.{IsEntered, handle_channel_post-IsSafe, attempts_once}
use alert_bot_project.Tests.{empty_store}

-- The answer of the first call is lost, and the second is answered.
abbrev calls : List (Call memory)
calls =
    record { time = 1000; reply = lost; entry_id = codes "1-0"; before = λ s. s }
    ∷ record { time = 2000; reply = answered; entry_id = codes "2-0"; before = λ s. s }
    ∷ []

abbrev empty_outbox : ScraperOutbox
empty_outbox = record { pending_posts = []; source_checkpoints = [] }

attempts_once_example :
    (memory.entries
        (attempts memory calls (pos 1) 5 (codes "p") empty_store).1.streams
        alerts_stream
      ≡ memory.entries empty_store.streams alerts_stream)
    ⊎ (memory.entries
          (attempts memory calls (pos 1) 5 (codes "p") empty_store).1.streams
          alerts_stream
        ≡ memory.entries empty_store.streams alerts_stream ++ job (codes "p") ∷ [])
attempts_once_example =
    attempts_once memory calls (pos 1) 5 (codes "p") empty_store
      (λ s. refl, ((omega arith, omega arith), tt), (λ s. refl, tt, tt))

handle_channel_post-IsSafe_example :
    (((u : Text) × (find_post
            (pos 1)
            5
            (handle_channel_post memory calls
              (pos 1)
              5
              (codes "p")
              empty_outbox
              empty_store).0.pending_posts
          ≡ some u))
      ⊎ IsEntered memory
          (codes "p")
          (handle_channel_post memory calls (pos 1) 5 (codes "p") empty_outbox empty_store).1)
    × ((other : ℤ) (n : ℕ) (u : Text)
        → (other ≢ pos 1) ⊎ (n ≢ 5)
        → find_post other n empty_outbox.pending_posts ≡ some u
        → find_post other n
            (handle_channel_post memory calls
              (pos 1)
              5
              (codes "p")
              empty_outbox
              empty_store).0.pending_posts
          ≡ some u)
handle_channel_post-IsSafe_example =
    handle_channel_post-IsSafe memory calls (pos 1) 5 (codes "p") empty_outbox empty_store
      (λ t marked. absurd (ground arith)) (λ s h. h, (λ s h. h, tt))
