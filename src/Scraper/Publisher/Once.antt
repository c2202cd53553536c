-- ===== src/Scraper/Publisher/Once.antt =====
-- scraper/publisher.py and scraper/main.py: a live post is not lost and does not enter twice.
use alert_bot_project.Common.{
  ℕ, ◌+◌, ◌≤◌, ◌<◌, ◌≡◌, ◌≢◌, refl, ℤ, pos, str, Text, true, false, some, List, [], ◌∷◌, ◌++◌, All,
  arith, take, zero, suc, subst, sym, All-map, Bool-cases, inl, inr, ◌⊎◌,
}
use alert_bot_project.Redis.{word, Redis, Db, Entry, alerts_stream, job, published}
use alert_bot_project.Services.Privacy.{exists}
use alert_bot_project.Scraper.Outbox.{ScraperOutbox, find_post, put, delete}
use alert_bot_project.Scraper.Outbox.Rows.{find_post-insert_post, find_post-delete_post}
use alert_bot_project.Scraper.Publisher.{
  Call, marker_ms, publish_once, publish_message, attempts, handle_channel_post,
}

module _ (R : Redis) where
  open R use {Keys, get, set_px, xadd, entries, get-set_px, entries-xadd}

  -- The marker of a post exists at this time.
  abbrev pub IsMarked : ℤ → ℕ → ℕ → Db R → Type 0
  IsMarked chat message t s =
      exists (get t s.keys (published (str chat) (str (pos message)))) ≡ true

  publish_once-IsMarked :
      (now u : ℕ) (chat : ℤ) (message : ℕ) (payload entry_id : Text) (s : Db R)
      → now ≤ u
      → u < now + marker_ms
      → (u ≡ now) ⊎ ((publish_once R now chat message payload entry_id s).0 ≡ true)
      → IsMarked chat message u (publish_once R now chat message payload entry_id s).1
  unfolding publish_once
  publish_once-IsMarked now u chat message payload entry_id s h lt w =
      let key = published (str chat) (str (pos message)) in
      ground (arith, get-set_px now u s.keys key key (word entry_id) marker_ms)

  publish_once-known :
      (now : ℕ) (chat : ℤ) (message : ℕ) (payload entry_id : Text) (s : Db R)
      → IsMarked chat message now s
      → publish_once R now chat message payload entry_id s ≡ (false, s)
  unfolding publish_once
  publish_once-known now chat message payload entry_id s h = ground arith

  publish_once-entries :
      (now : ℕ) (chat : ℤ) (message : ℕ) (payload entry_id : Text) (s : Db R)
      → ((publish_once R now chat message payload entry_id s ≡ (false, s))
          × IsMarked chat message now s)
        ⊎ (((publish_once R now chat message payload entry_id s).0 ≡ true)
            × (entries (publish_once R now chat message payload entry_id s).1.streams alerts_stream
                ≡ entries s.streams alerts_stream ++ job payload ∷ []))
  unfolding publish_once
  publish_once-entries now chat message payload entry_id s =
      let key = published (str chat) (str (pos message)) in
      elim (Bool-cases (exists (get now s.keys key))) [
        | inl e ↦ inl (ground arith, e)
        | inr e ↦ inr (
          ground arith,
          ground (arith, entries-xadd s.streams alerts_stream alerts_stream (job payload)),
        )
      ]

  -- The payload stands in the stream of the worker.
  abbrev pub IsEntered : Text → Db R → Type 0
  IsEntered payload s =
      (front : List Entry) × (back : List Entry) × (entries s.streams alerts_stream
        ≡ front ++ job payload ∷ back)

  -- A marker of the post stands only beside its entry.
  abbrev pub IsHonest : ℤ → ℕ → Text → Db R → Type 0
  IsHonest chat message payload s = (t : ℕ) → IsMarked chat message t s → IsEntered payload s

  -- What others do before the calls keeps it so.
  abbrev pub AreHonest : ℤ → ℕ → Text → List (Call R) → Type 0
  AreHonest chat message payload cs =
      All
        (λ c.
          (s : Db R) → IsHonest chat message payload s → IsHonest chat message payload (c.before s))
        cs

  take-AreHonest :
      (chat : ℤ) (message : ℕ) (payload : Text) (n : ℕ) (cs : List (Call R))
      → AreHonest chat message payload cs
      → AreHonest chat message payload (take n cs)
  take-AreHonest chat message payload zero cs h = tt
  take-AreHonest chat message payload (suc n) [] h = tt
  take-AreHonest chat message payload (suc n) (c ∷ cs) h =
      (h.0, take-AreHonest chat message payload n cs h.1)

  -- A run of the script leaves the entry of the post, and its marker beside it.
  publish_once-IsEntered :
      (now : ℕ) (chat : ℤ) (message : ℕ) (payload entry_id : Text) (s : Db R)
      → IsHonest chat message payload s
      → IsEntered payload (publish_once R now chat message payload entry_id s).1
  publish_once-IsEntered now chat message payload entry_id s honest =
      elim (publish_once-entries now chat message payload entry_id s) [
        | inl (same, marked) ↦ subst (λ r. IsEntered payload r.1) (sym same) (honest now marked)
        | inr (_, more) ↦ (entries s.streams alerts_stream, [], more)
      ]

  -- A call leaves what the script left, or it fails and leaves what others left.
  publish_message_lem :
      (c : Call R) (chat : ℤ) (message : ℕ) (payload : Text) (s : Db R)
      → ((publish_message R c chat message payload s).1
          ≡ (publish_once R c.time chat message payload c.entry_id (c.before s)).1)
        ⊎ (((publish_message R c chat message payload s).0 ≡ false)
            × ((publish_message R c chat message payload s).1 ≡ c.before s))
  unfolding publish_message
  publish_message_lem c chat message payload s = ground arith

  attempts-IsEntered :
      (calls : List (Call R)) (chat : ℤ) (message : ℕ) (payload : Text) (s : Db R)
      → IsHonest chat message payload s
      → AreHonest chat message payload calls
      → (attempts R calls chat message payload s).0 ≡ true
      → IsEntered payload (attempts R calls chat message payload s).1
  unfolding attempts
  attempts-IsEntered [] chat message payload s honest others h = absurd (ground arith)
  attempts-IsEntered (c ∷ cs) chat message payload s honest others h =
      let s' = (publish_message R c chat message payload s).1 in
      let before_honest = others.0 s honest in
      let entered =
        publish_once-IsEntered c.time chat message payload c.entry_id (c.before s) before_honest in
      elim (publish_message_lem c chat message payload s) [
        | inl ran ↦
            let here = subst (IsEntered payload) (sym ran) entered in
            elim (Bool-cases (publish_message R c chat message payload s).0) [
              | inl fine ↦ rw fine here
              | inr failed ↦ rw failed (
                  attempts-IsEntered cs chat message payload s' (λ t m. here) others.1
                    (ground arith))
            ]
        | inr (failed, same) ↦ rw failed (
            attempts-IsEntered cs chat message payload s'
              (subst (IsHonest chat message payload) (sym same) before_honest) others.1
              (ground arith))
      ]

  -- A live post that makes a valid message, with any calls of Redis that are answered, lost or never
  -- arrive, and others that may act in between, where a marker of the post stands only beside its
  -- entry, at first and after what the others do: afterwards the post has a row in the outbox, or
  -- its payload stands in the stream of the worker; and every other row of the outbox is still there
  -- with its payload.
  pub handle_channel_post-IsSafe :
      (calls : List (Call R)) (chat : ℤ) (message : ℕ) (payload : Text) (o : ScraperOutbox)
      (s : Db R)
      → IsHonest chat message payload s
      → AreHonest chat message payload calls
      → let (o', s') = handle_channel_post R calls chat message payload o s in
        (((u : Text) × (find_post chat message o'.pending_posts ≡ some u)) ⊎ IsEntered payload s')
        × ((other : ℤ) (n : ℕ) (u : Text)
            → (other ≢ chat) ⊎ (n ≢ message)
            → find_post other n o.pending_posts ≡ some u
            → find_post other n o'.pending_posts ≡ some u)
  unfolding handle_channel_post put delete
  handle_channel_post-IsSafe calls chat message payload o s honest others =
      let rows = (put chat message payload o).pending_posts in
      elim (Bool-cases (attempts R (take 3 calls) chat message payload s).0) [
        | inl fine ↦
            let (front, back, at) =
              attempts-IsEntered (take 3 calls) chat message payload s honest
                (take-AreHonest chat message payload 3 calls others) fine in
            (
              inr (front, back, ground (arith, at)),
              λ other n u ne e.
                  let law = (find_post-delete_post chat other message n rows).1 ne in
                  let kept =
                    (find_post-insert_post chat other message n payload o.pending_posts).0 u e in
                  ground (arith, law, kept),
            )
        | inr failed ↦
            let (u, found, _) =
              (find_post-insert_post chat chat message message payload o.pending_posts).1 in
            (
              inl (u, ground (arith, found)),
              λ other n v ne e.
                  let kept =
                    (find_post-insert_post chat other message n payload o.pending_posts).0 v e in
                  ground (arith, kept),
            )
      ]

  -- Calls with no others in between, each within the marker's lifetime after every earlier one.
  abbrev pub AreAlone : List (Call R) → Type 0
  AreAlone [] = Unit
  AreAlone (c ∷ cs) =
      ((s : Db R) → c.before s ≡ s)
      × All (λ d. (c.time ≤ d.time) × (d.time < c.time + marker_ms)) cs
      × AreAlone cs

  attempts-known :
      (calls : List (Call R)) (chat : ℤ) (message : ℕ) (payload : Text) (s : Db R)
      → AreAlone calls
      → All (λ d. IsMarked chat message d.time s) calls
      → (attempts R calls chat message payload s).1 ≡ s
  unfolding attempts publish_message
  attempts-known [] chat message payload s alone marked = refl
  attempts-known (c ∷ cs) chat message payload s alone marked =
      let known = publish_once-known c.time chat message payload c.entry_id s marked.0 in
      let rest = attempts-known cs chat message payload s alone.2 marked.1 in
      ground (arith, alone.0 s, known, rest)

  run-IsMarked :
      (c : Call R) (cs : List (Call R)) (chat : ℤ) (message : ℕ) (payload : Text) (s : Db R)
      → All (λ d. (c.time ≤ d.time) × (d.time < c.time + marker_ms)) cs
      → (publish_once R c.time chat message payload c.entry_id s).0 ≡ true
      → All
          (λ d.
            IsMarked chat message d.time
              (publish_once R c.time chat message payload c.entry_id s).1)
          cs
  run-IsMarked c cs chat message payload s near added =
      All-map (λ d. (c.time ≤ d.time) × (d.time < c.time + marker_ms))
        (λ d.
          IsMarked chat message d.time (publish_once R c.time chat message payload c.entry_id s).1)
        cs
        (λ d h.
          publish_once-IsMarked c.time d.time chat message payload c.entry_id s h.0 h.1 (inr added))
        near

  attempts_next :
      (c : Call R) (cs : List (Call R)) (chat : ℤ) (message : ℕ) (payload : Text) (s : Db R)
      → c.before s ≡ s
      → let run = (publish_once R c.time chat message payload c.entry_id s).1 in
        let after = (attempts R (c ∷ cs) chat message payload s).1 in
        (after ≡ run)
        ⊎ (after ≡ (attempts R cs chat message payload run).1)
        ⊎ (after ≡ (attempts R cs chat message payload s).1)
  unfolding attempts publish_message
  attempts_next c cs chat message payload s alone = ground (arith, alone)

  -- The attempts for one post, with any outcomes of the calls, each within the replay horizon after
  -- the earlier ones and with no other change in between: the stream of the worker gets the post
  -- once or not at all, also when an answer was lost and the call was made again.
  pub attempts_once :
      (calls : List (Call R)) (chat : ℤ) (message : ℕ) (payload : Text) (s : Db R)
      → AreAlone calls
      → let after = (attempts R calls chat message payload s).1 in
        (entries after.streams alerts_stream ≡ entries s.streams alerts_stream)
        ⊎ (entries after.streams alerts_stream
            ≡ entries s.streams alerts_stream ++ job payload ∷ [])
  unfolding attempts
  attempts_once [] chat message payload s alone = inl refl
  attempts_once (c ∷ cs) chat message payload s alone =
      let run = (publish_once R c.time chat message payload c.entry_id s).1 in
      let next = attempts_next c cs chat message payload s (alone.0 s) in
      let rest = attempts_once cs chat message payload s alone.2 in
      elim (publish_once-entries c.time chat message payload c.entry_id s) [
        | inl (known, _) ↦ ground (arith, next, rest, known)
        | inr (added, more) ↦
            let still =
              attempts-known cs chat message payload run alone.2
                (run-IsMarked c cs chat message payload s alone.1 added) in
            ground (arith, next, rest, still, more)
      ]
