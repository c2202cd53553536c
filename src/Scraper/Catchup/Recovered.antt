-- ===== src/Scraper/Catchup/Recovered.antt =====
-- scraper/catchup.py: what a scan of the history leaves in the outbox.
use alert_bot_project.Common.{
  ℕ, ◌≤◌, ◌<◌, ◌≡◌, ◌≢◌, refl, sym, subst, ℤ, Text, true, false, Option, none, some, List, [], ◌∷◌,
  All, All-map, arith, Option-cases, Bool-cases, inl, inr, ◌⊎◌, max, leb,
}
use alert_bot_project.Scraper.Outbox.{
  ScraperOutbox, find_post, put, checkpoint, advance_checkpoint, upsert_checkpoint,
}
use alert_bot_project.Scraper.Outbox.Rows.{find_post-insert_post, find_checkpoint-upsert_checkpoint}
use alert_bot_project.Scraper.Catchup.{
  HistoryMessage, payload_of, put_payload, counted, scan, raise_to, catch_up_channel,
}

-- The ids of a history fall.
abbrev pub IsNewestFirst : List HistoryMessage → Type 0
IsNewestFirst [] = Unit
IsNewestFirst (m ∷ ms) = All (λ x. x.id < m.id) ms × IsNewestFirst ms

-- The rows of one outbox are rows of the other.
abbrev pub Keeps : ScraperOutbox → ScraperOutbox → Type 0
Keeps o o' =
    (chat : ℤ) (n : ℕ) (t : Text)
    → find_post chat n o.pending_posts ≡ some t
    → find_post chat n o'.pending_posts ≡ some t

module _ (dump : ℕ → ℤ → Text → ℕ → Text) where
  -- A post after the checkpoint with a time, a text and a valid message has a row.
  abbrev pub HasRow : ℕ → ℤ → ℕ → ScraperOutbox → HistoryMessage → Type 0
  HasRow now chat c o m =
      (at : ℕ) (t : Text)
      → c < m.id
      → m.date ≡ some at
      → payload_of dump now chat m at ≡ some t
      → (u : Text) × (find_post chat m.id o.pending_posts ≡ some u)

  put_payload-Keeps :
      (chat : ℤ) (n : ℕ) (p : Option Text) (o : ScraperOutbox)
      → Keeps o (put_payload dump chat n p o)
        × ((put_payload dump chat n p o).source_checkpoints ≡ o.source_checkpoints)
  unfolding put_payload put
  put_payload-Keeps chat n none o = (λ c k t h. h, refl)
  put_payload-Keeps chat n (some p) o =
      (λ c k t h. (find_post-insert_post chat c n k p o.pending_posts).0 t h, refl)

  scan-Keeps :
      (now : ℕ) (chat : ℤ) (from : Option ℕ) (ms : List HistoryMessage) (k : ℕ) (o : ScraperOutbox)
      → Keeps o (scan dump now chat from ms k o).2
        × ((scan dump now chat from ms k o).2.source_checkpoints ≡ o.source_checkpoints)
  unfolding scan
  scan-Keeps now chat from [] k o = (λ c n t h. h, refl)
  scan-Keeps now chat from (m ∷ ms) k o = elim (Option-cases m.date) [
    | inl e ↦ (λ c n t h. ground arith, ground arith)
    | inr (at, e) ↦
        let payload = payload_of dump now chat m at in
        let here = put_payload-Keeps chat m.id payload o in
        let rest =
          scan-Keeps now chat from ms (counted dump payload k)
            (put_payload dump chat m.id payload o) in
        (λ c n t h. ground (arith, rest.0 c n t (here.0 c n t h)), ground (arith, rest.1, here.1))
  ]

  -- Posts at or before the checkpoint need no row.
  passed-HasRow :
      (now : ℕ) (chat : ℤ) (c : ℕ) (o : ScraperOutbox) (m : HistoryMessage)
      → m.id ≤ c
      → HasRow now chat c o m
  passed-HasRow now chat c o m h at t lt d p = absurd (omega arith)

  passed_history :
      (now : ℕ) (chat : ℤ) (c : ℕ) (o : ScraperOutbox) (m : HistoryMessage)
      (ms : List HistoryMessage)
      → m.id ≤ c
      → IsNewestFirst (m ∷ ms)
      → All (HasRow now chat c o) (m ∷ ms)
  passed_history now chat c o m ms h newest = (
    passed-HasRow now chat c o m h,
    All-map (λ x. x.id < m.id) (HasRow now chat c o) ms
        (λ x lt. passed-HasRow now chat c o x (omega arith)) newest.0,
  )

  put-HasRow :
      (now : ℕ) (chat : ℤ) (c : ℕ) (o o' : ScraperOutbox) (m : HistoryMessage) (at : ℕ)
      → m.date ≡ some at
      → Keeps (put_payload dump chat m.id (payload_of dump now chat m at) o) o'
      → HasRow now chat c o' m
  unfolding put_payload put
  put-HasRow now chat c o o' m at d keeps at' t lt d' p =
      let same : payload_of dump now chat m at ≡ some t = ground arith in
      let (u, found, _) = (find_post-insert_post chat chat m.id m.id t o.pending_posts).1 in
      (u, keeps chat m.id u (ground arith))

  scan_next :
      (now : ℕ) (chat : ℤ) (c : ℕ) (m : HistoryMessage) (ms : List HistoryMessage) (k : ℕ)
      (o : ScraperOutbox) (at : ℕ)
      → leb m.id c ≡ false
      → m.date ≡ some at
      → let payload = payload_of dump now chat m at in
        scan dump now chat (some c) (m ∷ ms) k o
        ≡ scan dump now chat
            (some c)
            ms
            (counted dump payload k)
            (put_payload dump chat m.id payload o)
  unfolding scan
  scan_next now chat c m ms k o at e d = ground arith

  scan-HasRow :
      (now : ℕ) (chat : ℤ) (c : ℕ) (ms : List HistoryMessage) (k : ℕ) (o : ScraperOutbox)
      → IsNewestFirst ms
      → (scan dump now chat (some c) ms k o).0 ≡ true
      → All (HasRow now chat c (scan dump now chat (some c) ms k o).2) ms
  unfolding scan
  scan-HasRow now chat c [] k o newest fine = tt
  scan-HasRow now chat c (m ∷ ms) k o newest fine = elim (Bool-cases (leb m.id c)) [
    | inl e ↦
        passed_history now chat c (scan dump now chat (some c) (m ∷ ms) k o).2 m ms (ground arith)
          newest
    | inr e ↦ elim (Option-cases m.date) [
      | inl d ↦ absurd (ground arith)
      | inr (at, d) ↦
          let payload = payload_of dump now chat m at in
          let o1 = put_payload dump chat m.id payload o in
          let k1 = counted dump payload k in
          let rest = scan-HasRow now chat c ms k1 o1 newest.1 (ground arith) in
          let keeps = (scan-Keeps now chat (some c) ms k1 o1).0 in
          let here =
            put-HasRow now chat c o (scan dump now chat (some c) ms k1 o1).2 m at d keeps in
          subst (λ r. All (HasRow now chat c r.2) (m ∷ ms))
            (sym (scan_next now chat c m ms k o at e d)) (here, rest)
    ]
  ]

  catch_up_lem :
      (now : ℕ) (chat : ℤ) (history : List HistoryMessage) (o : ScraperOutbox)
      → let (found, o') = catch_up_channel dump now chat history o in
        let done = scan dump now chat (checkpoint chat o) history 0 o in
        (o'.pending_posts ≡ done.2.pending_posts) × (found ≢ none → done.0 ≡ true)
  unfolding catch_up_channel raise_to advance_checkpoint
  catch_up_lem now chat [] o = (ground arith, λ h. ground arith)
  catch_up_lem now chat (m ∷ ms) o = (ground arith, λ h. ground arith)

  -- A run that ends without the error, over a history with falling ids, when the channel has the
  -- checkpoint c: every post of the history after c that has a time, a text and makes a valid
  -- message has a row in the outbox.
  pub catch_up_channel-HasRow :
      (now : ℕ) (chat : ℤ) (history : List HistoryMessage) (o : ScraperOutbox) (n c : ℕ)
      → (catch_up_channel dump now chat history o).0 ≡ some n
      → checkpoint chat o ≡ some c
      → IsNewestFirst history
      → All (HasRow now chat c (catch_up_channel dump now chat history o).1) history
  catch_up_channel-HasRow now chat history o n c e h newest =
      let (rows, fine) = catch_up_lem now chat history o in
      let done : (scan dump now chat (some c) history 0 o).0 ≡ true =
        subst (λ x. (scan dump now chat x history 0 o).0 ≡ true) h (fine (ground arith)) in
      All-map (HasRow now chat c (scan dump now chat (some c) history 0 o).2)
        (HasRow now chat c (catch_up_channel dump now chat history o).1) history
        (λ m has at t lt d p. let (u, found) = has at t lt d p in (u, ground (arith, rows)))
        (scan-HasRow now chat c history 0 o newest done)

  catch_up_checkpoints :
      (now : ℕ) (chat : ℤ) (history : List HistoryMessage) (o : ScraperOutbox)
      → let (found, o') = catch_up_channel dump now chat history o in
        (o'.source_checkpoints ≡ o.source_checkpoints)
        ⊎ ((n : ℕ) × (o'.source_checkpoints ≡ upsert_checkpoint chat n o.source_checkpoints)
            × (found ≢ none))
  unfolding catch_up_channel raise_to advance_checkpoint
  catch_up_checkpoints now chat [] o =
      let kept = (scan-Keeps now chat (checkpoint chat o) [] 0 o).1 in inl (ground (arith, kept))
  catch_up_checkpoints now chat (m ∷ ms) o =
      let done = scan dump now chat (checkpoint chat o) (m ∷ ms) 0 o in
      let kept = (scan-Keeps now chat (checkpoint chat o) (m ∷ ms) 0 o).1 in
      elim (Bool-cases done.0) [
        | inl e ↦ inr (m.id, ground (arith, kept), ground arith)
        | inr e ↦ inl (ground (arith, kept))
      ]

  -- Whatever the history: a run keeps every row of the outbox with its payload, never lowers the
  -- checkpoint of the channel, and leaves all checkpoints as they are when it ends with the error.
  pub catch_up_channel-Keeps :
      (now : ℕ) (chat : ℤ) (history : List HistoryMessage) (o : ScraperOutbox) (c : ℕ)
      → checkpoint chat o ≡ some c
      → let (found, o') = catch_up_channel dump now chat history o in
        Keeps o o'
        × ((d : ℕ) × (checkpoint chat o' ≡ some d) × (c ≤ d))
        × (found ≡ none → o'.source_checkpoints ≡ o.source_checkpoints)
  unfolding checkpoint
  catch_up_channel-Keeps now chat history o c h =
      let rows = (catch_up_lem now chat history o).0 in
      let kept = (scan-Keeps now chat (checkpoint chat o) history 0 o).0 in
      (
        λ k n t e. ground (arith, rows, kept k n t e),
        elim (catch_up_checkpoints now chat history o) [
          | inl same ↦ (c, ground arith, omega arith)
          | inr (n, up, _) ↦
              let law = (find_checkpoint-upsert_checkpoint chat chat n o.source_checkpoints).0 in
              (max c n, ground (arith, law), ground arith)
        ],
        λ failed. elim (catch_up_checkpoints now chat history o) [
          | inl same ↦ same
          | inr (n, up, fine) ↦ absurd (fine failed)
        ],
      )
