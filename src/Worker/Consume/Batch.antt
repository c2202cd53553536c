-- ===== src/Worker/Consume/Batch.antt =====
-- worker/main.py: every entry of a batch is settled, and stays so through the rest of the batch.
use alert_bot_project.Common.{
  ◌≡◌, refl, true, false, none, some, ◌⊎◌, inl, inr, List, [], ◌∷◌, arith, is_empty, Bool-cases,
  Option-cases, All, ◌≢◌,
}
use alert_bot_project.Redis.{MessageId, Redis, Db}
use alert_bot_project.Shared.Platform.{Platform}
use alert_bot_project.Services.Alarm.Poller.{Settings}
use alert_bot_project.Worker.Broadcaster.Attempt.{Config}
use alert_bot_project.Worker.Source.{database_failed, out_of_rounds, handle_db_failure}
use alert_bot_project.Worker.Source.Acknowledged.{pending_for, ack-pending}
use alert_bot_project.Worker.Source.Settled.{process_payload-IsSettled}
use alert_bot_project.Worker.Consume.{
  Handling, Handled, unread, ended, broken, is_broken, handle_entry, consume_batch,
}
use alert_bot_project.Worker.Consume.Kept.{Kept, IsPartial, consume_batch-Kept}

module _ (P : Platform) (R : Redis) (c : Config) (alarm : Settings) where
  -- An error left the handling of an entry; or the entry is acknowledged; or the database failed,
  -- and the entry was as before when `_handle_db_failure` took it; or the rounds of the model ran
  -- out.
  abbrev pub IsHandled : Handling R → Db R → Handled × Db R → Type 0
  IsHandled h s (x, s') =
      ((part : Db R → Db R) × (h.raised ≡ some part) × (x ≡ broken) × (s' ≡ part s))
      ⊎ ((pending_for P R s' h.encounter.message ≡ none)
          ⊎ ((x ≡ ended out_of_rounds)
              ⊎ ((x ≡ ended database_failed)
                  × ((before : Db R) × (pending_for P R before h.encounter.message
                        ≡ pending_for P R s h.encounter.message)
                      × (s'
                          ≡ handle_db_failure P R c alarm h.encounter.now h.encounter.message
                              h.encounter.raw_json h.encounter.error_name before)))))

  -- However the handling of an entry ends, where no error leaves it, the entry is acknowledged; or
  -- the database failed, and the entry was as before when `_handle_db_failure` took it; or the
  -- rounds of the model ran out. An error that leaves it leaves what the handling had done.
  pub handle_entry-IsSettled :
      (h : Handling R) (s : Db R) → IsHandled h s (handle_entry P R c alarm h s)
  unfolding handle_entry
  handle_entry-IsSettled h s = elim (Option-cases h.raised) [
    | inr (part, e) ↦ inl (part, e, ground (arith, e), ground (arith, e))
    | inl e ↦ elim (Bool-cases (is_empty h.encounter.raw_json)) [
      | inl b ↦ inr (inl (ground (arith, e, b, ack-pending P R s.streams h.encounter.message)))
      | inr b ↦ elim (process_payload-IsSettled P R c alarm h.encounter s) [
        | inl done ↦ inr (inl (ground (arith, e, b, done)))
        | inr (inl rounds) ↦ inr (inr (inl (ground (arith, e, b, rounds))))
        | inr (inr (failed_there, (before, same, result))) ↦ inr (
            inr (
              inr
                (ground (arith, e, b, failed_there), (before, same, ground (arith, e, b, result)))))
      ]
    ]
  ]

  -- An entry is acknowledged; or the database failed for it, or the rounds of the model ran out.
  abbrev pub Fate : Db R → Handling R → Handled → Type 0
  Fate t h x =
      (pending_for P R t h.encounter.message ≡ none)
      ⊎ ((x ≡ ended database_failed) ⊎ (x ≡ ended out_of_rounds))

  -- What a batch leaves of its entries; behind one that an error leaves, none is handled.
  abbrev pub Fates : Db R → List (Handling R) → List Handled → Type 0
  Fates t [] [] = Unit
  Fates t [] (x ∷ xs) = ⊥
  Fates t (h ∷ hs) [] = ⊥
  Fates t (h ∷ hs) (broken ∷ xs) = (h.raised ≢ none) × (xs ≡ [])
  Fates t (h ∷ hs) (x ∷ xs) = (h.raised ≡ none) × Fate t h x × Fates t hs xs

  -- The errors of a batch leave each entry as it was, or acknowledged.
  abbrev pub ArePartial : List (Handling R) → Type 0
  ArePartial hs = (m : MessageId) → All (IsPartial P R c alarm m) hs

  Fates-more :
      (t : Db R) (h : Handling R) (hs : List (Handling R)) (x : Handled) (xs : List Handled)
      → is_broken x ≡ false
      → h.raised ≡ none
      → Fate t h x
      → Fates t hs xs
      → Fates t (h ∷ hs) (x ∷ xs)
  Fates-more t h hs unread xs b none' fate rest = (none', fate, rest)
  Fates-more t h hs (ended e) xs b none' fate rest = (none', fate, rest)
  Fates-more t h hs broken xs b none' fate rest = absurd (ground arith)

  Fates-last :
      (t : Db R) (h : Handling R) (hs : List (Handling R)) (x : Handled)
      → is_broken x ≡ true
      → h.raised ≢ none
      → Fates t (h ∷ hs) (x ∷ [])
  Fates-last t h hs unread b raised = absurd (ground arith)
  Fates-last t h hs (ended e) b raised = absurd (ground arith)
  Fates-last t h hs broken b raised = (raised, refl)

  handle_entry-raised :
      (h : Handling R) (s : Db R)
      → (is_broken (handle_entry P R c alarm h s).0 ≡ true → h.raised ≢ none)
        × (is_broken (handle_entry P R c alarm h s).0 ≡ false → h.raised ≡ none)
  unfolding handle_entry
  handle_entry-raised h s = elim (Option-cases h.raised) [
    | inr (part, e) ↦ (λ b n. ground (arith, e, n), λ b. absurd (ground (arith, e, b)))
    | inl e ↦ (λ b. absurd (ground (arith, e, b)), λ b. e)
  ]

  handle_entry-Fate :
      (h : Handling R) (s t : Db R)
      → is_broken (handle_entry P R c alarm h s).0 ≡ false
      → Kept P R c alarm h.encounter.message (handle_entry P R c alarm h s).1 t
      → Fate t h (handle_entry P R c alarm h s).0
  handle_entry-Fate h s t b kept = elim (handle_entry-IsSettled h s) [
    | inl (part, e, is, _) ↦ absurd (ground (arith, b, is))
    | inr (inl done) ↦ ground (arith, done, kept)
    | inr (inr (inl rounds)) ↦ inr (inr rounds)
    | inr (inr (inr (failed_there, _))) ↦ inr (inl failed_there)
  ]

  -- A batch whose errors leave each entry as it was or acknowledged: its entries are handled in
  -- order, up to the first that an error of its handling leaves, if there is one, and none behind
  -- it is. After the batch each of the others that were handled is acknowledged, whatever the
  -- entries before and behind it did, unless the database failed for it; or the rounds of the model
  -- ran out for it.
  pub consume_batch-IsSettled :
      (hs : List (Handling R)) (s : Db R)
      → ArePartial hs
      → Fates (consume_batch P R c alarm hs s).1 hs (consume_batch P R c alarm hs s).0
  unfolding consume_batch
  consume_batch-IsSettled [] s partial = tt
  consume_batch-IsSettled (h ∷ hs) s partial =
      let (x, s') = handle_entry P R c alarm h s in
      let (xs, t) = consume_batch P R c alarm hs s' in
      elim (Bool-cases (is_broken x)) [
        | inl b ↦ rw b (Fates-last s' h hs x b ((handle_entry-raised h s).0 b))
        | inr b ↦ rw b (
            Fates-more t h hs x xs b ((handle_entry-raised h s).1 b)
              (handle_entry-Fate h s t b (
                consume_batch-Kept P R c alarm h.encounter.message hs s'
                  (partial h.encounter.message).1))
              (consume_batch-IsSettled hs s' (λ m. (partial m).1)))
      ]
