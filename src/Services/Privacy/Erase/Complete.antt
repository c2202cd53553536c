-- ===== src/Services/Privacy/Erase/Complete.antt =====
-- services/privacy.py: what a deletion leaves of a user.
use alert_bot_project.Common.{
  ℕ, zero, suc, ◌<◌, ◌≡◌, refl, ap, ◌∙◌, ℤ, Text, Bool, true, not, ◌&&◌, Option, none, List, [],
  ◌∷◌, ◌++◌, filter, take, drop, length, is_in, ltb, if◌then◌else◌, arith, if_true, if_false,
  lt→ltb, ge→ltb, dec_lt, sym, subst, false, ◌==◌, ◌⊎◌,
}
use alert_bot_project.Redis.{Redis}
use alert_bot_project.Shared.Json.{Json}
use alert_bot_project.Shared.Platform.{Platform}
use alert_bot_project.Services.Privacy.Erase.{
  StreamEntry, Deletion, reading, names_user, scrub_stream, is_obsolete, scrub_delayed, scrub_both,
  Data, done, delete_user_data_locked, delete_rows,
}
use alert_bot_project.Database.{Tables}
use alert_bot_project.Services.Privacy.Erase.Gone.{
  Without, filter-Without, IsFor, IsObsolete, names_user-IsFor, is_obsolete-IsObsolete,
}

module _ (P : Platform) (R : Redis) (int_of : Json → Option ℤ) where
  open R use {Keys, Streams, Sorted, score, zrem, score-zrem}

  abbrev keeps : ℕ → StreamEntry → Bool
  keeps user e = not (names_user P R int_of user e)

  -- A page and what follows it, filtered one after the other.
  filter-take-drop :
      (user n : ℕ) (es : List StreamEntry)
      → filter (keeps user) (take n es) ++ filter (keeps user) (drop n es) ≡ filter (keeps user) es
  unfolding filter
  filter-take-drop user zero es = refl
  filter-take-drop user (suc n) [] = refl
  filter-take-drop user (suc n) (e ∷ es) = ground (arith, filter-take-drop user n es)

  take_short : (n : ℕ) (es : List StreamEntry) → length (take n es) < n → take n es ≡ es
  take_short zero es h = absurd (omega arith)
  take_short (suc n) [] h = refl
  take_short (suc n) (e ∷ es) h = ap (λ t. e ∷ t) (take_short n es (omega arith))

  length-drop-lt :
      (n : ℕ) (es : List StreamEntry) → 0 < n → 0 < length es → length (drop n es) < length es
  length-drop-lt zero es h k = absurd (omega arith)
  length-drop-lt (suc n) [] h k = absurd (omega arith)
  length-drop-lt (suc zero) (e ∷ es) h k = omega arith
  length-drop-lt (suc (suc n)) (e ∷ []) h k = omega arith
  length-drop-lt (suc (suc n)) (e ∷ f ∷ es) h k =
      omega (arith, length-drop-lt (suc n) (f ∷ es) (omega arith) (omega arith))

  -- With fuel for more rounds than there are entries, the loop ends and keeps exactly the entries that
  -- do not name the user.
  scrub_stream_lem :
      (fuel user : ℕ) (es : List StreamEntry)
      → length es < fuel
      → scrub_stream P R int_of fuel user es ≡ (true, filter (keeps user) es)
  unfolding scrub_stream
  scrub_stream_lem zero user es h = absurd (omega arith)
  scrub_stream_lem (suc fuel) user [] h = refl
  scrub_stream_lem (suc fuel) user (e ∷ es) h =
      let page = take 500 (e ∷ es) in
      let later = drop 500 (e ∷ es) in
      elim (dec_lt (length page) 500) [
        | yes short ↦
            if_true (ltb (length page) 500) _ _ (lt→ltb (length page) 500 short)
            ∙ ap (λ t. (true, filter (keeps user) t)) (take_short 500 (e ∷ es) short)
        | no full ↦
            let fewer = length-drop-lt 500 (e ∷ es) (omega arith) (omega arith) in
            let rest = scrub_stream_lem fuel user later (omega (arith, h, fewer)) in
            if_false (ltb (length page) 500) _ _ (ge→ltb (length page) 500 full)
            ∙ ap (λ r. (r.0, filter (keeps user) page ++ r.1)) rest
            ∙ ap (λ t. (true, t)) (filter-take-drop user 500 (e ∷ es))
      ]

  scrub_delayed_lem :
      (user : ℕ) (g : Text) (ms : List Text) (z : Sorted) (q : Text)
      → (scrub_delayed P R int_of user g ms z).0 ≡ true
      → score (scrub_delayed P R int_of user g ms z).1 q ≡ (
          if is_in q ms && is_obsolete P R int_of user g (reading P R int_of q)
          then none
          else score z q)
  unfolding scrub_delayed
  scrub_delayed_lem user g [] z q h = ground arith
  scrub_delayed_lem user g (m ∷ ms) z q h =
      let z' = if is_obsolete P R int_of user g (reading P R int_of m) then zrem m z else z in
      ground (arith, h, scrub_delayed_lem user g ms z' q, score-zrem z m q)

  entries-Without :
      (user : ℕ) (es : List StreamEntry)
      → Without (IsFor P R int_of user) es (filter (keeps user) es)
  entries-Without user es = filter-Without (IsFor P R int_of user) (keeps user) es (λ e.
      let (is_for, back) = names_user-IsFor P R int_of user e in
      (λ h. is_for (ground arith), λ h x. ground (arith, back x)))

  delete_rows-Without :
      (user : ℕ) (db : Tables)
      → Without
          (λ u. u.user_id ≡ user)
          db.user_settings
          (delete_rows P R int_of user db).user_settings
        × Without
            (λ t. t.user_id ≡ user)
            db.user_triggers
            (delete_rows P R int_of user db).user_triggers
        × Without
            (λ a. a.user_id ≡ user)
            db.user_activity_daily
            (delete_rows P R int_of user db).user_activity_daily
  unfolding delete_rows
  delete_rows-Without user db = (
    filter-Without (λ u. u.user_id ≡ user) (λ u. not (u.user_id == user)) db.user_settings
        (λ u. (λ h. ground arith, λ h e. ground arith)),
    filter-Without (λ t. t.user_id ≡ user) (λ t. not (t.user_id == user)) db.user_triggers
        (λ u. (λ h. ground arith, λ h e. ground arith)),
    filter-Without (λ a. a.user_id ≡ user) (λ a. not (a.user_id == user)) db.user_activity_daily
        (λ u. (λ h. ground arith, λ h e. ground arith)),
  )

  -- What a deletion leaves of the tables, of the two streams and of the delayed set.
  pub record IsForgotten (user : ℕ) (before after : Data P R int_of) (m : Deletion Keys)
      : Type 0 where
    pub settings :
        Without (λ u. u.user_id ≡ user) before.tables.user_settings after.tables.user_settings
    pub triggers :
        Without (λ t. t.user_id ≡ user) before.tables.user_triggers after.tables.user_triggers
    pub activity :
        Without
          (λ a. a.user_id ≡ user)
          before.tables.user_activity_daily
          after.tables.user_activity_daily
    pub delivery : Without (IsFor P R int_of user) before.delivery after.delivery
    pub dead_letters : Without (IsFor P R int_of user) before.dead_letters after.dead_letters
    pub removed :
        (q : Text)
        → is_in q m.members ≡ true
        → IsObsolete P R int_of user m.generation q
        → score after.delayed q ≡ none
    pub left :
        (q : Text)
        → (is_in q m.members ≡ false) ⊎ (¬ IsObsolete P R int_of user m.generation q)
        → score after.delayed q ≡ score before.delayed q

  -- A deletion that reports success has deleted, in the three tables, the rows of the user and no
  -- other; of the two streams, the entries whose payload is an object with the user as its chat, and
  -- no other; and of the delayed set, the payloads found by the scan that are of the user and of
  -- another generation than the new one, and no other; with fuel for more pages than the streams
  -- have entries.
  pub delete_user_data_locked-IsForgotten :
      (fuel user : ℕ) (m : Deletion Keys) (d : Data P R int_of)
      → length d.delivery < fuel
      → length d.dead_letters < fuel
      → (delete_user_data_locked P R int_of fuel user m d).0 ≡ done
      → IsForgotten user d (delete_user_data_locked P R int_of fuel user m d).1 m
  unfolding delete_user_data_locked scrub_both
  delete_user_data_locked-IsForgotten fuel user m d h k finished =
      let after = (delete_user_data_locked P R int_of fuel user m d).1 in
      let tables : after.tables ≡ delete_rows P R int_of user d.tables = ground (arith, finished) in
      let (settings, triggers, activity) = delete_rows-Without user d.tables in
      let delivery : after.delivery ≡ filter (keeps user) d.delivery =
        ground (arith, finished, scrub_stream_lem fuel user d.delivery h) in
      let letters : after.dead_letters ≡ filter (keeps user) d.dead_letters =
        ground (arith, finished, scrub_stream_lem fuel user d.dead_letters k) in
      let scanned = scrub_delayed_lem user m.generation m.members d.delayed in
      record {
        settings =
            subst (λ t. Without (λ u. u.user_id ≡ user) d.tables.user_settings t.user_settings)
              (sym tables) settings;
        triggers =
            subst (λ t. Without (λ u. u.user_id ≡ user) d.tables.user_triggers t.user_triggers)
              (sym tables) triggers;
        activity =
            subst
              (λ t.
                Without (λ u. u.user_id ≡ user) d.tables.user_activity_daily t.user_activity_daily)
              (sym tables) activity;
        delivery =
            subst (Without (IsFor P R int_of user) d.delivery) (sym delivery)
              (entries-Without user d.delivery);
        dead_letters =
            subst (Without (IsFor P R int_of user) d.dead_letters) (sym letters)
              (entries-Without user d.dead_letters);
        removed = λ q found obsolete.
            let test = (is_obsolete-IsObsolete P R int_of user m.generation q).1 obsolete in
            ground (arith, finished, scanned q);
        left = λ q other.
            let test = (is_obsolete-IsObsolete P R int_of user m.generation q).0 in
            ground (arith, finished, scanned q, test, other);
      }
