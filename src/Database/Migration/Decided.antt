-- ===== src/Database/Migration/Decided.antt =====
-- database/migration.py: on a database that takes no statement after an error, the migration
-- succeeds only where no two words of one user become one.
use alert_bot_project.Common.{
  ℕ, Text, ◌≡◌, refl, sym, ◌∙◌, ap, subst, ◌⊎◌, inl, inr, ◌↔◌, Bool, true, false, ◌&&◌, ◌||◌, some,
  List, [], ◌∷◌, same, filter, arith, Bool-cases, Option-cases, if◌then◌else◌, ◌==◌, Text-discrete,
}
use alert_bot_project.Database.{UserTrigger}
use alert_bot_project.Database.Migration.{
  Translations, migration_map, is_legacy, collides, migrate_entry, translate, migrate_entries,
  run_legacy_keys_migration,
}
use alert_bot_project.Database.Migration.Translated.{
  has, so_far, Stands, IsClosed, Stands-step, Stands-first, has-migrate_entry, Translation,
  translated, run_legacy_keys_migration_lem,
}
use alert_bot_project.Database.Migration.Succeeds.{
  NoClash, migration_map-IsClosed, run_legacy_keys_migration-succeeds,
}

-- No two words of one user stand for one word yet.
abbrev Apart : Translations → List UserTrigger → List UserTrigger → Type 0
Apart m done first =
    (j : ℕ) (v w : Text)
    → has j v first ≡ true
    → has j w first ≡ true
    → so_far m done j v ≡ so_far m done j w
    → v ≡ w

module _ (m : Translations) (first : List UserTrigger) where
  module _ (done ts : List UserTrigger) (e : UserTrigger) (now : Stands m first done ts)
      (apart : Apart m done first)
      (fine : collides e.user_id e.trigger_word (translate m e.trigger_word) ts ≡ false) where
    abbrev old : Text
    old = e.trigger_word

    -- A word changes only where it is the one of the entry, which no other word of the user meets.
    changed :
        (j : ℕ) (v w : Text)
        → has j v first ≡ true
        → has j w first ≡ true
        → (e.user_id ≡ j) × (old ≡ v)
        → so_far m done j w ≡ translate m old
        → (v ≡ w) ⊎ (so_far m done j v ≡ so_far m done j w)
    unfolding collides
    changed j v w hv hw (who, word) meets = elim (Bool-cases (has j v done)) [
      | inl migrated ↦ inr (ground (arith, ap (translate m) word))
      | inr fresh ↦
          let stays : so_far m done j v ≡ v = ground arith in
          let there : has j v ts ≡ true = (now j v).1 (v, hv, stays) in
          let met : has j (translate m old) ts ≡ true =
            (now j (translate m old)).1 (w, hw, meets) in
          let there' =
            subst (λ i. has i old ts ≡ true) (sym who)
              (subst (λ t. has j t ts ≡ true) (sym word) there) in
          let met' = subst (λ i. has i (translate m old) ts ≡ true) (sym who) met in
          let today : old ≡ translate m old = equal there' met' in
          inr (stays ∙ sym word ∙ today ∙ sym meets)
    ]
      where
        equal :
            has e.user_id old ts ≡ true
            → has e.user_id (translate m old) ts ≡ true
            → old ≡ translate m old
        equal h k = elim (Text-discrete old (translate m old)) [
          | yes eq ↦ eq
          | no ne ↦ absurd (ground (arith, fine))
        ]

    is_this : ℕ → Text → Bool
    is_this j v = (e.user_id == j) && same v old

    this_lem : (j : ℕ) (v : Text) → is_this j v ≡ true → (e.user_id ≡ j) × (old ≡ v)
    unfolding is_this
    this_lem j v h = ground arith

    so_far-cons :
        (j : ℕ) (v : Text)
        → so_far m (e ∷ done) j v ≡ (if is_this j v then translate m v else so_far m done j v)
    unfolding is_this
    so_far-cons j v = ground arith

    Apart-step : Apart m (e ∷ done) first
    Apart-step j v w hv hw one = elim (Bool-cases (is_this j v)) [
      | inl a ↦ elim (Bool-cases (is_this j w)) [
        | inl b ↦ sym (this_lem j v a).1 ∙ (this_lem j w b).1
        | inr b ↦
            let meets : so_far m done j w ≡ translate m old =
              ground
                (arith, so_far-cons j v, so_far-cons j w, ap (translate m) (this_lem j v a).1) in
            either_way v w hv hw (changed j v w hv hw (this_lem j v a) meets)
      ]
      | inr a ↦ elim (Bool-cases (is_this j w)) [
        | inl b ↦
            let meets : so_far m done j v ≡ translate m old =
              ground
                (arith, so_far-cons j v, so_far-cons j w, ap (translate m) (this_lem j w b).1) in
            sym (either_way w v hw hv (changed j w v hw hv (this_lem j w b) meets))
        | inr b ↦ apart j v w hv hw (ground (arith, so_far-cons j v, so_far-cons j w))
      ]
    ]
      where
        either_way :
            (x y : Text)
            → has j x first ≡ true
            → has j y first ≡ true
            → (x ≡ y) ⊎ (so_far m done j x ≡ so_far m done j y)
            → x ≡ y
        either_way x y hx hy (inl e1) = e1
        either_way x y hx hy (inr e1) = apart j x y hx hy e1

  refused_entry :
      (id : ℕ) (old new : Text) (ts ts' : List UserTrigger)
      → migrate_entry false id old new ts ≡ some ts'
      → collides id old new ts ≡ false
  unfolding migrate_entry
  refused_entry id old new ts ts' h = ground arith

  entries-Apart :
      IsClosed m
      → (es done ts ts' : List UserTrigger) → Stands m first done ts
      → Apart m done first
      → migrate_entries false m es ts ≡ some ts'
      → (done' : List UserTrigger) × Apart m done' first
        × ((j : ℕ) (w : Text) → has j w done' ≡ (has j w es || has j w done))
  unfolding migrate_entries
  entries-Apart closed [] done ts ts' now apart h = (done, apart, λ j w. refl)
  entries-Apart closed (e ∷ es) done ts ts' now apart h =
      elim (Option-cases
        (migrate_entry false e.user_id e.trigger_word (translate m e.trigger_word) ts)) [
          | inl failed ↦ absurd (ground arith)
          | inr (mid, moved) ↦
              let fine =
                refused_entry e.user_id e.trigger_word (translate m e.trigger_word) ts mid moved in
              let next = Stands-step m closed first done ts mid e now (λ j w.
                has-migrate_entry false e.user_id j e.trigger_word (translate m e.trigger_word) w ts
                  mid moved) in
              let (done', all, listed) =
                entries-Apart closed es (e ∷ done) mid ts' next
                  (Apart-step done ts e now apart fine) (ground arith) in
              (done', all, λ j w. ground (arith, listed j w))
        ]

succeeded-NoClash :
    (m : Translations) (ts ts' : List UserTrigger)
    → IsClosed m
    → migrate_entries false m (filter (is_legacy m) ts) ts ≡ some ts'
    → NoClash m ts
succeeded-NoClash m ts ts' closed h j v w hv hw one =
    let (done, apart, listed) =
      entries-Apart m ts closed (filter (is_legacy m) ts) [] ts ts' (Stands-first m ts)
        (λ i x y hx hy e. e) h in
    apart j v w hv hw (
      translated m done ts j v hv (listed j v)
      ∙ one
      ∙ sym (translated m done ts j w hw (listed j w)))

abbrev pub Translated : List UserTrigger → Bool × List UserTrigger → Type 0
Translated ts r =
    (r.0 ≡ true) × ((j : ℕ) (w : Text) → (has j w r.1 ≡ true) ↔ Translation migration_map ts j w)

-- How a migration ends: it fails and leaves the rows; or every row has its word translated, and
-- there is no other.
abbrev pub Decided : List UserTrigger → Bool × List UserTrigger → Type 0
Decided ts r = (r ≡ (false, ts)) ⊎ Translated ts r

run_cases :
    (ts : List UserTrigger)
    → (run_legacy_keys_migration false migration_map ts ≡ (false, ts))
      ⊎ ((ts' : List UserTrigger) × (run_legacy_keys_migration false migration_map ts ≡ (true, ts'))
          × (migrate_entries false migration_map (filter (is_legacy migration_map) ts) ts
              ≡ some ts'))
unfolding run_legacy_keys_migration
run_cases ts =
    elim (Option-cases
      (migrate_entries false migration_map (filter (is_legacy migration_map) ts) ts)) [
        | inl e ↦ inl (ground arith)
        | inr (ts', e) ↦ inr (ts', ground arith, e)
      ]

-- On a database that takes no statement after an error, the migration of the legacy words succeeds
-- exactly where no two words of one user become one; then every row has its word translated, and
-- there is no other, and otherwise the rows stay as they were.
pub run_legacy_keys_migration-Decided :
    (ts : List UserTrigger)
    → (((run_legacy_keys_migration false migration_map ts).0 ≡ true) ↔ NoClash migration_map ts)
      × Decided ts (run_legacy_keys_migration false migration_map ts)
run_legacy_keys_migration-Decided ts = (
  (
    λ ok. elim (run_cases ts) [
      | inl failed ↦ absurd (ground arith)
      | inr (ts', e, whole) ↦ succeeded-NoClash migration_map ts ts' migration_map-IsClosed whole
    ],
    λ apart. ap (λ r. r.0) (run_legacy_keys_migration-succeeds false ts apart).1,
  ),
  elim (run_cases ts) [
    | inl failed ↦ inl failed
    | inr (ts', e, whole) ↦ inr (
        subst (Translated ts) (sym e)
          (refl, run_legacy_keys_migration_lem false migration_map ts ts' migration_map-IsClosed e))
  ],
)
