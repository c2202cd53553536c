-- ===== src/Database/Migration/Succeeds.antt =====
-- database/migration.py: the migration succeeds unless two words of one user become one.
use alert_bot_project.Common.{
  ℕ, Text, Text-discrete, ◌≡◌, refl, sym, ◌∙◌, ap, subst, inl, inr, ◌↔◌, Bool, true, false, ◌&&◌,
  some, List, [], ◌∷◌, same, filter, arith, Bool-cases, Option-cases, ℕ_discrete,
}
use alert_bot_project.Database.{UserTrigger}
use alert_bot_project.Database.Migration.{
  Translations, migration_map, new_key, is_legacy, rename, collides, migrate_entry, translate,
  migrate_entries, run_legacy_keys_migration,
}
use alert_bot_project.Database.Migration.Translated.{
  has, so_far, Stands, IsClosed, Stands-step, Stands-first, has-migrate_entry, Translation,
  run_legacy_keys_migration_lem,
}

-- Every key of the map is a word that stays.
closed_check : Translations → Translations → Bool
closed_check m [] = true
closed_check m ((old, new) ∷ rest) = same (translate m new) new && closed_check m rest

closed_check_lem :
    (m rest : Translations) (w new : Text)
    → closed_check m rest ≡ true
    → new_key rest w ≡ some new
    → translate m new ≡ new
unfolding closed_check new_key
closed_check_lem m [] w new h e = absurd (ground arith)
closed_check_lem m ((o, n) ∷ rest) w new h e = elim (Bool-cases (same o w)) [
  | inl here ↦
      let this : n ≡ new = ground arith in subst (λ t. translate m t ≡ t) this (ground arith)
  | inr there ↦ closed_check_lem m rest w new (ground arith) (ground arith)
]

closed_check-IsClosed : (m : Translations) → closed_check m m ≡ true → IsClosed m
unfolding translate
closed_check-IsClosed m h w = elim (Option-cases (new_key m w)) [
  | inl none_there ↦ ground arith
  | inr (new, e) ↦ ground (arith, closed_check_lem m m w new h e)
]

migration_map_checked : closed_check migration_map migration_map ≡ true
unfolding closed_check translate Text-discrete ℕ_discrete
migration_map_checked = refl

pub migration_map-IsClosed : IsClosed migration_map
migration_map-IsClosed = closed_check-IsClosed migration_map migration_map_checked

pub migrate_entries-some :
    (accepts : Bool) (m : Translations) (e : UserTrigger) (es ts mid : List UserTrigger)
    → migrate_entry accepts e.user_id e.trigger_word (translate m e.trigger_word) ts ≡ some mid
    → migrate_entries accepts m (e ∷ es) ts ≡ migrate_entries accepts m es mid
unfolding migrate_entries
migrate_entries-some accepts m e es ts mid h = ground arith

-- No two words of one user become one.
abbrev pub NoClash : Translations → List UserTrigger → Type 0
NoClash m ts =
    (j : ℕ) (v w : Text)
    → has j v ts ≡ true
    → has j w ts ≡ true
    → translate m v ≡ translate m w
    → v ≡ w

module _ (m : Translations) (closed : IsClosed m) (first : List UserTrigger)
    (apart : NoClash m first) where
  translated_so_far :
      (done : List UserTrigger) (j : ℕ) (v : Text) → translate m (so_far m done j v) ≡ translate m v
  translated_so_far done j v = elim (Bool-cases (has j v done)) [
    | inl e ↦ ap (translate m) (ground arith) ∙ closed v
    | inr e ↦ ap (translate m) (ground arith)
  ]

  no_collision :
      (done ts : List UserTrigger) (j : ℕ) (old : Text)
      → Stands m first done ts
      → collides j old (translate m old) ts ≡ false
  unfolding collides
  no_collision done ts j old now = elim (Bool-cases (collides j old (translate m old) ts)) [
    | inr fine ↦ ground arith
    | inl clash ↦
        let (v, listed, stands) = (now j (translate m old)).0 (ground arith) in
        let (u, listed', stands') = (now j old).0 (ground arith) in
        let one : translate m v ≡ translate m u =
          sym (translated_so_far done j v)
          ∙ ap (translate m) stands
          ∙ closed old
          ∙ ap (translate m) (sym stands')
          ∙ translated_so_far done j u in
        let both : v ≡ u = apart j v u listed listed' one in
        let same_word : translate m old ≡ old = sym stands ∙ ap (so_far m done j) both ∙ stands' in
        absurd (ground arith)
  ]

  entries_succeed :
      (accepts : Bool) (es done ts : List UserTrigger)
      → Stands m first done ts
      → (ts' : List UserTrigger) × (migrate_entries accepts m es ts ≡ some ts')
  unfolding migrate_entries migrate_entry
  entries_succeed accepts [] done ts now = (ts, refl)
  entries_succeed accepts (e ∷ es) done ts now =
      let id = e.user_id in
      let old = e.trigger_word in
      let mid = rename id old (translate m old) ts in
      let moved : migrate_entry accepts id old (translate m old) ts ≡ some mid =
        ground (arith, no_collision done ts id old now) in
      let next =
        Stands-step m closed first done ts mid e now
          (λ j w. has-migrate_entry accepts id j old (translate m old) w ts mid moved) in
      let (ts', rest) = entries_succeed accepts es (e ∷ done) mid next in
      (ts', migrate_entries-some accepts m e es ts mid moved ∙ rest)

run_some :
    (accepts : Bool) (m : Translations) (ts ts' : List UserTrigger)
    → migrate_entries accepts m (filter (is_legacy m) ts) ts ≡ some ts'
    → run_legacy_keys_migration accepts m ts ≡ (true, ts')
unfolding run_legacy_keys_migration
run_some accepts m ts ts' e = ground arith

-- Where no two words of one user become one, the migration succeeds, whether or not the database
-- takes a statement after an error, and leaves every row with its word translated, and no other.
pub run_legacy_keys_migration-succeeds :
    (accepts : Bool) (ts : List UserTrigger)
    → NoClash migration_map ts
    → (ts' : List UserTrigger) × (run_legacy_keys_migration accepts migration_map ts ≡ (true, ts'))
      × ((j : ℕ) (w : Text) → (has j w ts' ≡ true) ↔ Translation migration_map ts j w)
run_legacy_keys_migration-succeeds accepts ts apart =
    let m = migration_map in
    let (ts', e) =
      entries_succeed m migration_map-IsClosed ts apart accepts (filter (is_legacy m) ts) [] ts
        (Stands-first m ts) in
    let done = run_some accepts m ts ts' e in
    (ts', done, run_legacy_keys_migration_lem accepts m ts ts' migration_map-IsClosed done)
