-- ===== src/Database/Migration/Translated.antt =====
-- database/migration.py: the rows that the migration leaves.
use alert_bot_project.Common.{
  ℕ, Text, ◌≡◌, refl, sym, ◌∙◌, ap, subst, ◌⊎◌, inl, inr, ◌↔◌, Bool, true, false, not, ◌&&◌, ◌||◌,
  some, List, [], ◌∷◌, ◌==◌, if◌then◌else◌, same, any, filter, arith, Bool-cases, Option-cases, all,
}
use alert_bot_project.Database.{UserTrigger, is_row, remove_rows}
use alert_bot_project.Database.Rows.{any-remove_rows}
use alert_bot_project.Database.Migration.{
  Translations, new_key, is_legacy, rename, collides, migrate_entry, translate, migrate_entries,
  run_legacy_keys_migration,
}

abbrev pub has : ℕ → Text → List UserTrigger → Bool
has id w ts = any (is_row id w) ts

abbrev pub is_pair : ℕ → Text → ℕ → Text → Bool
is_pair id w j v = (id == j) && same w v

is_pair_lem : (id j : ℕ) (w v : Text) → is_pair id w j v ≡ true → (id ≡ j) × (w ≡ v)
is_pair_lem id j w v h = ground arith

renamed_row :
    (id j : ℕ) (old new w : Text) (t : UserTrigger)
    → is_row j w (if is_row id old t then record { user_id = id; trigger_word = new } else t)
      ≡ ((is_row j w t && not (is_pair id old j w)) || (is_row id old t && is_pair id new j w))
renamed_row id j old new w t = ground arith

has-rename :
    (id j : ℕ) (old new w : Text) (ts : List UserTrigger)
    → has j w (rename id old new ts)
      ≡ ((has j w ts && not (is_pair id old j w)) || (has id old ts && is_pair id new j w))
unfolding rename
has-rename id j old new w [] = ground arith
has-rename id j old new w (t ∷ ts) =
    combine (is_row j w t) (has j w ts) (is_pair id old j w) (is_row id old t) (is_pair id new j w)
      (has id old ts)
      (is_row j w (if is_row id old t then record { user_id = id; trigger_word = new } else t))
      (has j w (rename id old new ts)) (renamed_row id j old new w t) (has-rename id j old new w ts)
  where
    combine :
        (a b c d e f x y : Bool)
        → x ≡ ((a && not c) || (d && e))
        → y ≡ ((b && not c) || (f && e))
        → (x || y) ≡ (((a || b) && not c) || ((d || f) && e))
    combine a b c d e f x y h k = ground arith

collided :
    (id j : ℕ) (old new w : Text) (ts : List UserTrigger)
    → collides id old new ts ≡ true
    → has j w (remove_rows id old ts)
      ≡ ((has j w ts && not (is_pair id old j w)) || (has id old ts && is_pair id new j w))
unfolding collides
collided id j old new w ts h =
    any-remove_rows id j old w ts ∙ elim (Bool-cases (is_pair id new j w)) [
      | inl e ↦
          let (who, what) = is_pair_lem id j new w e in
          let there : has j w ts ≡ true =
            subst (λ i. has i w ts ≡ true) who
              (subst (λ t. has id t ts ≡ true) what (ground arith)) in
          let other : is_pair id old j w ≡ false = ground (arith, h) in ground arith
      | inr e ↦ ground arith
    ]

pub has-migrate_entry :
    (accepts : Bool) (id j : ℕ) (old new w : Text) (ts ts' : List UserTrigger)
    → migrate_entry accepts id old new ts ≡ some ts'
    → has j w ts'
      ≡ ((has j w ts && not (is_pair id old j w)) || (has id old ts && is_pair id new j w))
unfolding migrate_entry
has-migrate_entry accepts id j old new w ts ts' h = elim (Bool-cases (collides id old new ts)) [
  | inl e ↦
      let this : remove_rows id old ts ≡ ts' = ground arith in
      ap (has j w) (sym this) ∙ collided id j old new w ts e
  | inr e ↦
      let this : rename id old new ts ≡ ts' = ground arith in
      ap (has j w) (sym this) ∙ has-rename id j old new w ts
]

-- A key of today is not a legacy word of another key.
abbrev pub IsClosed : Translations → Type 0
IsClosed m = (w : Text) → translate m (translate m w) ≡ translate m w

-- The words that a user's rows stand for, once the entries `done` are migrated.
abbrev pub so_far : Translations → List UserTrigger → ℕ → Text → Text
so_far m done j w = if has j w done then translate m w else w

abbrev pub Origin : Translations → List UserTrigger → List UserTrigger → ℕ → Text → Type 0
Origin m done first j w = (v : Text) × (has j v first ≡ true) × (so_far m done j v ≡ w)

abbrev pub Stands : Translations → List UserTrigger → List UserTrigger → List UserTrigger → Type 0
Stands m first done ts = (j : ℕ) (w : Text) → (has j w ts ≡ true) ↔ Origin m done first j w

module _ (m : Translations) (closed : IsClosed m) (first : List UserTrigger) where
  module _ (done ts ts' : List UserTrigger) (e : UserTrigger) (now : Stands m first done ts)
      (step : (j : ℕ) (w : Text)
        → has j w ts' ≡ (
            (has j w ts && not (is_pair e.user_id e.trigger_word j w))
            || (has e.user_id e.trigger_word ts
                && is_pair e.user_id (translate m e.trigger_word) j w))) where
    abbrev id : ℕ
    id = e.user_id

    abbrev old : Text
    old = e.trigger_word

    -- A word of the user that stands for `old` is `old`, or `old` is a key of today.
    pub only_old : (v : Text) → so_far m done id v ≡ old → (v ≡ old) ⊎ (translate m old ≡ old)
    only_old v h = elim (Bool-cases (has id v done)) [
      | inl e1 ↦
          let this : translate m v ≡ old = ground arith in
          inr (subst (λ t. translate m t ≡ t) this (closed v))
      | inr e1 ↦ inl (ground arith)
    ]

    is_this : ℕ → Text → Bool
    is_this j v = (id == j) && same v old

    this_lem : (j : ℕ) (v : Text) → is_this j v ≡ true → (id ≡ j) × (old ≡ v)
    unfolding is_this
    this_lem j v h = ground arith

    so_far-cons :
        (j : ℕ) (v : Text)
        → so_far m (e ∷ done) j v ≡ (if is_this j v then translate m v else so_far m done j v)
    unfolding is_this
    so_far-cons j v = ground arith

    this_pair : (j : ℕ) (v : Text) → is_this j v ≡ is_pair id old j v
    unfolding is_this
    this_pair j v = ground arith

    this_self : (v : Text) → v ≡ old → is_this id v ≡ true
    unfolding is_this
    this_self v h = ground arith

    kept_word :
        (j : ℕ) (v w : Text)
        → so_far m done j v ≡ w
        → is_this j w ≡ false
        → so_far m (e ∷ done) j v ≡ w
    kept_word j v w stands apart = elim (Bool-cases (is_this j v)) [
      | inr other ↦ ground (arith, so_far-cons j v)
      | inl this ↦ elim (Bool-cases (has j v done)) [
        | inl migrated ↦ ground (arith, so_far-cons j v)
        | inr fresh ↦
            let same_word : v ≡ w = ground arith in
            absurd (ground (arith, subst (λ t. is_this j t ≡ true) same_word this))
      ]
    ]

    step_there : (j : ℕ) (w : Text) → has j w ts' ≡ true → Origin m (e ∷ done) first j w
    step_there j w h = elim (Bool-cases (has id old ts && is_pair id (translate m old) j w)) [
      | inl hit ↦
          let (who, what) = is_pair_lem id j (translate m old) w (ground arith) in
          let (v, listed, stands) = (now id old).0 (ground arith) in
          let moved : so_far m (e ∷ done) id v ≡ w = elim (only_old v stands) [
            | inl this ↦ ground (arith, so_far-cons id v, this_self v this, ap (translate m) this)
            | inr today ↦ elim (Bool-cases (is_this id v)) [
              | inl same_word ↦
                  let (_, word) = this_lem id v same_word in
                  ground (arith, so_far-cons id v, ap (translate m) word)
              | inr other ↦ ground (arith, so_far-cons id v)
            ]
          ] in
          subst (λ i. Origin m (e ∷ done) first i w) who (v, listed, moved)
      | inr miss ↦
          let (v, listed, stands) = (now j w).0 (ground (arith, step j w)) in
          (v, listed, kept_word j v w stands (ground (arith, step j w, this_pair j w)))
    ]

    pair_true :
        (j : ℕ) (w : Text) → id ≡ j → translate m old ≡ w → is_pair id (translate m old) j w ≡ true
    pair_true j w who what = ground arith

    landed :
        (j : ℕ) (w : Text)
        → has j w ts ≡ true
        → id ≡ j
        → old ≡ w
        → (u : Text) → translate m old ≡ u
        → has j u ts' ≡ true
    landed j w there who word u what =
        let hit =
          subst (λ i. has i old ts ≡ true) (sym who)
            (subst (λ t. has j t ts ≡ true) (sym word) there) in
        ground (arith, step j u, pair_true j u who what)

    stays :
        (j : ℕ) (w : Text)
        → has j w ts ≡ true
        → (is_this j w ≡ true → translate m old ≡ w)
        → has j w ts' ≡ true
    stays j w there today = elim (Bool-cases (is_this j w)) [
      | inr apart ↦ ground (arith, step j w, this_pair j w)
      | inl clash ↦
          let (who, word) = this_lem j w clash in landed j w there who word w (today clash)
    ]

    step_back : (j : ℕ) (w : Text) → Origin m (e ∷ done) first j w → has j w ts' ≡ true
    step_back j w (v, listed, stands) = elim (Bool-cases (is_this j v)) [
      | inl this ↦
          let (who, word) = this_lem j v this in
          let target : translate m old ≡ w =
            ap (translate m) word ∙ ground (arith, so_far-cons j v) in
          let source = (now j (so_far m done j v)).1 (v, listed, refl) in
          elim (Bool-cases (has j v done)) [
            | inl migrated ↦
                let same_word : so_far m done j v ≡ w = ground (arith, ap (translate m) word) in
                stays j w (subst (λ t. has j t ts ≡ true) same_word source) (λ clash. target)
            | inr fresh ↦
                let same_word : so_far m done j v ≡ v = ground arith in
                landed j v (subst (λ t. has j t ts ≡ true) same_word source) who word w target
          ]
      | inr other ↦
          let before : so_far m done j v ≡ w = ground (arith, so_far-cons j v) in
          stays j w ((now j w).1 (v, listed, before))
            (λ clash. still_today j v w other before clash)
    ]
      where
        still_today :
            (j : ℕ) (v w : Text)
            → is_this j v ≡ false
            → so_far m done j v ≡ w
            → is_this j w ≡ true
            → translate m old ≡ w
        still_today j v w other before clash =
            let (who, word) = this_lem j w clash in
            let here : so_far m done id v ≡ old =
              subst (λ i. so_far m done i v ≡ old) (sym who) (before ∙ sym word) in
            elim (only_old v here) [
              | inl e1 ↦
                  absurd (
                    ground
                      (arith, this_self v e1, subst (λ i. is_this i v ≡ false) (sym who) other))
              | inr today ↦ today ∙ word
            ]

    pub Stands-step : Stands m first (e ∷ done) ts'
    Stands-step j w = (step_there j w, step_back j w)

  -- All entries that were read.
  Stands-entries :
      (accepts : Bool) (es done ts ts' : List UserTrigger)
      → Stands m first done ts
      → migrate_entries accepts m es ts ≡ some ts'
      → (done' : List UserTrigger) × Stands m first done' ts'
        × ((j : ℕ) (w : Text) → has j w done' ≡ (has j w es || has j w done))
  unfolding migrate_entries
  Stands-entries accepts [] done ts ts' now h =
      (done, subst (Stands m first done) (ground arith) now, λ j w. refl)
  Stands-entries accepts (e ∷ es) done ts ts' now h =
      elim (Option-cases
        (migrate_entry accepts e.user_id e.trigger_word (translate m e.trigger_word) ts)) [
          | inl failed ↦ absurd (ground arith)
          | inr (mid, moved) ↦
              let next = Stands-step done ts mid e now (λ j w.
                has-migrate_entry accepts e.user_id j e.trigger_word (translate m e.trigger_word) w
                  ts mid moved) in
              let (done', all, listed) =
                Stands-entries accepts es (e ∷ done) mid ts' next (ground arith) in
              (done', all, λ j w. ground (arith, listed j w))
        ]

has-filter :
    (m : Translations) (j : ℕ) (w : Text) (ts : List UserTrigger)
    → has j w ts ≡ true
    → (has j w (filter (is_legacy m) ts) ≡ true) ⊎ (translate m w ≡ w)
unfolding filter translate
has-filter m j w [] h = absurd (ground arith)
has-filter m j w (t ∷ ts) h = elim (Bool-cases (is_row j w t)) [
  | inr other ↦ ground (arith, has-filter m j w ts (ground arith))
  | inl here ↦
      let word : w ≡ t.trigger_word = ground arith in
      elim (Option-cases (new_key m t.trigger_word)) [
        | inl today ↦ inr (subst (λ v. translate m v ≡ v) (sym word) (ground arith))
        | inr (new, e) ↦ inl (ground arith)
      ]
]

pub Stands-first : (m : Translations) (ts : List UserTrigger) → Stands m ts [] ts
Stands-first m ts j w =
    (λ h. (w, h, refl), λ (o : Origin m [] ts j w). subst (λ t. has j t ts ≡ true) o.2 o.1)

pub translated :
    (m : Translations) (done ts : List UserTrigger) (j : ℕ) (v : Text)
    → has j v ts ≡ true
    → has j v done ≡ (has j v (filter (is_legacy m) ts) || has j v [])
    → so_far m done j v ≡ translate m v
translated m done ts j v there listed = elim (has-filter m j v ts there) [
  | inl legacy ↦ ground arith
  | inr today ↦ ground arith
]

-- A row of the user whose word becomes `w`.
abbrev pub Translation : Translations → List UserTrigger → ℕ → Text → Type 0
Translation m ts j w = (v : Text) × (has j v ts ≡ true) × (translate m v ≡ w)

-- The rows that a migration leaves, if it succeeds: every row with its word translated, and no
-- other.
pub run_legacy_keys_migration_lem :
    (accepts : Bool) (m : Translations) (ts ts' : List UserTrigger)
    → IsClosed m
    → run_legacy_keys_migration accepts m ts ≡ (true, ts')
    → (j : ℕ) (w : Text) → (has j w ts' ≡ true) ↔ Translation m ts j w
unfolding run_legacy_keys_migration
run_legacy_keys_migration_lem accepts m ts ts' closed h j w =
    elim (Option-cases (migrate_entries accepts m (filter (is_legacy m) ts) ts)) [
      | inl failed ↦ absurd (ground arith)
      | inr (mid, e) ↦
          let same_rows : mid ≡ ts' = ground arith in
          let (done, all, listed) =
            Stands-entries m closed ts accepts (filter (is_legacy m) ts) [] ts ts'
              (Stands-first m ts) (e ∙ ap (λ r. some r) same_rows) in
          let final =
            λ (v : Text) (there : has j v ts ≡ true). translated m done ts j v there (listed j v) in
          (
            λ there.
                let (v, old, stands) = (all j w).0 there in (v, old, sym (final v old) ∙ stands),
            λ (o : Translation m ts j w). (all j w).1 (o.0, o.1, final o.0 o.1 ∙ o.2),
          )
    ]
