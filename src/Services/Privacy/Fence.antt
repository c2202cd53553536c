-- ===== src/Services/Privacy/Fence.antt =====
-- After a deletion, no delivery of an earlier generation begins again.
use alert_bot_project.Common.{
  ℕ, Text, Text-discrete, codes, ◌≡◌, ◌≢◌, refl, ◌⊎◌, inl, inr, Bool, true, false, some, List, [],
  ◌∷◌, All, All-if, if◌then◌else◌, arith,
}
use alert_bot_project.Redis.{Redis, word, deleted, generation}
use alert_bot_project.Services.Privacy.Frame.{get-begin_delivery, get-end_delivery}
use alert_bot_project.Services.Privacy.{fence_deletion, begin_delivery, end_delivery, exists}

-- What may follow a deletion of one recipient, with the time: deliveries that begin with the
-- generation of their job, deliveries that end, and a registration (`/start`).
pub data Op : Type 0 where
  begin : ℕ → Text → Op
  end : ℕ → Op
  register : Op

-- No registration among the operations.
abbrev pub IsUnregistered : Op → Type 0
IsUnregistered register = ⊥
IsUnregistered _ = Unit

module _ (R : Redis) (id : Text) where
  open R use {
    Keys, get, set, del, incr, decr, expire, get-set, get-del, get-expire_ne, get-incr_ne,
    get-decr_ne,
  }

  -- bot/handlers/start.py: redis_client.delete(f"privacy:deleted:{user_id}")
  unfoldable pub unfence : Keys → Keys
  unfence s = del (deleted id) s

  perform : Op → Keys → Bool × Keys
  perform (begin t g) s = begin_delivery R t id g s
  perform (end t) s = (false, end_delivery R t id s)
  perform register s = (false, unfence s)

  -- The operations that were granted a reservation.
  pub granted : List Op → Keys → List Op
  unfolding perform
  granted [] s = []
  granted (o ∷ later) s =
      let (won, s') = perform o s in let rest = granted later s' in if won then o ∷ rest else rest

  -- The generation key holds `new` for good, and the deletion mark stands if `marked`.
  record Fenced (new : Text) (marked : Bool) (s : Keys) : Type 0 where
    fixed : (u : ℕ) → get u s (generation id) ≡ some (word new)
    mark : (u : ℕ) → marked ≡ true → exists (get u s (deleted id)) ≡ true

  fence-Fenced : (new : Text) (s : Keys) → Fenced new true (fence_deletion R id new s)
  unfolding fence_deletion
  fence-Fenced new s = record {
    fixed = λ u. ground (
      arith,
      get-set u (set (deleted id) (word (codes "1")) s) (generation id) (generation id) (word new),
    );
    mark = λ u _. ground (
      arith,
      get-set u (set (deleted id) (word (codes "1")) s) (generation id) (deleted id) (word new),
      get-set u s (deleted id) (deleted id) (word (codes "1")),
    );
  }

  perform-Fenced :
      (o : Op) (new : Text) (marked : Bool) (s : Keys)
      → (IsUnregistered o ⊎ (marked ≡ false))
      → Fenced new marked s
      → Fenced new marked (perform o s).1
  unfolding perform unfence
  perform-Fenced (begin t g) new marked s r f = record {
    fixed = λ u. ground (arith, f.fixed u, get-begin_delivery R t u id g s (generation id));
    mark = λ u m. ground (arith, f.mark u, get-begin_delivery R t u id g s (deleted id));
  }
  perform-Fenced (end t) new marked s r f = record {
    fixed = λ u. ground (arith, f.fixed u, get-end_delivery R t u id s (generation id));
    mark = λ u m. ground (arith, f.mark u, get-end_delivery R t u id s (deleted id));
  }
  perform-Fenced register new marked s r f = record {
    fixed = λ u. ground (arith, f.fixed u, get-del u s (deleted id) (generation id));
    mark = λ u m. ground (arith, r);
  }

  begin_refused :
      (t : ℕ) (g new : Text) (marked : Bool) (s : Keys)
      → ((marked ≡ true) ⊎ (g ≢ new))
      → Fenced new marked s
      → (begin_delivery R t id g s).0 ≡ false
  unfolding begin_delivery
  begin_refused t g new marked s w f = ground (arith, f.fixed t, f.mark t)

  -- A begin is with the given generation; other operations are never granted anyway.
  abbrev pub HasGeneration : Text → Op → Type 0
  HasGeneration new (begin t g) = g ≡ new
  HasGeneration new _ = Unit

  granted_now :
      (o : Op) (new : Text) (s : Keys)
      → Fenced new false s
      → (perform o s).0 ≡ true
      → HasGeneration new o
  unfolding perform
  granted_now (begin t g) new s f e = elim (Text-discrete g new) [
    | yes p ↦ p
    | no n ↦ absurd (ground (arith, begin_refused t g new false s (inr n) f))
  ]
  granted_now (end t) new s f e = tt
  granted_now register new s f e = tt

  unmarked_refused : (o : Op) (new : Text) (s : Keys) → Fenced new true s → (perform o s).0 ≡ false
  unfolding perform
  unmarked_refused (begin t g) new s f = begin_refused t g new true s (inl refl) f
  unmarked_refused (end t) new s f = refl
  unmarked_refused register new s f = refl

  granted-HasGeneration :
      (ops : List Op) (new : Text) (s : Keys)
      → Fenced new false s
      → All (HasGeneration new) (granted ops s)
  unfolding granted
  granted-HasGeneration [] new s f = tt
  granted-HasGeneration (o ∷ ops) new s f =
      All-if (HasGeneration new) (perform o s).0 o (granted ops (perform o s).1)
        (granted_now o new s f)
        (granted-HasGeneration ops new (perform o s).1 (perform-Fenced o new false s (inr refl) f))

  unregistered_none :
      (ops : List Op) (new : Text) (s : Keys)
      → All IsUnregistered ops
      → Fenced new true s
      → granted ops s ≡ []
  unfolding granted
  unregistered_none [] new s a f = refl
  unregistered_none (o ∷ ops) new s a f =
      rw not_granted
        (unregistered_none ops new (perform o s).1 a.1 (perform-Fenced o new true s (inl a.0) f))
    where
      not_granted : (perform o s).0 ≡ false
      not_granted = unmarked_refused o new s f

  -- After a deletion that draws the generation `new`: whatever begins, ends and registrations of
  -- the recipient follow, every delivery that is granted has the generation `new`, and none is
  -- granted at all while no registration follows.
  pub fence-granted :
      (new : Text) (s : Keys) (ops : List Op)
      → All (HasGeneration new) (granted ops (fence_deletion R id new s))
        × (All IsUnregistered ops → granted ops (fence_deletion R id new s) ≡ [])
  fence-granted new s ops =
      let f = fence-Fenced new s in
      (
        granted-HasGeneration ops new (fence_deletion R id new s)
            (record { fixed = f.fixed; mark = λ u e. cc }),
        λ a. unregistered_none ops new (fence_deletion R id new s) a f,
      )
