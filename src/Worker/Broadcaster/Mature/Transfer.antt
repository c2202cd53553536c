-- ===== src/Worker/Broadcaster/Mature/Transfer.antt =====
-- worker/broadcaster.py, POP_MATURE_TASKS_LUA: what one transfer of due payloads does.
use alert_bot_project.Common.{ℕ, ◌≡◌, Text, none, List, [], ◌∷◌, ◌++◌, All, ◌⊎◌}
use alert_bot_project.Redis.{Redis, Db, Entry, job, delivery_stream}
use alert_bot_project.Shared.Platform.{Platform}
use alert_bot_project.Worker.Broadcaster.Recipient.{Names, IsNameless, IsFree, IsFenced}

module _ (P : Platform) (R : Redis) where
  open R use {Keys, entries, score, due, xadd, zrem, entries-xadd, score-zrem, length-due}

  -- The payload names a recipient that is free, or names none.
  abbrev pub Passes : ℕ → Keys → Text → Type 0
  Passes now k e =
      ((chat : Text) × (g : Text) × Names P e chat g × IsFree R now chat g k) ⊎ IsNameless P e

  -- The payload names a recipient that is fenced or has another generation.
  abbrev pub IsStopped : ℕ → Keys → Text → Type 0
  IsStopped now k e = (chat : Text) × (g : Text) × Names P e chat g × IsFenced R now chat g k

  -- The entries that are added for these payloads: in their order, one for each that passes.
  pub data Released (now : ℕ) (k : Keys) : List Text → List Entry → Type 0 where
    nothing : Released now k [] []
    passed :
        {e : Text} {es : List Text} {xs : List Entry}
        → Passes now k e
        → Released now k es xs
        → Released now k (e ∷ es) (job e ∷ xs)
    stopped :
        {e : Text} {es : List Text} {xs : List Entry}
        → IsStopped now k e
        → Released now k es xs
        → Released now k (e ∷ es) xs

  pub record IsTransferred (now : ℕ) (es : List Text) (s s' : Db R) : Type 0 where
    pub keys_same : s'.keys ≡ s.keys
    pub removed : All (λ p. score s'.delayed p ≡ none) es
    pub others : (p : Text) → (score s'.delayed p ≡ none) ⊎ (score s'.delayed p ≡ score s.delayed p)
    pub new_entries : List Entry
    pub released : Released now s.keys es new_entries
    pub added :
        entries s'.streams delivery_stream ≡ entries s.streams delivery_stream ++ new_entries
