-- ===== src/Shared/TriggerCache.antt =====
-- core_shared/trigger_cache.py: the set of custom phrases in Redis and the counter of its changes.
-- The commands of Redis on a set are a parameter with their documented effect.
pub mod Contents
use alert_bot_project.Common.{
  ℕ, ◌+◌, pos, str, Text, ◌≡◌, Bool, true, false, not, ◌&&◌, ◌||◌, Option, none, some, List, [],
  ◌∷◌, ◌==◌, if◌then◌else◌, same, is_in, length, all,
}

-- The key global_custom_triggers.
pub record TriggerSet : Type 1 where
  pub Phrases : Type 0
  pub smembers : Phrases → List Text
  pub sadd : Text → Phrases → Phrases
  pub srem : Text → Phrases → Phrases
  pub deleted : Phrases
  pub smembers-sadd :
      (t w : Text) (s : Phrases)
      → is_in t (smembers (sadd w s)) ≡ (same t w || is_in t (smembers s))
  pub smembers-srem :
      (t w : Text) (s : Phrases)
      → is_in t (smembers (srem w s)) ≡ (not (same t w) && is_in t (smembers s))
  pub smembers-deleted : smembers deleted ≡ []

-- What RECONCILE_TRIGGERS_LUA answers: -1, 0 and 1.
pub data Reconciled : Type 0 where
  changed_meanwhile unchanged replaced : Reconciled

module _ (S : TriggerSet) where
  open S use {Phrases, smembers, sadd, srem, deleted}

  -- With global_custom_triggers:version.
  pub record TriggerCache : Type 0 where
    pub phrases : Phrases
    pub version : Option ℕ

  -- INCR
  abbrev pub next_version : Option ℕ → Option ℕ
  next_version none = some 1
  next_version (some n) = some (n + 1)

  -- UPDATE_TRIGGER_LUA: SADD and SREM answer whether they changed the set.
  unfoldable pub update_custom_trigger_cache : Text → Bool → TriggerCache → Bool × TriggerCache
  update_custom_trigger_cache phrase true c =
      if is_in phrase (smembers c.phrases)
      then (false, c)
      else (true, record { phrases = sadd phrase c.phrases; version = next_version c.version })
  update_custom_trigger_cache phrase false c =
      if is_in phrase (smembers c.phrases)
      then (true, record { phrases = srem phrase c.phrases; version = next_version c.version })
      else (false, c)

  unfoldable pub sadd_all : List Text → Phrases → Phrases
  sadd_all [] s = s
  sadd_all (w ∷ ws) s = sadd_all ws (sadd w s)

  -- redis.call('GET', KEYS[2]) or '', and expected_version or ""
  abbrev pub version_text : Option ℕ → Text
  version_text none = []
  version_text (some n) = str (pos n)

  -- RECONCILE_TRIGGERS_LUA, for the wanted phrases and the version that the caller read
  unfoldable pub reconcile_custom_trigger_cache :
      List Text → Option ℕ → TriggerCache → Reconciled × TriggerCache
  unfolding sadd_all str
  reconcile_custom_trigger_cache phrases expected_version c =
      let current = smembers c.phrases in
      if not (same (version_text c.version) (version_text expected_version))
      then (changed_meanwhile, c)
      else if (length current == length phrases) && all (λ w. is_in w phrases) current
      then (unchanged, c)
      else (
        replaced,
        record { phrases = sadd_all phrases deleted; version = next_version c.version },
      )
