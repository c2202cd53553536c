-- ===== src/Services/Privacy.antt =====
-- services/privacy.py: the fence that deletion puts up against queued deliveries, the reservations
-- of deliveries in flight, and the lock that serialises registration and deletion. Each Lua script
-- is a function of the clock (in milliseconds) and the keys; `id` is the text of a recipient's id.
pub mod Frame
pub mod InFlight
pub mod Fence
pub mod Erase
use alert_bot_project.Common.{
  ℕ, ◌-◌, Text, Text-discrete, codes, str, pos, Bool, true, false, not, ◌||◌, Option, none, some,
  List, [], ◌∷◌, ite, leb, ltb, ◌==◌, if◌then◌else◌,
}
use alert_bot_project.Redis.{
  Value, Value-discrete, word, num, count_of, Redis, deleted, generation, inflight, operation,
}

abbrev pub exists {ℓ} : {A : Type ℓ} → Option A → Bool
exists none = false
exists (some _) = true

abbrev pub zero_generation : Text
zero_generation = codes "0"

-- redis.call('GET', KEYS[2]) or '0', for what GET returned
unfoldable pub generation_of : Option Value → Text
generation_of none = zero_generation
generation_of (some (word w)) = w
generation_of (some (num n)) = str (pos n)

-- redis.call('GET', key) == token, for what GET returned
unfoldable pub is_token : Option Value → Text → Bool
unfolding Value-discrete
is_token none w = false
is_token (some v) w = ite (Value-discrete v (word w)) true false

abbrev pub same_text : Text → Text → Bool
same_text a b = ite (Text-discrete a b) true false

module _ (R : Redis) where
  open R use {Keys, get, set, set_px, del, incr, decr, expire}

  -- FENCE_DELETION_LUA
  unfoldable pub fence_deletion : Text → Text → Keys → Keys
  fence_deletion id new s = set (generation id) (word new) (set (deleted id) (word (codes "1")) s)

  -- BEGIN_DELIVERY_LUA
  unfoldable pub begin_delivery : ℕ → Text → Text → Keys → Bool × Keys
  unfolding generation_of
  begin_delivery now id job_generation s =
      if exists (get now s (deleted id))
      then (false, s)
      else if not (same_text (generation_of (get now s (generation id))) job_generation)
      then (false, s)
      else (true, expire now (inflight id) 600000 (incr now (inflight id) s))

  -- END_DELIVERY_LUA
  unfoldable pub end_delivery : ℕ → Text → Keys → Keys
  end_delivery now id s =
      let count = count_of (get now s (inflight id)) in
      if leb count 1 then del (inflight id) s else decr now (inflight id) s

  -- user_privacy_lock: SET key token NX EX 90; none is the RedisError
  unfoldable pub take_lock : ℕ → Text → Text → Keys → Option Keys
  take_lock now id token s =
      if exists (get now s (operation id))
      then none
      else some (set_px now (operation id) (word token) 90000 s)

  -- RENEW_PRIVACY_LOCK_LUA
  unfoldable pub renew_lock : ℕ → Text → Text → Keys → Bool × Keys
  unfolding is_token
  renew_lock now id token s =
      if not (is_token (get now s (operation id)) token)
      then (false, s)
      else (true, expire now (operation id) 90000 s)

  -- RELEASE_PRIVACY_LOCK_LUA
  unfoldable pub release_lock : ℕ → Text → Text → Keys → Bool × Keys
  unfolding is_token
  release_lock now id token s =
      if not (is_token (get now s (operation id)) token)
      then (false, s)
      else (true, del (operation id) s)

  -- The loop of _delete_user_data_locked that waits for the deliveries in flight: at each poll (350
  -- of them), what the workers did since the last one; false is the RedisError.
  unfoldable pub await_idle : List (ℕ × (Keys → Keys)) → Text → Keys → Bool × Keys
  await_idle [] id s = (false, s)
  await_idle ((t, work) ∷ polls) id s =
      let s' = work s in
      let rest = await_idle polls id s' in
      if count_of (get t s' (inflight id)) == 0 then (true, s') else rest
