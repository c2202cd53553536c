-- ===== src/Redis.antt =====
-- Redis, which the program calls and does not implement: its documented commands as an interface,
-- with the laws that the program relies on. A key of the program is a constructor for each of its
-- format strings; times are milliseconds.
pub mod Memory
use alert_bot_project.Common.{
  ℕ, ◌+◌, ◌-◌, ◌≤◌, ◌<◌, Text, Text-discrete, ◌≡◌, ◌≢◌, Option, none, some, List, [], ◌∷◌, ◌++◌,
  All, ite, ltb, if◌then◌else◌, ℕ_discrete, length,
}

abbrev pub MessageId : Type 0
MessageId = Text

pub data Key : Type 0 where
  -- privacy:deleted:{id}, privacy:generation:{id}, privacy:inflight:{id}
  deleted generation inflight : Text → Key
  -- privacy:operation:{id}, telegram:blocked:{id}, user_mute:{id}
  operation blocked mute : Text → Key
  -- telegram:rate:global, telegram:rate:repeat, telegram:rate:chat:{id}
  rate_global rate_repeat : Key
  rate_chat : Text → Key
  -- delivery:enqueued:{identity}, delivery:retry:{message}, delivery:lease:{stage}
  enqueued : Text → Key
  retry : MessageId → Key
  lease : Text → Key
  -- delivery:stage:{event}:{step}
  stage : Text → Text → Key
  -- threat:clear_id:{channel}, threat:clear_id:{channel}:{location}
  clear_id : Text → Key
  clear_id_at : Text → Text → Key
  -- source:published:{channel}:{message}
  published : Text → Text → Key
  -- official_alarm_status:odesa
  official_alarm : Key
  -- throttle:{id}, retry_count:{message}, expired:audited:{message}
  throttle : Text → Key
  retry_count expired_audited : MessageId → Key

unfoldable pub Key-discrete : Discrete Key
Key-discrete = hlevel ℕ_discrete

-- A stored string: a word, or the decimal text of a number.
pub data Value : Type 0 where
  word : Text → Value
  num : ℕ → Value

unfoldable pub Value-discrete : Discrete Value
Value-discrete = hlevel ℕ_discrete

pub data Stream : Type 0 where
  delivery_stream delivery_dlq alerts_stream dead_letter_queue expired_alerts_queue : Stream

unfoldable pub Stream-discrete : Discrete Stream
Stream-discrete = hlevel

-- The fields of a stream entry.
pub data Entry : Type 0 where
  -- {payload}
  job : Text → Entry
  -- {payload, reason, source_id}
  dead : Text → Text → MessageId → Entry
  -- {reason, source_id}
  unreadable : Text → MessageId → Entry
  -- {payload, error}
  failed_task : Text → Text → Entry

-- What INCR and DECR read.
abbrev pub count_of : Option Value → ℕ
count_of (some (num n)) = n
count_of _ = 0

-- A number in place of the value of a key, while the key lives.
abbrev pub kept : ℕ → Option Value → Option Value
kept n none = none
kept n (some _) = some (num n)

-- INCR where the key was `then`, read where it is `later` without the INCR; a word is left alone.
abbrev pub increased : Option Value → Option Value → Option Value
increased none later = some (num 1)
increased (some (num n)) later = kept (n + 1) later
increased (some (word w)) later = later

abbrev pub claimed : Text → Option Text → Option Text
claimed c none = none
claimed c (some _) = some c

pub record Redis : Type 1 where
  -- String keys. A key that is set with a lifetime is gone from its deadline on.
  pub Keys : Type 0
  pub get : ℕ → Keys → Key → Option Value
  pub set : Key → Value → Keys → Keys
  pub set_px : ℕ → Key → Value → ℕ → Keys → Keys
  pub del : Key → Keys → Keys
  -- INCR and DECR keep the lifetime that the key has; EXPIRE gives a new one.
  pub incr : ℕ → Key → Keys → Keys
  pub decr : ℕ → Key → Keys → Keys
  pub expire : ℕ → Key → ℕ → Keys → Keys
  pub get-set :
      (t : ℕ) (s : Keys) (k j : Key) (v : Value)
      → get t (set k v s) j ≡ ite (Key-discrete k j) (some v) (get t s j)
  pub get-set_px :
      (t u : ℕ) (s : Keys) (k j : Key) (v : Value) (ttl : ℕ)
      → get u (set_px t k v ttl s) j
        ≡ ite (Key-discrete k j) (if ltb u (t + ttl) then some v else none) (get u s j)
  pub get-del :
      (t : ℕ) (s : Keys) (k j : Key) → get t (del k s) j ≡ ite (Key-discrete k j) none (get t s j)
  pub get-incr :
      (t u : ℕ) (s : Keys) (k j : Key)
      → t ≤ u
      → get u (incr t k s) j
        ≡ ite (Key-discrete k j) (increased (get t s k) (get u s k)) (get u s j)
  pub get-decr :
      (t u : ℕ) (s : Keys) (k j : Key)
      → t ≤ u
      → 0 < count_of (get t s k)
      → get u (decr t k s) j
        ≡ ite (Key-discrete k j) (kept (count_of (get t s k) - 1) (get u s k)) (get u s j)
  pub get-expire :
      (t : ℕ) (s : Keys) (k j : Key) (ttl u : ℕ)
      → t ≤ u
      → get u (expire t k ttl s) j
        ≡ ite (Key-discrete k j) (if ltb u (t + ttl) then get t s k else none) (get u s j)
  pub get-incr_ne : (t u : ℕ) (s : Keys) (k j : Key) → k ≢ j → get u (incr t k s) j ≡ get u s j
  pub get-decr_ne : (t u : ℕ) (s : Keys) (k j : Key) → k ≢ j → get u (decr t k s) j ≡ get u s j
  pub get-expire_ne :
      (t u : ℕ) (s : Keys) (k j : Key) (ttl : ℕ) → k ≢ j → get u (expire t k ttl s) j ≡ get u s j
  -- Streams, each with the pending entries of its consumer group and their owners.
  pub Streams : Type 0
  pub entries : Streams → Stream → List Entry
  pub owner : Streams → Stream → MessageId → Option Text
  pub xadd : Stream → Entry → Streams → Streams
  pub xack : Stream → MessageId → Streams → Streams
  pub xclaim : Stream → Text → MessageId → Streams → Streams
  pub entries-xadd :
      (s : Streams) (n m : Stream) (e : Entry)
      → entries (xadd n e s) m ≡ ite (Stream-discrete n m) (entries s m ++ e ∷ []) (entries s m)
  pub entries-xack :
      (s : Streams) (n m : Stream) (i : MessageId) → entries (xack n i s) m ≡ entries s m
  pub entries-xclaim :
      (s : Streams) (n m : Stream) (c : Text) (i : MessageId)
      → entries (xclaim n c i s) m ≡ entries s m
  pub owner-xadd :
      (s : Streams) (n m : Stream) (e : Entry) (i : MessageId)
      → owner (xadd n e s) m i ≡ owner s m i
  pub owner-xack :
      (s : Streams) (n m : Stream) (i j : MessageId)
      → owner (xack n i s) m j
        ≡ ite (Stream-discrete n m) (ite (Text-discrete i j) none (owner s m j)) (owner s m j)
  -- XCLAIM moves an entry that is pending, and does nothing to another.
  pub owner-xclaim :
      (s : Streams) (n m : Stream) (c : Text) (i j : MessageId)
      → owner (xclaim n c i s) m j
        ≡ ite
            (Stream-discrete n m)
            (ite (Text-discrete i j) (claimed c (owner s m j)) (owner s m j))
            (owner s m j)
  -- The sorted set of delayed payloads.
  pub Sorted : Type 0
  pub score : Sorted → Text → Option ℕ
  pub zadd : ℕ → Text → Sorted → Sorted
  pub zrem : Text → Sorted → Sorted
  -- ZRANGEBYSCORE -inf max LIMIT 0 n
  pub due : Sorted → ℕ → ℕ → List Text
  pub score-zadd :
      (z : Sorted) (n : ℕ) (p q : Text)
      → score (zadd n p z) q ≡ ite (Text-discrete p q) (some n) (score z q)
  pub score-zrem :
      (z : Sorted) (p q : Text) → score (zrem p z) q ≡ ite (Text-discrete p q) none (score z q)
  pub due-score :
      (z : Sorted) (limit n : ℕ)
      → All (λ p. (k : ℕ) × (score z p ≡ some k) × (k ≤ limit)) (due z limit n)
  pub length-due : (z : Sorted) (limit n : ℕ) → length (due z limit n) ≤ n

-- What the program keeps in Redis.
pub record Db (R : Redis) : Type 0 where
  pub keys : R.Keys
  pub streams : R.Streams
  pub delayed : R.Sorted
