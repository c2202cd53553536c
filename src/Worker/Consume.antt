-- ===== src/Worker/Consume.antt =====
-- worker/main.py: the loops that read the source stream and hand its entries on. An error that leaves
-- the handling of an entry, of Redis or of the limit of the phrases, ends its batch.
pub mod Kept
pub mod Batch
use alert_bot_project.Common.{
  ℕ, ◌+◌, Text, codes, Bool, true, false, ◌&&◌, Option, none, some, List, [], ◌∷◌, ltb, ◌==◌, any,
  if◌then◌else◌, is_empty,
}
use alert_bot_project.Redis.{Redis, Db}
use alert_bot_project.Shared.Platform.{Platform}
use alert_bot_project.Services.Alarm.Poller.{Settings}
use alert_bot_project.Worker.Broadcaster.Attempt.{Config}
use alert_bot_project.Worker.Source.{Encounter, Ending, ack_source, process_payload}

-- The handling of an entry: what it meets, and the error that leaves it, if one does, with what the
-- handling did to the store until then.
pub record Handling (R : Redis) : Type 0 where
  pub encounter : Encounter
  pub raised : Option (Db R → Db R)

-- What comes of an entry: its payload is missing or empty, and it is acknowledged unread; its
-- handling ended; or an error left it.
pub data Handled : Type 0 where
  unread : Handled
  ended : Ending → Handled
  broken : Handled

abbrev pub is_broken : Handled → Bool
is_broken broken = true
is_broken _ = false

-- What a call of XREADGROUP or XAUTOCLAIM gives: nothing, or entries, with what the command does to
-- the store.
pub data Read (R : Redis) : Type 0 where
  nothing : Read R
  batch : (Db R → Db R) → List (Handling R) → Read R
  -- a ResponseError with NOGROUP, another one, and any other error
  no_group response_error other_error : Read R

-- What XINFO CONSUMERS tells of a consumer, with its idle time in milliseconds.
pub record ConsumerInfo : Type 0 where
  pub name : Text
  pub pending_count : ℕ
  pub idle : ℕ

-- cleanup_dead_consumers: the consumers that stay. A removal that fails is logged, and here none
-- fails.
unfoldable pub cleanup_dead_consumers : List ConsumerInfo → List ConsumerInfo
cleanup_dead_consumers [] = []
cleanup_dead_consumers (c ∷ cs) =
    let rest = cleanup_dead_consumers cs in
    if (c.pending_count == 0) && ltb 86400000 c.idle then rest else c ∷ rest

module _ (P : Platform) (R : Redis) (config : Config) (alarm : Settings) where
  -- The store, whether the consumer group is there, and WORKER_ERRORS.
  pub record Consumer : Type 0 where
    pub db : Db R
    pub group : Bool
    pub worker_errors : ℕ

  -- One entry of a batch.
  unfoldable pub handle_entry : Handling R → Db R → Handled × Db R
  handle_entry h s =
      let (ending, s') = process_payload P R config alarm h.encounter s in
      elim h.raised [
        | some part ↦ (broken, part s)
        | none ↦
            if is_empty h.encounter.raw_json
            then (unread, ack_source P R config alarm h.encounter.message s)
            else (ended ending, s')
      ]

  -- The entries of a batch, up to the first that an error leaves.
  unfoldable pub consume_batch : List (Handling R) → Db R → List Handled × Db R
  unfolding handle_entry
  consume_batch [] s = ([], s)
  consume_batch (h ∷ hs) s =
      let (x, s') = handle_entry h s in
      let (xs, s2) = consume_batch hs s' in if is_broken x then (x ∷ [], s') else (x ∷ xs, s2)

  -- one round of _consume_loop, with _handle_stream_response_error
  unfoldable pub consume_round : Read R → Consumer → Consumer
  unfolding consume_batch
  consume_round nothing c = c
  consume_round (batch read hs) c =
      let (xs, s) = consume_batch hs (read c.db) in
      record c {
        db = s;
        worker_errors = if any is_broken xs then c.worker_errors + 1 else c.worker_errors;
      }
  consume_round no_group c = record c { group = true }
  consume_round response_error c = record c { worker_errors = c.worker_errors + 1 }
  consume_round other_error c = record c { worker_errors = c.worker_errors + 1 }

  -- _consume_loop, for the reads until the shutdown
  unfoldable pub consume_loop : List (Read R) → Consumer → Consumer
  unfolding consume_round
  consume_loop [] c = c
  consume_loop (r ∷ rs) c = consume_loop rs (consume_round r c)

  -- _drain_pending_backlog: until a read is empty or fails, or an error leaves an entry
  unfoldable pub drain_pending_backlog : List (Read R) → Db R → Db R
  unfolding consume_batch
  drain_pending_backlog [] s = s
  drain_pending_backlog (batch read (h ∷ hs) ∷ rs) s =
      let (xs, s') = consume_batch (h ∷ hs) (read s) in
      let rest = drain_pending_backlog rs s' in if any is_broken xs then s' else rest
  drain_pending_backlog (_ ∷ rs) s = s

  -- auto_claim_pending_tasks, for the claims until the shutdown: each gives the next cursor, which
  -- is kept if an error leaves an entry. An error of the claim leaves the cursor.
  unfoldable pub auto_claim_pending_tasks : List (Text × Read R) → Text × Db R → Text × Db R
  unfolding consume_batch
  auto_claim_pending_tasks [] s = s
  auto_claim_pending_tasks ((next, batch claim hs) ∷ rs) (start, s) =
      auto_claim_pending_tasks rs (next, (consume_batch hs (claim s)).1)
  auto_claim_pending_tasks ((next, nothing) ∷ rs) (start, s) = auto_claim_pending_tasks rs (next, s)
  auto_claim_pending_tasks ((next, _) ∷ rs) s = auto_claim_pending_tasks rs s
