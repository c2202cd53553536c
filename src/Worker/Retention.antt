-- ===== src/Worker/Retention.antt =====
-- worker/stream_retention.py: how far a stream is trimmed. An identifier `ms-seq` is the pair of its
-- numbers, which Lua compares exactly below 2^53.
pub mod Owed
use alert_bot_project.Common.{
  ℕ, Bool, true, false, ◌&&◌, ◌||◌, Option, none, some, List, [], ◌∷◌, ltb, ◌==◌, if◌then◌else◌,
}

pub record StreamId : Type 0 where
  pub ms : ℕ
  pub sequence : ℕ

-- What XINFO GROUPS and XPENDING tell of a consumer group: the last identifier delivered, the count
-- of its pending entries and the least of them.
pub record Group : Type 0 where
  pub last_delivered : StreamId
  pub pending_count : ℕ
  pub pending_min : StreamId

-- the comparison of the script
abbrev pub before : StreamId → StreamId → Bool
before a b = ltb a.ms b.ms || ((a.ms == b.ms) && ltb a.sequence b.sequence)

abbrev pub is_zero : StreamId → Bool
is_zero i = (i.ms == 0) && (i.sequence == 0)

abbrev pub candidate : Group → StreamId
candidate g = if ltb 0 g.pending_count then g.pending_min else g.last_delivered

abbrev pub lower : Option StreamId → StreamId → StreamId
lower none c = c
lower (some floor) c = if before c floor then c else floor

-- The loop over the groups; none is the answer 0 without a trim.
unfoldable pub trim_floor : Option StreamId → List Group → Option StreamId
trim_floor floor [] = floor
trim_floor floor (g ∷ gs) =
    let rest = trim_floor (some (lower floor (candidate g))) gs in
    if is_zero (candidate g) then none else rest

-- TRIM_ACKNOWLEDGED_LUA: the MINID of its XTRIM, for whether the stream exists and its groups
unfoldable pub trim_acknowledged : Bool → List Group → Option StreamId
unfolding trim_floor
trim_acknowledged exists groups = if exists then trim_floor none groups else none
