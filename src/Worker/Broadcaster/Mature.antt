-- ===== src/Worker/Broadcaster/Mature.antt =====
-- worker/broadcaster.py, `process_delayed_alerts`: the transfer of due payloads to the stream.
pub mod Transfer
use alert_bot_project.Common.{
  ℕ, Text, Bool, true, false, Option, none, some, List, [], ◌∷◌, length, if◌then◌else◌,
}
use alert_bot_project.Redis.{Redis, Db, delivery_stream, job}
use alert_bot_project.Shared.Platform.{Platform}
use alert_bot_project.Worker.Broadcaster.{absent, id, fault, lua_id, lua_generation, allowed}

module _ (P : Platform) (R : Redis) where
  open R use {xadd, zrem, due}

  -- whether an element is added to the stream; none is an error of the script
  unfoldable pub admitted : ℕ → Text → Db R → Option Bool
  admitted now element s = elim (lua_id P element) [
    | absent ↦ some true
    | id chat ↦ some (allowed R now chat (lua_generation P element) s.keys)
    | fault ↦ none
  ]

  -- one round of the loop
  unfoldable pub transfer : Text → Bool → Db R → Db R
  transfer element yes' s = record s {
    streams = if yes' then xadd delivery_stream (job element) s.streams else s.streams;
    delayed = zrem element s.delayed;
  }

  -- the loop; the flag is false after an error, which keeps what was done before
  unfoldable pub transfer_all : ℕ → List Text → Db R → Bool × Db R
  transfer_all now [] s = (true, s)
  transfer_all now (e ∷ es) s = elim (admitted now e s) [
    | none ↦ (false, s)
    | some b ↦ transfer_all now es (transfer e b s)
  ]

  -- POP_MATURE_TASKS_LUA with the limit of 50; a score is in seconds, `now` in milliseconds. The
  -- result is the number of elements, or none after an error.
  unfoldable pub pop_mature_tasks : ℕ → ℕ → Db R → Option ℕ × Db R
  pop_mature_tasks now seconds s =
      let elements = due s.delayed seconds 50 in
      let (fine, s') = transfer_all now elements s in
      (if fine then some (length elements) else none, s')
