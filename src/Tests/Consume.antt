-- ===== src/Tests/Consume.antt =====
-- A batch of three entries of the source stream, and the loops of a service.
use alert_bot_project.Common.{
  Option, ap, sym, inl, none, some, codes, arith, ◌≡◌, ◌↔◌, refl, true, false, [], ◌∷◌, All, any,
  List,
}
use alert_bot_project.Redis.{Db}
use alert_bot_project.Redis.Memory.{memory}
use alert_bot_project.Shared.Supervision.{
  running, returned, failed, stopped, is_done, is_failed, supervise, supervise-stopped, Tasks,
}
use alert_bot_project.Worker.Source.{Encounter}
use alert_bot_project.Worker.Source.Acknowledged.{pending_for}
use alert_bot_project.Worker.Consume.{Handling, handle_entry, consume_batch}
use alert_bot_project.Worker.Consume.Batch.{
  Fates, ArePartial, IsHandled, handle_entry-IsSettled, consume_batch-IsSettled,
}
use alert_bot_project.Tests.{platform, config, empty_store}
use alert_bot_project.Tests.Source.{encounter}
use alert_bot_project.Tests.Alarm.{alarm}

abbrev answered : Encounter → Handling memory
answered e = record { encounter = e; raised = none }

-- Redis fails in the handling of the fourth entry, before it did anything.
abbrev entries : List (Handling memory)
entries =
    answered (encounter (false ∷ []))
    ∷ answered (record (encounter []) { message = codes "2-0"; raw_json = [] })
    ∷ answered (record (encounter (true ∷ [])) { message = codes "3-0" })
    ∷ record { encounter = encounter []; raised = some (λ s. s) }
    ∷ answered (record (encounter (true ∷ [])) { message = codes "5-0" })
    ∷ []

abbrev applied : Option (Db memory → Db memory) → Db memory → Db memory
applied none s = s
applied (some part) s = part s

partial : ArePartial platform memory config alarm entries
partial m = (
  λ part e s. absurd (ground arith),
  (
    λ part e s. absurd (ground arith),
    (
      λ part e s. absurd (ground arith),
      (
        λ part e s. inl (ap (λ o. pending_for platform memory (applied o s) m) (sym e)),
        (λ part e s. absurd (ground arith), tt),
      ),
    ),
  ),
)

handle_entry-IsSettled_example :
    IsHandled platform memory config alarm
      (answered (encounter (false ∷ [])))
      empty_store
      (handle_entry platform memory config alarm (answered (encounter (false ∷ []))) empty_store)
handle_entry-IsSettled_example =
    handle_entry-IsSettled platform memory config alarm (answered (encounter (false ∷ [])))
      empty_store

consume_batch-IsSettled_example :
    Fates platform memory config alarm
      (consume_batch platform memory config alarm entries empty_store).1
      entries
      (consume_batch platform memory config alarm entries empty_store).0
consume_batch-IsSettled_example =
    consume_batch-IsSettled platform memory config alarm entries empty_store partial

abbrev others : Tasks
others = (codes "poll", running) ∷ (codes "retention", returned) ∷ []

supervise-stopped_example :
    (((supervise false false ((codes "consume", failed) ∷ others)).exit ≡ stopped)
      ↔ (false ≡ true) × (any is_failed ((codes "consume", failed) ∷ others) ≡ false))
    × ((supervise false false ((codes "consume", failed) ∷ others)).shutdown ≡ true)
    × All (λ u. is_done u ≡ true) (supervise false false ((codes "consume", failed) ∷ others)).tasks
supervise-stopped_example = supervise-stopped false (codes "consume", failed) others refl
