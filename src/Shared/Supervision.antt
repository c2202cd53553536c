-- ===== src/Shared/Supervision.antt =====
-- core_shared/supervision.py, `supervise`: the critical loops of a service.
use alert_bot_project.Common.{
  Text, ◌≡◌, refl, ◌⊎◌, inl, inr, ◌↔◌, Bool, true, false, ◌||◌, List, [], ◌∷◌, All, map, any,
  if◌then◌else◌, arith,
}

-- A task, where `asyncio.wait` returns: not done, or how it ended.
pub data TaskState : Type 0 where
  running returned cancelled failed : TaskState

-- How `supervise` ends: ValueError, a return, or RuntimeError of a loop.
pub data Exit : Type 0 where
  no_loops stopped : Exit
  loop_failed loop_stopped : Text → Exit

abbrev pub Tasks : Type 0
Tasks = List (Text × TaskState)

abbrev pub is_done : Text × TaskState → Bool
is_done (name, running) = false
is_done (name, _) = true

abbrev pub is_failed : Text × TaskState → Bool
is_failed (name, failed) = true
is_failed (name, _) = false

-- the loop over the tasks, where `shutdown` says whether the event is set
unfoldable pub check_tasks : Bool → Tasks → Exit
check_tasks shutdown [] = stopped
check_tasks shutdown ((name, st) ∷ tasks) =
    let rest = check_tasks shutdown tasks in
    elim st [
      | running ↦ rest
      | failed ↦ loop_failed name
      | _ ↦ if shutdown then rest else loop_stopped name
    ]

-- the `finally`: every task is cancelled and joined
abbrev pub end_task : Text × TaskState → Text × TaskState
end_task (name, running) = (name, cancelled)
end_task (name, returned) = (name, returned)
end_task (name, cancelled) = (name, cancelled)
end_task (name, failed) = (name, failed)

-- What is left of a call: how it ended, whether the event is set, and the tasks.
pub record Supervised : Type 0 where
  pub exit : Exit
  pub shutdown : Bool
  pub tasks : Tasks

-- supervise: `before` says whether the event is set at the start, and `after` where the wait
-- returns with the tasks of `names` in the states of `tasks`
unfoldable pub supervise : Bool → Bool → Tasks → Supervised
unfolding check_tasks
supervise before after [] = record { exit = no_loops; shutdown = before; tasks = [] }
supervise true after (t ∷ ts) = record { exit = stopped; shutdown = true; tasks = [] }
supervise false after (t ∷ ts) = record {
  exit = check_tasks after (t ∷ ts);
  shutdown = true;
  tasks = map end_task (t ∷ ts);
}

check_tasks-stopped :
    (shutdown : Bool) (ts : Tasks)
    → (check_tasks shutdown ts ≡ stopped)
      ↔ (any is_failed ts ≡ false) × ((shutdown ≡ true) ⊎ (any is_done ts ≡ false))
unfolding check_tasks
check_tasks-stopped shutdown [] = (λ h. (refl, inr refl), λ h. refl)
check_tasks-stopped shutdown ((name, running) ∷ ts) = check_tasks-stopped shutdown ts
check_tasks-stopped shutdown ((name, failed) ∷ ts) = ground arith
check_tasks-stopped true ((name, returned) ∷ ts) = ground (arith, check_tasks-stopped true ts)
check_tasks-stopped false ((name, returned) ∷ ts) = ground arith
check_tasks-stopped true ((name, cancelled) ∷ ts) = ground (arith, check_tasks-stopped true ts)
check_tasks-stopped false ((name, cancelled) ∷ ts) = ground arith

all_ended : (ts : Tasks) → All (λ t. is_done t ≡ true) (map end_task ts)
all_ended [] = tt
all_ended ((name, running) ∷ ts) = (refl, all_ended ts)
all_ended ((name, returned) ∷ ts) = (refl, all_ended ts)
all_ended ((name, cancelled) ∷ ts) = (refl, all_ended ts)
all_ended ((name, failed) ∷ ts) = (refl, all_ended ts)

-- Where loops were started and the wait has returned for a reason, a call ends without an error
-- exactly where the shutdown was asked for and no loop failed; in any case the event is set then,
-- and every task has ended.
pub supervise-stopped :
    (after : Bool) (t : Text × TaskState) (ts : Tasks)
    → (after || any is_done (t ∷ ts)) ≡ true
    → (((supervise false after (t ∷ ts)).exit ≡ stopped)
        ↔ (after ≡ true) × (any is_failed (t ∷ ts) ≡ false))
      × ((supervise false after (t ∷ ts)).shutdown ≡ true)
      × All (λ u. is_done u ≡ true) (supervise false after (t ∷ ts)).tasks
unfolding supervise
supervise-stopped after t ts woken =
    let (only, enough) = check_tasks-stopped after (t ∷ ts) in
    (
      (
        λ h.
            let (fine, why) = only h in
            elim why [ inl asked ↦ (asked, fine) | inr idle ↦ (ground (arith, woken), fine) ],
        λ h. enough (h.1, inl h.0),
      ),
      refl,
      all_ended (t ∷ ts),
    )
