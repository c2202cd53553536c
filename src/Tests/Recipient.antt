-- ===== src/Tests/Recipient.antt =====
-- Witnesses for deletions, deliveries in flight and the contract of jobs.
use alert_bot_project.Common.{
  ◌≤◌, arith, length, Text-discrete, codes, ◌≡◌, refl, true, false, some, ◌⊎◌, List, [], ◌∷◌, All,
  ℕ_discrete,
}
use alert_bot_project.Redis.{Key-discrete, count_of, inflight}
use alert_bot_project.Redis.Memory.{memory, no_keys}
use alert_bot_project.Shared.Platform.{instant}
use alert_bot_project.Services.Privacy.{fence_deletion, begin_delivery, generation_of}
use alert_bot_project.Services.Privacy.Fence.{
  begin, register, HasGeneration, IsUnregistered, granted, fence-granted,
}
use alert_bot_project.Services.Privacy.InFlight.{Flight, fly, step, inflight-eq-open_slots}
use alert_bot_project.Services.Privacy.InFlight
use alert_bot_project.Worker.Contract.{delivery_content, as_notice}
use alert_bot_project.Worker.Contract.Valid.{IsValid, parse_delivery_job-IsValid}
use alert_bot_project.Worker.Contract.Freshness.{IsFresh, IsExpired, delivery_content_lem}
use alert_bot_project.Tests.{platform, first_payload, first_job, first_parses}

fence-granted_example :
    All (HasGeneration memory (codes "7") (codes "g")) (
      granted memory
        (codes "7")
        (begin 1 (codes "0") ∷ register ∷ begin 2 (codes "g") ∷ [])
        (fence_deletion memory (codes "7") (codes "g") no_keys))
    × (All IsUnregistered (begin 1 (codes "0") ∷ register ∷ begin 2 (codes "g") ∷ [])
        → granted memory
            (codes "7")
            (begin 1 (codes "0") ∷ register ∷ begin 2 (codes "g") ∷ [])
            (fence_deletion memory (codes "7") (codes "g") no_keys)
          ≡ [])
fence-granted_example =
    fence-granted memory (codes "7") (codes "g") no_keys
      (begin 1 (codes "0") ∷ register ∷ begin 2 (codes "g") ∷ [])

abbrev idle : Flight memory (codes "7")
idle = record { keys = no_keys; open_slots = 0; last = 0 }

abbrev flights : List InFlight.Slot
flights = InFlight.begin 1000 (codes "0") ∷ InFlight.begin 2000 (codes "0") ∷ InFlight.end 3000 ∷ []

one_open :
    ((fly memory (codes "7") flights idle).open_slots ≡ 1)
    × ((fly memory (codes "7") flights idle).last ≡ 2000)
unfolding fly step begin_delivery generation_of Text-discrete ℕ_discrete Key-discrete
one_open = (refl, refl)

inflight-eq-open_slots_example :
    count_of (memory.get 4000 (fly memory (codes "7") flights idle).keys (inflight (codes "7")))
    ≡ (fly memory (codes "7") flights idle).open_slots
unfolding step begin_delivery generation_of Text-discrete ℕ_discrete Key-discrete
inflight-eq-open_slots_example =
    inflight-eq-open_slots memory (codes "7") flights 0 4000 idle refl (λ v. refl)
      (
        omega arith,
        λ p. omega arith,
        (omega arith, λ p. omega arith, (omega arith, λ p. omega arith, tt)),
      )
      (omega arith) (λ p. omega (arith, one_open.0, one_open.1))

parse_delivery_job-IsValid_example : IsValid platform (instant 1000) first_job
parse_delivery_job-IsValid_example =
    parse_delivery_job-IsValid platform (instant 1000) first_payload first_job first_parses.0

content_sent :
    delivery_content (instant 1000) first_job (codes "go") false ≡ some (codes "go", false)
unfolding delivery_content
content_sent = refl

delivery_content_lem_example :
    (IsFresh (instant 1000) first_job × (codes "go" ≡ codes "go") × (false ≡ false))
    ⊎ ((¬ IsFresh (instant 1000) first_job)
        × (¬ IsExpired (instant 1000) first_job)
        × (first_job.step ≤ 1)
        × (codes "go" ≡ as_notice (codes "go"))
        × (length (codes "go") ≤ 4096)
        × (false ≡ true))
delivery_content_lem_example =
    delivery_content_lem (instant 1000) first_job (codes "go") false (codes "go") false content_sent
