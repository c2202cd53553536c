-- ===== src/Tests/Retention.antt =====
-- A witness for the trim of a stream.
use alert_bot_project.Common.{ℕ, ◌≡◌, refl, arith, true, some, List, [], ◌∷◌, All, inl}
use alert_bot_project.Worker.Retention.{StreamId, Group, trim_acknowledged}
use alert_bot_project.Worker.Retention.Owed.{IsOwed, IsKept, trim_acknowledged-IsKept}

abbrev at : ℕ → ℕ → StreamId
at ms sequence = record { ms = ms; sequence = sequence }

abbrev groups : List Group
groups =
    record { last_delivered = at 30 0; pending_count = 2; pending_min = at 20 1 }
    ∷ record { last_delivered = at 25 0; pending_count = 0; pending_min = at 0 0 }
    ∷ []

trimmed_to : trim_acknowledged true groups ≡ some (at 20 1)
unfolding trim_acknowledged
trimmed_to = refl

trim_acknowledged-IsKept_example :
    All (λ g. (e : StreamId) → IsOwed g e → IsKept (at 20 1) e) groups
trim_acknowledged-IsKept_example =
    trim_acknowledged-IsKept true groups (at 20 1)
      (λ h. inl (omega arith), (λ h. absurd (ground arith), tt)) trimmed_to
