-- ===== src/Examples/SessionCases.antt =====
-- Two callers that race for one permit, and the permit dropped again.
use run_on_mine.Prelude.{ℕ, ◌≤◌, ◌≡◌, refl, arith, Bool, true, false, List, [], ◌∷◌}
use run_on_mine.Session.{Caller, idle, holding, refused, turn, turn_at, interleave}
use run_on_mine.Session.Permits.{held, interleave-held}

abbrev callers : List Caller
callers = idle ∷ idle ∷ []

-- Both load the counter, the second takes the permit, and the first fails its exchange and is
-- refused.
abbrev race : List (ℕ × Bool)
race = (0, false) ∷ (1, false) ∷ (1, true) ∷ (1, false) ∷ (0, false) ∷ (0, false) ∷ []

race_runs : interleave 1 race 0 callers ≡ (1, refused ∷ holding ∷ [])
unfolding interleave turn_at turn
race_runs = refl

interleave-held_example :
    ((interleave 1 race 0 callers).0 ≡ held (interleave 1 race 0 callers).1)
    × (held (interleave 1 race 0 callers).1 ≤ 1)
interleave-held_example = interleave-held 1 (omega arith) race 0 callers (omega arith) (omega arith)
