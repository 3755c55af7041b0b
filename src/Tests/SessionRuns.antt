-- ===== src/Tests/SessionRuns.antt =====
-- The state machines of core/session.go and the codes of core/errors.go at concrete inputs.
use mbta_go.Base.{◌≤◌, ◌≡◌, refl, List, [], ◌∷◌}
use mbta_go.Session.{idle, ready, draining, closed, transition}
use mbta_go.Session.History.{Request, move, force, run, rank, run_forward}

refused_skip : run idle (move draining ∷ move ready ∷ move idle ∷ []) ≡ ready
unfolding transition
refused_skip = refl

run_forward_example :
    (rank ready ≤ rank (run ready (move idle ∷ [])))
    × (run (run ready (move idle ∷ [])) (force ∷ move ready ∷ []) ≡ closed)
run_forward_example = run_forward ready (move idle ∷ []) (move ready ∷ [])

abbrev drain_history : List Request
drain_history = move draining ∷ move ready ∷ move idle ∷ move draining ∷ []

drain_history_ends : run idle drain_history ≡ draining
unfolding transition
drain_history_ends = refl
