-- ===== src/Session/History.antt =====
-- Histories of the two state machines of core/session.go: any sequence of requests, refused ones
-- included, from any caller.
use mbta_go.Base.{ℕ, ◌+◌, ◌≡◌, refl, List, [], ◌∷◌, ◌++◌, ◌⊎◌, ◌≤◌, ◌<◌, arith, ◌≢◌, ap, ◌↔◌}
use mbta_go.Codes.{Result, ok, err, protocol_error}
use mbta_go.Session.{State, idle, ready, draining, closed, transition, force_closed}
use mbta_go.Session.{ServerState, handshaking, server_transition}

pub data Request : Type 0 where
  move : State → Request
  force : Request

-- A request that is refused leaves the state.
abbrev kept {ℓ} : {A : Type ℓ} → A → Result A → A
kept s (ok t) = t
kept s (err e) = s

abbrev step : State → Request → State
step s (move next) = kept s (transition s next)
step s force = force_closed s

abbrev pub run : State → List Request → State
run s [] = s
run s (r ∷ rs) = run (step s r) rs

abbrev pub rank : State → ℕ
rank idle = 0
rank ready = 1
rank draining = 2
rank closed = 3

cons_front :
    {rs : List Request} (r : Request)
    → step idle r ≡ idle
    → ((front : List Request) × (back : List Request) × (rs ≡ front ++ back)
        × (run idle front ≡ ready))
    → (front : List Request) × (back : List Request) × (r ∷ rs ≡ front ++ back)
      × (run idle front ≡ ready)
cons_front r e (front, back, p, q) = (r ∷ front, back, ap (◌∷◌ r) p, rw e q)

-- A transition is granted exactly when it goes forward, and not from idle to draining.
pub transition_iff :
    (s next : State)
    → (transition s next ≡ ok next) ↔ ((rank s < rank next) × ((s ≡ idle) → next ≢ draining))
unfolding transition
transition_iff s next = ground arith

step-rank : (s : State) (r : Request) → rank s ≤ rank (step s r)
unfolding transition force_closed
step-rank s (move next) = ground arith
step-rank s force = ground arith

closed_stays : (rs : List Request) → run closed rs ≡ closed
unfolding transition force_closed
closed_stays [] = refl
closed_stays (move idle ∷ rs) = closed_stays rs
closed_stays (move ready ∷ rs) = closed_stays rs
closed_stays (move draining ∷ rs) = closed_stays rs
closed_stays (move closed ∷ rs) = closed_stays rs
closed_stays (force ∷ rs) = closed_stays rs

run-rank : (s : State) (rs : List Request) → rank s ≤ rank (run s rs)
run-rank s [] = omega arith
run-rank s (r ∷ rs) = omega (arith, step-rank s r, run-rank (step s r) rs)

-- No history takes the client back: its rank in idle, ready, draining, closed never falls. And
-- `force` closes it for good, from any state and whatever is asked before and after.
pub run_forward :
    (s : State) (before after : List Request)
    → (rank s ≤ rank (run s before)) × (run (run s before) (force ∷ after) ≡ closed)
unfolding force_closed
run_forward s before after = (run-rank s before, closed_stays after)

-- A history from idle that ends in draining has passed through ready.
pub run_draining :
    (rs : List Request)
    → run idle rs ≡ draining
    → (front : List Request) × (back : List Request) × (rs ≡ front ++ back)
      × (run idle front ≡ ready)
unfolding transition force_closed
run_draining [] h = cc
run_draining (move idle ∷ rs) h = cons_front (move idle) refl (run_draining rs h)
run_draining (move ready ∷ rs) h = (move ready ∷ [], rs, refl, refl)
run_draining (move draining ∷ rs) h = cons_front (move draining) refl (run_draining rs h)
run_draining (move closed ∷ rs) h = cc (closed_stays rs)
run_draining (force ∷ rs) h = cc (closed_stays rs)

pub server_rank : ServerState → ℕ
server_rank handshaking = 0
server_rank ServerState.ready = 1
server_rank ServerState.draining = 2

-- Along any attempts the server only goes on from handshaking to ready and from ready to draining:
-- an attempt moves it by one rank, or is refused and leaves it.
pub server_attempt :
    (s next : ServerState)
    → ((server_transition s next ≡ ok next) × (server_rank next ≡ server_rank s + 1))
      ⊎ ((server_transition s next ≡ err protocol_error) × (server_rank next ≢ server_rank s + 1))
unfolding server_transition server_rank
server_attempt s next = ground arith
