-- ===== src/Session.antt =====
-- core/session.go: the client's and the server's state machines.
pub mod History
use mbta_go.Base.{ℕ, ◌≡◌, refl, List, [], ◌∷◌, ◌⊎◌, inl, inr, ◌≤◌, ◌<◌, suc, zero, ◌+◌, ◌≢◌}
use mbta_go.Base.{Bool, true, false, ◌&&◌, ◌||◌, if◌then◌else◌, arith, KeyEq, ◌==◌, contains, ◌↔◌}
use mbta_go.Codes.{Result, ok, err, ErrCode, protocol_error}

pub data State : Type 0 where
  idle ready draining closed : State

abbrev state_eqb : State → State → Bool
state_eqb idle idle = true
state_eqb ready ready = true
state_eqb draining draining = true
state_eqb closed closed = true
state_eqb _ _ = false

pub state_eqb_iff : (a b : State) → (state_eqb a b ≡ true) ↔ (a ≡ b)
state_eqb_iff a b = ground arith

instance abbrev pub state_eq : KeyEq State
state_eq = record { same = state_eqb; same_iff = state_eqb_iff }

client_transitions : State → List State
client_transitions idle = ready ∷ closed ∷ []
client_transitions ready = draining ∷ closed ∷ []
client_transitions draining = closed ∷ []
client_transitions closed = []

-- A machine is its state: the answer is the new state, or the error that leaves it as it was.
unfoldable pub transition : State → State → Result State
unfolding client_transitions
transition s next = if contains (client_transitions s) next then ok next else err protocol_error

unfoldable pub force_closed : State → State
force_closed s = closed

pub data ServerState : Type 0 where
  handshaking ready draining : ServerState

abbrev server_eqb : ServerState → ServerState → Bool
server_eqb handshaking handshaking = true
server_eqb ServerState.ready ServerState.ready = true
server_eqb ServerState.draining ServerState.draining = true
server_eqb _ _ = false

unfoldable pub server_transition : ServerState → ServerState → Result ServerState
server_transition s next =
    if (server_eqb s handshaking && server_eqb next ServerState.ready)
      || (server_eqb s ServerState.ready && server_eqb next ServerState.draining)
    then ok next
    else err protocol_error
