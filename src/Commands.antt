-- ===== src/Commands.antt =====
-- internal/protocol/command_registry.go: which connection an agent's commands go to, and who waits for
-- their acknowledgements. A connection is the number of its handler, a channel the number of the call of
-- SendCommand that made it; a nil registry is none.
pub mod Routing
use mbta_go.Base.{
  ℕ, List, [], ◌∷◌, ◌++◌, ◌&&◌, Bool, true, false, not, if◌then◌else◌, eqb, Bytes, bytes_eq, ◌==◌,
}
use mbta_go.Base.{Option, none, some, Map, lookup, insert, delete, length}

-- CommandAckCode: ACCEPTED and APPLIED end well.
abbrev pub ack_accepted : ℕ
ack_accepted = 2

abbrev pub ack_applied : ℕ
ack_applied = 1

abbrev pub ack_rejected : ℕ
ack_rejected = 3

-- corepb.ControlCommandAck.
pub record CommandAck : Type 0 where
  pub command_id : Bytes
  pub ack_code : ℕ
  pub message : Bytes

pub record CommandRegistry : Type 0 where
  pub by_agent : Map Bytes ℕ
  pub pending : Map Bytes ℕ

abbrev pub new_command_registry : CommandRegistry
new_command_registry = record { by_agent = []; pending = [] }

unfoldable pub register : Bytes → ℕ → CommandRegistry → CommandRegistry
register agent h r =
    if eqb (length agent) 0 then r else record r { by_agent = insert agent h r.by_agent }

abbrev pub points_to : ℕ → Option ℕ → Bool
points_to h none = false
points_to h (some current) = eqb current h

unfoldable pub unregister : Bytes → ℕ → CommandRegistry → CommandRegistry
unregister agent h r =
    if not (eqb (length agent) 0) && points_to h (lookup agent r.by_agent)
    then record r { by_agent = delete agent r.by_agent }
    else r

unfoldable pub get : Bytes → CommandRegistry → Option ℕ
get agent r = lookup agent r.by_agent

-- resolve: the call that is woken with the acknowledgement, if one waits.
unfoldable pub resolve : CommandAck → CommandRegistry → CommandRegistry × Option ℕ
resolve ack r =
    if eqb (length ack.command_id) 0
    then (r, none)
    else (record r { pending = delete ack.command_id r.pending }, lookup ack.command_id r.pending)

-- The errors of SendCommand before it waits.
pub data SendRefusal : Type 0 where
  agent_not_connected agent_no_capability missing_command_id : SendRefusal

-- SendCommand up to the frame: the connection to write to, with the call entered as waiting.
-- `capable` is hasCapability of a connection.
unfoldable pub send_routed :
    (ℕ → Bool) → Option ℕ → Bytes → ℕ → CommandRegistry → CommandRegistry × (Option SendRefusal) × ℕ
send_routed capable none id call r = (r, some agent_not_connected, 0)
send_routed capable (some h) id call r =
    if capable h
    then (record r { pending = insert id call r.pending }, none, h)
    else (r, some agent_no_capability, 0)

unfoldable pub send_command :
    (ℕ → Bool) → Bytes → Bytes → ℕ → CommandRegistry → CommandRegistry × (Option SendRefusal) × ℕ
send_command capable agent id call r =
    if eqb (length id) 0
    then (r, some missing_command_id, 0)
    else send_routed capable (get agent r) id call r

-- The deferred clean-up of SendCommand: whatever call the entry is of.
unfoldable pub forget_call : Bytes → CommandRegistry → CommandRegistry
forget_call id r = record r { pending = delete id r.pending }

pub data CommandOutcome : Type 0 where
  succeeded rejected failed : CommandAck → CommandOutcome

-- What SendCommand makes of an acknowledgement.
unfoldable pub command_outcome : CommandAck → CommandOutcome
command_outcome ack =
    if eqb ack.ack_code ack_applied
    then succeeded ack
    else if eqb ack.ack_code ack_accepted
    then succeeded ack
    else if eqb ack.ack_code ack_rejected
    then rejected ack
    else failed ack
