-- ===== src/Connection/Control.antt =====
-- The control loop of internal/protocol/handler.go: one frame at a time.
use mbta_go.Base.{
  ℕ, List, [], ◌∷◌, Bool, true, false, if◌then◌else◌, ltb, eqb, Bytes, Option, none, some,
}
use mbta_go.Codes.{Result, ok, err, num, bad_handshake}
use mbta_go.Session.{ServerState, handshaking, server_transition}
use mbta_go.Commands.{CommandAck, resolve, unregister}
use mbta_go.Connection.{Host, Connection, pong_reply, refuse, send_or_log}
use mbta_go.Connection.Greeting.{handle_hello}

-- A control frame; a payload that does not decode is none.
pub data ControlFrame : Type 0 where
  hello_frame : (payload : Bytes) → ControlFrame
  ping_frame : Option (ℕ × ℕ) → ControlFrame
  command_ack_frame : Option CommandAck → ControlFrame
  close_frame : Option ℕ → ControlFrame
  abort_frame : ControlFrame
  other_frame : ControlFrame

abbrev pub max_drain_timeout : ℕ
max_drain_timeout = 30000

abbrev pub min_drain_timeout : ℕ
min_drain_timeout = 1000

-- The drain timeout of a CLOSE, in milliseconds.
unfoldable pub clamp_drain : ℕ → ℕ
clamp_drain ms =
    if ltb max_drain_timeout ms
    then max_drain_timeout
    else if ltb ms min_drain_timeout
    then min_drain_timeout
    else ms

-- A transition whose refusal is logged.
unfoldable pub state_after : ServerState → Result ServerState → ServerState
state_after s (err e) = s
state_after s (ok next) = next

-- handleClose; a CLOSE that does not decode reads as one without a timeout.
unfoldable pub handle_close : Option ℕ → Connection → Connection
handle_close timeout c =
    let ms : ℕ = elim timeout [ none ↦ 0 | some t ↦ t ] in
    record c {
      close_timeout = if eqb ms 0 then c.close_timeout else clamp_drain ms;
      machine = state_after c.machine (server_transition c.machine ServerState.draining);
    }

-- resolveAck.
unfoldable pub resolve_ack : Option CommandAck → Connection → Connection
resolve_ack none c = c
resolve_ack (some ack) c = elim c.commands [
  | none ↦ c
  | some r ↦ record c { commands = some (resolve ack r).0 }
]

-- How a turn of the loop ends: it goes on, or the loop returns.
pub data Turn : Type 0 where
  goes_on returns_nil : Turn
  fails : Turn

unfoldable pub turn_of : Result (Unit {0}) → Turn
turn_of (ok t) = goes_on
turn_of (err e) = fails

unfoldable pub is_handshaking : ServerState → Bool
is_handshaking handshaking = true
is_handshaking _ = false

module _ {K : Type 0} (host : Host K) where
  -- handlePing.
  unfoldable pub handle_ping : Option (ℕ × ℕ) → Connection → Connection
  handle_ping none c = c
  handle_ping (some (time, nonce)) c = send_or_log host (pong_reply time nonce) c

  -- HELLO, before and after the handshake.
  unfoldable pub on_hello : Bool → Bytes → ℕ → Connection → Connection × Turn
  on_hello false payload now c = ((refuse host (num bad_handshake) bad_handshake c).0, fails)
  on_hello true payload now c = let (c', r) = handle_hello host payload now c in (c', turn_of r)

  -- The switch of controlLoop.
  unfoldable pub on_frame : ControlFrame → ℕ → Connection → Connection × Turn
  on_frame (hello_frame payload) now c = on_hello (is_handshaking c.machine) payload now c
  on_frame (ping_frame p) now c = (handle_ping p c, goes_on)
  on_frame (command_ack_frame ack) now c = (resolve_ack ack c, goes_on)
  on_frame (close_frame t) now c = (handle_close t c, returns_nil)
  on_frame abort_frame now c = (c, returns_nil)
  on_frame other_frame now c = (c, goes_on)

  -- The loop after a turn, over the frames that come before the transport's error.
  unfoldable pub continue_with : Turn → List (ControlFrame × ℕ) → Connection → Connection × Turn
  continue_with goes_on [] c = (c, fails)
  continue_with goes_on ((f, now) ∷ fs) c = let (c', t) = on_frame f now c in continue_with t fs c'
  continue_with returns_nil fs c = (c, returns_nil)
  continue_with fails fs c = (c, fails)

  -- controlLoop: what it leaves, and the turn that ended it.
  unfoldable pub control_loop : List (ControlFrame × ℕ) → Connection → Connection × Turn
  control_loop fs c = continue_with goes_on fs c

  -- The registry after Handle's deferred clean-up.
  unfoldable pub leave_registry : Connection → Connection
  leave_registry c = elim c.commands [
    | none ↦ c
    | some r ↦
        if c.authed
        then record c { commands = some (unregister c.agent_id host.handler_id r) }
        else c
  ]
