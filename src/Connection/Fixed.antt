-- ===== src/Connection/Fixed.antt =====
-- The control loop of internal/protocol/handler.go after the handshake, and the epochs over handshakes.
use mbta_go.Base.{◌<◌, ℕ, ◌+◌, ◌%◌, ◌^◌, ◌≡◌, refl, ◌∙◌, List, [], ◌∷◌, false, if◌then◌else◌, arith}
use mbta_go.Base.{
  Bytes, bytes_eq, bytes_eqb_iff, ◌==◌, Option, none, some, Map, lookup, lookup-insert, add64,
}
use mbta_go.Session.{ServerState, handshaking, server_transition}
use mbta_go.Commands.{CommandAck}
use mbta_go.Connection.{Host, Connection, Reply, refuse, send_or_log, next_epoch, epoch_of}
use mbta_go.Connection.Control.{
  ControlFrame, hello_frame, ping_frame, command_ack_frame, close_frame, abort_frame, other_frame,
  Turn, goes_on, returns_nil, fails, on_frame, on_hello, handle_ping, handle_close, resolve_ack,
  state_after, is_handshaking, continue_with, control_loop,
}

-- The session of a connection that is past the handshake, kept by another state of it.
pub record IsKept (c n : Connection) : Type 0 where
  pub keys : n.session_keys ≡ c.session_keys
  pub id : n.session_id ≡ c.session_id
  pub agent : n.agent_id ≡ c.agent_id
  pub epoch : n.epoch ≡ c.epoch
  pub capabilities : n.negotiated ≡ c.negotiated
  pub authed : n.authed ≡ c.authed
  pub past : is_handshaking n.machine ≡ false

module _ {K : Type 0} (host : Host K) where
  send-IsKept :
      (r : Reply) (c : Connection)
      → is_handshaking c.machine ≡ false
      → IsKept c (send_or_log host r c)
  unfolding send_or_log
  send-IsKept r c p = ground arith

  closed-past :
      (s : ServerState)
      → is_handshaking s ≡ false
      → is_handshaking (state_after s (server_transition s ServerState.draining)) ≡ false
  unfolding state_after server_transition is_handshaking
  closed-past handshaking p = absurd cc
  closed-past ServerState.ready p = refl
  closed-past ServerState.draining p = refl

  resolve-IsKept :
      (c : Connection) (ack : Option CommandAck)
      → is_handshaking c.machine ≡ false
      → IsKept c (resolve_ack ack c)
  unfolding resolve_ack
  resolve-IsKept c none p = ground arith
  resolve-IsKept c (some ack) p = ground arith

  on_frame-IsKept :
      (f : ControlFrame) (now : ℕ) (c : Connection)
      → is_handshaking c.machine ≡ false
      → IsKept c (on_frame host f now c).0
  unfolding on_frame on_hello refuse handle_ping handle_close
  on_frame-IsKept (hello_frame payload) now c p = rw p (send-IsKept _ c p)
  on_frame-IsKept (ping_frame none) now c p = ground arith
  on_frame-IsKept (ping_frame (some (time, nonce))) now c p = send-IsKept _ c p
  on_frame-IsKept (command_ack_frame ack) now c p = resolve-IsKept c ack p
  on_frame-IsKept (close_frame t) now c p = record {
    keys = refl;
    id = refl;
    agent = refl;
    epoch = refl;
    capabilities = refl;
    authed = refl;
    past = closed-past c.machine p;
  }
  on_frame-IsKept abort_frame now c p = ground arith
  on_frame-IsKept other_frame now c p = ground arith

  IsKept-step : (c m n : Connection) → IsKept c m → IsKept m n → IsKept c n
  IsKept-step c m n a b = record {
    keys = b.keys ∙ a.keys;
    id = b.id ∙ a.id;
    agent = b.agent ∙ a.agent;
    epoch = b.epoch ∙ a.epoch;
    capabilities = b.capabilities ∙ a.capabilities;
    authed = b.authed ∙ a.authed;
    past = b.past;
  }

  continue_with-IsKept :
      (t : Turn) (fs : List (ControlFrame × ℕ)) (c : Connection)
      → is_handshaking c.machine ≡ false
      → IsKept c (continue_with host t fs c).0
  unfolding continue_with control_loop
  continue_with-IsKept goes_on [] c p = ground arith
  continue_with-IsKept goes_on ((f, now) ∷ fs) c p =
      let first = on_frame-IsKept f now c p in
      let r = on_frame host f now c in
      IsKept-step c r.0 (continue_with host r.1 fs r.0).0 first
        (continue_with-IsKept r.1 fs r.0 first.past)
  continue_with-IsKept returns_nil fs c p = ground arith
  continue_with-IsKept fails fs c p = ground arith

-- A session is set up once: past the handshake, whatever frames follow, another HELLO included, leave its
-- keys, its id, its agent, its epoch, its capabilities and its being authenticated as they are, and the
-- handshake is not entered again.
pub control_loop-IsKept :
    {K : Type 0} (host : Host K) (fs : List (ControlFrame × ℕ)) (c : Connection)
    → is_handshaking c.machine ≡ false
    → IsKept c (control_loop host fs c).0
unfolding control_loop
control_loop-IsKept host fs c p = continue_with-IsKept host goes_on fs c p

-- The epochs after a row of handshakes.
unfoldable pub next_epochs : List Bytes → Map Bytes ℕ → Map Bytes ℕ
next_epochs [] epochs = epochs
next_epochs (agent ∷ agents) epochs = next_epochs agents (next_epoch agent epochs).0

unfoldable pub visits : Bytes → List Bytes → ℕ
visits agent [] = 0
visits agent (a ∷ agents) = (if a == agent then 1 else 0) + visits agent agents

next_epochs_from :
    (agent : Bytes) (agents : List Bytes) (epochs : Map Bytes ℕ)
    → epoch_of agent epochs < 2 ^ 64
    → epoch_of agent (next_epochs agents epochs)
      ≡ (epoch_of agent epochs + visits agent agents) % 2 ^ 64
unfolding next_epochs visits next_epoch
next_epochs_from agent [] epochs b = omega (arith, b)
next_epochs_from agent (a ∷ agents) epochs b = ground (
  arith,
  next_epochs_from agent agents (next_epoch a epochs).0,
  lookup-insert a agent (add64 (epoch_of a epochs) 1) epochs,
  bytes_eqb_iff a agent,
)

-- Epochs go up by one: whichever agents have shaken hands before, in whatever order, an agent's next
-- epoch is the number of its own handshakes with this one, as a uint64.
pub next_epoch-next_epochs :
    (agent : Bytes) (agents : List Bytes)
    → (next_epoch agent (next_epochs agents [])).1 ≡ (visits agent agents + 1) % 2 ^ 64
unfolding next_epoch lookup
next_epoch-next_epochs agent agents = ground (arith, next_epochs_from agent agents [])
