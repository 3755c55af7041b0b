-- ===== src/Connection.antt =====
-- The control side of a connection at the server: the handshake and the control loop of
-- internal/protocol/handler.go, and the ephemeral keys of core/keyschedule.go. Curves, random numbers,
-- protobuf and the transport are parameters.
pub mod Greeting
pub mod Control
pub mod Proven
pub mod Authentic
pub mod Fixed
use mbta_go.Base.{
  ℕ, ◌+◌, ◌*◌, ◌/◌, List, [], ◌∷◌, ◌++◌, Bool, true, false, ◌&&◌, ◌||◌, not, if◌then◌else◌,
}
use mbta_go.Base.{
  eqb, ltb, add64, Bytes, bytes_eq, ◌==◌, Option, none, some, Map, lookup, insert, contains, length,
}
use mbta_go.Codes.{
  ErrCode, Result, ok, err, num, internal, bad_handshake, unsupported_profile, hello_eph_invalid,
  auth_failed, protocol_error,
}
use mbta_go.Wire.{Hello, HelloAck, profile_intl, profile_gm, codec_proto}
use mbta_go.Session.{ServerState, handshaking, server_transition}
use mbta_go.Policy.{ServerPolicy, negotiate, codec_for, select, cap_zstd_dict, cap_control_commands}
use mbta_go.Handshake.{validate_hello, build_hello_ack}
use mbta_go.Keys.{
  Crypto, SessionKeys, or_internal, transcript_hello, transcript_full, verify_token_proof,
  derive_session_keys_with_caps, finished_mac,
}
use mbta_go.Commands.{CommandRegistry, register}

-- The curves, by profile: a key pair that is drawn, and the shared secret of a private key and a public
-- one, if that is a point.
pub record Curves (K : Type 0) : Type 0 where
  pub generate : ℕ → Option (K × Bytes)
  pub exchange : ℕ → K → Bytes → Option Bytes

-- GenerateEphemeral: the private key and its public one.
unfoldable pub generate_ephemeral : {K : Type 0} → Curves K → ℕ → Result (K × Bytes)
generate_ephemeral c profile =
    if eqb profile profile_intl
    then or_internal (c.generate profile)
    else if eqb profile profile_gm
    then or_internal (c.generate profile)
    else err unsupported_profile

abbrev first_is : ℕ → Bytes → Bool
first_is b [] = false
first_is b (c ∷ s) = eqb c b

unfoldable pub shared_secret : Option Bytes → Result Bytes
shared_secret none = err hello_eph_invalid
shared_secret (some zz) = ok zz

-- DeriveZZ.
unfoldable pub derive_zz : {K : Type 0} → Curves K → ℕ → K → Bytes → Result Bytes
derive_zz c profile priv peer =
    if eqb profile profile_intl
    then if not (eqb (length peer) 32)
      then err hello_eph_invalid
      else shared_secret (c.exchange profile priv peer)
    else if eqb profile profile_gm
    then if not (eqb (length peer) 65) || not (first_is 4 peer)
      then err hello_eph_invalid
      else shared_secret (c.exchange profile priv peer)
    else err unsupported_profile

-- The epochs that EpochAllocator has given out last; a missing agent reads 0.
abbrev pub epoch_of : Bytes → Map Bytes ℕ → ℕ
epoch_of agent epochs = elim (lookup agent epochs) [ none ↦ 0 | some e ↦ e ]

-- EpochAllocator.Next.
unfoldable pub next_epoch : Bytes → Map Bytes ℕ → Map Bytes ℕ × ℕ
next_epoch agent epochs = let e = add64 (epoch_of agent epochs) 1 in (insert agent e epochs, e)

-- The frames that the control side sends.
pub data Reply : Type 0 where
  ack_reply : HelloAck → Reply
  nak_reply : (code : ℕ) (retryable : Bool) (retry_hint_ms : ℕ) → Reply
  dict_reply : (dict_id : ℕ) (dict : Bytes) → Reply
  pong_reply : (time nonce : ℕ) → Reply
  redirect_reply : (leader_addr leader_id : Bytes) → Reply

-- The surroundings of a handshake. `encodes` and `writes` are whether protobuf and the transport take a
-- frame; `tokens` is the validator's ResolveToken, `redirect` what the checker answers, if there is one.
pub record Host (K : Type 0) : Type 0 where
  pub crypto : Crypto
  pub curves : Curves K
  pub policy : ServerPolicy
  pub tokens : Bytes → Option (List Bytes)
  pub decode_hello : Bytes → Option Hello
  pub encodes : Reply → Bool
  pub writes : Reply → Bool
  pub valid_host_port : Bytes → Bool
  pub redirect : Option (Bytes × Bytes)
  pub has_on_session : Bool
  pub new_session : Bytes
  pub handler_id : ℕ

-- The part of CoreHandler that the control side changes, with the epochs and the registry that it shares
-- with other connections. No capabilities or codec is an atomic.Value that was not stored.
pub record Connection : Type 0 where
  pub machine : ServerState
  pub session_keys : Option SessionKeys
  pub session_id : Bytes
  pub agent_id : Bytes
  pub epoch : ℕ
  pub expires_at : ℕ
  pub negotiated : Option (List Bytes)
  pub codec : Option ℕ
  pub authed : Bool
  pub close_timeout : ℕ
  pub sent : List Reply
  pub epochs : Map Bytes ℕ
  pub commands : Option CommandRegistry
  pub connected_events : List (Bytes × Bytes)

-- DefaultSessionTTL, 24 hours, in seconds.
abbrev pub default_session_ttl : ℕ
default_session_ttl = 86400

-- helloNakCode.
unfoldable pub hello_nak_code : ErrCode → ℕ
hello_nak_code unsupported_profile = num unsupported_profile
hello_nak_code hello_eph_invalid = num hello_eph_invalid
hello_nak_code _ = num bad_handshake

-- hasCapability.
unfoldable pub has_capability : Option (List Bytes) → Bytes → Bool
has_capability none capability = false
has_capability (some caps) capability = contains caps capability

-- What a handler's method leaves, and the error that it returns.
abbrev pub Answer : Type 0
Answer = Connection × Result (Unit {0})

module _ {K : Type 0} (host : Host K) where
  -- Encode and SendControlFrame where a failure is only logged.
  unfoldable pub send_or_log : Reply → Connection → Connection
  send_or_log r c =
      if host.encodes r && host.writes r then record c { sent = c.sent ++ (r ∷ []) } else c

  -- Encode and SendControlFrame where a failure is an error.
  unfoldable pub send_or_fail : Reply → Connection → Answer
  send_or_fail r c =
      if not (host.encodes r)
      then (c, err internal)
      else if not (host.writes r)
      then (c, err protocol_error)
      else (record c { sent = c.sent ++ (r ∷ []) }, ok tt)

  -- sendNak and the error that is returned with it.
  unfoldable pub refuse : ℕ → ErrCode → Connection → Answer
  refuse code e c = (send_or_log (nak_reply code false 0) c, err e)

  -- registerCommandChannel.
  unfoldable pub register_command_channel : Bytes → Connection → Connection
  register_command_channel agent c = elim c.commands [
    | none ↦ c
    | some r ↦
        if has_capability c.negotiated cap_control_commands
        then record c { commands = some (register agent host.handler_id r) }
        else c
  ]
