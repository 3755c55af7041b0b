-- ===== src/Handshake.antt =====
-- core/message.go: the checks of the handshake's messages, and of internal/protocol/handler.go what the
-- server puts into HELLO_ACK.
pub mod Accepted
use mbta_go.Base.{ℕ, ◌+◌, ◌≡◌, List, [], ◌∷◌, Bool, true, false, ◌&&◌, ◌||◌, not, if◌then◌else◌}
use mbta_go.Base.{ltb, eqb, sle, Bytes, Option, none, some, Map, length}
use mbta_go.Codes.{
  Result, ok, err, ◌>>◌, refuse_if, check_all, bad_handshake, unsupported_profile,
  hello_eph_invalid, ack_mode_bad, credit_invalid, result_level_bad,
}
use mbta_go.Wire.{
  profile_intl, profile_gm, ack_mode_accepted_only, ack_mode_durable, Hello, HelloAck, Limits,
  Credits,
}
use mbta_go.Validation.{max_agent_id_len, validate_agent_id, has_strict_control_chars}
use mbta_go.Policy.{ServerPolicy}

-- EphemeralPubLen; no number where the source answers -1.
unfoldable pub ephemeral_pub_len : ℕ → Option ℕ
ephemeral_pub_len profile =
    if eqb profile profile_intl then some 32 else if eqb profile profile_gm then some 65 else none

unfoldable pub validate_hello_meta_field : Bytes → Result (Unit {0})
validate_hello_meta_field val =
    if eqb (length val) 0
    then ok tt
    else refuse_if (ltb max_agent_id_len (length val)) bad_handshake
      >> refuse_if (has_strict_control_chars val) bad_handshake

-- The body of the loop over the meta map.
unfoldable pub validate_meta_entry : Bytes × Bytes → Result (Unit {0})
validate_meta_entry (k, v) = validate_hello_meta_field k >> validate_hello_meta_field v

-- The two checks of ValidateHello that ask for the length of the ephemeral key.
unfoldable pub validate_eph : Option ℕ → Bytes → Result (Unit {0})
validate_eph none eph = err unsupported_profile
validate_eph (some n) eph = refuse_if (not (eqb (length eph) n)) hello_eph_invalid

-- ValidateHello.
unfoldable pub validate_hello : Option Hello → Result (Unit {0})
validate_hello none = err bad_handshake
validate_hello (some m) =
    refuse_if (eqb (length m.agent_id) 0) bad_handshake
    >> validate_agent_id m.agent_id
    >> check_all validate_meta_entry m.meta
    >> validate_eph (ephemeral_pub_len m.profile) m.client_eph
    >> refuse_if (eqb (length m.token_proof) 0) bad_handshake

-- The getters of a nil message answer zeros.
abbrev pub credits_of : Option Credits → Credits
credits_of none = record { batches = 0; bytes = 0 }
credits_of (some c) = c

abbrev pub limits_of : Option Limits → Limits
limits_of none = record { limit_frame_bytes = 0; limit_batch_bytes = 0 }
limits_of (some l) = l

-- ValidateHelloAck.
unfoldable pub validate_hello_ack : Option HelloAck → Result (Unit {0})
validate_hello_ack none = err bad_handshake
validate_hello_ack (some a) =
    let c = credits_of a.credits in
    let l = limits_of a.limits in
    refuse_if (not (eqb a.ack_mode ack_mode_accepted_only) && not (eqb a.ack_mode ack_mode_durable))
      ack_mode_bad
    >> refuse_if (eqb c.batches 0 || eqb c.bytes 0) credit_invalid
    >> refuse_if (eqb l.limit_frame_bytes 0 || eqb l.limit_batch_bytes 0) bad_handshake
    >> refuse_if (eqb (length a.finished) 0) bad_handshake
    >> refuse_if (sle a.expiry_unix 0) bad_handshake

-- ValidateResultLevel: RESULT_LEVEL_ACCEPTED 1 to RESULT_LEVEL_RELEASED 4.
unfoldable pub validate_result_level : ℕ → Result (Unit {0})
validate_result_level l =
    if eqb l 1 || eqb l 2 || eqb l 3 || eqb l 4 then ok tt else err result_level_bad

-- The HELLO_ACK of the handler: session, epoch, capabilities, key and expiry are the connection's, the
-- rest is the policy's; `finished` is filled in last.
unfoldable pub build_hello_ack :
    ServerPolicy → Bytes → ℕ → List Bytes → Bytes → ℕ → Bytes → HelloAck
build_hello_ack p session epoch selected server_eph expires finished = record {
  session_id = session;
  epoch = epoch;
  ack_mode = p.policy_ack_mode;
  selected_capabilities = selected;
  limits = some (record {
    limit_frame_bytes = p.policy_frame_bytes;
    limit_batch_bytes = p.policy_batch_bytes;
  });
  credits = some (record { batches = p.initial_credit_batches; bytes = p.initial_credit_bytes });
  server_eph = server_eph;
  finished = finished;
  expiry_unix = expires;
}
