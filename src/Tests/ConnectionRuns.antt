-- ===== src/Tests/ConnectionRuns.antt =====
-- internal/protocol/handler.go and command_registry.go at concrete inputs.
use mbta_go.Base.{
  ℕ, ◌≡◌, refl, [], ◌∷◌, ◌++◌, true, false, Bytes, none, some, lookup, insert, replicate,
}
use mbta_go.Codes.{num, check_all}
use mbta_go.Wire.{Hello, profile_intl}
use mbta_go.Session.{ServerState, handshaking, server_transition}
use mbta_go.Connection.{Host, Connection, Curves}
use mbta_go.Connection.Greeting.{
  handle_hello, decoded, validated, matched, hashed, proved, after_ack, after_dict, and_then,
  announce, become_ready, establish, finish, maybe_send_dict, redirect_to, selected_of, with_keys,
  with_pair, with_secret,
}
use mbta_go.Handshake.{validate_hello, validate_eph, ephemeral_pub_len, build_hello_ack}
use mbta_go.Validation.{validate_agent_id, has_strict_control_chars}
use mbta_go.Keys.{
  transcript_hello, canonical_hello, or_internal, verify_token_proof, verify_candidates,
  aead_key_len, big_endian, canonical_hello_ack, derive_session_keys, derive_session_keys_with_caps,
  finished_mac, hmac_key_len, len_prefixed, profile_name, psk_ck, split_keys, token_proof_of,
  transcript, transcript_full, transcript_hash, SessionKeys,
}
use mbta_go.Policy.{codec_for, negotiate, select}
use mbta_go.Commands.{register}
use mbta_go.Connection.{
  derive_zz, generate_ephemeral, has_capability, register_command_channel, send_or_fail,
  shared_secret,
}
use mbta_go.Connection.Authentic.{IsProven, handle_hello-IsProven}
use mbta_go.Connection.Control.{hello_frame, close_frame, control_loop, is_handshaking}
use mbta_go.Connection.Fixed.{IsKept, control_loop-IsKept}
use mbta_go.Connection.{next_epoch}
use mbta_go.Commands.{get, new_command_registry}
use mbta_go.Commands.Routing.{joins, leaves, visit_all, route_all, get-visit_all}
use mbta_go.Tests.EnvelopeRuns.{bare, session_keys}
use mbta_go.Tests.BatchRuns.{policy}

-- Keys that all exchange to one secret.
abbrev pub curves : Curves ℕ
curves = record { generate = λ p. some (0, replicate 32 7); exchange = λ p k peer. some (9 ∷ []) }

abbrev pub greeting : Hello
greeting = record {
  profile = profile_intl;
  agent_id = 65 ∷ [];
  meta = [];
  capabilities = [];
  client_eph = replicate 32 7;
  token_proof = 1 ∷ 8 ∷ [];
}

abbrev pub host : Host ℕ
host = record {
  crypto = bare;
  curves = curves;
  policy = policy;
  tokens = λ agent. some ((8 ∷ []) ∷ []);
  decode_hello = λ s. some greeting;
  encodes = λ r. true;
  writes = λ r. true;
  valid_host_port = λ s. true;
  redirect = none;
  has_on_session = true;
  new_session = 5 ∷ [];
  handler_id = 1;
}

abbrev pub fresh : Connection
fresh = record {
  machine = handshaking;
  session_keys = none;
  session_id = [];
  agent_id = [];
  epoch = 0;
  expires_at = 0;
  negotiated = none;
  codec = none;
  authed = false;
  close_timeout = 0;
  sent = [];
  epochs = [];
  commands = some new_command_registry;
  connected_events = [];
}

shaken : (handle_hello host [] 5 fresh).0.authed ≡ true
unfolding handle_hello decoded validated validate_hello validate_agent_id has_strict_control_chars
    check_all validate_eph ephemeral_pub_len matched hashed transcript_hello canonical_hello
    or_internal proved verify_token_proof verify_candidates insert lookup num register after_ack
    after_dict and_then announce become_ready establish finish maybe_send_dict redirect_to
    selected_of with_keys with_pair with_secret derive_zz generate_ephemeral has_capability
    next_epoch register_command_channel send_or_fail shared_secret build_hello_ack aead_key_len
    big_endian canonical_hello_ack derive_session_keys derive_session_keys_with_caps finished_mac
    hmac_key_len len_prefixed profile_name psk_ck split_keys token_proof_of transcript
    transcript_full transcript_hash codec_for negotiate select server_transition
shaken = refl

abbrev pub transcript_bytes : Bytes
transcript_bytes = 0 ∷ 0 ∷ 0 ∷ 4 ∷ 105 ∷ 110 ∷ 116 ∷ 108 ∷ 0 ∷ 0 ∷ 0 ∷ 0 ∷ []

abbrev pub plain_keys : SessionKeys
plain_keys = record session_keys { dual_mac_key = [] }

unfoldable pub greeted : IsProven host greeting 5 [] [] (handle_hello host [] 5 fresh).0
unfolding handle_hello decoded validated validate_hello validate_agent_id has_strict_control_chars
    check_all validate_eph ephemeral_pub_len matched hashed transcript_hello canonical_hello
    or_internal proved verify_token_proof verify_candidates insert lookup num register after_ack
    after_dict and_then announce become_ready establish finish maybe_send_dict redirect_to
    selected_of with_keys with_pair with_secret derive_zz generate_ephemeral has_capability
    next_epoch register_command_channel send_or_fail shared_secret build_hello_ack aead_key_len
    big_endian canonical_hello_ack derive_session_keys derive_session_keys_with_caps finished_mac
    hmac_key_len len_prefixed profile_name psk_ck split_keys token_proof_of transcript
    transcript_full transcript_hash codec_for negotiate select server_transition
greeted = record {
  th = transcript_bytes;
  keys = plain_keys;
  eph = replicate 32 7;
  th_full = transcript_bytes ++ (0 ∷ 0 ∷ 0 ∷ 0 ∷ []);
  well_formed = refl;
  own_profile = refl;
  hashed_hello = refl;
  proof = refl;
  agreed = record { priv = 0; zz = 9 ∷ []; drawn = refl; secret = refl; derived = refl };
  hashed_all = refl;
  stored = refl;
  ready = refl;
  acknowledged = record { more = []; appended = refl };
}

handle_hello-IsProven_example :
    (hello : Hello) × (host.decode_hello [] ≡ some hello)
    × IsProven host hello 5 [] [] (handle_hello host [] 5 fresh).0
handle_hello-IsProven_example = handle_hello-IsProven host [] 5 fresh refl shaken

abbrev running : Connection
running = record fresh { machine = ServerState.ready; authed = true; epoch = 3 }

past : is_handshaking running.machine ≡ false
unfolding is_handshaking
past = refl

control_loop-IsKept_example :
    IsKept running
      (control_loop host ((close_frame (some 5), 1) ∷ (hello_frame [], 2) ∷ []) running).0
control_loop-IsKept_example =
    control_loop-IsKept host ((close_frame (some 5), 1) ∷ (hello_frame [], 2) ∷ []) running past

get-visit_all_example :
    get (65 ∷ []) (
      visit_all
        (joins (65 ∷ []) 1 ∷ joins (65 ∷ []) 2 ∷ leaves (65 ∷ []) 1 ∷ [])
        new_command_registry)
    ≡ route_all (65 ∷ []) (joins (65 ∷ []) 1 ∷ joins (65 ∷ []) 2 ∷ leaves (65 ∷ []) 1 ∷ []) none
get-visit_all_example =
    get-visit_all (65 ∷ []) (joins (65 ∷ []) 1 ∷ joins (65 ∷ []) 2 ∷ leaves (65 ∷ []) 1 ∷ []) refl
