-- ===== src/Connection/Greeting.antt =====
-- handleHello of internal/protocol/handler.go, step by step. Each step takes the answer of the one before
-- it, and refuses, fails or goes on.
use mbta_go.Base.{ℕ, ◌+◌, List, [], ◌∷◌, ◌++◌, Bool, true, false, ◌||◌, not, if◌then◌else◌}
use mbta_go.Base.{eqb, Bytes, bytes_eq, ◌==◌, Option, none, some, contains, length}
use mbta_go.Codes.{
  Result, ok, err, num, internal, bad_handshake, unsupported_profile, hello_eph_invalid,
  auth_failed, protocol_error,
}
use mbta_go.Wire.{Hello, HelloAck}
use mbta_go.Session.{ServerState, server_transition}
use mbta_go.Policy.{negotiate, codec_for, select, cap_zstd_dict}
use mbta_go.Handshake.{validate_hello, build_hello_ack}
use mbta_go.Keys.{
  SessionKeys, transcript_hello, transcript_full, verify_token_proof, derive_session_keys_with_caps,
  finished_mac,
}
use mbta_go.Connection.{
  Host, Connection, Answer, ack_reply, nak_reply, dict_reply, redirect_reply, generate_ephemeral,
  derive_zz, next_epoch, default_session_ttl, hello_nak_code, send_or_log, send_or_fail, refuse,
  register_command_channel,
}

-- A step of which the next follows if it ended well.
unfoldable pub and_then : Answer → (Connection → Answer) → Answer
and_then (c, err e) next = (c, err e)
and_then (c, ok t) next = next c

module _ {K : Type 0} (host : Host K) where
  -- The capabilities of both sides; without a dictionary zstd_dict is not offered.
  unfoldable pub selected_of : Hello → List Bytes
  selected_of hello =
      let both = negotiate host.policy hello.capabilities in
      if eqb (length host.policy.zstd_dict) 0
      then select (λ cap. not (cap == cap_zstd_dict)) both
      else both

  -- maybeSendDict.
  unfoldable pub maybe_send_dict : List Bytes → Connection → Answer
  maybe_send_dict selected c =
      if not (contains selected cap_zstd_dict)
      then (c, ok tt)
      else if eqb (length host.policy.zstd_dict) 0 || eqb host.policy.zstd_dict_id 0
      then (c, ok tt)
      else send_or_fail host (dict_reply host.policy.zstd_dict_id host.policy.zstd_dict) c

  -- The redirection after the handshake: what is sent is encoded without a check, and a failure to
  -- write it is logged.
  unfoldable pub redirect_to : Option (Bytes × Bytes) → Connection → Answer
  redirect_to none c = (c, ok tt)
  redirect_to (some (addr, id)) c =
      if host.valid_host_port addr
      then (
        if host.writes (redirect_reply addr id)
            then record c { sent = c.sent ++ (redirect_reply addr id ∷ []) }
            else c,
        err protocol_error,
      )
      else (c, ok tt)

  -- OnSession(CONNECTED).
  unfoldable pub announce : Bytes → Connection → Connection
  announce agent c =
      if host.has_on_session
      then record c { connected_events = c.connected_events ++ ((agent, c.session_id) ∷ []) }
      else c

  -- READY: authed, the command channel, OnSession and the redirection.
  unfoldable pub become_ready : Hello → Result ServerState → Connection → Answer
  become_ready hello (err e) c = (c, err protocol_error)
  become_ready hello (ok s) c = redirect_to host.redirect (
      announce hello.agent_id
        (register_command_channel host hello.agent_id (record c { machine = s; authed = true })))

  -- The transition to READY.
  unfoldable pub after_dict : Hello → Connection → Answer
  after_dict hello c = become_ready hello (server_transition c.machine ServerState.ready) c

  unfoldable pub after_ack : Hello → List Bytes → Connection → Answer
  after_ack hello selected c = and_then (maybe_send_dict selected c) (after_dict hello)

  -- HELLO_ACK with its finished MAC, the dictionary, and the transition.
  unfoldable pub finish : Hello → SessionKeys → HelloAck → Result Bytes → Connection → Answer
  finish hello keys ack (err e) c = refuse host (num internal) e c
  finish hello keys ack (ok th) c =
      and_then
        (send_or_fail host (ack_reply (record ack { finished = finished_mac host.crypto keys th }))
          c)
        (after_ack hello ack.selected_capabilities)

  -- The keys are stored, and the session gets its id, its epoch and its end.
  unfoldable pub establish : Hello → List Bytes → Bytes → SessionKeys → ℕ → Connection → Answer
  establish hello selected server_eph keys now c =
      let (epochs, epoch) = next_epoch hello.agent_id c.epochs in
      let c' = record c {
        session_keys = some keys;
        session_id = host.new_session;
        agent_id = hello.agent_id;
        epochs = epochs;
        epoch = epoch;
        expires_at = now + default_session_ttl;
      } in
      let ack =
        build_hello_ack host.policy host.new_session epoch selected server_eph
          (now + default_session_ttl) [] in
      finish hello keys ack (transcript_full host.crypto hello.profile hello ack) c'

  -- deriveServerKeys, from its last call backwards.
  unfoldable pub with_keys :
      Hello → List Bytes → Bytes → ℕ → Result SessionKeys → Connection → Answer
  with_keys hello selected server_eph now (err e) c = refuse host (num internal) e c
  with_keys hello selected server_eph now (ok keys) c =
      establish hello selected server_eph keys now c

  unfoldable pub with_secret :
      Hello → List Bytes → Bytes → Bytes → ℕ → Result Bytes → Connection → Answer
  with_secret hello selected th server_eph now (err e) c = refuse host (num hello_eph_invalid) e c
  with_secret hello selected th server_eph now (ok zz) c =
      with_keys hello selected server_eph now
        (derive_session_keys_with_caps host.crypto hello.profile zz th hello.token_proof selected) c

  unfoldable pub with_pair :
      Hello → List Bytes → Bytes → ℕ → Result (K × Bytes) → Connection → Answer
  with_pair hello selected th now (err e) c = refuse host (num internal) e c
  with_pair hello selected th now (ok (priv, pub')) c =
      with_secret hello selected th pub' now
        (derive_zz host.curves hello.profile priv hello.client_eph) c

  -- VerifyTokenProof comes before any key is derived; its failure is no error of the connection.
  unfoldable pub proved : Hello → List Bytes → Bytes → ℕ → Result (Unit {0}) → Connection → Answer
  proved hello selected th now (err e) c =
      (send_or_log host (nak_reply (num auth_failed) true 1000) c, ok tt)
  proved hello selected th now (ok t) c =
      with_pair hello selected th now (generate_ephemeral host.curves hello.profile) c

  unfoldable pub hashed : Hello → List Bytes → ℕ → Result Bytes → Connection → Answer
  hashed hello selected now (err e) c = refuse host (num internal) e c
  hashed hello selected now (ok th) c =
      proved hello selected th now
        (verify_token_proof host.crypto (host.tokens hello.agent_id) hello.profile th
          hello.token_proof)
        c

  -- The profile must be the policy's; what was negotiated is stored.
  unfoldable pub matched : Bool → Hello → ℕ → Connection → Answer
  matched false hello now c = refuse host (num unsupported_profile) unsupported_profile c
  matched true hello now c =
      let selected = selected_of hello in
      hashed hello selected now (transcript_hello host.crypto hello.profile hello)
        (record c { negotiated = some selected; codec = some (codec_for selected) })

  unfoldable pub validated : Hello → ℕ → Result (Unit {0}) → Connection → Answer
  validated hello now (err e) c = refuse host (hello_nak_code e) e c
  validated hello now (ok t) c = matched (eqb hello.profile host.policy.policy_profile) hello now c

  unfoldable pub decoded : Option Hello → ℕ → Connection → Answer
  decoded none now c = refuse host (num bad_handshake) bad_handshake c
  decoded (some hello) now c = validated hello now (validate_hello (some hello)) c

  -- handleHello at the Unix time `now`.
  unfoldable pub handle_hello : Bytes → ℕ → Connection → Answer
  handle_hello payload now c = decoded (host.decode_hello payload) now c
