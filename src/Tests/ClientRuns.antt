-- ===== src/Tests/ClientRuns.antt =====
-- internal/protocol/client.go and client_control.go at concrete inputs.
use mbta_go.Base.{
  ℕ, ◌≡◌, refl, List, [], ◌∷◌, ◌++◌, true, false, if◌then◌else◌, Bytes, bytes_eq, none, some,
  lookup, insert, replicate, ltb, length, nat_eq, not, ◌==◌,
}
use mbta_go.Codes.{ok}
use mbta_go.Wire.{Hello, profile_intl}
use mbta_go.Session.{State}
use mbta_go.Keys.{
  transcript_hello, canonical_hello, or_internal, transcript_hash, transcript, len_prefixed,
  big_endian, profile_name, token_proof_of,
}
use mbta_go.Connection.{generate_ephemeral, derive_zz, shared_secret}
use mbta_go.Policy.{negotiate, select}
use mbta_go.Client.{ClientConfig, Client, new_client, make_hello}
use mbta_go.Tests.EnvelopeRuns.{bare}
use mbta_go.Tests.ConnectionRuns.{
  curves, greeting, host, fresh, transcript_bytes, plain_keys, greeted,
}
use mbta_go.Tests.EnvelopeRuns.{verbatim}
use mbta_go.Tests.BatchRuns.{handler, manager}
use mbta_go.Handshake.{validate_hello_ack, build_hello_ack}
use mbta_go.Keys.{finished_mac}
use mbta_go.Connection.Greeting.{handle_hello, selected_of}
use mbta_go.Connection.Authentic.{ack_of}
use mbta_go.Client.{on_greeting, ack_greeting, store_session}
use mbta_go.Client.Agreement.{handshake_agrees}
use mbta_go.Client.Sending.{Sender}
use mbta_go.Policy.{cap_datagram}
use mbta_go.Client.Sending.{
  send_batch, send_datagram, encode_and_seal, sealed_with, ready_to_send, numbered, seal_batch,
  pick_compression, with_envelope, with_ledger, after_consume, datagram_sent, written,
}
use mbta_go.Envelope.{
  seal_envelope, seal_message, seal_with, wrong_mac_key, compressed, compress, compress_zstd_dict,
  dual_mac, envelope_ad, seal_plain,
}
use mbta_go.Keys.{hmac_key_len, new_aead, aead_key_len, build_nonce}
use mbta_go.Credit.Ledger.{next_seq, consume, rollback}
use mbta_go.Base.{delete}
use mbta_go.Client.Numbers.{
  sealed_all, sealed_one, sealed_batch, sealed_seq, frame_type_of, send_one, Send,
}
use mbta_go.Client.Control.{Receiver, dispatch_command}
use mbta_go.Client.Repeated.{dispatch_command-dispatch_command}
use mbta_go.Client.Starved.{durable_outcome}
use mbta_go.Credit.Manager.{
  take_recovered, oldest_before, oldest_from, pending, force_settle, settle, settled, advance_low,
  advance, push_ring, evict, fresh_grant,
}
use mbta_go.Batches.{Handler, Control}
use mbta_go.Base.{◌+◌}
use mbta_go.Batches.Reaper.{flush_pending, release_stuck, release_loop, release_one}
use mbta_go.Batches.Sink.{
  done, done_if, report, settlement, settle_lease, store_grant, send_results, mark_fired,
  maybe_schedule_flush,
}

abbrev config : ClientConfig
config = record {
  config_agent = 65 ∷ [];
  config_meta = [];
  token = 8 ∷ [];
  config_capabilities = [];
  config_profile = profile_intl;
  ack_timeout = 300;
}

abbrev made : ℕ × Hello × Bytes
made = (0, greeting, transcript_bytes)

made_hello : make_hello bare curves config ≡ ok made
unfolding make_hello transcript_hello canonical_hello or_internal transcript_hash transcript
    len_prefixed big_endian profile_name token_proof_of generate_ephemeral
made_hello = refl

same_secret :
    derive_zz curves profile_intl 0 greeted.eph
    ≡ derive_zz curves profile_intl greeted.agreed.priv (replicate 32 7)
unfolding greeted derive_zz shared_secret
same_secret = refl

well_formed :
    validate_hello_ack (
      some (ack_of host greeting 5 [] greeted.eph (finished_mac bare greeted.keys greeted.th_full)))
    ≡ ok tt
unfolding greeted validate_hello_ack build_hello_ack finished_mac selected_of negotiate select
    lookup
well_formed = refl

abbrev blank : Client ℕ
blank = new_client

handshake_agrees_example :
    ((handle_hello host [] 5 fresh).0.session_keys ≡ some greeted.keys)
    × (on_greeting bare curves config 0 greeting transcript_bytes
          (ack_greeting (
            ack_of host greeting 5 [] greeted.eph (finished_mac bare greeted.keys greeted.th_full)))
          blank
        ≡ (
          record (store_session bare curves config
              (ack_of host greeting 5 [] greeted.eph
                (finished_mac bare greeted.keys greeted.th_full))
              greeted.keys
              blank) { machine = State.ready },
          ok tt,
        ))
handshake_agrees_example =
    handshake_agrees host config made 5 [] [] (handle_hello host [] 5 fresh).0 blank greeted
      made_hello same_secret well_formed refl

abbrev sender : Sender ℕ ℕ
sender = record {
  crypto = bare;
  codecs = verbatim;
  marshal = λ c s. some (s ∷ []);
  signals = λ s. s;
  encode_batch = λ b. some b.payload;
  encode_envelope = λ e. some e.ciphertext;
  write = λ env. not (env == 8 ∷ []);
  supports_datagram = true;
  send_datagram_frame = λ s. true;
}

abbrev open_client : Client ℕ
open_client = record blank {
  machine = State.ready;
  keys = some plain_keys;
  session_id = 5 ∷ [];
  negotiated = cap_datagram ∷ [];
  ledger = some (record {
    granted_b = 2;
    granted_y = 100;
    consumed_b = 0;
    consumed_y = 0;
    returned_b = 0;
    returned_y = 0;
    clamp_b = 9;
    clamp_y = 999;
    slots = [];
    violations = 0;
  });
}

-- A batch, a datagram, no batch, a batch that cannot be written, and another.
abbrev sends : List (Send ℕ)
sends =
    record { unreliable = false; batch = some 7; trace = none; now = 1; tick = 1; deadline = 9 }
    ∷ record { unreliable = true; batch = some 6; trace = none; now = 1; tick = 1; deadline = 9 }
    ∷ record { unreliable = true; batch = none; trace = none; now = 1; tick = 1; deadline = 9 }
    ∷ record { unreliable = false; batch = some 8; trace = none; now = 1; tick = 1; deadline = 9 }
    ∷ record { unreliable = false; batch = some 9; trace = none; now = 1; tick = 1; deadline = 9 }
    ∷ []

-- The seq of the batch that could not be written is not used again.
sealed_seqs : sealed_all sender sends open_client ≡ 1 ∷ 2 ∷ 3 ∷ 4 ∷ []
unfolding sealed_all sealed_one sealed_batch sealed_seq frame_type_of send_one send_batch
    send_datagram encode_and_seal sealed_with ready_to_send numbered seal_batch seal_envelope
    seal_message seal_with next_seq wrong_mac_key hmac_key_len compressed pick_compression
    or_internal new_aead aead_key_len with_envelope with_ledger after_consume delete insert lookup
    datagram_sent written consume rollback compress compress_zstd_dict dual_mac envelope_ad
    seal_plain big_endian build_nonce len_prefixed profile_name
sealed_seqs = refl

abbrev control : Receiver ℕ
control = record { client = open_client; notices = []; executed = [] }

dispatch_command-dispatch_command_example :
    (dispatch_command (3 ∷ []) (dispatch_command (3 ∷ []) control)).executed ≡ (
      if ltb 256 (length (insert (3 ∷ []) true control.client.seen_commands))
      then ([] ++ ((3 ∷ []) ∷ [])) ++ ((3 ∷ []) ∷ [])
      else [] ++ ((3 ∷ []) ∷ []))
dispatch_command-dispatch_command_example =
    dispatch_command-dispatch_command (3 ∷ []) control refl (unfold lookup in refl)

-- Seqs 2 and 3 in flight, with a ring of one outcome.
abbrev busy : Handler ℕ
busy = record handler {
  manager = record manager { ring_cap = 1 };
  leases = λ k. record { grant = fresh_grant (k + 2); fired = false };
}

-- The reaper has settled seq 2, the sink's report on seq 3 has pushed that outcome out of the ring, and
-- the credit of both has gone back.
abbrev late : Handler ℕ
late = flush_pending (done 1 true durable_outcome (release_stuck 10 40 busy))

late_sent : length late.sent ≡ 3
unfolding flush_pending take_recovered done done_if settlement report settle_lease store_grant
    send_results mark_fired maybe_schedule_flush release_stuck release_loop release_one
    oldest_before oldest_from pending force_settle settle settled advance_low advance push_ring
    evict lookup insert delete
late_sent = refl
