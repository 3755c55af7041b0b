-- ===== src/Client/Sending.antt =====
-- SendBatch and SendDatagram of internal/protocol/client.go, and the choice of a compression.
use mbta_go.Base.{
  ℕ, [], Bool, true, false, ◌&&◌, not, if◌then◌else◌, ltb, leb, slt, Bytes, bytes_eq, ◌==◌,
  contains, length,
}
use mbta_go.Base.{Option, none, some, ◌%◌, ◌^◌}
use mbta_go.Codes.{
  Result, ok, err, ◌>>◌, ◌>>=◌, refuse_if, server_draining, local_session, local_batch,
}
use mbta_go.Wire.{
  Envelope, TraceContext, codec_proto, compression_none, compression_zstd, compression_zstd_dict,
}
use mbta_go.Session.{state_eq, ready}
use mbta_go.Policy.{cap_zstd_dict, cap_datagram}
use mbta_go.Keys.{Crypto}
use mbta_go.Envelope.{Codecs, seal_envelope}
use mbta_go.Credit.Ledger.{CreditLedger, next_seq, consume, rollback}
use mbta_go.Batches.{Batch, type_batch, type_dgram}
use mbta_go.Client.{Client}

-- What a client sends with: S is a signal batch, with its number of signals. `marshal` encodes it in a
-- codec, `write` is whether the transport takes a frame.
pub record Sender (D S : Type 0) : Type 0 where
  pub crypto : Crypto
  pub codecs : Codecs D
  pub marshal : ℕ → S → Option Bytes
  pub signals : S → ℕ
  pub encode_batch : Batch → Option Bytes
  pub encode_envelope : Envelope → Option Bytes
  pub write : Bytes → Bool
  pub supports_datagram : Bool
  pub send_datagram_frame : Bytes → Bool

abbrev pub dict_compress_min_bytes : ℕ
dict_compress_min_bytes = 512

abbrev pub zstd_compress_min_bytes : ℕ
zstd_compress_min_bytes = 4096

abbrev pub is_some {ℓ} : {A : Type ℓ} → Option A → Bool
is_some none = false
is_some (some a) = true

-- pickCompression.
unfoldable pub pick_compression : {D : Type 0} → Client D → ℕ → ℕ
pick_compression s n =
    if ltb dict_compress_min_bytes n && is_some s.zdict && contains s.negotiated cap_zstd_dict
    then compression_zstd_dict
    else if leb zstd_compress_min_bytes n
    then compression_zstd
    else compression_none

abbrev pub or_batch {ℓ} : {A : Type ℓ} → Option A → Result A
or_batch none = err local_batch
or_batch (some a) = ok a

abbrev pub or_session {ℓ} : {A : Type ℓ} → Option A → Result A
or_session none = err local_session
or_session (some a) = ok a

-- The codec of the handshake, or protobuf's.
abbrev pub codec_or_proto : Option ℕ → ℕ
codec_or_proto none = codec_proto
codec_or_proto (some c) = c

module _ {D S : Type 0} (x : Sender D S) where
  -- The sealing at the end of encodeAndSeal, for the seq that was taken.
  unfoldable pub seal_batch : S → Option TraceContext → Bytes → ℕ → Client D → ℕ → Result Bytes
  seal_batch sb trace wire frame_type s seq =
      or_batch (
        x.encode_batch (record {
          batch_seq = seq;
          batch_correlation = [];
          batch_trace = trace;
          events_count = x.signals sb % 2 ^ 32;
          payload = wire;
        }))
      >>= λ bw. or_session s.keys >>= λ keys.
          seal_envelope x.crypto x.codecs x.encode_envelope (record {
            frame_type = frame_type;
            session_id = s.session_id;
            seal_seq = seq;
            seal_epoch = 0;
            seal_compression = pick_compression s (length bw);
            keys = some keys;
            dict = s.zdict;
            batch_wire = bw;
            seal_mac_key = keys.dual_mac_key;
          })

  -- The checks and the encoding before a seq is taken.
  unfoldable pub ready_to_send : S → ℕ → Client D → Result Bytes
  ready_to_send sb now s =
      refuse_if (not (s.machine == ready)) local_session
      >> refuse_if (slt 0 s.expiry && slt s.expiry now) server_draining
      >> or_batch (x.marshal (codec_or_proto s.codec) sb)

  -- The envelope with its seq.
  unfoldable pub numbered : ℕ → Result Bytes → Result (Bytes × ℕ)
  numbered seq (err e) = err e
  numbered seq (ok env) = ok (env, seq)

  unfoldable pub sealed_with :
      S → Option TraceContext → ℕ → Result Bytes → Client D → Client D × Result (Bytes × ℕ)
  sealed_with sb trace frame_type (err e) s = (s, err e)
  sealed_with sb trace frame_type (ok wire) s =
      let seq = next_seq s.last_seq in
      let s' = record s { last_seq = seq } in
      (s', numbered seq (seal_batch sb trace wire frame_type s' seq))

  -- encodeAndSeal at the Unix time `now`: a seq that was taken stays taken.
  unfoldable pub encode_and_seal :
      S → Option TraceContext → ℕ → ℕ → Client D → Client D × Result (Bytes × ℕ)
  encode_and_seal sb trace frame_type now s =
      sealed_with sb trace frame_type (ready_to_send sb now s) s

  -- The ledger after Consume and, if the frame could not be written, Rollback.
  unfoldable pub written : Bool → ℕ → CreditLedger → Client D → Client D × Result ℕ
  written true seq l s = (record s { ledger = some l }, ok seq)
  written false seq l s = (record s { ledger = some (rollback l seq).0 }, err local_batch)

  unfoldable pub after_consume : Bytes → ℕ → Result CreditLedger → Client D → Client D × Result ℕ
  after_consume env seq (err e) s = (s, err e)
  after_consume env seq (ok l) s = written (x.write env) seq l s

  unfoldable pub with_ledger :
      Bytes → ℕ → Option CreditLedger → ℕ → ℕ → Client D → Client D × Result ℕ
  with_ledger env seq none deadline now s = (s, err local_session)
  with_ledger env seq (some l) deadline now s =
      after_consume env seq (consume l seq (length env) [] deadline now) s

  unfoldable pub with_envelope : ℕ → ℕ → Result (Bytes × ℕ) → Client D → Client D × Result ℕ
  with_envelope deadline now (err e) s = (s, err e)
  with_envelope deadline now (ok (env, seq)) s = with_ledger env seq s.ledger deadline now s

  -- SendBatch; no batch is a nil one. `now` is the Unix time, `tick` and `deadline` are the ledger's.
  unfoldable pub send_batch :
      Option S → Option TraceContext → ℕ → ℕ → ℕ → Client D → Client D × Result ℕ
  send_batch none trace now tick deadline s = (s, err local_batch)
  send_batch (some sb) trace now tick deadline s =
      let (s', r) = encode_and_seal sb trace type_batch now s in with_envelope deadline tick r s'

  unfoldable pub datagram_sent : Result (Bytes × ℕ) → Result ℕ
  datagram_sent (err e) = err e
  datagram_sent (ok (env, seq)) = if x.send_datagram_frame env then ok seq else err local_batch

  -- SendDatagram: without datagrams on both sides it is SendBatch.
  unfoldable pub send_datagram :
      Option S → Option TraceContext → ℕ → ℕ → ℕ → Client D → Client D × Result ℕ
  send_datagram none trace now tick deadline s = (s, err local_batch)
  send_datagram (some sb) trace now tick deadline s =
      if x.supports_datagram && contains s.negotiated cap_datagram
      then (let (s', r) = encode_and_seal sb trace type_dgram now s in (s', datagram_sent r))
      else send_batch (some sb) trace now tick deadline s
