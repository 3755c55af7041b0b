-- ===== src/Batches/Pipeline.antt =====
-- The checks that BATCH and DGRAM share, and the event that the sink is given, of
-- internal/protocol/handler_batch.go.
use mbta_go.Base.{ℕ, ◌&&◌, not, if◌then◌else◌, ltb, eqb, slt, Bytes, Option, none, some, [], length}
use mbta_go.Codes.{
  Result, ErrCode, ok, err, ◌>>◌, ◌>>=◌, refuse_if, internal, server_draining, envelope_open_fail,
  batch_too_large, batch_invalid,
}
use mbta_go.Wire.{Envelope}
use mbta_go.Validation.{validate_batch_trace_context}
use mbta_go.Envelope.{open_envelope}
use mbta_go.Batches.{Server, Batch, BatchEvent, max_batch_events}

-- Every error of a step becomes the one code of that step.
unfoldable pub recoded {ℓ} : {A : Type ℓ} → Result A → ErrCode → Result A
recoded (ok a) c = ok a
recoded (err e) c = err c

-- core.Decode, with the code for a failure.
unfoldable pub decoded_or {ℓ} : {A : Type ℓ} → Option A → ErrCode → Result A
decoded_or none c = err c
decoded_or (some a) c = ok a

module _ {D S : Type 0} (srv : Server D S) where
  -- The checks on the batch itself.
  unfoldable pub check_batch : Envelope → Batch → Result (Unit {0})
  check_batch env b =
      refuse_if (not (eqb b.batch_seq env.seq)) batch_invalid
      >> refuse_if (ltb max_batch_events b.events_count) batch_invalid
      >> recoded (validate_batch_trace_context b.batch_trace) batch_invalid

  -- decodeAndValidate from the decrypted batch on.
  unfoldable pub validate_opened : Envelope → Bytes → Result (Batch × Bytes)
  validate_opened env wire =
      refuse_if (slt srv.policy.policy_batch_bytes (length wire)) batch_too_large
      >> (decoded_or (srv.decode_batch wire) batch_invalid >>= λ b.
          check_batch env b >> ok (b, wire))

  -- decodeAndValidate at the Unix time `now`.
  unfoldable pub decode_and_validate : Envelope → ℕ → ℕ → Result (Batch × Bytes)
  decode_and_validate env frame_type now = elim srv.session_keys [
    | none ↦ err internal
    | some keys ↦
        refuse_if (slt 0 srv.expires_at && slt srv.expires_at now) server_draining
        >> (recoded
              (open_envelope srv.crypto srv.codecs frame_type srv.session_id (some keys) srv.zdict
                env)
              envelope_open_fail
            >>= λ wire. validate_opened env wire)
  ]

  -- makeEvent; decodeSignalBatch's codec is the negotiated one, and its failure leaves `Decoded` nil.
  unfoldable pub make_event : Batch → Bytes → ℕ → BatchEvent S
  make_event b wire now = record {
    agent = srv.agent_id;
    meta_seq = b.batch_seq;
    meta_correlation = b.batch_correlation;
    meta_events_count = b.events_count;
    received_at = now;
    meta_trace = b.batch_trace;
    decoded = if srv.raw_events then none else srv.unmarshal_signal_batch srv.codec b.payload;
    raw = if srv.raw_events then wire else [];
  }
