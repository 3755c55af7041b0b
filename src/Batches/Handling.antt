-- ===== src/Batches/Handling.antt =====
-- The way of a BATCH frame through internal/protocol/handler_batch.go: processBatch, deliver,
-- rejectAtCapacity, the replies and the abort.
use mbta_go.Base.{
  ℕ, List, [], ◌∷◌, ◌++◌, ◌/◌, Bool, true, false, eqb, Bytes, Option, none, some, length,
}
use mbta_go.Codes.{Result, ok, err, ErrCode, num, internal, server_draining, window_exceeded}
use mbta_go.Wire.{Envelope, ack_mode_durable}
use mbta_go.Credit.Manager.{
  SettleGrant, WireResult, AdmitResult, accept, duplicate, terminal_hit, below_unknown, violation,
  admit, consume, backfill, release, settle, accept_grant, fresh_grant, level_accepted,
  level_rejected, level_released,
}
use mbta_go.Batches.{Server, Batch, BatchEvent, SinkCall, Handler, abort_frame, type_batch}
use mbta_go.Batches.Pipeline.{decode_and_validate}
use mbta_go.Batches.Sink.{
  maybe_schedule_flush, send_results, store_grant, settle_lease, enqueue_sink,
}

-- The results that repeat what is known of a seq.
unfoldable pub repeat_result : ℕ → AdmitResult → List WireResult
repeat_result seq r = elim r.decision [
  | terminal_hit ↦
      record {
        ref_seq = seq;
        level = r.terminal.level;
        code = r.terminal.code;
        retry_hint_ms = 0;
        correlation = [];
      }
      ∷ []
  | below_unknown ↦
      record {
        ref_seq = seq;
        level = level_released;
        code = num internal;
        retry_hint_ms = 0;
        correlation = [];
      }
      ∷ []
  | duplicate ↦
      record {
        ref_seq = seq;
        level = level_accepted;
        code = 0;
        retry_hint_ms = 0;
        correlation = r.dup_slot.correlation;
      }
      ∷ []
  | _ ↦ []
]

module _ {S : Type 0} where
  unfoldable pub abort : ErrCode → Handler S → Handler S
  abort code h = record h { sent = h.sent ++ (abort_frame (num code) ∷ []); closed = true }

  -- grant.Settle on a grant that no callback shares.
  unfoldable pub settle_own : SettleGrant → ℕ → ℕ → ℕ → ℕ → Handler S → Handler S
  settle_own g level code retry_ms frame_bytes h =
      let (m, g', rs) = settle h.manager g level code retry_ms frame_bytes in
      maybe_schedule_flush (send_results rs (record h { manager = m }))

  -- grant.Accept on a shared grant.
  unfoldable pub accept_lease : ℕ → Handler S → Handler S
  accept_lease place h =
      let (g, rs) = accept_grant h.manager (h.leases place).grant true in
      send_results rs (store_grant place g h)

  -- rejectAtCapacity once Consume has answered.
  unfoldable pub reject_charged : Option ErrCode → SettleGrant → ℕ → Handler S → Handler S
  reject_charged (some e) g frame_bytes h = abort window_exceeded h
  reject_charged none g frame_bytes h =
      settle_own g level_released (num server_draining) 1000 frame_bytes h

  -- rejectAtCapacity with the grant of Admit.
  unfoldable pub reject_granted : SettleGrant → ℕ → Handler S → Handler S
  reject_granted g frame_bytes h =
      let (m, g', failed) = consume h.manager g frame_bytes in
      reject_charged failed g' frame_bytes (record h { manager = m })

  unfoldable pub reject_admitted : ℕ → ℕ → AdmitResult → Handler S → Handler S
  reject_admitted seq frame_bytes r h = elim r.decision [
    | accept ↦ reject_granted (fresh_grant seq) frame_bytes h
    | violation ↦ abort window_exceeded h
    | _ ↦ h
  ]

module _ {D S : Type 0} (srv : Server D S) where
  -- rejectAtCapacity, by the decoded envelope.
  unfoldable pub reject_envelope : Option Envelope → ℕ → ℕ → Handler S → Handler S
  reject_envelope none frame_bytes now h = h
  reject_envelope (some env) frame_bytes now h =
      let (m, r) = admit h.manager env.seq now in
      reject_admitted env.seq frame_bytes r (record h { manager = m })

  -- rejectAtCapacity.
  unfoldable pub reject_at_capacity : Bytes → ℕ → Handler S → Handler S
  reject_at_capacity payload now h =
      reject_envelope (srv.decode_envelope payload) (length payload) now h

  -- deliver after enqueueSink has answered.
  unfoldable pub after_enqueue : Bool → ℕ → Bool → ℕ → Handler S → Handler S
  after_enqueue true place true frame_bytes h = accept_lease place h
  after_enqueue true place false frame_bytes h =
      maybe_schedule_flush (settle_lease place level_accepted 0 0 frame_bytes h)
  after_enqueue false place durable frame_bytes h =
      maybe_schedule_flush
        (settle_lease place level_released (num server_draining) 1000 frame_bytes h)

  -- deliver, by the sink's handler.
  unfoldable pub deliver_to :
      Option (BatchEvent S → SinkCall) → SettleGrant → Batch → Bytes → ℕ → ℕ → Handler S → Handler S
  deliver_to none g b wire frame_bytes now h = settle_own g level_accepted 0 0 frame_bytes h
  deliver_to (some f) g b wire frame_bytes now h =
      let durable = eqb srv.policy.policy_ack_mode ack_mode_durable in
      let (place, taken, h') = enqueue_sink srv f g b wire frame_bytes durable now h in
      after_enqueue taken place durable frame_bytes h'

  unfoldable pub deliver : SettleGrant → Batch → Bytes → ℕ → ℕ → Handler S → Handler S
  deliver g b wire frame_bytes now h = deliver_to srv.sink_handler g b wire frame_bytes now h

  -- processBatch with a grant that is charged, once decodeAndValidate has answered. Of its errors only
  -- two have a meaning of their own.
  unfoldable pub process_decoded :
      SettleGrant → ℕ → ℕ → Result (Batch × Bytes) → Handler S → Handler S
  process_decoded g frame_bytes now (ok (b, wire)) h =
      deliver g b wire frame_bytes now
        (record h { manager = backfill h.manager g b.batch_correlation })
  process_decoded g frame_bytes now (err internal) h = record h {
    manager = (release h.manager g).0;
  }
  process_decoded g frame_bytes now (err server_draining) h = abort server_draining h
  process_decoded g frame_bytes now (err e) h = settle_own g level_rejected (num e) 0 frame_bytes h

  -- processBatch once Consume has answered.
  unfoldable pub process_charged :
      Option ErrCode → SettleGrant → Envelope → ℕ → ℕ → Handler S → Handler S
  process_charged (some e) g env frame_bytes now h = abort window_exceeded h
  process_charged none g env frame_bytes now h =
      process_decoded g frame_bytes now (decode_and_validate srv env type_batch (now / 1000000000))
        h

  -- processBatch with the grant of Admit.
  unfoldable pub process_granted : SettleGrant → Envelope → ℕ → ℕ → Handler S → Handler S
  process_granted g env frame_bytes now h =
      let (m, g', failed) = consume h.manager g frame_bytes in
      process_charged failed g' env frame_bytes now (record h { manager = m })

  unfoldable pub process_admitted : Envelope → ℕ → ℕ → AdmitResult → Handler S → Handler S
  process_admitted env frame_bytes now r h = elim r.decision [
    | accept ↦ process_granted (fresh_grant env.seq) env frame_bytes now h
    | violation ↦ abort window_exceeded h
    | _ ↦ send_results (repeat_result env.seq r) h
  ]

  -- processBatch, by the decoded envelope.
  unfoldable pub process_envelope : Option Envelope → ℕ → ℕ → Handler S → Handler S
  process_envelope none frame_bytes now h = h
  process_envelope (some env) frame_bytes now h =
      let (m, r) = admit h.manager env.seq now in
      process_admitted env frame_bytes now r (record h { manager = m })

  -- processBatch at `now`, in nanoseconds.
  unfoldable pub process_batch : Bytes → ℕ → Handler S → Handler S
  process_batch payload now h =
      process_envelope (srv.decode_envelope payload) (length payload) now h
