-- ===== src/Batches.antt =====
-- internal/protocol/handler_batch.go and handler_sink.go: what the server does with BATCH and DGRAM
-- frames, from the frame to the sink and to the RESULT. A message counts as sent when it is handed to
-- core.Encode and SendControlFrame, whose failures are logged and change nothing here.
pub mod Pipeline
pub mod Sink
pub mod Handling
pub mod Reaper
pub mod Datagram
pub mod Released
pub mod Budget
pub mod Verdicts
pub mod Callbacks
pub mod Answers
pub mod Replies
pub mod Conserved
pub mod Balanced
pub mod Workers
pub mod Accounted
pub mod Admitted
use mbta_go.Base.{ℕ, ◌-◌, ◌^◌, List, [], Bool, false, not, if◌then◌else◌, eqb, slt, Bytes}
use mbta_go.Base.{Option, none, some}
use mbta_go.Wire.{Envelope, TraceContext}
use mbta_go.Keys.{Crypto, SessionKeys}
use mbta_go.Envelope.{Codecs}
use mbta_go.Policy.{ServerPolicy}
use mbta_go.Credit.Manager.{CreditManager, SettleGrant, WireResult, fresh_grant, new_credit_manager}

-- TypeDgram and TypeBatch.
abbrev pub type_dgram : ℕ
type_dgram = 144

abbrev pub type_batch : ℕ
type_batch = 145

abbrev pub max_batch_events : ℕ
max_batch_events = 10000

-- corepb.Batch.
pub record Batch : Type 0 where
  pub batch_seq : ℕ
  pub batch_correlation : Bytes
  pub batch_trace : Option TraceContext
  pub events_count : ℕ
  pub payload : Bytes

-- core.BatchEvent with its BatchMeta; a SignalBatch is opaque to the handler.
pub record BatchEvent (S : Type 0) : Type 0 where
  pub agent : Bytes
  pub meta_seq : ℕ
  pub meta_correlation : Bytes
  pub meta_events_count : ℕ
  pub received_at : ℕ
  pub meta_trace : Option TraceContext
  pub decoded : Option S
  pub raw : Bytes

-- OutcomeLevel, an int8 with four names.
abbrev pub outcome_accepted : ℕ
outcome_accepted = 0

abbrev pub outcome_durable : ℕ
outcome_durable = 1

abbrev pub outcome_rejected : ℕ
outcome_rejected = 2

abbrev pub outcome_released : ℕ
outcome_released = 3

pub record Outcome : Type 0 where
  pub outcome_level : ℕ
  pub outcome_code : ℕ

-- What a call of the sink's handler does before it returns: the outcomes it reports through `done`, and
-- whether it panics after them.
abbrev pub SinkCall : Type 0
SinkCall = List Outcome × Bool

-- The control frames that this part sends. The text of an ABORT is left out.
pub data Control : Type 0 where
  result_frame : WireResult → Control
  credit_frame : (batches bytes : ℕ) → Control
  abort_frame : (code : ℕ) → Control

-- A handler's surroundings: what is not in the repository (cryptography, compression, protobuf, the
-- sink), the decoding of signal batches, the configuration, what the handshake has fixed, and whether the connection is torn down while the task
-- of a lease is being enqueued.
pub record Server (D S : Type 0) : Type 0 where
  pub crypto : Crypto
  pub codecs : Codecs D
  pub decode_envelope : Bytes → Option Envelope
  pub decode_batch : Bytes → Option Batch
  pub unmarshal_signal_batch : ℕ → Bytes → Option S
  pub sink_handler : Option (BatchEvent S → SinkCall)
  pub policy : ServerPolicy
  pub zdict : Option D
  pub raw_events : Bool
  pub sink_deadline : ℕ
  pub session_keys : Option SessionKeys
  pub expires_at : ℕ
  pub session_id : Bytes
  pub agent_id : Bytes
  pub codec : ℕ
  pub torn_during : ℕ → Bool

pub record SinkTask (S : Type 0) : Type 0 where
  pub event : BatchEvent S
  pub lease : ℕ
  pub durable : Bool
  pub task_bytes : ℕ
  pub deadline : ℕ

-- A grant that a `done` callback shares with the handler, and the callback's sync.Once.
pub record Lease : Type 0 where
  pub grant : SettleGrant
  pub fired : Bool

-- sinkQueue, sinkDone and the bytes that are queued or being handled; no capacity is the nil channel
-- of the synchronous mode.
pub record SinkQueue (S : Type 0) : Type 0 where
  pub capacity : Option ℕ
  pub max_bytes : ℕ
  pub tasks : List (SinkTask S)
  pub queued_bytes : ℕ
  pub sink_done : Bool

-- The part of CoreHandler that batches change. `leases` is the heap of shared grants, `next_lease` its
-- next free place; `sent` and `handed` record what went out, the oldest first.
pub record Handler (S : Type 0) : Type 0 where
  pub manager : CreditManager
  pub flush_armed : Bool
  pub closed : Bool
  pub sent : List Control
  pub leases : ℕ → Lease
  pub next_lease : ℕ
  pub sink : SinkQueue S
  pub handed : List (BatchEvent S)

-- initSinkQueue: the configured size and limit, in two's complement; without a sink there is no queue
-- either, and what is left of the record is not used.
unfoldable pub init_sink_queue : {S : Type 0} → Bool → ℕ → ℕ → SinkQueue S
init_sink_queue has_sink size limit = record {
  capacity =
      if not has_sink
      then none
      else if eqb size 0
      then some 256
      else if slt size 0
      then none
      else some size;
  max_bytes = if eqb limit 0 then 33554432 else if slt limit 0 then 2 ^ 63 - 1 else limit;
  tasks = [];
  queued_bytes = 0;
  sink_done = false;
}

-- The part of NewCoreHandler that batches need.
unfoldable pub new_handler : {S : Type 0} → ServerPolicy → Bool → ℕ → ℕ → Handler S
new_handler p has_sink size limit = record {
  manager = new_credit_manager p.initial_credit_batches p.initial_credit_bytes 256;
  flush_armed = false;
  closed = false;
  sent = [];
  leases = λ _. record { grant = fresh_grant 0; fired = false };
  next_lease = 0;
  sink = init_sink_queue has_sink size limit;
  handed = [];
}
