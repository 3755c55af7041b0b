-- ===== src/Codec/Batch.antt =====
-- core/codec_proto.go: the conversions between a signal batch and its message, and protoCodec.
use mbta_go.Base.{ℕ, ◌+◌, ◌-◌, ◌%◌, ◌^◌, List, [], ◌∷◌, Bool, not, ◌||◌, if◌then◌else◌, ltb}
use mbta_go.Base.{Bytes, Option, none, some, Map, map}
use mbta_go.Codes.{Result, ok, err, batch_invalid}
use mbta_go.Wire.{TraceStateEntry}
use mbta_go.Signal.{SignalRecord, SignalBatch, missing}
use mbta_go.Codec.{SignalCodec}
use mbta_go.Codec.Values.{
  GoValue, AnyValue, any_to_proto_value, any_map_to_proto, proto_value_to_any, proto_map_to_any,
  to_proto_resource, from_proto_resource,
}

-- `int32(n)` of an int, and `int(n)` of an int32.
abbrev pub to_int32 : ℕ → ℕ
to_int32 n = n % 2 ^ 32

abbrev pub of_int32 : ℕ → ℕ
of_int32 n = if ltb n (2 ^ 31) then n else n + (2 ^ 64 - 2 ^ 32)

pub record InstrumentationScope : Type 0 where
  pub name : Bytes
  pub version : Bytes
  pub collector_id : Bytes

module _ (Float Histogram Profile : Type 0) where
  -- corepb.SignalRecord; `severity_number` is an int32.
  pub record SignalMessage : Type 0 where
    pub signal_type : Bytes
    pub event_id : Bytes
    pub time_unix_ns : ℕ
    pub observed_time_unix_ns : ℕ
    pub trace_id : Bytes
    pub span_id : Bytes
    pub parent_span_id : Bytes
    pub attributes : Map Bytes (Option (AnyValue Float))
    pub body : Option (AnyValue Float)
    pub severity_number : ℕ
    pub severity_text : Bytes
    pub metric_name : Bytes
    pub metric_fields : Map Bytes Float
    pub metric_unit : Bytes
    pub temporality : Bytes
    pub is_monotonic : Bool
    pub span_name : Bytes
    pub kind : Bytes
    pub start_time_unix_ns : ℕ
    pub end_time_unix_ns : ℕ
    pub status_code : Bytes
    pub status_message : Bytes
    pub exp_histogram : Option Histogram
    pub profile : Option Profile
    pub trace_flags : ℕ
    pub trace_state : List TraceStateEntry

  -- corepb.SignalBatch, with the attributes of its Resource.
  pub record BatchMessage : Type 0 where
    pub schema_url : Bytes
    pub resource : Option (Map Bytes (Option (AnyValue Float)))
    pub scope : Option InstrumentationScope
    pub signals : List SignalMessage

-- A loop over pointers that reads each of them: a nil one panics.
unfoldable pub cons_some {ℓ} : {A : Type ℓ} → Option A → Option (List A) → Option (List A)
cons_some none rest = none
cons_some (some x) none = none
cons_some (some x) (some xs) = some (x ∷ xs)

-- The loop over TraceState of toProtoSignalRecord.
unfoldable pub to_proto_trace_state : List (Option TraceStateEntry) → Option (List TraceStateEntry)
to_proto_trace_state [] = some []
to_proto_trace_state (e ∷ es) = cons_some e (to_proto_trace_state es)

-- The scope of toProtoSignalBatch, from its name, version and collector.
unfoldable pub to_proto_scope : Bytes → Bytes → Bytes → Option InstrumentationScope
to_proto_scope n v c =
    if not (missing n) || not (missing v) || not (missing c)
    then some record { name = n; version = v; collector_id = c }
    else none

module _ {Float Histogram Profile : Type 0} (format_uint : ℕ → Bytes) where
  -- toProtoSignalRecord, with the trace state of its loop.
  unfoldable pub to_proto_fields :
      SignalRecord (GoValue Float) Float Histogram Profile
      → List TraceStateEntry
      → SignalMessage Float Histogram Profile
  to_proto_fields s entries = record {
    signal_type = s.signal_type;
    event_id = s.event_id;
    time_unix_ns = s.time_unix_ns;
    observed_time_unix_ns = s.observed_time_ns;
    trace_id = s.trace_id;
    span_id = s.span_id;
    parent_span_id = s.parent_span_id;
    attributes = any_map_to_proto format_uint s.attributes;
    body = any_to_proto_value format_uint s.body;
    severity_number = to_int32 s.severity_number;
    severity_text = s.severity_text;
    metric_name = s.metric_name;
    metric_fields = s.metric_fields;
    metric_unit = s.metric_unit;
    temporality = s.temporality;
    is_monotonic = s.is_monotonic;
    span_name = s.span_name;
    kind = s.kind;
    start_time_unix_ns = s.start_time_unix_ns;
    end_time_unix_ns = s.end_time_unix_ns;
    status_code = s.status_code;
    status_message = s.status_message;
    exp_histogram = s.exp_histogram;
    profile = s.profile;
    trace_flags = s.trace_flags;
    trace_state = entries;
  }

  unfoldable pub to_proto_with :
      SignalRecord (GoValue Float) Float Histogram Profile
      → Option (List TraceStateEntry)
      → Option (SignalMessage Float Histogram Profile)
  to_proto_with s none = none
  to_proto_with s (some entries) = some (to_proto_fields s entries)

  -- toProtoSignalRecord; a nil record panics.
  unfoldable pub to_proto_signal_record :
      Option (SignalRecord (GoValue Float) Float Histogram Profile)
      → Option (SignalMessage Float Histogram Profile)
  to_proto_signal_record none = none
  to_proto_signal_record (some s) = to_proto_with s (to_proto_trace_state s.trace_state)

  -- The loop over Signals of toProtoSignalBatch.
  unfoldable pub to_proto_signals :
      List (Option (SignalRecord (GoValue Float) Float Histogram Profile))
      → Option (List (SignalMessage Float Histogram Profile))
  to_proto_signals [] = some []
  to_proto_signals (s ∷ ss) = cons_some (to_proto_signal_record s) (to_proto_signals ss)

  -- toProtoSignalBatch, with the messages of its loop.
  unfoldable pub to_proto_parts :
      SignalBatch (GoValue Float) Float Histogram Profile
      → List (SignalMessage Float Histogram Profile)
      → BatchMessage Float Histogram Profile
  to_proto_parts b messages = record {
    schema_url = b.schema_url;
    resource = to_proto_resource format_uint b.resource_attributes;
    scope = to_proto_scope b.scope_name b.scope_version b.scope_collector_id;
    signals = messages;
  }

  unfoldable pub to_proto_batch_with :
      SignalBatch (GoValue Float) Float Histogram Profile
      → Option (List (SignalMessage Float Histogram Profile))
      → Option (BatchMessage Float Histogram Profile)
  to_proto_batch_with b none = none
  to_proto_batch_with b (some messages) = some (to_proto_parts b messages)

  -- toProtoSignalBatch.
  unfoldable pub to_proto_signal_batch :
      SignalBatch (GoValue Float) Float Histogram Profile
      → Option (BatchMessage Float Histogram Profile)
  to_proto_signal_batch b = to_proto_batch_with b (to_proto_signals b.signals)

-- The getters of a scope that may be missing.
unfoldable pub scope_or_empty : Option InstrumentationScope → InstrumentationScope
scope_or_empty none = record { name = []; version = []; collector_id = [] }
scope_or_empty (some scope) = scope

module _ {Float Histogram Profile : Type 0} where
  -- fromProtoSignalRecord.
  unfoldable pub from_proto_signal_record :
      SignalMessage Float Histogram Profile → SignalRecord (GoValue Float) Float Histogram Profile
  from_proto_signal_record s = record {
    signal_type = s.signal_type;
    event_id = s.event_id;
    time_unix_ns = s.time_unix_ns;
    observed_time_ns = s.observed_time_unix_ns;
    trace_id = s.trace_id;
    span_id = s.span_id;
    parent_span_id = s.parent_span_id;
    attributes = proto_map_to_any s.attributes;
    body = proto_value_to_any s.body;
    severity_number = of_int32 s.severity_number;
    severity_text = s.severity_text;
    metric_name = s.metric_name;
    metric_fields = s.metric_fields;
    metric_unit = s.metric_unit;
    temporality = s.temporality;
    is_monotonic = s.is_monotonic;
    span_name = s.span_name;
    kind = s.kind;
    start_time_unix_ns = s.start_time_unix_ns;
    end_time_unix_ns = s.end_time_unix_ns;
    status_code = s.status_code;
    status_message = s.status_message;
    trace_flags = s.trace_flags;
    trace_state = map some s.trace_state;
    exp_histogram = s.exp_histogram;
    profile = s.profile;
  }

  -- fromProtoSignalBatch.
  unfoldable pub from_proto_signal_batch :
      BatchMessage Float Histogram Profile → SignalBatch (GoValue Float) Float Histogram Profile
  from_proto_signal_batch pb = record {
    schema_url = pb.schema_url;
    resource_attributes = from_proto_resource pb.resource;
    scope_name = (scope_or_empty pb.scope).name;
    scope_version = (scope_or_empty pb.scope).version;
    scope_collector_id = (scope_or_empty pb.scope).collector_id;
    signals = map (λ s. some (from_proto_signal_record s)) pb.signals;
  }

-- protoCodec's Marshal and Unmarshal, over those of the Protobuf library.
module _ {Float Histogram Profile : Type 0} (format_uint : ℕ → Bytes)
    (encode : BatchMessage Float Histogram Profile → Result Bytes)
    (decode : Bytes → Option (BatchMessage Float Histogram Profile)) where
  unfoldable pub encode_message :
      Option (BatchMessage Float Histogram Profile) → Option (Result Bytes)
  encode_message none = none
  encode_message (some pb) = some (encode pb)

  unfoldable pub marshal_proto :
      SignalBatch (GoValue Float) Float Histogram Profile → Option (Result Bytes)
  marshal_proto b = encode_message (to_proto_signal_batch format_uint b)

  unfoldable pub decoded_batch :
      Option (BatchMessage Float Histogram Profile)
      → Result (SignalBatch (GoValue Float) Float Histogram Profile)
  decoded_batch none = err batch_invalid
  decoded_batch (some pb) = ok (from_proto_signal_batch pb)

  unfoldable pub unmarshal_proto :
      Bytes → Result (SignalBatch (GoValue Float) Float Histogram Profile)
  unmarshal_proto wire = decoded_batch (decode wire)

  -- protoCodec; CODEC_PROTO is 1.
  unfoldable pub proto_codec : SignalCodec (SignalBatch (GoValue Float) Float Histogram Profile)
  proto_codec = record { codec = 1; marshal = marshal_proto; unmarshal = unmarshal_proto }
