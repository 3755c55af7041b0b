-- ===== src/Tests/CodecRuns.antt =====
-- core/codec.go and core/codec_proto.go at concrete inputs.
use mbta_go.Base.{ℕ, ◌^◌, ◌≡◌, refl, [], ◌∷◌, false, Bytes, Option, none, some, arith}
use mbta_go.Codes.{Result, ok}
use mbta_go.Signal.{
  SignalRecord, SignalBatch, validate_signal_batch, validate_attrs_map, validate_key,
  validate_present, validate_signal, validate_signal_type, validate_required,
  validate_signal_field_lengths, validate_field, as_invalid, validate_signal_trace_context,
  signal_type_log,
}
use mbta_go.Codes.{check_all}
use mbta_go.Validation.{
  validate_text_field, has_control_chars, has_strict_control_chars, validate_hex_id,
  validate_trace_state, validate_entry, validate_trace_state_entry_field,
}
use mbta_go.Codec.{marshal_signal_batch_codec, unmarshal_signal_batch_codec, register_codec}
use mbta_go.Codec.Values.{GoValue, string_of, unsigned_of, to_any_value, of_any_value}
use mbta_go.Codec.Batch.{BatchMessage, to_proto_signal_batch, proto_codec}
use mbta_go.Codec.RoundTrip.{wired_message, canonical_batch}
use mbta_go.Codec.Dispatch.{unmarshal_signal_batch_codec-marshal_signal_batch_codec}

-- Decimal text, by the number itself.
abbrev text_of : ℕ → Bytes
text_of n = n ∷ []

-- A log with a nil attribute, a small unsigned one and one that int64 cannot hold.
abbrev unsigned_log : SignalRecord (GoValue ℕ) ℕ ℕ ℕ
unsigned_log = record {
  signal_type = signal_type_log;
  event_id = [];
  time_unix_ns = 1;
  observed_time_ns = 1;
  trace_id = [];
  span_id = [];
  parent_span_id = [];
  attributes =
      (97 ∷ [], some (unsigned_of 5))
      ∷ (98 ∷ [], none)
      ∷ (99 ∷ [], some (unsigned_of (2 ^ 63)))
      ∷ [];
  body = some (string_of (104 ∷ 105 ∷ []));
  severity_number = 9;
  severity_text = [];
  metric_name = [];
  metric_fields = [];
  metric_unit = [];
  temporality = [];
  is_monotonic = false;
  span_name = [];
  kind = [];
  start_time_unix_ns = 0;
  end_time_unix_ns = 0;
  status_code = [];
  status_message = [];
  trace_flags = 1;
  trace_state = some (record { key = 107 ∷ []; value = 118 ∷ [] }) ∷ [];
  exp_histogram = none;
  profile = none;
}

abbrev unsigned_batch : SignalBatch (GoValue ℕ) ℕ ℕ ℕ
unsigned_batch = record {
  schema_url = [];
  resource_attributes = [];
  scope_name = 109 ∷ [];
  scope_version = [];
  scope_collector_id = [];
  signals = some unsigned_log ∷ [];
}

unsigned_batch_passes : validate_signal_batch unsigned_batch ≡ ok tt
unfolding validate_signal_batch validate_attrs_map check_all validate_key validate_present
    validate_signal validate_signal_type validate_required validate_signal_field_lengths
    validate_field as_invalid validate_text_field has_control_chars has_strict_control_chars
    validate_signal_trace_context validate_hex_id validate_trace_state validate_entry
    validate_trace_state_entry_field
unsigned_batch_passes = refl

-- A library that knows this one message.
abbrev write_one : BatchMessage ℕ ℕ ℕ → Result Bytes
write_one pb = ok (1 ∷ [])

abbrev wired_option : Option (BatchMessage ℕ ℕ ℕ) → Option (BatchMessage ℕ ℕ ℕ)
wired_option none = none
wired_option (some pb) = some (wired_message pb)

abbrev read_one : Bytes → Option (BatchMessage ℕ ℕ ℕ)
read_one wire = wired_option (to_proto_signal_batch text_of unsigned_batch)

unmarshal_signal_batch_codec-marshal_signal_batch_codec_example :
    (marshal_signal_batch_codec
        (register_codec (some (proto_codec text_of write_one read_one)) [])
        1
        (some unsigned_batch)
      ≡ some (ok (1 ∷ [])))
    × (unmarshal_signal_batch_codec
          (register_codec (some (proto_codec text_of write_one read_one)) [])
          1
          (1 ∷ [])
        ≡ ok (canonical_batch text_of unsigned_batch))
    × (validate_signal_batch (canonical_batch text_of unsigned_batch) ≡ ok tt)
unmarshal_signal_batch_codec-marshal_signal_batch_codec_example =
    unmarshal_signal_batch_codec-marshal_signal_batch_codec text_of write_one read_one []
      unsigned_batch (1 ∷ []) unsigned_batch_passes (λ pb h. (refl, rw h refl, omega arith))

-- The least unsigned number above int64 comes back as text.
large_unsigned :
    of_any_value (to_any_value {Float = ℕ} text_of (unsigned_of (2 ^ 63)))
    ≡ some (string_of (2 ^ 63 ∷ []))
unfolding of_any_value to_any_value
large_unsigned = refl
