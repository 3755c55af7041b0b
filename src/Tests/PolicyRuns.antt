-- ===== src/Tests/PolicyRuns.antt =====
-- core/policy.go, core/validation.go, core/message.go and core/signal.go at concrete inputs.
use mbta_go.Base.{ℕ, ◌≡◌, ◌↔◌, ◌<◌, refl, List, [], ◌∷◌, true, false, ◌&&◌, ◌||◌, arith}
use mbta_go.Base.{ltb, eqb, Bytes, bytes_eq, all, All, length, replicate, none, some}
use mbta_go.Codes.{check_all, ok}
use mbta_go.Wire.{profile_intl, profile_gm, Hello, TraceContext}
use mbta_go.Policy.{
  ServerPolicy, cap_cbor, cap_zstd_dict, default_server_policy, validate_policy, validate_dict,
}
use mbta_go.Validation.{
  validate_text_field, has_control_chars, has_strict_control_chars, validate_trace_state,
  validate_hex_id, validate_batch_trace_context,
}
use mbta_go.Validation.Accepted.{verdict, trace_context, validate_batch_trace_context-trace_context}
use mbta_go.Handshake.{validate_hello, validate_hello_ack, build_hello_ack}
use mbta_go.Handshake.Accepted.{
  clean, clean_entry, validate_hello_iff, validate_hello_ack-build_hello_ack,
}
use mbta_go.Signal.{
  SignalRecord, SignalBatch, validate_signal_batch, signal_type_log, validate_attrs_map,
  validate_key, validate_present, validate_signal, validate_signal_type, validate_required,
  validate_signal_field_lengths, validate_field, as_invalid, validate_signal_trace_context,
}
use mbta_go.Signal.Accepted.{PresentAccepted, clean_map, validate_signal_batch-IsAccepted}

abbrev intl_policy : ServerPolicy
intl_policy = default_server_policy profile_intl

abbrev offered : List Bytes
offered = cap_cbor ∷ cap_zstd_dict ∷ []

-- "00f1".
abbrev short_id : Bytes
short_id = 48 ∷ 48 ∷ 102 ∷ 49 ∷ []

abbrev traced_batch : TraceContext
traced_batch = record {
  trace_id = replicate 32 97;
  span_id = replicate 16 49;
  parent_span_id = [];
  trace_flags = 1;
  trace_state = some (record { key = 97 ∷ []; value = [] }) ∷ [];
}

validate_batch_trace_context-trace_context_example :
    validate_batch_trace_context (some traced_batch) ≡ verdict (trace_context traced_batch)
validate_batch_trace_context-trace_context_example =
    validate_batch_trace_context-trace_context traced_batch

abbrev first_hello : Hello
first_hello = record {
  profile = profile_gm;
  agent_id = 97 ∷ [];
  meta = [];
  capabilities = [];
  client_eph = replicate 65 4;
  token_proof = 1 ∷ [];
}

validate_hello_iff_example : (validate_hello (some first_hello) ≡ ok tt) ↔ (
    (ltb 0 (length first_hello.agent_id)
      && clean first_hello.agent_id
      && all clean_entry first_hello.meta
      && ((eqb first_hello.profile profile_intl && eqb (length first_hello.client_eph) 32)
          || (eqb first_hello.profile profile_gm && eqb (length first_hello.client_eph) 65))
      && ltb 0 (length first_hello.token_proof))
    ≡ true)
validate_hello_iff_example = validate_hello_iff first_hello

intl_policy_passes : validate_policy intl_policy ≡ ok tt
unfolding validate_policy default_server_policy validate_dict
intl_policy_passes = refl

validate_hello_ack-build_hello_ack_example :
    validate_hello_ack
      (some (build_hello_ack intl_policy (1 ∷ []) 3 [] (2 ∷ []) 1700000000 (9 ∷ [])))
    ≡ ok tt
validate_hello_ack-build_hello_ack_example =
    validate_hello_ack-build_hello_ack intl_policy (1 ∷ []) 3 [] (2 ∷ []) 1700000000 (9 ∷ [])
      intl_policy_passes (omega arith) (omega arith) (omega arith)

abbrev one_log : SignalRecord ℕ ℕ ℕ ℕ
one_log = record {
  signal_type = signal_type_log;
  event_id = [];
  time_unix_ns = 1;
  observed_time_ns = 1;
  trace_id = [];
  span_id = [];
  parent_span_id = [];
  attributes = (97 ∷ [], some 5) ∷ [];
  body = some 7;
  severity_number = 9;
  severity_text = [];
  metric_name = [];
  metric_fields = [];
  metric_unit = [];
  temporality = [];
  is_monotonic = false;
  span_name = [];
  kind = [];
  start_time_unix_ns = 0;
  end_time_unix_ns = 0;
  status_code = [];
  status_message = [];
  trace_flags = 0;
  trace_state = [];
  exp_histogram = none;
  profile = none;
}

abbrev log_batch : SignalBatch ℕ ℕ ℕ ℕ
log_batch = record {
  schema_url = [];
  resource_attributes = [];
  scope_name = [];
  scope_version = [];
  scope_collector_id = [];
  signals = some one_log ∷ [];
}

log_batch_passes : validate_signal_batch log_batch ≡ ok tt
unfolding validate_signal_batch validate_attrs_map check_all validate_key validate_present
    validate_signal validate_signal_type validate_required validate_signal_field_lengths
    validate_field as_invalid validate_text_field has_control_chars has_strict_control_chars
    validate_signal_trace_context validate_hex_id validate_trace_state
log_batch_passes = refl

validate_signal_batch-IsAccepted_example :
    (0 < length log_batch.signals)
    × (clean_map log_batch.resource_attributes ≡ true)
    × All PresentAccepted log_batch.signals
validate_signal_batch-IsAccepted_example =
    validate_signal_batch-IsAccepted log_batch log_batch_passes
