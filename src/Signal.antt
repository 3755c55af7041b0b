-- ===== src/Signal.antt =====
-- core/signal.go: the signal batch and its checks. What the checks do not look into, attribute and metric
-- values and the histogram and profile payloads, is a parameter.
pub mod Accepted
use mbta_go.Base.{ℕ, ◌+◌, ◌≡◌, List, [], ◌∷◌, Bool, true, false, ◌&&◌, ◌||◌, not, if◌then◌else◌}
use mbta_go.Base.{ltb, eqb, slt, Bytes, bytes_eq, ◌==◌, contains, Option, none, some, Map, length}
use mbta_go.Codes.{Result, ok, err, ◌>>◌, refuse_if, check_all, batch_invalid}
use mbta_go.Wire.{TraceStateEntry}
use mbta_go.Validation.{
  validate_text_field, validate_hex_id, validate_trace_state, has_strict_control_chars,
}

-- "log"
abbrev pub signal_type_log : Bytes
signal_type_log = 108 ∷ 111 ∷ 103 ∷ []

-- "gauge"
abbrev pub signal_type_gauge : Bytes
signal_type_gauge = 103 ∷ 97 ∷ 117 ∷ 103 ∷ 101 ∷ []

-- "counter"
abbrev pub signal_type_counter : Bytes
signal_type_counter = 99 ∷ 111 ∷ 117 ∷ 110 ∷ 116 ∷ 101 ∷ 114 ∷ []

-- "histogram"
abbrev pub signal_type_histogram : Bytes
signal_type_histogram = 104 ∷ 105 ∷ 115 ∷ 116 ∷ 111 ∷ 103 ∷ 114 ∷ 97 ∷ 109 ∷ []

-- "summary"
abbrev pub signal_type_summary : Bytes
signal_type_summary = 115 ∷ 117 ∷ 109 ∷ 109 ∷ 97 ∷ 114 ∷ 121 ∷ []

-- "span"
abbrev pub signal_type_span : Bytes
signal_type_span = 115 ∷ 112 ∷ 97 ∷ 110 ∷ []

-- "profile"
abbrev pub signal_type_profile : Bytes
signal_type_profile = 112 ∷ 114 ∷ 111 ∷ 102 ∷ 105 ∷ 108 ∷ 101 ∷ []

abbrev pub valid_signal_types : List Bytes
valid_signal_types =
    signal_type_log ∷ signal_type_gauge ∷ signal_type_counter ∷ signal_type_histogram
    ∷ signal_type_summary ∷ signal_type_span ∷ signal_type_profile ∷ []

-- "delta" and "cumulative".
abbrev pub valid_temporalities : List Bytes
valid_temporalities =
    (100 ∷ 101 ∷ 108 ∷ 116 ∷ 97 ∷ [])
    ∷ (99 ∷ 117 ∷ 109 ∷ 117 ∷ 108 ∷ 97 ∷ 116 ∷ 105 ∷ 118 ∷ 101 ∷ [])
    ∷ []

-- None, "internal", "server", "client", "producer" and "consumer".
abbrev pub valid_span_kinds : List Bytes
valid_span_kinds =
    []
    ∷ (105 ∷ 110 ∷ 116 ∷ 101 ∷ 114 ∷ 110 ∷ 97 ∷ 108 ∷ [])
    ∷ (115 ∷ 101 ∷ 114 ∷ 118 ∷ 101 ∷ 114 ∷ [])
    ∷ (99 ∷ 108 ∷ 105 ∷ 101 ∷ 110 ∷ 116 ∷ [])
    ∷ (112 ∷ 114 ∷ 111 ∷ 100 ∷ 117 ∷ 99 ∷ 101 ∷ 114 ∷ [])
    ∷ (99 ∷ 111 ∷ 110 ∷ 115 ∷ 117 ∷ 109 ∷ 101 ∷ 114 ∷ [])
    ∷ []

abbrev pub max_signal_attrs : ℕ
max_signal_attrs = 128

abbrev pub max_signal_attr_key_len : ℕ
max_signal_attr_key_len = 256

module _ (Value Float Histogram Profile : Type 0) where
  pub record SignalRecord : Type 0 where
    pub signal_type : Bytes
    pub event_id : Bytes
    pub time_unix_ns : ℕ
    pub observed_time_ns : ℕ
    pub trace_id : Bytes
    pub span_id : Bytes
    pub parent_span_id : Bytes
    pub attributes : Map Bytes (Option Value)
    pub body : Option Value
    pub severity_number : ℕ
    pub severity_text : Bytes
    pub metric_name : Bytes
    pub metric_fields : Map Bytes Float
    pub metric_unit : Bytes
    pub temporality : Bytes
    pub is_monotonic : Bool
    pub span_name : Bytes
    pub kind : Bytes
    pub start_time_unix_ns : ℕ
    pub end_time_unix_ns : ℕ
    pub status_code : Bytes
    pub status_message : Bytes
    pub trace_flags : ℕ
    pub trace_state : List (Option TraceStateEntry)
    pub exp_histogram : Option Histogram
    pub profile : Option Profile

  pub record SignalBatch : Type 0 where
    pub schema_url : Bytes
    pub resource_attributes : Map Bytes (Option Value)
    pub scope_name : Bytes
    pub scope_version : Bytes
    pub scope_collector_id : Bytes
    pub signals : List (Option SignalRecord)

abbrev pub missing : Bytes → Bool
missing s = eqb (length s) 0

abbrev pub absent {ℓ} : {A : Type ℓ} → Option A → Bool
absent none = true
absent (some a) = false

-- The loop body of validateAttrsMap and validateMetricFields, on an entry of either map.
unfoldable pub validate_key : {V : Type 0} → Bytes × V → Result (Unit {0})
validate_key (k, v) =
    refuse_if (ltb max_signal_attr_key_len (length k)) batch_invalid
    >> refuse_if (has_strict_control_chars k) batch_invalid

-- validateAttrsMap and validateMetricFields, which differ in the type of the values.
unfoldable pub validate_attrs_map : {V : Type 0} → Map Bytes V → Result (Unit {0})
validate_attrs_map attrs =
    refuse_if (ltb max_signal_attrs (length attrs)) batch_invalid >> check_all validate_key attrs

-- An error that is reported again as an invalid batch.
unfoldable pub as_invalid : Result (Unit {0}) → Result (Unit {0})
as_invalid (ok t) = ok t
as_invalid (err c) = err batch_invalid

-- The loop body of validateSignalFieldLengths.
unfoldable pub validate_field : Bytes → Result (Unit {0})
validate_field val = if missing val then ok tt else as_invalid (validate_text_field val)

module _ {Value Float Histogram Profile : Type 0} where
  -- The switch of validateSignalType.
  unfoldable pub validate_required : SignalRecord Value Float Histogram Profile → Result (Unit {0})
  validate_required s =
      if (s.signal_type == signal_type_gauge)
        || (s.signal_type == signal_type_counter)
        || (s.signal_type == signal_type_histogram)
        || (s.signal_type == signal_type_summary)
      then refuse_if (missing s.metric_name) batch_invalid
        >> refuse_if ((s.signal_type == signal_type_histogram) && absent s.exp_histogram)
            batch_invalid
      else if s.signal_type == signal_type_span
      then refuse_if (missing s.span_name) batch_invalid
        >> refuse_if (missing s.trace_id) batch_invalid
        >> refuse_if (missing s.span_id) batch_invalid
      else if s.signal_type == signal_type_log
      then refuse_if (absent s.body) batch_invalid
      else if s.signal_type == signal_type_profile
      then refuse_if (absent s.profile) batch_invalid
      else ok tt

  unfoldable pub validate_signal_type :
      SignalRecord Value Float Histogram Profile → Result (Unit {0})
  validate_signal_type s =
      refuse_if (missing s.signal_type) batch_invalid
      >> refuse_if (not (contains valid_signal_types s.signal_type)) batch_invalid
      >> refuse_if (slt s.severity_number 0 || slt 24 s.severity_number) batch_invalid
      >> refuse_if (not (missing s.temporality) && not (contains valid_temporalities s.temporality))
          batch_invalid
      >> refuse_if
          ((s.signal_type == signal_type_span)
            && not (missing s.kind)
            && not (contains valid_span_kinds s.kind))
          batch_invalid
      >> validate_required s

  abbrev pub signal_text_fields : SignalRecord Value Float Histogram Profile → List Bytes
  signal_text_fields s =
      s.signal_type ∷ s.event_id ∷ s.trace_id ∷ s.span_id ∷ s.parent_span_id ∷ s.metric_name
      ∷ s.metric_unit ∷ s.span_name ∷ s.kind ∷ s.status_code ∷ s.status_message ∷ s.severity_text
      ∷ []

  unfoldable pub validate_signal_field_lengths :
      SignalRecord Value Float Histogram Profile → Result (Unit {0})
  validate_signal_field_lengths s =
      check_all validate_field (signal_text_fields s)
      >> validate_attrs_map s.attributes
      >> validate_attrs_map s.metric_fields

  unfoldable pub validate_signal_trace_context :
      SignalRecord Value Float Histogram Profile → Result (Unit {0})
  validate_signal_trace_context s =
      as_invalid (validate_hex_id s.trace_id 16)
      >> as_invalid (validate_hex_id s.span_id 8)
      >> as_invalid (validate_hex_id s.parent_span_id 8)
      >> refuse_if (ltb 255 s.trace_flags) batch_invalid
      >> as_invalid (validate_trace_state s.trace_state)

  unfoldable pub validate_signal : SignalRecord Value Float Histogram Profile → Result (Unit {0})
  validate_signal s =
      validate_signal_type s >> validate_signal_field_lengths s >> validate_signal_trace_context s

  -- The loop body of Validate: a null record is refused.
  unfoldable pub validate_present :
      Option (SignalRecord Value Float Histogram Profile) → Result (Unit {0})
  validate_present none = err batch_invalid
  validate_present (some s) = validate_signal s

  -- Validate.
  unfoldable pub validate_signal_batch :
      SignalBatch Value Float Histogram Profile → Result (Unit {0})
  validate_signal_batch b =
      refuse_if (eqb (length b.signals) 0) batch_invalid
      >> validate_attrs_map b.resource_attributes
      >> check_all validate_present b.signals
