-- ===== src/Signal/Accepted.antt =====
-- The checks of core/signal.go against a description of the batches.
use mbta_go.Base.{ℕ, ◌≡◌, ◌<◌, refl, List, [], ◌∷◌, Bool, true, false, ◌&&◌, ◌||◌, not, arith}
use mbta_go.Base.{
  bytes_eqb_iff, ◌⊎◌, inl, inr, ltb, leb, eqb, slt, sle, flip_sign, Bytes, bytes_eq, ◌==◌, contains,
  Option, none, some, All, Map, all, any, length,
}
use mbta_go.Codes.{
  Result, ok, ◌>>◌, refuse_if, check_all, check_all_test, then_ok, refuse_if_ok, batch_invalid,
}
use mbta_go.Validation.{
  validate_text_field, has_control_chars, has_strict_control_chars, strict_control_char,
  control_char,
}
use mbta_go.Validation.Accepted.{
  verdict, hex_id, trace_entry, validate_hex_id-hex_id, validate_trace_state-all,
}
use mbta_go.Signal.{
  SignalRecord, SignalBatch, missing, absent, validate_key, validate_attrs_map, as_invalid,
  validate_field, signal_text_fields, validate_signal_field_lengths, validate_signal_trace_context,
  validate_signal, validate_signal_type, validate_required, validate_present, validate_signal_batch,
  valid_signal_types, valid_temporalities, valid_span_kinds, signal_type_span, signal_type_log,
  signal_type_histogram, signal_type_profile, signal_type_gauge, signal_type_counter,
  signal_type_summary,
}

abbrev pub clean_key : {V : Type 0} → Bytes × V → Bool
clean_key (k, v) = leb (length k) 256 && not (any strict_control_char k)

abbrev pub clean_map : {V : Type 0} → Map Bytes V → Bool
clean_map m = leb (length m) 128 && all clean_key m

validate_key-clean_key : {V : Type 0} (e : Bytes × V) → validate_key e ≡ verdict (clean_key e)
unfolding validate_key has_strict_control_chars
validate_key-clean_key (k, v) = ground arith

validate_attrs_map-clean_map :
    {V : Type 0} (m : Map Bytes V) → validate_attrs_map m ≡ verdict (clean_map m)
unfolding validate_attrs_map
validate_attrs_map-clean_map m =
    ground (arith, check_all_test validate_key clean_key batch_invalid validate_key-clean_key m)

abbrev pub clean_text : Bytes → Bool
clean_text s = leb (length s) 4096 && not (any control_char s)

validate_field-clean_text : (s : Bytes) → validate_field s ≡ verdict (clean_text s)
unfolding validate_field as_invalid validate_text_field has_control_chars
validate_field-clean_text [] = refl
validate_field-clean_text (b ∷ s) = ground arith

as_invalid-verdict : (b : Bool) → as_invalid (verdict b) ≡ verdict b
unfolding as_invalid
as_invalid-verdict true = refl
as_invalid-verdict false = refl

abbrev pub optional_id : ℕ → Bytes → Bool
optional_id n s = missing s || hex_id n s

first_two : (a b c d e f : Bool) → (a && b && c && d && e && f) ≡ true → (a ≡ true) × (b ≡ true)
first_two a b c d e f h = ground arith

in_range : (low x high : ℕ) → (ltb x low || ltb high x) ≡ false → (leb low x && leb x high) ≡ true
in_range low x high e = ground arith

six_ok :
    (a b c d e f : Result (Unit {0}))
    → (a >> b >> c >> d >> e >> f) ≡ ok tt
    → (b ≡ ok tt) × (c ≡ ok tt) × (d ≡ ok tt) × (e ≡ ok tt) × (f ≡ ok tt)
six_ok a b c d e f h =
    let (h5, hf) = then_ok (a >> b >> c >> d >> e) f tt h in
    let (h4, he) = then_ok (a >> b >> c >> d) e tt h5 in
    let (h3, hd) = then_ok (a >> b >> c) d tt h4 in
    let (h2, hc) = then_ok (a >> b) c tt h3 in ((then_ok a b tt h2).1, hc, hd, he, hf)

verdict-true : (b : Bool) → verdict b ≡ ok tt → b ≡ true
verdict-true true h = refl
verdict-true false h = cc

-- The metric types without a payload of their own.
abbrev pub IsMetric : Bytes → Type 0
IsMetric ty = (ty ≡ signal_type_gauge) ⊎ (ty ≡ signal_type_counter) ⊎ (ty ≡ signal_type_summary)

allowed : (m c : Bool) → (not m && not c) ≡ false → (m || c) ≡ true
allowed m c h = ground arith

allowed_kind : (e m c : Bool) → e ≡ true → (e && not m && not c) ≡ false → (m || c) ≡ true
allowed_kind e m c h k = ground arith

module _ {Value Float Histogram Profile : Type 0} where
  abbrev pub traced : SignalRecord Value Float Histogram Profile → Bool
  traced s =
      optional_id 16 s.trace_id
      && optional_id 8 s.span_id
      && optional_id 8 s.parent_span_id
      && leb s.trace_flags 255
      && leb (length s.trace_state) 32
      && all trace_entry s.trace_state

  validate_signal_trace_context-traced :
      (s : SignalRecord Value Float Histogram Profile)
      → validate_signal_trace_context s ≡ verdict (traced s)
  unfolding validate_signal_trace_context as_invalid
  validate_signal_trace_context-traced s = ground (
    arith,
    validate_hex_id-hex_id s.trace_id 16,
    validate_hex_id-hex_id s.span_id 8,
    validate_hex_id-hex_id s.parent_span_id 8,
    validate_trace_state-all s.trace_state,
  )

  abbrev pub sized : SignalRecord Value Float Histogram Profile → Bool
  sized s =
      all clean_text (signal_text_fields s) && clean_map s.attributes && clean_map s.metric_fields

  validate_signal_field_lengths-sized :
      (s : SignalRecord Value Float Histogram Profile)
      → validate_signal_field_lengths s ≡ verdict (sized s)
  unfolding validate_signal_field_lengths
  validate_signal_field_lengths-sized s =
      rw
        (
          check_all_test validate_field clean_text batch_invalid validate_field-clean_text
              (signal_text_fields s),
          validate_attrs_map-clean_map s.attributes,
          validate_attrs_map-clean_map s.metric_fields,
        )
        (three (all clean_text (signal_text_fields s)) (clean_map s.attributes)
          (clean_map s.metric_fields))
    where
      three : (a b c : Bool) → (verdict a >> verdict b >> verdict c) ≡ verdict (a && b && c)
      three a b c = ground arith

  required_span :
      (s : SignalRecord Value Float Histogram Profile)
      → s.signal_type ≡ signal_type_span
      → validate_required s ≡ ok tt
      → (missing s.span_name ≡ false) × (missing s.trace_id ≡ false) × (missing s.span_id ≡ false)
  unfolding validate_required
  required_span s e h = let g = rw e at h in ground arith

  required_histogram :
      (s : SignalRecord Value Float Histogram Profile)
      → s.signal_type ≡ signal_type_histogram
      → validate_required s ≡ ok tt
      → (missing s.metric_name ≡ false) × (absent s.exp_histogram ≡ false)
  unfolding validate_required
  required_histogram s e h = let g = rw e at h in ground arith

  required_profile :
      (s : SignalRecord Value Float Histogram Profile)
      → s.signal_type ≡ signal_type_profile
      → validate_required s ≡ ok tt
      → absent s.profile ≡ false
  unfolding validate_required
  required_profile s e h = let g = rw e at h in ground arith

  required_metric :
      (s : SignalRecord Value Float Histogram Profile)
      → IsMetric s.signal_type
      → validate_required s ≡ ok tt
      → missing s.metric_name ≡ false
  unfolding validate_required
  required_metric s (inl e) h = let g = rw e at h in ground arith
  required_metric s (inr (inl e)) h = let g = rw e at h in ground arith
  required_metric s (inr (inr e)) h = let g = rw e at h in ground arith

  required_log :
      (s : SignalRecord Value Float Histogram Profile)
      → s.signal_type ≡ signal_type_log
      → validate_required s ≡ ok tt
      → absent s.body ≡ false
  unfolding validate_required
  required_log s e h = let g = rw e at h in ground arith

  -- What an accepted record guarantees to the sink that gets it.
  pub record IsAccepted (s : SignalRecord Value Float Histogram Profile) : Type 0 where
    pub known_type : contains valid_signal_types s.signal_type ≡ true
    pub severity : (sle 0 s.severity_number && sle s.severity_number 24) ≡ true
    pub span :
        s.signal_type ≡ signal_type_span
        → (missing s.span_name ≡ false)
          × (hex_id 16 s.trace_id ≡ true)
          × (hex_id 8 s.span_id ≡ true)
    pub histogram :
        s.signal_type ≡ signal_type_histogram
        → (missing s.metric_name ≡ false) × (absent s.exp_histogram ≡ false)
    pub log : s.signal_type ≡ signal_type_log → absent s.body ≡ false
    pub profiled : s.signal_type ≡ signal_type_profile → absent s.profile ≡ false
    pub metric : IsMetric s.signal_type → missing s.metric_name ≡ false
    pub temporality : (missing s.temporality || contains valid_temporalities s.temporality) ≡ true
    pub span_kind :
        s.signal_type ≡ signal_type_span
        → (missing s.kind || contains valid_span_kinds s.kind) ≡ true
    pub small : sized s ≡ true
    pub context : traced s ≡ true

  abbrev pub PresentAccepted : Option (SignalRecord Value Float Histogram Profile) → Type 0
  PresentAccepted none = ⊥
  PresentAccepted (some s) = IsAccepted s

  type_checks :
      (s : SignalRecord Value Float Histogram Profile)
      → validate_signal_type s ≡ ok tt
      → (contains valid_signal_types s.signal_type ≡ true)
        × ((sle 0 s.severity_number && sle s.severity_number 24) ≡ true)
        × ((missing s.temporality || contains valid_temporalities s.temporality) ≡ true)
        × (s.signal_type ≡ signal_type_span
            → (missing s.kind || contains valid_span_kinds s.kind) ≡ true)
        × (validate_required s ≡ ok tt)
  unfolding validate_signal_type
  type_checks s h =
      let (known, range, time, kind, required) =
        six_ok (refuse_if (missing s.signal_type) batch_invalid)
          (refuse_if (not (contains valid_signal_types s.signal_type)) batch_invalid)
          (refuse_if (slt s.severity_number 0 || slt 24 s.severity_number) batch_invalid)
          (refuse_if
            (not (missing s.temporality) && not (contains valid_temporalities s.temporality))
            batch_invalid)
          (refuse_if
            ((s.signal_type == signal_type_span)
              && not (missing s.kind)
              && not (contains valid_span_kinds s.kind))
            batch_invalid)
          (validate_required s) h in
      (
        double_negation (contains valid_signal_types s.signal_type)
            (refuse_if_ok (not (contains valid_signal_types s.signal_type)) batch_invalid known),
        in_range (flip_sign 0) (flip_sign s.severity_number) (flip_sign 24) (
            refuse_if_ok (slt s.severity_number 0 || slt 24 s.severity_number) batch_invalid range),
        allowed (missing s.temporality) (contains valid_temporalities s.temporality) (
            refuse_if_ok
              (not (missing s.temporality) && not (contains valid_temporalities s.temporality))
              batch_invalid time),
        λ e.
            allowed_kind (s.signal_type == signal_type_span) (missing s.kind)
              (contains valid_span_kinds s.kind)
              ((bytes_eqb_iff s.signal_type signal_type_span).1 e)
              (refuse_if_ok
                ((s.signal_type == signal_type_span)
                  && not (missing s.kind)
                  && not (contains valid_span_kinds s.kind))
                batch_invalid kind),
        required,
      )
    where
      double_negation : (b : Bool) → not b ≡ false → b ≡ true
      double_negation true e = refl
      double_negation false e = cc

  validate_signal-IsAccepted :
      (s : SignalRecord Value Float Histogram Profile) → validate_signal s ≡ ok tt → IsAccepted s
  unfolding validate_signal
  validate_signal-IsAccepted s h =
      let (front, trace) =
        then_ok (validate_signal_type s >> validate_signal_field_lengths s)
          (validate_signal_trace_context s) tt h in
      let (kind, lengths) =
        then_ok (validate_signal_type s) (validate_signal_field_lengths s) tt front in
      let (known, range, time, kinds, required) = type_checks s kind in
      let ids : traced s ≡ true =
        verdict-true (traced s) (rw (validate_signal_trace_context-traced s) at trace) in
      let (id16, id8) =
        first_two (optional_id 16 s.trace_id) (optional_id 8 s.span_id)
          (optional_id 8 s.parent_span_id) (leb s.trace_flags 255) (leb (length s.trace_state) 32)
          (all trace_entry s.trace_state) ids in
      record {
        known_type = known;
        severity = range;
        span = λ e.
            let (a, b, c) = required_span s e required in
            (a, given_id 16 s.trace_id b id16, given_id 8 s.span_id c id8);
        histogram = λ e. required_histogram s e required;
        log = λ e. required_log s e required;
        profiled = λ e. required_profile s e required;
        metric = λ e. required_metric s e required;
        temporality = time;
        span_kind = kinds;
        small = verdict-true (sized s) (rw (validate_signal_field_lengths-sized s) at lengths);
        context = ids;
      }
    where
      given_id :
          (n : ℕ) (id : Bytes) → missing id ≡ false → optional_id n id ≡ true → hex_id n id ≡ true
      given_id n id m o = rw m at o

  check_all-PresentAccepted :
      (ss : List (Option (SignalRecord Value Float Histogram Profile)))
      → check_all validate_present ss ≡ ok tt
      → All PresentAccepted ss
  unfolding check_all validate_present
  check_all-PresentAccepted [] h = tt
  check_all-PresentAccepted (none ∷ ss) h = cc
  check_all-PresentAccepted (some s ∷ ss) h =
      let (first, rest) = then_ok (validate_signal s) (check_all validate_present ss) tt h in
      (validate_signal-IsAccepted s first, check_all-PresentAccepted ss rest)

-- A batch that passes `validate_signal_batch` has a signal, no null one, resource attributes within the
-- limits, and every record is accepted: its type is known and its severity 0 to 24; a gauge, counter or
-- summary has a metric name, a histogram that and its payload, a span a name, well-formed trace and span
-- ids and an allowed kind or none, a log a body, a profile its payload; the temporality is allowed or
-- missing; texts, maps and the trace context are within their limits.
pub validate_signal_batch-IsAccepted :
    {Value Float Histogram Profile : Type 0} (b : SignalBatch Value Float Histogram Profile)
    → validate_signal_batch b ≡ ok tt
    → (0 < length b.signals)
      × (clean_map b.resource_attributes ≡ true)
      × All PresentAccepted b.signals
unfolding validate_signal_batch
validate_signal_batch-IsAccepted b h =
    let (front, each) =
      then_ok
        (refuse_if (eqb (length b.signals) 0) batch_invalid
          >> validate_attrs_map b.resource_attributes)
        (check_all validate_present b.signals) tt h in
    let (some_signal, maps) =
      then_ok (refuse_if (eqb (length b.signals) 0) batch_invalid)
        (validate_attrs_map b.resource_attributes) tt front in
    (
      ground arith,
      verdict-true (clean_map b.resource_attributes)
          (rw (validate_attrs_map-clean_map b.resource_attributes) at maps),
      check_all-PresentAccepted b.signals each,
    )
