-- ===== src/Codec/RoundTrip.antt =====
-- protoCodec of core/codec_proto.go: what a batch is after it went through the codec.
use mbta_go.Base.{ℕ, ◌≡◌, refl, ap, List, [], ◌∷◌, Bool, true}
use mbta_go.Base.{◌&&◌, Bytes, Option, none, some, length, map, arith, all, leb, All}
use mbta_go.Wire.{TraceStateEntry}
use mbta_go.Validation.Accepted.{trace_entry}
use mbta_go.Signal.Accepted.{PresentAccepted, optional_id}
use mbta_go.Signal.{SignalRecord, SignalBatch}
use mbta_go.Codec.Values.{GoValue}
use mbta_go.Codec.Canonical.{
  wired_map, wired_resource, canonical_value, canonical_map, proto_value_to_any-any_to_proto_value,
  proto_map_to_any-any_map_to_proto, from_proto_resource-to_proto_resource,
}
use mbta_go.Codec.Batch.{
  to_int32, of_int32, SignalMessage, BatchMessage, cons_some, to_proto_trace_state, to_proto_fields,
  to_proto_with, to_proto_signal_record, to_proto_signals, to_proto_scope, to_proto_parts,
  from_proto_signal_record, scope_or_empty, from_proto_signal_batch,
}

and_rest : (a b : Bool) → (a && b) ≡ true → b ≡ true
and_rest a b h = ground arith

present_entries :
    (es : List (Option TraceStateEntry))
    → all trace_entry es ≡ true
    → (xs : List TraceStateEntry) × (to_proto_trace_state es ≡ some xs) × (map some xs ≡ es)
unfolding to_proto_trace_state cons_some
present_entries [] h = ([], refl, refl)
present_entries (none ∷ es) h = cc
present_entries (some e ∷ es) h =
    let (xs, seen, same) =
      present_entries es (and_rest (trace_entry (some e)) (all trace_entry es) h) in
    (e ∷ xs, rw seen refl, ap (λ rest. some e ∷ rest) same)

scope_or_empty-to_proto_scope :
    (n v c : Bytes)
    → scope_or_empty (to_proto_scope n v c) ≡ record { name = n; version = v; collector_id = c }
unfolding scope_or_empty to_proto_scope
scope_or_empty-to_proto_scope [] [] [] = refl
scope_or_empty-to_proto_scope [] [] (x ∷ c) = ground arith
scope_or_empty-to_proto_scope [] (x ∷ v) c = ground arith
scope_or_empty-to_proto_scope (x ∷ n) v c = ground arith

last_of : (a b c d e f : Bool) → (a && b && c && d && e && f) ≡ true → f ≡ true
last_of a b c d e f h = ground arith

module _ {Float Histogram Profile : Type 0} where
  -- What the wire does to a message: it writes a nil value of a map as an empty one.
  abbrev pub wired_record :
      SignalMessage Float Histogram Profile → SignalMessage Float Histogram Profile
  wired_record s = record s { attributes = wired_map s.attributes }

  abbrev pub wired_message :
      BatchMessage Float Histogram Profile → BatchMessage Float Histogram Profile
  wired_message pb = record pb {
    resource = wired_resource pb.resource;
    signals = map wired_record pb.signals;
  }

module _ {Float Histogram Profile : Type 0} (format_uint : ℕ → Bytes) where
  abbrev pub canonical_record :
      SignalRecord (GoValue Float) Float Histogram Profile
      → SignalRecord (GoValue Float) Float Histogram Profile
  canonical_record s = record s {
    attributes = canonical_map format_uint s.attributes;
    body = canonical_value format_uint s.body;
    severity_number = of_int32 (to_int32 s.severity_number);
  }

  abbrev pub canonical_pointer :
      Option (SignalRecord (GoValue Float) Float Histogram Profile)
      → Option (SignalRecord (GoValue Float) Float Histogram Profile)
  canonical_pointer none = none
  canonical_pointer (some s) = some (canonical_record s)

  abbrev pub canonical_batch :
      SignalBatch (GoValue Float) Float Histogram Profile
      → SignalBatch (GoValue Float) Float Histogram Profile
  canonical_batch b = record b {
    resource_attributes = canonical_map format_uint b.resource_attributes;
    signals = map canonical_pointer b.signals;
  }

  from_proto-to_proto_fields :
      (s : SignalRecord (GoValue Float) Float Histogram Profile) (xs : List TraceStateEntry)
      → map some xs ≡ s.trace_state
      → from_proto_signal_record (wired_record (to_proto_fields format_uint s xs))
        ≡ canonical_record s
  unfolding to_proto_fields from_proto_signal_record
  from_proto-to_proto_fields s xs e =
      rw
        (
          e,
          proto_map_to_any-any_map_to_proto format_uint s.attributes,
          proto_value_to_any-any_to_proto_value format_uint s.body,
        )
        refl

  pub present_signals :
      (ss : List (Option (SignalRecord (GoValue Float) Float Histogram Profile)))
      → All PresentAccepted ss
      → (ms : List (SignalMessage Float Histogram Profile)) × (to_proto_signals format_uint ss
          ≡ some ms)
        × (map (λ s. some (from_proto_signal_record s)) (map wired_record ms)
            ≡ map canonical_pointer ss)
  unfolding to_proto_signals to_proto_signal_record to_proto_with cons_some
  present_signals [] h = ([], refl, refl)
  present_signals (none ∷ ss) h = elim h.0 [ ]
  present_signals (some s ∷ ss) h =
      let (ms, seen, same) = present_signals ss h.1 in
      let (xs, read, whole) = present_entries s.trace_state (
        last_of (optional_id 16 s.trace_id) (optional_id 8 s.span_id)
          (optional_id 8 s.parent_span_id) (leb s.trace_flags 255) (leb (length s.trace_state) 32)
          (all trace_entry s.trace_state) h.0.context) in
      (
        to_proto_fields format_uint s xs ∷ ms,
        rw (read, seen) refl,
        rw (from_proto-to_proto_fields s xs whole, same) refl,
      )

  pub from_proto-to_proto_parts :
      (b : SignalBatch (GoValue Float) Float Histogram Profile)
      (ms : List (SignalMessage Float Histogram Profile))
      → map (λ s. some (from_proto_signal_record s)) (map wired_record ms)
        ≡ map canonical_pointer b.signals
      → from_proto_signal_batch (wired_message (to_proto_parts format_uint b ms))
        ≡ canonical_batch b
  unfolding from_proto_signal_batch to_proto_parts
  from_proto-to_proto_parts b ms e =
      rw
        (
          e,
          from_proto_resource-to_proto_resource format_uint b.resource_attributes,
          scope_or_empty-to_proto_scope b.scope_name b.scope_version b.scope_collector_id,
        )
        refl
