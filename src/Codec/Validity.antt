-- ===== src/Codec/Validity.antt =====
-- core/signal.go and core/codec_proto.go: the checks of a batch before and after the codec.
use mbta_go.Base.{ℕ, suc, ◌≡◌, refl, ap, List, [], ◌∷◌, true, false, ltb, slt, leb, flip_sign, All}
use mbta_go.Base.{◌||◌, ◌&&◌, Bytes, Option, none, some, Map, length, map, arith}
use mbta_go.Codes.{ok, check_all}
use mbta_go.Signal.{
  SignalRecord, SignalBatch, absent, validate_key, validate_attrs_map, validate_required,
  validate_signal_type, validate_signal_field_lengths, validate_signal_trace_context,
  validate_signal, validate_present, validate_signal_batch,
}
use mbta_go.Signal.Accepted.{IsAccepted, PresentAccepted, validate_signal_batch-IsAccepted}
use mbta_go.Codec.Values.{GoValue}
use mbta_go.Codec.Batch.{to_int32, of_int32}
use mbta_go.Codec.Canonical.{canonical_value, canonical_map}
use mbta_go.Codec.RoundTrip.{canonical_record, canonical_pointer, canonical_batch}

-- A severity in range stays in range.
severity_kept :
    (n : ℕ)
    → (slt n 0 || slt 24 n) ≡ false
    → (slt (of_int32 (to_int32 n)) 0 || slt 24 (of_int32 (to_int32 n))) ≡ false
severity_kept n h = ground arith

in_bounds : (low n high : ℕ) → (leb low n && leb n high) ≡ true → (ltb n low || ltb high n) ≡ false
in_bounds low n high h = ground arith

module _ {Float : Type 0} (format_uint : ℕ → Bytes) where
  length-canonical_map :
      (m : Map Bytes (Option (GoValue Float))) → length (canonical_map format_uint m) ≡ length m
  unfolding canonical_map
  length-canonical_map [] = refl
  length-canonical_map ((k, v) ∷ m) = ap (λ n. suc n) (length-canonical_map m)

  check_all-canonical_map :
      (m : Map Bytes (Option (GoValue Float)))
      → check_all validate_key (canonical_map format_uint m) ≡ check_all validate_key m
  unfolding canonical_map check_all validate_key
  check_all-canonical_map [] = refl
  check_all-canonical_map ((k, v) ∷ m) = rw (check_all-canonical_map m) refl

  validate_attrs_map-canonical_map :
      (m : Map Bytes (Option (GoValue Float)))
      → validate_attrs_map (canonical_map format_uint m) ≡ validate_attrs_map m
  unfolding validate_attrs_map
  validate_attrs_map-canonical_map m = rw (length-canonical_map m, check_all-canonical_map m) refl

  absent-canonical_value :
      (v : Option (GoValue Float)) → absent (canonical_value format_uint v) ≡ absent v
  unfolding canonical_value
  absent-canonical_value none = refl
  absent-canonical_value (some v) = refl

module _ {Float Histogram Profile : Type 0} (format_uint : ℕ → Bytes) where
  validate_required-canonical_record :
      (s : SignalRecord (GoValue Float) Float Histogram Profile)
      → validate_required (canonical_record format_uint s) ≡ validate_required s
  unfolding validate_required
  validate_required-canonical_record s = rw (absent-canonical_value format_uint s.body) refl

  validate_signal_type-canonical_record :
      (s : SignalRecord (GoValue Float) Float Histogram Profile)
      → (slt s.severity_number 0 || slt 24 s.severity_number) ≡ false
      → validate_signal_type (canonical_record format_uint s) ≡ validate_signal_type s
  unfolding validate_signal_type
  validate_signal_type-canonical_record s h =
      rw (validate_required-canonical_record s, h, severity_kept s.severity_number h) refl

  validate_signal_field_lengths-canonical_record :
      (s : SignalRecord (GoValue Float) Float Histogram Profile)
      → validate_signal_field_lengths (canonical_record format_uint s)
        ≡ validate_signal_field_lengths s
  unfolding validate_signal_field_lengths
  validate_signal_field_lengths-canonical_record s =
      rw (validate_attrs_map-canonical_map format_uint s.attributes) refl

  validate_signal-canonical_record :
      (s : SignalRecord (GoValue Float) Float Histogram Profile)
      → IsAccepted s
      → validate_signal (canonical_record format_uint s) ≡ validate_signal s
  unfolding validate_signal validate_signal_trace_context
  validate_signal-canonical_record s a =
      rw
        (
          validate_signal_type-canonical_record s
              (in_bounds (flip_sign 0) (flip_sign s.severity_number) (flip_sign 24) a.severity),
          validate_signal_field_lengths-canonical_record s,
        )
        refl

  check_all-canonical_pointer :
      (ss : List (Option (SignalRecord (GoValue Float) Float Histogram Profile)))
      → All PresentAccepted ss
      → check_all validate_present (map (canonical_pointer format_uint) ss)
        ≡ check_all validate_present ss
  unfolding check_all validate_present
  check_all-canonical_pointer [] h = refl
  check_all-canonical_pointer (none ∷ ss) h = elim h.0 [ ]
  check_all-canonical_pointer (some s ∷ ss) h =
      rw (validate_signal-canonical_record s h.0, check_all-canonical_pointer ss h.1) refl

  length-map_pointer :
      (ss : List (Option (SignalRecord (GoValue Float) Float Histogram Profile)))
      → length (map (canonical_pointer format_uint) ss) ≡ length ss
  length-map_pointer [] = refl
  length-map_pointer (s ∷ ss) = ap (λ n. suc n) (length-map_pointer ss)

  pub validate_signal_batch-canonical_batch :
      (b : SignalBatch (GoValue Float) Float Histogram Profile)
      → validate_signal_batch b ≡ ok tt
      → validate_signal_batch (canonical_batch format_uint b) ≡ ok tt
  unfolding validate_signal_batch
  validate_signal_batch-canonical_batch b h =
      rw
        (
          length-map_pointer b.signals,
          validate_attrs_map-canonical_map format_uint b.resource_attributes,
          check_all-canonical_pointer b.signals (validate_signal_batch-IsAccepted b h).2,
        )
        h
