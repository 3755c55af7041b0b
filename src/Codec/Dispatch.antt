-- ===== src/Codec/Dispatch.antt =====
-- MarshalSignalBatchCodec and UnmarshalSignalBatchCodec of core/codec.go, with protoCodec registered.
use mbta_go.Base.{ℕ, ◌<◌, ◌≡◌, refl, false, eqb}
use mbta_go.Base.{Bytes, Option, some, Map, length, arith, nat_eq, lookup-insert_self}
use mbta_go.Codes.{Result, ok}
use mbta_go.Signal.{SignalBatch, validate_signal_batch}
use mbta_go.Signal.Accepted.{validate_signal_batch-IsAccepted}
use mbta_go.Codec.{
  SignalCodec, register_codec, lookup_codec, marshal_with, marshal_signal_batch_codec,
  unmarshal_with, unmarshal_signal_batch_codec,
}
use mbta_go.Codec.Values.{GoValue}
use mbta_go.Codec.Batch.{
  BatchMessage, to_proto_signal_batch, to_proto_batch_with, to_proto_parts, encode_message,
  from_proto_signal_batch, decoded_batch, marshal_proto, unmarshal_proto, proto_codec,
}
use mbta_go.Codec.RoundTrip.{
  wired_message, canonical_batch, present_signals, from_proto-to_proto_parts,
}
use mbta_go.Codec.Validity.{validate_signal_batch-canonical_batch}

lookup_codec-register_codec :
    {B : Type 0} (c : SignalCodec B) (registry : Map ℕ (SignalCodec B))
    → lookup_codec (register_codec (some c) registry) c.codec ≡ some c
unfolding lookup_codec register_codec
lookup_codec-register_codec c registry = lookup-insert_self c.codec c registry

module _ {Float Histogram Profile : Type 0} (format_uint : ℕ → Bytes)
    (encode : BatchMessage Float Histogram Profile → Result Bytes)
    (decode : Bytes → Option (BatchMessage Float Histogram Profile)) where
  marshal_proto-present :
      (b : SignalBatch (GoValue Float) Float Histogram Profile)
      → validate_signal_batch b ≡ ok tt
      → (pb : BatchMessage Float Histogram Profile) × (to_proto_signal_batch format_uint b
          ≡ some pb)
        × (from_proto_signal_batch (wired_message pb) ≡ canonical_batch format_uint b)
  unfolding to_proto_signal_batch to_proto_batch_with
  marshal_proto-present b h =
      let (ms, seen, same) =
        present_signals format_uint b.signals (validate_signal_batch-IsAccepted b h).2 in
      (
        to_proto_parts format_uint b ms,
        rw seen refl,
        from_proto-to_proto_parts format_uint b ms same,
      )

  -- Take a batch that passes its checks, and a Protobuf library that writes its message as some bytes
  -- and reads them back, a nil map value as an empty one. With protoCodec registered, whatever else is,
  -- encoding the batch does not panic and gives those bytes, decoding them gives the batch with its
  -- values in canonical form (unsigned numbers as int64, or as decimal text from 2 ^ 63 on, values of
  -- other types as their printed text) and severities cut to int32, and that
  -- batch passes the checks too.
  pub unmarshal_signal_batch_codec-marshal_signal_batch_codec :
      (registry : Map ℕ (SignalCodec (SignalBatch (GoValue Float) Float Histogram Profile)))
      (b : SignalBatch (GoValue Float) Float Histogram Profile) (wire : Bytes)
      → validate_signal_batch b ≡ ok tt
      → ((pb : BatchMessage Float Histogram Profile)
          → to_proto_signal_batch format_uint b ≡ some pb
          → (encode pb ≡ ok wire) × (decode wire ≡ some (wired_message pb)) × (0 < length wire))
      → (marshal_signal_batch_codec
            (register_codec (some (proto_codec format_uint encode decode)) registry)
            1
            (some b)
          ≡ some (ok wire))
        × (unmarshal_signal_batch_codec
              (register_codec (some (proto_codec format_uint encode decode)) registry)
              1
              wire
            ≡ ok (canonical_batch format_uint b))
        × (validate_signal_batch (canonical_batch format_uint b) ≡ ok tt)
  unfolding marshal_signal_batch_codec unmarshal_signal_batch_codec marshal_with unmarshal_with
      proto_codec marshal_proto unmarshal_proto encode_message decoded_batch
  unmarshal_signal_batch_codec-marshal_signal_batch_codec registry b wire h library =
      let (pb, seen, back) = marshal_proto-present b h in
      let (written, read, filled) = library pb seen in
      let found = lookup_codec-register_codec (proto_codec format_uint encode decode) registry in
      (
        rw (found, seen, written) refl,
        rw (not_empty wire filled, found, read, back) refl,
        validate_signal_batch-canonical_batch format_uint b h,
      )
    where
      not_empty : (w : Bytes) → 0 < length w → eqb (length w) 0 ≡ false
      not_empty w k = ground arith
