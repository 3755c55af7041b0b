-- ===== src/Codec.antt =====
-- core/codec.go and core/codec_proto.go: the registry of signal codecs, and the conversions between
-- a signal batch and its Protobuf message. The wire format itself and the decimal text of a number
-- are parameters.
pub mod Values
pub mod Batch
pub mod Canonical
pub mod RoundTrip
pub mod Validity
pub mod Dispatch
use mbta_go.Base.{ℕ, ◌-◌, ◌%◌, ◌^◌, List, [], ◌∷◌, Bool, if◌then◌else◌, ltb, eqb, length}
use mbta_go.Base.{Bytes, Option, none, some, Map, lookup, insert, nat_eq}
use mbta_go.Codes.{Result, ok, err, batch_invalid, ◌>>◌, ◌>>=◌, refuse_if}

-- SignalCodec, over the batches `B` that it encodes; an encoder that answers nothing has panicked.
pub record SignalCodec (B : Type 0) : Type 0 where
  pub codec : ℕ
  pub marshal : B → Option (Result Bytes)
  pub unmarshal : Bytes → Result B

module _ {B : Type 0} where
  -- RegisterCodec; a nil codec is not registered.
  unfoldable pub register_codec :
      Option (SignalCodec B) → Map ℕ (SignalCodec B) → Map ℕ (SignalCodec B)
  register_codec none registry = registry
  register_codec (some c) registry = insert c.codec c registry

  -- LookupCodec.
  unfoldable pub lookup_codec : Map ℕ (SignalCodec B) → ℕ → Option (SignalCodec B)
  lookup_codec registry codec = lookup codec registry

  unfoldable pub marshal_with : Option (SignalCodec B) → B → Option (Result Bytes)
  marshal_with none b = some (err batch_invalid)
  marshal_with (some c) b = c.marshal b

  -- MarshalSignalBatchCodec.
  unfoldable pub marshal_signal_batch_codec :
      Map ℕ (SignalCodec B) → ℕ → Option B → Option (Result Bytes)
  marshal_signal_batch_codec registry codec none = some (err batch_invalid)
  marshal_signal_batch_codec registry codec (some b) = marshal_with (lookup_codec registry codec) b

  unfoldable pub unmarshal_with : Option (SignalCodec B) → Bytes → Result B
  unmarshal_with none wire = err batch_invalid
  unmarshal_with (some c) wire = c.unmarshal wire

  -- UnmarshalSignalBatchCodec.
  unfoldable pub unmarshal_signal_batch_codec : Map ℕ (SignalCodec B) → ℕ → Bytes → Result B
  unmarshal_signal_batch_codec registry codec wire =
      refuse_if (eqb (length wire) 0) batch_invalid
      >> unmarshal_with (lookup_codec registry codec) wire
