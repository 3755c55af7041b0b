-- ===== src/Codec/Values.antt =====
-- core/codec_proto.go: a dynamic value and its AnyValue.
use mbta_go.Base.{ℕ, ◌-◌, ◌^◌, [], ◌∷◌, Bool, if◌then◌else◌, ltb}
use mbta_go.Base.{Bytes, Option, none, some, Map}

-- A value of Go's `any` that is not nil, by what the conversion tells apart: string, the signed
-- kinds (as int64), the unsigned kinds, the floating kinds (as float64), bool, []byte, and the rest
-- by the text that fmt.Sprintf gives it.
pub data GoValue (Float : Type 0) : Type 0 where
  string_of : Bytes → GoValue Float
  signed_of : ℕ → GoValue Float
  unsigned_of : ℕ → GoValue Float
  float_of : Float → GoValue Float
  bool_of : Bool → GoValue Float
  bytes_of : Bytes → GoValue Float
  printed_of : Bytes → GoValue Float

-- AnyValue; `unset` is one without a value.
pub data AnyValue (Float : Type 0) : Type 0 where
  string_value : Bytes → AnyValue Float
  int_value : ℕ → AnyValue Float
  double_value : Float → AnyValue Float
  bool_value : Bool → AnyValue Float
  bytes_value : Bytes → AnyValue Float
  unset : AnyValue Float

-- anyToProtoValue, anyMapToProto
module _ {Float : Type 0} (format_uint : ℕ → Bytes) where
  -- The non-nil values of anyToProtoValue.
  unfoldable pub to_any_value : GoValue Float → AnyValue Float
  to_any_value (string_of s) = string_value s
  to_any_value (signed_of n) = int_value n
  to_any_value (unsigned_of n) =
      if ltb (2 ^ 63 - 1) n then string_value (format_uint n) else int_value n
  to_any_value (float_of x) = double_value x
  to_any_value (bool_of b) = bool_value b
  to_any_value (bytes_of s) = bytes_value s
  to_any_value (printed_of s) = string_value s

  -- anyToProtoValue.
  unfoldable pub any_to_proto_value : Option (GoValue Float) → Option (AnyValue Float)
  any_to_proto_value none = none
  any_to_proto_value (some v) = some (to_any_value v)

  -- The loop of anyMapToProto: the keys stay.
  unfoldable pub any_map_to_proto :
      Map Bytes (Option (GoValue Float)) → Map Bytes (Option (AnyValue Float))
  any_map_to_proto [] = []
  any_map_to_proto ((k, v) ∷ m) = (k, any_to_proto_value v) ∷ any_map_to_proto m

  -- The attributes of toProtoSignalBatch: none make no Resource.
  unfoldable pub to_proto_resource :
      Map Bytes (Option (GoValue Float)) → Option (Map Bytes (Option (AnyValue Float)))
  to_proto_resource [] = none
  to_proto_resource (e ∷ m) = some (any_map_to_proto (e ∷ m))

module _ {Float : Type 0} where
  -- protoValueToAny on a value that is not nil.
  unfoldable pub of_any_value : AnyValue Float → Option (GoValue Float)
  of_any_value (string_value s) = some (string_of s)
  of_any_value (int_value n) = some (signed_of n)
  of_any_value (double_value x) = some (float_of x)
  of_any_value (bool_value b) = some (bool_of b)
  of_any_value (bytes_value s) = some (bytes_of s)
  of_any_value unset = none

  -- protoValueToAny.
  unfoldable pub proto_value_to_any : Option (AnyValue Float) → Option (GoValue Float)
  proto_value_to_any none = none
  proto_value_to_any (some av) = of_any_value av

  -- The loop of protoMapToAny.
  unfoldable pub proto_map_to_any :
      Map Bytes (Option (AnyValue Float)) → Map Bytes (Option (GoValue Float))
  proto_map_to_any [] = []
  proto_map_to_any ((k, av) ∷ m) = (k, proto_value_to_any av) ∷ proto_map_to_any m

  -- The attributes of fromProtoSignalBatch.
  unfoldable pub from_proto_resource :
      Option (Map Bytes (Option (AnyValue Float))) → Map Bytes (Option (GoValue Float))
  from_proto_resource none = []
  from_proto_resource (some m) = proto_map_to_any m
