-- ===== src/Codec/Canonical.antt =====
-- core/codec_proto.go: what a dynamic value is after it went through the codec.
use mbta_go.Base.{ℕ, ◌^◌, ◌≡◌, refl, [], ◌∷◌, ltb}
use mbta_go.Base.{if◌then◌else◌, Bytes, Option, none, some, Map, arith}
use mbta_go.Codec.Values.{
  GoValue, AnyValue, string_of, signed_of, unsigned_of, float_of, bool_of, bytes_of, printed_of,
  unset, to_any_value, any_to_proto_value, any_map_to_proto, of_any_value, proto_value_to_any,
  proto_map_to_any, to_proto_resource, from_proto_resource,
}

module _ {Float : Type 0} where
  -- What the wire does to a map: a nil value is written as an empty message.
  unfoldable pub wired_value : Option (AnyValue Float) → Option (AnyValue Float)
  wired_value none = some unset
  wired_value (some av) = some av

  unfoldable pub wired_map :
      Map Bytes (Option (AnyValue Float)) → Map Bytes (Option (AnyValue Float))
  wired_map [] = []
  wired_map ((k, av) ∷ m) = (k, wired_value av) ∷ wired_map m

  unfoldable pub wired_resource :
      Option (Map Bytes (Option (AnyValue Float))) → Option (Map Bytes (Option (AnyValue Float)))
  wired_resource none = none
  wired_resource (some m) = some (wired_map m)

-- What is left of a value after the two conversions: numbers are int64 or text.
module _ {Float : Type 0} (format_uint : ℕ → Bytes) where
  unfoldable pub canonical : GoValue Float → GoValue Float
  canonical (unsigned_of n) = if ltb n (2 ^ 63) then signed_of n else string_of (format_uint n)
  canonical (printed_of s) = string_of s
  canonical v = v

  unfoldable pub canonical_value : Option (GoValue Float) → Option (GoValue Float)
  canonical_value none = none
  canonical_value (some v) = some (canonical v)

  unfoldable pub canonical_map :
      Map Bytes (Option (GoValue Float)) → Map Bytes (Option (GoValue Float))
  canonical_map [] = []
  canonical_map ((k, v) ∷ m) = (k, canonical_value v) ∷ canonical_map m

  of_any_value-to_any_value :
      (v : GoValue Float) → of_any_value (to_any_value format_uint v) ≡ some (canonical v)
  unfolding of_any_value to_any_value canonical
  of_any_value-to_any_value (unsigned_of n) = ground arith
  of_any_value-to_any_value (string_of s) = refl
  of_any_value-to_any_value (signed_of n) = refl
  of_any_value-to_any_value (float_of x) = refl
  of_any_value-to_any_value (bool_of b) = refl
  of_any_value-to_any_value (bytes_of s) = refl
  of_any_value-to_any_value (printed_of s) = refl

  pub proto_value_to_any-any_to_proto_value :
      (v : Option (GoValue Float))
      → proto_value_to_any (any_to_proto_value format_uint v) ≡ canonical_value v
  unfolding proto_value_to_any any_to_proto_value canonical_value
  proto_value_to_any-any_to_proto_value none = refl
  proto_value_to_any-any_to_proto_value (some v) = of_any_value-to_any_value v

  -- A nil value comes back as nil, also as an empty message.
  proto_value_to_any-wired_value :
      (v : Option (AnyValue Float)) → proto_value_to_any (wired_value v) ≡ proto_value_to_any v
  unfolding proto_value_to_any wired_value of_any_value
  proto_value_to_any-wired_value none = refl
  proto_value_to_any-wired_value (some v) = refl

  pub proto_map_to_any-any_map_to_proto :
      (m : Map Bytes (Option (GoValue Float)))
      → proto_map_to_any (wired_map (any_map_to_proto format_uint m)) ≡ canonical_map m
  unfolding proto_map_to_any wired_map any_map_to_proto canonical_map
  proto_map_to_any-any_map_to_proto [] = refl
  proto_map_to_any-any_map_to_proto ((k, v) ∷ m) =
      rw
        (
          proto_value_to_any-wired_value (any_to_proto_value format_uint v),
          proto_value_to_any-any_to_proto_value v,
          proto_map_to_any-any_map_to_proto m,
        )
        refl

  pub from_proto_resource-to_proto_resource :
      (m : Map Bytes (Option (GoValue Float)))
      → from_proto_resource (wired_resource (to_proto_resource format_uint m)) ≡ canonical_map m
  unfolding from_proto_resource wired_resource to_proto_resource canonical_map
  from_proto_resource-to_proto_resource [] = refl
  from_proto_resource-to_proto_resource (e ∷ m) = proto_map_to_any-any_map_to_proto (e ∷ m)
