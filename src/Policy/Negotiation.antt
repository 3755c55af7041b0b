-- ===== src/Policy/Negotiation.antt =====
-- Negotiation by core/policy.go, and its default policies.
use mbta_go.Base.{ℕ, ◌≡◌, refl, List, [], ◌∷◌, Bool, ◌&&◌, ◌||◌, not, if◌then◌else◌, arith}
use mbta_go.Base.{eqb, Bytes, bytes_eq, bytes_eqb_iff, contains}
use mbta_go.Codes.{ok, err, unsupported_profile}
use mbta_go.Wire.{profile_intl, profile_gm, codec_cbor, codec_proto}
use mbta_go.Policy.{
  ServerPolicy, select, negotiate, codec_for, cap_cbor, filter_unknown_caps, known_caps,
  validate_policy, validate_dict, default_server_policy,
}

contains-select :
    (keep : Bytes → Bool) (cs : List Bytes) (c : Bytes)
    → contains (select keep cs) c ≡ (contains cs c && keep c)
unfolding select
contains-select keep [] c = refl
contains-select keep (d ∷ cs) c = ground (arith, bytes_eqb_iff d c, contains-select keep cs c)

-- A capability is negotiated exactly if the policy supports it and the client offers it.
pub contains-negotiate :
    (p : ServerPolicy) (caps : List Bytes) (c : Bytes)
    → contains (negotiate p caps) c ≡ (contains p.supported_capabilities c && contains caps c)
unfolding negotiate
contains-negotiate p caps c = contains-select (contains caps) p.supported_capabilities c

-- The codec that both sides derive from what was negotiated is CBOR exactly if both have it, and the
-- capabilities that are negotiated but unknown are those that policy and client both name and no
-- known capability is.
pub codec_for-negotiate :
    (p : ServerPolicy) (caps : List Bytes) (c : Bytes)
    → (codec_for (negotiate p caps) ≡ (
        if contains p.supported_capabilities cap_cbor && contains caps cap_cbor
        then codec_cbor
        else codec_proto))
      × (contains (filter_unknown_caps (negotiate p caps)) c
          ≡ (contains p.supported_capabilities c && contains caps c && not (contains known_caps c)))
unfolding codec_for filter_unknown_caps
codec_for-negotiate p caps c = (
  rw (contains-negotiate p caps cap_cbor) refl,
  rw
      (
        contains-select (λ d. not (contains known_caps d)) (negotiate p caps) c,
        contains-negotiate p caps c,
      )
      refl,
)

-- The default policy of a profile passes if the profile is known, and is refused as unsupported otherwise.
pub validate_policy-default_server_policy :
    (profile : ℕ)
    → validate_policy (default_server_policy profile) ≡ (
        if eqb profile profile_intl || eqb profile profile_gm
        then ok tt
        else err unsupported_profile)
unfolding validate_policy default_server_policy validate_dict
validate_policy-default_server_policy profile = ground arith
