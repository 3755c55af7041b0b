-- ===== src/Policy.antt =====
-- core/policy.go: the server's policy, its checks, and the choice of capabilities and codec.
pub mod Negotiation
use mbta_go.Base.{
  ℕ, ◌+◌, ◌≡◌, ◌++◌, List, [], ◌∷◌, Bool, true, false, ◌&&◌, ◌||◌, not, if◌then◌else◌,
}
use mbta_go.Base.{ltb, eqb, Bytes, bytes_eq, contains, length}
use mbta_go.Codes.{
  Result, ok, err, ◌>>◌, refuse_if, unsupported_profile, ack_mode_bad, credit_invalid,
  bad_handshake, local_config,
}
use mbta_go.Wire.{
  profile_intl, profile_gm, ack_mode_accepted_only, ack_mode_durable, codec_cbor, codec_proto,
}
use mbta_go.Frame.{max_frame_bytes}

-- "trace_context"
abbrev pub cap_trace_context : Bytes
cap_trace_context = 116 ∷ 114 ∷ 97 ∷ 99 ∷ 101 ∷ 95 ∷ 99 ∷ 111 ∷ 110 ∷ 116 ∷ 101 ∷ 120 ∷ 116 ∷ []

-- "datagram"
abbrev pub cap_datagram : Bytes
cap_datagram = 100 ∷ 97 ∷ 116 ∷ 97 ∷ 103 ∷ 114 ∷ 97 ∷ 109 ∷ []

-- "cbor"
abbrev pub cap_cbor : Bytes
cap_cbor = 99 ∷ 98 ∷ 111 ∷ 114 ∷ []

-- "dual_integrity"
abbrev pub cap_dual_integrity : Bytes
cap_dual_integrity =
    100 ∷ 117 ∷ 97 ∷ 108 ∷ 95 ∷ 105 ∷ 110 ∷ 116 ∷ 101 ∷ 103 ∷ 114 ∷ 105 ∷ 116 ∷ 121 ∷ []

-- "zstd_dict"
abbrev pub cap_zstd_dict : Bytes
cap_zstd_dict = 122 ∷ 115 ∷ 116 ∷ 100 ∷ 95 ∷ 100 ∷ 105 ∷ 99 ∷ 116 ∷ []

-- "control_commands"
abbrev pub cap_control_commands : Bytes
cap_control_commands =
    99 ∷ 111 ∷ 110 ∷ 116 ∷ 114 ∷ 111 ∷ 108 ∷ 95 ∷ 99 ∷ 111 ∷ 109 ∷ 109 ∷ 97 ∷ 110 ∷ 100 ∷ 115 ∷ []

-- MaxZstdDictBytes, 1 << 20.
abbrev pub max_zstd_dict_bytes : ℕ
max_zstd_dict_bytes = 1048576

abbrev pub default_initial_credit_batches : ℕ
default_initial_credit_batches = 256

-- 64 << 20
abbrev pub default_initial_credit_bytes : ℕ
default_initial_credit_bytes = 67108864

-- The batch limit of DefaultPolicyLimits, 8 << 20; its frame limit is `max_frame_bytes`.
abbrev pub default_max_batch_bytes : ℕ
default_max_batch_bytes = 8388608

pub record ServerPolicy : Type 0 where
  pub policy_profile : ℕ
  pub supported_capabilities : List Bytes
  pub policy_ack_mode : ℕ
  pub initial_credit_batches : ℕ
  pub initial_credit_bytes : ℕ
  pub policy_frame_bytes : ℕ
  pub policy_batch_bytes : ℕ
  pub datagram_rate_bytes : ℕ
  pub zstd_dict : Bytes
  pub zstd_dict_id : ℕ

-- IsZero.
unfoldable pub unset_policy : ServerPolicy → Bool
unset_policy p =
    eqb p.policy_profile 0
    && eqb p.policy_ack_mode 0
    && eqb p.initial_credit_batches 0
    && eqb p.initial_credit_bytes 0
    && eqb p.policy_frame_bytes 0
    && eqb p.policy_batch_bytes 0
    && eqb (length p.supported_capabilities) 0
    && eqb (length p.zstd_dict) 0

unfoldable pub default_server_policy : ℕ → ServerPolicy
default_server_policy profile = record {
  policy_profile = profile;
  supported_capabilities = cap_trace_context ∷ cap_datagram ∷ cap_cbor ∷ cap_control_commands ∷ [];
  policy_ack_mode = ack_mode_accepted_only;
  initial_credit_batches = default_initial_credit_batches;
  initial_credit_bytes = default_initial_credit_bytes;
  policy_frame_bytes = max_frame_bytes;
  policy_batch_bytes = default_max_batch_bytes;
  datagram_rate_bytes = 0;
  zstd_dict = [];
  zstd_dict_id = 0;
}

-- The dictionary's part of Validate.
unfoldable pub validate_dict : Bytes → ℕ → Result (Unit {0})
validate_dict dict id =
    if ltb 0 (length dict)
    then refuse_if (ltb max_zstd_dict_bytes (length dict)) local_config
      >> refuse_if (eqb id 0) local_config
    else ok tt

-- Validate.
unfoldable pub validate_policy : ServerPolicy → Result (Unit {0})
validate_policy p =
    refuse_if (not (eqb p.policy_profile profile_intl) && not (eqb p.policy_profile profile_gm))
      unsupported_profile
    >> refuse_if
        (not (eqb p.policy_ack_mode ack_mode_accepted_only)
          && not (eqb p.policy_ack_mode ack_mode_durable))
        ack_mode_bad
    >> refuse_if (eqb p.initial_credit_batches 0 || eqb p.initial_credit_bytes 0) credit_invalid
    >> refuse_if (eqb p.policy_frame_bytes 0 || eqb p.policy_batch_bytes 0) bad_handshake
    >> refuse_if (ltb max_frame_bytes p.policy_frame_bytes) local_config
    >> validate_dict p.zstd_dict p.zstd_dict_id

-- The loops of Negotiate and FilterUnknownCaps: what passes a test, in its order.
unfoldable pub select : (Bytes → Bool) → List Bytes → List Bytes
select keep [] = []
select keep (c ∷ cs) = let rest = select keep cs in if keep c then c ∷ rest else rest

unfoldable pub negotiate : ServerPolicy → List Bytes → List Bytes
negotiate p client_caps = select (contains client_caps) p.supported_capabilities

unfoldable pub codec_for : List Bytes → ℕ
codec_for selected = if contains selected cap_cbor then codec_cbor else codec_proto

abbrev pub known_caps : List Bytes
known_caps =
    cap_trace_context ∷ cap_datagram ∷ cap_cbor ∷ cap_dual_integrity ∷ cap_zstd_dict
    ∷ cap_control_commands ∷ []

unfoldable pub filter_unknown_caps : List Bytes → List Bytes
filter_unknown_caps caps = select (λ c. not (contains known_caps c)) caps
