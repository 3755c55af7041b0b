-- ===== src/Tests/EnvelopeRuns.antt =====
-- core/keyschedule.go, core/auth.go and core/envelope.go at concrete inputs, with primitives that do as
-- little as their laws allow.
use mbta_go.Base.{
  ℕ, zero, suc, ◌-◌, ◌^◌, ◌%◌, ◌≡◌, refl, ap, List, [], ◌∷◌, false, if◌then◌else◌, arith,
}
use mbta_go.Base.{Bytes, bytes_eq, contains, length, replicate, none, some}
use mbta_go.Codes.{ok}
use mbta_go.Wire.{Envelope, profile_intl, compression_none}
use mbta_go.Policy.{cap_dual_integrity}
use mbta_go.Keys.{
  Crypto, Aead, SessionKeys, new_aead, aead_key_len, hmac_key_len, profile_name,
  derive_session_keys_with_caps, derive_session_keys, derive_dual_mac_key, psk_ck, split_keys,
  or_internal,
}
use mbta_go.Keys.Nonces.{build_nonce_inj}
use mbta_go.Keys.Schedule.{IsExpand, IsKeyed, derive_session_keys_with_caps-IsKeyed}
use mbta_go.Envelope.{
  Codecs, SealParams, seal_message, seal_plain, wrong_mac_key, open_envelope, open_with,
  envelope_ad, dual_mac, opened, unpacked, check_mac,
}
use mbta_go.Envelope.Compression.{IsLossless, IsAuthenticated}
use mbta_go.Envelope.Data.{envelope_ad_inj}
use mbta_go.Envelope.Opening.{IsOpened, open_envelope-IsOpened}
use mbta_go.Envelope.RoundTrip.{open_envelope-seal_message, seal_message_uncompressed}

abbrev pub bare_aead : Aead
bare_aead = record { seal_bytes = λ nonce plain ad. plain; open_bytes = λ nonce ct ad. some ct }

abbrev pub bare : Crypto
bare = record {
  hash = λ profile msg. msg;
  hmac = λ profile key msg. 1 ∷ key;
  extract = λ profile secret salt. secret;
  expand = λ profile key info n. some (replicate n 0);
  gcm = λ profile key. some bare_aead;
  encode_hello = λ h. some [];
  encode_ack = λ a. some [];
}

length-replicate : (n : ℕ) → length {A = ℕ} (replicate n 0) ≡ n
length-replicate zero = refl
length-replicate (suc n) = ap suc (length-replicate n)

bare-IsExpand : IsExpand bare
bare-IsExpand profile key info n out e = expanded n out e
  where
    expanded : (n : ℕ) (out : Bytes) → some (replicate n 0) ≡ some out → length out ≡ n
    expanded n out e = let same : replicate n 0 ≡ out = cc in rw (← same) (length-replicate n)

pub bare-IsAuthenticated : IsAuthenticated bare
bare-IsAuthenticated = record {
  opens = λ profile key aead nonce plain ad e. opened_bare aead nonce plain ad e;
  sized = λ profile key msg. omega arith;
}
  where
    opened_bare :
        (aead : Aead) (nonce plain ad : Bytes)
        → some bare_aead ≡ some aead
        → aead.open_bytes nonce (aead.seal_bytes nonce plain ad) ad ≡ some plain
    opened_bare aead nonce plain ad e = let same : bare_aead ≡ aead = cc in rw (← same) refl

abbrev pub verbatim : Codecs ℕ
verbatim = record {
  gzip_write = λ s. some s;
  gzip_read = λ s. some (s, false);
  zstd_encode = λ s. s;
  zstd_read = λ s. some (s, false);
  lz4_write = λ s. some s;
  lz4_read = λ s. (s, false);
  dict_encode = λ d s. some s;
  dict_decode = λ d s. some s;
}

pub verbatim-IsLossless : IsLossless verbatim
verbatim-IsLossless = record {
  gzip = λ src out e. let same : src ≡ out = cc in rw same refl;
  zstd = λ src. refl;
  lz4 = λ src out e. let same : src ≡ out = cc in rw same refl;
  zstd_dict = λ d src out small e. let same : src ≡ out = cc in rw same refl;
}

abbrev nonce_prefix : Bytes
nonce_prefix = 1 ∷ 2 ∷ 3 ∷ 4 ∷ []

abbrev some_seq : ℕ
some_seq = 2 ^ 64 - 1

build_nonce_inj_example : (nonce_prefix ≡ nonce_prefix) × (some_seq ≡ some_seq)
build_nonce_inj_example =
    build_nonce_inj nonce_prefix nonce_prefix some_seq some_seq refl refl (omega arith)
      (omega arith) refl

abbrev chunks : List Bytes
chunks = (1 ∷ []) ∷ (2 ∷ 3 ∷ []) ∷ []

abbrev batch_type : ℕ
batch_type = 16

abbrev session : Bytes
session = 5 ∷ []

abbrev first_epoch : ℕ
first_epoch = 0

-- The epoch stands in one byte.
abbrev late_epoch : ℕ
late_epoch = 256

envelope_ad_inj_example :
    (batch_type ≡ batch_type)
    × (session ≡ session)
    × (first_epoch % 256 ≡ late_epoch % 256)
    × (some_seq ≡ some_seq)
    × (compression_none % 256 ≡ compression_none % 256)
    × (profile_name profile_intl ≡ profile_name profile_intl)
unfolding envelope_ad
envelope_ad_inj_example =
    envelope_ad_inj batch_type batch_type session session first_epoch late_epoch some_seq some_seq
      compression_none compression_none profile_intl profile_intl (omega arith) (omega arith)
      (omega arith) (omega arith) refl

abbrev pub session_keys : SessionKeys
session_keys = record {
  key_profile = profile_intl;
  c2s_key = replicate 32 0;
  s2c_key = replicate 32 0;
  handshake_key = replicate 32 0;
  nonce_prefix_c = replicate 4 0;
  nonce_prefix_s = replicate 4 0;
  dual_mac_key = replicate 32 0;
}

derived :
    derive_session_keys_with_caps bare profile_intl
      (3 ∷ [])
      (4 ∷ [])
      (5 ∷ [])
      (cap_dual_integrity ∷ [])
    ≡ ok session_keys
unfolding derive_session_keys_with_caps derive_session_keys derive_dual_mac_key psk_ck split_keys
    or_internal aead_key_len hmac_key_len
derived = refl

derive_session_keys_with_caps-IsKeyed_example :
    IsKeyed profile_intl session_keys
    × (new_aead bare profile_intl session_keys.c2s_key ≡ bare.gcm profile_intl session_keys.c2s_key)
    × (if contains (cap_dual_integrity ∷ []) cap_dual_integrity
        then some (length session_keys.dual_mac_key) ≡ hmac_key_len profile_intl
        else (session_keys.dual_mac_key ≡ []))
derive_session_keys_with_caps-IsKeyed_example =
    derive_session_keys_with_caps-IsKeyed bare profile_intl (3 ∷ []) (4 ∷ []) (5 ∷ [])
      (cap_dual_integrity ∷ []) session_keys bare-IsExpand derived

abbrev pub params : SealParams ℕ
params = record {
  frame_type = 16;
  session_id = 5 ∷ [];
  seal_seq = 9;
  seal_epoch = 0;
  seal_compression = compression_none;
  keys = some session_keys;
  dict = none;
  batch_wire = 42 ∷ 43 ∷ [];
  seal_mac_key = replicate 32 0;
}

abbrev pub sealed : Envelope
sealed = record {
  key_epoch = 0;
  seq = 9;
  compression = compression_none;
  ciphertext = 42 ∷ 43 ∷ [];
  mac = 1 ∷ replicate 32 0;
}

pub ready : new_aead bare profile_intl session_keys.c2s_key ≡ some bare_aead
unfolding new_aead aead_key_len
ready = refl

right_key : wrong_mac_key bare verbatim params.seal_mac_key (hmac_key_len profile_intl) ≡ false
unfolding wrong_mac_key hmac_key_len
right_key = refl

seal_message-params : seal_message bare verbatim params ≡ ok sealed
unfolding seal_plain dual_mac
seal_message-params =
    seal_message_uncompressed bare verbatim params session_keys bare_aead refl (omega arith) refl
      refl ready right_key

open_envelope-seal_message_example :
    open_envelope bare verbatim 16 (5 ∷ []) (some session_keys) none sealed ≡ ok (42 ∷ 43 ∷ [])
open_envelope-seal_message_example =
    open_envelope-seal_message bare verbatim params session_keys sealed verbatim-IsLossless
      bare-IsAuthenticated refl refl (omega arith) seal_message-params

open_sealed :
    open_envelope bare verbatim 16 (5 ∷ []) (some session_keys) none sealed ≡ ok (42 ∷ 43 ∷ [])
unfolding open_envelope open_with check_mac dual_mac new_aead aead_key_len or_internal opened
    unpacked
open_sealed = refl

open_envelope-IsOpened_example : IsOpened bare 16 (5 ∷ []) session_keys sealed (42 ∷ 43 ∷ [])
open_envelope-IsOpened_example =
    open_envelope-IsOpened bare verbatim 16 (5 ∷ []) session_keys none sealed (42 ∷ 43 ∷ [])
      open_sealed
