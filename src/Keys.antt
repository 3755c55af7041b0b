-- ===== src/Keys.antt =====
-- core/keyschedule.go, core/cipher.go and the verification of core/auth.go. The primitives (hashes, HMAC,
-- HKDF, AEAD) and the deterministic encoding of messages are a parameter.
pub mod Nonces
pub mod Schedule
use mbta_go.Base.{
  ℕ, zero, suc, ◌+◌, ◌-◌, ◌*◌, ◌/◌, ◌%◌, ◌^◌, ◌≡◌, List, [], ◌∷◌, ◌++◌, Bool, true, false, not,
  if◌then◌else◌,
}
use mbta_go.Base.{eqb, ltb, Bytes, bytes_eq, ◌==◌, contains, Option, none, some, length, take, drop}
use mbta_go.Codes.{Result, ok, err, ◌>>=◌, internal, hello_proof_invalid}
use mbta_go.Wire.{profile_intl, profile_gm, Hello, HelloAck}
use mbta_go.Policy.{cap_dual_integrity}

-- ProfileName: "intl", "gm" or nothing.
unfoldable pub profile_name : ℕ → Bytes
profile_name profile =
    if eqb profile profile_intl
    then 105 ∷ 110 ∷ 116 ∷ 108 ∷ []
    else if eqb profile profile_gm
    then 103 ∷ 109 ∷ []
    else []

-- HMACKeyLen; no number where the source answers -1.
unfoldable pub hmac_key_len : ℕ → Option ℕ
hmac_key_len profile =
    if eqb profile profile_intl then some 32 else if eqb profile profile_gm then some 32 else none

-- AEADKeyLen.
unfoldable pub aead_key_len : ℕ → Option ℕ
aead_key_len profile =
    if eqb profile profile_intl then some 32 else if eqb profile profile_gm then some 16 else none

-- cipher.AEAD.
pub record Aead : Type 0 where
  pub seal_bytes : Bytes → Bytes → Bytes → Bytes
  pub open_bytes : Bytes → Bytes → Bytes → Option Bytes

-- The primitives, by profile: hash of a message, HMAC of key and message, HKDF's two steps (the hash
-- is the profile's; `expand` answers as many bytes as asked for, or fails), the GCM of a key, and the
-- deterministic encoding of the handshake's messages.
pub record Crypto : Type 0 where
  pub hash : ℕ → Bytes → Bytes
  pub hmac : ℕ → Bytes → Bytes → Bytes
  pub extract : ℕ → Bytes → Bytes → Bytes
  pub expand : ℕ → Bytes → Bytes → ℕ → Option Bytes
  pub gcm : ℕ → Bytes → Option Aead
  pub encode_hello : Hello → Option Bytes
  pub encode_ack : HelloAck → Option Bytes

-- NewAEAD.
unfoldable pub new_aead : Crypto → ℕ → Bytes → Option Aead
new_aead c profile key = elim (aead_key_len profile) [
  | none ↦ none
  | some n ↦ if not (eqb (length key) n) then none else c.gcm profile key
]

-- binary.BigEndian: the value in `w` bytes, which wraps around.
unfoldable pub big_endian : ℕ → ℕ → Bytes
big_endian zero v = []
big_endian (suc w) v = (v / 256 ^ w % 256) ∷ big_endian w v

-- The length in four bytes, then the bytes.
unfoldable pub len_prefixed : Bytes → Bytes
len_prefixed s = big_endian 4 (length s) ++ s

-- What transcriptHash feeds to the hash.
unfoldable pub transcript : List Bytes → Bytes
transcript [] = []
transcript (chunk ∷ chunks) = len_prefixed chunk ++ transcript chunks

unfoldable pub or_internal {ℓ} : {A : Type ℓ} → Option A → Result A
or_internal none = err internal
or_internal (some a) = ok a

-- BuildNonce.
unfoldable pub build_nonce : Bytes → ℕ → Bytes
build_nonce prefix seq = take 4 prefix ++ big_endian 8 seq

pub record SessionKeys : Type 0 where
  pub key_profile : ℕ
  pub c2s_key : Bytes
  pub s2c_key : Bytes
  pub handshake_key : Bytes
  pub nonce_prefix_c : Bytes
  pub nonce_prefix_s : Bytes
  pub dual_mac_key : Bytes

module _ (c : Crypto) where
  unfoldable pub canonical_hello : Hello → Result Bytes
  canonical_hello h = or_internal (c.encode_hello (record h { token_proof = [] }))

  unfoldable pub canonical_hello_ack : HelloAck → Result Bytes
  canonical_hello_ack a = or_internal (c.encode_ack (record a { finished = [] }))

  unfoldable pub transcript_hash : ℕ → List Bytes → Bytes
  transcript_hash profile chunks = c.hash profile (transcript chunks)

  unfoldable pub transcript_hello : ℕ → Hello → Result Bytes
  transcript_hello profile hello =
      canonical_hello hello >>= λ cb. ok (transcript_hash profile (profile_name profile ∷ cb ∷ []))

  unfoldable pub transcript_full : ℕ → Hello → HelloAck → Result Bytes
  transcript_full profile hello ack = canonical_hello hello >>= λ hb.
      canonical_hello_ack ack >>= λ ab.
      ok (transcript_hash profile (profile_name profile ∷ hb ∷ ab ∷ []))

  unfoldable pub token_proof_of : ℕ → Bytes → Bytes → Bytes
  token_proof_of profile token th_hello = c.hmac profile token th_hello

  -- pskCK; hkdf.Extract takes the secret first and the salt second.
  unfoldable pub psk_ck : ℕ → Bytes → Bytes → Bytes → Result Bytes
  psk_ck profile zz th_hello proof =
      or_internal (
        c.expand profile (c.extract profile zz th_hello)
          (109 ∷ 98 ∷ 116 ∷ 97 ∷ 47 ∷ 112 ∷ 115 ∷ 107 ∷ []) 32)
      >>= λ mix. ok (c.extract profile proof mix)

  -- The key block cut into its parts.
  unfoldable pub split_keys : ℕ → ℕ → ℕ → Bytes → SessionKeys
  split_keys profile key_len mac_len okm =
      let rest = drop (key_len * 2) okm in
      let prefixes = drop mac_len rest in
      record {
        key_profile = profile;
        c2s_key = take key_len okm;
        s2c_key = take key_len (drop key_len okm);
        handshake_key = take mac_len rest;
        nonce_prefix_c = take 4 prefixes;
        nonce_prefix_s = take 4 (drop 4 prefixes);
        dual_mac_key = [];
      }

  -- DeriveSessionKeys. For a profile without lengths the source asks for a block of -1 * 2 - 1 + 8
  -- bytes and slices it to a negative length, which panics; the model fails there.
  unfoldable pub derive_session_keys : ℕ → Bytes → Bytes → Bytes → Result SessionKeys
  derive_session_keys profile zz th_hello proof = psk_ck profile zz th_hello proof >>= λ pck.
      or_internal (aead_key_len profile) >>= λ key_len.
      or_internal (hmac_key_len profile) >>= λ mac_len.
      or_internal (
        c.expand profile pck (109 ∷ 98 ∷ 116 ∷ 97 ∷ 47 ∷ 115 ∷ 112 ∷ 108 ∷ 105 ∷ 116 ∷ [])
          (key_len * 2 + mac_len + 8))
      >>= λ okm. ok (split_keys profile key_len mac_len okm)

  unfoldable pub derive_dual_mac_key : ℕ → Bytes → Bytes → Bytes → Result Bytes
  derive_dual_mac_key profile zz th_hello proof = psk_ck profile zz th_hello proof >>= λ pck.
      or_internal (hmac_key_len profile) >>= λ mac_len.
      or_internal
        (c.expand profile pck (109 ∷ 98 ∷ 116 ∷ 97 ∷ 47 ∷ 100 ∷ 117 ∷ 97 ∷ 108 ∷ []) mac_len)

  -- CapIn is `contains`.
  unfoldable pub derive_session_keys_with_caps :
      ℕ → Bytes → Bytes → Bytes → List Bytes → Result SessionKeys
  derive_session_keys_with_caps profile zz th_hello proof selected =
      derive_session_keys profile zz th_hello proof >>= λ keys.
      if contains selected cap_dual_integrity
      then (derive_dual_mac_key profile zz th_hello proof >>= λ dk.
          ok (record keys { dual_mac_key = dk }))
      else ok keys

  unfoldable pub finished_mac : SessionKeys → Bytes → Bytes
  finished_mac keys th_full = c.hmac keys.key_profile keys.handshake_key th_full

  -- The loop of VerifyTokenProof over the tokens that the validator's ResolveToken answers.
  unfoldable pub verify_candidates : ℕ → List Bytes → Bytes → Bytes → Result (Unit {0})
  verify_candidates profile [] th_hello proof = err hello_proof_invalid
  verify_candidates profile (tok ∷ toks) th_hello proof =
      let rest = verify_candidates profile toks th_hello proof in
      if token_proof_of profile tok th_hello == proof then ok tt else rest

  -- VerifyTokenProof; no tokens at all are an error of ResolveToken.
  unfoldable pub verify_token_proof : Option (List Bytes) → ℕ → Bytes → Bytes → Result (Unit {0})
  verify_token_proof none profile th_hello proof = err internal
  verify_token_proof (some cands) profile th_hello proof =
      verify_candidates profile cands th_hello proof
