-- ===== src/Envelope/Opening.antt =====
-- The checks on the way through OpenEnvelope of core/envelope.go.
use mbta_go.Base.{ℕ, ◌≤◌, ◌<◌, ◌≡◌, ◌++◌, true, false, not, arith}
use mbta_go.Base.{eqb, ltb, Bytes, bytes_eq, bytes_eqb_iff, Option, none, some, length}
use mbta_go.Codes.{ok, refuse_if, bind_ok, then_ok, refuse_if_ok, envelope_open_fail}
use mbta_go.Wire.{Envelope, compression_none}
use mbta_go.Keys.{Crypto, Aead, SessionKeys, new_aead, or_internal, build_nonce}
use mbta_go.Envelope.{
  Codecs, Stream, max_decompressed_size, copy_limited, copy_reader, whole_output, decompress,
  decompress_zstd_dict, envelope_ad, dual_mac, opened, unpacked, check_mac, open_with,
  open_envelope,
}

length-copy_limited :
    (s : Stream) (out : Bytes) → copy_limited s ≡ ok out → length out ≤ max_decompressed_size
unfolding copy_limited
length-copy_limited (all', failed) out h = ground arith

length-copy_reader :
    (s : Option Stream) (out : Bytes) → copy_reader s ≡ ok out → length out ≤ max_decompressed_size
unfolding copy_reader
length-copy_reader none out h = cc
length-copy_reader (some s) out h = length-copy_limited s out h

length-whole_output :
    (o : Option Bytes) (out : Bytes) → whole_output o ≡ ok out → length out ≤ max_decompressed_size
unfolding whole_output
length-whole_output none out h = cc
length-whole_output (some all') out h = ground arith

module _ {D : Type 0} (codecs : Codecs D) where
  length-decompress_zstd_dict :
      (src : Bytes) (dict : Option D) (out : Bytes)
      → decompress_zstd_dict codecs src dict ≡ ok out
      → length out ≤ max_decompressed_size
  unfolding decompress_zstd_dict
  length-decompress_zstd_dict src none out h = cc
  length-decompress_zstd_dict src (some d) out h =
      length-whole_output (codecs.dict_decode d src) out h

  length-decompress :
      (comp : ℕ) (src : Bytes) (dict : Option D) (out : Bytes)
      → decompress codecs comp src dict ≡ ok out
      → length out ≤ max_decompressed_size
  unfolding decompress
  length-decompress comp src dict out h = ground (
    arith,
    length-copy_reader (codecs.gzip_read src) out,
    length-copy_reader (codecs.zstd_read src) out,
    length-decompress_zstd_dict src dict out,
    length-copy_limited (codecs.lz4_read src) out,
  )

-- What was checked before the batch came out.
pub record IsOpened (c : Crypto) (frame_type : ℕ) (session_id : Bytes) (keys : SessionKeys)
    (env : Envelope) (out : Bytes) : Type 0 where
  pub first_epoch : env.key_epoch ≡ 0
  pub numbered : 0 < env.seq
  pub both_mac : ltb 0 (length env.mac) ≡ ltb 0 (length keys.dual_mac_key)
  pub right_mac :
      0 < length keys.dual_mac_key
      → env.mac
        ≡ c.hmac keys.key_profile keys.dual_mac_key (
            envelope_ad frame_type session_id env.key_epoch env.seq env.compression keys.key_profile
            ++ env.ciphertext)
  pub aead : Aead
  pub plain : Bytes
  pub profile_aead : new_aead c keys.key_profile keys.c2s_key ≡ some aead
  pub authentic :
      aead.open_bytes
        (build_nonce keys.nonce_prefix_c env.seq)
        env.ciphertext
        (envelope_ad frame_type session_id env.key_epoch env.seq env.compression keys.key_profile)
      ≡ some plain
  pub verbatim : eqb env.compression compression_none ≡ true → plain ≡ out
  pub limited : eqb env.compression compression_none ≡ false → length out ≤ max_decompressed_size

module _ {D : Type 0} (c : Crypto) (codecs : Codecs D) where
  check_mac_ok :
      (keys : SessionKeys) (ad : Bytes) (env : Envelope)
      → check_mac c codecs keys ad env ≡ ok tt
      → (ltb 0 (length env.mac) ≡ ltb 0 (length keys.dual_mac_key))
        × (0 < length keys.dual_mac_key
            → env.mac ≡ c.hmac keys.key_profile keys.dual_mac_key (ad ++ env.ciphertext))
  unfolding check_mac dual_mac
  check_mac_ok keys ad env h = ground (
    arith,
    bytes_eqb_iff (c.hmac keys.key_profile keys.dual_mac_key (ad ++ env.ciphertext)) env.mac,
  )

  opened_ok : (o : Option Bytes) (plain : Bytes) → opened c codecs o ≡ ok plain → o ≡ some plain
  unfolding opened
  opened_ok none plain h = cc
  opened_ok (some p) plain h = cc

  or_internal_ok : (o : Option Aead) (a : Aead) → or_internal o ≡ ok a → o ≡ some a
  unfolding or_internal
  or_internal_ok none a h = cc
  or_internal_ok (some b) a h = cc

  unpacked_ok :
      (comp : ℕ) (dict : Option D) (plain out : Bytes)
      → unpacked c codecs comp dict plain ≡ ok out
      → (eqb comp compression_none ≡ true → plain ≡ out)
        × (eqb comp compression_none ≡ false → length out ≤ max_decompressed_size)
  unfolding unpacked
  unpacked_ok comp dict plain out h =
      (λ e. let g = rw e at h in cc, λ e. length-decompress codecs comp plain dict out (rw e at h))

  open_with-IsOpened :
      (frame_type : ℕ) (session_id : Bytes) (keys : SessionKeys) (dict : Option D) (env : Envelope)
      (out : Bytes)
      → open_with c codecs frame_type session_id keys dict env ≡ ok out
      → IsOpened c frame_type session_id keys env out
  unfolding open_with
  open_with-IsOpened frame_type session_id keys dict env out h =
      let ad =
        envelope_ad frame_type session_id env.key_epoch env.seq env.compression keys.key_profile in
      let (checks, inner) = then_ok _ _ out h in
      let (counted, mac) = then_ok _ (check_mac c codecs keys ad env) tt checks in
      let (epoch, number) =
        then_ok (refuse_if (not (eqb env.key_epoch 0)) envelope_open_fail)
          (refuse_if (eqb env.seq 0) envelope_open_fail) tt counted in
      let (aead, e1, r1) =
        bind_ok (or_internal (new_aead c keys.key_profile keys.c2s_key)) _ out inner in
      let (plain, e2, r2) =
        bind_ok
          (opened c codecs
            (aead.open_bytes (build_nonce keys.nonce_prefix_c env.seq) env.ciphertext ad))
          _ out r1 in
      let (both, right) = check_mac_ok keys ad env mac in
      let (verbatim, limited) = unpacked_ok env.compression dict plain out r2 in
      record {
        first_epoch = zero_epoch env.key_epoch (refuse_if_ok _ envelope_open_fail epoch);
        numbered = positive env.seq (refuse_if_ok _ envelope_open_fail number);
        both_mac = both;
        right_mac = right;
        aead = aead;
        plain = plain;
        profile_aead = or_internal_ok _ aead e1;
        authentic = opened_ok _ plain e2;
        verbatim = verbatim;
        limited = limited;
      }
    where
      zero_epoch : (n : ℕ) → not (eqb n 0) ≡ false → n ≡ 0
      zero_epoch n e = ground arith

      positive : (n : ℕ) → eqb n 0 ≡ false → 0 < n
      positive n e = ground arith

-- An envelope is opened only in the first key epoch, with a seq, with an outer MAC exactly if the session
-- has a key for one and then with the right one, and if the AEAD opens it under the nonce of its seq and
-- the data that names it; an uncompressed batch is what the AEAD gave, and a decompressed one is at most
-- 8 MiB.
pub open_envelope-IsOpened :
    {D : Type 0} (c : Crypto) (codecs : Codecs D) (frame_type : ℕ) (session_id : Bytes)
    (keys : SessionKeys) (dict : Option D) (env : Envelope) (out : Bytes)
    → open_envelope c codecs frame_type session_id (some keys) dict env ≡ ok out
    → IsOpened c frame_type session_id keys env out
unfolding open_envelope
open_envelope-IsOpened c codecs frame_type session_id keys dict env out h =
    open_with-IsOpened c codecs frame_type session_id keys dict env out h
