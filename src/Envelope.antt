-- ===== src/Envelope.antt =====
-- core/envelope.go: batches sealed into envelopes and opened again. The compressors, the dictionary codec
-- and protobuf's encoding are a parameter, as are the primitives of Keys.
pub mod Compression
pub mod Data
pub mod Opening
pub mod RoundTrip
use mbta_go.Base.{
  ℕ, suc, ◌+◌, ◌%◌, ◌≡◌, List, [], ◌∷◌, ◌++◌, Bool, true, false, ◌&&◌, not, if◌then◌else◌,
}
use mbta_go.Base.{eqb, ltb, Bytes, bytes_eq, ◌==◌, Option, none, some, length}
use mbta_go.Codes.{
  Result, ok, err, ◌>>◌, ◌>>=◌, refuse_if, internal, batch_invalid, envelope_open_fail,
  decompress_limit,
}
use mbta_go.Wire.{
  Envelope, compression_none, compression_gzip, compression_zstd, compression_lz4,
  compression_zstd_dict,
}
use mbta_go.Keys.{
  Crypto, Aead, SessionKeys, new_aead, or_internal, big_endian, len_prefixed, build_nonce,
  profile_name, hmac_key_len,
}

-- MaxDecompressedSize, 8 * 1024 * 1024.
abbrev pub max_decompressed_size : ℕ
max_decompressed_size = 8388608

-- A decompressing reader: what it yields, and whether it ends in an error.
abbrev pub Stream : Type 0
Stream = Bytes × Bool

-- klauspost/compress, pierrec/lz4 and compress/gzip; `D` is a ZstdDictCodec. A reader that cannot be set
-- up is none, as is a call that fails.
pub record Codecs (D : Type 0) : Type 0 where
  pub gzip_write : Bytes → Option Bytes
  pub gzip_read : Bytes → Option Stream
  pub zstd_encode : Bytes → Bytes
  pub zstd_read : Bytes → Option Stream
  pub lz4_write : Bytes → Option Bytes
  pub lz4_read : Bytes → Stream
  pub dict_encode : D → Bytes → Option Bytes
  pub dict_decode : D → Bytes → Option Bytes

-- copyLimited: the reader is cut one byte over the limit, so an error behind that is not seen.
unfoldable pub copy_limited : Stream → Result Bytes
copy_limited (out, failed) =
    if ltb max_decompressed_size (length out)
    then err decompress_limit
    else if failed
    then err envelope_open_fail
    else ok out

unfoldable pub copy_reader : Option Stream → Result Bytes
copy_reader none = err envelope_open_fail
copy_reader (some s) = copy_limited s

-- What DecodeAll answers.
unfoldable pub whole_output : Option Bytes → Result Bytes
whole_output none = err envelope_open_fail
whole_output (some out) =
    if ltb max_decompressed_size (length out) then err decompress_limit else ok out

module _ {D : Type 0} (codecs : Codecs D) where
  unfoldable pub compress_zstd_dict : Bytes → Option D → Result Bytes
  compress_zstd_dict src none = err batch_invalid
  compress_zstd_dict src (some d) = or_internal (codecs.dict_encode d src)

  unfoldable pub decompress_zstd_dict : Bytes → Option D → Result Bytes
  decompress_zstd_dict src none = err envelope_open_fail
  decompress_zstd_dict src (some d) = whole_output (codecs.dict_decode d src)

  unfoldable pub compress : ℕ → Bytes → Option D → Result Bytes
  compress c src dict =
      if eqb c compression_gzip
      then or_internal (codecs.gzip_write src)
      else if eqb c compression_zstd
      then ok (codecs.zstd_encode src)
      else if eqb c compression_zstd_dict
      then compress_zstd_dict src dict
      else if eqb c compression_lz4
      then or_internal (codecs.lz4_write src)
      else err batch_invalid

  unfoldable pub decompress : ℕ → Bytes → Option D → Result Bytes
  decompress c src dict =
      if eqb c compression_gzip
      then copy_reader (codecs.gzip_read src)
      else if eqb c compression_zstd
      then copy_reader (codecs.zstd_read src)
      else if eqb c compression_zstd_dict
      then decompress_zstd_dict src dict
      else if eqb c compression_lz4
      then copy_limited (codecs.lz4_read src)
      else err batch_invalid

-- envelopeAD.
unfoldable pub envelope_ad : ℕ → Bytes → ℕ → ℕ → ℕ → ℕ → Bytes
envelope_ad frame_type session_id key_epoch seq comp profile =
    frame_type
    ∷ 0
    ∷ (len_prefixed session_id
        ++ ((key_epoch % 256)
            ∷ (big_endian 8 seq ++ ((comp % 256) ∷ len_prefixed (profile_name profile)))))

pub record SealParams (D : Type 0) : Type 0 where
  pub frame_type : ℕ
  pub session_id : Bytes
  pub seal_seq : ℕ
  pub seal_epoch : ℕ
  pub seal_compression : ℕ
  pub keys : Option SessionKeys
  pub dict : Option D
  pub batch_wire : Bytes
  pub seal_mac_key : Bytes

module _ {D : Type 0} (c : Crypto) (codecs : Codecs D) where
  -- dualMAC.
  unfoldable pub dual_mac : ℕ → Bytes → Bytes → Bytes → Bytes
  dual_mac profile key ad ciphertext = c.hmac profile key (ad ++ ciphertext)

  unfoldable pub wrong_mac_key : Bytes → Option ℕ → Bool
  wrong_mac_key key none = ltb 0 (length key)
  wrong_mac_key key (some n) = ltb 0 (length key) && not (eqb (length key) n)

  -- The encryption at the end of SealEnvelope.
  unfoldable pub seal_plain : SealParams D → SessionKeys → Bytes → Aead → Envelope
  seal_plain p keys plain aead =
      let ad =
        envelope_ad p.frame_type p.session_id p.seal_epoch p.seal_seq p.seal_compression
          keys.key_profile in
      let ct = aead.seal_bytes (build_nonce keys.nonce_prefix_c p.seal_seq) plain ad in
      let mac = dual_mac keys.key_profile p.seal_mac_key ad ct in
      record {
        key_epoch = p.seal_epoch;
        seq = p.seal_seq;
        compression = p.seal_compression;
        ciphertext = ct;
        mac = if ltb 0 (length p.seal_mac_key) then mac else [];
      }

  unfoldable pub compressed : SealParams D → Result Bytes
  compressed p =
      if eqb p.seal_compression compression_none
      then ok p.batch_wire
      else compress codecs p.seal_compression p.batch_wire p.dict

  -- SealEnvelope before its encoding, with the keys at hand.
  unfoldable pub seal_with : SealParams D → SessionKeys → Result Envelope
  seal_with p keys =
      refuse_if (eqb p.seal_seq 0) batch_invalid
      >> refuse_if (not (eqb p.seal_epoch 0)) batch_invalid
      >> refuse_if (wrong_mac_key p.seal_mac_key (hmac_key_len keys.key_profile)) internal
      >> (compressed p >>= λ plain.
          or_internal (new_aead c keys.key_profile keys.c2s_key) >>= λ aead.
          ok (seal_plain p keys plain aead))

  unfoldable pub seal_message : SealParams D → Result Envelope
  seal_message p = elim p.keys [ none ↦ err internal | some keys ↦ seal_with p keys ]

  -- SealEnvelope; proto.Marshal may fail.
  unfoldable pub seal_envelope : (Envelope → Option Bytes) → SealParams D → Result Bytes
  seal_envelope marshal p = seal_message p >>= λ env. or_internal (marshal env)

  unfoldable pub opened : Option Bytes → Result Bytes
  opened none = err envelope_open_fail
  opened (some plain) = ok plain

  -- The decompression at the end of OpenEnvelope.
  unfoldable pub unpacked : ℕ → Option D → Bytes → Result Bytes
  unpacked comp dict plain =
      if eqb comp compression_none then ok plain else decompress codecs comp plain dict

  -- The check of the outer HMAC.
  unfoldable pub check_mac : SessionKeys → Bytes → Envelope → Result (Unit {0})
  check_mac keys ad env =
      let has_mac = ltb 0 (length env.mac) in
      let enabled = ltb 0 (length keys.dual_mac_key) in
      refuse_if (if has_mac then not enabled else enabled) envelope_open_fail
      >> refuse_if
          (enabled
            && not (dual_mac keys.key_profile keys.dual_mac_key ad env.ciphertext == env.mac))
          envelope_open_fail

  -- OpenEnvelope with the keys at hand.
  unfoldable pub open_with : ℕ → Bytes → SessionKeys → Option D → Envelope → Result Bytes
  open_with frame_type session_id keys dict env =
      let ad =
        envelope_ad frame_type session_id env.key_epoch env.seq env.compression keys.key_profile in
      refuse_if (not (eqb env.key_epoch 0)) envelope_open_fail
      >> refuse_if (eqb env.seq 0) envelope_open_fail
      >> check_mac keys ad env
      >> (or_internal (new_aead c keys.key_profile keys.c2s_key) >>= λ aead.
          opened (aead.open_bytes (build_nonce keys.nonce_prefix_c env.seq) env.ciphertext ad)
          >>= λ plain. unpacked env.compression dict plain)

  unfoldable pub open_envelope : ℕ → Bytes → Option SessionKeys → Option D → Envelope → Result Bytes
  open_envelope frame_type session_id none dict env = err envelope_open_fail
  open_envelope frame_type session_id (some keys) dict env =
      open_with frame_type session_id keys dict env
