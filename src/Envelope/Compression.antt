-- ===== src/Envelope/Compression.antt =====
-- The compressions of core/envelope.go there and back, and what is asked of the primitives.
use mbta_go.Base.{ℕ, ◌≤◌, ◌<◌, ◌≡◌, false, Bool-cases, inl, inr, arith}
use mbta_go.Base.{eqb, Bytes, bytes_eq, Option, none, some, length}
use mbta_go.Codes.{ok}
use mbta_go.Wire.{compression_gzip, compression_zstd, compression_lz4, compression_zstd_dict}
use mbta_go.Keys.{Crypto, Aead, or_internal}
use mbta_go.Envelope.{
  Codecs, max_decompressed_size, copy_limited, copy_reader, whole_output, compress, decompress,
  compress_zstd_dict, decompress_zstd_dict,
}
use mathlib.Core.Path.{subst}

-- What the compressors promise: what one wrote, its reader yields whole and without an error, the
-- dictionary codec up to the memory that its decoder is given.
pub record IsLossless {D : Type 0} (codecs : Codecs D) : Type 0 where
  pub gzip :
      (src out : Bytes)
      → codecs.gzip_write src ≡ some out
      → codecs.gzip_read out ≡ some (src, false)
  pub zstd : (src : Bytes) → codecs.zstd_read (codecs.zstd_encode src) ≡ some (src, false)
  pub lz4 : (src out : Bytes) → codecs.lz4_write src ≡ some out → codecs.lz4_read out ≡ (src, false)
  pub zstd_dict :
      (d : D) (src out : Bytes)
      → length src ≤ max_decompressed_size
      → codecs.dict_encode d src ≡ some out
      → codecs.dict_decode d out ≡ some src

-- What the primitives promise: an AEAD opens what it sealed under the same nonce and data, and an HMAC
-- is not empty.
pub record IsAuthenticated (c : Crypto) : Type 0 where
  pub opens :
      (profile : ℕ) (key : Bytes) (aead : Aead) (nonce plain ad : Bytes)
      → c.gcm profile key ≡ some aead
      → aead.open_bytes nonce (aead.seal_bytes nonce plain ad) ad ≡ some plain
  pub sized : (profile : ℕ) (key msg : Bytes) → 0 < length (c.hmac profile key msg)

pub or_internal-some {ℓ} : {A : Type ℓ} (o : Option A) (a : A) → or_internal o ≡ ok a → o ≡ some a
unfolding or_internal
or_internal-some none a h = cc
or_internal-some (some b) a h = cc

copy_limited_whole :
    (src : Bytes) → length src ≤ max_decompressed_size → copy_limited (src, false) ≡ ok src
unfolding copy_limited
copy_limited_whole src small = ground arith

whole_output_whole :
    (src : Bytes) → length src ≤ max_decompressed_size → whole_output (some src) ≡ ok src
unfolding whole_output
whole_output_whole src small = ground arith

module _ {D : Type 0} (codecs : Codecs D) (lossless : IsLossless codecs) where
  read-gzip_write :
      (src out : Bytes)
      → length src ≤ max_decompressed_size
      → or_internal (codecs.gzip_write src) ≡ ok out
      → copy_reader (codecs.gzip_read out) ≡ ok src
  unfolding copy_reader
  read-gzip_write src out small h =
      rw (lossless.gzip src out (or_internal-some _ out h)) (copy_limited_whole src small)

  read-zstd_encode :
      (src : Bytes)
      → length src ≤ max_decompressed_size
      → copy_reader (codecs.zstd_read (codecs.zstd_encode src)) ≡ ok src
  unfolding copy_reader
  read-zstd_encode src small = rw (lossless.zstd src) (copy_limited_whole src small)

  read-lz4_write :
      (src out : Bytes)
      → length src ≤ max_decompressed_size
      → or_internal (codecs.lz4_write src) ≡ ok out
      → copy_limited (codecs.lz4_read out) ≡ ok src
  read-lz4_write src out small h =
      rw (lossless.lz4 src out (or_internal-some _ out h)) (copy_limited_whole src small)

  decompress-compress_zstd_dict :
      (src out : Bytes) (dict : Option D)
      → length src ≤ max_decompressed_size
      → compress_zstd_dict codecs src dict ≡ ok out
      → decompress_zstd_dict codecs out dict ≡ ok src
  unfolding compress_zstd_dict decompress_zstd_dict
  decompress-compress_zstd_dict src out none small h = cc
  decompress-compress_zstd_dict src out (some d) small h =
      rw (lossless.zstd_dict d src out small (or_internal-some _ out h))
        (whole_output_whole src small)

  ok_same : (a b : Bytes) → ok a ≡ ok b → a ≡ b
  ok_same a b h = cc

  pub decompress-compress :
      (comp : ℕ) (src : Bytes) (dict : Option D) (out : Bytes)
      → compress codecs comp src dict ≡ ok out
      → length src ≤ max_decompressed_size
      → decompress codecs comp out dict ≡ ok src
  unfolding compress decompress
  decompress-compress comp src dict out h small = elim (Bool-cases (eqb comp compression_gzip)) [
    | inl g ↦ rw g (read-gzip_write src out small (rw g at h))
    | inr g ↦ elim (Bool-cases (eqb comp compression_zstd)) [
      | inl z ↦
          rw (g, z)
            (subst (λ o. copy_reader (codecs.zstd_read o) ≡ ok src) (ok_same _ out (rw (g, z) at h))
              (read-zstd_encode src small))
      | inr z ↦ elim (Bool-cases (eqb comp compression_zstd_dict)) [
        | inl d ↦
            rw (g, z, d) (decompress-compress_zstd_dict src out dict small (rw (g, z, d) at h))
        | inr d ↦ elim (Bool-cases (eqb comp compression_lz4)) [
          | inl l ↦ rw (g, z, d, l) (read-lz4_write src out small (rw (g, z, d, l) at h))
          | inr l ↦ let no = rw (g, z, d, l) at h in cc
        ]
      ]
    ]
  ]
