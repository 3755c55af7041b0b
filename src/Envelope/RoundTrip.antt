-- ===== src/Envelope/RoundTrip.antt =====
-- SealEnvelope and OpenEnvelope of core/envelope.go together.
use mbta_go.Base.{
  ℕ, ◌≤◌, ◌<◌, ◌≡◌, refl, sym, ◌∙◌, ◌++◌, true, false, not, Bool-cases, inl, inr, arith,
}
use mbta_go.Base.{eqb, Bytes, bytes_eq, bytes_eqb_iff, some, length}
use mbta_go.Codes.{ok, refuse_if, bind_ok, then_ok, refuse_if_ok, internal, batch_invalid}
use mbta_go.Wire.{Envelope, compression_none}
use mbta_go.Keys.{Crypto, Aead, SessionKeys, new_aead, or_internal, build_nonce, hmac_key_len}
use mbta_go.Envelope.{
  Codecs, SealParams, max_decompressed_size, envelope_ad, dual_mac, seal_plain, seal_with,
  seal_message, compressed, wrong_mac_key, opened, unpacked, check_mac, open_with, open_envelope,
}
use mathlib.Core.Path.{subst}
use mbta_go.Envelope.Compression.{
  IsLossless, IsAuthenticated, or_internal-some, decompress-compress,
}

module _ {D : Type 0} (c : Crypto) (codecs : Codecs D) (lossless : IsLossless codecs)
    (auth : IsAuthenticated c) where
  unpacked-compressed :
      (p : SealParams D) (plain : Bytes)
      → compressed c codecs p ≡ ok plain
      → length p.batch_wire ≤ max_decompressed_size
      → unpacked c codecs p.seal_compression p.dict plain ≡ ok p.batch_wire
  unfolding compressed unpacked
  unpacked-compressed p plain h small =
      elim (Bool-cases (eqb p.seal_compression compression_none)) [
        | inl n ↦ rw n (sym (rw n at h))
        | inr n ↦ rw n (
            decompress-compress codecs lossless p.seal_compression p.batch_wire p.dict plain
              (rw n at h) small)
      ]

  new_aead_gcm :
      (profile : ℕ) (key : Bytes) (aead : Aead)
      → new_aead c profile key ≡ some aead
      → c.gcm profile key ≡ some aead
  unfolding new_aead
  new_aead_gcm profile key aead h = ground arith

  check_mac-seal_plain :
      (p : SealParams D) (keys : SessionKeys) (plain : Bytes) (aead : Aead)
      → p.seal_mac_key ≡ keys.dual_mac_key
      → check_mac c codecs keys
          (envelope_ad p.frame_type p.session_id p.seal_epoch p.seal_seq p.seal_compression
            keys.key_profile)
          (seal_plain c codecs p keys plain aead)
        ≡ ok tt
  unfolding check_mac seal_plain dual_mac
  check_mac-seal_plain p keys plain aead same = rw same (
      ground (
        arith,
        auth.sized keys.key_profile keys.dual_mac_key (ad ++ ct),
        bytes_eqb_iff (c.hmac keys.key_profile keys.dual_mac_key (ad ++ ct))
            (c.hmac keys.key_profile keys.dual_mac_key (ad ++ ct)),
      ))
    where
      ad : Bytes
      ad =
          envelope_ad p.frame_type p.session_id p.seal_epoch p.seal_seq p.seal_compression
            keys.key_profile

      ct : Bytes
      ct = aead.seal_bytes (build_nonce keys.nonce_prefix_c p.seal_seq) plain ad

  open_with-seal_plain :
      (p : SealParams D) (keys : SessionKeys) (plain : Bytes) (aead : Aead)
      → p.seal_mac_key ≡ keys.dual_mac_key
      → eqb p.seal_seq 0 ≡ false
      → not (eqb p.seal_epoch 0) ≡ false
      → new_aead c keys.key_profile keys.c2s_key ≡ some aead
      → open_with c codecs p.frame_type p.session_id keys p.dict
          (seal_plain c codecs p keys plain aead)
        ≡ unpacked c codecs p.seal_compression p.dict plain
  unfolding open_with opened or_internal seal_plain
  open_with-seal_plain p keys plain aead same number epoch ready =
      rw
        (
          epoch,
          number,
          check_mac-seal_plain p keys plain aead same,
          ready,
          auth.opens keys.key_profile keys.c2s_key aead (build_nonce keys.nonce_prefix_c p.seal_seq)
              plain ad (new_aead_gcm keys.key_profile keys.c2s_key aead ready),
        )
        refl
    where
      ad : Bytes
      ad =
          envelope_ad p.frame_type p.session_id p.seal_epoch p.seal_seq p.seal_compression
            keys.key_profile

  env_same : (a b : Envelope) → ok a ≡ ok b → a ≡ b
  env_same a b h = cc

  open_with-seal_with :
      (p : SealParams D) (keys : SessionKeys) (env : Envelope)
      → p.seal_mac_key ≡ keys.dual_mac_key
      → length p.batch_wire ≤ max_decompressed_size
      → seal_with c codecs p keys ≡ ok env
      → open_with c codecs p.frame_type p.session_id keys p.dict env ≡ ok p.batch_wire
  unfolding seal_with
  open_with-seal_with p keys env same small h =
      let (checks, inner) = then_ok _ _ env h in
      let (counted, mac) =
        then_ok _
          (refuse_if (wrong_mac_key c codecs p.seal_mac_key (hmac_key_len keys.key_profile))
            internal)
          tt checks in
      let (number, epoch) =
        then_ok (refuse_if (eqb p.seal_seq 0) batch_invalid)
          (refuse_if (not (eqb p.seal_epoch 0)) batch_invalid) tt counted in
      let (plain, e1, r1) = bind_ok (compressed c codecs p) _ env inner in
      let (aead, e2, r2) =
        bind_ok (or_internal (new_aead c keys.key_profile keys.c2s_key)) _ env r1 in
      subst (λ v. open_with c codecs p.frame_type p.session_id keys p.dict v ≡ ok p.batch_wire)
        (env_same _ env r2)
        (open_with-seal_plain p keys plain aead same (refuse_if_ok _ batch_invalid number)
            (refuse_if_ok _ batch_invalid epoch) (or_internal-some _ aead e2)
          ∙ unpacked-compressed p plain e1 small)

-- What was sealed, with every compression, is opened as the batch that went in, by a receiver with the
-- same session, frame type, keys and dictionary, whether or not the outer MAC is in use, for a batch of
-- at most 8 MiB, lossless compressors and an AEAD that opens what it sealed.
pub open_envelope-seal_message :
    {D : Type 0} (c : Crypto) (codecs : Codecs D) (p : SealParams D) (keys : SessionKeys)
    (env : Envelope)
    → IsLossless codecs
    → IsAuthenticated c
    → p.keys ≡ some keys
    → p.seal_mac_key ≡ keys.dual_mac_key
    → length p.batch_wire ≤ max_decompressed_size
    → seal_message c codecs p ≡ ok env
    → open_envelope c codecs p.frame_type p.session_id p.keys p.dict env ≡ ok p.batch_wire
unfolding open_envelope seal_message seal_with compressed seal_plain
open_envelope-seal_message c codecs p keys env lossless auth has same small h =
    rw has (open_with-seal_with c codecs lossless auth p keys env same small (rw has at h))

-- An uncompressed batch is sealed, with keys at hand, a seq, the first epoch and an AEAD for the keys, if
-- the outer MAC key is missing or of the profile's length.
pub seal_message_uncompressed :
    {D : Type 0} (c : Crypto) (codecs : Codecs D) (p : SealParams D) (keys : SessionKeys)
    (aead : Aead)
    → p.keys ≡ some keys
    → 0 < p.seal_seq
    → p.seal_epoch ≡ 0
    → p.seal_compression ≡ compression_none
    → new_aead c keys.key_profile keys.c2s_key ≡ some aead
    → wrong_mac_key c codecs p.seal_mac_key (hmac_key_len keys.key_profile) ≡ false
    → seal_message c codecs p ≡ ok (seal_plain c codecs p keys p.batch_wire aead)
unfolding seal_message seal_with seal_plain compressed build_nonce envelope_ad dual_mac or_internal
seal_message_uncompressed c codecs p keys aead has number epoch comp ready mac = rw has done
  where
    nonzero : eqb p.seal_seq 0 ≡ false
    nonzero = ground arith

    first : not (eqb p.seal_epoch 0) ≡ false
    first = ground arith

    plain : eqb p.seal_compression compression_none ≡ true
    plain = ground arith

    done : seal_with c codecs p keys ≡ ok (seal_plain c codecs p keys p.batch_wire aead)
    done = rw (nonzero, first, mac, plain, ready) refl
