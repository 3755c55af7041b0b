-- ===== src/Batches/Admitted.antt =====
-- Which batches decodeAndValidate of internal/protocol/handler_batch.go lets through.
use mathlib.Core.Path.{subst}
use mbta_go.Base.{
  ℕ, ◌≤◌, ◌≡◌, refl, sym, false, ◌&&◌, not, arith, eqb, ltb, slt, Bytes, Option, none, some, length,
}
use mbta_go.Codes.{
  Result, ErrCode, ok, err, ◌>>◌, ◌>>=◌, refuse_if, server_draining, envelope_open_fail,
  batch_too_large, batch_invalid, bind_ok, then_ok, refuse_if_ok,
}
use mbta_go.Wire.{Envelope}
use mbta_go.Keys.{SessionKeys}
use mbta_go.Validation.{validate_batch_trace_context}
use mbta_go.Envelope.{SealParams, max_decompressed_size, open_envelope, seal_message}
use mbta_go.Envelope.Compression.{IsLossless, IsAuthenticated}
use mbta_go.Envelope.RoundTrip.{open_envelope-seal_message}
use mbta_go.Envelope.Opening.{IsOpened, open_envelope-IsOpened}
use mbta_go.Batches.{Server, Batch, max_batch_events, type_batch}
use mbta_go.Batches.Pipeline.{
  recoded, decoded_or, check_batch, validate_opened, decode_and_validate,
}

recoded_ok {ℓ} : {A : Type ℓ} (r : Result A) (c : ErrCode) (a : A) → recoded r c ≡ ok a → r ≡ ok a
unfolding recoded
recoded_ok (ok b) c a h = h
recoded_ok (err d) c a h = absurd cc

decoded_or_ok {ℓ} :
    {A : Type ℓ} (o : Option A) (c : ErrCode) (a : A) → decoded_or o c ≡ ok a → o ≡ some a
unfolding decoded_or
decoded_or_ok none c a h = absurd cc
decoded_or_ok (some b) c a h = cc

-- What a batch must be beside its decoding.
pub record IsProper (env : Envelope) (b : Batch) : Type 0 where
  pub same_seq : b.batch_seq ≡ env.seq
  pub few_events : b.events_count ≤ max_batch_events
  pub traced : validate_batch_trace_context b.batch_trace ≡ ok tt

pair_eq : (v w : Batch × Bytes) → Path (Result (Batch × Bytes)) (ok v) (ok w) → v ≡ w
pair_eq v w h = cc

-- What was checked of a batch and its encoding.
pub record IsChecked {D S : Type 0} (srv : Server D S) (keys : SessionKeys) (env : Envelope)
    (frame_type now : ℕ) (v : Batch × Bytes) : Type 0 where
  pub opened : IsOpened srv.crypto frame_type srv.session_id keys env v.1
  pub decoded : srv.decode_batch v.1 ≡ some v.0
  pub proper : IsProper env v.0
  pub fresh : (slt 0 srv.expires_at && slt srv.expires_at now) ≡ false
  pub small : slt srv.policy.policy_batch_bytes (length v.1) ≡ false

module _ {D S : Type 0} (srv : Server D S) where
  check_batch-IsProper :
      (env : Envelope) (b : Batch) → check_batch srv env b ≡ ok tt → IsProper env b
  unfolding check_batch
  check_batch-IsProper env b h =
      let same = refuse_if (not (eqb b.batch_seq env.seq)) batch_invalid in
      let few = refuse_if (ltb max_batch_events b.events_count) batch_invalid in
      let (first, last) = then_ok (same >> few) _ tt h in
      let (s, f) = then_ok same few tt first in
      record {
        same_seq = equal b.batch_seq env.seq (refuse_if_ok _ batch_invalid s);
        few_events = within b.events_count (refuse_if_ok _ batch_invalid f);
        traced = recoded_ok (validate_batch_trace_context b.batch_trace) batch_invalid tt last;
      }
    where
      equal : (m n : ℕ) → not (eqb m n) ≡ false → m ≡ n
      equal m n e = ground arith

      within : (n : ℕ) → ltb max_batch_events n ≡ false → n ≤ max_batch_events
      within n e = ground arith

  check_batch-proper : (env : Envelope) (b : Batch) → IsProper env b → check_batch srv env b ≡ ok tt
  unfolding check_batch recoded
  check_batch-proper env b p = rw (same, few, p.traced) refl
    where
      same : not (eqb b.batch_seq env.seq) ≡ false
      same = ground (arith, p.same_seq)

      few : ltb max_batch_events b.events_count ≡ false
      few = ground (arith, p.few_events)

  decode_and_validate-IsChecked_any :
      (keys : SessionKeys) (env : Envelope) (frame_type now : ℕ) (v : Batch × Bytes)
      → srv.session_keys ≡ some keys
      → decode_and_validate srv env frame_type now ≡ ok v
      → IsChecked srv keys env frame_type now v
  unfolding decode_and_validate validate_opened check_batch
  decode_and_validate-IsChecked_any keys env frame_type now v has h =
      let aged = refuse_if (slt 0 srv.expires_at && slt srv.expires_at now) server_draining in
      let opening =
        open_envelope srv.crypto srv.codecs frame_type srv.session_id (some keys) srv.zdict env in
      let (fresh, inner) =
        then_ok aged (recoded opening envelope_open_fail >>= λ w. validate_opened srv env w) v
          (rw has at h) in
      let (w, e1, r1) =
        bind_ok (recoded opening envelope_open_fail) (λ w. validate_opened srv env w) v inner in
      let (small, r2) =
        then_ok (refuse_if (slt srv.policy.policy_batch_bytes (length w)) batch_too_large)
          (decoded_or (srv.decode_batch w) batch_invalid >>= λ c.
            check_batch srv env c >> ok (c, w))
          v r1 in
      let (c, e2, r3) =
        bind_ok (decoded_or (srv.decode_batch w) batch_invalid)
          (λ c. check_batch srv env c >> ok (c, w)) v r2 in
      let (proper, r4) = then_ok (check_batch srv env c) (ok (c, w)) v r3 in
      subst (IsChecked srv keys env frame_type now) (pair_eq (c, w) v r4) (record {
        opened =
            open_envelope-IsOpened srv.crypto srv.codecs frame_type srv.session_id keys srv.zdict
              env w (recoded_ok opening envelope_open_fail w e1);
        decoded = decoded_or_ok (srv.decode_batch w) batch_invalid c e2;
        proper = check_batch-IsProper env c proper;
        fresh = refuse_if_ok _ server_draining fresh;
        small = refuse_if_ok _ batch_too_large small;
      })

-- A batch that passes came out of an envelope that opened under the session's keys and id and the
-- frame's type, before the session expired, is within the policy's size, decodes, and has the seq of
-- its envelope, at most 10000 events and a valid trace context.
pub decode_and_validate-IsChecked :
    {D S : Type 0} (srv : Server D S) (keys : SessionKeys) (env : Envelope) (frame_type now : ℕ)
    (v : Batch × Bytes)
    → srv.session_keys ≡ some keys
    → decode_and_validate srv env frame_type now ≡ ok v
    → IsChecked srv keys env frame_type now v
decode_and_validate-IsChecked srv keys env frame_type now v has h =
    decode_and_validate-IsChecked_any srv keys env frame_type now v has h

-- From one end to the other: a batch that a client has sealed, with any compression, for the session,
-- the keys and the dictionary that the server has, passes the server's checks as the very batch that
-- went in, if the session has not expired, the batch decodes and is proper, and it is within the
-- policy's size and 8 MiB; compressors are lossless and the AEAD opens what it sealed.
pub decode_and_validate-seal_message :
    {D S : Type 0} (srv : Server D S) (p : SealParams D) (keys : SessionKeys) (env : Envelope)
    (b : Batch) (now : ℕ)
    → IsLossless srv.codecs
    → IsAuthenticated srv.crypto
    → srv.session_keys ≡ some keys
    → p.keys ≡ some keys
    → p.frame_type ≡ type_batch
    → p.session_id ≡ srv.session_id
    → p.dict ≡ srv.zdict
    → p.seal_mac_key ≡ keys.dual_mac_key
    → (slt 0 srv.expires_at && slt srv.expires_at now) ≡ false
    → slt srv.policy.policy_batch_bytes (length p.batch_wire) ≡ false
    → length p.batch_wire ≤ max_decompressed_size
    → srv.decode_batch p.batch_wire ≡ some b
    → IsProper env b
    → seal_message srv.crypto srv.codecs p ≡ ok env
    → decode_and_validate srv env type_batch now ≡ ok (b, p.batch_wire)
unfolding decode_and_validate validate_opened recoded decoded_or check_batch
decode_and_validate-seal_message srv p keys env b now less auth k pk ft sid dict mac fresh small max
      dec proper sealed =
    rw (k, fresh, opens, small, dec, check_batch-proper srv env b proper) refl
  where
    opens :
        open_envelope srv.crypto srv.codecs type_batch srv.session_id (some keys) srv.zdict env
        ≡ ok p.batch_wire
    opens =
        rw (sym ft, sym sid, sym dict, sym pk)
          (open_envelope-seal_message srv.crypto srv.codecs p keys env less auth pk mac max sealed)
