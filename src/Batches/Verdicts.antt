-- ===== src/Batches/Verdicts.antt =====
-- The answers of decodeAndValidate in internal/protocol/handler_batch.go.
use mbta_go.Base.{
  ℕ, ◌≡◌, refl, Bool, true, false, ◌⊎◌, inl, inr, eqb, ltb, slt, Bytes, bytes_eq, Option, none,
  some,
}
use mbta_go.Base.{◌&&◌, not}
use mbta_go.Codes.{
  Result, ErrCode, ok, err, ◌>>◌, ◌>>=◌, refuse_if, server_draining, envelope_open_fail,
  batch_too_large, batch_invalid,
}
use mbta_go.Wire.{Envelope}
use mbta_go.Validation.{validate_batch_trace_context}
use mbta_go.Envelope.{open_envelope}
use mbta_go.Keys.{SessionKeys}
use mbta_go.Batches.{Server, Batch, max_batch_events}
use mbta_go.Batches.Pipeline.{
  recoded, decoded_or, check_batch, validate_opened, decode_and_validate,
}

bind_err {ℓ κ} :
    {A : Type ℓ} {B : Type κ} (r : Result A) (k : A → Result B) (e : ErrCode)
    → (r >>= k) ≡ err e
    → (r ≡ err e) ⊎ ((a : A) × (k a ≡ err e))
bind_err (ok a) k e h = inr (a, h)
bind_err (err c) k e h = inl cc

then_err {ℓ} :
    {A : Type ℓ} (first : Result (Unit {0})) (rest : Result A) (e : ErrCode)
    → (first >> rest) ≡ err e
    → (first ≡ err e) ⊎ (rest ≡ err e)
then_err (ok t) rest e h = inr h
then_err (err c) rest e h = inl cc

refuse_if_err : (b : Bool) (c e : ErrCode) → refuse_if b c ≡ err e → c ≡ e
refuse_if_err true c e h = cc
refuse_if_err false c e h = cc

recoded_err {ℓ} : {A : Type ℓ} (r : Result A) (c e : ErrCode) → recoded r c ≡ err e → c ≡ e
unfolding recoded
recoded_err (ok a) c e h = cc
recoded_err (err d) c e h = cc

decoded_or_err {ℓ} : {A : Type ℓ} (o : Option A) (c e : ErrCode) → decoded_or o c ≡ err e → c ≡ e
unfolding decoded_or
decoded_or_err none c e h = cc
decoded_or_err (some a) c e h = cc

-- The codes that are about a batch.
abbrev pub is_batch_code : ErrCode → Bool
is_batch_code envelope_open_fail = true
is_batch_code batch_too_large = true
is_batch_code batch_invalid = true
is_batch_code _ = false

module _ {D S : Type 0} (srv : Server D S) where
  check_batch_err :
      (env : Envelope) (b : Batch) (e : ErrCode) → check_batch srv env b ≡ err e → batch_invalid ≡ e
  unfolding check_batch
  check_batch_err env b e h =
      let same = refuse_if (not (eqb b.batch_seq env.seq)) batch_invalid in
      let few = refuse_if (ltb max_batch_events b.events_count) batch_invalid in
      let traced = recoded (validate_batch_trace_context b.batch_trace) batch_invalid in
      elim (then_err (same >> few) traced e h) [
        | inr q ↦ recoded_err (validate_batch_trace_context b.batch_trace) batch_invalid e q
        | inl q ↦ elim (then_err same few e q) [
          | inl x ↦ refuse_if_err (not (eqb b.batch_seq env.seq)) batch_invalid e x
          | inr x ↦ refuse_if_err (ltb max_batch_events b.events_count) batch_invalid e x
        ]
      ]

  validate_opened_err :
      (env : Envelope) (wire : Bytes) (e : ErrCode)
      → validate_opened srv env wire ≡ err e
      → (batch_too_large ≡ e) ⊎ (batch_invalid ≡ e)
  unfolding validate_opened
  validate_opened_err env wire e h = elim (then_err _ _ e h) [
    | inl q ↦ inl (refuse_if_err _ batch_too_large e q)
    | inr q ↦
        elim (bind_err (decoded_or (srv.decode_batch wire) batch_invalid)
          (λ b. check_batch srv env b >> ok (b, wire)) e q) [
            | inl x ↦ inr (decoded_or_err (srv.decode_batch wire) batch_invalid e x)
            | inr (b, x) ↦ elim (then_err (check_batch srv env b) _ e x) [
              | inl y ↦ inr (check_batch_err env b e y)
              | inr y ↦ absurd cc
            ]
          ]
  ]

  -- With session keys a batch is refused for its session's age or for a fault of its own, never as an
  -- internal error.
  pub decode_and_validate_err :
      (keys : SessionKeys) (env : Envelope) (frame_type now : ℕ) (e : ErrCode)
      → srv.session_keys ≡ some keys
      → decode_and_validate srv env frame_type now ≡ err e
      → (server_draining ≡ e) ⊎ (is_batch_code e ≡ true)
  unfolding decode_and_validate validate_opened check_batch
  decode_and_validate_err keys env frame_type now e has h =
      let aged = refuse_if (slt 0 srv.expires_at && slt srv.expires_at now) server_draining in
      let opened =
        recoded
          (open_envelope srv.crypto srv.codecs frame_type srv.session_id (some keys) srv.zdict env)
          envelope_open_fail
        >>= λ wire. validate_opened srv env wire in
      elim (then_err aged opened e (rw has at h)) [
        | inl q ↦
            inl (refuse_if_err (slt 0 srv.expires_at && slt srv.expires_at now) server_draining e q)
        | inr q ↦
            inr
              (elim (bind_err
                (recoded
                  (open_envelope srv.crypto srv.codecs frame_type srv.session_id (some keys)
                    srv.zdict env)
                  envelope_open_fail)
                (λ wire. validate_opened srv env wire) e q) [
                  | inl x ↦
                      batch_code envelope_open_fail e refl (recoded_err _ envelope_open_fail e x)
                  | inr (wire, x) ↦ elim (validate_opened_err env wire e x) [
                    | inl y ↦ batch_code batch_too_large e refl y
                    | inr y ↦ batch_code batch_invalid e refl y
                  ]
                ])
      ]
    where
      batch_code : (c d : ErrCode) → is_batch_code c ≡ true → c ≡ d → is_batch_code d ≡ true
      batch_code c d q p = cc
