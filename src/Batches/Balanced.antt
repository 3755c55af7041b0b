-- ===== src/Batches/Balanced.antt =====
-- Credit before and after a BATCH frame of internal/protocol/handler_batch.go.
use mbta_go.Base.{ℕ, ◌<◌, ◌^◌, ◌≡◌, refl, Option, none, some, inl, inr, ◌⊎◌, ◌/◌}
use mbta_go.Base.{nat_eq, arith, Bytes, length, Unique, lookup-insert_self, true, []}
use mbta_go.Codes.{ErrCode, internal, server_draining}
use mbta_go.Wire.{Envelope}
use mbta_go.Keys.{SessionKeys}
use mbta_go.Credit.Manager.{
  CreditManager, SettleGrant, InflightSlot, AdmitResult, AdmitDecision, accept, consume, admit,
  fresh_grant,
}
use mbta_go.Credit.Conservation.{IsConserved, admit-IsConserved, consume-IsConserved}
use mbta_go.Credit.Balance.{IsUncharged}
use mbta_go.Batches.{Handler, Server, type_batch}
use mbta_go.Batches.Sink.{maybe_schedule_flush, send_results}
use mbta_go.Batches.Handling.{
  abort, settle_own, process_charged, process_granted, process_admitted, process_envelope,
  process_batch, reject_granted, reject_charged, reject_admitted, reject_envelope,
  reject_at_capacity,
}
use mbta_go.Batches.Verdicts.{is_batch_code, decode_and_validate_err}
use mbta_go.Batches.Conserved.{
  stay, follow, Holds, settle_held-IsConserved, consume-IsHeld, process_decoded-IsConserved,
}

not_internal : (server_draining ≡ internal) ⊎ (is_batch_code internal ≡ true) → ⊥
not_internal (inl e) = cc
not_internal (inr e) = cc

admit-IsUncharged :
    (m : CreditManager) (seq now : ℕ)
    → (admit m seq now).1.decision ≡ accept
    → IsUncharged
        (admit m seq now).0
        seq
        (record { seq = seq; bytes = 0; correlation = []; added_at = now })
unfolding admit
admit-IsUncharged m seq now a = (
  ground (
    arith,
    lookup-insert_self seq (record { seq = seq; bytes = 0; correlation = []; added_at = now })
        m.seen,
  ),
  refl,
)

module _ {D S : Type 0} (srv : Server D S) where
  reject_charged-IsConserved :
      (failed : Option ErrCode) (g : SettleGrant) (frame_bytes : ℕ) (h : Handler S)
      → Unique h.manager.seen
      → Holds h.manager g
      → IsConserved h.manager (reject_charged failed g frame_bytes h).manager
  unfolding reject_charged abort settle_own maybe_schedule_flush send_results
  reject_charged-IsConserved none g n h u o = settle_held-IsConserved h.manager g _ _ _ n u o
  reject_charged-IsConserved (some e) g n h u o = stay h.manager u

  process_charged-IsConserved :
      (failed : Option ErrCode) (g : SettleGrant) (env : Envelope) (frame_bytes now : ℕ)
      (keys : SessionKeys) (h : Handler S)
      → Unique h.manager.seen
      → Holds h.manager g
      → srv.session_keys ≡ some keys
      → IsConserved h.manager (process_charged srv failed g env frame_bytes now h).manager
  unfolding process_charged abort
  process_charged-IsConserved (some e) g env n now keys h u o k = stay h.manager u
  process_charged-IsConserved none g env n now keys h u o k =
      process_decoded-IsConserved srv g n now _ h u o (λ e.
        not_internal
          (decode_and_validate_err srv keys env type_batch (now / 1000000000) internal k e))

  process_admitted-IsConserved :
      (env : Envelope) (frame_bytes now : ℕ) (r : AdmitResult) (keys : SessionKeys)
      (d : AdmitDecision) (s : InflightSlot) (h : Handler S)
      → Unique h.manager.seen
      → 0 < frame_bytes
      → frame_bytes < 2 ^ 63
      → r.decision ≡ d
      → (d ≡ accept → IsUncharged h.manager env.seq s)
      → srv.session_keys ≡ some keys
      → IsConserved h.manager (process_admitted srv env frame_bytes now r h).manager
  unfolding process_admitted process_granted send_results abort
  process_admitted-IsConserved env n now r keys accept s h u p q e c k =
      let g = fresh_grant env.seq in
      let (found, zero) = c refl in
      let spend = consume-IsConserved h.manager g n s u found zero p q in
      rw e (
        follow h.manager (consume h.manager g n).0 _ spend (
          process_charged-IsConserved _ _ env n now keys _ spend.keys
            (consume-IsHeld h.manager g n s found p q) k))
  process_admitted-IsConserved env n now r keys _ s h u p q e c k = rw e (stay h.manager u)

  reject_admitted-IsConserved :
      (seq frame_bytes : ℕ) (r : AdmitResult) (d : AdmitDecision) (s : InflightSlot) (h : Handler S)
      → Unique h.manager.seen
      → 0 < frame_bytes
      → frame_bytes < 2 ^ 63
      → r.decision ≡ d
      → (d ≡ accept → IsUncharged h.manager seq s)
      → IsConserved h.manager (reject_admitted seq frame_bytes r h).manager
  unfolding reject_admitted reject_granted abort
  reject_admitted-IsConserved seq n r accept s h u p q e c =
      let g = fresh_grant seq in
      let (found, zero) = c refl in
      let spend = consume-IsConserved h.manager g n s u found zero p q in
      rw e (
        follow h.manager (consume h.manager g n).0 _ spend (
          reject_charged-IsConserved _ _ n _ spend.keys (consume-IsHeld h.manager g n s found p q)))
  reject_admitted-IsConserved seq n r _ s h u p q e c = rw e (stay h.manager u)

  envelope-IsConserved :
      (o : Option Envelope) (frame_bytes now : ℕ) (keys : SessionKeys) (h : Handler S)
      → Unique h.manager.seen
      → 0 < frame_bytes
      → frame_bytes < 2 ^ 63
      → srv.session_keys ≡ some keys
      → IsConserved h.manager (process_envelope srv o frame_bytes now h).manager
        × IsConserved h.manager (reject_envelope srv o frame_bytes now h).manager
  unfolding process_envelope reject_envelope
  envelope-IsConserved none n now keys h u p q k = (stay h.manager u, stay h.manager u)
  envelope-IsConserved (some env) n now keys h u p q k =
      let r = admit h.manager env.seq now in
      let enters = admit-IsConserved h.manager env.seq now u in
      let slot = admit-IsUncharged h.manager env.seq now in
      (
        follow h.manager r.0 _ enters (
            process_admitted-IsConserved env n now r.1 keys r.1.decision _
              (record h { manager = r.0 }) enters.keys p q refl slot k),
        follow h.manager r.0 _ enters (
            reject_admitted-IsConserved env.seq n r.1 r.1.decision _ (record h { manager = r.0 })
              enters.keys p q refl slot),
      )

-- Whether a BATCH frame is processed or rejected at capacity, with whatever result, sink and outcomes,
-- the credit outstanding, recovered and in flight adds up to what it was, in batches and in bytes, for a
-- frame of 1 to 2 ^ 63 - 1 bytes and a handler that has its session's keys and no seq twice in the map.
pub process_batch-IsConserved :
    {D S : Type 0} (srv : Server D S) (payload : Bytes) (now : ℕ) (keys : SessionKeys)
    (h : Handler S)
    → Unique h.manager.seen
    → 0 < length payload
    → length payload < 2 ^ 63
    → srv.session_keys ≡ some keys
    → IsConserved h.manager (process_batch srv payload now h).manager
      × IsConserved h.manager (reject_at_capacity srv payload now h).manager
unfolding process_batch reject_at_capacity
process_batch-IsConserved srv payload now keys h u p q k =
    envelope-IsConserved srv (srv.decode_envelope payload) (length payload) now keys h u p q k
