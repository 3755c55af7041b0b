-- ===== src/Batches/Replies.antt =====
-- The way of a BATCH frame to its answer in internal/protocol/handler_batch.go.
use mbta_go.Base.{ℕ, ◌++◌, ◌≡◌, ◌≢◌, refl, ap, List, [], ◌∷◌, Bool, true, false, ◌⊎◌, inl, inr}
use mathlib.Core.Path.{subst}
use mbta_go.Base.{lookup, nat_eq, arith, Bytes, Option, none, some, lookup-insert_self, length, ◌/◌}
use mbta_go.Codes.{Result, ErrCode, ok, err, internal, server_draining, window_exceeded}
use mbta_go.Wire.{Envelope}
use mbta_go.Keys.{SessionKeys}
use mbta_go.Credit.Manager.{
  CreditManager, SettleGrant, AdmitResult, AdmitDecision, accept, duplicate, terminal_hit,
  below_unknown, violation, consume, backfill, admit, fresh_grant,
}
use mbta_go.Batches.{Handler, Control, Batch, BatchEvent, SinkCall, SinkTask, Server, type_batch}
use mbta_go.Batches.Verdicts.{is_batch_code, decode_and_validate_err}
use mbta_go.Batches.Sink.{
  make_done, enqueue_prepared, enqueue_sink, maybe_schedule_flush, send_results,
}
use mbta_go.Batches.Handling.{
  abort, settle_own, after_enqueue, deliver_to, deliver, process_decoded, process_charged,
  process_granted, process_admitted, process_envelope, process_batch, repeat_result,
}
use mbta_go.Batches.Answers.{
  IsAnswered, same_seq, IsLive, IsOpen, IsCovered, answer_now, settle_answers,
  settle_lease-IsAnswered, accept_lease-IsAnswered, call_handler-IsCovered,
}

admit-IsLive :
    (m : CreditManager) (seq now : ℕ)
    → (admit m seq now).1.decision ≡ accept
    → IsLive seq (admit m seq now).0 (fresh_grant seq)
unfolding admit
admit-IsLive m seq now a = record {
  slot = record { seq = seq; bytes = 0; correlation = []; added_at = now };
  found = ground (
    arith,
    lookup-insert_self seq (record { seq = seq; bytes = 0; correlation = []; added_at = now })
        m.seen,
  );
  own = refl;
  undone = refl;
  silent = refl;
}

consume-IsLive :
    (seq : ℕ) (m : CreditManager) (g : SettleGrant) (frame_bytes : ℕ)
    → IsLive seq m g
    → (consume m g frame_bytes).2 ≡ none
    → IsLive seq (consume m g frame_bytes).0 (consume m g frame_bytes).1
unfolding consume
consume-IsLive seq m g frame_bytes l ok' =
    let s = record l.slot { bytes = frame_bytes } in
    let h : lookup g.seq m.seen ≡ some l.slot = rw l.own l.found in
    record {
      slot = s;
      found = ground (arith, l.undone, h, l.own, lookup-insert_self g.seq s m.seen);
      own = ground (arith, l.own);
      undone = ground (arith, l.undone);
      silent = ground (arith, l.silent, l.undone);
    }

backfill-IsLive :
    (seq : ℕ) (m : CreditManager) (g : SettleGrant) (c : Bytes)
    → IsLive seq m g
    → IsLive seq (backfill m g c) g
unfolding backfill
backfill-IsLive seq m g c l =
    let s = record l.slot { correlation = c } in
    let h : lookup g.seq m.seen ≡ some l.slot = rw l.own l.found in
    record {
      slot = s;
      found = ground (arith, h, l.own, lookup-insert_self g.seq s m.seen);
      own = l.own;
      undone = l.undone;
      silent = l.silent;
    }

module _ {S : Type 0} where
  abort-IsAnswered :
      (seq : ℕ) (before : List Control) (code : ErrCode) (h : Handler S)
      → h.sent ≡ before
      → IsAnswered seq before (abort code h).sent
  unfolding abort
  abort-IsAnswered seq before code h e = rw e (answer_now seq before _ refl)

  settle_own-IsAnswered :
      (seq : ℕ) (g : SettleGrant) (level code retry_ms frame_bytes : ℕ) (h : Handler S)
      → IsLive seq h.manager g
      → IsAnswered seq h.sent (settle_own g level code retry_ms frame_bytes h).sent
  unfolding settle_own maybe_schedule_flush send_results
  settle_own-IsAnswered seq g level code retry_ms frame_bytes h l =
      answer_now seq h.sent _ (settle_answers seq h.manager g level code retry_ms frame_bytes l)

module _ {D S : Type 0} (srv : Server D S) where
  make_done-IsOpen :
      (seq : ℕ) (g : SettleGrant) (h : Handler S)
      → IsLive seq h.manager g
      → IsOpen seq h.sent h.next_lease (make_done srv g h).1
  unfolding make_done
  make_done-IsOpen seq g h l = record { live = rw same l; grown = ([], append_nil h.sent) }
    where
      same : ((make_done srv g h).1.leases h.next_lease).grant ≡ g
      same = ground arith

      append_nil : (xs : List Control) → xs ≡ xs ++ []
      append_nil [] = refl
      append_nil (x ∷ xs) = ap (◌∷◌ x) (append_nil xs)

  enqueue_prepared-IsCovered :
      (seq : ℕ) (before : List Control) (f : BatchEvent S → SinkCall) (t : SinkTask S)
      (room : Option ℕ) (h : Handler S)
      → IsCovered seq before t.lease h
      → IsCovered seq before t.lease (enqueue_prepared srv f t room h).1
  unfolding enqueue_prepared
  enqueue_prepared-IsCovered seq before f t none h c =
      call_handler-IsCovered seq before t.lease f t.durable t.event h c
  enqueue_prepared-IsCovered seq before f t (some room) h (inl a) = inl a
  enqueue_prepared-IsCovered seq before f t (some room) h (inr o) =
      inr (record { live = o.live; grown = o.grown })

  after_enqueue-IsAnswered :
      (seq : ℕ) (before : List Control) (place : ℕ) (taken durable : Bool) (frame_bytes : ℕ)
      (h : Handler S)
      → IsCovered seq before place h
      → IsAnswered seq before (after_enqueue srv taken place durable frame_bytes h).sent
  unfolding after_enqueue maybe_schedule_flush
  after_enqueue-IsAnswered seq before place true true n h c =
      accept_lease-IsAnswered seq before place h c
  after_enqueue-IsAnswered seq before place true false n h c =
      settle_lease-IsAnswered seq before place _ _ _ n h c
  after_enqueue-IsAnswered seq before place false durable n h c =
      settle_lease-IsAnswered seq before place _ _ _ n h c

  deliver_to-IsAnswered :
      (seq : ℕ) (sink : Option (BatchEvent S → SinkCall)) (g : SettleGrant) (b : Batch)
      (wire : Bytes) (frame_bytes now : ℕ) (h : Handler S)
      → IsLive seq h.manager g
      → IsAnswered seq h.sent (deliver_to srv sink g b wire frame_bytes now h).sent
  unfolding deliver_to enqueue_sink make_done
  deliver_to-IsAnswered seq none g b wire n now h l = settle_own-IsAnswered seq g _ _ _ n h l
  deliver_to-IsAnswered seq (some f) g b wire n now h l =
      after_enqueue-IsAnswered seq h.sent h.next_lease _ _ n _ (
        enqueue_prepared-IsCovered seq h.sent f _ h.sink.capacity (make_done srv g h).1
          (inr (make_done-IsOpen seq g h l)))

  process_decoded-IsAnswered :
      (seq : ℕ) (g : SettleGrant) (frame_bytes now : ℕ) (r : Result (Batch × Bytes)) (h : Handler S)
      → IsLive seq h.manager g
      → r ≢ err internal
      → IsAnswered seq h.sent (process_decoded srv g frame_bytes now r h).sent
  unfolding process_decoded deliver
  process_decoded-IsAnswered seq g n now (ok (b, wire)) h l e =
      deliver_to-IsAnswered seq srv.sink_handler g b wire n now _
        (backfill-IsLive seq h.manager g b.batch_correlation l)
  process_decoded-IsAnswered seq g n now (err internal) h l e = absurd (e refl)
  process_decoded-IsAnswered seq g n now (err server_draining) h l e =
      abort-IsAnswered seq h.sent server_draining h refl
  process_decoded-IsAnswered seq g n now (err _) h l e = settle_own-IsAnswered seq g _ _ _ n h l

  process_charged-IsAnswered :
      (seq : ℕ) (failed : Option ErrCode) (g : SettleGrant) (env : Envelope) (frame_bytes now : ℕ)
      (keys : SessionKeys) (h : Handler S)
      → (failed ≡ none → IsLive seq h.manager g)
      → srv.session_keys ≡ some keys
      → IsAnswered seq h.sent (process_charged srv failed g env frame_bytes now h).sent
  unfolding process_charged
  process_charged-IsAnswered seq (some e) g env n now keys h l k =
      abort-IsAnswered seq h.sent window_exceeded h refl
  process_charged-IsAnswered seq none g env n now keys h l k =
      process_decoded-IsAnswered seq g n now _ h (l refl) (λ e.
        other (decode_and_validate_err srv keys env type_batch (now / 1000000000) internal k e))
    where
      other : (server_draining ≡ internal) ⊎ (is_batch_code internal ≡ true) → ⊥
      other (inl e) = cc
      other (inr e) = cc

  process_granted-IsAnswered :
      (seq : ℕ) (g : SettleGrant) (env : Envelope) (frame_bytes now : ℕ) (keys : SessionKeys)
      (h : Handler S)
      → IsLive seq h.manager g
      → srv.session_keys ≡ some keys
      → IsAnswered seq h.sent (process_granted srv g env frame_bytes now h).sent
  unfolding process_granted
  process_granted-IsAnswered seq g env n now keys h l k =
      process_charged-IsAnswered seq _ _ env n now keys _ (consume-IsLive seq h.manager g n l) k

  process_admitted-IsAnswered :
      (env : Envelope) (frame_bytes now : ℕ) (r : AdmitResult) (keys : SessionKeys)
      (d : AdmitDecision) (h : Handler S)
      → r.decision ≡ d
      → (d ≡ accept → IsLive env.seq h.manager (fresh_grant env.seq))
      → srv.session_keys ≡ some keys
      → IsAnswered env.seq h.sent (process_admitted srv env frame_bytes now r h).sent
  unfolding process_admitted repeat_result send_results
  process_admitted-IsAnswered env n now r keys accept h e l k =
      rw e (process_granted-IsAnswered env.seq _ env n now keys h (l refl) k)
  process_admitted-IsAnswered env n now r keys violation h e l k =
      rw e (abort-IsAnswered env.seq h.sent window_exceeded h refl)
  process_admitted-IsAnswered env n now r keys terminal_hit h e l k =
      rw e (answer_now env.seq h.sent _ (same_seq env.seq env.seq refl))
  process_admitted-IsAnswered env n now r keys below_unknown h e l k =
      rw e (answer_now env.seq h.sent _ (same_seq env.seq env.seq refl))
  process_admitted-IsAnswered env n now r keys duplicate h e l k =
      rw e (answer_now env.seq h.sent _ (same_seq env.seq env.seq refl))

  process_envelope-IsAnswered :
      (o : Option Envelope) (frame_bytes now : ℕ) (h : Handler S) (env : Envelope)
      (keys : SessionKeys)
      → o ≡ some env
      → srv.session_keys ≡ some keys
      → IsAnswered env.seq h.sent (process_envelope srv o frame_bytes now h).sent
  unfolding process_envelope
  process_envelope-IsAnswered none n now h env keys e k = absurd cc
  process_envelope-IsAnswered (some v) n now h env keys e k =
      let same : v ≡ env = cc in
      let r = admit h.manager v.seq now in
      subst (λ x. IsAnswered x.seq h.sent (process_envelope srv (some v) n now h).sent) same
        (process_admitted-IsAnswered v n now r.1 keys r.1.decision (record h { manager = r.0 }) refl
          (admit-IsLive h.manager v.seq now) k)

-- No batch is dropped in silence: once the handshake has set the session's keys, every BATCH frame whose
-- envelope decodes is answered while it is processed, by a RESULT for its seq or by an ABORT, whatever
-- the manager's state, the sink's queue, and the outcomes that the sink reports at once.
pub process_batch-IsAnswered :
    {D S : Type 0} (srv : Server D S) (payload : Bytes) (now : ℕ) (h : Handler S) (env : Envelope)
    (keys : SessionKeys)
    → srv.decode_envelope payload ≡ some env
    → srv.session_keys ≡ some keys
    → IsAnswered env.seq h.sent (process_batch srv payload now h).sent
unfolding process_batch
process_batch-IsAnswered srv payload now h env keys e k =
    process_envelope-IsAnswered srv (srv.decode_envelope payload) (length payload) now h env keys e
      k
