-- ===== src/Batches/Conserved.antt =====
-- The balance of credit through processBatch and rejectAtCapacity of internal/protocol/handler_batch.go.
use mbta_go.Base.{ℕ, ◌<◌, ◌≡◌, ◌≢◌, refl, ◌∙◌, Bool, true, false, inl, inr, slt, ◌||◌}
use mbta_go.Base.{
  lookup, nat_eq, arith, Bytes, Option, none, some, Bool-cases, Unique, lookup-insert_self,
  IsNonneg,
}
use mbta_go.Codes.{Result, ok, err, internal, server_draining}
use mbta_go.Credit.Manager.{
  CreditManager, SettleGrant, InflightSlot, settle, consume, backfill, accept_grant,
}
use mbta_go.Credit.Conservation.{IsConserved, backfill-IsConserved}
use mbta_go.Credit.Balance.{IsCharged, settle-IsConserved}
use mbta_go.Batches.{Handler, Batch, BatchEvent, SinkCall, SinkTask, Server}
use mbta_go.Batches.Sink.{
  call_handler, settle_lease, store_grant, mark_fired, make_done, enqueue_prepared, enqueue_sink,
  maybe_schedule_flush, send_results,
}
use mbta_go.Batches.Handling.{
  abort, settle_own, accept_lease, after_enqueue, deliver_to, deliver, process_decoded,
}
use mbta_go.Batches.Callbacks.{call_handler_keeps}

pub stay : (m : CreditManager) → Unique m.seen → IsConserved m m
stay m u = record { batches = refl; bytes = refl; keys = u }

pub follow : (l m n : CreditManager) → IsConserved l m → IsConserved m n → IsConserved l n
follow l m n a b = record {
  batches = b.batches ∙ a.batches;
  bytes = b.bytes ∙ a.bytes;
  keys = b.keys;
}

-- A grant that is spent, or whose batch is in flight and charged.
pub data IsHeld (m : CreditManager) (seq : ℕ) (is_done : Bool) : Type 0 where
  spent : is_done ≡ true → IsHeld m seq is_done
  charged : (s : InflightSlot) → IsCharged m seq s → IsHeld m seq is_done

-- The same of a grant.
abbrev pub Holds : CreditManager → SettleGrant → Type 0
Holds m g = IsHeld m g.seq g.done

settle-done :
    (m : CreditManager) (g : SettleGrant) (level code retry_ms frame_bytes : ℕ)
    → (settle m g level code retry_ms frame_bytes).1.done ≡ true
unfolding settle
settle-done m g level code retry_ms frame_bytes = ground arith

pub settle_held-IsConserved :
    (m : CreditManager) (g : SettleGrant) (level code retry_ms frame_bytes : ℕ)
    → Unique m.seen
    → Holds m g
    → IsConserved m (settle m g level code retry_ms frame_bytes).0
unfolding settle
settle_held-IsConserved m g level code retry_ms frame_bytes u (spent d) = rw (d, settle) (stay m u)
settle_held-IsConserved m g level code retry_ms frame_bytes u (charged s c) =
    settle-IsConserved m g level code retry_ms frame_bytes s u c

backfill-IsHeld :
    (m : CreditManager) (g : SettleGrant) (c : Bytes) → Holds m g → Holds (backfill m g c) g
unfolding backfill
backfill-IsHeld m g c (spent d) = spent d
backfill-IsHeld m g c (charged s (e, p, n)) =
    charged (record s { correlation = c })
      (ground (arith, e, lookup-insert_self g.seq (record s { correlation = c }) m.seen), p, n)

pub consume-IsHeld :
    (m : CreditManager) (g : SettleGrant) (frame_bytes : ℕ) (s : InflightSlot)
    → lookup g.seq m.seen ≡ some s
    → 0 < frame_bytes
    → IsNonneg frame_bytes
    → Holds (consume m g frame_bytes).0 (consume m g frame_bytes).1
unfolding consume
consume-IsHeld m g n s e p q = elim (Bool-cases g.done) [
  | inl d ↦ spent (ground (arith, d))
  | inr d ↦ elim (Bool-cases (slt m.outstanding_b 1 || slt m.outstanding_y n)) [
    | inl o ↦ spent (ground (arith, d, o))
    | inr o ↦
        charged (record s { bytes = n })
          (ground (arith, d, o, e, lookup-insert_self g.seq (record s { bytes = n }) m.seen), p, q)
  ]
]

module _ {S : Type 0} (first : CreditManager) (place : ℕ) where
  -- The handler owes nothing so far, and neither will the grant at the place.
  record IsSound (h : Handler S) : Type 0 where
    so_far : IsConserved first h.manager
    held : Holds h.manager (h.leases place).grant

  settle_lease-IsSound :
      (level code retry_ms frame_bytes : ℕ) (h : Handler S)
      → IsSound h
      → IsSound (settle_lease place level code retry_ms frame_bytes h)
  unfolding settle_lease send_results store_grant
  settle_lease-IsSound level code retry_ms frame_bytes h s =
      let g = (h.leases place).grant in
      record {
        so_far = follow first h.manager _ s.so_far (
            settle_held-IsConserved h.manager g level code retry_ms frame_bytes s.so_far.keys
              s.held);
        held = spent (ground (arith, settle-done h.manager g level code retry_ms frame_bytes));
      }

  accept_lease-IsSound : (h : Handler S) → IsSound h → IsSound (accept_lease place h)
  unfolding accept_lease send_results store_grant accept_grant
  accept_lease-IsSound h s = record { so_far = s.so_far; held = rw (same_seq, same_done) s.held }
    where
      same_seq : ((accept_lease place h).leases place).grant.seq ≡ (h.leases place).grant.seq
      same_seq = ground arith

      same_done : ((accept_lease place h).leases place).grant.done ≡ (h.leases place).grant.done
      same_done = ground arith

  mark_fired-IsSound : (h : Handler S) → IsSound h → IsSound (mark_fired place h)
  unfolding mark_fired
  mark_fired-IsSound h s = record { so_far = s.so_far; held = rw same s.held }
    where
      same : ((mark_fired place h).leases place).grant ≡ (h.leases place).grant
      same = ground arith

  armed-IsSound : (h : Handler S) → IsSound h → IsSound (maybe_schedule_flush h)
  unfolding maybe_schedule_flush
  armed-IsSound h s = record { so_far = s.so_far; held = s.held }

  call_handler-IsSound :
      (f : BatchEvent S → SinkCall) (durable : Bool) (ev : BatchEvent S) (h : Handler S)
      → IsSound h
      → IsSound (call_handler f place durable ev h)
  call_handler-IsSound f durable ev h s =
      call_handler_keeps IsSound place (λ l c r. settle_lease-IsSound l c r 0) mark_fired-IsSound
        armed-IsSound f durable ev h (record { so_far = s.so_far; held = s.held })

module _ {D S : Type 0} (srv : Server D S) where
  enqueue_prepared-IsSound :
      (first : CreditManager) (f : BatchEvent S → SinkCall) (t : SinkTask S) (room : Option ℕ)
      (h : Handler S)
      → IsSound first t.lease h
      → IsSound first t.lease (enqueue_prepared srv f t room h).1
  unfolding enqueue_prepared
  enqueue_prepared-IsSound first f t none h s =
      call_handler-IsSound first t.lease f t.durable t.event h s
  enqueue_prepared-IsSound first f t (some room) h s = record { so_far = s.so_far; held = s.held }

  after_enqueue-IsSound :
      (first : CreditManager) (place : ℕ) (taken durable : Bool) (frame_bytes : ℕ) (h : Handler S)
      → IsSound first place h
      → IsSound first place (after_enqueue srv taken place durable frame_bytes h)
  unfolding after_enqueue
  after_enqueue-IsSound first place true true n h s = accept_lease-IsSound first place h s
  after_enqueue-IsSound first place true false n h s =
      armed-IsSound first place _ (settle_lease-IsSound first place _ _ _ n h s)
  after_enqueue-IsSound first place false durable n h s =
      armed-IsSound first place _ (settle_lease-IsSound first place _ _ _ n h s)

  deliver_to-IsConserved :
      (sink : Option (BatchEvent S → SinkCall)) (g : SettleGrant) (b : Batch) (wire : Bytes)
      (frame_bytes now : ℕ) (h : Handler S)
      → Unique h.manager.seen
      → Holds h.manager g
      → IsConserved h.manager (deliver_to srv sink g b wire frame_bytes now h).manager
  unfolding deliver_to enqueue_sink make_done settle_own maybe_schedule_flush send_results
  deliver_to-IsConserved none g b wire n now h u o = settle_held-IsConserved h.manager g _ _ _ n u o
  deliver_to-IsConserved (some f) g b wire n now h u o =
      (after_enqueue-IsSound h.manager h.next_lease _ _ n _ (
        enqueue_prepared-IsSound h.manager f _ h.sink.capacity (make_done srv g h).1
          (record { so_far = stay h.manager u; held = rw same o }))).so_far
    where
      same : ((make_done srv g h).1.leases h.next_lease).grant ≡ g
      same = ground arith

  pub process_decoded-IsConserved :
      (g : SettleGrant) (frame_bytes now : ℕ) (r : Result (Batch × Bytes)) (h : Handler S)
      → Unique h.manager.seen
      → Holds h.manager g
      → r ≢ err internal
      → IsConserved h.manager (process_decoded srv g frame_bytes now r h).manager
  unfolding process_decoded deliver settle_own maybe_schedule_flush send_results abort
  process_decoded-IsConserved g n now (ok (b, wire)) h u o e =
      let back = backfill-IsConserved h.manager g b.batch_correlation u in
      follow h.manager (backfill h.manager g b.batch_correlation) _ back (
        deliver_to-IsConserved srv.sink_handler g b wire n now _ back.keys
          (backfill-IsHeld h.manager g b.batch_correlation o))
  process_decoded-IsConserved g n now (err internal) h u o e = absurd (e refl)
  process_decoded-IsConserved g n now (err server_draining) h u o e = stay h.manager u
  process_decoded-IsConserved g n now (err _) h u o e =
      settle_held-IsConserved h.manager g _ _ _ n u o
