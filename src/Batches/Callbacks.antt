-- ===== src/Batches/Callbacks.antt =====
-- What the sink's callbacks of internal/protocol/handler_batch.go keep, for any property that a
-- settlement, the callback's sync.Once, the flush timer and the sink's log keep.
use mbta_go.Base.{ℕ, List, [], ◌∷◌, ◌++◌, Bool, true, false, Option, none, some}
use mbta_go.Batches.{Handler, BatchEvent, SinkCall, Outcome}
use mbta_go.Batches.Sink.{
  Settlement, settlement, settle_lease, mark_fired, maybe_schedule_flush, report, done_if, done,
  done_all, after_call, call_handler, synthetic_release,
}

module _ {S : Type 0} (P : Handler S → Type 0) (place : ℕ)
    (settles : (level code retry_ms : ℕ) (h : Handler S)
      → P h
      → P (settle_lease place level code retry_ms 0 h))
    (marks : (h : Handler S) → P h → P (mark_fired place h))
    (arms : (h : Handler S) → P h → P (maybe_schedule_flush h)) where
  report_keeps : (o : Option Settlement) (h : Handler S) → P h → P (report place o h)
  unfolding report
  report_keeps none h p = p
  report_keeps (some s) h p = settles s.settle_level s.settle_code s.settle_retry_ms h p

  done_if_keeps :
      (fired durable : Bool) (o : Outcome) (h : Handler S)
      → P h
      → P (done_if fired durable place o h)
  unfolding done_if
  done_if_keeps true durable o h p = p
  done_if_keeps false false o h p = marks h p
  done_if_keeps false true o h p =
      arms (report place (settlement o) (mark_fired place h))
        (report_keeps (settlement o) (mark_fired place h) (marks h p))

  pub done_keeps : (durable : Bool) (o : Outcome) (h : Handler S) → P h → P (done place durable o h)
  unfolding done
  done_keeps durable o h p = done_if_keeps (h.leases place).fired durable o h p

  done_all_keeps :
      (durable : Bool) (os : List Outcome) (h : Handler S) → P h → P (done_all place durable os h)
  unfolding done_all
  done_all_keeps durable [] h p = p
  done_all_keeps durable (o ∷ os) h p =
      done_all_keeps durable os (done place durable o h) (done_keeps durable o h p)

  after_call_keeps :
      (durable : Bool) (call : SinkCall) (h : Handler S) → P h → P (after_call place durable call h)
  unfolding after_call
  after_call_keeps durable (os, false) h p = done_all_keeps durable os h p
  after_call_keeps durable (os, true) h p =
      done_keeps durable synthetic_release _ (done_all_keeps durable os h p)

  pub call_handler_keeps :
      (f : BatchEvent S → SinkCall) (durable : Bool) (ev : BatchEvent S) (h : Handler S)
      → P (record h { handed = h.handed ++ (ev ∷ []) })
      → P (call_handler f place durable ev h)
  unfolding call_handler
  call_handler_keeps f durable ev h p = after_call_keeps durable (f ev) _ p
