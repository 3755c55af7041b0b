-- ===== src/Batches/Reaper.antt =====
-- The reaper and the credit that goes back, of internal/protocol/handler_batch.go.
use mbta_go.Base.{ℕ, zero, suc, [], ◌∷◌, ◌++◌, ◌&&◌, false, if◌then◌else◌, sle, none, some}
use mbta_go.Credit.Manager.{
  InflightSlot, take_recovered, oldest_before, force_settle, pending, level_released,
}
use mbta_go.Batches.{Handler, credit_frame}
use mbta_go.Batches.Sink.{maybe_schedule_flush, send_results}

module _ {S : Type 0} where
  -- flushPending.
  unfoldable pub flush_pending : Handler S → Handler S
  flush_pending h =
      let (m, b, y) = take_recovered h.manager in
      let h' = record h { manager = m } in
      if sle b 0 && sle y 0 then h' else record h' { sent = h.sent ++ (credit_frame b y ∷ []) }

  -- The timer of maybeScheduleFlush.
  unfoldable pub flush_timer : Handler S → Handler S
  flush_timer h = flush_pending (record h { flush_armed = false })

  -- The body of releaseStuck's loop, on the slot that was found.
  unfoldable pub release_one : ℕ → ℕ → InflightSlot → Handler S → Handler S
  release_one code seq slot h =
      let (m, rs) = force_settle h.manager seq level_released code 1000 slot.bytes in
      send_results rs (record h { manager = m })

  -- The loop of releaseStuck. Every round takes a slot out of the map, so the number of slots is fuel
  -- enough.
  unfoldable pub release_loop : ℕ → ℕ → ℕ → Handler S → Handler S
  release_loop zero cutoff code h = h
  release_loop (suc fuel) cutoff code h = elim (oldest_before h.manager cutoff) [
    | none ↦ h
    | some (seq, slot) ↦ release_loop fuel cutoff code (release_one code seq slot h)
  ]

  -- releaseStuck.
  unfoldable pub release_stuck : ℕ → ℕ → Handler S → Handler S
  release_stuck cutoff code h =
      maybe_schedule_flush (release_loop (pending h.manager) cutoff code h)
