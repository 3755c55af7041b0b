-- ===== src/Batches/Sink.antt =====
-- internal/protocol/handler_sink.go and the callbacks of handler_batch.go: the sink's queue, the workers'
-- tasks and what `done` does.
use mbta_go.Base.{
  ◌||◌, not, ℕ, ◌+◌, List, [], ◌∷◌, ◌++◌, Bool, true, false, if◌then◌else◌, ltb, eqb, slt, add64,
  sub64,
}
use mbta_go.Base.{Bytes, Option, none, some, length, map}
use mbta_go.Codes.{num, internal}
use mbta_go.Credit.Manager.{
  SettleGrant, WireResult, settle, level_durable, level_rejected, level_released,
}
use mbta_go.Batches.{
  Server, Batch, BatchEvent, SinkTask, SinkQueue, SinkCall, Handler, Outcome, result_frame,
  outcome_accepted, outcome_durable, outcome_rejected, outcome_released,
}
use mbta_go.Batches.Pipeline.{make_event}

-- The code of an outcome: 0 stands for internal.
unfoldable pub outcome_code_of : Outcome → ℕ
outcome_code_of o = if eqb o.outcome_code 0 then num internal else o.outcome_code

abbrev pub synthetic_release : Outcome
synthetic_release = record { outcome_level = outcome_released; outcome_code = num internal }

-- The level, the code and the retry hint that an outcome's RESULT gets.
pub record Settlement : Type 0 where
  pub settle_level : ℕ
  pub settle_code : ℕ
  pub settle_retry_ms : ℕ

unfoldable pub settlement : Outcome → Option Settlement
settlement o =
    if eqb o.outcome_level outcome_durable || eqb o.outcome_level outcome_accepted
    then some (record { settle_level = level_durable; settle_code = 0; settle_retry_ms = 0 })
    else if eqb o.outcome_level outcome_released
    then some (record {
      settle_level = level_released;
      settle_code = outcome_code_of o;
      settle_retry_ms = 1000;
    })
    else if eqb o.outcome_level outcome_rejected
    then some (record {
      settle_level = level_rejected;
      settle_code = outcome_code_of o;
      settle_retry_ms = 0;
    })
    else none

module _ {S : Type 0} where
  -- maybeScheduleFlush: the timer is armed, unless it is.
  unfoldable pub maybe_schedule_flush : Handler S → Handler S
  maybe_schedule_flush h = record h { flush_armed = true }

  -- What `send` is given goes out.
  unfoldable pub send_results : List WireResult → Handler S → Handler S
  send_results rs h = record h { sent = h.sent ++ map result_frame rs }

  unfoldable pub store_grant : ℕ → SettleGrant → Handler S → Handler S
  store_grant place g h = record h {
    leases = λ k. if eqb k place then record (h.leases k) { grant = g } else h.leases k;
  }

  unfoldable pub mark_fired : ℕ → Handler S → Handler S
  mark_fired place h = record h {
    leases = λ k. if eqb k place then record (h.leases k) { fired = true } else h.leases k;
  }

  -- grant.Settle on a shared grant.
  unfoldable pub settle_lease : ℕ → ℕ → ℕ → ℕ → ℕ → Handler S → Handler S
  settle_lease place level code retry_ms frame_bytes h =
      let (m, g, rs) = settle h.manager (h.leases place).grant level code retry_ms frame_bytes in
      send_results rs (store_grant place g (record h { manager = m }))

  -- The switch of the `done` callback on a durable sink; an outcome without a settlement changes nothing.
  unfoldable pub report : ℕ → Option Settlement → Handler S → Handler S
  report place none h = h
  report place (some s) h = settle_lease place s.settle_level s.settle_code s.settle_retry_ms 0 h

  -- makeDone's callback, by whether it has run before and by its sink's durability.
  unfoldable pub done_if : Bool → Bool → ℕ → Outcome → Handler S → Handler S
  done_if true durable place o h = h
  done_if false false place o h = mark_fired place h
  done_if false true place o h =
      maybe_schedule_flush (report place (settlement o) (mark_fired place h))

  unfoldable pub done : ℕ → Bool → Outcome → Handler S → Handler S
  done place durable o h = done_if (h.leases place).fired durable place o h

  unfoldable pub done_all : ℕ → Bool → List Outcome → Handler S → Handler S
  done_all place durable [] h = h
  done_all place durable (o ∷ os) h = done_all place durable os (done place durable o h)

  -- What callHandler makes of the handler's call; a panic is reported as a release.
  unfoldable pub after_call : ℕ → Bool → SinkCall → Handler S → Handler S
  after_call place durable (reported, false) h = done_all place durable reported h
  after_call place durable (reported, true) h =
      done place durable synthetic_release (done_all place durable reported h)

  -- callHandler.
  unfoldable pub call_handler :
      (BatchEvent S → SinkCall) → ℕ → Bool → BatchEvent S → Handler S → Handler S
  call_handler f place durable ev h =
      after_call place durable (f ev) (record h { handed = h.handed ++ (ev ∷ []) })

  -- The first look at sinkDone, and the loop that reserves the task's bytes.
  unfoldable pub reserve_task : SinkTask S → SinkQueue S → Bool × SinkQueue S
  reserve_task t q =
      if q.sink_done
      then (false, q)
      else if slt q.max_bytes (add64 q.queued_bytes t.task_bytes)
      then (false, q)
      else (true, record q { queued_bytes = add64 q.queued_bytes t.task_bytes })

  -- The send, which gives the bytes back if the channel has no room.
  unfoldable pub push_task : ℕ → SinkTask S → SinkQueue S → Bool × SinkQueue S
  push_task room t q =
      if ltb (length q.tasks) room
      then (true, record q { tasks = q.tasks ++ (t ∷ []) })
      else (false, record q { queued_bytes = sub64 q.queued_bytes t.task_bytes })

  -- The second look at sinkDone: a task that is in the queue stays there, whatever is answered.
  unfoldable pub second_look : Bool × SinkQueue S → Bool × SinkQueue S
  second_look (false, q) = (false, q)
  second_look (true, q) = (not q.sink_done, q)

  unfoldable pub send_reserved : ℕ → Bool → SinkTask S → Bool × SinkQueue S → Bool × SinkQueue S
  send_reserved room torn t (false, q) = (false, q)
  send_reserved room torn t (true, q) =
      second_look (push_task room t (record q { sink_done = q.sink_done || torn }))

  -- The queue's part of enqueueSink. `torn` tells whether the connection is torn down between the two
  -- looks at sinkDone; what other goroutines do between the steps is in Workers.
  unfoldable pub enqueue_task : ℕ → Bool → SinkTask S → SinkQueue S → Bool × SinkQueue S
  enqueue_task room torn t q = send_reserved room torn t (reserve_task t q)

  unfoldable pub next_of : List (SinkTask S) → SinkQueue S → Option (SinkTask S × SinkQueue S)
  next_of [] q = none
  next_of (t ∷ rest) q = some (t, record q { tasks = rest })

  -- A worker takes the first task.
  unfoldable pub next_task : SinkQueue S → Option (SinkTask S × SinkQueue S)
  next_task q = next_of q.tasks q

  -- The accounting at the end of runSinkTask.
  unfoldable pub task_finished : SinkTask S → SinkQueue S → SinkQueue S
  task_finished t q = record q { queued_bytes = sub64 q.queued_bytes t.task_bytes }

module _ {D S : Type 0} (srv : Server D S) where
  -- A new grant is shared with its callback: makeDone.
  unfoldable pub make_done : SettleGrant → Handler S → ℕ × Handler S
  make_done g h = (
    h.next_lease,
    record h {
      leases = λ k. if eqb k h.next_lease then record { grant = g; fired = false } else h.leases k;
      next_lease = h.next_lease + 1;
    },
  )

  -- enqueueSink with the task at hand: the synchronous mode calls the handler at once.
  unfoldable pub enqueue_prepared :
      (BatchEvent S → SinkCall) → SinkTask S → Option ℕ → Handler S → Bool × Handler S
  enqueue_prepared f t none h = (true, call_handler f t.lease t.durable t.event h)
  enqueue_prepared f t (some room) h =
      let (taken, q) = enqueue_task room (srv.torn_during t.lease) t h.sink in
      (taken, record h { sink = q })

  -- enqueueSink, at the time `now`: the grant's place, whether the task was taken, and what is left.
  unfoldable pub enqueue_sink :
      (BatchEvent S → SinkCall)
      → SettleGrant
      → Batch
      → Bytes
      → ℕ
      → Bool
      → ℕ
      → Handler S
      → ℕ × Bool × Handler S
  enqueue_sink f g b wire frame_bytes durable now h =
      let (place, h') = make_done g h in
      let t : SinkTask S = record {
        event = make_event srv b wire now;
        lease = place;
        durable = durable;
        task_bytes = frame_bytes;
        deadline = now + srv.sink_deadline;
      } in
      let (taken, n) = enqueue_prepared f t h.sink.capacity h' in (place, taken, n)

  -- runSinkTask on a task that a worker has taken. `late` is the case in which the deadline comes first:
  -- a release is synthesised, and what the handler then reports is too late.
  unfoldable pub run_sink_task :
      (BatchEvent S → SinkCall) → SinkTask S → Bool → Handler S → Handler S
  run_sink_task f t late h =
      let released = done t.lease t.durable synthetic_release h in
      let h' = call_handler f t.lease t.durable t.event (if late then released else h) in
      record h' { sink = task_finished t h'.sink }
