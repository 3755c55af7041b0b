-- ===== src/Batches/Workers.antt =====
-- Runs of the sink's queue of internal/protocol/handler_sink.go, by any number of handlers and
-- workers, step by step.
use mbta_go.Base.{ℕ, zero, suc, ◌+◌, ◌^◌, ◌<◌, List, [], ◌∷◌, ◌++◌, Bool, true, false}
use mbta_go.Base.{Option, none, some}
use mbta_go.Batches.{SinkTask, SinkQueue}
use mbta_go.Batches.Sink.{reserve_task, push_task, second_look, next_task, task_finished}

-- The queue; the tasks whose bytes are reserved, those in the queue whose handler has yet to look at
-- sinkDone again, and those at the workers; and, in order, what went into the queue and came out of it,
-- what enqueueSink said yes to, and what it said no to after it had put it in.
pub record Workers (S : Type 0) : Type 0 where
  pub queue : SinkQueue S
  pub reserved : List (SinkTask S)
  pub pushed : List (SinkTask S)
  pub running : List (SinkTask S)
  pub entered : List (SinkTask S)
  pub started : List (SinkTask S)
  pub accepted : List (SinkTask S)
  pub disowned : List (SinkTask S)

pub data WorkerStep (S : Type 0) : Type 0 where
  reserves : SinkTask S → WorkerStep S
  pushes : ℕ → WorkerStep S
  looks : ℕ → WorkerStep S
  starts : WorkerStep S
  finishes : ℕ → WorkerStep S
  closes : WorkerStep S

unfoldable pub put_back {ℓ} : {A : Type ℓ} → A → Option (A × List A) → Option (A × List A)
put_back x none = none
put_back x (some (y, ys)) = some (y, x ∷ ys)

-- The element at a place, and the others.
unfoldable pub pick {ℓ} : {A : Type ℓ} → ℕ → List A → Option (A × List A)
unfolding put_back
pick n [] = none
pick zero (x ∷ xs) = some (x, xs)
pick (suc n) (x ∷ xs) = put_back x (pick n xs)

module _ {S : Type 0} where
  -- The sum of a weight over some tasks.
  unfoldable pub weigh : (SinkTask S → ℕ) → List (SinkTask S) → ℕ
  weigh f [] = 0
  weigh f (t ∷ ts) = f t + weigh f ts

  unfoldable pub reserving : SinkTask S → Bool × SinkQueue S → Workers S → Workers S
  reserving t (true, q) w = record w { queue = q; reserved = t ∷ w.reserved }
  reserving t (false, q) w = record w { queue = q }

  unfoldable pub entering :
      SinkTask S → List (SinkTask S) → Bool × SinkQueue S → Workers S → Workers S
  entering t rest (true, q) w = record w {
    queue = q;
    reserved = rest;
    pushed = t ∷ w.pushed;
    entered = w.entered ++ (t ∷ []);
  }
  entering t rest (false, q) w = record w { queue = q; reserved = rest }

  unfoldable pub pushing : ℕ → Option (SinkTask S × List (SinkTask S)) → Workers S → Workers S
  pushing room none w = w
  pushing room (some (t, rest)) w = entering t rest (push_task room t w.queue) w

  unfoldable pub answering : SinkTask S → Bool → Workers S → Workers S
  answering t true w = record w { accepted = w.accepted ++ (t ∷ []) }
  answering t false w = record w { disowned = w.disowned ++ (t ∷ []) }

  unfoldable pub looking : Option (SinkTask S × List (SinkTask S)) → Workers S → Workers S
  looking none w = w
  looking (some (t, rest)) w =
      answering t (second_look (true, w.queue)).0 (record w { pushed = rest })

  unfoldable pub starting : Option (SinkTask S × SinkQueue S) → Workers S → Workers S
  starting none w = w
  starting (some (t, q)) w = record w {
    queue = q;
    running = t ∷ w.running;
    started = w.started ++ (t ∷ []);
  }

  unfoldable pub finishing : Option (SinkTask S × List (SinkTask S)) → Workers S → Workers S
  finishing none w = w
  finishing (some (t, rest)) w = record w { queue = task_finished t w.queue; running = rest }

  unfoldable pub work : ℕ → WorkerStep S → Workers S → Workers S
  unfolding pick
  work room (reserves t) w = reserving t (reserve_task t w.queue) w
  work room (pushes n) w = pushing room (pick n w.reserved) w
  work room (looks n) w = looking (pick n w.pushed) w
  work room starts w = starting (next_task w.queue) w
  work room (finishes n) w = finishing (pick n w.running) w
  work room closes w = record w { queue = record w.queue { sink_done = true } }

  unfoldable pub work_all : ℕ → List (WorkerStep S) → Workers S → Workers S
  work_all room [] w = w
  work_all room (s ∷ ss) w = work_all room ss (work room s w)

  -- A task and the limit together fit int64.
  abbrev pub IsSized : ℕ → WorkerStep S → Type 0
  IsSized limit (reserves t) = limit + t.task_bytes < 2 ^ 63
  IsSized limit _ = Unit {0}

  abbrev pub AllSized : ℕ → List (WorkerStep S) → Type 0
  AllSized limit [] = Unit {0}
  AllSized limit (s ∷ ss) = IsSized limit s × AllSized limit ss

  abbrev pub bytes_of : List (SinkTask S) → ℕ
  bytes_of ts = weigh (λ t. t.task_bytes) ts

unfoldable pub new_workers : {S : Type 0} → ℕ → ℕ → Workers S
new_workers room limit = record {
  queue = record {
    capacity = some room;
    max_bytes = limit;
    tasks = [];
    queued_bytes = 0;
    sink_done = false;
  };
  reserved = [];
  pushed = [];
  running = [];
  entered = [];
  started = [];
  accepted = [];
  disowned = [];
}
