-- ===== src/Batches/Accounted.antt =====
-- What stays true of the sink's queue of internal/protocol/handler_sink.go through the steps of Workers.
use mbta_go.Base.{
  ℕ, zero, suc, ◌+◌, ◌^◌, ◌≤◌, ◌<◌, ◌≡◌, refl, ap, sym, ◌∙◌, List, [], ◌∷◌, ◌++◌, Bool, true, false,
  not,
}
use mbta_go.Base.{Option, none, some, length, length-append, append_assoc, arith}
use mbta_go.Batches.{SinkTask, SinkQueue}
use mbta_go.Batches.Sink.{reserve_task, push_task, second_look, next_of, next_task, task_finished}
use mbta_go.Batches.Workers.{
  Workers, WorkerStep, reserves, pushes, looks, starts, finishes, closes, put_back, pick, weigh,
  reserving, entering, pushing, answering, looking, starting, finishing, work, work_all, IsSized,
  AllSized, bytes_of, new_workers,
}

module _ {S : Type 0} where
  -- The bytes are those of the queued, the running and the reserved tasks, within the limit; the queue is
  -- within its room; what went in is what came out followed by what is queued; what went in is, by any
  -- weight, what was accepted, what was disowned and what still waits for its answer; and only a torn
  -- connection disowns.
  pub record IsAccounted (room limit : ℕ) (w : Workers S) : Type 0 where
    pub bytes :
        w.queue.queued_bytes ≡ bytes_of w.queue.tasks + bytes_of w.running + bytes_of w.reserved
    pub limited : w.queue.queued_bytes ≤ limit
    pub constant : w.queue.max_bytes ≡ limit
    pub bounded : length w.queue.tasks ≤ room
    pub in_order : w.entered ≡ w.started ++ w.queue.tasks
    pub answered :
        (f : SinkTask S → ℕ)
        → weigh f w.entered ≡ weigh f w.accepted + weigh f w.disowned + weigh f w.pushed
    pub torn : w.queue.sink_done ≡ false → w.disowned ≡ []

  weigh-append :
      (f : SinkTask S → ℕ) (xs ys : List (SinkTask S))
      → weigh f (xs ++ ys) ≡ weigh f xs + weigh f ys
  unfolding weigh
  weigh-append f [] ys = omega arith
  weigh-append f (x ∷ xs) ys = omega (arith, weigh-append f xs ys)

  weigh-append_one :
      (f : SinkTask S → ℕ) (xs : List (SinkTask S)) (t : SinkTask S)
      → weigh f (xs ++ (t ∷ [])) ≡ weigh f xs + f t
  unfolding weigh
  weigh-append_one f xs t = omega (arith, weigh-append f xs (t ∷ []))

  pick-weigh :
      (f : SinkTask S → ℕ) (n : ℕ) (ts rest : List (SinkTask S)) (t : SinkTask S)
      → pick n ts ≡ some (t, rest)
      → weigh f ts ≡ f t + weigh f rest
  unfolding pick weigh
  pick-weigh f n [] rest t h = cc
  pick-weigh f zero (x ∷ xs) rest t h =
      let e : x ≡ t = cc in let r : xs ≡ rest = cc in rw (e, r) refl
  pick-weigh f (suc n) (x ∷ xs) rest t h =
      put_back-weigh (pick n xs) h (λ ys. pick-weigh f n xs ys t)
    where
      put_back-weigh :
          (o : Option (SinkTask S × List (SinkTask S)))
          → put_back x o ≡ some (t, rest)
          → ((ys : List (SinkTask S)) → o ≡ some (t, ys) → weigh f xs ≡ f t + weigh f ys)
          → weigh f (x ∷ xs) ≡ f t + weigh f rest
      put_back-weigh none e k = absurd cc
      put_back-weigh (some (y, ys)) e k =
          let y' : y ≡ t = cc in
          let r : x ∷ ys ≡ rest = cc in
          let sum = k ys (ap (λ z. some (z, ys)) y') in omega (arith, sum, ap (weigh f) r)

  reserving-IsAccounted :
      (room limit : ℕ) (t : SinkTask S) (w : Workers S) (r : Bool × SinkQueue S)
      → IsAccounted room limit w
      → (r.0 ≡ true
          → (r.1.queued_bytes ≡ w.queue.queued_bytes + t.task_bytes)
            × (w.queue.queued_bytes + t.task_bytes ≤ limit))
      → (r.0 ≡ false → r.1.queued_bytes ≡ w.queue.queued_bytes)
      → (r.1.tasks ≡ w.queue.tasks)
        × (r.1.max_bytes ≡ w.queue.max_bytes)
        × (r.1.sink_done ≡ w.queue.sink_done)
      → IsAccounted room limit (reserving t r w)
  unfolding reserving weigh
  reserving-IsAccounted room limit t w (true, q) a took left (e, m, d) =
      let (b, l) = took refl in
      record {
        bytes = rw (e, b) (omega (arith, a.bytes));
        limited = rw b l;
        constant = m ∙ a.constant;
        bounded = rw e a.bounded;
        in_order = rw e a.in_order;
        answered = a.answered;
        torn = λ h. a.torn (sym d ∙ h);
      }
  reserving-IsAccounted room limit t w (false, q) a took left (e, m, d) = record {
    bytes = rw (e, left refl) a.bytes;
    limited = rw (left refl) a.limited;
    constant = m ∙ a.constant;
    bounded = rw e a.bounded;
    in_order = rw e a.in_order;
    answered = a.answered;
    torn = λ h. a.torn (sym d ∙ h);
  }

  reserves-IsAccounted :
      (room limit : ℕ) (t : SinkTask S) (w : Workers S)
      → IsAccounted room limit w
      → limit + t.task_bytes < 2 ^ 63
      → IsAccounted room limit (work room (reserves t) w)
  unfolding work reserve_task
  reserves-IsAccounted room limit t w a s =
      reserving-IsAccounted room limit t w (reserve_task t w.queue) a
        (λ e. ground (arith, a.limited, a.constant)) (λ e. ground (arith, a.limited, a.constant))
        (ground arith)

  entering-IsAccounted :
      (room limit : ℕ) (t : SinkTask S) (rest : List (SinkTask S)) (w : Workers S)
      (r : Bool × SinkQueue S)
      → IsAccounted room limit w
      → ((f : SinkTask S → ℕ) → weigh f w.reserved ≡ f t + weigh f rest)
      → (r.0 ≡ true
          → (r.1.tasks ≡ w.queue.tasks ++ (t ∷ []))
            × (r.1.queued_bytes ≡ w.queue.queued_bytes)
            × (length w.queue.tasks < room))
      → (r.0 ≡ false
          → (r.1.tasks ≡ w.queue.tasks) × (r.1.queued_bytes + t.task_bytes ≡ w.queue.queued_bytes))
      → (r.1.max_bytes ≡ w.queue.max_bytes) × (r.1.sink_done ≡ w.queue.sink_done)
      → IsAccounted room limit (entering t rest r w)
  unfolding entering weigh
  entering-IsAccounted room limit t rest w (true, q) a sum took left (m, d) =
      let (e, b, n) = took refl in
      record {
        bytes =
            rw (e, b)
              (omega (
                arith,
                a.bytes,
                sum (λ t. t.task_bytes),
                weigh-append_one (λ t. t.task_bytes) w.queue.tasks t,
              ));
        limited = rw b a.limited;
        constant = m ∙ a.constant;
        bounded = rw e (omega (arith, length-append w.queue.tasks (t ∷ []), n));
        in_order = rw (e, a.in_order) (append_assoc w.started w.queue.tasks (t ∷ []));
        answered = λ f. omega (arith, a.answered f, weigh-append_one f w.entered t);
        torn = λ h. a.torn (sym d ∙ h);
      }
  entering-IsAccounted room limit t rest w (false, q) a sum took left (m, d) =
      let (e, b) = left refl in
      record {
        bytes = rw e (omega (arith, a.bytes, b, sum (λ t. t.task_bytes)));
        limited = omega (arith, a.limited, b);
        constant = m ∙ a.constant;
        bounded = rw e a.bounded;
        in_order = rw e a.in_order;
        answered = a.answered;
        torn = λ h. a.torn (sym d ∙ h);
      }

  pushing-IsAccounted :
      (room limit n : ℕ) (w : Workers S) (o : Option (SinkTask S × List (SinkTask S)))
      → IsAccounted room limit w
      → limit < 2 ^ 63
      → pick n w.reserved ≡ o
      → IsAccounted room limit (pushing room o w)
  unfolding pushing push_task
  pushing-IsAccounted room limit n w none a l e = a
  pushing-IsAccounted room limit n w (some (t, rest)) a l e =
      let sum : (f : SinkTask S → ℕ) → weigh f w.reserved ≡ f t + weigh f rest =
        λ f. pick-weigh f n w.reserved rest t e in
      let fits : t.task_bytes ≤ w.queue.queued_bytes =
        omega (arith, a.bytes, sum (λ t. t.task_bytes)) in
      entering-IsAccounted room limit t rest w (push_task room t w.queue) a sum (λ e. ground arith)
        (λ e. ground (arith, fits, a.limited, l)) (ground arith)

  looking-IsAccounted :
      (room limit n : ℕ) (w : Workers S) (o : Option (SinkTask S × List (SinkTask S)))
      → IsAccounted room limit w
      → pick n w.pushed ≡ o
      → IsAccounted room limit (looking o w)
  unfolding looking second_look answering
  looking-IsAccounted room limit n w none a e = a
  looking-IsAccounted room limit n w (some (t, rest)) a e =
      answering-IsAccounted w.queue.sink_done refl
    where
      answering-IsAccounted :
          (closed : Bool)
          → w.queue.sink_done ≡ closed
          → IsAccounted room limit (answering t (not closed) (record w { pushed = rest }))
      answering-IsAccounted true h = record {
        bytes = a.bytes;
        limited = a.limited;
        constant = a.constant;
        bounded = a.bounded;
        in_order = a.in_order;
        answered = λ f. omega (
          arith,
          a.answered f,
          weigh-append_one f w.disowned t,
          pick-weigh f n w.pushed rest t e,
        );
        torn = λ k. absurd (cc);
      }
      answering-IsAccounted false h = record {
        bytes = a.bytes;
        limited = a.limited;
        constant = a.constant;
        bounded = a.bounded;
        in_order = a.in_order;
        answered = λ f. omega (
          arith,
          a.answered f,
          weigh-append_one f w.accepted t,
          pick-weigh f n w.pushed rest t e,
        );
        torn = a.torn;
      }

  starting-IsAccounted :
      (room limit : ℕ) (w : Workers S) (ts : List (SinkTask S))
      → IsAccounted room limit w
      → w.queue.tasks ≡ ts
      → IsAccounted room limit (starting (next_of ts w.queue) w)
  unfolding starting next_of weigh
  starting-IsAccounted room limit w [] a e = a
  starting-IsAccounted room limit w (t ∷ ts) a e = record {
    bytes = omega (arith, a.bytes, ap (weigh (λ t. t.task_bytes)) e);
    limited = a.limited;
    constant = a.constant;
    bounded = omega (arith, a.bounded, ap length e);
    in_order = a.in_order ∙ (ap (λ l. w.started ++ l) e ∙ sym (append_assoc w.started (t ∷ []) ts));
    answered = a.answered;
    torn = a.torn;
  }

  finishing-IsAccounted :
      (room limit n : ℕ) (w : Workers S) (o : Option (SinkTask S × List (SinkTask S)))
      → IsAccounted room limit w
      → limit < 2 ^ 63
      → pick n w.running ≡ o
      → IsAccounted room limit (finishing o w)
  unfolding finishing task_finished
  finishing-IsAccounted room limit n w none a l e = a
  finishing-IsAccounted room limit n w (some (t, rest)) a l e =
      let sum = pick-weigh (λ t. t.task_bytes) n w.running rest t e in
      record {
        bytes = omega (arith, a.bytes, a.limited, sum, l);
        limited = omega (arith, a.bytes, a.limited, sum, l);
        constant = a.constant;
        bounded = a.bounded;
        in_order = a.in_order;
        answered = a.answered;
        torn = a.torn;
      }

  work-IsAccounted :
      (room limit : ℕ) (s : WorkerStep S) (w : Workers S)
      → IsAccounted room limit w
      → limit < 2 ^ 63
      → IsSized limit s
      → IsAccounted room limit (work room s w)
  unfolding work next_task
  work-IsAccounted room limit (reserves t) w a l z = reserves-IsAccounted room limit t w a z
  work-IsAccounted room limit (pushes n) w a l z =
      pushing-IsAccounted room limit n w (pick n w.reserved) a l refl
  work-IsAccounted room limit (looks n) w a l z =
      looking-IsAccounted room limit n w (pick n w.pushed) a refl
  work-IsAccounted room limit starts w a l z =
      starting-IsAccounted room limit w w.queue.tasks a refl
  work-IsAccounted room limit (finishes n) w a l z =
      finishing-IsAccounted room limit n w (pick n w.running) a l refl
  work-IsAccounted room limit closes w a l z = record {
    bytes = a.bytes;
    limited = a.limited;
    constant = a.constant;
    bounded = a.bounded;
    in_order = a.in_order;
    answered = a.answered;
    torn = λ h. absurd (cc);
  }

  work_all-IsAccounted_from :
      (room limit : ℕ) (ss : List (WorkerStep S)) (w : Workers S)
      → IsAccounted room limit w
      → limit < 2 ^ 63
      → AllSized limit ss
      → IsAccounted room limit (work_all room ss w)
  unfolding work_all
  work_all-IsAccounted_from room limit [] w a l z = a
  work_all-IsAccounted_from room limit (s ∷ ss) w a l z =
      work_all-IsAccounted_from room limit ss (work room s w)
        (work-IsAccounted room limit s w a l z.0) l z.1

-- From an empty queue, however the steps of enqueueSink, the workers and the teardown interleave, as long
-- as no task takes the limit out of int64: the bytes that are accounted are those of the queued, the
-- running and the reserved tasks and within the limit; the queue is within its room; the tasks that went
-- in are those that were started, in their order, followed by the queue; and by any weight they are those
-- that were accepted, those that still wait for their answer and, only after the teardown, those that
-- were refused although they had gone in.
pub work_all-IsAccounted :
    {S : Type 0} (room limit : ℕ) (ss : List (WorkerStep S))
    → limit < 2 ^ 63
    → AllSized limit ss
    → IsAccounted room limit (work_all room ss (new_workers room limit))
unfolding new_workers weigh
work_all-IsAccounted room limit ss l z =
    work_all-IsAccounted_from room limit ss _
      (record {
        bytes = refl;
        limited = omega arith;
        constant = refl;
        bounded = omega arith;
        in_order = refl;
        answered = λ f. refl;
        torn = λ h. refl;
      })
      l z
