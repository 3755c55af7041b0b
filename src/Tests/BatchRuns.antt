-- ===== src/Tests/BatchRuns.antt =====
-- internal/protocol/handler_batch.go and handler_sink.go at concrete inputs.
use mbta_go.Base.{ℕ, ◌+◌, ◌*◌, ◌≤◌, ◌≡◌, refl, arith, List, [], ◌∷◌, true, false}
use mbta_go.Base.{Unique, none, some, lookup, nat_eq}
use mbta_go.Codes.{ok}
use mbta_go.Wire.{ack_mode_durable, profile_intl}
use mbta_go.Policy.{ServerPolicy}
use mbta_go.Envelope.{SealParams, seal_message, seal_plain, dual_mac, wrong_mac_key}
use mbta_go.Envelope.RoundTrip.{seal_message_uncompressed}
use mbta_go.Keys.{hmac_key_len}
use mbta_go.Credit.Manager.{CreditManager, fresh_grant, oldest_before}
use mbta_go.Credit.Conservation.{IsConserved}
use mbta_go.Batches.{Server, Batch, SinkTask, Handler, type_batch}
use mbta_go.Batches.Datagram.{Refill, new_bucket, dgram_allow, refilled, take_tokens}
use mbta_go.Validation.{validate_batch_trace_context}
use mbta_go.Batches.Handling.{process_batch, reject_at_capacity}
use mbta_go.Batches.Pipeline.{decode_and_validate}
use mbta_go.Batches.Reaper.{release_stuck}
use mbta_go.Batches.Released.{IsReleased, release_stuck_exact}
use mbta_go.Batches.Budget.{passed, gained, passed_le}
use mbta_go.Batches.Answers.{IsAnswered}
use mbta_go.Batches.Replies.{process_batch-IsAnswered}
use mbta_go.Batches.Balanced.{process_batch-IsConserved}
use mbta_go.Batches.Workers.{
  WorkerStep, reserves, pushes, looks, starts, finishes, closes, work_all, new_workers,
}
use mbta_go.Batches.Accounted.{IsAccounted, work_all-IsAccounted}
use mbta_go.Batches.Admitted.{
  IsProper, IsChecked, decode_and_validate-IsChecked, decode_and_validate-seal_message,
}
use mbta_go.Tests.EnvelopeRuns.{
  bare, bare_aead, bare-IsAuthenticated, verbatim, verbatim-IsLossless, session_keys, params,
  sealed, ready,
}

abbrev batch_params : SealParams ℕ
batch_params = record params { frame_type = type_batch }

abbrev batch : Batch
batch = record {
  batch_seq = 9;
  batch_correlation = 77 ∷ [];
  batch_trace = none;
  events_count = 3;
  payload = 1 ∷ [];
}

abbrev pub policy : ServerPolicy
policy = record {
  policy_profile = profile_intl;
  supported_capabilities = [];
  policy_ack_mode = ack_mode_durable;
  initial_credit_batches = 4;
  initial_credit_bytes = 4096;
  policy_frame_bytes = 4096;
  policy_batch_bytes = 4096;
  datagram_rate_bytes = 100;
  zstd_dict = [];
  zstd_dict_id = 0;
}

-- Whatever comes in is the sealed batch; the sink reports one durable outcome at once.
abbrev server : Server ℕ ℕ
server = record {
  crypto = bare;
  codecs = verbatim;
  decode_envelope = λ s. some sealed;
  decode_batch = λ s. some batch;
  unmarshal_signal_batch = λ c s. some 0;
  sink_handler = some (λ ev. (record { outcome_level = 1; outcome_code = 0 } ∷ [], false));
  policy = policy;
  zdict = none;
  raw_events = true;
  sink_deadline = 30;
  session_keys = some session_keys;
  expires_at = 0;
  session_id = 5 ∷ [];
  agent_id = 65 ∷ [];
  codec = 1;
  torn_during = λ k. false;
}

-- Seq 2 is in flight since time 1, seq 3 since time 40.
abbrev pub manager : CreditManager
manager = record {
  outstanding_b = 2;
  outstanding_y = 900;
  recovered_b = 0;
  recovered_y = 0;
  low = 2;
  accepted = [];
  seen =
      (2, record { seq = 2; bytes = 30; correlation = []; added_at = 1 })
      ∷ (3, record { seq = 3; bytes = 40; correlation = []; added_at = 40 })
      ∷ [];
  terminal = [];
  ring_ord = [];
  ring_cap = 256;
}

abbrev pub handler : Handler ℕ
handler = record {
  manager = manager;
  flush_armed = false;
  closed = false;
  sent = [];
  leases = λ k. record { grant = fresh_grant 0; fired = false };
  next_lease = 0;
  sink = record {
    capacity = none;
    max_bytes = 1000;
    tasks = [];
    queued_bytes = 0;
    sink_done = false;
  };
  handed = [];
}

unique : Unique handler.manager.seen
unfolding lookup
unique = (refl, (refl, tt))

process_batch-IsAnswered_example :
    IsAnswered 9 handler.sent (process_batch server (1 ∷ 2 ∷ []) 5 handler).sent
process_batch-IsAnswered_example =
    process_batch-IsAnswered server (1 ∷ 2 ∷ []) 5 handler sealed session_keys refl refl

process_batch-IsConserved_example :
    IsConserved handler.manager (process_batch server (1 ∷ 2 ∷ []) 5 handler).manager
    × IsConserved handler.manager (reject_at_capacity server (1 ∷ 2 ∷ []) 5 handler).manager
process_batch-IsConserved_example =
    process_batch-IsConserved server (1 ∷ 2 ∷ []) 5 session_keys handler unique (omega arith)
      (omega arith) refl

release_stuck_exact_example :
    IsReleased 10 40 handler (release_stuck 10 40 handler)
    × (oldest_before (release_stuck 10 40 handler).manager 10 ≡ none)
release_stuck_exact_example = release_stuck_exact 10 40 handler unique

abbrev per_second : Refill
per_second = λ elapsed rate. elapsed * rate

passed_le_example :
    let (sum, b) = passed per_second ((60, 5) ∷ (60, 5) ∷ (90, 6) ∷ []) (new_bucket 100) in
    (sum ≤ 100 + gained per_second 100 5 ((60, 5) ∷ (90, 6) ∷ [])) × (b.avail ≤ 100)
passed_le_example =
    passed_le per_second 100 60 5 ((60, 5) ∷ (90, 6) ∷ []) (omega arith) (omega arith) (omega arith)
      (omega arith, omega arith, (omega arith, omega arith, tt))

passed_sum : (passed per_second ((60, 5) ∷ (60, 5) ∷ (90, 6) ∷ []) (new_bucket 100)).0 ≡ 150
unfolding passed dgram_allow refilled take_tokens
passed_sum = refl

abbrev task : ℕ → SinkTask ℕ
task n = record {
  event = record {
    agent = [];
    meta_seq = n;
    meta_correlation = [];
    meta_events_count = 1;
    received_at = 0;
    meta_trace = none;
    decoded = none;
    raw = [];
  };
  lease = n;
  durable = true;
  task_bytes = n;
  deadline = 30;
}

-- The third task is refused at the second look, after it has gone into the queue, and is started all the
-- same.
abbrev steps : List (WorkerStep ℕ)
steps =
    reserves (task 60)
    ∷ reserves (task 50)
    ∷ reserves (task 30)
    ∷ pushes 1
    ∷ pushes 0
    ∷ looks 0
    ∷ starts
    ∷ closes
    ∷ looks 0
    ∷ finishes 0
    ∷ starts
    ∷ reserves (task 5)
    ∷ []

work_all-IsAccounted_example : IsAccounted 2 100 (work_all 2 steps (new_workers 2 100))
work_all-IsAccounted_example = work_all-IsAccounted 2 100 steps (omega arith) (
  omega arith,
  (omega arith, (omega arith, (tt, (tt, (tt, (tt, (tt, (tt, (tt, (tt, (omega arith, tt))))))))))),
)

right_key :
    wrong_mac_key bare verbatim batch_params.seal_mac_key (hmac_key_len profile_intl) ≡ false
unfolding wrong_mac_key hmac_key_len
right_key = refl

seal_message-batch_params : seal_message bare verbatim batch_params ≡ ok sealed
unfolding seal_plain dual_mac
seal_message-batch_params =
    seal_message_uncompressed bare verbatim batch_params session_keys bare_aead refl (omega arith)
      refl refl ready right_key

batch-IsProper : IsProper sealed batch
unfolding validate_batch_trace_context
batch-IsProper = record { same_seq = refl; few_events = omega arith; traced = refl }

decode_and_validate-seal_message_example :
    decode_and_validate server sealed type_batch 7 ≡ ok (batch, 42 ∷ 43 ∷ [])
decode_and_validate-seal_message_example =
    decode_and_validate-seal_message server batch_params session_keys sealed batch 7
      verbatim-IsLossless bare-IsAuthenticated refl refl refl refl refl refl refl refl (omega arith)
      refl batch-IsProper seal_message-batch_params

passes : decode_and_validate server sealed type_batch 7 ≡ ok (batch, 42 ∷ 43 ∷ [])
passes =
    decode_and_validate-seal_message server batch_params session_keys sealed batch 7
      verbatim-IsLossless bare-IsAuthenticated refl refl refl refl refl refl refl refl (omega arith)
      refl batch-IsProper seal_message-batch_params

decode_and_validate-IsChecked_example :
    IsChecked server session_keys sealed type_batch 7 (batch, 42 ∷ 43 ∷ [])
decode_and_validate-IsChecked_example =
    decode_and_validate-IsChecked server session_keys sealed type_batch 7 (batch, 42 ∷ 43 ∷ []) refl
      passes
