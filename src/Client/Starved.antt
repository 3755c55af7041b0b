-- ===== src/Client/Starved.antt =====
-- A CREDIT frame of internal/protocol/handler_batch.go that internal/protocol/client_control.go does not
-- take.
use mbta_go.Base.{List, [], ◌∷◌, nat_eq}
use mbta_go.Batches.{Control, abort_frame, Outcome, result_frame, credit_frame, outcome_durable}
use mbta_go.Client.Control.{Receiver, handle_result, handle_credit, fatal_teardown}

abbrev pub durable_outcome : Outcome
durable_outcome = record { outcome_level = outcome_durable; outcome_code = 0 }

-- The client's control loop on what the server sends it here; an ABORT ends the loop.
unfoldable pub receive_all : {D : Type 0} → List Control → Receiver D → Receiver D
receive_all [] c = c
receive_all (result_frame r ∷ fs) c = receive_all fs (handle_result r c)
receive_all (credit_frame batches bytes ∷ fs) c = receive_all fs (handle_credit batches bytes c)
receive_all (abort_frame code ∷ fs) c = fatal_teardown c
