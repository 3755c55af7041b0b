-- ===== src/Lib.antt =====
-- mbta-go, the MBTA r3 protocol library: what its protocol core does, as functions on explicit state,
-- and theorems about them.
--
-- A client opens a session with HELLO and HELLO_ACK, seals batches into envelopes, sends each in a frame
-- under the next seq and pays for it from a ledger of credit; the server reads frames, admits each seq
-- once, opens and checks the batch, hands it to a sink, answers with RESULT and returns credit. The
-- modules follow these parts:
--
--   Base, Codes      shared helpers; the error codes and the results of fallible functions
--                    (core/errors.go)
--   Session          the client's and the server's state machines (core/session.go)
--   Credit.Ledger    the client's ledger, CreditLedger (core/credit.go): consume, on_credit, terminal,
--                    rollback, reap_expired, reset
--   Credit.Manager   the server's CreditManager (core/credit.go): Admission has Admit, Consume,
--                    Backfill and Accept, Settling has Settle, Release, ForceSettle, TakeRecovered and
--                    advanceLowLocked; Conservation, Drift and Balance follow the credit through a history of
--                    calls, Dedup, Prefix and Interleaving the seqs that were admitted
--   Frame            frames on the wire (core/frame.go): Write, Read, readVarint
--   Wire             the messages of corepb that the parts use, as records
--   Policy           the server's policy and the negotiation (core/policy.go)
--   Validation       identifiers, text, trace contexts (core/validation.go)
--   Handshake        the checks of HELLO and HELLO_ACK (core/message.go), and the acknowledgement that
--                    internal/protocol/handler.go builds from the policy
--   Signal           the signal batch and its checks (core/signal.go)
--   Codec            the registry of signal codecs (core/codec.go), and protoCodec (core/codec_proto.go):
--                    Values has the dynamic values, Batch the batches; Canonical, RoundTrip, Validity
--                    and Dispatch are about what comes back
--   Keys             transcripts, the key schedule and nonces (core/keyschedule.go), lengths and
--                    NewAEAD (core/cipher.go), VerifyTokenProof (core/auth.go)
--   Tokens           StaticTokenValidator, the table of tokens and agents (core/auth.go)
--   Envelope         SealEnvelope and OpenEnvelope with the compressions (core/envelope.go)
--   Deduper          the window of correlations, CorrelationDeduper (core/deduper.go)
--   Batches          BATCH and DGRAM frames at the server (internal/protocol/handler_batch.go and
--                    handler_sink.go): Pipeline has decodeAndValidate and makeEvent, Sink the queue,
--                    enqueueSink, callHandler and makeDone, Handling has processBatch, deliver and
--                    rejectAtCapacity, Reaper has releaseStuck and flushPending, Datagram the token
--                    bucket and processDatagram; the other modules are about these
--   Commands         the registry of agents and waiting commands
--                    (internal/protocol/command_registry.go)
--   Connection       the control side of the server (internal/protocol/handler.go): the epochs, in
--                    Greeting handleHello step by step, in Control the control loop; and the ephemeral
--                    keys of core/keyschedule.go
--   Client           the client (internal/protocol/client.go and client_control.go): Handshake, in
--                    Sending SendBatch and SendDatagram, in Control what it does with RESULT, CREDIT,
--                    DICT and COMMAND, the reaper's tick and the teardown
--   Tests            runs at concrete inputs, and the theorems at inputs that meet their hypotheses
--
-- State is passed explicitly: an operation takes the state and answers the new one with its result. A
-- mutex makes an operation one step, so an interleaving of goroutines is a sequence of calls, and a
-- grant that a goroutine holds is a value that a later call may bring back. An int64 or uint64 is its
-- bit pattern below 2 ^ 64, with the wrap-around written out; a string is its list of bytes; a map is
-- an association list, whose order stands for the order of iteration that Go leaves open.
--
-- A grant that the sink's `done` callback shares with the handler is a place in the handler's table of
-- leases. What is sent is a list, the oldest first; a message counts as sent when it is handed to the
-- transport, and where the source only logs that this failed the state is the same either way.
--
-- Loops are structural recursion, with three exceptions on fuel. `advance`, the loop of
-- advanceLowLocked, has one round for each entry of the map of accepted seqs, which is enough because
-- every round takes an entry out; `release_loop`, the loop of releaseStuck, has one for each batch in
-- flight, for the same reason. `read_varint_loop` has the ten rounds of the source's own bound.
--
-- Parameters stand for code that is not in the repository: protowire's varints in Frame, hashes, HMAC,
-- HKDF, AEAD and the deterministic protobuf encoding in Keys, the compressors and the dictionary codec
-- in Envelope, the values that the checks of Signal do not look into, the curves, protobuf, the token
-- validator of a connection and the transport in Connection and Client, the sink and the rounding of the token bucket's
-- refill in Batches, the Protobuf wire format and decimal text in Codec. Batches and Client take the
-- codec of signal batches, and the test of a host and port, as parameters too. A theorem that relies on them names what it relies on as a hypothesis, and the
-- tests give functions for which it holds.
--
-- Not modelled: the transports and their goroutines, timers and deadlines, log texts and the messages
-- of errors, metrics, the CBOR codec, which only calls a library, the data loop's slots, the
-- drain at the end of a connection, and the client's redirection.
pub mod Base
pub mod Batches
pub mod Codes
pub mod Client
pub mod Codec
pub mod Connection
pub mod Commands
pub mod Session
pub mod Credit
pub mod Tests
pub mod Frame
pub mod Wire
pub mod Policy
pub mod Validation
pub mod Handshake
pub mod Keys
pub mod Envelope
pub mod Tokens
pub mod Signal
pub mod Deduper
