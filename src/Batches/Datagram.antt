-- ===== src/Batches/Datagram.antt =====
-- DGRAM frames of internal/protocol/handler_batch.go: the token bucket and the delivery without an
-- answer. The bucket's refill is a product of floating-point numbers and a parameter.
use mbta_go.Base.{
  ℕ, List, [], ◌∷◌, ◌++◌, ◌-◌, ◌/◌, Bool, true, false, if◌then◌else◌, sle, slt, add64, sub64, Bytes,
  Option, none, some, length,
}
use mbta_go.Codes.{ok, err}
use mbta_go.Batches.{Server, BatchEvent, type_dgram}
use mbta_go.Batches.Pipeline.{decode_and_validate, make_event}

-- dgramRate, dgramAvail and dgramLast; the zero time is none.
pub record Bucket : Type 0 where
  pub rate : ℕ
  pub avail : ℕ
  pub last : Option ℕ

abbrev pub new_bucket : ℕ → Bucket
new_bucket rate = record { rate = rate; avail = 0; last = none }

-- `int64(elapsed * float64(rate))` for an elapsed time in nanoseconds.
abbrev pub Refill : Type 0
Refill = ℕ → ℕ → ℕ

abbrev pub capped : ℕ → ℕ → ℕ
capped avail rate = if slt rate avail then rate else avail

-- The bucket at `now`, before anything is taken.
unfoldable pub refilled : Refill → ℕ → Bucket → Bucket
refilled refill now b = elim b.last [
  | none ↦ record b { last = some now; avail = b.rate }
  | some before ↦ record b {
    last = some now;
    avail = capped (add64 b.avail (refill (now - before) b.rate)) b.rate;
  }
]

unfoldable pub take_tokens : ℕ → Bucket → Bool × Bucket
take_tokens n b = if sle n b.avail then (true, record b { avail = sub64 b.avail n }) else (false, b)

-- dgramAllow.
unfoldable pub dgram_allow : Refill → ℕ → ℕ → Bucket → Bool × Bucket
dgram_allow refill n now b =
    if sle b.rate 0 then (true, b) else take_tokens n (refilled refill now b)

module _ {D S : Type 0} (srv : Server D S) where
  -- What processDatagram hands to the sink of a frame that the bucket lets through.
  unfoldable pub datagram_events : Bytes → ℕ → List (BatchEvent S)
  datagram_events payload now = elim (srv.decode_envelope payload) [
    | none ↦ []
    | some env ↦ elim (decode_and_validate srv env type_dgram (now / 1000000000)) [
      | err e ↦ []
      | ok (b, wire) ↦ elim srv.sink_handler [ none ↦ [] | some f ↦ make_event srv b wire now ∷ [] ]
    ]
  ]

  -- processDatagram: the bucket, and what has been handed to the sink.
  unfoldable pub process_datagram :
      Refill → Bytes → ℕ → Bucket × List (BatchEvent S) → Bucket × List (BatchEvent S)
  process_datagram refill payload now (b, handed) =
      let (allowed, b') = dgram_allow refill (length payload) now b in
      let events = datagram_events payload now in
      if allowed then (b', handed ++ events) else (b', handed)
