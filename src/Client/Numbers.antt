-- ===== src/Client/Numbers.antt =====
-- The seqs under which internal/protocol/client.go seals.
use mbta_go.Base.{ℕ, ◌<◌, ◌≡◌, List, [], ◌∷◌, Bool, ◌&&◌, if◌then◌else◌, add64}
use mbta_go.Base.{Bytes, Option, none, some, contains, bytes_eq}
use mbta_go.Codes.{Result, ok, err, local_batch}
use mbta_go.Wire.{TraceContext}
use mbta_go.Policy.{cap_datagram}
use mbta_go.Batches.{type_batch, type_dgram}
use mbta_go.Client.{Client}
use mbta_go.Client.Sending.{Sender, encode_and_seal, send_batch, send_datagram}

-- A call of SendBatch, or of SendDatagram if `unreliable`.
pub record Send (S : Type 0) : Type 0 where
  pub unreliable : Bool
  pub batch : Option S
  pub trace : Option TraceContext
  pub now : ℕ
  pub tick : ℕ
  pub deadline : ℕ

-- The seqs that a row of calls answers.
abbrev seqs_of : Result ℕ → List ℕ → List ℕ
seqs_of (err e) rest = rest
seqs_of (ok seq) rest = seq ∷ rest

module _ {D S : Type 0} (x : Sender D S) where
  unfoldable pub send_one : Send S → Client D → Client D × Result ℕ
  send_one c s =
      if c.unreliable
      then send_datagram x c.batch c.trace c.now c.tick c.deadline s
      else send_batch x c.batch c.trace c.now c.tick c.deadline s

  unfoldable pub send_all : List (Send S) → Client D → List ℕ
  send_all [] s = []
  send_all (c ∷ cs) s = let (s', r) = send_one c s in seqs_of r (send_all cs s')

  -- The seq of the envelope that encodeAndSeal has sealed, if it did.
  unfoldable pub sealed_seq : Result (Bytes × ℕ) → Result ℕ
  sealed_seq (err e) = err e
  sealed_seq (ok (env, seq)) = ok seq

  -- The type of the frame that a call writes.
  unfoldable pub frame_type_of : Send S → Client D → ℕ
  frame_type_of c s =
      if c.unreliable && (x.supports_datagram && contains s.negotiated cap_datagram)
      then type_dgram
      else type_batch

  unfoldable pub sealed_batch : ℕ → Option S → Option TraceContext → ℕ → Client D → Result ℕ
  sealed_batch frame_type none trace now s = err local_batch
  sealed_batch frame_type (some sb) trace now s =
      sealed_seq (encode_and_seal x sb trace frame_type now s).1

  unfoldable pub sealed_one : Send S → Client D → Result ℕ
  sealed_one c s = sealed_batch (frame_type_of c s) c.batch c.trace c.now s

  -- The seqs of all envelopes that a row of calls seals, also of those that are not sent in the end.
  unfoldable pub sealed_all : List (Send S) → Client D → List ℕ
  sealed_all [] s = []
  sealed_all (c ∷ cs) s = seqs_of (sealed_one c s) (sealed_all cs (send_one c s).0)

  -- A call takes no seq and answers none, or takes the next one and answers no other.
  data IsNumbered (s s' : Client D) : Result ℕ → Type 0 where
    unmoved :
        {r : Result ℕ} → s'.last_seq ≡ s.last_seq → ((q : ℕ) → r ≡ ok q → ⊥) → IsNumbered s s' r
    moved :
        {r : Result ℕ}
        → s'.last_seq ≡ add64 s.last_seq 1
        → ((q : ℕ) → r ≡ ok q → q ≡ s'.last_seq)
        → IsNumbered s s' r

-- Each number is above the one before it.
abbrev pub Ascending : ℕ → List ℕ → Type 0
Ascending last [] = Unit {0}
Ascending last (q ∷ qs) = (last < q) × Ascending q qs
