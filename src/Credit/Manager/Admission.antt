-- ===== src/Credit/Manager/Admission.antt =====
-- The path of a grant up to its outcome: Admit, Consume, Backfill, Accept and Release of
-- core/credit.go.
use mbta_go.Base.{ℕ, List, [], ◌∷◌, Bool, true, false, ◌&&◌, ◌||◌}
use mbta_go.Base.{not, if◌then◌else◌, ltb, eqb, sub64, slt, Bytes, Option, none, some}
use mbta_go.Base.{Map, lookup, insert, delete, nat_eq}
use mbta_go.Codes.{ErrCode, internal, window_exceeded}
use mbta_go.Credit.Manager.State.{
  CreditManager, SettleGrant, InflightSlot, WireResult, AdmitResult, accept, duplicate,
  terminal_hit, below_unknown, violation, decided, level_accepted,
}

-- A map of booleans answers false for a key that is not there.
abbrev pub flag : ℕ → Map ℕ Bool → Bool
flag k m = elim (lookup k m) [ none ↦ false | some b ↦ b ]

abbrev pub is_covered : CreditManager → ℕ → Bool
is_covered m seq = flag seq m.accepted || ltb seq m.low

abbrev pub fresh_grant : ℕ → SettleGrant
fresh_grant seq = record { seq = seq; consumed = false; done = false; accepted = false }

unfoldable pub admit_covered : CreditManager → ℕ → AdmitResult
admit_covered m seq = elim (lookup seq m.terminal) [
  | some e ↦ (let r : AdmitResult = decided terminal_hit in record r { terminal = e })
  | none ↦ decided below_unknown
]

unfoldable pub admit_unseen : CreditManager → ℕ → ℕ → CreditManager × AdmitResult
unfolding admit_covered
admit_unseen m seq now = if is_covered m seq then (m, admit_covered m seq) else (
  record m {
    seen = insert seq (record { seq = seq; bytes = 0; correlation = []; added_at = now }) m.seen;
  },
  let r : AdmitResult = decided accept in record r { grant = some (fresh_grant seq) },
)

-- Admit, at time `now`.
unfoldable pub admit : CreditManager → ℕ → ℕ → CreditManager × AdmitResult
unfolding admit_unseen
admit m seq now = if eqb seq 0 then (m, decided violation) else elim (lookup seq m.seen) [
  | some s ↦ (m, let r : AdmitResult = decided duplicate in record r { dup_slot = s })
  | none ↦ admit_unseen m seq now
]

abbrev pub release_locked : CreditManager → ℕ → CreditManager
release_locked m seq = record m { seen = delete seq m.seen }

abbrev set_bytes : ℕ → ℕ → Map ℕ InflightSlot → Map ℕ InflightSlot
set_bytes seq bytes seen = elim (lookup seq seen) [
  | some s ↦ insert seq (record s { bytes = bytes }) seen
  | none ↦ seen
]

-- Consume: the error, if any, and what is left of the manager and the grant.
unfoldable pub consume :
    CreditManager → SettleGrant → ℕ → CreditManager × SettleGrant × Option ErrCode
consume m g frame_bytes =
    if g.done
    then (m, g, some internal)
    else if slt m.outstanding_b 1 || slt m.outstanding_y frame_bytes
    then (release_locked m g.seq, record g { done = true }, some window_exceeded)
    else (
      record m {
        outstanding_b = sub64 m.outstanding_b 1;
        outstanding_y = sub64 m.outstanding_y frame_bytes;
        seen = set_bytes g.seq frame_bytes m.seen;
      },
      record g { consumed = true },
      none,
    )

unfoldable pub backfill : CreditManager → SettleGrant → Bytes → CreditManager
backfill m g correlation = elim (lookup g.seq m.seen) [
  | some s ↦ record m { seen = insert g.seq (record s { correlation = correlation }) m.seen }
  | none ↦ m
]

abbrev pub correlation_of : Option InflightSlot → Bytes
correlation_of none = []
correlation_of (some s) = s.correlation

-- Accept. `has_send` is `send != nil`.
unfoldable pub accept_grant : CreditManager → SettleGrant → Bool → SettleGrant × List WireResult
accept_grant m g has_send = if not has_send then (g, []) else (
  record g { accepted = true },
  if not g.accepted && not g.done
      then record {
        ref_seq = g.seq;
        level = level_accepted;
        code = 0;
        retry_hint_ms = 0;
        correlation = correlation_of (lookup g.seq m.seen);
      }
        ∷ []
      else [],
)

unfoldable pub release : CreditManager → SettleGrant → CreditManager × SettleGrant
release m g = if g.done then (m, g) else (release_locked m g.seq, record g { done = true })
