-- ===== src/Credit/Manager/Settling.antt =====
-- The outcome of a grant: Settle and ForceSettle of core/credit.go, the ring of outcomes, and the
-- credit that is recovered.
use mbta_go.Base.{ℕ, suc, zero, List, [], ◌∷◌, ◌++◌, Bool, true, false, ◌&&◌}
use mbta_go.Base.{not, if◌then◌else◌, ltb, add64, slt, sle, Option, none, some}
use mbta_go.Base.{Map, lookup, insert, delete, nat_eq, length}
use mbta_go.Credit.Manager.State.{
  CreditManager, SettleGrant, InflightSlot, TerminalEntry, WireResult,
}
use mbta_go.Credit.Manager.Admission.{is_covered, flag, correlation_of}

-- The loop of advanceLowLocked. Every round takes an entry out of the map, so its length is fuel
-- enough; `m.low++` wraps.
unfoldable pub advance : ℕ → ℕ → Map ℕ Bool → ℕ × Map ℕ Bool
advance zero low accepted = (low, accepted)
advance (suc fuel) low accepted =
    let rest = advance fuel (add64 low 1) (delete low accepted) in
    if flag low accepted then rest else (low, accepted)

unfoldable pub advance_low : CreditManager → CreditManager
advance_low m =
    let r = advance (length m.accepted) m.low m.accepted in record m { low = r.0; accepted = r.1 }

-- The front of the ring goes, with its entry, when the ring is over its capacity.
unfoldable pub evict : ℕ → Map ℕ TerminalEntry → List ℕ → Map ℕ TerminalEntry × List ℕ
evict cap terminal [] = (terminal, [])
evict cap terminal (front ∷ rest) =
    if ltb cap (length (front ∷ rest))
    then (delete front terminal, rest)
    else (terminal, front ∷ rest)

unfoldable pub push_ring : CreditManager → ℕ → Map ℕ TerminalEntry × List ℕ
unfolding evict
push_ring m seq = elim (lookup seq m.terminal) [
  | some e ↦ (m.terminal, m.ring_ord)
  | none ↦ evict m.ring_cap m.terminal (m.ring_ord ++ (seq ∷ []))
]

abbrev pub registered_bytes : Option InflightSlot → ℕ → ℕ
registered_bytes none frame_bytes = frame_bytes
registered_bytes (some s) frame_bytes = if slt 0 s.bytes then s.bytes else frame_bytes

abbrev pub at_least_zero : ℕ → ℕ
at_least_zero n = if slt n 0 then 0 else n

-- What Settle does to the manager once it is not stale: the slot goes, the seq counts as accepted, the
-- outcome enters the ring, and the credit is recovered; then `low` advances.
abbrev pub recorded : CreditManager → ℕ → TerminalEntry → ℕ → CreditManager
recorded m seq e bytes =
    let (terminal, ring) = push_ring m seq in
    record m {
      seen = delete seq m.seen;
      accepted = insert seq true m.accepted;
      terminal = insert seq e terminal;
      ring_ord = ring;
      recovered_b = add64 m.recovered_b 1;
      recovered_y = add64 m.recovered_y bytes;
    }

unfoldable pub settled : CreditManager → ℕ → TerminalEntry → ℕ → CreditManager
settled m seq e bytes = advance_low (recorded m seq e bytes)

abbrev pub has {ℓ} : {A : Type ℓ} → Option A → Bool
has none = false
has (some a) = true

-- Settle. A nil `send` drops what is returned.
unfoldable pub settle :
    CreditManager → SettleGrant → ℕ → ℕ → ℕ → ℕ → CreditManager × SettleGrant × List WireResult
settle m g level code retry_ms frame_bytes =
    if g.done
    then (m, g, [])
    else let slot = lookup g.seq m.seen in
      let bytes = at_least_zero (registered_bytes slot frame_bytes) in
      let g' = record g { done = true } in
      if has (lookup g.seq m.terminal) && not (has slot) then (m, g', []) else (
        settled m g.seq (record { level = level; code = code }) bytes,
        g',
        record {
          ref_seq = g.seq;
          level = level;
          code = code;
          retry_hint_ms = retry_ms;
          correlation = correlation_of slot;
        }
            ∷ [],
      )

-- The one-shot grant that ForceSettle makes for itself.
abbrev pub reaper_grant : ℕ → SettleGrant
reaper_grant seq = record { seq = seq; consumed = true; done = false; accepted = false }

-- ForceSettle on a seq that is not in flight only repeats a stored outcome.
unfoldable pub replay : CreditManager → ℕ → List WireResult
replay m seq =
    if is_covered m seq
    then elim (lookup seq m.terminal) [
      | some e ↦
          record {
            ref_seq = seq;
            level = e.level;
            code = e.code;
            retry_hint_ms = 0;
            correlation = [];
          }
          ∷ []
      | none ↦ []
    ]
    else []

unfoldable pub force_settle : CreditManager → ℕ → ℕ → ℕ → ℕ → ℕ → CreditManager × List WireResult
unfolding replay
force_settle m seq level code retry_ms frame_bytes = elim (lookup seq m.seen) [
  | none ↦ (m, replay m seq)
  | some s ↦
      let r =
        settle m (reaper_grant seq) level code retry_ms (registered_bytes (some s) frame_bytes) in
      (r.0, r.2)
]

unfoldable pub take_recovered : CreditManager → CreditManager × ℕ × ℕ
take_recovered m = if sle m.recovered_b 0 && sle m.recovered_y 0 then (m, 0, 0) else (
  record m {
    recovered_b = 0;
    recovered_y = 0;
    outstanding_b = add64 m.outstanding_b m.recovered_b;
    outstanding_y = add64 m.outstanding_y m.recovered_y;
  },
  m.recovered_b,
  m.recovered_y,
)

unfoldable pub pending : CreditManager → ℕ
pending m = length m.seen

abbrev better : ℕ → Option (ℕ × InflightSlot) → Bool
better seq none = true
better seq (some (best, s)) = ltb seq best

-- One pass over the map: an earlier find gives way to a smaller seq.
unfoldable pub oldest_from :
    ℕ → Option (ℕ × InflightSlot) → Map ℕ InflightSlot → Option (ℕ × InflightSlot)
oldest_from cutoff best [] = best
oldest_from cutoff best ((seq, s) ∷ m) =
    oldest_from cutoff (if ltb s.added_at cutoff && better seq best then some (seq, s) else best) m

unfoldable pub oldest_before : CreditManager → ℕ → Option (ℕ × InflightSlot)
unfolding oldest_from
oldest_before m cutoff = oldest_from cutoff none m.seen
