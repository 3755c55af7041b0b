-- ===== src/Credit/Dedup.antt =====
-- Deduplication by the manager of core/credit.go: a seq before and after it is settled.
use mbta_go.Base.{ℕ, ◌+◌, ◌^◌, ◌<◌, ◌≡◌, ◌≢◌, refl, ◌∙◌, true, false, ◌||◌}
use mbta_go.Base.{eqb, lookup, nat_eq, length, arith, none, some, [], ◌∷◌}
use mbta_go.Base.{length-insert, lookup-insert, lookup-insert_self, lookup-delete_self}
use mbta_go.Credit.Manager.{
  CreditManager, SettleGrant, TerminalEntry, InflightSlot, is_covered, admit, settle, settled,
}
use mbta_go.Credit.Manager.{accept, duplicate, terminal_hit, fresh_grant, advance_low}
use mbta_go.Credit.Manager.{force_settle, at_least_zero, registered_bytes}
use mbta_go.Credit.Prefix.{advance_low_exact}

-- An accepted seq is in flight: a second Admit of it finds the slot and answers duplicate, whatever
-- the time, and changes nothing.
pub admit-admit :
    (m : CreditManager) (seq now later : ℕ)
    → (admit m seq now).1.decision ≡ accept
    → let m' = (admit m seq now).0 in
      ((admit m' seq later).1.decision ≡ duplicate) × ((admit m' seq later).0 ≡ m')
unfolding admit
admit-admit m seq now later h = ground (
  arith,
  lookup-insert_self seq (record { seq = seq; bytes = 0; correlation = []; added_at = now }) m.seen,
)

-- Admit accepts exactly the seqs that are not 0, not in flight and not accepted before.
pub admit_iff :
    (m : CreditManager) (seq now : ℕ)
    → ((admit m seq now).1.decision ≡ accept
        → (seq ≢ 0) × (lookup seq m.seen ≡ none) × (is_covered m seq ≡ false))
      × ((seq ≢ 0)
          → (lookup seq m.seen ≡ none)
          → (is_covered m seq ≡ false)
          → (admit m seq now).1.grant ≡ some (fresh_grant seq))
unfolding admit
admit_iff m seq now = ground arith

pub is_covered-settled :
    (m : CreditManager) (seq bytes k : ℕ) (e : TerminalEntry)
    → m.low + length m.accepted + 1 < 2 ^ 64
    → is_covered (settled m seq e bytes) k ≡ (eqb seq k || is_covered m k)
unfolding settled
is_covered-settled m seq bytes k e h =
    (advance_low_exact _ (omega (arith, length-insert seq true m.accepted))).2 k
    ∙ ground (arith, lookup-insert seq k true m.accepted)

pub settled_seen :
    (m : CreditManager) (seq bytes : ℕ) (e : TerminalEntry)
    → lookup seq (settled m seq e bytes).seen ≡ none
unfolding settled advance_low
settled_seen m seq bytes e = lookup-delete_self seq m.seen

settled_terminal :
    (m : CreditManager) (seq bytes : ℕ) (e : TerminalEntry)
    → lookup seq (settled m seq e bytes).terminal ≡ some e
unfolding settled advance_low
settled_terminal m seq bytes e = lookup-insert_self seq e _

settled-Admit :
    (m : CreditManager) (seq bytes now : ℕ) (e : TerminalEntry)
    → seq ≢ 0
    → m.low + length m.accepted + 1 < 2 ^ 64
    → let m' = settled m seq e bytes in
      ((admit m' seq now).1.decision ≡ terminal_hit) × ((admit m' seq now).1.terminal ≡ e)
unfolding admit
settled-Admit m seq bytes now e h b = ground (
  arith,
  is_covered-settled m seq bytes seq e b,
  settled_seen m seq bytes e,
  settled_terminal m seq bytes e,
)

pub settle_live :
    (m : CreditManager) (g : SettleGrant) (level code retry_ms frame_bytes : ℕ) (s : InflightSlot)
    → g.done ≡ false
    → lookup g.seq m.seen ≡ some s
    → settle m g level code retry_ms frame_bytes ≡ (
      settled m g.seq
          (record { level = level; code = code })
          (at_least_zero (registered_bytes (some s) frame_bytes)),
      record g { done = true },
      record {
        ref_seq = g.seq;
        level = level;
        code = code;
        retry_hint_ms = retry_ms;
        correlation = s.correlation;
      }
          ∷ [],
    )
unfolding settle
settle_live m g level code retry_ms frame_bytes s d e = ground arith

pub settle_done :
    (m : CreditManager) (g : SettleGrant) (level code retry_ms frame_bytes : ℕ)
    → g.done ≡ true
    → settle m g level code retry_ms frame_bytes ≡ (m, g, [])
unfolding settle
settle_done m g level code retry_ms frame_bytes d = ground arith

-- What is left of a grant once its seq has the outcome `e`: Admit answers with that outcome, the grant
-- is spent, and a reaper's ForceSettle repeats the outcome and changes nothing.
abbrev pub IsFinal : CreditManager → SettleGrant → TerminalEntry → Type 0
IsFinal m g e =
    ((now : ℕ)
      → ((admit m g.seq now).1.decision ≡ terminal_hit) × ((admit m g.seq now).1.terminal ≡ e))
    × ((level code retry_ms frame_bytes : ℕ)
        → settle m g level code retry_ms frame_bytes ≡ (m, g, []))
    × ((level code retry_ms frame_bytes : ℕ)
        → force_settle m g.seq level code retry_ms frame_bytes ≡ (
          m,
          record {
            ref_seq = g.seq;
            level = e.level;
            code = e.code;
            retry_hint_ms = 0;
            correlation = [];
          }
              ∷ [],
        ))

force_settle-settled :
    (m : CreditManager) (seq bytes level code retry_ms frame_bytes : ℕ) (e : TerminalEntry)
    → m.low + length m.accepted + 1 < 2 ^ 64
    → force_settle (settled m seq e bytes) seq level code retry_ms frame_bytes ≡ (
      settled m seq e bytes,
      record { ref_seq = seq; level = e.level; code = e.code; retry_hint_ms = 0; correlation = [] }
          ∷ [],
    )
unfolding force_settle
force_settle-settled m seq bytes level code retry_ms frame_bytes e b = ground (
  arith,
  is_covered-settled m seq bytes seq e b,
  settled_seen m seq bytes e,
  settled_terminal m seq bytes e,
)

-- Settling an admitted seq sends exactly one RESULT, with the slot's correlation, and is final.
pub settle-IsFinal :
    (m : CreditManager) (g : SettleGrant) (level code retry_ms frame_bytes : ℕ) (s : InflightSlot)
    → g.done ≡ false
    → g.seq ≢ 0
    → lookup g.seq m.seen ≡ some s
    → m.low + length m.accepted + 1 < 2 ^ 64
    → let (m', g', results) = settle m g level code retry_ms frame_bytes in
      (results
        ≡ record {
          ref_seq = g.seq;
          level = level;
          code = code;
          retry_hint_ms = retry_ms;
          correlation = s.correlation;
        }
          ∷ [])
      × IsFinal m' g' (record { level = level; code = code })
settle-IsFinal m g level code retry_ms frame_bytes s d z e b =
    rw (settle_live m g level code retry_ms frame_bytes s d e) (
      refl,
      (
        λ now. settled-Admit m g.seq _ now _ z b,
        λ l c r f. settle_done _ _ l c r f refl,
        λ l c r f. force_settle-settled m g.seq _ l c r f _ b,
      ),
    )
