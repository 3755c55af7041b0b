-- ===== src/Credit/Balance.antt =====
-- The balance of credit over whole runs of core/credit.go.
use mbta_go.Base.{ℕ, ◌+◌, ◌%◌, ◌^◌, ◌<◌, ◌≡◌, refl, true, false}
use mbta_go.Base.{lookup, nat_eq, arith, none, some, ◌⊎◌, inl, inr, Bytes, IsNonneg, [], ◌∷◌}
use mbta_go.Base.{Bool-cases, Unique, sum_by, sum_by-delete, delete_absent}
use mbta_go.Credit.Manager.{
  CreditManager, SettleGrant, TerminalEntry, InflightSlot, new_credit_manager, admit, settle,
  settled,
}
use mbta_go.Credit.Manager.{
  consume, backfill, release, take_recovered, force_settle, at_least_zero, registered_bytes,
  advance_low, reaper_grant,
}
use mbta_go.Credit.Dedup.{settle_live, settle_done}
use mbta_go.Credit.Drift.{
  Drift, no_drift, both, IsBalanced, IsConserved-IsBalanced, IsBalanced-both, settle_late,
  settle_uncharged, release_charged, consume_gone,
}
use mbta_go.Credit.Conservation.{
  IsConserved, holds, slot_bytes, total_b, total_y, admit-IsConserved, consume-IsConserved,
  backfill-IsConserved, settled-IsConserved, release-IsConserved, take_recovered-IsConserved,
}

-- A slot in flight whose frame length is entered.
abbrev pub IsCharged : CreditManager → ℕ → InflightSlot → Type 0
IsCharged m seq s = (lookup seq m.seen ≡ some s) × (0 < s.bytes) × IsNonneg s.bytes

-- A slot in flight that was not charged yet.
abbrev pub IsUncharged : CreditManager → ℕ → InflightSlot → Type 0
IsUncharged m seq s = (lookup seq m.seen ≡ some s) × (s.bytes ≡ 0)

pub settle-IsConserved :
    (m : CreditManager) (g : SettleGrant) (level code retry_ms frame_bytes : ℕ) (s : InflightSlot)
    → Unique m.seen
    → IsCharged m g.seq s
    → IsConserved m (settle m g level code retry_ms frame_bytes).0
settle-IsConserved m g level code retry_ms frame_bytes s u (e, p, q) = elim (Bool-cases g.done) [
  | inl d ↦
      rw (settle_done m g level code retry_ms frame_bytes d)
        (record { batches = refl; bytes = refl; keys = u })
  | inr d ↦
      rw (settle_live m g level code retry_ms frame_bytes s d e, own)
        (settled-IsConserved m g.seq (record { level = level; code = code }) s u e p q)
]
  where
    own : at_least_zero (registered_bytes (some s) frame_bytes) ≡ s.bytes
    own = ground arith

force_settle-IsConserved :
    (m : CreditManager) (seq level code retry_ms frame_bytes : ℕ) (s : InflightSlot)
    → Unique m.seen
    → IsCharged m seq s
    → IsConserved m (force_settle m seq level code retry_ms frame_bytes).0
unfolding force_settle
force_settle-IsConserved m seq level code retry_ms frame_bytes s u c =
    rw (c.0, force_settle) (settle-IsConserved m (reaper_grant seq) level code retry_ms _ s u c)

-- One call of the handler. A slot is charged once, with a frame of at least one byte. Credit moves
-- without a balance where the code loses it, or gives it twice: a charged slot is released, a sink reports
-- after its outcome has left the ring, or the reaper comes between Admit and Consume.
pub data Call (m : CreditManager) : CreditManager → Type 0 where
  admits : {n : CreditManager} (seq now : ℕ) → n ≡ (admit m seq now).0 → Call m n
  consumes :
      {n : CreditManager} (g : SettleGrant) (frame_bytes : ℕ) (s : InflightSlot)
      → n ≡ (consume m g frame_bytes).0
      → IsUncharged m g.seq s
      → 0 < frame_bytes
      → IsNonneg frame_bytes
      → Call m n
  consumes_gone :
      {n : CreditManager} (g : SettleGrant) (frame_bytes : ℕ)
      → n ≡ (consume m g frame_bytes).0
      → lookup g.seq m.seen ≡ none
      → (consume m g frame_bytes).2 ≡ none
      → IsNonneg frame_bytes
      → Call m n
  backfills : {n : CreditManager} (g : SettleGrant) (c : Bytes) → n ≡ backfill m g c → Call m n
  settles :
      {n : CreditManager} (g : SettleGrant) (level code retry_ms frame_bytes : ℕ) (s : InflightSlot)
      → n ≡ (settle m g level code retry_ms frame_bytes).0
      → IsCharged m g.seq s
      → Call m n
  settles_again :
      {n : CreditManager} (g : SettleGrant) (level code retry_ms frame_bytes : ℕ)
      → n ≡ (settle m g level code retry_ms frame_bytes).0
      → (g.done ≡ true)
        ⊎ ((e : TerminalEntry) × (lookup g.seq m.terminal ≡ some e) × (lookup g.seq m.seen ≡ none))
      → Call m n
  settles_late :
      {n : CreditManager} (g : SettleGrant) (level code retry_ms frame_bytes : ℕ)
      → n ≡ (settle m g level code retry_ms frame_bytes).0
      → g.done ≡ false
      → lookup g.seq m.seen ≡ none
      → lookup g.seq m.terminal ≡ none
      → Call m n
  forces :
      {n : CreditManager} (seq level code retry_ms frame_bytes : ℕ) (s : InflightSlot)
      → n ≡ (force_settle m seq level code retry_ms frame_bytes).0
      → IsCharged m seq s
      → Call m n
  forces_uncharged :
      {n : CreditManager} (seq level code retry_ms frame_bytes : ℕ) (s : InflightSlot)
      → n ≡ (force_settle m seq level code retry_ms frame_bytes).0
      → IsUncharged m seq s
      → Call m n
  releases :
      {n : CreditManager} (g : SettleGrant) (s : InflightSlot)
      → n ≡ (release m g).0
      → IsUncharged m g.seq s
      → Call m n
  releases_charged :
      {n : CreditManager} (g : SettleGrant) (s : InflightSlot)
      → n ≡ (release m g).0
      → g.done ≡ false
      → IsCharged m g.seq s
      → Call m n
  takes : {n : CreditManager} → n ≡ (take_recovered m).0 → Call m n

-- What a call loses or gives too much.
unfoldable pub drift : {m n : CreditManager} → Call m n → Drift
drift (consumes_gone g frame_bytes e s t p) = record {
  lost_b = 1;
  lost_y = frame_bytes;
  gained_b = 0;
  gained_y = 0;
}
drift (settles_late g l c r frame_bytes e d s t) = record {
  lost_b = 0;
  lost_y = 0;
  gained_b = 1;
  gained_y = at_least_zero frame_bytes;
}
drift (forces_uncharged seq l c r frame_bytes s e h) = record {
  lost_b = 0;
  lost_y = 0;
  gained_b = 1;
  gained_y = at_least_zero frame_bytes;
}
drift (releases_charged g s e d c) = record {
  lost_b = 1;
  lost_y = s.bytes;
  gained_b = 0;
  gained_y = 0;
}
drift _ = no_drift

pub data History (m : CreditManager) : CreditManager → Type 0 where
  here : History m m
  next : {n o : CreditManager} → History m n → Call n o → History m o

settle_stale :
    (m : CreditManager) (g : SettleGrant) (level code retry_ms frame_bytes : ℕ)
    → (g.done ≡ true)
      ⊎ ((e : TerminalEntry) × (lookup g.seq m.terminal ≡ some e) × (lookup g.seq m.seen ≡ none))
    → (settle m g level code retry_ms frame_bytes).0 ≡ m
unfolding settle
settle_stale m g level code retry_ms frame_bytes h = ground arith

force_settle-uncharged :
    (m : CreditManager) (seq level code retry_ms frame_bytes : ℕ) (s : InflightSlot)
    → Unique m.seen
    → IsUncharged m seq s
    → IsBalanced
        record { lost_b = 0; lost_y = 0; gained_b = 1; gained_y = at_least_zero frame_bytes }
        m
        (force_settle m seq level code retry_ms frame_bytes).0
unfolding force_settle
force_settle-uncharged m seq level code retry_ms frame_bytes s u (e, z) =
    rw (e, force_settle, z)
      (settle_uncharged m (reaper_grant seq) level code retry_ms frame_bytes s u refl e z)

Call-IsBalanced : {m n : CreditManager} → Unique m.seen → (c : Call m n) → IsBalanced (drift c) m n
unfolding drift
Call-IsBalanced {m} u (admits seq now e) =
    rw e (IsConserved-IsBalanced m _ (admit-IsConserved m seq now u))
Call-IsBalanced {m} u (consumes g b s e c p q) =
    rw e (IsConserved-IsBalanced m _ (consume-IsConserved m g b s u c.0 c.1 p q))
Call-IsBalanced {m} u (consumes_gone g b e s t p) = rw e (consume_gone m g b u s t p)
Call-IsBalanced {m} u (backfills g c e) =
    rw e (IsConserved-IsBalanced m _ (backfill-IsConserved m g c u))
Call-IsBalanced {m} u (settles g l c r f s e h) =
    rw e (IsConserved-IsBalanced m _ (settle-IsConserved m g l c r f s u h))
Call-IsBalanced {m} u (settles_again g l c r f e h) =
    rw (e, settle_stale m g l c r f h)
      (IsConserved-IsBalanced m m (record { batches = refl; bytes = refl; keys = u }))
Call-IsBalanced {m} u (settles_late g l c r f e d s t) = rw e (settle_late m g l c r f u d s t)
Call-IsBalanced {m} u (forces seq l c r f s e h) =
    rw e (IsConserved-IsBalanced m _ (force_settle-IsConserved m seq l c r f s u h))
Call-IsBalanced {m} u (forces_uncharged seq l c r f s e h) =
    rw e (force_settle-uncharged m seq l c r f s u h)
Call-IsBalanced {m} u (releases g s e c) =
    rw e (IsConserved-IsBalanced m _ (release-IsConserved m g s u c.0 c.1))
Call-IsBalanced {m} u (releases_charged g s e d (i, p, q)) = rw e (release_charged m g s u d i p q)
Call-IsBalanced {m} u (takes e) = rw e (IsConserved-IsBalanced m _ (take_recovered-IsConserved m u))

-- The drift of a whole history.
unfoldable pub total_drift : {m n : CreditManager} → History m n → Drift
unfolding drift
total_drift here = no_drift
total_drift (next h c) = both (total_drift h) (drift c)

History-IsBalanced :
    {m n : CreditManager} → Unique m.seen → (h : History m n) → IsBalanced (total_drift h) m n
unfolding total_drift
History-IsBalanced {m} u here =
    IsConserved-IsBalanced m m (record { batches = refl; bytes = refl; keys = u })
History-IsBalanced {m} u (next h c) =
    let before = History-IsBalanced u h in
    IsBalanced-both m _ _ (total_drift h) (drift c) before (Call-IsBalanced before.keys c)

-- Over any history of the handler's calls on a new manager, in which a slot is charged at most once and
-- with 1 to 2 ^ 63 - 1 bytes, the credit outstanding, recovered and held by batches in flight, together
-- with what was lost, is the initial credit together with what was given twice, in both dimensions and as
-- int64 values. Lost is one batch and its bytes for each release of a charged slot and for each Consume
-- that finds its slot gone; given twice is one batch and the bytes named in the call for each report after
-- the outcome has left the ring and for each reaper's settlement of a slot that is not charged yet. Every
-- other call keeps the sum.
pub credit_conserved :
    (initial_b initial_y ring_cap : ℕ) (n : CreditManager)
    (h : History (new_credit_manager initial_b initial_y ring_cap) n)
    → ((total_b n + (total_drift h).lost_b) % 2 ^ 64
        ≡ (initial_b + (total_drift h).gained_b) % 2 ^ 64)
      × ((total_y n + (total_drift h).lost_y) % 2 ^ 64
          ≡ (initial_y + (total_drift h).gained_y) % 2 ^ 64)
unfolding new_credit_manager sum_by
credit_conserved initial_b initial_y ring_cap n h =
    let c = History-IsBalanced tt h in (omega (arith, c.batches), omega (arith, c.bytes))

-- Where it fails: a grant that is not spent, whose seq the reaper has settled and whose outcome has
-- left the ring since, settles once more. It sends a second RESULT, and one batch of credit comes up
-- from nothing.
pub late_settle_overpays :
    (m : CreditManager) (g : SettleGrant) (level code retry_ms : ℕ)
    → g.done ≡ false
    → lookup g.seq m.seen ≡ none
    → lookup g.seq m.terminal ≡ none
    → let (m', g', results) = settle m g level code retry_ms 0 in
      (total_b m' ≡ (total_b m + 1) % 2 ^ 64)
      × (total_y m' ≡ total_y m)
      × (results
          ≡ record {
            ref_seq = g.seq;
            level = level;
            code = code;
            retry_hint_ms = retry_ms;
            correlation = [];
          }
            ∷ [])
unfolding settle settled advance_low
late_settle_overpays m g level code retry_ms d s t = ground (arith, delete_absent g.seq m.seen)

-- And where it is lost: releasing a grant that was charged gives the seq back and keeps its credit, one
-- batch and the bytes of its frame.
pub release_loses :
    (m : CreditManager) (g : SettleGrant) (s : InflightSlot)
    → Unique m.seen
    → g.done ≡ false
    → IsCharged m g.seq s
    → let m' = (release m g).0 in
      ((total_b m' + 1) % 2 ^ 64 ≡ total_b m) × ((total_y m' + s.bytes) % 2 ^ 64 ≡ total_y m)
unfolding release
release_loses m g s u d c =
    ground (arith, sum_by-delete holds g.seq s m.seen u, sum_by-delete slot_bytes g.seq s m.seen u)
