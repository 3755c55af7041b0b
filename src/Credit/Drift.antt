-- ===== src/Credit/Drift.antt =====
-- The calls of core/credit.go after which credit comes up or goes missing: by how much.
use mbta_go.Base.{ℕ, ◌+◌, ◌%◌, ◌^◌, ◌<◌, ◌≡◌, false, none, some, lookup, nat_eq, arith, IsNonneg}
use mbta_go.Base.{Unique, sum_by-delete, delete-Unique, delete_absent}
use mbta_go.Credit.Manager.{
  CreditManager, SettleGrant, InflightSlot, settle, settled, release, consume, advance_low,
  at_least_zero,
}
use mbta_go.Credit.Conservation.{IsConserved, holds, slot_bytes, total_b, total_y}

-- What goes missing and what comes up, in either dimension.
pub record Drift : Type 0 where
  pub lost_b : ℕ
  pub lost_y : ℕ
  pub gained_b : ℕ
  pub gained_y : ℕ

abbrev pub no_drift : Drift
no_drift = record { lost_b = 0; lost_y = 0; gained_b = 0; gained_y = 0 }

abbrev pub both : Drift → Drift → Drift
both d e = record {
  lost_b = d.lost_b + e.lost_b;
  lost_y = d.lost_y + e.lost_y;
  gained_b = d.gained_b + e.gained_b;
  gained_y = d.gained_y + e.gained_y;
}

-- From `m` to `n` the credit changes by the drift and no more.
pub record IsBalanced (d : Drift) (m n : CreditManager) : Type 0 where
  pub batches : (total_b n + d.lost_b) % 2 ^ 64 ≡ (total_b m + d.gained_b) % 2 ^ 64
  pub bytes : (total_y n + d.lost_y) % 2 ^ 64 ≡ (total_y m + d.gained_y) % 2 ^ 64
  pub keys : Unique n.seen

pub IsConserved-IsBalanced : (m n : CreditManager) → IsConserved m n → IsBalanced no_drift m n
IsConserved-IsBalanced m n c = record {
  batches = omega (arith, c.batches);
  bytes = omega (arith, c.bytes);
  keys = c.keys;
}

-- Sums of drifts, modulo a power of two.
add_drift :
    (x y z l g l' g' : ℕ)
    → (y + l) % 2 ^ 64 ≡ (x + g) % 2 ^ 64
    → (z + l') % 2 ^ 64 ≡ (y + g') % 2 ^ 64
    → (z + (l + l')) % 2 ^ 64 ≡ (x + (g + g')) % 2 ^ 64
add_drift x y z l g l' g' h k = omega (arith, h, k)

pub IsBalanced-both :
    (m n o : CreditManager) (d e : Drift)
    → IsBalanced d m n
    → IsBalanced e n o
    → IsBalanced (both d e) m o
IsBalanced-both m n o d e h k = record {
  batches = add_drift (total_b m) (total_b n) (total_b o) _ _ _ _ h.batches k.batches;
  bytes = add_drift (total_y m) (total_y n) (total_y o) _ _ _ _ h.bytes k.bytes;
  keys = k.keys;
}

-- A grant that is not spent, whose slot and outcome are gone.
pub settle_late :
    (m : CreditManager) (g : SettleGrant) (level code retry_ms frame_bytes : ℕ)
    → Unique m.seen
    → g.done ≡ false
    → lookup g.seq m.seen ≡ none
    → lookup g.seq m.terminal ≡ none
    → IsBalanced
        record { lost_b = 0; lost_y = 0; gained_b = 1; gained_y = at_least_zero frame_bytes }
        m
        (settle m g level code retry_ms frame_bytes).0
unfolding settle settled advance_low
settle_late m g level code retry_ms frame_bytes u d s t = ground (arith, delete_absent g.seq m.seen)

-- A slot that was not charged, settled by a reaper that overtook Consume.
pub settle_uncharged :
    (m : CreditManager) (g : SettleGrant) (level code retry_ms frame_bytes : ℕ) (s : InflightSlot)
    → Unique m.seen
    → g.done ≡ false
    → lookup g.seq m.seen ≡ some s
    → s.bytes ≡ 0
    → IsBalanced
        record { lost_b = 0; lost_y = 0; gained_b = 1; gained_y = at_least_zero frame_bytes }
        m
        (settle m g level code retry_ms frame_bytes).0
unfolding settle settled advance_low
settle_uncharged m g level code retry_ms frame_bytes s u d e z = ground (
  arith,
  sum_by-delete holds g.seq s m.seen u,
  sum_by-delete slot_bytes g.seq s m.seen u,
  delete-Unique g.seq m.seen u,
)

pub release_charged :
    (m : CreditManager) (g : SettleGrant) (s : InflightSlot)
    → Unique m.seen
    → g.done ≡ false
    → lookup g.seq m.seen ≡ some s
    → 0 < s.bytes
    → IsNonneg s.bytes
    → IsBalanced
        record { lost_b = 1; lost_y = s.bytes; gained_b = 0; gained_y = 0 }
        m
        (release m g).0
unfolding release
release_charged m g s u d e p q = ground (
  arith,
  sum_by-delete holds g.seq s m.seen u,
  sum_by-delete slot_bytes g.seq s m.seen u,
  delete-Unique g.seq m.seen u,
)

-- A Consume that was overtaken by the reaper charges no slot.
pub consume_gone :
    (m : CreditManager) (g : SettleGrant) (frame_bytes : ℕ)
    → Unique m.seen
    → lookup g.seq m.seen ≡ none
    → (consume m g frame_bytes).2 ≡ none
    → IsNonneg frame_bytes
    → IsBalanced
        record { lost_b = 1; lost_y = frame_bytes; gained_b = 0; gained_y = 0 }
        m
        (consume m g frame_bytes).0
unfolding consume
consume_gone m g frame_bytes u s e p = ground arith
