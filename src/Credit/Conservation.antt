-- ===== src/Credit/Conservation.antt =====
-- The sum of the credit that the manager of core/credit.go has outstanding, recovered and held by
-- batches in flight, call by call.
use mbta_go.Base.{ℕ, ◌+◌, ◌%◌, ◌^◌, ◌<◌, ◌≡◌, if◌then◌else◌}
use mbta_go.Base.{slt, lookup, nat_eq, arith, some, inl, inr, Bytes, IsNonneg, []}
use mbta_go.Base.{
  Option-cases, Unique, insert-Unique, delete-Unique, sum_by, sum_by-insert_new, sum_by-insert_old,
  sum_by-delete,
}
use mbta_go.Credit.Manager.{CreditManager, SettleGrant, TerminalEntry, InflightSlot, admit, settled}
use mbta_go.Credit.Manager.{consume, backfill, release, take_recovered, advance_low}

-- A slot that holds credit has its frame length entered.
abbrev pub holds : InflightSlot → ℕ
holds s = if slt 0 s.bytes then 1 else 0

abbrev pub slot_bytes : InflightSlot → ℕ
slot_bytes s = s.bytes

abbrev pub total_b : CreditManager → ℕ
total_b m = (m.outstanding_b + m.recovered_b + sum_by holds m.seen) % 2 ^ 64

abbrev pub total_y : CreditManager → ℕ
total_y m = (m.outstanding_y + m.recovered_y + sum_by slot_bytes m.seen) % 2 ^ 64

-- From `m` to `n` no credit comes up or goes missing, in either dimension.
pub record IsConserved (m n : CreditManager) : Type 0 where
  pub batches : total_b n ≡ total_b m
  pub bytes : total_y n ≡ total_y m
  pub keys : Unique n.seen

pub admit-IsConserved :
    (m : CreditManager) (seq now : ℕ) → Unique m.seen → IsConserved m (admit m seq now).0
unfolding admit
admit-IsConserved m seq now u = ground (
  arith,
  sum_by-insert_new holds seq (record { seq = seq; bytes = 0; correlation = []; added_at = now })
      m.seen,
  sum_by-insert_new slot_bytes seq
      (record { seq = seq; bytes = 0; correlation = []; added_at = now }) m.seen,
  insert-Unique seq (record { seq = seq; bytes = 0; correlation = []; added_at = now }) m.seen u,
)

pub consume-IsConserved :
    (m : CreditManager) (g : SettleGrant) (frame_bytes : ℕ) (s : InflightSlot)
    → Unique m.seen
    → lookup g.seq m.seen ≡ some s
    → s.bytes ≡ 0
    → 0 < frame_bytes
    → IsNonneg frame_bytes
    → IsConserved m (consume m g frame_bytes).0
unfolding consume
consume-IsConserved m g frame_bytes s u e z p q = ground (
  arith,
  sum_by-insert_old holds g.seq (record s { bytes = frame_bytes }) s m.seen,
  sum_by-insert_old slot_bytes g.seq (record s { bytes = frame_bytes }) s m.seen,
  insert-Unique g.seq (record s { bytes = frame_bytes }) m.seen u,
  sum_by-delete holds g.seq s m.seen u,
  sum_by-delete slot_bytes g.seq s m.seen u,
  delete-Unique g.seq m.seen u,
)

pub backfill-IsConserved :
    (m : CreditManager) (g : SettleGrant) (c : Bytes)
    → Unique m.seen
    → IsConserved m (backfill m g c)
unfolding backfill
backfill-IsConserved m g c u = elim (Option-cases (lookup g.seq m.seen)) [
  | inl e ↦ ground arith
  | inr (s, e) ↦ ground (
    arith,
    sum_by-insert_old holds g.seq (record s { correlation = c }) s m.seen,
    sum_by-insert_old slot_bytes g.seq (record s { correlation = c }) s m.seen,
    insert-Unique g.seq (record s { correlation = c }) m.seen u,
  )
]

pub settled-IsConserved :
    (m : CreditManager) (seq : ℕ) (e : TerminalEntry) (s : InflightSlot)
    → Unique m.seen
    → lookup seq m.seen ≡ some s
    → 0 < s.bytes
    → IsNonneg s.bytes
    → IsConserved m (settled m seq e s.bytes)
unfolding settled advance_low
settled-IsConserved m seq e s u l p q = ground (
  arith,
  sum_by-delete holds seq s m.seen u,
  sum_by-delete slot_bytes seq s m.seen u,
  delete-Unique seq m.seen u,
)

pub release-IsConserved :
    (m : CreditManager) (g : SettleGrant) (s : InflightSlot)
    → Unique m.seen
    → lookup g.seq m.seen ≡ some s
    → s.bytes ≡ 0
    → IsConserved m (release m g).0
unfolding release
release-IsConserved m g s u e z = ground (
  arith,
  sum_by-delete holds g.seq s m.seen u,
  sum_by-delete slot_bytes g.seq s m.seen u,
  delete-Unique g.seq m.seen u,
)

pub take_recovered-IsConserved :
    (m : CreditManager) → Unique m.seen → IsConserved m (take_recovered m).0
unfolding take_recovered
take_recovered-IsConserved m u = ground arith
