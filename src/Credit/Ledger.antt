-- ===== src/Credit/Ledger.antt =====
-- The client half of core/credit.go: SeqGenerator and CreditLedger. Counters are int64 as bit
-- patterns; times are numbers on one clock, and `time.Now()` is an argument.
pub mod Balance
pub mod History
use mbta_go.Base.{ℕ, ◌+◌, ◌%◌, ◌^◌, ◌≡◌, List, [], ◌∷◌, Bool, true, false, ◌&&◌, ◌||◌, ◌*◌}
use mbta_go.Base.{if◌then◌else◌, ltb, eqb, add64, sub64, slt, sle, Bytes, Option, none, some}
use mbta_go.Base.{Map, lookup, insert, delete, nat_eq, length}
use mbta_go.Codes.{Result, ok, err, window_exceeded}

-- The generator is the last number given out: `Add(1)` wraps.
unfoldable pub next_seq : ℕ → ℕ
next_seq last = add64 last 1

pub record OutSlot : Type 0 where
  pub seq : ℕ
  pub bytes : ℕ
  pub correlation : Bytes
  pub sent_at : ℕ
  pub deadline : ℕ
  pub failed : Bool

pub record CreditLedger : Type 0 where
  pub granted_b : ℕ
  pub granted_y : ℕ
  pub consumed_b : ℕ
  pub consumed_y : ℕ
  pub returned_b : ℕ
  pub returned_y : ℕ
  pub clamp_b : ℕ
  pub clamp_y : ℕ
  pub slots : Map ℕ OutSlot
  pub violations : ℕ

abbrev pub default_credit_clamp_batches : ℕ
default_credit_clamp_batches = 2 ^ 16

abbrev pub default_credit_clamp_bytes : ℕ
default_credit_clamp_bytes = 2 ^ 32

abbrev clamp_or : ℕ → ℕ → ℕ
clamp_or clamp default = if sle clamp 0 then default else clamp

abbrev at_most : ℕ → ℕ → ℕ
at_most limit x = if slt limit x then limit else x

unfoldable pub new_credit_ledger : ℕ → ℕ → ℕ → ℕ → CreditLedger
new_credit_ledger initial_b initial_y clamp_b clamp_y =
    let cb = clamp_or clamp_b default_credit_clamp_batches in
    let cy = clamp_or clamp_y default_credit_clamp_bytes in
    record {
      granted_b = at_most cb initial_b;
      granted_y = at_most cy initial_y;
      consumed_b = 0;
      consumed_y = 0;
      returned_b = 0;
      returned_y = 0;
      clamp_b = cb;
      clamp_y = cy;
      slots = [];
      violations = 0;
    }

abbrev pub available_b : CreditLedger → ℕ
available_b l = add64 (sub64 l.granted_b l.consumed_b) l.returned_b

abbrev pub available_y : CreditLedger → ℕ
available_y l = add64 (sub64 l.granted_y l.consumed_y) l.returned_y

unfoldable pub available : CreditLedger → ℕ × ℕ
available l = (available_b l, available_y l)

-- The ledger stays as it was when the answer is an error.
unfoldable pub consume : CreditLedger → ℕ → ℕ → Bytes → ℕ → ℕ → Result CreditLedger
consume l seq bytes correlation deadline now =
    if slt (available_b l) 1 || slt (available_y l) bytes
    then err window_exceeded
    else ok (record l {
      consumed_b = add64 l.consumed_b 1;
      consumed_y = add64 l.consumed_y bytes;
      slots =
          insert seq
            (record {
              seq = seq;
              bytes = bytes;
              correlation = correlation;
              sent_at = now;
              deadline = deadline;
              failed = false;
            })
            l.slots;
    })

abbrev count_if : Bool → ℕ → ℕ
count_if b n = if b then add64 n 1 else n

-- `violations` is counted once for each dimension that is clamped.
unfoldable pub on_credit : CreditLedger → ℕ → ℕ → CreditLedger
on_credit l d_b d_y =
    if eqb d_b 0 && eqb d_y 0
    then l
    else if slt d_b 0 || slt d_y 0
    then record l { violations = add64 l.violations 1 }
    else let max_ret_b = sub64 l.consumed_b l.returned_b in
      let max_ret_y = sub64 l.consumed_y l.returned_y in
      record l {
        returned_b = add64 l.returned_b (at_most max_ret_b d_b);
        returned_y = add64 l.returned_y (at_most max_ret_y d_y);
        violations = count_if (slt max_ret_y d_y) (count_if (slt max_ret_b d_b) l.violations);
      }

-- The slot that was there, for the callback.
unfoldable pub terminal : CreditLedger → ℕ → CreditLedger × Option OutSlot
terminal l seq = elim (lookup seq l.slots) [
  | none ↦ (l, none)
  | some s ↦ (record l { slots = delete seq l.slots }, some s)
]

unfoldable pub rollback : CreditLedger → ℕ → CreditLedger × Option OutSlot
rollback l seq = elim (lookup seq l.slots) [
  | none ↦ (l, none)
  | some s ↦ (
    record l {
      slots = delete seq l.slots;
      returned_b = add64 l.returned_b (at_most (sub64 l.consumed_b l.returned_b) 1);
      returned_y = add64 l.returned_y (at_most (sub64 l.consumed_y l.returned_y) s.bytes);
    },
    some s,
  )
]

-- `now.After(s.Deadline)`.
unfoldable pub overdue : ℕ → Map ℕ OutSlot → List OutSlot
overdue now [] = []
overdue now ((k, s) ∷ m) =
    let rest = overdue now m in
    if ltb s.deadline now then record s { failed = true } ∷ rest else rest

unfoldable pub not_overdue : ℕ → Map ℕ OutSlot → Map ℕ OutSlot
not_overdue now [] = []
not_overdue now ((k, s) ∷ m) =
    let rest = not_overdue now m in if ltb s.deadline now then rest else (k, s) ∷ rest

unfoldable pub reap_expired : CreditLedger → ℕ → CreditLedger × List OutSlot
reap_expired l now = (record l { slots = not_overdue now l.slots }, overdue now l.slots)

unfoldable pub drained : CreditLedger → Bool
drained l = eqb (length l.slots) 0

unfoldable pub pending : CreditLedger → ℕ
pending l = length l.slots

unfoldable pub reset : CreditLedger → CreditLedger
reset l = record l { slots = [] }
