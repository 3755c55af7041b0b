-- ===== src/Credit/Ledger/Balance.antt =====
-- The balance of the client's ledger: what every operation does to the available credit.
use mbta_go.Base.{ℕ, ◌+◌, ◌^◌, ◌≤◌, ◌<◌, ◌≡◌, ◌⊎◌, inl, inr}
use mbta_go.Base.{false, IsNonneg, IsU64, arith, Bytes, some}
use mbta_go.Base.{lookup, insert, nat_eq, lookup-insert_self}
use mbta_go.Codes.{ok, err, window_exceeded}
use mbta_go.Credit.Ledger.{CreditLedger, available_b, available_y, consume, on_credit}
use mbta_go.Credit.Ledger.{new_credit_ledger}

-- A ledger whose counters are in order: nothing negative, and credit in use, consumed and not
-- returned, within what was granted.
pub record IsValid (l : CreditLedger) : Type 0 where
  pub granted_b_range : IsNonneg l.granted_b
  pub granted_y_range : IsNonneg l.granted_y
  pub consumed_b_range : IsNonneg l.consumed_b
  pub consumed_y_range : IsNonneg l.consumed_y
  pub returned_b_le : l.returned_b ≤ l.consumed_b
  pub returned_y_le : l.returned_y ≤ l.consumed_y
  pub in_use_b : l.consumed_b ≤ l.returned_b + l.granted_b
  pub in_use_y : l.consumed_y ≤ l.returned_y + l.granted_y

pub new_credit_ledger-IsValid :
    (initial_b initial_y clamp_b clamp_y : ℕ)
    → IsNonneg initial_b
    → IsNonneg initial_y
    → IsU64 clamp_b
    → IsU64 clamp_y
    → IsValid (new_credit_ledger initial_b initial_y clamp_b clamp_y)
unfolding new_credit_ledger
new_credit_ledger-IsValid initial_b initial_y clamp_b clamp_y h k p q = ground arith

-- On such a ledger the available credit is exactly what was granted, less what is in use: neither
-- dimension wraps.
available_exact :
    (l : CreditLedger)
    → IsValid l
    → (available_b l + l.consumed_b ≡ l.granted_b + l.returned_b)
      × (available_y l + l.consumed_y ≡ l.granted_y + l.returned_y)
available_exact l v = omega arith

-- Room for one more frame in the totals, which only grow: 2 ^ 63 batches or bytes on a connection.
abbrev pub HasRoom : CreditLedger → ℕ → Type 0
HasRoom l bytes = (l.consumed_b + 1 < 2 ^ 63) × (l.consumed_y + bytes < 2 ^ 63)

abbrev pub Suffices : CreditLedger → ℕ → Type 0
Suffices l bytes = (1 ≤ available_b l) × (bytes ≤ available_y l)

abbrev pub Short : CreditLedger → ℕ → Type 0
Short l bytes = (available_b l < 1) ⊎ (available_y l < bytes)

unfoldable pub consumed : CreditLedger → ℕ → ℕ → Bytes → ℕ → ℕ → CreditLedger
consumed l seq bytes correlation deadline now = record l {
  consumed_b = l.consumed_b + 1;
  consumed_y = l.consumed_y + bytes;
  slots =
      insert seq
        (record {
          seq = seq;
          bytes = bytes;
          correlation = correlation;
          sent_at = now;
          deadline = deadline;
          failed = false;
        })
        l.slots;
}

pub consume_cases :
    (l : CreditLedger) (seq bytes : ℕ) (correlation : Bytes) (deadline now : ℕ)
    → IsValid l
    → HasRoom l bytes
    → (Short l bytes × (consume l seq bytes correlation deadline now ≡ err window_exceeded))
      ⊎ (Suffices l bytes
          × (consume l seq bytes correlation deadline now
              ≡ ok (consumed l seq bytes correlation deadline now)))
unfolding consume consumed
consume_cases l seq bytes correlation deadline now v r = ground arith

pub consumed_effect :
    (l : CreditLedger) (seq bytes : ℕ) (correlation : Bytes) (deadline now : ℕ)
    → IsValid l
    → HasRoom l bytes
    → Suffices l bytes
    → let l' = consumed l seq bytes correlation deadline now in
      IsValid l' × (available_b l' + 1 ≡ available_b l) × (available_y l' + bytes ≡ available_y l)
unfolding consumed
consumed_effect l seq bytes correlation deadline now v r s = ground arith

pub consumed_slot :
    (l : CreditLedger) (seq bytes : ℕ) (correlation : Bytes) (deadline now : ℕ)
    → lookup seq (consumed l seq bytes correlation deadline now).slots
      ≡ some (record {
        seq = seq;
        bytes = bytes;
        correlation = correlation;
        sent_at = now;
        deadline = deadline;
        failed = false;
      })
unfolding consumed
consumed_slot l seq bytes correlation deadline now = lookup-insert_self seq _ l.slots

-- On a valid ledger with room in its totals, `consume` fails exactly when a dimension is short, and
-- otherwise takes one batch and the bytes from the available credit, enters the slot, and leaves the
-- ledger valid.
pub consume_exact :
    (l : CreditLedger) (seq bytes : ℕ) (correlation : Bytes) (deadline now : ℕ)
    → IsValid l
    → HasRoom l bytes
    → (Short l bytes × (consume l seq bytes correlation deadline now ≡ err window_exceeded))
      ⊎ ((l' : CreditLedger) × (consume l seq bytes correlation deadline now ≡ ok l')
          × IsValid l'
          × (available_b l' + 1 ≡ available_b l)
          × (available_y l' + bytes ≡ available_y l)
          × (lookup seq l'.slots
              ≡ some (record {
                seq = seq;
                bytes = bytes;
                correlation = correlation;
                sent_at = now;
                deadline = deadline;
                failed = false;
              })))
consume_exact l seq bytes correlation deadline now v r =
    elim (consume_cases l seq bytes correlation deadline now v r) [
      | inl short ↦ inl short
      | inr (s, e) ↦
          let (valid, b, y) = consumed_effect l seq bytes correlation deadline now v r s in
          inr (
            consumed l seq bytes correlation deadline now,
            e,
            valid,
            b,
            y,
            consumed_slot l seq bytes correlation deadline now,
          )
    ]

-- Whatever a CREDIT frame claims, a valid ledger stays valid, its available credit does not fall and
-- does not rise above what was granted, and no slot is touched.
pub on_credit_bounded :
    (l : CreditLedger) (d_b d_y : ℕ)
    → IsValid l
    → IsU64 d_b
    → IsU64 d_y
    → let l' = on_credit l d_b d_y in
      IsValid l'
      × (available_b l ≤ available_b l')
      × (available_b l' ≤ l.granted_b)
      × (available_y l ≤ available_y l')
      × (available_y l' ≤ l.granted_y)
      × (l'.slots ≡ l.slots)
unfolding on_credit
on_credit_bounded l d_b d_y v h k = ground arith

-- A CREDIT frame within what is in use is added in full and counts no violation.
pub on_credit_exact :
    (l : CreditLedger) (d_b d_y : ℕ)
    → IsValid l
    → l.returned_b + d_b ≤ l.consumed_b
    → l.returned_y + d_y ≤ l.consumed_y
    → let l' = on_credit l d_b d_y in
      (available_b l' ≡ available_b l + d_b)
      × (available_y l' ≡ available_y l + d_y)
      × (l'.violations ≡ l.violations)
unfolding on_credit
on_credit_exact l d_b d_y v h k = ground arith
