-- ===== src/Credit/Ledger/History.antt =====
-- Undoing a send, and what any history of calls keeps, for the client's ledger.
use mbta_go.Base.{ℕ, ◌+◌, ◌^◌, ◌≤◌, ◌≡◌, refl, [], ◌∷◌, inl, inr, IsU64, if◌then◌else◌}
use mbta_go.Base.{lookup, insert, delete, nat_eq, Option-cases, Map, lookup-insert}
use mbta_go.Base.{lookup-delete, arith, Bytes, none, some, eqb, IsNonneg, ◌∙◌, lookup-delete_self}
use mathlib.Core.Path.{subst, ap, sym}
use mbta_go.Codes.{ok}
use mbta_go.Credit.Ledger.{CreditLedger, OutSlot, available_b, available_y, consume}
use mbta_go.Credit.Ledger.{on_credit, terminal, rollback, reap_expired, reset, not_overdue}
use mbta_go.Credit.Ledger.{new_credit_ledger}
use mbta_go.Credit.Ledger.Balance.{
  IsValid, HasRoom, Suffices, consume_cases, consumed, consumed_effect, consumed_slot,
  on_credit_bounded, new_credit_ledger-IsValid,
}

rollback_effect :
    (l : CreditLedger) (seq : ℕ) (s : OutSlot)
    → IsValid l
    → lookup seq l.slots ≡ some s
    → l.returned_b + 1 ≤ l.consumed_b
    → l.returned_y + s.bytes ≤ l.consumed_y
    → IsNonneg s.bytes
    → (available_b (rollback l seq).0 ≡ available_b l + 1)
      × (available_y (rollback l seq).0 ≡ available_y l + s.bytes)
      × ((rollback l seq).0.slots ≡ delete seq l.slots)
      × ((rollback l seq).1 ≡ some s)
unfolding rollback
rollback_effect l seq s v e p q n = ground arith

rollback_absent :
    (l : CreditLedger) (seq : ℕ) → lookup seq l.slots ≡ none → rollback l seq ≡ (l, none)
unfolding rollback
rollback_absent l seq e = ground arith

-- The slots after `consume` and `rollback` of one seq.
slots_undone :
    (seq j : ℕ) (s : OutSlot) (m : Map ℕ OutSlot)
    → lookup j (delete seq (insert seq s m)) ≡ (if eqb seq j then none else lookup j m)
slots_undone seq j s m =
    ground (arith, lookup-delete seq j (insert seq s m), lookup-insert seq j s m)

-- The state after a failed send, against the state before it.
abbrev pub Undone : CreditLedger → ℕ → CreditLedger → Type 0
Undone l seq l'' =
    (available_b l'' ≡ available_b l)
    × (available_y l'' ≡ available_y l)
    × ((j : ℕ) → lookup j l''.slots ≡ (if eqb seq j then none else lookup j l.slots))
    × (rollback l'' seq ≡ (l'', none))

rollback-consumed :
    (l : CreditLedger) (seq bytes : ℕ) (correlation : Bytes) (deadline now : ℕ)
    → IsValid l
    → HasRoom l bytes
    → Suffices l bytes
    → Undone l seq (rollback (consumed l seq bytes correlation deadline now) seq).0
unfolding consumed
rollback-consumed l seq bytes correlation deadline now v r s =
    let effect = consumed_effect l seq bytes correlation deadline now v r s in
    let back =
      rollback_effect (consumed l seq bytes correlation deadline now) seq _ effect.0
        (consumed_slot l seq bytes correlation deadline now) (omega arith) (omega arith)
        (omega arith) in
    (
      omega (arith, effect, back),
      omega (arith, effect, back),
      λ j. ap (lookup j) back.2 ∙ slots_undone seq j _ l.slots,
      rollback_absent _ seq (ap (lookup seq) back.2 ∙ lookup-delete_self seq _),
    )

-- A send that fails is undone: when `consume` took credit for `seq` and the write then failed,
-- `rollback` restores the available credit in both dimensions, takes the slot of `seq` out and
-- leaves the others; a second `rollback` of `seq` does nothing.
pub rollback-consume :
    (l l' : CreditLedger) (seq bytes : ℕ) (correlation : Bytes) (deadline now : ℕ)
    → IsValid l
    → HasRoom l bytes
    → consume l seq bytes correlation deadline now ≡ ok l'
    → Undone l seq (rollback l' seq).0
rollback-consume l l' seq bytes correlation deadline now v r e =
    elim (consume_cases l seq bytes correlation deadline now v r) [
      | inl (short, f) ↦ cc
      | inr (s, f) ↦
          subst (λ x. Undone l seq (rollback x seq).0) (cc)
            (rollback-consumed l seq bytes correlation deadline now v r s)
    ]

-- One call on the ledger, by any goroutine that holds its lock. A `consume` has room in the totals
-- and a frame length that is not negative.
pub data Call : CreditLedger → CreditLedger → Type 0 where
  consumes :
      {l l' : CreditLedger} (seq bytes : ℕ) (correlation : Bytes) (deadline now : ℕ)
      → HasRoom l bytes
      → consume l seq bytes correlation deadline now ≡ ok l'
      → Call l l'
  credits :
      {l l' : CreditLedger} (d_b d_y : ℕ)
      → IsU64 d_b
      → IsU64 d_y
      → l' ≡ on_credit l d_b d_y
      → Call l l'
  terminals : {l l' : CreditLedger} (seq : ℕ) → l' ≡ (terminal l seq).0 → Call l l'
  rollbacks : {l l' : CreditLedger} (seq : ℕ) → l' ≡ (rollback l seq).0 → Call l l'
  reaps : {l l' : CreditLedger} (now : ℕ) → l' ≡ (reap_expired l now).0 → Call l l'
  resets : {l l' : CreditLedger} → l' ≡ reset l → Call l l'

pub data History (l : CreditLedger) : CreditLedger → Type 0 where
  here : History l l
  next : {m n : CreditLedger} → History l m → Call m n → History l n

AllNonneg : Map ℕ OutSlot → Type 0
AllNonneg [] = Unit {0}
AllNonneg ((k, s) ∷ m) = IsNonneg s.bytes × AllNonneg m

-- What every call keeps.
record IsKept (granted_b granted_y : ℕ) (l : CreditLedger) : Type 0 where
  valid : IsValid l
  same_b : l.granted_b ≡ granted_b
  same_y : l.granted_y ≡ granted_y
  sizes : AllNonneg l.slots

AllNonneg-lookup :
    (k : ℕ) (s : OutSlot) (m : Map ℕ OutSlot) → AllNonneg m → lookup k m ≡ some s → IsNonneg s.bytes
unfolding AllNonneg lookup
AllNonneg-lookup k s [] h e = cc
AllNonneg-lookup k s ((j, t) ∷ m) h e = ground (arith, AllNonneg-lookup k s m h.1)

AllNonneg-insert :
    (k : ℕ) (s : OutSlot) (m : Map ℕ OutSlot)
    → IsNonneg s.bytes
    → AllNonneg m
    → AllNonneg (insert k s m)
unfolding AllNonneg insert
AllNonneg-insert k s [] n h = (n, tt)
AllNonneg-insert k s ((j, t) ∷ m) n h = ground (arith, AllNonneg-insert k s m n h.1)

AllNonneg-delete : (k : ℕ) (m : Map ℕ OutSlot) → AllNonneg m → AllNonneg (delete k m)
unfolding AllNonneg delete
AllNonneg-delete k [] h = tt
AllNonneg-delete k ((j, t) ∷ m) h = ground (arith, AllNonneg-delete k m h.1)

AllNonneg-not_overdue : (now : ℕ) (m : Map ℕ OutSlot) → AllNonneg m → AllNonneg (not_overdue now m)
unfolding AllNonneg not_overdue
AllNonneg-not_overdue now [] h = tt
AllNonneg-not_overdue now ((j, t) ∷ m) h = ground (arith, AllNonneg-not_overdue now m h.1)

rollback-IsValid :
    (l : CreditLedger) (seq : ℕ) (s : OutSlot)
    → IsValid l
    → IsNonneg s.bytes
    → lookup seq l.slots ≡ some s
    → IsValid (rollback l seq).0
unfolding rollback
rollback-IsValid l seq s v n e = ground arith

module _ (gb gy : ℕ) where
  consumed-IsKept :
      (l : CreditLedger) (seq bytes : ℕ) (correlation : Bytes) (deadline now : ℕ)
      → IsKept gb gy l
      → HasRoom l bytes
      → Suffices l bytes
      → IsKept gb gy (consumed l seq bytes correlation deadline now)
  unfolding consumed
  consumed-IsKept l seq bytes correlation deadline now k r s = record {
    valid = (consumed_effect l seq bytes correlation deadline now k.valid r s).0;
    same_b = k.same_b;
    same_y = k.same_y;
    sizes = AllNonneg-insert seq _ l.slots (omega arith) k.sizes;
  }

  terminal-IsKept : (l : CreditLedger) (seq : ℕ) → IsKept gb gy l → IsKept gb gy (terminal l seq).0
  unfolding terminal
  terminal-IsKept l seq k = ground (arith, AllNonneg-delete seq l.slots k.sizes)

  rollback-IsKept : (l : CreditLedger) (seq : ℕ) → IsKept gb gy l → IsKept gb gy (rollback l seq).0
  rollback-IsKept l seq k = elim (Option-cases (lookup seq l.slots)) [
    | inl e ↦ subst (IsKept gb gy) (ap (λ p. p.0) (sym (rollback_absent l seq e))) k
    | inr (s, e) ↦ record {
      valid = rollback-IsValid l seq s k.valid (AllNonneg-lookup seq s l.slots k.sizes e) e;
      same_b = unfold rollback in ground (arith, k.same_b);
      same_y = unfold rollback in ground (arith, k.same_y);
      sizes = unfold rollback in ground (arith, AllNonneg-delete seq l.slots k.sizes);
    }
  ]

  Call-IsKept : {l l' : CreditLedger} → Call l l' → IsKept gb gy l → IsKept gb gy l'
  Call-IsKept {l} (consumes seq bytes c d n r e) k =
      elim (consume_cases l seq bytes c d n k.valid r) [
        | inl (short, f) ↦ cc
        | inr (s, f) ↦ subst (IsKept gb gy) (cc) (consumed-IsKept l seq bytes c d n k r s)
      ]
  Call-IsKept {l} (credits d_b d_y p q e) k = rw e (record {
    valid = (on_credit_bounded l d_b d_y k.valid p q).0;
    same_b = unfold on_credit in ground (arith, k.same_b);
    same_y = unfold on_credit in ground (arith, k.same_y);
    sizes = rw (on_credit_bounded l d_b d_y k.valid p q).5 k.sizes;
  })
  Call-IsKept {l} (terminals seq e) k = rw e (terminal-IsKept l seq k)
  Call-IsKept {l} (rollbacks seq e) k = rw e (rollback-IsKept l seq k)
  Call-IsKept {l} (reaps now e) k = rw e (record {
    valid = unfold reap_expired in ground (arith, k.valid);
    same_b = unfold reap_expired in k.same_b;
    same_y = unfold reap_expired in k.same_y;
    sizes = unfold reap_expired in AllNonneg-not_overdue now l.slots k.sizes;
  })
  Call-IsKept {l} (resets e) k = rw e (
      unfold reset in
      record {
        valid = ground (arith, k.valid);
        same_b = k.same_b;
        same_y = k.same_y;
        sizes = unfold AllNonneg in tt;
      })

  History-IsKept : {l l' : CreditLedger} → History l l' → IsKept gb gy l → IsKept gb gy l'
  History-IsKept here k = k
  History-IsKept (next h c) k = Call-IsKept c (History-IsKept h k)

-- After any history of calls on the ledger that the client builds from the server's initial credit,
-- with the default clamps, the available credit is at most that initial credit and at most the clamp,
-- in both dimensions: no server can talk the client into more.
pub available_bounded :
    (initial_b initial_y : ℕ) (l : CreditLedger)
    → IsNonneg initial_b
    → IsNonneg initial_y
    → History (new_credit_ledger initial_b initial_y 0 0) l
    → (available_b l ≤ initial_b)
      × (available_b l ≤ 2 ^ 16)
      × (available_y l ≤ initial_y)
      × (available_y l ≤ 2 ^ 32)
unfolding new_credit_ledger
available_bounded initial_b initial_y l p q h =
    let first : CreditLedger = new_credit_ledger initial_b initial_y 0 0 in
    let k = History-IsKept first.granted_b first.granted_y h (record {
      valid = new_credit_ledger-IsValid initial_b initial_y 0 0 p q (omega arith) (omega arith);
      same_b = refl;
      same_y = refl;
      sizes = unfold AllNonneg in tt;
    }) in
    ground (arith, k.valid, k.same_b, k.same_y)
