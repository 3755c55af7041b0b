-- ===== src/Tests/LedgerRuns.antt =====
-- The client's ledger of core/credit.go at concrete inputs.
use mbta_go.Base.{
  ◌+◌, ◌^◌, ◌≤◌, ◌≡◌, refl, arith, ◌⊎◌, [], ◌∷◌, some, nat_eq, lookup, false, insert,
}
use mbta_go.Codes.{ok, err, window_exceeded}
use mbta_go.Credit.Ledger.{
  CreditLedger, new_credit_ledger, available_b, available_y, consume, on_credit, rollback,
}
use mbta_go.Credit.Ledger.Balance.{IsValid, Short, consume_exact, on_credit_bounded}
use mbta_go.Credit.Ledger.History.{Undone, rollback-consume, here, next, credits, available_bounded}

abbrev small : CreditLedger
small = record {
  granted_b = 4;
  granted_y = 1000;
  consumed_b = 3;
  consumed_y = 600;
  returned_b = 1;
  returned_y = 200;
  clamp_b = 16;
  clamp_y = 4096;
  slots = [];
  violations = 0;
}

small-IsValid : IsValid small
small-IsValid = omega arith

abbrev sent : CreditLedger
sent = record small {
  consumed_b = 4;
  consumed_y = 700;
  slots =
      (
        9,
        record {
          seq = 9;
          bytes = 100;
          correlation = [];
          sent_at = 5;
          deadline = 50;
          failed = false;
        },
      )
      ∷ [];
}

consume-sent : consume small 9 100 [] 50 5 ≡ ok sent
unfolding consume insert
consume-sent = refl

consume_too_much : consume small 9 601 [] 50 5 ≡ err window_exceeded
unfolding consume
consume_too_much = refl

-- A CREDIT frame of more than is in use is cut, once in each dimension.
on_credit_cut : (on_credit small 10 500).violations ≡ 2
unfolding on_credit
on_credit_cut = refl

consume_exact_example :
    (Short small 100 × (consume small 9 100 [] 50 5 ≡ err window_exceeded))
    ⊎ ((l' : CreditLedger) × (consume small 9 100 [] 50 5 ≡ ok l')
        × IsValid l'
        × (available_b l' + 1 ≡ available_b small)
        × (available_y l' + 100 ≡ available_y small)
        × (lookup 9 l'.slots
            ≡ some (record {
              seq = 9;
              bytes = 100;
              correlation = [];
              sent_at = 5;
              deadline = 50;
              failed = false;
            })))
consume_exact_example = consume_exact small 9 100 [] 50 5 small-IsValid (omega arith)

on_credit_bounded_example :
    let l' = on_credit small (2 ^ 63) 7 in
    IsValid l'
    × (available_b small ≤ available_b l')
    × (available_b l' ≤ 4)
    × (available_y small ≤ available_y l')
    × (available_y l' ≤ 1000)
    × (l'.slots ≡ [])
on_credit_bounded_example =
    on_credit_bounded small (2 ^ 63) 7 small-IsValid (omega arith) (omega arith)

rollback-consume_example : Undone small 9 (rollback sent 9).0
rollback-consume_example =
    rollback-consume small sent 9 100 [] 50 5 small-IsValid (omega arith) consume-sent

available_bounded_example :
    let l = on_credit (new_credit_ledger 4 1000 0 0) 70 9 in
    (available_b l ≤ 4)
    × (available_b l ≤ 2 ^ 16)
    × (available_y l ≤ 1000)
    × (available_y l ≤ 2 ^ 32)
available_bounded_example =
    available_bounded 4 1000 (on_credit (new_credit_ledger 4 1000 0 0) 70 9) (omega arith)
      (omega arith) (next here (credits 70 9 (omega arith) (omega arith) refl))
