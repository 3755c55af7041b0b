-- ===== src/Tests/CreditRuns.antt =====
-- The server's manager of core/credit.go at concrete inputs.
use mbta_go.Base.{
  ℕ, ◌+◌, ◌^◌, ◌≤◌, ◌≡◌, ◌≢◌, refl, arith, [], ◌∷◌, some, nat_eq, true, false, ◌%◌, insert, delete,
  lookup,
}
use mbta_go.Credit.Manager.{
  CreditManager, accept, fresh_grant, new_credit_manager, admit, settle, release, flag, is_covered,
}
use mbta_go.Credit.Manager.{
  level_accepted, level_durable, settled, advance_low, advance, push_ring, evict, consume,
  take_recovered, admit_unseen,
}
use mbta_go.Credit.Prefix.{advance_low_exact}
use mbta_go.Credit.Dedup.{IsFinal, settle-IsFinal}
use mbta_go.Credit.Interleaving.{admitted_once}
use mbta_go.Credit.Interleaving
use mbta_go.Credit.Conservation.{total_b, total_y}
use mbta_go.Credit.Balance.{credit_conserved, late_settle_overpays, release_loses}
use mbta_go.Credit.Balance

-- Seq 3 in flight and charged 40 bytes, seqs 1 and 4 settled.
abbrev busy : CreditManager
busy = record {
  outstanding_b = 7;
  outstanding_y = 900;
  recovered_b = 2;
  recovered_y = 60;
  low = 2;
  accepted = (4, true) ∷ [];
  seen = (3, record { seq = 3; bytes = 40; correlation = 65 ∷ []; added_at = 11 }) ∷ [];
  terminal = (1, record { level = 1; code = 0 }) ∷ (4, record { level = 4; code = 32 }) ∷ [];
  ring_ord = 1 ∷ 4 ∷ [];
  ring_cap = 2;
}

settle-busy : (settle busy (fresh_grant 3) level_durable 0 0 0).0.ring_ord ≡ 4 ∷ 3 ∷ []
unfolding settle settled advance_low advance push_ring lookup delete insert
settle-busy = refl

advance_low_exact_example :
    (flag (advance_low busy).low (advance_low busy).accepted ≡ false)
    × (2 ≤ (advance_low busy).low)
    × ((k : ℕ) → is_covered (advance_low busy) k ≡ is_covered busy k)
advance_low_exact_example = advance_low_exact busy (omega arith)

busy_three :
    lookup 3 busy.seen ≡ some (record { seq = 3; bytes = 40; correlation = 65 ∷ []; added_at = 11 })
unfolding lookup
busy_three = refl

settle-IsFinal_example :
    let (m', g', results) = settle busy (fresh_grant 3) level_durable 0 0 0 in
    (results
      ≡ record {
        ref_seq = 3;
        level = level_durable;
        code = 0;
        retry_hint_ms = 0;
        correlation = 65 ∷ [];
      }
        ∷ [])
    × IsFinal m' g' (record { level = level_durable; code = 0 })
settle-IsFinal_example =
    settle-IsFinal busy (fresh_grant 3) level_durable 0 0 0
      (record { seq = 3; bytes = 40; correlation = 65 ∷ []; added_at = 11 }) refl (omega arith)
      busy_three (omega arith)

admits_five : (admit busy 5 20).1.decision ≡ accept
unfolding admit lookup
admits_five = refl

admitted_once_example :
    (admit (settle (admit busy 5 20).0 (fresh_grant 5) level_accepted 0 0 12).0 5 90).1.decision
    ≢ accept
admitted_once_example =
    admitted_once busy (settle (admit busy 5 20).0 (fresh_grant 5) level_accepted 0 0 12).0 5 20 90
      1 admits_five (omega arith)
      (Interleaving.next Interleaving.here
        (Interleaving.settles (fresh_grant 5) level_accepted 0 0 12 refl))

-- Seq 1 is charged 40 bytes and settled, seq 2 charged 60 bytes and released, and the credit goes back.
abbrev empty : CreditManager
empty = new_credit_manager 8 1000 2

abbrev one_charged : CreditManager
one_charged = (consume (admit empty 1 5).0 (fresh_grant 1) 40).0

abbrev one_settled : CreditManager
one_settled = (settle one_charged (fresh_grant 1) level_durable 0 0 0).0

abbrev two_charged : CreditManager
two_charged = (consume (admit one_settled 2 6).0 (fresh_grant 2) 60).0

abbrev two_released : CreditManager
two_released = (release two_charged (fresh_grant 2)).0

abbrev both_calls : Balance.History empty (take_recovered two_released).0
unfolding new_credit_manager admit consume settle settled advance_low advance push_ring evict
    release lookup insert delete admit_unseen
both_calls =
    Balance.next
      (Balance.next
        (Balance.next
          (Balance.next
            (Balance.next
              (Balance.next (Balance.next Balance.here (Balance.admits 1 5 refl)) (
                Balance.consumes (fresh_grant 1) 40
                  (record { seq = 1; bytes = 0; correlation = []; added_at = 5 }) refl (refl, refl)
                  (omega arith) (omega arith)))
              (Balance.settles (fresh_grant 1) level_durable 0 0 0
                (record { seq = 1; bytes = 40; correlation = []; added_at = 5 }) refl
                (refl, omega arith, omega arith)))
            (Balance.admits 2 6 refl))
          (Balance.consumes (fresh_grant 2) 60
            (record { seq = 2; bytes = 0; correlation = []; added_at = 6 }) refl (refl, refl)
            (omega arith) (omega arith)))
        (Balance.releases_charged (fresh_grant 2)
          (record { seq = 2; bytes = 60; correlation = []; added_at = 6 }) refl refl
          (refl, omega arith, omega arith)))
      (Balance.takes refl)

credit_conserved_example :
    let n = (take_recovered two_released).0 in
    ((total_b n + (Balance.total_drift both_calls).lost_b) % 2 ^ 64
      ≡ (8 + (Balance.total_drift both_calls).gained_b) % 2 ^ 64)
    × ((total_y n + (Balance.total_drift both_calls).lost_y) % 2 ^ 64
        ≡ (1000 + (Balance.total_drift both_calls).gained_y) % 2 ^ 64)
credit_conserved_example = credit_conserved 8 1000 2 (take_recovered two_released).0 both_calls

drifted : (Balance.total_drift both_calls).lost_y ≡ 60
unfolding Balance.total_drift Balance.drift both_calls
drifted = refl

release_loses_example :
    let m' = (release busy (fresh_grant 3)).0 in
    ((total_b m' + 1) % 2 ^ 64 ≡ total_b busy) × ((total_y m' + 40) % 2 ^ 64 ≡ total_y busy)
release_loses_example =
    release_loses busy (fresh_grant 3)
      (record { seq = 3; bytes = 40; correlation = 65 ∷ []; added_at = 11 })
      (unfold lookup in refl, tt) refl (busy_three, omega arith, omega arith)
