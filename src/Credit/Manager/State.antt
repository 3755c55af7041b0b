-- ===== src/Credit/Manager/State.antt =====
-- The state of core/credit.go on the server: the manager, its slots and entries, and the grants.
use mbta_go.Base.{ℕ, List, [], Bool}
use mbta_go.Base.{if◌then◌else◌, sle, Bytes, Option, none}
use mbta_go.Base.{Map, nat_eq}

-- corepb.ResultLevel, an open enum of the wire.
abbrev pub level_accepted : ℕ
level_accepted = 1

abbrev pub level_durable : ℕ
level_durable = 2

abbrev pub level_rejected : ℕ
level_rejected = 3

abbrev pub level_released : ℕ
level_released = 4

-- corepb.Result.
pub record WireResult : Type 0 where
  pub ref_seq : ℕ
  pub level : ℕ
  pub code : ℕ
  pub retry_hint_ms : ℕ
  pub correlation : Bytes

pub data AdmitDecision : Type 0 where
  accept duplicate terminal_hit below_unknown violation : AdmitDecision

pub record TerminalEntry : Type 0 where
  pub level : ℕ
  pub code : ℕ

pub record InflightSlot : Type 0 where
  pub seq : ℕ
  pub bytes : ℕ
  pub correlation : Bytes
  pub added_at : ℕ

pub record CreditManager : Type 0 where
  pub outstanding_b : ℕ
  pub outstanding_y : ℕ
  pub recovered_b : ℕ
  pub recovered_y : ℕ
  pub low : ℕ
  pub accepted : Map ℕ Bool
  pub seen : Map ℕ InflightSlot
  pub terminal : Map ℕ TerminalEntry
  pub ring_ord : List ℕ
  pub ring_cap : ℕ

unfoldable pub new_credit_manager : ℕ → ℕ → ℕ → CreditManager
new_credit_manager initial_b initial_y ring_cap = record {
  outstanding_b = initial_b;
  outstanding_y = initial_y;
  recovered_b = 0;
  recovered_y = 0;
  low = 1;
  accepted = [];
  seen = [];
  terminal = [];
  ring_ord = [];
  ring_cap = if sle ring_cap 0 then 256 else ring_cap;
}

pub record SettleGrant : Type 0 where
  pub seq : ℕ
  pub consumed : Bool
  pub done : Bool
  pub accepted : Bool

pub record AdmitResult : Type 0 where
  pub decision : AdmitDecision
  pub grant : Option SettleGrant
  pub dup_slot : InflightSlot
  pub terminal : TerminalEntry

abbrev pub zero_slot : InflightSlot
zero_slot = record { seq = 0; bytes = 0; correlation = []; added_at = 0 }

abbrev pub zero_entry : TerminalEntry
zero_entry = record { level = 0; code = 0 }

abbrev pub decided : AdmitDecision → AdmitResult
decided d = record { decision = d; grant = none; dup_slot = zero_slot; terminal = zero_entry }
