-- ===== src/Client/Control.antt =====
-- The client's control loop, internal/protocol/client_control.go, and its teardown in client.go: one
-- frame at a time. What the application is told of results is a list.
use mbta_go.Base.{
  ℕ, List, [], ◌∷◌, ◌++◌, Bool, true, false, ◌||◌, not, if◌then◌else◌, ltb, eqb, Bytes, bytes_eq,
  contains, length,
}
use mbta_go.Base.{Option, none, some, Map, lookup, insert}
use mbta_go.Codes.{Result, ok, err, num, internal}
use mbta_go.Session.{State, force_closed, transition}
use mbta_go.Policy.{cap_zstd_dict, max_zstd_dict_bytes}
use mbta_go.Handshake.{validate_result_level}
use mbta_go.Credit.Manager.{WireResult}
use mbta_go.Credit.Ledger.{CreditLedger, OutSlot, on_credit, terminal, reset, reap_expired}
use mbta_go.Client.{Client}

-- resultNotify. The level is the enumeration's name, or "timeout", which is none.
pub record ResultNotify : Type 0 where
  pub notify_seq : ℕ
  pub notify_level : Option ℕ
  pub notify_code : ℕ
  pub notify_correlation : Bytes

-- The client, the queue of results to tell, and the commands that were handed to the handler.
pub record Receiver (D : Type 0) : Type 0 where
  pub client : Client D
  pub notices : List ResultNotify
  pub executed : List Bytes

abbrev pub ack_queue_size : ℕ
ack_queue_size = 1024

abbrev pub known_command : Option Bool → Bool
known_command none = false
known_command (some b) = true

-- The record of the commands seen, which is emptied when it is over 256.
unfoldable pub remember_command : Bytes → Map Bytes Bool → Map Bytes Bool
remember_command id seen =
    let seen' = insert id true seen in if ltb 256 (length seen') then [] else seen'

abbrev pub machine_after : State → Result State → State
machine_after s (err e) = s
machine_after s (ok next) = next

module _ {D : Type 0} where
  -- dispatchResult: a full queue drops the notice.
  unfoldable pub dispatch_result : ResultNotify → Receiver D → Receiver D
  dispatch_result n c =
      if ltb (length c.notices) ack_queue_size
      then record c { notices = c.notices ++ (n ∷ []) }
      else c

  -- teardownPhase.
  unfoldable pub teardown_phase : Client D → Client D
  teardown_phase s = record s {
    machine = force_closed s.machine;
    ledger = elim s.ledger [ none ↦ none | some l ↦ some (reset l) ];
  }

  -- fatalTeardown.
  unfoldable pub fatal_teardown : Receiver D → Receiver D
  fatal_teardown c = record c { client = teardown_phase (record c.client { closed = true }) }

  unfoldable pub result_known : WireResult → Option CreditLedger → Receiver D → Receiver D
  result_known r none c = c
  result_known r (some l) c =
      dispatch_result
        (record {
          notify_seq = r.ref_seq;
          notify_level = some r.level;
          notify_code = r.code;
          notify_correlation = r.correlation;
        })
        (record c { client = record c.client { ledger = some (terminal l r.ref_seq).0 } })

  unfoldable pub result_checked : WireResult → Result (Unit {0}) → Receiver D → Receiver D
  result_checked r (err e) c = c
  result_checked r (ok t) c = result_known r c.client.ledger c

  -- handleResult on a payload that decodes.
  unfoldable pub handle_result : WireResult → Receiver D → Receiver D
  handle_result r c = result_checked r (validate_result_level r.level) c

  unfoldable pub credit_known : ℕ → ℕ → Option CreditLedger → Receiver D → Receiver D
  credit_known batches bytes none c = c
  credit_known batches bytes (some l) c = record c {
    client = record c.client { ledger = some (on_credit l batches bytes) };
  }

  -- handleCredit.
  unfoldable pub handle_credit : ℕ → ℕ → Receiver D → Receiver D
  handle_credit batches bytes c =
      if eqb batches 0 || eqb bytes 0
      then fatal_teardown c
      else credit_known batches bytes c.client.ledger c

  unfoldable pub dict_registered : Option D → Receiver D → Receiver D
  dict_registered none c = c
  dict_registered (some d) c = record c { client = record c.client { zdict = some d } }

  -- handleDict on a dictionary with its number; `register_dict` is RegisterZstdDict.
  unfoldable pub handle_dict : (ℕ → Bytes → Option D) → ℕ → Bytes → Receiver D → Receiver D
  handle_dict register_dict id dict c =
      if not (contains c.client.negotiated cap_zstd_dict)
      then c
      else if ltb max_zstd_dict_bytes (length dict)
      then c
      else dict_registered (register_dict id dict) c

  -- dispatchCommand with a handler registered.
  unfoldable pub dispatch_command : Bytes → Receiver D → Receiver D
  dispatch_command id c =
      if eqb (length id) 0
      then c
      else if known_command (lookup id c.client.seen_commands)
      then c
      else record c {
        client = record c.client { seen_commands = remember_command id c.client.seen_commands };
        executed = c.executed ++ (id ∷ []);
      }

  unfoldable pub notify_all : List OutSlot → Receiver D → Receiver D
  notify_all [] c = c
  notify_all (s ∷ ss) c = notify_all ss (
      dispatch_result
        (record {
          notify_seq = s.seq;
          notify_level = none;
          notify_code = num internal;
          notify_correlation = [];
        })
        c)

  unfoldable pub reap_ledger : ℕ → Option CreditLedger → Receiver D → Receiver D
  reap_ledger now none c = c
  reap_ledger now (some l) c =
      let (l', late) = reap_expired l now in
      notify_all late (record c { client = record c.client { ledger = some l' } })

  -- A tick of AckReaperLoop.
  unfoldable pub reap_tick : ℕ → Receiver D → Receiver D
  reap_tick now c = reap_ledger now c.client.ledger c

  -- close: the state that drain waits in, then the teardown's.
  unfoldable pub begin_close : Client D → Client D
  begin_close s = record s {
    closed = true;
    machine = machine_after s.machine (transition s.machine State.draining);
  }

  unfoldable pub close_client : Client D → Client D
  close_client s = teardown_phase (begin_close s)
