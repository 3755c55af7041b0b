-- ===== src/Client.antt =====
-- internal/protocol/client.go: the client's handshake and its sending. Protobuf, the codecs of signal
-- batches and the transport are parameters.
pub mod Agreement
pub mod Sending
pub mod Numbers
pub mod Control
pub mod Repeated
pub mod Starved
use mbta_go.Base.{
  ℕ, ◌+◌, List, [], ◌∷◌, Bool, true, false, not, if◌then◌else◌, eqb, ltb, Bytes, bytes_eq, ◌==◌,
}
use mbta_go.Base.{Option, none, some, Map}
use mbta_go.Codes.{
  Result, ErrCode, ok, err, ◌>>◌, ◌>>=◌, refuse_if, auth_failed, local_handshake, local_session,
}
use mbta_go.Wire.{Hello, HelloAck, Limits, Credits}
use mbta_go.Session.{State, idle, transition}
use mbta_go.Policy.{codec_for}
use mbta_go.Handshake.{validate_hello_ack, credits_of}
use mbta_go.Keys.{
  Crypto, SessionKeys, transcript_hello, transcript_full, token_proof_of,
  derive_session_keys_with_caps, finished_mac,
}
use mbta_go.Credit.Ledger.{CreditLedger, new_credit_ledger}
use mbta_go.Connection.{Curves, generate_ephemeral, derive_zz}

-- CoreClientConfig, as far as the protocol depends on it.
pub record ClientConfig : Type 0 where
  pub config_agent : Bytes
  pub config_meta : Map Bytes Bytes
  pub token : Bytes
  pub config_capabilities : List Bytes
  pub config_profile : ℕ
  pub ack_timeout : ℕ

-- CoreClient; what the handshake has not stored yet is none. `D` is a ZstdDictCodec.
pub record Client (D : Type 0) : Type 0 where
  pub machine : State
  pub session_id : Bytes
  pub expiry : ℕ
  pub closed : Bool
  pub last_seq : ℕ
  pub ledger : Option CreditLedger
  pub keys : Option SessionKeys
  pub negotiated : List Bytes
  pub codec : Option ℕ
  pub limits : Option Limits
  pub zdict : Option D
  pub seen_commands : Map Bytes Bool

abbrev pub new_client : {D : Type 0} → Client D
new_client = record {
  machine = idle;
  session_id = [];
  expiry = 0;
  closed = false;
  last_seq = 0;
  ledger = none;
  keys = none;
  negotiated = [];
  codec = none;
  limits = none;
  zdict = none;
  seen_commands = [];
}

-- What the server's first frame is.
pub data Greeting : Type 0 where
  ack_greeting : HelloAck → Greeting
  nak_greeting : (code : ℕ) → Greeting
  bad_greeting : Greeting

module _ {K : Type 0} (c : Crypto) (curves : Curves K) (cfg : ClientConfig) where
  -- The HELLO before its proof.
  abbrev pub bare_hello : Bytes → Hello
  bare_hello eph = record {
    profile = cfg.config_profile;
    agent_id = cfg.config_agent;
    meta = cfg.config_meta;
    capabilities = cfg.config_capabilities;
    client_eph = eph;
    token_proof = [];
  }

  -- Handshake up to the HELLO that is sent: the private key, the HELLO and its transcript.
  unfoldable pub make_hello : Result (K × Hello × Bytes)
  make_hello = generate_ephemeral curves cfg.config_profile >>= λ pair.
      transcript_hello c cfg.config_profile (bare_hello pair.1) >>= λ th. ok (
        pair.0,
        record (bare_hello pair.1) {
          token_proof = token_proof_of c cfg.config_profile cfg.token th;
        },
        th,
      )

  -- deriveKeys.
  unfoldable pub derive_keys : K → HelloAck → Bytes → Bytes → Result SessionKeys
  derive_keys priv ack th proof = derive_zz curves cfg.config_profile priv ack.server_eph >>= λ zz.
      derive_session_keys_with_caps c cfg.config_profile zz th proof ack.selected_capabilities

  -- The checks on HELLO_ACK: the keys that it confirms.
  unfoldable pub confirm : K → Hello → Bytes → HelloAck → Result SessionKeys
  confirm priv hello th ack =
      validate_hello_ack (some ack)
      >> (derive_keys priv ack th hello.token_proof >>= λ keys.
          transcript_full c cfg.config_profile hello ack >>= λ full.
          refuse_if (not (finished_mac c keys full == ack.finished)) auth_failed >> ok keys)

  -- What is stored of a confirmed HELLO_ACK.
  unfoldable pub store_session : {D : Type 0} → HelloAck → SessionKeys → Client D → Client D
  store_session ack keys s = record s {
    keys = some keys;
    session_id = ack.session_id;
    negotiated = ack.selected_capabilities;
    codec = some (codec_for ack.selected_capabilities);
    limits = ack.limits;
    ledger =
        some
          (new_credit_ledger (credits_of ack.credits).batches (credits_of ack.credits).bytes 0 0);
    expiry = ack.expiry_unix;
  }

  -- The transition to READY after that.
  unfoldable pub enter_ready : {D : Type 0} → Result State → Client D → Client D × Result (Unit {0})
  enter_ready (err e) s = (s, err local_session)
  enter_ready (ok next) s = (record s { machine = next }, ok tt)

  unfoldable pub confirmed :
      {D : Type 0} → HelloAck → Result SessionKeys → Client D → Client D × Result (Unit {0})
  confirmed ack (err e) s = (s, err e)
  confirmed ack (ok keys) s =
      enter_ready (transition s.machine State.ready) (store_session ack keys s)

  -- Handshake from the server's answer on.
  unfoldable pub on_greeting :
      {D : Type 0} → K → Hello → Bytes → Greeting → Client D → Client D × Result (Unit {0})
  on_greeting priv hello th (nak_greeting code) s = (s, err auth_failed)
  on_greeting priv hello th bad_greeting s = (s, err local_handshake)
  on_greeting priv hello th (ack_greeting ack) s = confirmed ack (confirm priv hello th ack) s
