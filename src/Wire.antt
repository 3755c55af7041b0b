-- ===== src/Wire.antt =====
-- The messages of corepb/control.pb.go and corepb/signal.pb.go that the rest speaks of, field by field,
-- and their enumerations. An enumeration is an int32 on the wire, so a value without a name is one too;
-- a field that is a pointer may be nil.
use mbta_go.Base.{ℕ, Bytes, Option, List, Map}

-- Profile.
abbrev pub profile_intl : ℕ
profile_intl = 1

abbrev pub profile_gm : ℕ
profile_gm = 2

-- AckMode.
abbrev pub ack_mode_accepted_only : ℕ
ack_mode_accepted_only = 1

abbrev pub ack_mode_durable : ℕ
ack_mode_durable = 2

-- Codec.
abbrev pub codec_proto : ℕ
codec_proto = 1

abbrev pub codec_cbor : ℕ
codec_cbor = 2

-- Compression.
abbrev pub compression_none : ℕ
compression_none = 1

abbrev pub compression_gzip : ℕ
compression_gzip = 2

abbrev pub compression_zstd : ℕ
compression_zstd = 3

abbrev pub compression_lz4 : ℕ
compression_lz4 = 4

abbrev pub compression_zstd_dict : ℕ
compression_zstd_dict = 5

pub record Hello : Type 0 where
  pub profile : ℕ
  pub agent_id : Bytes
  pub meta : Map Bytes Bytes
  pub capabilities : List Bytes
  pub client_eph : Bytes
  pub token_proof : Bytes

pub record Limits : Type 0 where
  pub limit_frame_bytes : ℕ
  pub limit_batch_bytes : ℕ

pub record Credits : Type 0 where
  pub batches : ℕ
  pub bytes : ℕ

pub record HelloAck : Type 0 where
  pub session_id : Bytes
  pub epoch : ℕ
  pub ack_mode : ℕ
  pub selected_capabilities : List Bytes
  pub limits : Option Limits
  pub credits : Option Credits
  pub server_eph : Bytes
  pub finished : Bytes
  pub expiry_unix : ℕ

pub record Envelope : Type 0 where
  pub key_epoch : ℕ
  pub seq : ℕ
  pub compression : ℕ
  pub ciphertext : Bytes
  pub mac : Bytes

pub record TraceStateEntry : Type 0 where
  pub key : Bytes
  pub value : Bytes

pub record TraceContext : Type 0 where
  pub trace_id : Bytes
  pub span_id : Bytes
  pub parent_span_id : Bytes
  pub trace_flags : ℕ
  pub trace_state : List (Option TraceStateEntry)
