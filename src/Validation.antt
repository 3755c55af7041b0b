-- ===== src/Validation.antt =====
-- core/validation.go: the checks of identifiers, text and trace contexts. The source ranges over runes;
-- every test on a rune here singles out ASCII characters, which are single bytes in UTF-8, and a byte of
-- a longer or broken sequence is none of them, so the checks range over bytes.
pub mod Accepted
use mbta_go.Base.{
  ℕ, ◌+◌, ◌*◌, ◌-◌, ◌≡◌, List, [], ◌∷◌, Bool, true, false, ◌&&◌, ◌||◌, not, if◌then◌else◌,
}
use mbta_go.Base.{ltb, leb, eqb, Bytes, Option, none, some, all, any, length, replicate}
use mbta_go.Codes.{ErrCode, Result, ok, err, ◌>>◌, refuse_if, check_all, batch_invalid}
use mbta_go.Wire.{TraceContext, TraceStateEntry}

abbrev pub max_signal_field_len : ℕ
max_signal_field_len = 4096

abbrev pub max_trace_state_field_len : ℕ
max_trace_state_field_len = 256

abbrev pub max_agent_id_len : ℕ
max_agent_id_len = 256

abbrev pub control_char : ℕ → Bool
control_char b = (ltb b 32 && not (eqb b 9) && not (eqb b 10) && not (eqb b 13)) || eqb b 127

abbrev pub strict_control_char : ℕ → Bool
strict_control_char b = ltb b 32 || eqb b 127

unfoldable pub has_control_chars : Bytes → Bool
has_control_chars s = any control_char s

unfoldable pub has_strict_control_chars : Bytes → Bool
has_strict_control_chars s = any strict_control_char s

unfoldable pub validate_agent_id : Bytes → Result (Unit {0})
validate_agent_id agent_id =
    refuse_if (eqb (length agent_id) 0) batch_invalid
    >> refuse_if (ltb max_agent_id_len (length agent_id)) batch_invalid
    >> refuse_if (has_strict_control_chars agent_id) batch_invalid

unfoldable pub validate_text_field : Bytes → Result (Unit {0})
validate_text_field val =
    refuse_if (ltb max_signal_field_len (length val)) batch_invalid
    >> refuse_if (has_control_chars val) batch_invalid

-- '0' to '9' and 'a' to 'f'.
abbrev pub lower_hex : ℕ → Bool
lower_hex b = (leb 48 b && leb b 57) || (leb 97 b && leb b 102)

-- encoding/hex: the value of a digit of either case.
unfoldable pub hex_value : ℕ → Option ℕ
hex_value b =
    if leb 48 b && leb b 57
    then some (b - 48)
    else if leb 97 b && leb b 102
    then some (b - 87)
    else if leb 65 b && leb b 70
    then some (b - 55)
    else none

unfoldable pub hex_pair : Option ℕ → Option ℕ → Option Bytes → Option Bytes
hex_pair (some high) (some low) (some rest) = some ((16 * high + low) ∷ rest)
hex_pair _ _ _ = none

-- hex.Decode.
unfoldable pub hex_decode : Bytes → Option Bytes
hex_decode [] = some []
hex_decode (a ∷ []) = none
hex_decode (a ∷ b ∷ s) = hex_pair (hex_value a) (hex_value b) (hex_decode s)

-- The end of validateHexID: the digits must decode, and not to zeros alone.
unfoldable pub validate_decoded : Option Bytes → Result (Unit {0})
validate_decoded none = err batch_invalid
validate_decoded (some decoded) = refuse_if (all (λ b. eqb b 0) decoded) batch_invalid

unfoldable pub validate_hex_id : Bytes → ℕ → Result (Unit {0})
validate_hex_id val want_bytes =
    if eqb (length val) 0
    then ok tt
    else refuse_if (not (eqb (length val) (want_bytes * 2))) batch_invalid
      >> refuse_if (not (all lower_hex val)) batch_invalid
      >> validate_decoded (hex_decode val)

unfoldable pub validate_trace_state_entry_field : Bytes → Result (Unit {0})
validate_trace_state_entry_field val =
    refuse_if (ltb max_trace_state_field_len (length val)) batch_invalid
    >> refuse_if (has_control_chars val) batch_invalid

-- The body of the loop of validateTraceState.
unfoldable pub validate_entry : Option TraceStateEntry → Result (Unit {0})
validate_entry none = err batch_invalid
validate_entry (some e) =
    refuse_if (eqb (length e.key) 0) batch_invalid
    >> validate_trace_state_entry_field e.key
    >> validate_trace_state_entry_field e.value

unfoldable pub validate_trace_state : List (Option TraceStateEntry) → Result (Unit {0})
validate_trace_state entries =
    refuse_if (ltb 32 (length entries)) batch_invalid >> check_all validate_entry entries

-- ValidateBatchTraceContext.
unfoldable pub validate_batch_trace_context : Option TraceContext → Result (Unit {0})
validate_batch_trace_context none = ok tt
validate_batch_trace_context (some tc) =
    refuse_if (eqb (length tc.trace_id) 0) batch_invalid
    >> refuse_if (eqb (length tc.span_id) 0) batch_invalid
    >> validate_hex_id tc.trace_id 16
    >> validate_hex_id tc.span_id 8
    >> validate_hex_id tc.parent_span_id 8
    >> refuse_if (ltb 255 tc.trace_flags) batch_invalid
    >> validate_trace_state tc.trace_state
