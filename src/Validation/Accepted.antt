-- ===== src/Validation/Accepted.antt =====
-- The checks of core/validation.go against a description of the fields.
use mbta_go.Base.{
  ℕ, zero, suc, ◌+◌, ◌*◌, ◌-◌, ◌≡◌, refl, List, [], ◌∷◌, Bool, true, false, ◌&&◌, ◌||◌, not,
  if◌then◌else◌, arith,
}
use mbta_go.Base.{ltb, leb, eqb, Bytes, Option, none, some, all, any, length, Bool-cases, inl, inr}
use mbta_go.Codes.{Result, ok, err, check_all_test, batch_invalid}
use mbta_go.Wire.{TraceContext, TraceStateEntry}
use mbta_go.Validation.{
  validate_hex_id, validate_decoded, hex_decode, hex_pair, hex_value, lower_hex,
  validate_batch_trace_context, validate_trace_state, validate_entry,
  validate_trace_state_entry_field, has_control_chars, control_char,
}

-- A test on values that are accepted or refused as invalid.
abbrev pub verdict : Bool → Result (Unit {0})
verdict b = if b then ok tt else err batch_invalid

-- An id: `n` bytes in lower-case hex, with a digit other than '0'.
abbrev pub hex_id : ℕ → Bytes → Bool
hex_id n s = eqb (length s) (n * 2) && all lower_hex s && any (λ b. not (eqb b 48)) s

hex_value-lower_hex :
    (b : ℕ) → lower_hex b ≡ true → (v : ℕ) × (hex_value b ≡ some v) × (eqb v 0 ≡ eqb b 48)
unfolding hex_value
hex_value-lower_hex b h = (if leb b 57 then b - 48 else b - 87, ground arith, ground arith)

zero_pair : (high low : ℕ) → eqb (16 * high + low) 0 ≡ (eqb high 0 && eqb low 0)
zero_pair high low = ground arith

de_morgan : (x y z : Bool) → ((x && y) && not z) ≡ not (not x || (not y || z))
de_morgan x y z = ground arith

-- Lower-case digits in pairs decode, and to zeros alone exactly if all are '0'.
validate_decoded-hex_decode :
    (s : Bytes) (n : ℕ)
    → length s ≡ n * 2
    → all lower_hex s ≡ true
    → (ds : Bytes) × (hex_decode s ≡ some ds)
      × (all (λ b. eqb b 0) ds ≡ not (any (λ b. not (eqb b 48)) s))
unfolding hex_decode hex_pair hex_value
validate_decoded-hex_decode [] n e h = ([], refl, refl)
validate_decoded-hex_decode (a ∷ []) n e h = absurd (omega arith)
validate_decoded-hex_decode (a ∷ b ∷ s) zero e h = absurd (omega arith)
validate_decoded-hex_decode (a ∷ b ∷ s) (suc n) e h =
    let (high, p, p0) = hex_value-lower_hex a (ground arith) in
    let (low, q, q0) = hex_value-lower_hex b (ground arith) in
    let (ds, r, r0) = validate_decoded-hex_decode s n (omega arith) (ground arith) in
    (
      (16 * high + low) ∷ ds,
      rw (p, q, r) refl,
      rw (zero_pair high low, p0, q0, r0)
          (de_morgan (eqb a 48) (eqb b 48) (any (λ c. not (eqb c 48)) s)),
    )

-- `validate_hex_id` accepts no id at all and an id of the wanted length in lower-case hex that is not
-- all zeros, and refuses everything else as an invalid batch.
pub validate_hex_id-hex_id :
    (val : Bytes) (n : ℕ) → validate_hex_id val n ≡ verdict (eqb (length val) 0 || hex_id n val)
unfolding validate_hex_id validate_decoded
validate_hex_id-hex_id val n = elim (Bool-cases (eqb (length val) (n * 2) && all lower_hex val)) [
  | inl h ↦
      let (ds, r, r0) = validate_decoded-hex_decode val n (ground arith) (ground arith) in
      rw r (ground arith)
  | inr h ↦ ground arith
]

abbrev pub entry_field : Bytes → Bool
entry_field s = leb (length s) 256 && not (any control_char s)

abbrev pub trace_entry : Option TraceStateEntry → Bool
trace_entry none = false
trace_entry (some e) = ltb 0 (length e.key) && entry_field e.key && entry_field e.value

validate_entry-trace_entry :
    (e : Option TraceStateEntry) → validate_entry e ≡ verdict (trace_entry e)
unfolding validate_entry validate_trace_state_entry_field has_control_chars
validate_entry-trace_entry none = refl
validate_entry-trace_entry (some e) = ground arith

pub validate_trace_state-all :
    (es : List (Option TraceStateEntry))
    → validate_trace_state es ≡ verdict (leb (length es) 32 && all trace_entry es)
unfolding validate_trace_state
validate_trace_state-all es =
    ground
      (arith, check_all_test validate_entry trace_entry batch_invalid validate_entry-trace_entry es)

abbrev pub trace_context : TraceContext → Bool
trace_context tc =
    hex_id 16 tc.trace_id
    && hex_id 8 tc.span_id
    && (eqb (length tc.parent_span_id) 0 || hex_id 8 tc.parent_span_id)
    && leb tc.trace_flags 255
    && leb (length tc.trace_state) 32
    && all trace_entry tc.trace_state

-- A batch's trace context is accepted exactly if it has a trace id of 16 bytes and a span id of 8, in
-- lower-case hex and not all zeros, a parent span id like it or none, flags of one byte and at most 32
-- state entries, each with a key and with short, clean fields; all else is an invalid batch.
pub validate_batch_trace_context-trace_context :
    (tc : TraceContext) → validate_batch_trace_context (some tc) ≡ verdict (trace_context tc)
unfolding validate_batch_trace_context
validate_batch_trace_context-trace_context tc = ground (
  arith,
  validate_hex_id-hex_id tc.trace_id 16,
  validate_hex_id-hex_id tc.span_id 8,
  validate_hex_id-hex_id tc.parent_span_id 8,
  validate_trace_state-all tc.trace_state,
)
