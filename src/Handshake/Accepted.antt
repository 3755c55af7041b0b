-- ===== src/Handshake/Accepted.antt =====
-- The checks of core/message.go against a description of the messages.
use mbta_go.Base.{
  ℕ, ◌<◌, ◌≡◌, ◌↔◌, refl, List, [], ◌∷◌, Bool, true, ◌&&◌, ◌||◌, not, if◌then◌else◌, arith,
}
use mbta_go.Base.{ltb, leb, eqb, IsNonneg, Bytes, some, all, any, length}
use mbta_go.Codes.{ok, err, check_all_test, bad_handshake}
use mbta_go.Wire.{profile_intl, profile_gm, Hello}
use mbta_go.Validation.{validate_agent_id, has_strict_control_chars, strict_control_char}
use mbta_go.Policy.{ServerPolicy, validate_policy, validate_dict}
use mbta_go.Handshake.{
  validate_hello, validate_eph, ephemeral_pub_len, validate_meta_entry, validate_hello_meta_field,
  validate_hello_ack, build_hello_ack,
}

abbrev pub clean : Bytes → Bool
clean s = leb (length s) 256 && not (any strict_control_char s)

abbrev pub clean_entry : Bytes × Bytes → Bool
clean_entry (k, v) = clean k && clean v

validate_hello_meta_field-clean :
    (s : Bytes) → validate_hello_meta_field s ≡ (if clean s then ok tt else err bad_handshake)
unfolding validate_hello_meta_field has_strict_control_chars
validate_hello_meta_field-clean [] = refl
validate_hello_meta_field-clean (b ∷ s) = ground arith

validate_meta_entry-clean_entry :
    (e : Bytes × Bytes)
    → validate_meta_entry e ≡ (if clean_entry e then ok tt else err bad_handshake)
unfolding validate_meta_entry
validate_meta_entry-clean_entry (k, v) =
    ground (arith, validate_hello_meta_field-clean k, validate_hello_meta_field-clean v)

-- A HELLO is accepted exactly if it names an agent in 1 to 256 bytes without control characters, all of
-- its metadata is as clean, the ephemeral key is 32 bytes for the intl profile or 65 for gm, no other
-- profile is named, and there is a token proof.
pub validate_hello_iff :
    (m : Hello)
    → (validate_hello (some m) ≡ ok tt) ↔ (
        (ltb 0 (length m.agent_id)
          && clean m.agent_id
          && all clean_entry m.meta
          && ((eqb m.profile profile_intl && eqb (length m.client_eph) 32)
              || (eqb m.profile profile_gm && eqb (length m.client_eph) 65))
          && ltb 0 (length m.token_proof))
        ≡ true)
unfolding validate_hello validate_agent_id validate_eph ephemeral_pub_len has_strict_control_chars
validate_hello_iff m = ground (
  arith,
  check_all_test validate_meta_entry clean_entry bad_handshake validate_meta_entry-clean_entry
      m.meta,
)

-- A server whose policy passes never sends an acknowledgement that its client's check refuses, whatever
-- the session, as long as the expiry is positive and there is a finished MAC.
pub validate_hello_ack-build_hello_ack :
    (p : ServerPolicy) (session : Bytes) (epoch : ℕ) (selected : List Bytes) (server_eph : Bytes)
    (expires : ℕ) (finished : Bytes)
    → validate_policy p ≡ ok tt
    → 0 < expires
    → IsNonneg expires
    → 0 < length finished
    → validate_hello_ack
        (some (build_hello_ack p session epoch selected server_eph expires finished))
      ≡ ok tt
unfolding validate_hello_ack build_hello_ack validate_policy validate_dict
validate_hello_ack-build_hello_ack p session epoch selected server_eph expires finished h pos small
      mac =
    ground arith
