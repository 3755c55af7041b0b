-- ===== src/Tests/TokenRuns.antt =====
-- core/auth.go at concrete inputs.
use mbta_go.Base.{◌≡◌, ◌↔◌, refl, [], ◌∷◌, Bytes, Map, lookup, insert}
use mbta_go.Codes.{ok}
use mbta_go.Base.{some}
use mbta_go.Wire.{profile_intl}
use mbta_go.Keys.{verify_token_proof, token_proof_of}
use mbta_go.Tokens.{
  new_static_token_validator, resolve_token, validate_token, enter_tokens, enter_token,
  sort_strings, place, keys_of, bytes_less,
}
use mbta_go.Tokens.Table.{verify_token_proof-new_static_token_validator}
use mbta_go.Tests.EnvelopeRuns.{bare}

-- Two tokens of one agent and one of another.
abbrev three_tokens : Map Bytes Bytes
three_tokens = (9 ∷ [], 65 ∷ []) ∷ (7 ∷ [], 66 ∷ []) ∷ (8 ∷ [], 65 ∷ []) ∷ []

-- The tokens of an agent come in the order of strings.
resolved_in_order :
    resolve_token (new_static_token_validator three_tokens) (65 ∷ []) ≡ (8 ∷ []) ∷ (9 ∷ []) ∷ []
unfolding resolve_token new_static_token_validator enter_tokens enter_token sort_strings place
    keys_of bytes_less lookup insert
resolved_in_order = refl

verify_token_proof-new_static_token_validator_example :
    (verify_token_proof bare
        (some (resolve_token (new_static_token_validator three_tokens) (65 ∷ [])))
        profile_intl
        (4 ∷ [])
        (1 ∷ 8 ∷ [])
      ≡ ok tt)
    ↔ ((tok : Bytes) × (validate_token (new_static_token_validator three_tokens) tok ≡ ok (65 ∷ []))
        × (token_proof_of bare profile_intl tok (4 ∷ []) ≡ (1 ∷ 8 ∷ [])))
verify_token_proof-new_static_token_validator_example =
    verify_token_proof-new_static_token_validator bare three_tokens (65 ∷ []) profile_intl (4 ∷ [])
      (1 ∷ 8 ∷ [])
