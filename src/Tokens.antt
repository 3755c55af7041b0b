-- ===== src/Tokens.antt =====
-- core/auth.go: StaticTokenValidator, the static table of tokens and their agents.
pub mod Table
use mbta_go.Base.{ℕ, List, [], ◌∷◌, ◌++◌, Bool, true, false, if◌then◌else◌, ltb, eqb, ◌&&◌, ◌||◌}
use mbta_go.Base.{Bytes, bytes_eq, Option, none, some, Map, lookup, insert, map}
use mbta_go.Codes.{Result, ok, err, auth_failed}

-- The order of Go's strings.
unfoldable pub bytes_less : Bytes → Bytes → Bool
bytes_less [] [] = false
bytes_less [] (b ∷ bs) = true
bytes_less (a ∷ as') [] = false
bytes_less (a ∷ as') (b ∷ bs) = ltb a b || (eqb a b && bytes_less as' bs)

-- sort.Strings: any sort of distinct strings gives the same list.
unfoldable pub place : Bytes → List Bytes → List Bytes
place t [] = t ∷ []
place t (s ∷ ss) = let rest = place t ss in if bytes_less s t then s ∷ rest else t ∷ s ∷ ss

unfoldable pub sort_strings : List Bytes → List Bytes
sort_strings [] = []
sort_strings (t ∷ ts) = place t (sort_strings ts)

pub record StaticTokenValidator : Type 0 where
  pub token_to_agent : Map Bytes Bytes
  pub agent_to_tokens : Map Bytes (List Bytes)

-- A string of a map, "" if there is none, and the tokens of an agent, nil if there are none.
abbrev pub or_empty : {A : Type 0} → Option (List A) → List A
or_empty none = []
or_empty (some s) = s

-- The loop body of NewStaticTokenValidator.
unfoldable pub enter_token : Map Bytes Bytes → Bytes → StaticTokenValidator → StaticTokenValidator
enter_token tokens t v =
    let agent = or_empty (lookup t tokens) in
    record {
      token_to_agent = insert t agent v.token_to_agent;
      agent_to_tokens =
          insert agent (or_empty (lookup agent v.agent_to_tokens) ++ (t ∷ [])) v.agent_to_tokens;
    }

unfoldable pub enter_tokens :
    Map Bytes Bytes → List Bytes → StaticTokenValidator → StaticTokenValidator
enter_tokens tokens [] v = v
enter_tokens tokens (t ∷ ts) v = enter_tokens tokens ts (enter_token tokens t v)

unfoldable pub keys_of : Map Bytes Bytes → List Bytes
keys_of [] = []
keys_of ((k, v) ∷ m) = k ∷ keys_of m

-- NewStaticTokenValidator.
unfoldable pub new_static_token_validator : Map Bytes Bytes → StaticTokenValidator
new_static_token_validator tokens =
    enter_tokens tokens (sort_strings (keys_of tokens))
      record { token_to_agent = []; agent_to_tokens = [] }

-- ResolveToken.
unfoldable pub resolve_token : StaticTokenValidator → Bytes → List Bytes
resolve_token v agent = or_empty (lookup agent v.agent_to_tokens)

unfoldable pub known_agent : Option Bytes → Result Bytes
known_agent none = err auth_failed
known_agent (some agent) = ok agent

-- Validate.
unfoldable pub validate_token : StaticTokenValidator → Bytes → Result Bytes
validate_token v token = known_agent (lookup token v.token_to_agent)
