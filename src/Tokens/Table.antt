-- ===== src/Tokens/Table.antt =====
-- The two tables of core/auth.go's StaticTokenValidator, and the proofs that they let through.
use mbta_go.Base.{
  ℕ, ◌≡◌, ◌↔◌, inl, inr, refl, sym, ap, ◌∙◌, List, [], ◌∷◌, ◌++◌, Bool, true, false, arith,
}
use mbta_go.Base.{
  if◌then◌else◌, ◌&&◌, ◌||◌, ◌==◌, Bytes, bytes_eq, bytes_eqb_iff, Bool-cases, contains,
}
use mbta_go.Base.{Option, none, some, Map, lookup, lookup-insert}
use mbta_go.Codes.{ok}
use mbta_go.Keys.{Crypto, verify_token_proof, token_proof_of}
use mbta_go.Keys.Schedule.{verify_token_proof_iff}
use mbta_go.Tokens.{
  place, sort_strings, StaticTokenValidator, or_empty, enter_token, enter_tokens, keys_of,
  new_static_token_validator, resolve_token, known_agent, validate_token,
}

abbrev agent_of : Map Bytes Bytes → Bytes → Bytes
agent_of tokens t = or_empty (lookup t tokens)

contains-place :
    (t x : Bytes) (ss : List Bytes) → contains (place t ss) x ≡ ((t == x) || contains ss x)
unfolding place
contains-place t x [] = refl
contains-place t x (s ∷ ss) = ground (arith, contains-place t x ss)

contains-sort_strings : (x : Bytes) (ts : List Bytes) → contains (sort_strings ts) x ≡ contains ts x
unfolding sort_strings
contains-sort_strings x [] = refl
contains-sort_strings x (t ∷ ts) =
    contains-place t x (sort_strings ts) ∙ ap (λ b. (t == x) || b) (contains-sort_strings x ts)

contains-append_one :
    (xs : List Bytes) (t x : Bytes) → contains (xs ++ (t ∷ [])) x ≡ (contains xs x || (t == x))
contains-append_one [] t x = ground arith
contains-append_one (y ∷ xs) t x = ground (arith, contains-append_one xs t x)

contains-enter_token :
    (tokens : Map Bytes Bytes) (t : Bytes) (v : StaticTokenValidator) (agent x : Bytes)
    → contains (resolve_token (enter_token tokens t v) agent) x
      ≡ (contains (resolve_token v agent) x || ((agent_of tokens t == agent) && (t == x)))
unfolding resolve_token enter_token
contains-enter_token tokens t v agent x =
    let here = agent_of tokens t in
    let tables =
      lookup-insert here agent (or_empty (lookup here v.agent_to_tokens) ++ (t ∷ []))
        v.agent_to_tokens in
    elim (Bool-cases (here == agent)) [
      | inl e ↦
          rw
            (
              tables,
              e,
              (bytes_eqb_iff here agent).0 e,
              contains-append_one (or_empty (lookup agent v.agent_to_tokens)) t x,
            )
            refl
      | inr e ↦ rw (tables, e) (or_false (contains (or_empty (lookup agent v.agent_to_tokens)) x))
    ]
  where
    or_false : (b : Bool) → b ≡ (b || false)
    or_false true = refl
    or_false false = refl

-- Entering one more token, in Booleans.
spread :
    (a e h k : Bool) (c : Bool)
    → (e ≡ true → h ≡ k)
    → ((a || (h && e)) || (c && k)) ≡ (a || ((e || c) && k))
spread a true h k c f = let g = f refl in ground arith
spread a false h k c f = ground arith

contains-enter_tokens :
    (tokens : Map Bytes Bytes) (ts : List Bytes) (v : StaticTokenValidator) (agent x : Bytes)
    → contains (resolve_token (enter_tokens tokens ts v) agent) x
      ≡ (contains (resolve_token v agent) x || (contains ts x && (agent_of tokens x == agent)))
unfolding enter_tokens
contains-enter_tokens tokens [] v agent x = last (contains (resolve_token v agent) x)
  where
    last : (b : Bool) → b ≡ (b || false)
    last true = refl
    last false = refl
contains-enter_tokens tokens (t ∷ ts) v agent x =
    rw
      (
        contains-enter_tokens tokens ts (enter_token tokens t v) agent x,
        contains-enter_token tokens t v agent x,
      )
      (spread (contains (resolve_token v agent) x) (t == x) (agent_of tokens t == agent)
        (agent_of tokens x == agent) (contains ts x)
        (λ e. ap (λ s. agent_of tokens s == agent) ((bytes_eqb_iff t x).0 e)))

lookup-enter_tokens :
    (tokens : Map Bytes Bytes) (ts : List Bytes) (v : StaticTokenValidator) (x : Bytes)
    → lookup x (enter_tokens tokens ts v).token_to_agent
      ≡ (if contains ts x then some (agent_of tokens x) else lookup x v.token_to_agent)
unfolding enter_tokens enter_token
lookup-enter_tokens tokens [] v x = refl
lookup-enter_tokens tokens (t ∷ ts) v x =
    rw
      (
        lookup-enter_tokens tokens ts (enter_token tokens t v) x,
        lookup-insert t x (agent_of tokens t) v.token_to_agent,
      )
      (either (t == x) (contains ts x) (agent_of tokens t) (agent_of tokens x)
        (lookup x v.token_to_agent) (λ e. ap (agent_of tokens) ((bytes_eqb_iff t x).0 e)))
  where
    either :
        (e c : Bool) (here there : Bytes) (old : Option Bytes)
        → (e ≡ true → here ≡ there)
        → (if c then some there else if e then some here else old)
          ≡ (if e || c then some there else old)
    either e true here there old f = ground arith
    either true false here there old f = ap some (f refl)
    either false false here there old f = refl

lookup-keys_of :
    (x : Bytes) (tokens : Map Bytes Bytes)
    → lookup x tokens ≡ (if contains (keys_of tokens) x then some (agent_of tokens x) else none)
unfolding lookup keys_of
lookup-keys_of x [] = refl
lookup-keys_of x ((k, agent) ∷ tokens) = elim (Bool-cases (k == x)) [
  | inl e ↦ rw e refl
  | inr e ↦ rw e (lookup-keys_of x tokens)
]

-- Validate answers from the map itself.
pub validate_token-new_static_token_validator :
    (tokens : Map Bytes Bytes) (x : Bytes)
    → validate_token (new_static_token_validator tokens) x ≡ known_agent (lookup x tokens)
unfolding validate_token new_static_token_validator lookup
validate_token-new_static_token_validator tokens x = ap known_agent (
    lookup-enter_tokens tokens (sort_strings (keys_of tokens))
      record { token_to_agent = []; agent_to_tokens = [] } x
    ∙ (ap (λ b. if b then some (agent_of tokens x) else none)
          (contains-sort_strings x (keys_of tokens))
        ∙ sym (lookup-keys_of x tokens)))

held_iff :
    (c : Bool) (a agent : Bytes) (l : Option Bytes)
    → l ≡ (if c then some a else none)
    → ((c && (a == agent)) ≡ true) ↔ (l ≡ some agent)
held_iff true a agent l e =
    (λ h. e ∙ ap some ((bytes_eqb_iff a agent).0 h), λ h. (bytes_eqb_iff a agent).1 cc)
held_iff false a agent l e = (λ h. cc, λ h. cc)

-- ResolveToken answers with exactly the tokens that the map gives to the agent.
pub resolve_token-new_static_token_validator :
    (tokens : Map Bytes Bytes) (agent x : Bytes)
    → (contains (resolve_token (new_static_token_validator tokens) agent) x ≡ true)
      ↔ (lookup x tokens ≡ some agent)
unfolding new_static_token_validator resolve_token lookup
resolve_token-new_static_token_validator tokens agent x =
    let (there, back) =
      held_iff (contains (keys_of tokens) x) (agent_of tokens x) agent (lookup x tokens)
        (lookup-keys_of x tokens) in
    let entered =
      contains-enter_tokens tokens (sort_strings (keys_of tokens))
        record { token_to_agent = []; agent_to_tokens = [] } agent x
      ∙ ap (λ b. b && (agent_of tokens x == agent)) (contains-sort_strings x (keys_of tokens)) in
    (λ h. there (sym entered ∙ h), λ h. entered ∙ back h)

known_agent_iff : (l : Option Bytes) (agent : Bytes) → (l ≡ some agent) ↔ (known_agent l ≡ ok agent)
unfolding known_agent
known_agent_iff none agent = (λ h. cc, λ h. cc)
known_agent_iff (some a) agent = (λ h. cc, λ h. cc)

-- With the static table as validator, the proof of an agent passes exactly if some token that Validate
-- gives to this agent makes it from the transcript.
pub verify_token_proof-new_static_token_validator :
    (c : Crypto) (tokens : Map Bytes Bytes) (agent : Bytes) (profile : ℕ) (th proof : Bytes)
    → (verify_token_proof c
          (some (resolve_token (new_static_token_validator tokens) agent))
          profile
          th
          proof
        ≡ ok tt)
      ↔ ((tok : Bytes) × (validate_token (new_static_token_validator tokens) tok ≡ ok agent)
          × (token_proof_of c profile tok th ≡ proof))
verify_token_proof-new_static_token_validator c tokens agent profile th proof =
    let (found, passes) =
      verify_token_proof_iff c profile (resolve_token (new_static_token_validator tokens) agent) th
        proof in
    (
      λ h.
          let (tok, listed, made) = found h in
          (
            tok,
            validate_token-new_static_token_validator tokens tok
                ∙ (known_agent_iff (lookup tok tokens) agent).0
                    ((resolve_token-new_static_token_validator tokens agent tok).0 listed),
            made,
          ),
      λ (tok, valid, made). passes (
        tok,
        (resolve_token-new_static_token_validator tokens agent tok).1 (
            (known_agent_iff (lookup tok tokens) agent).1
              (sym (validate_token-new_static_token_validator tokens tok) ∙ valid)),
        made,
      ),
    )
