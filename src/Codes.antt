-- ===== src/Codes.antt =====
-- core/errors.go: the registry of error codes, and the result of a fallible function. An `*Error`
-- is its code here: the message, the detail and the cause are text for logs.
use native.Mathlib.Omega.{arith}
use mbta_go.Base.{ℕ, ◌-◌, ◌^◌, ◌≡◌, refl, List, [], ◌∷◌, ltb, if◌then◌else◌, String}
use mbta_go.Base.{Map, lookup, insert, Option, none, some, Bool, nat_eq, all, true, false}

-- The `ErrCode` values of errors.go: the wire codes, the sentinel, and the local codes.
pub data ErrCode : Type 0 where
  code_ok auth_failed unsupported_profile unsupported_cap bad_handshake : ErrCode
  batch_too_large batch_invalid decompress_limit envelope_open_fail window_exceeded : ErrCode
  stale_epoch ledger_divergence result_level_bad ack_mode_bad credit_invalid : ErrCode
  hello_eph_invalid hello_proof_invalid server_draining internal unavailable : ErrCode
  protocol_error unknown : ErrCode
  local_config local_session local_batch local_handshake : ErrCode
  local_transport local_tls local_stream local_credential : ErrCode

unfoldable pub num : ErrCode → ℕ
num code_ok = 0
num auth_failed = 10
num unsupported_profile = 12
num unsupported_cap = 13
num bad_handshake = 14
num batch_too_large = 20
num batch_invalid = 21
num decompress_limit = 22
num envelope_open_fail = 23
num window_exceeded = 24
num stale_epoch = 25
num ledger_divergence = 26
num result_level_bad = 27
num ack_mode_bad = 28
num credit_invalid = 29
num hello_eph_invalid = 30
num hello_proof_invalid = 31
num server_draining = 32
num internal = 40
num unavailable = 41
num protocol_error = 42
num unknown = 2 ^ 32 - 1
num local_config = 2 ^ 32 - 2
num local_session = 2 ^ 32 - 3
num local_batch = 2 ^ 32 - 4
num local_handshake = 2 ^ 32 - 5
num local_transport = 2 ^ 32 - 6
num local_tls = 2 ^ 32 - 7
num local_stream = 2 ^ 32 - 8
num local_credential = 2 ^ 32 - 9

unfoldable pub name : ErrCode → String
name code_ok = "ok"
name auth_failed = "auth_failed"
name unsupported_profile = "unsupported_profile"
name unsupported_cap = "unsupported_capability"
name bad_handshake = "bad_handshake_message"
name batch_too_large = "batch_too_large"
name batch_invalid = "batch_invalid"
name decompress_limit = "decompress_limit"
name envelope_open_fail = "envelope_open_failed"
name window_exceeded = "window_exceeded"
name stale_epoch = "stale_epoch"
name ledger_divergence = "ledger_divergence"
name result_level_bad = "result_level_bad"
name ack_mode_bad = "ack_mode_bad"
name credit_invalid = "credit_invalid"
name hello_eph_invalid = "hello_eph_invalid"
name hello_proof_invalid = "hello_proof_invalid"
name server_draining = "server_draining"
name internal = "internal"
name unavailable = "unavailable"
name protocol_error = "protocol_error"
name unknown = "unknown"
name local_config = "invalid_config"
name local_session = "session_error"
name local_batch = "batch_error"
name local_handshake = "handshake_error"
name local_transport = "transport_error"
name local_tls = "tls_error"
name local_stream = "stream_error"
name local_credential = "invalid_credential"

-- The codes that `init` enters.
abbrev registered : List ErrCode
registered =
    code_ok ∷ auth_failed ∷ unsupported_profile ∷ unsupported_cap ∷ bad_handshake ∷ batch_too_large
    ∷ batch_invalid ∷ decompress_limit ∷ envelope_open_fail ∷ window_exceeded ∷ stale_epoch
    ∷ ledger_divergence ∷ result_level_bad ∷ ack_mode_bad ∷ credit_invalid ∷ hello_eph_invalid
    ∷ hello_proof_invalid ∷ server_draining ∷ internal ∷ unavailable ∷ protocol_error ∷ []

-- `for _, e := range … { codeRegistry[e.Num] = e }`
enter_all : List ErrCode → Map ℕ ErrCode → Map ℕ ErrCode
unfolding num insert
enter_all [] m = m
enter_all (e ∷ es) m = enter_all es (insert (num e) e m)

code_registry : Map ℕ ErrCode
unfolding enter_all
code_registry = enter_all registered []

name_or_unknown : Option ErrCode → String
unfolding name
name_or_unknown none = name unknown
name_or_unknown (some e) = name e

-- CodeName.
pub code_name : ℕ → String
unfolding name_or_unknown code_registry lookup
code_name c = name_or_unknown (lookup c code_registry)

-- The number of a code below 2 ^ 31 leads back to its own name, so no two wire codes share a number;
-- the local codes and the sentinel, above it, all read "unknown".
pub code_name-num :
    (e : ErrCode) → code_name (num e) ≡ (if ltb (num e) (2 ^ 31) then name e else "unknown")
unfolding code_name num name
code_name-num code_ok = refl
code_name-num _ = refl

-- The result of a fallible function.
pub data Result {ℓ} (A : Type ℓ) : Type ℓ where
  ok : A → Result A
  err : ErrCode → Result A

-- `if err := first; err != nil { return err }` and what follows it.
infixl 5 ◌>>◌ ◌>>=◌
abbrev pub ◌>>◌ {ℓ} : {A : Type ℓ} → Result (Unit {0}) → Result A → Result A
ok _ >> rest = rest
err c >> rest = err c

-- The same for a call that also returns a value.
abbrev pub ◌>>=◌ {ℓ κ} : {A : Type ℓ} {B : Type κ} → Result A → (A → Result B) → Result B
err c >>= rest = err c
ok value >>= rest = rest value

-- `if b { return NewError(c, …) }`
abbrev pub refuse_if : Bool → ErrCode → Result (Unit {0})
refuse_if b c = if b then err c else ok tt

-- A loop that returns the first error of its body.
unfoldable pub check_all {ℓ} : {A : Type ℓ} → (A → Result (Unit {0})) → List A → Result (Unit {0})
check_all check [] = ok tt
check_all check (x ∷ xs) = let rest = check_all check xs in check x >> rest

-- If the body's verdict is a test's, the loop's is the test of all.
pub check_all_test {ℓ} :
    {A : Type ℓ} (check : A → Result (Unit {0})) (p : A → Bool) (c : ErrCode)
    → ((x : A) → check x ≡ (if p x then ok tt else err c))
    → (xs : List A) → check_all check xs ≡ (if all p xs then ok tt else err c)
unfolding check_all
check_all_test check p c h [] = refl
check_all_test check p c h (x ∷ xs) = ground (arith, h x, check_all_test check p c h xs)

-- A chain that ends well had a first call that did.
pub bind_ok {ℓ κ} :
    {A : Type ℓ} {B : Type κ} (r : Result A) (k : A → Result B) (b : B)
    → (r >>= k) ≡ ok b
    → (a : A) × (r ≡ ok a) × (k a ≡ ok b)
bind_ok (ok a) k b h = (a, refl, h)
bind_ok (err c) k b h = cc

pub then_ok {ℓ} :
    {A : Type ℓ} (first : Result (Unit {0})) (rest : Result A) (a : A)
    → (first >> rest) ≡ ok a
    → (first ≡ ok tt) × (rest ≡ ok a)
then_ok (ok t) rest a h = (refl, h)
then_ok (err c) rest a h = cc

-- A refusal that did not happen.
pub refuse_if_ok : (b : Bool) (c : ErrCode) → refuse_if b c ≡ ok tt → b ≡ false
refuse_if_ok true c h = cc
refuse_if_ok false c h = refl
