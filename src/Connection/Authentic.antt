-- ===== src/Connection/Authentic.antt =====
-- How a connection becomes authenticated in handleHello of internal/protocol/handler.go.
use mbta_go.Base.{arith, ℕ, ◌+◌, ◌≡◌, refl, ◌∙◌, List, [], ◌∷◌, ◌++◌, Bool, true, false, add64}
use mbta_go.Base.{eqb, Bytes, Option, none, some, Map}
use mbta_go.Codes.{
  Result, ok, err, num, internal, hello_eph_invalid, auth_failed, unsupported_profile,
  bad_handshake,
}
use mbta_go.Wire.{Hello, HelloAck}
use mbta_go.Session.{ServerState}
use mbta_go.Handshake.{validate_hello, build_hello_ack}
use mbta_go.Keys.{
  SessionKeys, transcript_hello, transcript_full, verify_token_proof, derive_session_keys_with_caps,
  finished_mac,
}
use mbta_go.Connection.{
  Host, Connection, Reply, ack_reply, nak_reply, generate_ephemeral, derive_zz, next_epoch,
  epoch_of, default_session_ttl, hello_nak_code,
}
use mbta_go.Connection.Greeting.{
  selected_of, finish, establish, with_keys, with_secret, with_pair, proved, hashed, matched,
  validated, decoded, handle_hello,
}
use mbta_go.Connection.Proven.{IsLater, finish-IsReady, refuse-authed, send_or_log-authed}

-- The HELLO_ACK of a handshake, before it has its MAC or with it.
abbrev pub ack_of : {K : Type 0} → Host K → Hello → ℕ → Map Bytes ℕ → Bytes → Bytes → HelloAck
ack_of host hello now epochs eph mac =
    build_hello_ack host.policy host.new_session (add64 (epoch_of hello.agent_id epochs) 1)
      (selected_of host hello) eph (now + default_session_ttl) mac

-- The keys of a handshake and all that they come from.
pub record IsDerived {K : Type 0} (host : Host K) (hello : Hello) (th : Bytes) (keys : SessionKeys)
    (eph : Bytes) : Type 0 where
  pub priv : K
  pub zz : Bytes
  pub drawn : generate_ephemeral host.curves hello.profile ≡ ok (priv, eph)
  pub secret : derive_zz host.curves hello.profile priv hello.client_eph ≡ ok zz
  pub derived :
      derive_session_keys_with_caps host.crypto hello.profile zz th hello.token_proof
        (selected_of host hello)
      ≡ ok keys

-- From the frames before and the epochs of a connection: the checks of the HELLO, the keys, and the
-- HELLO_ACK that went out first, with the next epoch of the agent and the MAC of the keys.
pub record IsProven {K : Type 0} (host : Host K) (hello : Hello) (now : ℕ) (before : List Reply)
    (epochs : Map Bytes ℕ) (n : Connection) : Type 0 where
  pub th : Bytes
  pub keys : SessionKeys
  pub eph : Bytes
  pub th_full : Bytes
  pub well_formed : validate_hello (some hello) ≡ ok tt
  pub own_profile : eqb hello.profile host.policy.policy_profile ≡ true
  pub hashed_hello : transcript_hello host.crypto hello.profile hello ≡ ok th
  pub proof :
      verify_token_proof host.crypto (host.tokens hello.agent_id) hello.profile th hello.token_proof
      ≡ ok tt
  pub agreed : IsDerived host hello th keys eph
  pub hashed_all :
      transcript_full host.crypto hello.profile hello (ack_of host hello now epochs eph [])
      ≡ ok th_full
  pub stored : n.session_keys ≡ some keys
  pub ready : n.machine ≡ ServerState.ready
  pub acknowledged :
      IsLater
        (before
          ++ (ack_reply (ack_of host hello now epochs eph (finished_mac host.crypto keys th_full))
              ∷ []))
        n.sent

module _ {K : Type 0} (host : Host K) (hello : Hello) (now : ℕ) where
  -- What has been checked up to the proof of the token.
  record IsChecked (th : Bytes) : Type 0 where
    well_formed : validate_hello (some hello) ≡ ok tt
    own_profile : eqb hello.profile host.policy.policy_profile ≡ true
    hashed_hello : transcript_hello host.crypto hello.profile hello ≡ ok th
    proof :
        verify_token_proof host.crypto
          (host.tokens hello.agent_id)
          hello.profile
          th
          hello.token_proof
        ≡ ok tt

  finish-IsProven :
      (th eph : Bytes) (keys : SessionKeys) (epochs : Map Bytes ℕ) (r : Result Bytes)
      (c : Connection)
      → IsChecked th
      → IsDerived host hello th keys eph
      → transcript_full host.crypto hello.profile hello (ack_of host hello now epochs eph []) ≡ r
      → c.session_keys ≡ some keys
      → c.authed ≡ false
      → (finish host hello keys (ack_of host hello now epochs eph []) r c).0.authed ≡ true
      → IsProven host hello now c.sent epochs
          (finish host hello keys (ack_of host hello now epochs eph []) r c).0
  unfolding finish build_hello_ack
  finish-IsProven th eph keys epochs (err e) c ck d h k a b =
      absurd (let s = refuse-authed host (num internal) e c in cc)
  finish-IsProven th eph keys epochs (ok tf) c ck d h k a b =
      let r = finish-IsReady host hello keys (ack_of host hello now epochs eph []) tf c a b in
      record {
        th = th;
        keys = keys;
        eph = eph;
        th_full = tf;
        well_formed = ck.well_formed;
        own_profile = ck.own_profile;
        hashed_hello = ck.hashed_hello;
        proof = ck.proof;
        agreed = d;
        hashed_all = h;
        stored = r.stored ∙ k;
        ready = r.ready;
        acknowledged = r.later;
      }

  -- The answer of a step, and what it proves if the connection is authenticated after it.
  abbrev Proves : Connection → Connection → Type 0
  Proves c n = n.authed ≡ true → IsProven host hello now c.sent c.epochs n

  establish-Proves :
      (th eph : Bytes) (keys : SessionKeys) (c : Connection)
      → IsChecked th
      → IsDerived host hello th keys eph
      → c.authed ≡ false
      → Proves c (establish host hello (selected_of host hello) eph keys now c).0
  unfolding establish next_epoch build_hello_ack
  establish-Proves th eph keys c ck d a b =
      finish-IsProven th eph keys c.epochs _ _ ck d refl refl a b

  -- A refusal proves nothing, for it leaves the connection unauthenticated.
  refused : (m n : Bool) → m ≡ n → n ≡ false → m ≡ true → ⊥
  refused m n e a b = ground arith

  with_keys-Proves :
      (th eph : Bytes) (r : Result SessionKeys) (c : Connection)
      → IsChecked th
      → ((keys : SessionKeys) → r ≡ ok keys → IsDerived host hello th keys eph)
      → c.authed ≡ false
      → Proves c (with_keys host hello (selected_of host hello) eph now r c).0
  unfolding with_keys
  with_keys-Proves th eph (err e) c ck d a b =
      absurd (refused _ _ (refuse-authed host (num internal) e c) a b)
  with_keys-Proves th eph (ok keys) c ck d a b = establish-Proves th eph keys c ck (d keys refl) a b

  with_secret-Proves :
      (th eph : Bytes) (priv : K) (r : Result Bytes) (c : Connection)
      → IsChecked th
      → generate_ephemeral host.curves hello.profile ≡ ok (priv, eph)
      → derive_zz host.curves hello.profile priv hello.client_eph ≡ r
      → c.authed ≡ false
      → Proves c (with_secret host hello (selected_of host hello) th eph now r c).0
  unfolding with_secret
  with_secret-Proves th eph priv (err e) c ck g z a b =
      absurd (refused _ _ (refuse-authed host (num hello_eph_invalid) e c) a b)
  with_secret-Proves th eph priv (ok zz) c ck g z a b =
      with_keys-Proves th eph _ c ck
        (λ keys k. record { priv = priv; zz = zz; drawn = g; secret = z; derived = k }) a b

  with_pair-Proves :
      (th : Bytes) (r : Result (K × Bytes)) (c : Connection)
      → IsChecked th
      → generate_ephemeral host.curves hello.profile ≡ r
      → c.authed ≡ false
      → Proves c (with_pair host hello (selected_of host hello) th now r c).0
  unfolding with_pair
  with_pair-Proves th (err e) c ck g a b =
      absurd (refused _ _ (refuse-authed host (num internal) e c) a b)
  with_pair-Proves th (ok (priv, eph)) c ck g a b = with_secret-Proves th eph priv _ c ck g refl a b

  proved-Proves :
      (th : Bytes) (r : Result (Unit {0})) (c : Connection)
      → (r ≡ ok tt → IsChecked th)
      → c.authed ≡ false
      → Proves c (proved host hello (selected_of host hello) th now r c).0
  unfolding proved
  proved-Proves th (err e) c ck a b =
      absurd (refused _ _ (send_or_log-authed host (nak_reply (num auth_failed) true 1000) c) a b)
  proved-Proves th (ok tt) c ck a b = with_pair-Proves th _ c (ck refl) refl a b

  hashed-Proves :
      (r : Result Bytes) (c : Connection)
      → validate_hello (some hello) ≡ ok tt
      → eqb hello.profile host.policy.policy_profile ≡ true
      → transcript_hello host.crypto hello.profile hello ≡ r
      → c.authed ≡ false
      → Proves c (hashed host hello (selected_of host hello) now r c).0
  unfolding hashed
  hashed-Proves (err e) c v p h a b =
      absurd (refused _ _ (refuse-authed host (num internal) e c) a b)
  hashed-Proves (ok th) c v p h a b =
      proved-Proves th _ c
        (λ q. record { well_formed = v; own_profile = p; hashed_hello = h; proof = q }) a b

  matched-Proves :
      (same : Bool) (c : Connection)
      → validate_hello (some hello) ≡ ok tt
      → eqb hello.profile host.policy.policy_profile ≡ same
      → c.authed ≡ false
      → Proves c (matched host same hello now c).0
  unfolding matched
  matched-Proves false c v p a b =
      absurd (refused _ _ (refuse-authed host (num unsupported_profile) unsupported_profile c) a b)
  matched-Proves true c v p a b = hashed-Proves _ _ v p refl a b

  validated-Proves :
      (r : Result (Unit {0})) (c : Connection)
      → validate_hello (some hello) ≡ r
      → c.authed ≡ false
      → Proves c (validated host hello now r c).0
  unfolding validated
  validated-Proves (err e) c v a b =
      absurd (refused _ _ (refuse-authed host (hello_nak_code e) e c) a b)
  validated-Proves (ok tt) c v a b = matched-Proves _ c v refl a b

decoded-IsProven :
    {K : Type 0} (host : Host K) (o : Option Hello) (now : ℕ) (c : Connection)
    → c.authed ≡ false
    → (decoded host o now c).0.authed ≡ true
    → (hello : Hello) × (o ≡ some hello)
      × IsProven host hello now c.sent c.epochs (decoded host o now c).0
unfolding decoded
decoded-IsProven host none now c a b =
    absurd (let s = refuse-authed host (num bad_handshake) bad_handshake c in cc)
decoded-IsProven host (some hello) now c a b =
    (hello, refl, validated-Proves host hello now _ c refl a b)

-- A connection that HELLO has authenticated was sent a well-formed HELLO of the policy's profile, with a
-- proof of one of the agent's tokens over its transcript; the keys in use come from this handshake's own
-- key pair, the client's and that proof, HELLO_ACK went out before anything else with the agent's next
-- epoch and the MAC of those keys over the whole transcript, and the server is READY.
pub handle_hello-IsProven :
    {K : Type 0} (host : Host K) (payload : Bytes) (now : ℕ) (c : Connection)
    → c.authed ≡ false
    → (handle_hello host payload now c).0.authed ≡ true
    → (hello : Hello) × (host.decode_hello payload ≡ some hello)
      × IsProven host hello now c.sent c.epochs (handle_hello host payload now c).0
unfolding handle_hello
handle_hello-IsProven host payload now c a b =
    decoded-IsProven host (host.decode_hello payload) now c a b
