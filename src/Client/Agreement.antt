-- ===== src/Client/Agreement.antt =====
-- The handshake from both ends: internal/protocol/client.go and internal/protocol/handler.go.
use mathlib.Core.Path.{subst}
use mbta_go.Base.{arith, ℕ, ◌≡◌, refl, sym, ◌∙◌, List, false, not}
use mbta_go.Base.{Bytes, bytes_eq, bytes_eqb_iff, ◌==◌, some, Map}
use mbta_go.Codes.{Result, ok, bind_ok}
use mbta_go.Wire.{Hello, HelloAck}
use mbta_go.Session.{State, transition, idle}
use mbta_go.Handshake.{validate_hello_ack, build_hello_ack}
use mbta_go.Keys.{
  SessionKeys, transcript_hello, transcript_full, canonical_hello, canonical_hello_ack,
  finished_mac,
}
use mbta_go.Connection.{Host, Connection, Reply, generate_ephemeral, derive_zz}
use mbta_go.Connection.Authentic.{IsProven, ack_of}
use mbta_go.Client.{
  ClientConfig, Client, ack_greeting, bare_hello, make_hello, derive_keys, confirm, confirmed,
  enter_ready, store_session, on_greeting,
}

module _ {K : Type 0} (host : Host K) (cfg : ClientConfig) where
  -- The HELLO of make_hello and the transcript under it.
  record IsMade (v : K × Hello × Bytes) : Type 0 where
    th_is : transcript_hello host.crypto v.1.profile v.1 ≡ ok (v.2)
    profile_is : v.1.profile ≡ cfg.config_profile

  triple_eq : (v w : K × Hello × Bytes) → Path (Result (K × Hello × Bytes)) (ok v) (ok w) → v ≡ w
  triple_eq v w h = cc

  make_hello-IsMade :
      (v : K × Hello × Bytes) → make_hello host.crypto host.curves cfg ≡ ok v → IsMade v
  unfolding make_hello transcript_hello canonical_hello
  make_hello-IsMade v h =
      let (pair, e1, r1) = bind_ok (generate_ephemeral host.curves cfg.config_profile) _ v h in
      let (th, e2, r2) =
        bind_ok
          (transcript_hello host.crypto cfg.config_profile
            (bare_hello host.crypto host.curves cfg pair.1))
          _ v r1 in
      subst IsMade (triple_eq _ v r2) (record { th_is = e2; profile_is = refl })

  same_bytes : (a : Bytes) → not (a == a) ≡ false
  same_bytes a = ground (arith, bytes_eqb_iff a a)

  transcript_eq : (a b : Bytes) → Path (Result Bytes) (ok a) (ok b) → a ≡ b
  transcript_eq a b h = cc

  confirm-IsProven :
      (v : K × Hello × Bytes) (now : ℕ) (before : List Reply) (epochs : Map Bytes ℕ)
      (n : Connection) (p : IsProven host v.1 now before epochs n)
      → IsMade v
      → derive_zz host.curves v.1.profile v.0 p.eph
        ≡ derive_zz host.curves v.1.profile p.agreed.priv v.1.client_eph
      → let ack = ack_of host v.1 now epochs p.eph (finished_mac host.crypto p.keys p.th_full) in
        validate_hello_ack (some ack) ≡ ok tt
        → confirm host.crypto host.curves cfg v.0 v.1 v.2 ack ≡ ok p.keys
  unfolding confirm derive_keys build_hello_ack transcript_full canonical_hello_ack
  confirm-IsProven v now before epochs n p m z w =
      let th : v.2 ≡ p.th = transcript_eq v.2 p.th (sym m.th_is ∙ p.hashed_hello) in
      rw
        (
          w,
          th,
          sym m.profile_is,
          z ∙ p.agreed.secret,
          p.agreed.derived,
          p.hashed_all,
          same_bytes (finished_mac host.crypto p.keys p.th_full),
        )
        refl

  confirmed-ready :
      {D : Type 0} (ack : HelloAck) (keys : SessionKeys) (r : Result SessionKeys) (s : Client D)
      → r ≡ ok keys
      → s.machine ≡ idle
      → confirmed host.crypto host.curves cfg ack r s ≡ (
        record (store_session host.crypto host.curves cfg ack keys s) { machine = State.ready },
        ok tt,
      )
  unfolding confirmed enter_ready transition store_session
  confirmed-ready ack keys r s e m = rw (e, m) refl

-- Both ends agree: if a server has been authenticated by the HELLO that a client made, the two key pairs
-- exchange to one secret, and the HELLO_ACK is well-formed, then the client accepts that HELLO_ACK, its
-- finished MAC included, is READY, and holds the very session keys that the server has stored, together
-- with the server's session id, capabilities, limits, credit and expiry.
pub handshake_agrees :
    {K D : Type 0} (host : Host K) (cfg : ClientConfig) (v : K × Hello × Bytes) (now : ℕ)
    (before : List Reply) (epochs : Map Bytes ℕ) (n : Connection) (s : Client D)
    (p : IsProven host v.1 now before epochs n)
    → make_hello host.crypto host.curves cfg ≡ ok v
    → derive_zz host.curves v.1.profile v.0 p.eph
      ≡ derive_zz host.curves v.1.profile p.agreed.priv v.1.client_eph
    → validate_hello_ack
        (some (ack_of host v.1 now epochs p.eph (finished_mac host.crypto p.keys p.th_full)))
      ≡ ok tt
    → s.machine ≡ idle
    → let ack = ack_of host v.1 now epochs p.eph (finished_mac host.crypto p.keys p.th_full) in
      (n.session_keys ≡ some p.keys)
      × (on_greeting host.crypto host.curves cfg v.0 v.1 v.2 (ack_greeting ack) s ≡ (
        record (store_session host.crypto host.curves cfg ack p.keys s) { machine = State.ready },
        ok tt,
      ))
unfolding on_greeting
handshake_agrees host cfg v now before epochs n s p made z w m = (
  p.stored,
  confirmed-ready host cfg _ p.keys _ s
      (confirm-IsProven host cfg v now before epochs n p (make_hello-IsMade host cfg v made) z w) m,
)
