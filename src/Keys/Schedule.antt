-- ===== src/Keys/Schedule.antt =====
-- The derivations of core/keyschedule.go and the token proofs of core/auth.go.
use mbta_go.Base.{
  ℕ, ◌+◌, ◌*◌, ◌≡◌, ◌↔◌, inl, inr, refl, sym, ap, ◌∙◌, List, [], ◌∷◌, true, if◌then◌else◌,
  Bool-cases, arith,
}
use mbta_go.Base.{
  eqb, Bytes, bytes_eq, bytes_eqb, bytes_eqb_iff, contains, Option, none, some, length, drop,
  length-take_le, length-drop,
}
use mbta_go.Codes.{ok, bind_ok}
use mbta_go.Policy.{cap_dual_integrity}
use mbta_go.Keys.{
  Crypto, SessionKeys, aead_key_len, hmac_key_len, new_aead, or_internal, split_keys,
  derive_session_keys, derive_session_keys_with_caps, derive_dual_mac_key, verify_token_proof,
  verify_candidates, token_proof_of, psk_ck,
}
use mathlib.Core.Path.{subst}

-- HKDF-Expand answers as many bytes as it is asked for.
abbrev pub IsExpand : Crypto → Type 0
IsExpand c =
    (profile : ℕ) (key info : Bytes) (n : ℕ) (out : Bytes)
    → c.expand profile key info n ≡ some out
    → length out ≡ n

-- Keys of the lengths that the profile's primitives take.
pub record IsKeyed (profile : ℕ) (keys : SessionKeys) : Type 0 where
  pub of_profile : keys.key_profile ≡ profile
  pub c2s : some (length keys.c2s_key) ≡ aead_key_len profile
  pub s2c : some (length keys.s2c_key) ≡ aead_key_len profile
  pub handshake : some (length keys.handshake_key) ≡ hmac_key_len profile
  pub prefix_c : length keys.nonce_prefix_c ≡ 4
  pub prefix_s : length keys.nonce_prefix_s ≡ 4

split_keys-IsKeyed :
    (c : Crypto) (profile n m : ℕ) (okm : Bytes)
    → length okm ≡ n * 2 + m + 8
    → aead_key_len profile ≡ some n
    → hmac_key_len profile ≡ some m
    → IsKeyed profile (split_keys c profile n m okm)
unfolding split_keys
split_keys-IsKeyed c profile n m okm size an hm =
    let rest : length (drop (n * 2) okm) ≡ m + 8 = omega (arith, length-drop (n * 2) okm) in
    let prefixes : length (drop m (drop (n * 2) okm)) ≡ 8 =
      omega (arith, length-drop m (drop (n * 2) okm)) in
    let second : length (drop n okm) ≡ n + m + 8 = omega (arith, length-drop n okm) in
    let server : length (drop 4 (drop m (drop (n * 2) okm))) ≡ 4 =
      omega (arith, length-drop 4 (drop m (drop (n * 2) okm))) in
    record {
      of_profile = refl;
      c2s = ap some (length-take_le n okm (omega arith)) ∙ sym an;
      s2c = ap some (length-take_le n (drop n okm) (omega arith)) ∙ sym an;
      handshake = ap some (length-take_le m (drop (n * 2) okm) (omega arith)) ∙ sym hm;
      prefix_c = length-take_le 4 (drop m (drop (n * 2) okm)) (omega arith);
      prefix_s = length-take_le 4 (drop 4 (drop m (drop (n * 2) okm))) (omega arith);
    }

or_internal_ok {ℓ} : {A : Type ℓ} (o : Option A) (a : A) → or_internal o ≡ ok a → o ≡ some a
unfolding or_internal
or_internal_ok none a h = cc
or_internal_ok (some b) a h = cc

derive_session_keys-IsKeyed :
    (c : Crypto) (profile : ℕ) (zz th proof : Bytes) (keys : SessionKeys)
    → IsExpand c
    → derive_session_keys c profile zz th proof ≡ ok keys
    → IsKeyed profile keys × (keys.dual_mac_key ≡ [])
unfolding derive_session_keys split_keys
derive_session_keys-IsKeyed c profile zz th proof keys law e =
    let (pck, e1, r1) = bind_ok (psk_ck c profile zz th proof) _ keys e in
    let (n, e2, r2) = bind_ok (or_internal (aead_key_len profile)) _ keys r1 in
    let (m, e3, r3) = bind_ok (or_internal (hmac_key_len profile)) _ keys r2 in
    let (okm, e4, r4) = bind_ok (or_internal (c.expand profile pck _ (n * 2 + m + 8))) _ keys r3 in
    let size = law profile pck _ (n * 2 + m + 8) okm (or_internal_ok _ okm e4) in
    let made =
      split_keys-IsKeyed c profile n m okm size (or_internal_ok _ n e2) (or_internal_ok _ m e3) in
    let same : split_keys c profile n m okm ≡ keys = ok_inj _ keys r4 in
    subst (λ k. IsKeyed profile k × (k.dual_mac_key ≡ [])) same (made, no_dual n m okm)
  where
    ok_inj : (a b : SessionKeys) → ok a ≡ ok b → a ≡ b
    ok_inj a b h = cc

    no_dual : (n m : ℕ) (okm : Bytes) → (split_keys c profile n m okm).dual_mac_key ≡ []
    no_dual n m okm = refl

new_aead_keyed :
    (c : Crypto) (profile : ℕ) (key : Bytes)
    → some (length key) ≡ aead_key_len profile
    → new_aead c profile key ≡ c.gcm profile key
unfolding new_aead
new_aead_keyed c profile key e = rw (← e, new_aead) (rw (same (length key)) refl)
  where
    same : (n : ℕ) → eqb n n ≡ true
    same n = ground arith

dual_length :
    (c : Crypto) (profile : ℕ) (zz th proof dk : Bytes)
    → IsExpand c
    → derive_dual_mac_key c profile zz th proof ≡ ok dk
    → some (length dk) ≡ hmac_key_len profile
unfolding derive_dual_mac_key
dual_length c profile zz th proof dk law e =
    let (pck, e1, r1) = bind_ok (psk_ck c profile zz th proof) _ dk e in
    let (m, e2, r2) = bind_ok (or_internal (hmac_key_len profile)) _ dk r1 in
    ap some (law profile pck _ m dk (or_internal_ok _ dk r2)) ∙ sym (or_internal_ok _ m e2)

-- What the key schedule answers has the lengths that the profile's AEAD and HMAC take, so `new_aead` is
-- the primitive's own answer, and an outer MAC key, of its length, exactly if dual_integrity was
-- negotiated, for an HKDF that answers as many bytes as it is asked for.
pub derive_session_keys_with_caps-IsKeyed :
    (c : Crypto) (profile : ℕ) (zz th proof : Bytes) (selected : List Bytes) (keys : SessionKeys)
    → IsExpand c
    → derive_session_keys_with_caps c profile zz th proof selected ≡ ok keys
    → IsKeyed profile keys
      × (new_aead c profile keys.c2s_key ≡ c.gcm profile keys.c2s_key)
      × (if contains selected cap_dual_integrity
          then some (length keys.dual_mac_key) ≡ hmac_key_len profile
          else (keys.dual_mac_key ≡ []))
unfolding derive_session_keys_with_caps
derive_session_keys_with_caps-IsKeyed c profile zz th proof selected keys law e =
    let (base, e1, r1) = bind_ok (derive_session_keys c profile zz th proof) _ keys e in
    let (keyed, none_yet) = derive_session_keys-IsKeyed c profile zz th proof base law e1 in
    elim (Bool-cases (contains selected cap_dual_integrity)) [
      | inl h ↦
          let (dk, e2, r2) =
            bind_ok (derive_dual_mac_key c profile zz th proof) _ keys (rw h at r1) in
          let with_dual = subst (λ k. IsKeyed profile k) (ok_inj _ keys r2) (again dk base keyed) in
          let dual = subst (λ k. k.dual_mac_key ≡ dk) (ok_inj _ keys r2) refl in
          rw h (with_dual, ready keys with_dual, rw dual (length-derive_dual_mac_key dk e2))
      | inr h ↦
          let same = ok_inj base keys (rw h at r1) in
          let kept = subst (λ k. IsKeyed profile k) same keyed in
          rw h (kept, ready keys kept, subst (λ k. k.dual_mac_key ≡ []) same none_yet)
    ]
  where
    ok_inj : (a b : SessionKeys) → ok a ≡ ok b → a ≡ b
    ok_inj a b h = cc

    again :
        (dk : Bytes) (k : SessionKeys)
        → IsKeyed profile k
        → IsKeyed profile (record k { dual_mac_key = dk })
    again dk k i = record {
      of_profile = i.of_profile;
      c2s = i.c2s;
      s2c = i.s2c;
      handshake = i.handshake;
      prefix_c = i.prefix_c;
      prefix_s = i.prefix_s;
    }

    ready :
        (k : SessionKeys)
        → IsKeyed profile k
        → new_aead c profile k.c2s_key ≡ c.gcm profile k.c2s_key
    ready k i = new_aead_keyed c profile k.c2s_key i.c2s

    length-derive_dual_mac_key :
        (dk : Bytes)
        → derive_dual_mac_key c profile zz th proof ≡ ok dk
        → some (length dk) ≡ hmac_key_len profile
    length-derive_dual_mac_key dk d = dual_length c profile zz th proof dk law d

verify_candidates_any :
    (c : Crypto) (profile : ℕ) (cands : List Bytes) (th proof : Bytes)
    → verify_candidates c profile cands th proof ≡ ok tt
    → (tok : Bytes) × (contains cands tok ≡ true) × (token_proof_of c profile tok th ≡ proof)
unfolding verify_candidates
verify_candidates_any c profile [] th proof h = cc
verify_candidates_any c profile (t ∷ ts) th proof h =
    elim (Bool-cases (bytes_eqb (token_proof_of c profile t th) proof)) [
      | inl e ↦ (
        t,
        ground (arith, bytes_eqb_iff t t),
        (bytes_eqb_iff (token_proof_of c profile t th) proof).0 e,
      )
      | inr e ↦
          let (tok, there, made) = verify_candidates_any c profile ts th proof (rw e at h) in
          (tok, ground arith, made)
    ]

verify_candidates_all :
    (c : Crypto) (profile : ℕ) (cands : List Bytes) (th proof tok : Bytes)
    → contains cands tok ≡ true
    → token_proof_of c profile tok th ≡ proof
    → verify_candidates c profile cands th proof ≡ ok tt
unfolding verify_candidates
verify_candidates_all c profile [] th proof tok h e = cc
verify_candidates_all c profile (t ∷ ts) th proof tok h e = elim (Bool-cases (bytes_eqb t tok)) [
  | inl m ↦
      let found =
        (bytes_eqb_iff (token_proof_of c profile t th) proof).1
          (ap (λ x. token_proof_of c profile x th) ((bytes_eqb_iff t tok).0 m) ∙ e) in
      rw found refl
  | inr m ↦ let rest = verify_candidates_all c profile ts th proof tok (rw m at h) e in ground arith
]

-- A token proof passes exactly if one of the agent's tokens makes it from the transcript.
pub verify_token_proof_iff :
    (c : Crypto) (profile : ℕ) (cands : List Bytes) (th proof : Bytes)
    → (verify_token_proof c (some cands) profile th proof ≡ ok tt)
      ↔ ((tok : Bytes) × (contains cands tok ≡ true) × (token_proof_of c profile tok th ≡ proof))
unfolding verify_token_proof
verify_token_proof_iff c profile cands th proof = (
  verify_candidates_any c profile cands th proof,
  λ (tok, there, made). verify_candidates_all c profile cands th proof tok there made,
)
