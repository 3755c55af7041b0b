-- ===== src/Connection/Proven.antt =====
-- What handleHello of internal/protocol/handler.go has done once a connection is authenticated.
use mathlib.Core.Path.{subst}
use mbta_go.Base.{ℕ, ◌≡◌, refl, sym, ap, ◌∙◌, List, [], ◌∷◌, ◌++◌, true, false, not, arith}
use mbta_go.Base.{
  eqb, Bytes, Option, none, some, contains, append_assoc, Bool-cases, inl, inr, length, bytes_eq,
  ◌||◌,
}
use mbta_go.Codes.{ErrCode, Result, ok, err}
use mbta_go.Wire.{Hello, HelloAck}
use mbta_go.Session.{ServerState, server_transition}
use mbta_go.Keys.{SessionKeys, finished_mac}
use mbta_go.Policy.{cap_zstd_dict}
use mbta_go.Connection.{
  Host, Connection, Answer, Reply, ack_reply, redirect_reply, dict_reply, send_or_log, send_or_fail,
  refuse, register_command_channel,
}
use mbta_go.Connection.Greeting.{
  and_then, maybe_send_dict, redirect_to, announce, become_ready, after_dict, after_ack, finish,
}

-- Frames that were sent after others.
pub record IsLater (before after : List Reply) : Type 0 where
  pub more : List Reply
  pub appended : after ≡ before ++ more

module _ {K : Type 0} (host : Host K) where
  pub send_or_log-authed : (r : Reply) (c : Connection) → (send_or_log host r c).authed ≡ c.authed
  unfolding send_or_log
  send_or_log-authed r c = ground arith

  pub refuse-authed :
      (code : ℕ) (e : ErrCode) (c : Connection) → (refuse host code e c).0.authed ≡ c.authed
  unfolding refuse
  refuse-authed code e c = send_or_log-authed _ c

  register-same :
      (agent : Bytes) (c : Connection)
      → let n = register_command_channel host agent c in
        (n.session_keys ≡ c.session_keys)
        × (n.machine ≡ c.machine)
        × (n.sent ≡ c.sent)
        × (n.authed ≡ c.authed)
  unfolding register_command_channel
  register-same agent c = ground arith

  redirect-same :
      (o : Option (Bytes × Bytes)) (c : Connection)
      → let n = (redirect_to host o c).0 in
        (n.session_keys ≡ c.session_keys) × (n.machine ≡ c.machine) × (n.authed ≡ c.authed)
  unfolding redirect_to
  redirect-same none c = (refl, refl, refl)
  redirect-same (some (addr, id)) c = ground arith

  announce-same :
      (agent : Bytes) (c : Connection)
      → let n = announce host agent c in
        (n.session_keys ≡ c.session_keys) × (n.machine ≡ c.machine) × (n.sent ≡ c.sent)
  unfolding announce
  announce-same agent c = ground arith

  append_nil : (xs : List Reply) → xs ≡ xs ++ []
  append_nil [] = refl
  append_nil (x ∷ xs) = ap (◌∷◌ x) (append_nil xs)

  redirect-IsLater :
      (o : Option (Bytes × Bytes)) (c : Connection) → IsLater c.sent (redirect_to host o c).0.sent
  unfolding redirect_to
  redirect-IsLater none c = record { more = []; appended = append_nil c.sent }
  redirect-IsLater (some (addr, id)) c = elim (Bool-cases (host.valid_host_port addr)) [
    | inr e ↦ rw e (record { more = []; appended = append_nil c.sent })
    | inl e ↦ elim (Bool-cases (host.writes (redirect_reply addr id))) [
      | inr f ↦ rw (e, f) (record { more = []; appended = append_nil c.sent })
      | inl f ↦ rw (e, f) (record { more = redirect_reply addr id ∷ []; appended = refl })
    ]
  ]

  send_or_fail_ok :
      (r : Reply) (c : Connection)
      → ((send_or_fail host r c).0.authed ≡ c.authed)
        × ((send_or_fail host r c).1 ≡ ok tt
            → (send_or_fail host r c).0 ≡ record c { sent = c.sent ++ (r ∷ []) })
  unfolding send_or_fail
  send_or_fail_ok r c = elim (Bool-cases (not (host.encodes r))) [
    | inl e ↦ rw e (refl, λ h. absurd cc)
    | inr e ↦ elim (Bool-cases (not (host.writes r))) [
      | inl f ↦ rw (e, f) (refl, λ h. absurd cc)
      | inr f ↦ rw (e, f) (refl, λ h. refl)
    ]
  ]

  and_then_authed :
      (first : Answer) (next : Connection → Answer)
      → first.0.authed ≡ false
      → (and_then first next).0.authed ≡ true
      → (first.1 ≡ ok tt) × (and_then first next ≡ next first.0)
  unfolding and_then
  and_then_authed (c, err e) next a b = absurd cc
  and_then_authed (c, ok tt) next a b = (refl, refl)

  -- What goes on after HELLO_ACK is out.
  pub record IsReady (c n : Connection) : Type 0 where
    pub stored : n.session_keys ≡ c.session_keys
    pub ready : n.machine ≡ ServerState.ready
    pub later : IsLater c.sent n.sent

  transition_ready :
      (m s : ServerState) → server_transition m ServerState.ready ≡ ok s → s ≡ ServerState.ready
  unfolding server_transition
  transition_ready m s h = ground arith

  become_ready-IsReady :
      (hello : Hello) (r : Result ServerState) (c : Connection)
      → c.authed ≡ false
      → ((s : ServerState) → r ≡ ok s → s ≡ ServerState.ready)
      → (become_ready host hello r c).0.authed ≡ true
      → IsReady c (become_ready host hello r c).0
  unfolding become_ready
  become_ready-IsReady hello (err e) c a goal b = absurd cc
  become_ready-IsReady hello (ok s) c a goal b =
      let c1 = record c { machine = s; authed = true } in
      let c2 = register_command_channel host hello.agent_id c1 in
      let c3 = announce host hello.agent_id c2 in
      let (k1, m1, s1, _) = register-same hello.agent_id c1 in
      let (k2, m2, s2) = announce-same hello.agent_id c2 in
      let (k3, m3, _) = redirect-same host.redirect c3 in
      record {
        stored = k3 ∙ (k2 ∙ k1);
        ready = m3 ∙ (m2 ∙ (m1 ∙ goal s refl));
        later =
            subst (λ l. IsLater l (redirect_to host host.redirect c3).0.sent) (s2 ∙ s1)
              (redirect-IsLater host.redirect c3);
      }

  join : (xs ys zs : List Reply) → IsLater xs ys → IsLater ys zs → IsLater xs zs
  join xs ys zs a b = record {
    more = a.more ++ b.more;
    appended = b.appended ∙ (ap (λ l. l ++ b.more) a.appended ∙ append_assoc xs a.more b.more);
  }

  dict-same :
      (selected : List Bytes) (c : Connection)
      → let r = maybe_send_dict host selected c in
        (r.0.session_keys ≡ c.session_keys) × (r.0.machine ≡ c.machine) × (r.0.authed ≡ c.authed)
  unfolding maybe_send_dict send_or_fail
  dict-same selected c = ground arith

  dict-IsLater :
      (selected : List Bytes) (c : Connection)
      → IsLater c.sent (maybe_send_dict host selected c).0.sent
  unfolding maybe_send_dict send_or_fail
  dict-IsLater selected c =
      let same : IsLater c.sent c.sent = record { more = []; appended = append_nil c.sent } in
      let r = dict_reply host.policy.zstd_dict_id host.policy.zstd_dict in
      elim (Bool-cases (not (contains selected cap_zstd_dict))) [
        | inl a ↦ rw a same
        | inr a ↦
            elim (Bool-cases
              (eqb (length host.policy.zstd_dict) 0 || eqb host.policy.zstd_dict_id 0)) [
                | inl b ↦ rw (a, b) same
                | inr b ↦ elim (Bool-cases (not (host.encodes r))) [
                  | inl e ↦ rw (a, b, e) same
                  | inr e ↦ elim (Bool-cases (not (host.writes r))) [
                    | inl f ↦ rw (a, b, e, f) same
                    | inr f ↦ rw (a, b, e, f) (record { more = r ∷ []; appended = refl })
                  ]
                ]
              ]
      ]

  after_dict-IsReady :
      (hello : Hello) (c : Connection)
      → c.authed ≡ false
      → (after_dict host hello c).0.authed ≡ true
      → IsReady c (after_dict host hello c).0
  unfolding after_dict
  after_dict-IsReady hello c a b =
      become_ready-IsReady hello (server_transition c.machine ServerState.ready) c a
        (transition_ready c.machine) b

  after_ack-IsReady :
      (hello : Hello) (selected : List Bytes) (c : Connection)
      → c.authed ≡ false
      → (after_ack host hello selected c).0.authed ≡ true
      → IsReady c (after_ack host hello selected c).0
  unfolding after_ack
  after_ack-IsReady hello selected c a b =
      let first = maybe_send_dict host selected c in
      let (k, m, s) = dict-same selected c in
      let (went, e) = and_then_authed first (after_dict host hello) (s ∙ a) b in
      let r = after_dict-IsReady hello first.0 (s ∙ a) (sym (ap (λ o. o.0.authed) e) ∙ b) in
      subst (λ o. IsReady c o.0) (sym e)
        (record {
          stored = r.stored ∙ k;
          ready = r.ready;
          later = join c.sent first.0.sent _ (dict-IsLater selected c) r.later;
        })

  pub finish-IsReady :
      (hello : Hello) (keys : SessionKeys) (ack : HelloAck) (th : Bytes) (c : Connection)
      → c.authed ≡ false
      → (finish host hello keys ack (ok th) c).0.authed ≡ true
      → let r = ack_reply (record ack { finished = finished_mac host.crypto keys th }) in
        IsReady (record c { sent = c.sent ++ (r ∷ []) }) (finish host hello keys ack (ok th) c).0
  unfolding finish
  finish-IsReady hello keys ack th c a b =
      let r = ack_reply (record ack { finished = finished_mac host.crypto keys th }) in
      let first = send_or_fail host r c in
      let (same, sent) = send_or_fail_ok r c in
      let (went, e) =
        and_then_authed first (after_ack host hello ack.selected_capabilities) (same ∙ a) b in
      subst (λ o. IsReady (record c { sent = c.sent ++ (r ∷ []) }) o.0) (sym e)
        (subst (λ x. IsReady x (after_ack host hello ack.selected_capabilities first.0).0)
          (sent went)
          (after_ack-IsReady hello ack.selected_capabilities first.0 (same ∙ a)
            (sym (ap (λ o. o.0.authed) e) ∙ b)))
