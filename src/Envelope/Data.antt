-- ===== src/Envelope/Data.antt =====
-- The associated data of core/envelope.go, byte by byte.
use mbta_go.Base.{ℕ, ◌%◌, ◌^◌, ◌≤◌, ◌<◌, ◌≡◌, sym, ◌∙◌, [], arith}
use mbta_go.Base.{Bytes, IsU64, length, cons_inj, append_inj}
use mbta_go.Keys.{big_endian, len_prefixed, profile_name}
use mbta_go.Keys.Nonces.{len_prefixed_inj, big_endian_inj8, length-big_endian}
use mbta_go.Envelope.{envelope_ad}
use mathlib.Core.List.{append-nil}

length-profile_name : (profile : ℕ) → length (profile_name profile) ≤ 4
unfolding profile_name
length-profile_name profile = ground arith

len_prefixed_end :
    (s t : Bytes) → length s < 2 ^ 32 → length t < 2 ^ 32 → len_prefixed s ≡ len_prefixed t → s ≡ t
len_prefixed_end s t hs ht e =
    (len_prefixed_inj s t [] [] hs ht
      (append-nil (len_prefixed s) ∙ e ∙ sym (append-nil (len_prefixed t)))).0

-- Two envelopes with the same associated data agree in frame type, session, epoch byte, seq,
-- compression byte and profile name, for session ids below 2 ^ 32 bytes.
pub envelope_ad_inj :
    (t t' : ℕ) (s s' : Bytes) (e e' q q' c c' p p' : ℕ)
    → length s < 2 ^ 32
    → length s' < 2 ^ 32
    → IsU64 q
    → IsU64 q'
    → envelope_ad t s e q c p ≡ envelope_ad t' s' e' q' c' p'
    → (t ≡ t')
      × (s ≡ s')
      × (e % 256 ≡ e' % 256)
      × (q ≡ q')
      × (c % 256 ≡ c' % 256)
      × (profile_name p ≡ profile_name p')
unfolding envelope_ad
envelope_ad_inj t t' s s' e e' q q' c c' p p' hs hs' hq hq' h =
    let (types, h1) = cons_inj _ _ _ _ h in
    let (flags, h2) = cons_inj _ _ _ _ h1 in
    let (sessions, h3) = len_prefixed_inj s s' _ _ hs hs' h2 in
    let (epochs, h4) = cons_inj _ _ _ _ h3 in
    let (seqs, h5) =
      append_inj (big_endian 8 q) (big_endian 8 q') _ _
        (length-big_endian 8 q ∙ sym (length-big_endian 8 q')) h4 in
    let (comps, h6) = cons_inj _ _ _ _ h5 in
    let names =
      len_prefixed_end (profile_name p) (profile_name p') (omega (arith, length-profile_name p))
        (omega (arith, length-profile_name p')) h6 in
    (types, sessions, epochs, big_endian_inj8 q q' hq hq' seqs, comps, names)
