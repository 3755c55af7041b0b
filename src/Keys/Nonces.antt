-- ===== src/Keys/Nonces.antt =====
-- The byte layouts of core/keyschedule.go: big-endian numbers, length prefixes, nonces.
use mbta_go.Base.{
  ℕ, zero, suc, ◌/◌, ◌%◌, ◌^◌, ◌<◌, ◌≡◌, refl, sym, ap, ◌∙◌, List, [], ◌∷◌, ◌++◌, arith,
}
use mbta_go.Base.{Bytes, length, IsU64, cons_inj, append_inj, take-length}
use mbta_go.Keys.{big_endian, len_prefixed, build_nonce, transcript}
use mathlib.Core.List.{append_assoc}

pub length-big_endian : (w v : ℕ) → length (big_endian w v) ≡ w
unfolding big_endian
length-big_endian zero v = refl
length-big_endian (suc w) v = ap suc (length-big_endian w v)

abbrev byte : ℕ → ℕ → ℕ
byte a w = a / 256 ^ w % 256

four_bytes :
    (a b : ℕ)
    → byte a 3 ≡ byte b 3
    → byte a 2 ≡ byte b 2
    → byte a 1 ≡ byte b 1
    → byte a 0 ≡ byte b 0
    → a % 2 ^ 32 ≡ b % 2 ^ 32
four_bytes a b h k l m = omega arith

big_endian_inj4 : (a b : ℕ) → big_endian 4 a ≡ big_endian 4 b → a % 2 ^ 32 ≡ b % 2 ^ 32
unfolding big_endian
big_endian_inj4 a b e =
    let (h3, e3) = cons_inj _ _ _ _ e in
    let (h2, e2) = cons_inj _ _ _ _ e3 in
    let (h1, e1) = cons_inj _ _ _ _ e2 in
    let (h0, e0) = cons_inj _ _ _ _ e1 in four_bytes a b h3 h2 h1 h0

-- The eight bytes of a number are the four of its upper half and the four of its lower.
big_endian-halves : (a : ℕ) → big_endian 8 a ≡ big_endian 4 (a / 2 ^ 32) ++ big_endian 4 a
unfolding big_endian
big_endian-halves a =
    let u3 : a / 4294967296 / 16777216 ≡ a / 72057594037927936 = omega arith in
    let u2 : a / 4294967296 / 65536 ≡ a / 281474976710656 = omega arith in
    let u1 : a / 4294967296 / 256 ≡ a / 1099511627776 = omega arith in
    let u0 : a / 4294967296 / 1 ≡ a / 4294967296 = omega arith in rw (u3, u2, u1, u0) refl

pub big_endian_inj8 : (a b : ℕ) → IsU64 a → IsU64 b → big_endian 8 a ≡ big_endian 8 b → a ≡ b
big_endian_inj8 a b ha hb e =
    let halves = sym (big_endian-halves a) ∙ e ∙ big_endian-halves b in
    let (high, low) =
      append_inj (big_endian 4 (a / 2 ^ 32)) (big_endian 4 (b / 2 ^ 32)) _ _
        (length-big_endian 4 _ ∙ sym (length-big_endian 4 _)) halves in
    whole (big_endian_inj4 (a / 2 ^ 32) (b / 2 ^ 32) high) (big_endian_inj4 a b low)
  where
    whole : a / 2 ^ 32 % 2 ^ 32 ≡ b / 2 ^ 32 % 2 ^ 32 → a % 2 ^ 32 ≡ b % 2 ^ 32 → a ≡ b
    whole h k = omega arith

-- A chunk with its length before it is told apart from what follows, up to 2 ^ 32 bytes.
pub len_prefixed_inj :
    (s t us vs : Bytes)
    → length s < 2 ^ 32
    → length t < 2 ^ 32
    → len_prefixed s ++ us ≡ len_prefixed t ++ vs
    → (s ≡ t) × (us ≡ vs)
unfolding len_prefixed
len_prefixed_inj s t us vs hs ht e =
    let parts =
      sym (append_assoc (big_endian 4 (length s)) s us)
      ∙ e
      ∙ append_assoc (big_endian 4 (length t)) t vs in
    let (lens, rest) =
      append_inj (big_endian 4 (length s)) (big_endian 4 (length t)) _ _
        (length-big_endian 4 _ ∙ sym (length-big_endian 4 _)) parts in
    append_inj s t us vs (same_length (big_endian_inj4 (length s) (length t) lens)) rest
  where
    same_length : length s % 2 ^ 32 ≡ length t % 2 ^ 32 → length s ≡ length t
    same_length h = omega arith

-- No two nonces are equal: the four bytes of prefix and the whole 64-bit seq can be read off one.
pub build_nonce_inj :
    (p q : Bytes) (a b : ℕ)
    → length p ≡ 4
    → length q ≡ 4
    → IsU64 a
    → IsU64 b
    → build_nonce p a ≡ build_nonce q b
    → (p ≡ q) × (a ≡ b)
unfolding build_nonce
build_nonce_inj p q a b hp hq ha hb e =
    let (fronts, seqs) =
      append_inj p q (big_endian 8 a) (big_endian 8 b) (hp ∙ sym hq)
        (rw (take-length 4 p hp, take-length 4 q hq) at e) in
    (fronts, big_endian_inj8 a b ha hb seqs)

-- Two lists of as many chunks, each below 2 ^ 32 bytes, that are hashed as one message are equal.
abbrev pub Short : List Bytes → Type 0
Short [] = Unit {0}
Short (s ∷ ss) = (length s < 2 ^ 32) × Short ss

pub transcript_inj :
    (ss ts : List Bytes)
    → Short ss
    → Short ts
    → length ss ≡ length ts
    → transcript ss ≡ transcript ts
    → ss ≡ ts
unfolding transcript
transcript_inj [] [] hs ht n e = refl
transcript_inj [] (t ∷ ts) hs ht n e = absurd (omega arith)
transcript_inj (s ∷ ss) [] hs ht n e = absurd (omega arith)
transcript_inj (s ∷ ss) (t ∷ ts) (hs, hss) (ht, hts) n e =
    let (a, b) = len_prefixed_inj s t (transcript ss) (transcript ts) hs ht e in
    let c = transcript_inj ss ts hss hts (omega arith) b in cc
