-- ===== src/Frame/Reading.antt =====
-- Read of core/frame.go on any bytes.
use mbta_go.Base.{
  ℕ, suc, zero, ◌+◌, ◌*◌, ◌^◌, ◌≤◌, ◌<◌, ◌≡◌, inl, inr, refl, sym, ap, ◌∙◌, ◌++◌, [], ◌∷◌, arith,
}
use mbta_go.Base.{eqb, Bytes, Bool-cases}
use mbta_go.Base.{length, take, drop, take-append-drop, length-take_le}
use mbta_go.Codes.{Result, ok, err, protocol_error}
use mbta_go.Frame.{
  Protowire, Frame, continues, read_frame, read_length, read_payload, read_varint, read_varint_loop,
  finish_varint, limit_of,
}
use mathlib.Core.Path.{subst}

-- A length that was read: its bytes stood at the front, `extra` and one, and it needs them all.
pub record IsRead (left i : ℕ) (r : Bytes) (v : ℕ) (rest : Bytes) : Type 0 where
  pub front : Bytes
  pub extra : ℕ
  pub splits : r ≡ front ++ rest
  pub size : length front ≡ suc extra
  pub bounded : extra < left
  pub minimal : 0 < i + extra → 2 ^ (7 * (i + extra)) ≤ v

finish_minimal :
    (pw : Protowire) (i v : ℕ) (encoded : Bytes)
    → finish_varint pw i encoded ≡ ok v
    → 0 < i
    → 2 ^ (7 * i) ≤ v
unfolding finish_varint
finish_minimal pw i v encoded e h = ground arith

read_varint_loop-IsRead :
    (pw : Protowire) (left i : ℕ) (encoded r : Bytes) (v : ℕ) (rest : Bytes)
    → read_varint_loop pw left i encoded r ≡ (ok v, rest)
    → IsRead left i r v rest
unfolding read_varint_loop
read_varint_loop-IsRead pw zero i encoded r v rest e = cc
read_varint_loop-IsRead pw (suc left) i encoded [] v rest e = cc
read_varint_loop-IsRead pw (suc left) i encoded (b ∷ r) v rest e = elim (Bool-cases (continues b)) [
  | inl c ↦
      let more =
        read_varint_loop-IsRead pw left (i + 1) (encoded ++ (b ∷ [])) r v rest (rw c at e) in
      let count : i + 1 + more.extra ≡ i + suc more.extra = omega arith in
      record {
        front = b ∷ more.front;
        extra = suc more.extra;
        splits = ap (◌∷◌ b) more.splits;
        size = ap suc more.size;
        bounded = omega (arith, more.bounded);
        minimal = λ p. rw (← count) (more.minimal (omega arith));
      }
  | inr c ↦
      let last = rw c at e in
      let count : i + 0 ≡ i = omega arith in
      record {
        front = b ∷ [];
        extra = 0;
        splits = ap (◌∷◌ b) (ap (λ p. p.1) last);
        size = refl;
        bounded = omega arith;
        minimal = λ p.
            rw count
              (finish_minimal pw i v (encoded ++ (b ∷ [])) (ap (λ p. p.0) last) (omega arith));
      }
]

-- An accepted varint length takes 1 to 10 bytes off the front, and as few as its value allows.
pub read_varint-IsRead :
    (pw : Protowire) (r : Bytes) (v : ℕ) (rest : Bytes)
    → read_varint pw r ≡ (ok v, rest)
    → IsRead 10 0 r v rest
unfolding read_varint
read_varint-IsRead pw r v rest e = read_varint_loop-IsRead pw 10 0 [] r v rest e

-- An accepted frame stands at the front of the input: a header of 3 to 12 bytes, then its payload.
pub record IsFramed (lim : ℕ) (r : Bytes) (f : Frame) (rest : Bytes) : Type 0 where
  pub head : Bytes
  pub splits : r ≡ head ++ (f.payload ++ rest)
  pub head_least : 3 ≤ length head
  pub head_most : length head ≤ 12
  pub no_flags : f.header.flags ≡ 0
  pub measured : f.header.len ≡ length f.payload
  pub limited : f.header.len ≤ limit_of lim

read_payload_taken :
    (lim typ flags n : ℕ) (r : Bytes) (f : Frame) (rest : Bytes)
    → read_payload lim typ flags n r ≡ (ok f, rest)
    → (n ≤ limit_of lim)
      × (n ≤ length r)
      × (f ≡ record { header = record { flags = flags; typ = typ; len = n }; payload = take n r })
      × (rest ≡ drop n r)
unfolding read_payload
read_payload_taken lim typ flags n r f rest e = ground arith

read_length-IsFramed :
    (pw : Protowire) (lim typ flags : ℕ) (r : Bytes) (f : Frame) (rest : Bytes)
    → flags ≡ 0
    → read_length pw lim typ flags r ≡ (ok f, rest)
    → IsFramed lim (typ ∷ flags ∷ r) f rest
unfolding read_length
read_length-IsFramed pw lim typ flags r f rest z e = split (read_varint pw r) refl
  where
    unfolded :
        (got : Result ℕ × Bytes)
        → read_varint pw r ≡ got
        → elim got.0 [
          | err c ↦ (err protocol_error, got.1)
          | ok n ↦ read_payload lim typ flags n got.1
        ]
          ≡ (ok f, rest)
    unfolded got q =
        subst
          (λ (x : Result ℕ × Bytes).
            elim x.0 [ err c ↦ (err protocol_error, x.1) | ok n ↦ read_payload lim typ flags n x.1 ]
            ≡ (ok f, rest))
          q e

    split :
        (got : Result ℕ × Bytes) → read_varint pw r ≡ got → IsFramed lim (typ ∷ flags ∷ r) f rest
    split (err c, mid) q = let bad = unfolded (err c, mid) q in cc
    split (ok n, mid) q =
        let h = read_varint-IsRead pw r n mid q in
        let (small, there, made, left) =
          read_payload_taken lim typ flags n mid f rest (unfolded (ok n, mid) q) in
        let whole : mid ≡ f.payload ++ rest = rw (made, left) (take-append-drop n mid) in
        record {
          head = typ ∷ flags ∷ h.front;
          splits = ap (λ s. typ ∷ flags ∷ s) (h.splits ∙ ap (λ s. h.front ++ s) whole);
          head_least = omega (arith, h.size);
          head_most = omega (arith, h.size, h.bounded);
          no_flags = rw made z;
          measured = rw made (sym (length-take_le n mid there));
          limited = rw made small;
        }

-- Whatever frame `read_frame` accepts stood at the front of the input behind a header of 3 to 12
-- bytes, with no flags, a length that is the payload's and within the limit, and nothing else is
-- taken from the input.
pub read_frame-IsFramed :
    (pw : Protowire) (lim : ℕ) (r : Bytes) (f : Frame) (rest : Bytes)
    → read_frame pw lim r ≡ (ok f, rest)
    → IsFramed lim r f rest
unfolding read_frame
read_frame-IsFramed pw lim [] f rest e = cc
read_frame-IsFramed pw lim (typ ∷ []) f rest e = cc
read_frame-IsFramed pw lim (typ ∷ flags ∷ r) f rest e = elim (Bool-cases (eqb flags 0)) [
  | inl z ↦ read_length-IsFramed pw lim typ flags r f rest (ground arith) (rw z at e)
  | inr z ↦ let bad = rw z at e in cc
]
