-- ===== src/Frame/RoundTrip.antt =====
-- Write and Read of core/frame.go together.
use mbta_go.Base.{ℕ, suc, zero, ◌+◌, ◌≤◌, ◌≡◌, refl, sym, ap, ◌∙◌, ◌++◌, List, [], ◌∷◌, arith}
use mbta_go.Base.{Bool, true, false, ltb, Bytes, none}
use mbta_go.Base.{length, IsU64, length-append, take-append, drop-append}
use mbta_go.Codes.{ok}
use mbta_go.Frame.{
  Protowire, IsProtowire, IsVarint, Frame, frame_parts, write_frame, write_parts, write_full,
  read_frame, read_length, read_payload, read_varint, read_varint_loop, finish_varint, limit_of,
  max_frame_bytes,
}
use mathlib.Core.List.{append_assoc, append-nil, flatten}
use native.Mathlib.Nat.{zero-add}

-- The loop takes a varint whole and leaves what follows.
read_varint_loop-IsVarint :
    (pw : Protowire) (bs : Bytes) (left i : ℕ) (encoded rest : Bytes)
    → IsVarint bs
    → length bs ≤ left
    → (j : ℕ) → suc j ≡ length bs
    → read_varint_loop pw left i encoded (bs ++ rest)
      ≡ (finish_varint pw (i + j) (encoded ++ bs), rest)
unfolding read_varint_loop
read_varint_loop-IsVarint pw [] left i encoded rest s h j e = elim s [ ]
read_varint_loop-IsVarint pw (b ∷ bs) zero i encoded rest s h j e = absurd (omega arith)
read_varint_loop-IsVarint pw (b ∷ []) (suc left) i encoded rest s h j e =
    let last : j ≡ 0 = omega arith in
    rw (s, last) (ap (λ (k : ℕ). (finish_varint pw k (encoded ++ (b ∷ [])), rest)) (omega arith))
read_varint_loop-IsVarint pw (b ∷ c ∷ bs) (suc left) i encoded rest (s, t) h zero e =
    absurd (omega arith)
read_varint_loop-IsVarint pw (b ∷ c ∷ bs) (suc left) i encoded rest (s, t) h (suc j) e =
    let next : i + suc j ≡ i + 1 + j = omega arith in
    rw (s, next)
      (read_varint_loop-IsVarint pw (c ∷ bs) left (i + 1) (encoded ++ (b ∷ [])) rest t (omega arith)
          j (omega arith)
        ∙ ap (λ bs'. (finish_varint pw (i + 1 + j) bs', rest))
            (append_assoc encoded (b ∷ []) (c ∷ bs)))

abbrev pub framed : ℕ → Bytes → Frame
framed typ payload = record {
  header = record { flags = 0; typ = typ; len = length payload };
  payload = payload;
}

read_payload_whole :
    (lim typ : ℕ) (payload rest : Bytes)
    → length payload ≤ limit_of lim
    → read_payload lim typ 0 (length payload) (payload ++ rest) ≡ (ok (framed typ payload), rest)
unfolding read_payload
read_payload_whole lim typ payload rest h =
    ground (arith, length-append payload rest, take-append payload rest, drop-append payload rest)

module _ (pw : Protowire) (laws : IsProtowire pw) where
  finish_written :
      (v j : ℕ)
      → IsU64 v
      → length (pw.append_varint v) ≡ suc j
      → finish_varint pw j (pw.append_varint v) ≡ ok v
  unfolding finish_varint
  finish_written v zero u e = rw (laws.reads v u) (ground (arith, laws.longest v u))
  finish_written v (suc j) u e =
      rw (laws.reads v u) (ground (arith, laws.longest v u, laws.shortest v j u e))

  IsVarint-length : (bs : Bytes) → IsVarint bs → (j : ℕ) × (length bs ≡ suc j)
  IsVarint-length [] s = elim s [ ]
  IsVarint-length (b ∷ bs) s = (length bs, refl)

  -- A uint64 that was written is read back, with what follows it left.
  read_varint-append_varint :
      (v : ℕ) (rest : Bytes) → IsU64 v → read_varint pw (pw.append_varint v ++ rest) ≡ (ok v, rest)
  unfolding read_varint
  read_varint-append_varint v rest u =
      let (j, e) = IsVarint-length (pw.append_varint v) (laws.shape v u) in
      read_varint_loop-IsVarint pw (pw.append_varint v) 10 0 [] rest (laws.shape v u)
        (laws.longest v u) j (sym e)
      ∙ rw (zero-add) (ap (λ r. (r, rest)) (finish_written v j u e))

  read_frame-wire :
      (lim typ : ℕ) (payload rest : Bytes)
      → length payload ≤ limit_of lim
      → length payload ≤ max_frame_bytes
      → read_frame pw lim (typ ∷ 0 ∷ (pw.append_varint (length payload) ++ (payload ++ rest)))
        ≡ (ok (framed typ payload), rest)
  unfolding read_frame read_length
  read_frame-wire lim typ payload rest h k =
      let e = read_varint-append_varint (length payload) (payload ++ rest) (omega arith) in
      rw (ap (λ r. r.0) e, read_length)
        (rw (ap (λ r. r.1) e) (read_payload_whole lim typ payload rest h))

flatten-frame_parts :
    (pw : Protowire) (typ : ℕ) (payload : Bytes)
    → flatten (frame_parts pw typ 0 payload)
      ≡ typ ∷ 0 ∷ (pw.append_varint (length payload) ++ payload)
unfolding flatten
flatten-frame_parts pw typ [] = refl
flatten-frame_parts pw typ (b ∷ bs) = rw (some_bytes) (simp append-nil)
  where
    some_bytes : ltb 0 (suc (length bs)) ≡ true
    some_bytes = ground arith

module _ {W : Type 0} (write : W → Bytes → W × ℕ × Bool) (output : W → Bytes) where
  -- A writer that takes all it is given.
  abbrev pub TakesAll : Type 0
  TakesAll =
      (w : W) (p : Bytes)
      → (output (write w p).0 ≡ output w ++ p)
        × ((write w p).1 ≡ length p)
        × ((write w p).2 ≡ false)

  all-write_full : TakesAll → (w : W) (p : Bytes) → (write_full write w p).1 ≡ true
  unfolding write_full
  all-write_full all w p = ground (arith, all w p)

  write_parts-TakesAll :
      TakesAll
      → (w : W) (ps : List Bytes)
      → (output (write_parts write w ps).0 ≡ output w ++ flatten ps)
        × ((write_parts write w ps).1 ≡ none)
  unfolding write_parts flatten
  write_parts-TakesAll all w [] = (sym (append-nil (output w)), refl)
  write_parts-TakesAll all w (p ∷ ps) =
      let (rest, fine) = write_parts-TakesAll all (write w p).0 ps in
      rw (all-write_full all w p, write_parts)
        (
          rest ∙ ap (λ o. o ++ flatten ps) (all w p).0 ∙ append_assoc (output w) p (flatten ps),
          fine,
        )

  passes :
      (pw : Protowire) (w : W) (typ : ℕ) (payload : Bytes)
      → length payload ≤ max_frame_bytes
      → write_frame write pw w typ 0 payload ≡ write_parts write w (frame_parts pw typ 0 payload)
  unfolding write_frame
  passes pw w typ payload h = ground arith

  write_frame-output :
      (pw : Protowire) (w : W) (typ : ℕ) (payload : Bytes)
      → TakesAll
      → length payload ≤ max_frame_bytes
      → (output (write_frame write pw w typ 0 payload).0
          ≡ output w ++ (typ ∷ 0 ∷ (pw.append_varint (length payload) ++ payload)))
        × ((write_frame write pw w typ 0 payload).1 ≡ none)
  write_frame-output pw w typ payload all h =
      let (o, fine) = write_parts-TakesAll all w (frame_parts pw typ 0 payload) in
      rw (passes pw w typ payload h)
        (o ∙ ap (◌++◌ (output w)) (flatten-frame_parts pw typ payload), fine)

-- What `write_frame` puts out on a writer that takes all it is given, `read_frame` reads back with the
-- type and the payload, and leaves what follows, for every payload up to the hard cap and the reader's
-- limit.
pub read_frame-write_frame :
    {W : Type 0} (write : W → Bytes → W × ℕ × Bool) (output : W → Bytes) (pw : Protowire) (w : W)
    (lim typ : ℕ) (payload rest : Bytes)
    → IsProtowire pw
    → TakesAll write output
    → output w ≡ []
    → length payload ≤ limit_of lim
    → length payload ≤ max_frame_bytes
    → let (w', failure) = write_frame write pw w typ 0 payload in
      (failure ≡ none) × (read_frame pw lim (output w' ++ rest) ≡ (ok (framed typ payload), rest))
read_frame-write_frame write output pw w lim typ payload rest laws all empty h k =
    let (o, fine) = write_frame-output write output pw w typ payload all k in
    (
      fine,
      ap (λ r. read_frame pw lim (r ++ rest)) (o ∙ ap (λ r. r ++ written) empty)
          ∙ ap (λ r. read_frame pw lim (typ ∷ 0 ∷ r))
              (append_assoc (pw.append_varint (length payload)) payload rest)
          ∙ read_frame-wire pw laws lim typ payload rest h k,
    )
  where
    written : Bytes
    written = typ ∷ 0 ∷ (pw.append_varint (length payload) ++ payload)
