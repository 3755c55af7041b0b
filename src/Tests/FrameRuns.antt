-- ===== src/Tests/FrameRuns.antt =====
-- core/frame.go at concrete inputs, with a protowire and a writer that keeps what it is given.
use mbta_go.Base.{
  ℕ, suc, zero, ◌+◌, ◌^◌, ◌*◌, ◌≤◌, ◌<◌, ◌≡◌, refl, ◌++◌, [], ◌∷◌, Bool, true, false, arith,
}
use mbta_go.Base.{Bytes, none, length, ltb, if◌then◌else◌, Bool-cases, inl, inr, ◌%◌, ◌/◌}
use mbta_go.Codes.{ok}
use mbta_go.Frame.{
  Protowire, IsProtowire, IsVarint, continues, read_frame, write_frame, read_varint,
  read_varint_loop, finish_varint, read_length, read_payload, Frame,
}
use mbta_go.Frame.RoundTrip.{framed, read_frame-write_frame}
use mbta_go.Frame.Reading.{IsFramed, IsRead, read_frame-IsFramed, read_varint-IsRead}
use native.Mathlib.Nat.{pow-succ'}

-- Seven bits to a byte, least first, `left` more bytes at most.
abbrev encode : ℕ → ℕ → Bytes
encode zero v = v ∷ []
encode (suc left) v =
    let more = encode left (v / 128) in if ltb v 128 then v ∷ [] else (v % 128 + 128) ∷ more

abbrev decode : Bytes → ℕ × ℕ
decode [] = (0, 0)
decode (b ∷ bs) =
    let (v, n) = decode bs in if continues b then (b % 128 + 128 * v, suc n) else (b, 1)

abbrev wire : Protowire
wire = record { append_varint = encode 9; consume_varint = decode }

abbrev most : ℕ → ℕ
most zero = 128
most (suc left) = 128 * most left

continues_high : (v : ℕ) → continues (v % 128 + 128) ≡ true
continues_high v = ground arith

shape_cons : (b : ℕ) (bs : Bytes) → continues b ≡ true → IsVarint bs → IsVarint (b ∷ bs)
shape_cons b [] c s = elim s [ ]
shape_cons b (d ∷ bs) c s = (c, s)

encode-IsVarint : (left v : ℕ) → v < most left → IsVarint (encode left v)
encode-IsVarint zero v h = ground arith
encode-IsVarint (suc left) v h = elim (Bool-cases (ltb v 128)) [
  | inl c ↦ rw c (ground arith)
  | inr c ↦ rw c (
      shape_cons (v % 128 + 128) (encode left (v / 128)) (continues_high v)
        (encode-IsVarint left (v / 128) (omega arith)))
]

length-encode : (left v : ℕ) → length (encode left v) ≤ suc left
length-encode zero v = omega arith
length-encode (suc left) v = ground (arith, length-encode left (v / 128))

decode-encode : (left v : ℕ) → v < most left → decode (encode left v) ≡ (v, length (encode left v))
decode-encode zero v h = ground arith
decode-encode (suc left) v h = ground (arith, continues_high v, decode-encode left (v / 128))

pow_suc : (i : ℕ) → 2 ^ (7 * suc i) ≡ 128 * 2 ^ (7 * i)
pow_suc i =
    let seven : 7 * suc i ≡ suc (suc (suc (suc (suc (suc (suc (7 * i))))))) = omega arith in
    rw (seven, pow-succ') (omega arith)

encode_shortest : (left v i : ℕ) → length (encode left v) ≡ suc (suc i) → 2 ^ (7 * suc i) ≤ v
encode_shortest zero v i e = absurd (omega arith)
encode_shortest (suc left) v zero e = ground arith
encode_shortest (suc left) v (suc i) e =
    ground (arith, pow_suc (suc i), encode_shortest left (v / 128) i)

wire-IsProtowire : IsProtowire wire
wire-IsProtowire = record {
  shape = λ v u. encode-IsVarint 9 v (omega arith);
  longest = λ v u. length-encode 9 v;
  shortest = λ v i u e. encode_shortest 9 v i e;
  reads = λ v u. decode-encode 9 v (omega arith);
}

abbrev keep : Bytes → Bytes → Bytes × ℕ × Bool
keep w p = (w ++ p, length p, false)

read_frame-write_frame_example :
    let (w', failure) = write_frame keep wire [] 16 0 (7 ∷ 9 ∷ []) in
    (failure ≡ none) × (read_frame wire 0 (w' ++ (1 ∷ [])) ≡ (ok (framed 16 (7 ∷ 9 ∷ [])), 1 ∷ []))
read_frame-write_frame_example =
    read_frame-write_frame keep (λ w. w) wire [] 0 16 (7 ∷ 9 ∷ []) (1 ∷ []) wire-IsProtowire
      (λ w p. (refl, refl, refl)) refl (omega arith) (omega arith)

abbrev short_frame : Frame
short_frame = framed 16 (7 ∷ [])

short_read : read_frame wire 0 (16 ∷ 0 ∷ 1 ∷ 7 ∷ 5 ∷ []) ≡ (ok short_frame, 5 ∷ [])
unfolding read_frame read_length read_payload read_varint read_varint_loop finish_varint
short_read = refl

read_frame-IsFramed_example : IsFramed 0 (16 ∷ 0 ∷ 1 ∷ 7 ∷ 5 ∷ []) short_frame (5 ∷ [])
read_frame-IsFramed_example =
    read_frame-IsFramed wire 0 (16 ∷ 0 ∷ 1 ∷ 7 ∷ 5 ∷ []) short_frame (5 ∷ []) short_read

two_bytes : read_varint wire (129 ∷ 1 ∷ 5 ∷ []) ≡ (ok 129, 5 ∷ [])
unfolding read_varint read_varint_loop finish_varint
two_bytes = refl

read_varint-IsRead_example : IsRead 10 0 (129 ∷ 1 ∷ 5 ∷ []) 129 (5 ∷ [])
read_varint-IsRead_example = read_varint-IsRead wire (129 ∷ 1 ∷ 5 ∷ []) 129 (5 ∷ []) two_bytes
