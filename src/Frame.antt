-- ===== src/Frame.antt =====
-- core/frame.go: frames on the wire, [type][flags][varint length][payload]. A writer is any function
-- that takes bytes and reports how many it took; a reader is the bytes that are still to come, and a
-- read past them fails. protowire's two functions are a parameter.
pub mod RoundTrip
pub mod Reading
use mbta_go.Base.{ℕ, suc, zero, ◌+◌, ◌*◌, ◌/◌, ◌%◌, ◌^◌, ◌≤◌, ◌<◌, ◌≡◌, ◌++◌, List, [], ◌∷◌}
use mbta_go.Base.{
  Bool, true, false, ◌&&◌, ◌||◌, not, if◌then◌else◌, ltb, leb, eqb, sle, Bytes, Option, none, some,
}
use mbta_go.Base.{length, take, drop, IsU64}
use mbta_go.Codes.{ErrCode, protocol_error, Result, ok, err}

-- MaxFrameBytes, 16 << 20.
abbrev pub max_frame_bytes : ℕ
max_frame_bytes = 16777216

abbrev pub max_varint_len : ℕ
max_varint_len = 10

pub record Header : Type 0 where
  pub flags : ℕ
  pub typ : ℕ
  pub len : ℕ

pub record Frame : Type 0 where
  pub header : Header
  pub payload : Bytes

-- The top bit of a byte, `b & 0x80`.
abbrev pub continues : ℕ → Bool
continues b = eqb (b / 128 % 2) 1

-- The shape of a varint: every byte but the last says that it goes on.
abbrev pub IsVarint : Bytes → Type 0
IsVarint [] = ⊥
IsVarint (b ∷ []) = continues b ≡ false
IsVarint (b ∷ c ∷ bs) = (continues b ≡ true) × IsVarint (c ∷ bs)

-- google.golang.org/protobuf/encoding/protowire. `consume` answers the value and the bytes it took,
-- as an int: 0 or less is an error.
pub record Protowire : Type 0 where
  pub append_varint : ℕ → Bytes
  pub consume_varint : Bytes → ℕ × ℕ

-- What its documentation says of it: a uint64 takes 1 to 10 bytes, as few as can be, seven bits to a
-- byte, and is read back from them.
pub record IsProtowire (w : Protowire) : Type 0 where
  pub shape : (v : ℕ) → IsU64 v → IsVarint (w.append_varint v)
  pub longest : (v : ℕ) → IsU64 v → length (w.append_varint v) ≤ 10
  pub shortest :
      (v i : ℕ) → IsU64 v → length (w.append_varint v) ≡ suc (suc i) → 2 ^ (7 * suc i) ≤ v
  pub reads :
      (v : ℕ) → IsU64 v → w.consume_varint (w.append_varint v) ≡ (v, length (w.append_varint v))

-- What Write hands to the writer, one call each: the header, the length and the payload, if any.
abbrev pub frame_parts : Protowire → ℕ → ℕ → Bytes → List Bytes
frame_parts pw typ flags payload =
    let parts = if ltb 0 (length payload) then payload ∷ [] else [] in
    (typ ∷ flags ∷ []) ∷ pw.append_varint (length payload) ∷ parts

module _ {W : Type 0} (write : W → Bytes → W × ℕ × Bool) where
  -- writeFull; the flag of `write` is a non-nil error.
  unfoldable pub write_full : W → Bytes → W × Bool
  write_full w p = let (w', n, failed) = write w p in (w', not failed && eqb n (length p))

  unfoldable pub write_parts : W → List Bytes → W × Option ErrCode
  unfolding write_full
  write_parts w [] = (w, none)
  write_parts w (p ∷ ps) =
      let (w', done) = write_full w p in
      let rest = write_parts w' ps in if done then rest else (w', some protocol_error)

  -- Write.
  unfoldable pub write_frame : Protowire → W → ℕ → ℕ → Bytes → W × Option ErrCode
  write_frame pw w typ flags payload =
      if not (eqb flags 0)
      then (w, some protocol_error)
      else if ltb max_frame_bytes (length payload)
      then (w, some protocol_error)
      else write_parts w (frame_parts pw typ flags payload)

-- io.ReadFull of `n` bytes: the bytes, or none, and what is left to read.
abbrev pub read_full : ℕ → Bytes → Option Bytes × Bytes
read_full n r = if leb n (length r) then (some (take n r), drop n r) else (none, [])

-- The end of readVarint: the byte without the top bit has come.
unfoldable pub finish_varint : Protowire → ℕ → Bytes → Result ℕ
finish_varint pw i encoded =
    let (v, n) = pw.consume_varint encoded in
    if sle n 0
    then err protocol_error
    else if ltb 0 i && ltb v (2 ^ (7 * i))
    then err protocol_error
    else ok v

-- The loop of readVarint, with the rounds left, the round and the bytes so far.
unfoldable pub read_varint_loop : Protowire → ℕ → ℕ → Bytes → Bytes → Result ℕ × Bytes
read_varint_loop pw zero i encoded r = (err protocol_error, r)
read_varint_loop pw (suc left) i encoded [] = (err protocol_error, [])
read_varint_loop pw (suc left) i encoded (b ∷ r) =
    let more = read_varint_loop pw left (i + 1) (encoded ++ (b ∷ [])) r in
    if continues b then more else (finish_varint pw i (encoded ++ (b ∷ [])), r)

unfoldable pub read_varint : Protowire → Bytes → Result ℕ × Bytes
read_varint pw r = read_varint_loop pw max_varint_len 0 [] r

abbrev pub limit_of : ℕ → ℕ
limit_of lim = if eqb lim 0 then max_frame_bytes else lim

-- Read from the length on: a payload that is cut short is drained, so nothing is left of it.
unfoldable pub read_payload : ℕ → ℕ → ℕ → ℕ → Bytes → Result Frame × Bytes
read_payload lim typ flags n r =
    if ltb (limit_of lim) n
    then (err protocol_error, r)
    else let (got, rest) = read_full n r in
      elim got [
        | none ↦ (err protocol_error, rest)
        | some payload ↦ (
          ok (record { header = record { flags = flags; typ = typ; len = n }; payload = payload }),
          rest,
        )
      ]

unfoldable pub read_length : Protowire → ℕ → ℕ → ℕ → Bytes → Result Frame × Bytes
read_length pw lim typ flags r =
    let (got, rest) = read_varint pw r in
    elim got [ err e ↦ (err protocol_error, rest) | ok n ↦ read_payload lim typ flags n rest ]

-- Read.
unfoldable pub read_frame : Protowire → ℕ → Bytes → Result Frame × Bytes
read_frame pw lim [] = (err protocol_error, [])
read_frame pw lim (typ ∷ []) = (err protocol_error, [])
read_frame pw lim (typ ∷ flags ∷ r) =
    if not (eqb flags 0) then (err protocol_error, r) else read_length pw lim typ flags r
