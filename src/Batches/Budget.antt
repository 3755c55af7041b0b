-- ===== src/Batches/Budget.antt =====
-- The token bucket of dgramAllow in internal/protocol/handler_batch.go over runs of datagrams.
use mbta_go.Base.{refl, ℕ, ◌+◌, ◌-◌, ◌^◌, ◌≤◌, ◌<◌, ◌≡◌, List, [], ◌∷◌, false, if◌then◌else◌}
use mbta_go.Base.{Bool-cases, add64, sub64, sle, some, arith, inl, inr}
use mbta_go.Batches.Datagram.{
  Bucket, Refill, new_bucket, dgram_allow, refilled, take_tokens, capped,
}

-- Datagrams as pairs of a length and the time of arrival.
abbrev pub Arrivals : Type 0
Arrivals = List (ℕ × ℕ)

-- The bytes that a bucket lets through, and the bucket after them.
unfoldable pub passed : Refill → Arrivals → Bucket → ℕ × Bucket
passed refill [] b = (0, b)
passed refill ((n, now) ∷ arrivals) b =
    let (allowed, b') = dgram_allow refill n now b in
    let (sum, last) = passed refill arrivals b' in ((if allowed then n else 0) + sum, last)

-- What the clock adds to a bucket from one arrival to the next, the first one counted from `before`.
unfoldable pub gained : Refill → ℕ → ℕ → Arrivals → ℕ
gained refill rate before [] = 0
gained refill rate before ((n, now) ∷ arrivals) =
    refill (now - before) rate + gained refill rate now arrivals

-- A bucket of a rate within int64, filled to at most a level, at most full, and last used at a time.
record IsFilled (rate now level : ℕ) (b : Bucket) : Type 0 where
  same : b.rate ≡ rate
  full : b.avail ≤ rate
  below : b.avail ≤ level
  used : b.last ≡ some now

capped_le : (a r : ℕ) → a < 2 ^ 63 → r < 2 ^ 63 → (capped a r ≤ a) × (capped a r ≤ r)
capped_le a r h k = ground arith

refilled-IsFilled :
    (refill : Refill) (rate now before level : ℕ) (b : Bucket)
    → IsFilled rate before level b
    → rate + refill (now - before) rate < 2 ^ 63
    → IsFilled rate now (level + refill (now - before) rate) (refilled refill now b)
unfolding refilled
refilled-IsFilled refill rate now before level b f small =
    let gain = refill (now - before) rate in
    let e : add64 b.avail gain ≡ b.avail + gain = omega (arith, f.full, small) in
    let (le, cap') =
      capped_le (b.avail + gain) rate (omega (arith, f.full, small)) (omega (arith, small)) in
    rw (f.used, f.same, e)
      (record { same = refl; full = cap'; below = omega (arith, le, f.below); used = refl })

take_tokens-IsFilled :
    (rate now level n : ℕ) (b : Bucket)
    → IsFilled rate now level b
    → rate < 2 ^ 63
    → n < 2 ^ 63
    → let (allowed, b') = take_tokens n b in
      let taken = if allowed then n else 0 in (taken ≤ level) × IsFilled rate now (level - taken) b'
unfolding take_tokens
take_tokens-IsFilled rate now level n b f r m = elim (Bool-cases (sle n b.avail)) [
  | inl e ↦
      let le : n ≤ b.avail = ground (arith, f.full) in
      let d : sub64 b.avail n ≡ b.avail - n = omega (arith, le, f.full, r) in
      rw (e, d)
        (
          omega (arith, le, f.below),
          record {
            same = f.same;
            full = omega (arith, f.full);
            below = omega (arith, f.below);
            used = f.used;
          },
        )
  | inr e ↦ rw e (
    omega arith,
    record { same = f.same; full = f.full; below = omega (arith, f.below); used = f.used },
  )
]

positive_rate : (rate : ℕ) → 0 < rate → rate < 2 ^ 63 → sle rate 0 ≡ false
positive_rate rate p r = ground arith

-- The arrivals fit int64, with what the clock adds for each.
abbrev pub IsMeasured : Refill → ℕ → ℕ → Arrivals → Type 0
IsMeasured refill rate before [] = Unit {0}
IsMeasured refill rate before ((n, now) ∷ arrivals) =
    (n < 2 ^ 63)
    × (rate + refill (now - before) rate < 2 ^ 63)
    × IsMeasured refill rate now arrivals

passed-IsFilled :
    (refill : Refill) (rate before level : ℕ) (arrivals : Arrivals) (b : Bucket)
    → IsFilled rate before level b
    → 0 < rate
    → rate < 2 ^ 63
    → IsMeasured refill rate before arrivals
    → ((passed refill arrivals b).0 ≤ level + gained refill rate before arrivals)
      × ((passed refill arrivals b).1.avail ≤ rate)
unfolding passed gained dgram_allow
passed-IsFilled refill rate before level [] b f p r ms = (omega arith, f.full)
passed-IsFilled refill rate before level ((n, now) ∷ arrivals) b f p r (m, small, ms) =
    let g = refilled-IsFilled refill rate now before level b f small in
    let (le, t) = take_tokens-IsFilled rate now _ n _ g r m in
    let q : sle b.rate 0 ≡ false = rw f.same (positive_rate rate p r) in
    let (sum, last) = passed-IsFilled refill rate now _ arrivals _ t p r ms in
    rw q (omega (arith, sum, le), last)

-- However datagrams arrive, a bucket with a rate lets through no more bytes than the rate and what the
-- clock has added since the first of them, and it is never filled above the rate, as long as lengths and
-- refills fit int64.
pub passed_le :
    (refill : Refill) (rate n now : ℕ) (arrivals : Arrivals)
    → 0 < rate
    → rate < 2 ^ 63
    → n < 2 ^ 63
    → IsMeasured refill rate now arrivals
    → let (sum, b) = passed refill ((n, now) ∷ arrivals) (new_bucket rate) in
      (sum ≤ rate + gained refill rate now arrivals) × (b.avail ≤ rate)
unfolding passed dgram_allow refilled
passed_le refill rate n now arrivals p r m ms =
    let f : IsFilled rate now rate (record { rate = rate; avail = rate; last = some now }) =
      record { same = refl; full = omega arith; below = omega arith; used = refl } in
    let (le, t) = take_tokens-IsFilled rate now rate n _ f r m in
    let (sum, last) = passed-IsFilled refill rate now _ arrivals _ t p r ms in
    rw (positive_rate rate p r) (omega (arith, sum, le), last)
