-- ===== src/Credit/Interleaving.antt =====
-- Any interleaving of calls on one manager of core/credit.go, by handlers, sinks and the reaper, with
-- any grants, live, spent or lost.
use mbta_go.Base.{
  ℕ, suc, zero, ◌+◌, ◌^◌, ◌≤◌, ◌<◌, ◌≡◌, ◌≢◌, refl, Bool, true, ◌||◌, ◌&&◌, not, if◌then◌else◌,
}
use mbta_go.Base.{eqb, lookup, nat_eq, length, lookup-delete, arith, none, ◌⊎◌, inl, inr, [], Bytes}
use mbta_go.Base.{Bool-cases, Option-cases, length-insert, lookup-insert}
use mbta_go.Credit.Manager.{
  CreditManager, SettleGrant, TerminalEntry, is_covered, admit, settle, settled,
}
use mbta_go.Credit.Manager.{
  accept, has, consume, backfill, release, take_recovered, force_settle, advance_low, recorded,
  reaper_grant,
}
use mbta_go.Credit.Dedup.{admit_iff, is_covered-settled}
use mbta_go.Credit.Prefix.{advance_low-budget}

-- A call that the seq outlives: any call, but for the two that give a place back, Release and a Consume
-- that fails, on a grant of that very seq.
pub data Call (seq : ℕ) (m : CreditManager) : CreditManager → Type 0 where
  admits : {n : CreditManager} (k now : ℕ) → n ≡ (admit m k now).0 → Call seq m n
  consumes :
      {n : CreditManager} (g : SettleGrant) (bytes : ℕ)
      → n ≡ (consume m g bytes).0
      → (g.seq ≢ seq) ⊎ ((consume m g bytes).2 ≡ none)
      → Call seq m n
  backfills : {n : CreditManager} (g : SettleGrant) (c : Bytes) → n ≡ backfill m g c → Call seq m n
  settles :
      {n : CreditManager} (g : SettleGrant) (level code retry_ms frame_bytes : ℕ)
      → n ≡ (settle m g level code retry_ms frame_bytes).0
      → Call seq m n
  forces :
      {n : CreditManager} (k level code retry_ms frame_bytes : ℕ)
      → n ≡ (force_settle m k level code retry_ms frame_bytes).0
      → Call seq m n
  releases :
      {n : CreditManager} (g : SettleGrant) → n ≡ (release m g).0 → g.seq ≢ seq → Call seq m n
  takes : {n : CreditManager} → n ≡ (take_recovered m).0 → Call seq m n

-- Histories of so many calls.
pub data History (seq : ℕ) (m : CreditManager) : ℕ → CreditManager → Type 0 where
  here : History seq m zero m
  next : {k : ℕ} {n o : CreditManager} → History seq m k n → Call seq n o → History seq m (suc k) o

-- In flight, or accepted before.
abbrev pub taken : CreditManager → ℕ → Bool
taken m seq = has (lookup seq m.seen) || is_covered m seq

abbrev budget : CreditManager → ℕ
budget m = m.low + length m.accepted

-- What one call keeps of a seq, within the budget.
record IsKept (seq : ℕ) (m n : CreditManager) : Type 0 where
  still : taken m seq ≡ true → taken n seq ≡ true
  spends : budget n ≤ budget m + 1

settled-IsKept :
    (seq : ℕ) (m : CreditManager) (k bytes : ℕ) (e : TerminalEntry)
    → budget m + 1 < 2 ^ 64
    → IsKept seq m (settled m k e bytes)
settled-IsKept seq m k bytes e b = record {
  still = λ t. ground (arith, is_covered-settled m k bytes seq e b, seen_elsewhere);
  spends =
      unfold settled in
      omega (
        arith,
        advance_low-budget (recorded m k e bytes) (omega (arith, length-insert k true m.accepted)),
        length-insert k true m.accepted,
      );
}
  where
    seen_elsewhere :
        lookup seq (settled m k e bytes).seen ≡ (if eqb k seq then none else lookup seq m.seen)
    seen_elsewhere = unfold settled advance_low in lookup-delete k seq m.seen

-- Settle leaves the manager, or settles it.
settle_cases {ℓ} :
    (P : CreditManager → Type ℓ) (m : CreditManager) (g : SettleGrant)
    (level code retry_ms frame_bytes : ℕ)
    → P m
    → ((bytes : ℕ) → P (settled m g.seq (record { level = level; code = code }) bytes))
    → P (settle m g level code retry_ms frame_bytes).0
unfolding settle
settle_cases P m g level code retry_ms frame_bytes same new = elim (Bool-cases g.done) [
  | inl d ↦ rw (d, settle) same
  | inr d ↦ elim (Bool-cases (has (lookup g.seq m.terminal) && not (has (lookup g.seq m.seen)))) [
    | inl s ↦ rw (d, s, settle) same
    | inr s ↦ rw (d, s, settle) (new _)
  ]
]

force_cases {ℓ} :
    (P : CreditManager → Type ℓ) (m : CreditManager) (k level code retry_ms frame_bytes : ℕ)
    → P m
    → ((bytes : ℕ) → P (settled m k (record { level = level; code = code }) bytes))
    → P (force_settle m k level code retry_ms frame_bytes).0
unfolding force_settle
force_cases P m k level code retry_ms frame_bytes same new = elim (Option-cases (lookup k m.seen)) [
  | inl e ↦ rw (e, force_settle) same
  | inr (s, e) ↦
      rw (e, force_settle) (settle_cases P m (reaper_grant k) level code retry_ms _ same new)
]

unmoved :
    (seq : ℕ) (m n : CreditManager)
    → n.low ≡ m.low
    → n.accepted ≡ m.accepted
    → (taken m seq ≡ true → taken n seq ≡ true)
    → IsKept seq m n
unmoved seq m n p q t = record { still = t; spends = rw (p, q) (omega arith) }

Call-IsKept :
    (seq : ℕ) (m n : CreditManager) → budget m + 1 < 2 ^ 64 → Call seq m n → IsKept seq m n
unfolding admit consume backfill release take_recovered
Call-IsKept seq m n b (admits k now e) = ground (
  arith,
  lookup-insert k seq (record { seq = k; bytes = 0; correlation = []; added_at = now }) m.seen,
)
Call-IsKept seq m n b (consumes g bytes e h) = elim (Option-cases (lookup g.seq m.seen)) [
  | inl q ↦ ground (arith, lookup-delete g.seq seq m.seen)
  | inr (s, q) ↦ ground (
    arith,
    lookup-delete g.seq seq m.seen,
    lookup-insert g.seq seq (record s { bytes = bytes }) m.seen,
  )
]
Call-IsKept seq m n b (backfills g c e) = elim (Option-cases (lookup g.seq m.seen)) [
  | inl q ↦ ground arith
  | inr (s, q) ↦ ground (arith, lookup-insert g.seq seq (record s { correlation = c }) m.seen)
]
Call-IsKept seq m n b (settles g level code retry_ms frame_bytes e) = rw e (
    settle_cases (IsKept seq m) m g level code retry_ms frame_bytes
      (unmoved seq m m refl refl (λ t. t)) (λ bytes. settled-IsKept seq m g.seq bytes _ b))
Call-IsKept seq m n b (forces k level code retry_ms frame_bytes e) = rw e (
    force_cases (IsKept seq m) m k level code retry_ms frame_bytes
      (unmoved seq m m refl refl (λ t. t)) (λ bytes. settled-IsKept seq m k bytes _ b))
Call-IsKept seq m n b (releases g e h) = ground (arith, lookup-delete g.seq seq m.seen)
Call-IsKept seq m n b (takes e) = ground arith

History-IsKept :
    (seq : ℕ) (m : CreditManager) (k : ℕ) (n : CreditManager)
    → budget m + k < 2 ^ 64
    → History seq m k n
    → (taken m seq ≡ true → taken n seq ≡ true) × (budget n ≤ budget m + k)
History-IsKept seq m k n b here = (λ t. t, omega arith)
History-IsKept seq m k n b (next {k = j} {n = o} h c) =
    let (still, spent) = History-IsKept seq m j o (omega arith) h in
    let kept = Call-IsKept seq o n (omega (arith, spent)) c in
    (λ t. kept.still (still t), omega (arith, spent, kept.spends))

admit_takes :
    (m : CreditManager) (seq now : ℕ)
    → (admit m seq now).1.decision ≡ accept
    → (budget (admit m seq now).0 ≡ budget m) × (taken (admit m seq now).0 seq ≡ true)
unfolding admit
admit_takes m seq now a = ground (
  arith,
  lookup-insert seq seq (record { seq = seq; bytes = 0; correlation = []; added_at = now }) m.seen,
)

refused :
    (n : CreditManager) (seq later : ℕ)
    → (admit n seq later).1.decision ≡ accept
    → taken n seq ≢ true
refused n seq later e t = ground (arith, (admit_iff n seq later).0 e)

-- A seq is admitted at most once: after Admit has accepted it, no later Admit accepts it, whatever
-- calls come between and with whatever grants, unless the place itself was given back (Release, or a
-- Consume that failed, on a grant of the seq). Fewer than 2 ^ 64 calls and a `low` within range are
-- assumed, so that `low` does not wrap.
pub admitted_once :
    (m n : CreditManager) (seq now later k : ℕ)
    → (admit m seq now).1.decision ≡ accept
    → m.low + length m.accepted + k < 2 ^ 64
    → History seq (admit m seq now).0 k n
    → (admit n seq later).1.decision ≢ accept
admitted_once m n seq now later k a b h =
    let (same, there) = admit_takes m seq now a in
    let (still, _) = History-IsKept seq _ k n (rw same b) h in
    λ e. refused n seq later e (still there)
