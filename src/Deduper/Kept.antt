-- ===== src/Deduper/Kept.antt =====
-- How long a key stays in the window of core/deduper.go while other keys come.
use mbta_go.Base.{
  ℕ, ◌+◌, ◌≤◌, ◌<◌, ◌≡◌, inl, inr, refl, ◌∙◌, List, [], ◌∷◌, ◌++◌, true, false, if◌then◌else◌,
  Bool-cases, Option-cases, arith,
}
use mbta_go.Base.{
  ltb, eqb, Bytes, bytes_eq, bytes_eqb, bytes_eqb_iff, none, some, Map, lookup, insert, delete,
  length, length-append, Unique, delete-Unique, insert-Unique, lookup-insert, lookup-insert_self,
  lookup-delete,
}
use mbta_go.Deduper.{CorrelationDeduper, remove_first, shrink, within, enter, forget, dedup}
use mbta_go.Deduper.Mirror.{Mirrors, length-Mirrors, Mirrors-append}
use mbta_go.Deduper.Window.{IsWindow, dedup_all, dedup-IsWindow, forget-free, refused}

-- The number of keys that came after this one.
unfoldable pub after : Bytes → List Bytes → ℕ
after k [] = 0
after k (j ∷ js) = let rest = after k js in if bytes_eqb j k then length js else rest

after-append : (k x : Bytes) (js : List Bytes) → after k (js ++ (x ∷ [])) ≤ after k js + 1
unfolding after
after-append k x [] = ground arith
after-append k x (j ∷ js) = ground (arith, after-append k x js, length-append js (x ∷ []))

length-remove_first : (x : Bytes) (js : List Bytes) → length (remove_first x js) ≤ length js
unfolding remove_first
length-remove_first x [] = omega arith
length-remove_first x (j ∷ js) = ground (arith, length-remove_first x js)

after-remove_first :
    (k x : Bytes) (js : List Bytes)
    → bytes_eqb x k ≡ false
    → after k (remove_first x js) ≤ after k js
unfolding after remove_first
after-remove_first k x [] h = omega arith
after-remove_first k x (j ∷ js) h = ground (
  arith,
  after-remove_first k x js h,
  length-remove_first x js,
  bytes_eqb_iff j x,
  bytes_eqb_iff j k,
  bytes_eqb_iff x k,
)

-- The newest key has none after it.
after-append_new :
    (k : Bytes) (js : List Bytes) (seen : Map Bytes ℕ)
    → Mirrors js seen
    → lookup k seen ≡ none
    → after k (js ++ (k ∷ [])) ≡ 0
unfolding after
after-append_new k [] seen m free = ground arith
after-append_new k (j ∷ js) seen (ts, here, rest) free =
    let other : bytes_eqb j k ≡ false = ground (arith, bytes_eqb_iff j k) in
    rw other (after-append_new k js (delete j seen) rest (ground (arith, lookup-delete j k seen)))

-- The eviction stops before a key that has fewer keys after it than the capacity.
shrink-after :
    (cap : ℕ) (js : List Bytes) (k : Bytes) (t : ℕ) (seen : Map Bytes ℕ)
    → Unique seen
    → Mirrors js seen
    → lookup k seen ≡ some t
    → after k js < cap
    → (lookup k (shrink cap seen js).0 ≡ some t) × (after k (shrink cap seen js).1 ≡ after k js)
unfolding shrink after lookup
shrink-after cap [] k t seen u m here few = let no = rw m at here in cc
shrink-after cap (j ∷ js) k t seen u (ts, there, rest) here few =
    elim (Bool-cases (ltb cap (length seen))) [
      | inr c ↦ rw c (here, refl)
      | inl c ↦ elim (Bool-cases (bytes_eqb j k)) [
        | inl e ↦
            let many = length-Mirrors (j ∷ js) seen u (ts, there, rest) in
            let few' : length js < cap = rw e at few in absurd (ground arith)
        | inr e ↦
            let few' : after k js < cap = rw e at few in
            rw (c, e)
              (shrink-after cap js k t (delete j seen) (delete-Unique j seen u) rest
                (ground (arith, lookup-delete j k seen)) few')
      ]
    ]

-- The key is in a well-formed window since `now`, with at most `n` keys after it.
record IsHeld (k : Bytes) (now cap ttl n : ℕ) (d : CorrelationDeduper) : Type 0 where
  window : IsWindow d
  same_capacity : d.capacity ≡ cap
  same_ttl : d.ttl ≡ ttl
  there : lookup k d.seen_at ≡ some now
  newer : after k d.order ≤ n

enter-IsHeld :
    (d : CorrelationDeduper) (k x : Bytes) (now t cap ttl n : ℕ)
    → Unique d.seen_at
    → Mirrors d.order d.seen_at
    → lookup x d.seen_at ≡ none
    → d.capacity ≡ cap
    → d.ttl ≡ ttl
    → lookup k (insert x t d.seen_at) ≡ some now
    → after k (d.order ++ (x ∷ [])) ≤ n
    → n < cap
    → IsWindow (enter d x t)
    → IsHeld k now cap ttl n (enter d x t)
unfolding enter
enter-IsHeld d k x now t cap ttl n u m free c e here few room w =
    let (still, after_same) =
      shrink-after d.capacity (d.order ++ (x ∷ [])) k now (insert x t d.seen_at)
        (insert-Unique x t d.seen_at u) (Mirrors-append d.order x t d.seen_at m free) here
        (omega (arith, few, room, c)) in
    record {
      window = w;
      same_capacity = c;
      same_ttl = e;
      there = still;
      newer = omega (arith, after_same, few);
    }

forgotten_capacity : (d : CorrelationDeduper) (x : Bytes) → (forget d x).capacity ≡ d.capacity
unfolding forget
forgotten_capacity d x = refl

forgotten_ttl : (d : CorrelationDeduper) (x : Bytes) → (forget d x).ttl ≡ d.ttl
unfolding forget
forgotten_ttl d x = refl

after-forget :
    (d : CorrelationDeduper) (k x : Bytes)
    → bytes_eqb x k ≡ false
    → after k (forget d x).order ≤ after k d.order
unfolding forget
after-forget d k x other = after-remove_first k x d.order other

kept_beside :
    (d : CorrelationDeduper) (k x : Bytes) (now : ℕ)
    → bytes_eqb x k ≡ false
    → lookup k d.seen_at ≡ some now
    → lookup k (forget d x).seen_at ≡ some now
unfolding forget
kept_beside d k x now other h = rw (lookup-delete x k d.seen_at, other) h

-- The key itself, when it is let through.
dedup-IsHeld :
    (d : CorrelationDeduper) (k : Bytes) (now : ℕ)
    → IsWindow d
    → 0 < d.capacity
    → eqb (length k) 0 ≡ false
    → (dedup d k now).1 ≡ true
    → IsHeld k now d.capacity d.ttl 0 (dedup d k now).0
unfolding dedup
dedup-IsHeld d k now w h named first =
    let kept = (dedup-IsWindow d k now w).0 in
    elim (Option-cases (lookup k d.seen_at)) [
      | inl free ↦
          rw (named, free)
            (enter-IsHeld d k k now now d.capacity d.ttl 0 w.unique w.mirrored free refl refl
              (lookup-insert_self k now d.seen_at)
              (omega (arith, after-append_new k d.order d.seen_at w.mirrored free)) h
              (rw (named, free) at kept))
      | inr (ts, here) ↦ elim (Bool-cases (within d.ttl now ts)) [
        | inl fresh ↦ let no = rw (named, here, fresh) at first in cc
        | inr stale ↦
            let (u, m, free) = forget-free d k ts w here in
            rw (named, here, stale)
              (enter-IsHeld (forget d k) k k now now d.capacity d.ttl 0 u m free
                (forgotten_capacity d k) (forgotten_ttl d k)
                (lookup-insert_self k now (forget d k).seen_at)
                (omega (arith, after-append_new k (forget d k).order (forget d k).seen_at m free)) h
                (rw (named, here, stale) at kept))
      ]
    ]

-- Another key adds at most one after it.
other-IsHeld :
    (d : CorrelationDeduper) (k x : Bytes) (now t cap ttl n : ℕ)
    → IsHeld k now cap ttl n d
    → bytes_eqb x k ≡ false
    → n + 1 < cap
    → IsHeld k now cap ttl (n + 1) (dedup d x t).0
unfolding dedup
other-IsHeld d k x now t cap ttl n s other room =
    let kept = (dedup-IsWindow d x t s.window).0 in
    elim (Bool-cases (eqb (length x) 0)) [
      | inl e ↦ rw e (wider s)
      | inr e ↦ elim (Option-cases (lookup x d.seen_at)) [
        | inl free ↦
            rw (e, free)
              (enter-IsHeld d k x now t cap ttl (n + 1) s.window.unique s.window.mirrored free
                s.same_capacity s.same_ttl (beside d s.there)
                (omega (arith, after-append k x d.order, s.newer)) room (rw (e, free) at kept))
        | inr (ts, here) ↦ elim (Bool-cases (within d.ttl t ts)) [
          | inl fresh ↦ rw (e, here, fresh) (wider s)
          | inr stale ↦
              let (u, m, free) = forget-free d x ts s.window here in
              rw (e, here, stale)
                (enter-IsHeld (forget d x) k x now t cap ttl (n + 1) u m free
                  (forgotten_capacity d x ∙ s.same_capacity) (forgotten_ttl d x ∙ s.same_ttl)
                  (beside (forget d x) (kept_beside d k x now other s.there))
                  (omega
                    (arith, after-append k x (forget d x).order, after-forget d k x other, s.newer))
                  room (rw (e, here, stale) at kept))
        ]
      ]
    ]
  where
    wider : IsHeld k now cap ttl n d → IsHeld k now cap ttl (n + 1) d
    wider r = record {
      window = r.window;
      same_capacity = r.same_capacity;
      same_ttl = r.same_ttl;
      there = r.there;
      newer = omega (arith, r.newer);
    }

    beside :
        (e : CorrelationDeduper)
        → lookup k e.seen_at ≡ some now
        → lookup k (insert x t e.seen_at) ≡ some now
    beside e h = rw (lookup-insert x k t e.seen_at, other) h

-- Calls for other keys than this one.
abbrev pub Others : Bytes → List (Bytes × ℕ) → Type 0
Others k [] = Unit {0}
Others k ((x, t) ∷ calls) = (bytes_eqb x k ≡ false) × Others k calls

dedup_all-IsHeld :
    (d : CorrelationDeduper) (k : Bytes) (now cap ttl n : ℕ) (calls : List (Bytes × ℕ))
    → IsHeld k now cap ttl n d
    → Others k calls
    → n + length calls < cap
    → IsHeld k now cap ttl (n + length calls) (dedup_all d calls)
dedup_all-IsHeld d k now cap ttl n [] s o room = record {
  window = s.window;
  same_capacity = s.same_capacity;
  same_ttl = s.same_ttl;
  there = s.there;
  newer = omega (arith, s.newer);
}
dedup_all-IsHeld d k now cap ttl n ((x, t) ∷ calls) s (other, o) room =
    let one = other-IsHeld d k x now t cap ttl n s other (omega (arith, room)) in
    let all_calls =
      dedup_all-IsHeld (dedup d x t).0 k now cap ttl (n + 1) calls one o (omega (arith, room)) in
    record {
      window = all_calls.window;
      same_capacity = all_calls.same_capacity;
      same_ttl = all_calls.same_ttl;
      there = all_calls.there;
      newer = omega (arith, all_calls.newer);
    }

-- A key that is let through is refused when it comes again within the time to live, and that changes
-- nothing, as long as fewer calls with other keys came in between than the window has places; if the
-- window is well formed, and the key not empty.
pub dedup-dedup_all :
    (d : CorrelationDeduper) (k : Bytes) (now later : ℕ) (calls : List (Bytes × ℕ))
    → IsWindow d
    → 0 < length k
    → (dedup d k now).1 ≡ true
    → Others k calls
    → length calls < d.capacity
    → within d.ttl later now ≡ true
    → let e = dedup_all (dedup d k now).0 calls in dedup e k later ≡ (e, false)
dedup-dedup_all d k now later calls w some_key first others room soon =
    let named : eqb (length k) 0 ≡ false = ground arith in
    let held =
      dedup_all-IsHeld (dedup d k now).0 k now d.capacity d.ttl 0 calls
        (dedup-IsHeld d k now w (omega (arith, room)) named first) others (omega (arith, room)) in
    refused (dedup_all (dedup d k now).0 calls) k now later d.ttl named held.same_ttl soon
      held.there
