-- ===== src/Deduper/Window.antt =====
-- The window of core/deduper.go through calls of Dedup.
use mbta_go.Base.{
  ℕ, ◌≤◌, ◌≡◌, inl, inr, refl, List, [], ◌∷◌, ◌++◌, true, false, not, Bool-cases, Option-cases,
  arith,
}
use mbta_go.Base.{
  eqb, Bytes, bytes_eq, none, some, lookup, insert, length, Unique, insert-Unique, delete-Unique,
  lookup-delete_self,
}
use mbta_go.Deduper.{
  CorrelationDeduper, new_correlation_deduper, within, enter, forget, dedup, seen_before,
}
use mbta_go.Deduper.Mirror.{Mirrors, Mirrors-append, Mirrors-remove_first, shrink-Mirrors}

-- What the operations keep.
pub record IsWindow (d : CorrelationDeduper) : Type 0 where
  pub unique : Unique d.seen_at
  pub mirrored : Mirrors d.order d.seen_at
  pub bounded : length d.seen_at ≤ d.capacity

enter-IsWindow :
    (d : CorrelationDeduper) (k : Bytes) (now : ℕ)
    → Unique d.seen_at
    → Mirrors d.order d.seen_at
    → lookup k d.seen_at ≡ none
    → IsWindow (enter d k now)
unfolding enter
enter-IsWindow d k now u m free =
    let (a, b, c) =
      shrink-Mirrors d.capacity (insert k now d.seen_at) (d.order ++ (k ∷ []))
        (insert-Unique k now d.seen_at u) (Mirrors-append d.order k now d.seen_at m free) in
    record { unique = a; mirrored = b; bounded = c }

-- Once an expired key is out, the window is as for a new key.
pub forget-free :
    (d : CorrelationDeduper) (k : Bytes) (t : ℕ)
    → IsWindow d
    → lookup k d.seen_at ≡ some t
    → Unique (forget d k).seen_at
      × Mirrors (forget d k).order (forget d k).seen_at
      × (lookup k (forget d k).seen_at ≡ none)
unfolding forget
forget-free d k t w here = (
  delete-Unique k d.seen_at w.unique,
  Mirrors-remove_first d.order k t d.seen_at w.mirrored here,
  lookup-delete_self k d.seen_at,
)

-- Dedup keeps the window: the order and the map hold the same keys, each once, and no more than the
-- capacity; and it answers the opposite of what Seen would have answered.
pub dedup-IsWindow :
    (d : CorrelationDeduper) (k : Bytes) (now : ℕ)
    → IsWindow d
    → IsWindow (dedup d k now).0 × ((dedup d k now).1 ≡ not (seen_before d k now))
unfolding dedup seen_before
dedup-IsWindow d k now w = elim (Bool-cases (eqb (length k) 0)) [
  | inl e ↦ rw e (w, refl)
  | inr e ↦ elim (Option-cases (lookup k d.seen_at)) [
    | inl free ↦ rw (e, free) (enter-IsWindow d k now w.unique w.mirrored free, refl)
    | inr (ts, here) ↦ elim (Bool-cases (within d.ttl now ts)) [
      | inl fresh ↦ rw (e, here, fresh) (w, refl)
      | inr old ↦
          let (u, m, free) = forget-free d k ts w here in
          rw (e, here, old) (enter-IsWindow (forget d k) k now u m free, refl)
    ]
  ]
]

pub refused :
    (e : CorrelationDeduper) (k : Bytes) (now later ttl : ℕ)
    → eqb (length k) 0 ≡ false
    → e.ttl ≡ ttl
    → within ttl later now ≡ true
    → lookup k e.seen_at ≡ some now
    → dedup e k later ≡ (e, false)
unfolding dedup
refused e k now later ttl named same soon here = rw (named, here, same, soon) refl

-- The deduper after calls of Dedup with their times.
abbrev pub dedup_all : CorrelationDeduper → List (Bytes × ℕ) → CorrelationDeduper
dedup_all d [] = d
dedup_all d ((k, now) ∷ calls) = dedup_all (dedup d k now).0 calls

dedup_all_from :
    (d : CorrelationDeduper) (calls : List (Bytes × ℕ)) → IsWindow d → IsWindow (dedup_all d calls)
dedup_all_from d [] w = w
dedup_all_from d ((k, now) ∷ calls) w =
    dedup_all_from (dedup d k now).0 calls (dedup-IsWindow d k now w).0

-- From a new deduper any calls of Dedup lead to a window whose order and map hold the same keys, each
-- once, and at most as many as its capacity.
pub dedup_all-IsWindow :
    (capacity ttl : ℕ) (calls : List (Bytes × ℕ))
    → IsWindow (dedup_all (new_correlation_deduper capacity ttl) calls)
unfolding new_correlation_deduper
dedup_all-IsWindow capacity ttl calls =
    dedup_all_from (new_correlation_deduper capacity ttl) calls
      (record { unique = tt; mirrored = refl; bounded = omega arith })
