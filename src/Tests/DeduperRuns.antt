-- ===== src/Tests/DeduperRuns.antt =====
-- core/deduper.go at concrete inputs.
use mbta_go.Base.{◌≡◌, refl, [], ◌∷◌, true, false, arith}
use mbta_go.Base.{bytes_eq, lookup, insert, delete}
use mbta_go.Deduper.{CorrelationDeduper, new_correlation_deduper, dedup, enter, shrink}
use mbta_go.Deduper.Window.{IsWindow, dedup_all, dedup_all-IsWindow}
use mbta_go.Deduper.Kept.{dedup-dedup_all}

-- One place, taken at time 10, entries live for 100.
abbrev window : CorrelationDeduper
window = record { capacity = 1; ttl = 100; seen_at = (7 ∷ [], 10) ∷ []; order = (7 ∷ []) ∷ [] }

window-IsWindow : IsWindow window
unfolding lookup delete
window-IsWindow = record { unique = (refl, tt); mirrored = (10, refl, refl); bounded = omega arith }

-- The older key was evicted for it, and comes through again.
evicted : (dedup (dedup window (8 ∷ []) 20).0 (7 ∷ []) 30).1 ≡ true
unfolding dedup lookup enter shrink insert delete
evicted = refl

-- Two places.
abbrev wide : CorrelationDeduper
wide = record window { capacity = 2 }

wide-IsWindow : IsWindow wide
unfolding lookup delete
wide-IsWindow = record { unique = (refl, tt); mirrored = (10, refl, refl); bounded = omega arith }

let_through : (dedup wide (8 ∷ []) 20).1 ≡ true
unfolding dedup lookup
let_through = refl

-- Key 9 pushes key 7 out, and key 8 stays.
dedup-dedup_all_example :
    let e = dedup_all (dedup wide (8 ∷ []) 20).0 ((9 ∷ [], 25) ∷ []) in
    dedup e (8 ∷ []) 30 ≡ (e, false)
dedup-dedup_all_example =
    dedup-dedup_all wide (8 ∷ []) 20 30 ((9 ∷ [], 25) ∷ []) wide-IsWindow (omega arith) let_through
      (refl, tt) (omega arith) refl

dedup_all-IsWindow_example :
    IsWindow (dedup_all (new_correlation_deduper 1 100) ((7 ∷ [], 10) ∷ (8 ∷ [], 20) ∷ []))
dedup_all-IsWindow_example = dedup_all-IsWindow 1 100 ((7 ∷ [], 10) ∷ (8 ∷ [], 20) ∷ [])
