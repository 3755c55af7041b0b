-- ===== src/Deduper.antt =====
-- core/deduper.go: CorrelationDeduper, the window of correlations that were seen. The clock's reading is
-- an argument; `now.Sub` does not reach the 292 years at which Go saturates it.
pub mod Mirror
pub mod Window
pub mod Kept
use mbta_go.Base.{
  ℕ, zero, suc, ◌+◌, ◌%◌, ◌^◌, ◌≡◌, List, [], ◌∷◌, ◌++◌, Bool, true, false, ◌||◌, if◌then◌else◌,
}
use mbta_go.Base.{
  ltb, eqb, sle, slt, sub64, Bytes, bytes_eq, ◌==◌, Option, none, some, Map, lookup, insert, delete,
  length,
}

pub record CorrelationDeduper : Type 0 where
  pub capacity : ℕ
  pub ttl : ℕ
  pub seen_at : Map Bytes ℕ
  pub order : List Bytes

-- NewCorrelationDeduper.
unfoldable pub new_correlation_deduper : ℕ → ℕ → CorrelationDeduper
new_correlation_deduper capacity ttl = record {
  capacity = if sle capacity 0 then 65536 else capacity;
  ttl = ttl;
  seen_at = [];
  order = [];
}

-- `d.ttl <= 0 || now.Sub(ts) < d.ttl`
abbrev pub within : ℕ → ℕ → ℕ → Bool
within ttl now ts = sle ttl 0 || slt (sub64 now ts) ttl

-- The first element that is the key leaves the list.
unfoldable pub remove_first : Bytes → List Bytes → List Bytes
remove_first k [] = []
remove_first k (e ∷ es) = let rest = remove_first k es in if e == k then es else e ∷ rest

-- The loop that evicts from the front while there are more keys than the capacity.
unfoldable pub shrink : ℕ → Map Bytes ℕ → List Bytes → Map Bytes ℕ × List Bytes
shrink cap seen [] = (seen, [])
shrink cap seen (front ∷ rest) =
    let less = shrink cap (delete front seen) rest in
    if ltb cap (length seen) then less else (seen, front ∷ rest)

-- The end of Dedup: the key is entered, and the window is cut to its capacity.
unfoldable pub enter : CorrelationDeduper → Bytes → ℕ → CorrelationDeduper
enter d k now =
    let r = shrink d.capacity (insert k now d.seen_at) (d.order ++ (k ∷ [])) in
    record d { seen_at = r.0; order = r.1 }

-- An entry that has expired leaves.
unfoldable pub forget : CorrelationDeduper → Bytes → CorrelationDeduper
forget d k = record d { seen_at = delete k d.seen_at; order = remove_first k d.order }

-- Dedup, at time `now`.
unfoldable pub dedup : CorrelationDeduper → Bytes → ℕ → CorrelationDeduper × Bool
dedup d k now = if eqb (length k) 0 then (d, true) else elim (lookup k d.seen_at) [
  | none ↦ (enter d k now, true)
  | some ts ↦ if within d.ttl now ts then (d, false) else (enter (forget d k) k now, true)
]

-- Seen, at time `now`.
unfoldable pub seen_before : CorrelationDeduper → Bytes → ℕ → Bool
seen_before d k now =
    if eqb (length k) 0
    then false
    else elim (lookup k d.seen_at) [ none ↦ false | some ts ↦ within d.ttl now ts ]

-- Len.
unfoldable pub size : CorrelationDeduper → ℕ
size d = length d.seen_at
