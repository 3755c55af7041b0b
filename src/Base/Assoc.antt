-- ===== src/Base/Assoc.antt =====
-- Go maps as association lists. The order of the entries stands for the order of iteration, which
-- Go leaves open.
use Prim.Native.Nat.{ℕ, ◌+◌, ◌≤◌, ◌<◌}
use mathlib.Core.Path.{◌≡◌, refl}
use mathlib.Core.Option.{Option, none, some}
use mathlib.Core.List.{List, [], ◌∷◌}
use native.Mathlib.Omega.{arith}
use mbta_go.Base.Tests.{KeyEq, ◌==◌, if◌then◌else◌}
use mbta_go.Base.Lists.{length}

abbrev pub Map {ℓ κ} : Type ℓ → Type κ → Type (ℓ ⊔ κ)
Map K V = List (K × V)

module _ {ℓ κ} {K : Type ℓ} {V : Type κ} ⦃keys : KeyEq K⦄ where
  unfoldable pub lookup : K → Map K V → Option V
  lookup k [] = none
  lookup k ((key, v) ∷ entries) = if key == k then some v else lookup k entries

  -- m[k] = v
  unfoldable pub insert : K → V → Map K V → Map K V
  insert k v [] = (k, v) ∷ []
  insert k v ((key, old) ∷ entries) =
      if key == k then (k, v) ∷ entries else (key, old) ∷ insert k v entries

  -- delete(m, k)
  unfoldable pub delete : K → Map K V → Map K V
  delete k [] = []
  delete k ((key, old) ∷ entries) =
      let rest = delete k entries in if key == k then rest else (key, old) ∷ rest

  pub lookup-insert :
      (k key : K) (v : V) (entries : Map K V)
      → lookup key (insert k v entries) ≡ (if k == key then some v else lookup key entries)
  unfolding lookup insert
  lookup-insert k key v [] = refl
  lookup-insert k key v ((here, old) ∷ entries) = ground (
    arith,
    keys.same_iff k key,
    keys.same_iff here k,
    keys.same_iff here key,
    lookup-insert k key v entries,
  )

  pub lookup-delete :
      (k key : K) (entries : Map K V)
      → lookup key (delete k entries) ≡ (if k == key then none else lookup key entries)
  unfolding lookup delete
  lookup-delete k key [] = ground arith
  lookup-delete k key ((here, old) ∷ entries) = ground (
    arith,
    keys.same_iff k key,
    keys.same_iff here k,
    keys.same_iff here key,
    lookup-delete k key entries,
  )

  pub lookup-insert_self :
      (k : K) (v : V) (entries : Map K V) → lookup k (insert k v entries) ≡ some v
  lookup-insert_self k v entries = ground (arith, lookup-insert k k v entries, keys.same_iff k k)

  pub lookup-delete_self : (k : K) (entries : Map K V) → lookup k (delete k entries) ≡ none
  lookup-delete_self k entries = ground (arith, lookup-delete k k entries, keys.same_iff k k)

  pub length-insert :
      (k : K) (v : V) (entries : Map K V) → length (insert k v entries) ≤ length entries + 1
  unfolding insert
  length-insert k v [] = omega arith
  length-insert k v ((key, old) ∷ entries) = ground (arith, length-insert k v entries)

  pub length-delete : (k : K) (entries : Map K V) → length (delete k entries) ≤ length entries
  unfolding delete
  length-delete k [] = omega arith
  length-delete k ((key, old) ∷ entries) = ground (arith, length-delete k entries)

  -- A key that is there takes an entry with it.
  pub length-delete_present :
      (k : K) (v : V) (entries : Map K V)
      → lookup k entries ≡ some v
      → length (delete k entries) < length entries
  unfolding lookup delete
  length-delete_present k v [] h = cc
  length-delete_present k v ((key, old) ∷ entries) h =
      ground (arith, length-delete k entries, length-delete_present k v entries)

  pub delete_absent :
      (k : K) (entries : Map K V) → lookup k entries ≡ none → delete k entries ≡ entries
  unfolding lookup delete
  delete_absent k [] h = refl
  delete_absent k ((key, old) ∷ entries) h = ground (arith, delete_absent k entries)

  -- No key stands twice.
  abbrev pub Unique : Map K V → Type κ
  Unique [] = Unit {κ}
  Unique ((k, v) ∷ entries) = (lookup k entries ≡ none) × Unique entries

  pub insert-Unique :
      (k : K) (v : V) (entries : Map K V) → Unique entries → Unique (insert k v entries)
  unfolding insert lookup
  insert-Unique k v [] h = (refl, tt)
  insert-Unique k v ((key, old) ∷ entries) h = ground (
    arith,
    keys.same_iff key k,
    keys.same_iff k key,
    lookup-insert k key v entries,
    insert-Unique k v entries h.1,
  )

  pub delete-Unique : (k : K) (entries : Map K V) → Unique entries → Unique (delete k entries)
  unfolding delete
  delete-Unique k [] h = tt
  delete-Unique k ((key, old) ∷ entries) h =
      ground (arith, lookup-delete k key entries, delete-Unique k entries h.1)

module _ {ℓ κ} {K : Type ℓ} {V : Type κ} where
  -- The sum of a measure over the values.
  unfoldable pub sum_by : (V → ℕ) → Map K V → ℕ
  sum_by f [] = 0
  sum_by f ((k, v) ∷ entries) = f v + sum_by f entries

module _ {ℓ κ} {K : Type ℓ} {V : Type κ} ⦃keys : KeyEq K⦄ where
  pub sum_by-insert_new :
      (f : V → ℕ) (k : K) (v : V) (entries : Map K V)
      → lookup k entries ≡ none
      → sum_by f (insert k v entries) ≡ f v + sum_by f entries
  unfolding sum_by insert lookup
  sum_by-insert_new f k v [] h = refl
  sum_by-insert_new f k v ((key, old) ∷ entries) h = ground (arith, sum_by-insert_new f k v entries)

  pub sum_by-insert_old :
      (f : V → ℕ) (k : K) (v old : V) (entries : Map K V)
      → lookup k entries ≡ some old
      → sum_by f (insert k v entries) + f old ≡ f v + sum_by f entries
  unfolding sum_by insert lookup
  sum_by-insert_old f k v old [] h = cc
  sum_by-insert_old f k v old ((key, u) ∷ entries) h =
      ground (arith, sum_by-insert_old f k v old entries)

  pub sum_by-delete :
      (f : V → ℕ) (k : K) (old : V) (entries : Map K V)
      → Unique entries
      → lookup k entries ≡ some old
      → sum_by f entries ≡ f old + sum_by f (delete k entries)
  unfolding sum_by delete lookup
  sum_by-delete f k old [] u h = cc
  sum_by-delete f k old ((key, x) ∷ entries) u h =
      ground
        (arith, keys.same_iff key k, delete_absent k entries, sum_by-delete f k old entries u.1)

  pub length-delete_exact :
      (k : K) (v : V) (entries : Map K V)
      → Unique entries
      → lookup k entries ≡ some v
      → length (delete k entries) + 1 ≡ length entries
  unfolding delete lookup
  length-delete_exact k v [] u h = cc
  length-delete_exact k v ((key, old) ∷ entries) u h =
      ground
        (arith, keys.same_iff key k, delete_absent k entries, length-delete_exact k v entries u.1)
