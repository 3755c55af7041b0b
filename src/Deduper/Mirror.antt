-- ===== src/Deduper/Mirror.antt =====
-- How the order of core/deduper.go stands to its map, under an entry, a removal and an eviction.
use mbta_go.Base.{
  ℕ, suc, ◌≤◌, ◌≡◌, inl, inr, refl, sym, ap, ◌∙◌, List, [], ◌∷◌, ◌++◌, false, Bool-cases, arith,
}
use mbta_go.Base.{
  ltb, Bytes, bytes_eq, bytes_eqb, bytes_eqb_iff, none, some, Map, lookup, insert, delete, length,
  Unique, delete-Unique, lookup-insert, lookup-delete, lookup-insert_self, delete_absent,
}
use mbta_go.Deduper.{remove_first, shrink}
use mathlib.Core.Path.{subst}

-- The map holds the keys of the list, each once, and no others.
abbrev pub Mirrors : List Bytes → Map Bytes ℕ → Type 0
Mirrors [] seen = seen ≡ []
Mirrors (k ∷ ks) seen = (ts : ℕ) × (lookup k seen ≡ some ts) × Mirrors ks (delete k seen)

length-delete-Unique :
    (k : Bytes) (ts : ℕ) (seen : Map Bytes ℕ)
    → Unique seen
    → lookup k seen ≡ some ts
    → length seen ≡ suc (length (delete k seen))
unfolding lookup delete
length-delete-Unique k ts [] u h = cc
length-delete-Unique k ts ((key, old) ∷ rest) u h =
    ground (arith, bytes_eqb_iff key k, delete_absent k rest, length-delete-Unique k ts rest u.1)

pub length-Mirrors :
    (ks : List Bytes) (seen : Map Bytes ℕ) → Unique seen → Mirrors ks seen → length seen ≡ length ks
length-Mirrors [] seen u m = rw m refl
length-Mirrors (k ∷ ks) seen u (ts, here, rest) =
    length-delete-Unique k ts seen u here
    ∙ ap suc (length-Mirrors ks (delete k seen) (delete-Unique k seen u) rest)

delete-insert :
    (k j : Bytes) (now : ℕ) (seen : Map Bytes ℕ)
    → bytes_eqb k j ≡ false
    → delete j (insert k now seen) ≡ insert k now (delete j seen)
unfolding delete insert
delete-insert k j now [] h = ground arith
delete-insert k j now ((key, old) ∷ rest) h =
    ground (
      arith,
      bytes_eqb_iff key k,
      bytes_eqb_iff key j,
      bytes_eqb_iff k j,
      delete-insert k j now rest,
    )

delete-delete :
    (k j : Bytes) (seen : Map Bytes ℕ) → delete j (delete k seen) ≡ delete k (delete j seen)
unfolding delete
delete-delete k j [] = refl
delete-delete k j ((key, old) ∷ rest) = ground (arith, delete-delete k j rest)

delete-insert_only : (k : Bytes) (now : ℕ) → delete k (insert k now []) ≡ []
unfolding delete insert
delete-insert_only k now = ground (arith, bytes_eqb_iff k k)

-- A key that is missing is not one that is there.
distinct :
    (k j : Bytes) (ts : ℕ) (seen : Map Bytes ℕ)
    → lookup k seen ≡ none
    → lookup j seen ≡ some ts
    → bytes_eqb k j ≡ false
distinct k j ts seen free here = ground (arith, bytes_eqb_iff k j)

pub Mirrors-append :
    (ks : List Bytes) (k : Bytes) (now : ℕ) (seen : Map Bytes ℕ)
    → Mirrors ks seen
    → lookup k seen ≡ none
    → Mirrors (ks ++ (k ∷ [])) (insert k now seen)
Mirrors-append [] k now seen m free =
    (now, lookup-insert_self k now seen, rw m (delete-insert_only k now))
Mirrors-append (j ∷ ks) k now seen (ts, here, rest) free =
    let other = distinct k j ts seen free here in
    (
      ts,
      ground (arith, lookup-insert k j now seen),
      subst (Mirrors (ks ++ (k ∷ []))) (sym (delete-insert k j now seen other))
          (Mirrors-append ks k now (delete j seen) rest (ground (arith, lookup-delete j k seen))),
    )

pub Mirrors-remove_first :
    (ks : List Bytes) (k : Bytes) (t : ℕ) (seen : Map Bytes ℕ)
    → Mirrors ks seen
    → lookup k seen ≡ some t
    → Mirrors (remove_first k ks) (delete k seen)
unfolding remove_first lookup
Mirrors-remove_first [] k t seen m here = let no = rw m at here in cc
Mirrors-remove_first (j ∷ ks) k t seen (ts, there, rest) here = elim (Bool-cases (bytes_eqb j k)) [
  | inl e ↦ rw e (subst (λ (x : Bytes). Mirrors ks (delete x seen)) ((bytes_eqb_iff j k).0 e) rest)
  | inr e ↦ rw e (
    ts,
    ground (arith, lookup-delete k j seen, bytes_eqb_iff k j, bytes_eqb_iff j k),
    subst (Mirrors (remove_first k ks)) (sym (delete-delete k j seen))
        (Mirrors-remove_first ks k t (delete j seen) rest (ground (arith, lookup-delete j k seen))),
  )
]

pub shrink-Mirrors :
    (cap : ℕ) (seen : Map Bytes ℕ) (ks : List Bytes)
    → Unique seen
    → Mirrors ks seen
    → Unique (shrink cap seen ks).0
      × Mirrors (shrink cap seen ks).1 (shrink cap seen ks).0
      × (length (shrink cap seen ks).0 ≤ cap)
unfolding shrink
shrink-Mirrors cap seen [] u m = (u, m, rw m (omega arith))
shrink-Mirrors cap seen (k ∷ ks) u m = elim (Bool-cases (ltb cap (length seen))) [
  | inl c ↦ rw c (shrink-Mirrors cap (delete k seen) ks (delete-Unique k seen u) m.2)
  | inr c ↦ rw c (u, m, ground arith)
]
