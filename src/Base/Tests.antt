-- ===== src/Base/Tests.antt =====
-- Boolean tests on the native numbers and on byte strings, equality as an instance, and the
-- conditional.
use Prim.Native.Nat.{ℕ, compare, Ordering}
use mathlib.Core.Path.{◌≡◌, refl}
use mathlib.Core.Logic.{◌↔◌, ◌⊎◌, inl, inr}
use mathlib.Core.Bool.{Bool, true, false, ◌&&◌}
use mathlib.Core.Option.{Option, none, some}
use mathlib.Core.List.{List, [], ◌∷◌}
use native.Mathlib.Omega.{arith}

abbrev pub ltb : ℕ → ℕ → Bool
ltb a b = elim (compare a b) [ Ordering.lt ↦ true | _ ↦ false ]

abbrev pub leb : ℕ → ℕ → Bool
leb a b = elim (compare a b) [ Ordering.gt ↦ false | _ ↦ true ]

abbrev pub eqb : ℕ → ℕ → Bool
eqb a b = elim (compare a b) [ Ordering.eq ↦ true | _ ↦ false ]

infix 1 if◌then◌else◌
abbrev pub if◌then◌else◌ {ℓ} : {A : Type ℓ} → Bool → A → A → A
if true then x else y = x
if false then x else y = y

-- The keys of a Go map: `==` on them, as a test that decides their equality.
pub record KeyEq {ℓ} (K : Type ℓ) : Type ℓ where
  pub same : K → K → Bool
  pub same_iff : (j k : K) → (same j k ≡ true) ↔ (j ≡ k)

infix 50 ◌==◌
abbrev pub ◌==◌ {ℓ} : {K : Type ℓ} ⦃keys : KeyEq K⦄ → K → K → Bool
◌==◌ ⦃keys⦄ j k = keys.same j k

pub eqb_iff : (a b : ℕ) → (eqb a b ≡ true) ↔ (a ≡ b)
eqb_iff a b = ground arith

instance abbrev pub nat_eq : KeyEq ℕ
nat_eq = record { same = eqb; same_iff = eqb_iff }

-- A Go string is its list of bytes.
abbrev pub Bytes : Type 0
Bytes = List ℕ

abbrev pub bytes_eqb : Bytes → Bytes → Bool
bytes_eqb [] [] = true
bytes_eqb [] (b ∷ bs) = false
bytes_eqb (a ∷ as') [] = false
bytes_eqb (a ∷ as') (b ∷ bs) = eqb a b && bytes_eqb as' bs

pub bytes_eqb_iff : (a b : Bytes) → (bytes_eqb a b ≡ true) ↔ (a ≡ b)
bytes_eqb_iff [] [] = (λ _. refl, λ _. refl)
bytes_eqb_iff [] (b ∷ bs) = (λ h. cc, λ h. cc)
bytes_eqb_iff (a ∷ as') [] = (λ h. cc, λ h. cc)
bytes_eqb_iff (a ∷ as') (b ∷ bs) = ground (arith, bytes_eqb_iff as' bs)

instance abbrev pub bytes_eq : KeyEq Bytes
bytes_eq = record { same = bytes_eqb; same_iff = bytes_eqb_iff }

-- To split on a computed value and keep the equation.
pub Bool-cases : (b : Bool) → (b ≡ true) ⊎ (b ≡ false)
Bool-cases true = inl refl
Bool-cases false = inr refl

pub Option-cases {ℓ} : {A : Type ℓ} (o : Option A) → (o ≡ none) ⊎ ((a : A) × (o ≡ some a))
Option-cases none = inl refl
Option-cases (some a) = inr (a, refl)

-- What holds of both branches.
pub if_either {ℓ κ} :
    {A : Type ℓ} (P : A → Type κ) (b : Bool) (x y : A) → P x → P y → P (if b then x else y)
if_either P true x y p q = p
if_either P false x y p q = q
