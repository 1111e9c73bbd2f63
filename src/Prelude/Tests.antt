-- ===== src/Prelude/Tests.antt =====
-- Boolean tests on the native numbers, the conditional, and tests on optional values.
use Prim.Native.Nat.{ℕ, ◌≤◌, ◌<◌, compare, Ordering}
use mathlib.Core.Path.{◌≡◌, refl}
use mathlib.Core.Logic.{◌↔◌, ◌⊎◌, inl, inr}
use mathlib.Core.Bool.{Bool, true, false}
use mathlib.Core.Option.{Option, none, some}
use native.Mathlib.Omega.{arith}

abbrev pub ltb : ℕ → ℕ → Bool
ltb m n = elim (compare m n) [ Ordering.lt ↦ true | _ ↦ false ]

abbrev pub leb : ℕ → ℕ → Bool
leb m n = elim (compare m n) [ Ordering.gt ↦ false | _ ↦ true ]

infix 50 ◌==◌
abbrev pub ◌==◌ : ℕ → ℕ → Bool
m == n = elim (compare m n) [ Ordering.eq ↦ true | _ ↦ false ]

infix 1 if◌then◌else◌
abbrev pub if◌then◌else◌ {ℓ} : {A : Type ℓ} → Bool → A → A → A
if true then a else b = a
if false then a else b = b

pub ltb_iff : (m n : ℕ) → (ltb m n ≡ true) ↔ (m < n)
ltb_iff m n = ground arith

pub leb_iff : (m n : ℕ) → (leb m n ≡ true) ↔ (m ≤ n)
leb_iff m n = ground arith

pub ==_iff : (m n : ℕ) → ((m == n) ≡ true) ↔ (m ≡ n)
==_iff m n = ground arith

-- A split on a computed test that keeps the equation.
pub Bool-cases : (b : Bool) → (b ≡ true) ⊎ (b ≡ false)
Bool-cases true = inl refl
Bool-cases false = inr refl

module _ {ℓ} {A : Type ℓ} where
  pub Option-cases : (o : Option A) → (o ≡ none) ⊎ ((a : A) × (o ≡ some a))
  Option-cases none = inl refl
  Option-cases (some a) = inr (a, refl)

  abbrev pub is_some : Option A → Bool
  is_some none = false
  is_some (some a) = true

  -- the first of two optional values that is there
  abbrev pub or_else : Option A → Option A → Option A
  or_else none b = b
  or_else (some a) b = some a

  pub some_eq : {a b : A} → some a ≡ some b → a ≡ b
  some_eq h = cc

  -- Where a chain of tests found its value.
  pub if_some :
      (b : Bool) {x r : A} (rest : Option A)
      → (if b then some x else rest) ≡ some r
      → (b ≡ true) × (x ≡ r) ⊎ (b ≡ false) × (rest ≡ some r)
  if_some true rest h = inl (refl, some_eq h)
  if_some false rest h = inr (refl, h)

  pub if_some' :
      (b : Bool) {r : A} (first : Option A)
      → (if b then first else none) ≡ some r
      → (b ≡ true) × (first ≡ some r) ⊎ (b ≡ false) × (none ≡ some r)
  if_some' true first h = inl (refl, h)
  if_some' false first h = inr (refl, h)

  pub or_else-some :
      (o rest : Option A) {r : A} → or_else o rest ≡ some r → (o ≡ some r) ⊎ (rest ≡ some r)
  or_else-some none rest h = inr h
  or_else-some (some a) rest h = inl h

  pub not_some : {a : A} → none ≡ some a → ⊥
  not_some h = cc
