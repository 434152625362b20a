-- ===== src/Prelude/Tests.antt =====
-- Boolean tests on the native numbers, the conditional, and case splits that keep the equation.
use Prim.Native.Nat.{ℕ, compare, Ordering}
use mathlib.Core.Path.{◌≡◌, refl}
use mathlib.Core.Logic.{◌≢◌, ◌↔◌, ◌⊎◌, inl, inr}
use mathlib.Core.Bool.{Bool, true, false, not, ◌&&◌}
use mathlib.Core.Option.{Option, none, some}
use native.Mathlib.Omega.{arith}

abbrev pub ltb : ℕ → ℕ → Bool
ltb a b = elim (compare a b) [ Ordering.lt ↦ true | _ ↦ false ]

abbrev pub leb : ℕ → ℕ → Bool
leb a b = elim (compare a b) [ Ordering.gt ↦ false | _ ↦ true ]

infix 50 ◌==◌
abbrev pub ◌==◌ : ℕ → ℕ → Bool
a == b = elim (compare a b) [ Ordering.eq ↦ true | _ ↦ false ]

infix 1 if◌then◌else◌
abbrev pub if◌then◌else◌ {ℓ} : {A : Type ℓ} → Bool → A → A → A
if true then x else y = x
if false then x else y = y

pub ==_iff : (a b : ℕ) → ((a == b) ≡ true) ↔ (a ≡ b)
==_iff a b = ground arith

pub Bool-cases : (b : Bool) → (b ≡ true) ⊎ (b ≡ false)
Bool-cases true = inl refl
Bool-cases false = inr refl

pub Option-cases {ℓ} : {A : Type ℓ} (o : Option A) → (o ≡ none) ⊎ ((a : A) × (o ≡ some a))
Option-cases none = inl refl
Option-cases (some a) = inr (a, refl)

-- The result of a loop on fuel that is known not to run out.
unfoldable pub returned {ℓ} : {A : Type ℓ} (o : Option A) → o ≢ none → A
returned none h = absurd (h refl)
returned (some a) h = a

pub returned-some {ℓ} :
    {A : Type ℓ} (o : Option A) (h : o ≢ none) {a : A} → o ≡ some a → returned o h ≡ a
unfolding returned
returned-some none h e = cc
returned-some (some b) h e = cc

pub not_none {ℓ} : {A : Type ℓ} {o : Option A} {a : A} → o ≡ some a → o ≢ none
not_none e h = cc

pub &&-true : (a b : Bool) → (a && b) ≡ true → (a ≡ true) × (b ≡ true)
&&-true true true h = (refl, refl)
&&-true true false h = cc
&&-true false b h = cc

pub not-true : (a : Bool) → not a ≡ true → a ≡ false
not-true true h = cc
not-true false h = refl

pub not-false : (a : Bool) → not a ≡ false → a ≡ true
not-false true h = refl
not-false false h = cc
