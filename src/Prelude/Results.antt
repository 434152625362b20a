-- ===== src/Prelude/Results.antt =====
-- What a fallible function of the program comes to: a value, an error that it returns, or a panic.
use mathlib.Core.Path.{◌≡◌, refl}

pub data Outcome {ℓ κ} (E : Type κ) (A : Type ℓ) : Type (ℓ ⊔ κ) where
  ok : A → Outcome E A
  err : E → Outcome E A
  panic : Outcome E A

-- The errors of a function that returns none.
pub data NoError : Type 0 where

infixl 5 ◌>>=◌
abbrev pub ◌>>=◌ {ℓ κ μ} :
    {E : Type μ} {A : Type ℓ} {B : Type κ} → Outcome E A → (A → Outcome E B) → Outcome E B
ok a >>= f = f a
err e >>= f = err e
panic >>= f = panic

-- A value that is returned satisfies `P`.
pub data Post {ℓ κ μ} {E : Type μ} {A : Type ℓ} (P : A → Type κ)
    : Outcome E A → Type (ℓ ⊔ κ ⊔ μ) where
  returns : {a : A} → P a → Post P (ok a)
  fails : {e : E} → Post P (err e)
  panics : Post P panic

module _ {ℓ κ μ} {E : Type μ} {A : Type ℓ} {P : A → Type κ} where
  pub of_ok : {a : A} → Post {E = E} P (ok a) → P a
  of_ok (returns p) = p

  pub Post-bind {ν ξ} :
      {B : Type ν} {Q : B → Type ξ} {f : A → Outcome E B} {m : Outcome E A}
      → Post P m
      → ((a : A) → P a → Post Q (f a))
      → Post Q (m >>= f)
  Post-bind (returns {a} p) k = k a p
  Post-bind fails k = fails
  Post-bind panics k = panics

  pub Post-weaken {ξ} :
      {Q : A → Type ξ} {m : Outcome E A} → ((a : A) → P a → Q a) → Post P m → Post Q m
  Post-weaken k (returns {a} p) = returns (k a p)
  Post-weaken k fails = fails
  Post-weaken k panics = panics

pub Post-any {ℓ μ} : {E : Type μ} {A : Type ℓ} (m : Outcome E A) → Post (λ _. Unit {0}) m
Post-any (ok a) = returns tt
Post-any (err e) = fails
Post-any panic = panics

-- What is returned is what the call comes to.
pub Post-self {ℓ μ} : {E : Type μ} {A : Type ℓ} (m : Outcome E A) → Post (λ a. m ≡ ok a) m
Post-self (ok a) = returns refl
Post-self (err e) = fails
Post-self panic = panics

-- A value with a property, or a panic, and no error.
pub data Safe {ℓ κ μ} {E : Type μ} {A : Type ℓ} (P : A → Type κ)
    : Outcome E A → Type (ℓ ⊔ κ ⊔ μ) where
  returns : {a : A} → P a → Safe P (ok a)
  panics : Safe P panic

module _ {ℓ κ μ} {E : Type μ} {A : Type ℓ} {P : A → Type κ} where
  pub Safe-bind {ν ξ} :
      {B : Type ν} {Q : B → Type ξ} {f : A → Outcome E B} {m : Outcome E A}
      → Safe P m
      → ((a : A) → P a → Safe Q (f a))
      → Safe Q (m >>= f)
  Safe-bind (returns {a} p) k = k a p
  Safe-bind panics k = panics

  pub Safe-weaken {ξ} :
      {Q : A → Type ξ} {m : Outcome E A} → ((a : A) → P a → Q a) → Safe P m → Safe Q m
  Safe-weaken k (returns {a} p) = returns (k a p)
  Safe-weaken k panics = panics

  pub Safe-self : {m : Outcome E A} → Safe P m → Safe (λ a. m ≡ ok a) m
  Safe-self (returns p) = returns refl
  Safe-self panics = panics
