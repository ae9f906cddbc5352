-- ===== src/Prelude/Outcomes.antt =====
-- Rust's `Result<A, E>`, with the error first.
use mathlib.Core.Option.{Option, none, some}
use mathlib.Core.Logic.{◌⊎◌, inl, inr}
use mathlib.Core.Path.{◌≡◌, refl}

pub data Outcome {ℓ} (E A : Type ℓ) : Type ℓ where
  ok : A → Outcome E A
  err : E → Outcome E A

infixl 5 ◌>>=◌ ◌>>◌
-- `Option::ok_or`
abbrev pub ok_or {ℓ} : {E A : Type ℓ} → E → Option A → Outcome E A
ok_or e none = err e
ok_or e (some a) = ok a

-- the operator `?`, with the rest of the function as `k`
abbrev pub ◌>>=◌ {ℓ} : {E A B : Type ℓ} → Outcome E A → (A → Outcome E B) → Outcome E B
err e >>= k = err e
ok value >>= k = k value

-- `Result::map_err`
abbrev pub map_err {ℓ} : {E F A : Type ℓ} → (E → F) → Outcome E A → Outcome F A
map_err f (ok a) = ok a
map_err f (err e) = err (f e)

-- a check whose value is not used
abbrev pub ◌>>◌ {ℓ} : {E A B : Type ℓ} → Outcome E A → Outcome E B → Outcome E B
check >> rest = check >>= λ unused. rest

-- What a successful chain of `?` went through.
module _ {ℓ} {E A B : Type ℓ} where
  pub >>=-eq-ok :
      (first : Outcome E A) (rest : A → Outcome E B) {result : B}
      → (first >>= rest) ≡ ok result
      → (value : A) × (first ≡ ok value) × (rest value ≡ ok result)
  >>=-eq-ok (err e) rest run = cc
  >>=-eq-ok (ok value) rest run = (value, refl, run)

module _ {ℓ} {E A : Type ℓ} where
  pub ok-injective : {a b : A} → ◌≡◌ {A = Outcome E A} (ok a) (ok b) → a ≡ b
  ok-injective h = cc

  pub ok_or-eq-ok : (e : E) (o : Option A) {a : A} → ok_or e o ≡ ok a → o ≡ some a
  ok_or-eq-ok e none h = cc
  ok_or-eq-ok e (some a) h = cc

module _ {ℓ} {E F A : Type ℓ} where
  pub map_err-eq-ok : (f : E → F) (m : Outcome E A) {a : A} → map_err f m ≡ ok a → m ≡ ok a
  map_err-eq-ok f (ok a) h = cc
  map_err-eq-ok f (err e) h = cc

module _ {E B : Type 0} where
  pub >>-eq-ok :
      (m : Outcome E (Unit {0})) (k : Outcome E B) {b : B}
      → (m >> k) ≡ ok b
      → (m ≡ ok tt) × (k ≡ ok b)
  >>-eq-ok (ok tt) k h = (refl, h)
  >>-eq-ok (err e) k h = cc

-- To split on a computed result and keep the equation.
pub Outcome-cases :
    {E A : Type 0} (o : Outcome E A) → ((a : A) × (o ≡ ok a)) ⊎ ((e : E) × (o ≡ err e))
Outcome-cases (ok a) = inl (a, refl)
Outcome-cases (err e) = inr (e, refl)
