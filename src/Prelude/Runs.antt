-- ===== src/Prelude/Runs.antt =====
-- The end of a run of Rust code: a value, a panic, or, in the model only, no fuel left.
use mathlib.Core.Path.{◌≡◌, refl}
use native.Mathlib.Omega.{arith}

pub data Run {ℓ} (A : Type ℓ) : Type ℓ where
  returned : A → Run A
  panicked out_of_fuel : Run A

abbrev pub bind_run {ℓ} : {A B : Type ℓ} → Run A → (A → Run B) → Run B
bind_run (returned a) f = f a
bind_run panicked f = panicked
bind_run out_of_fuel f = out_of_fuel

pub bind_run-returned :
    {A B : Type 0} (m : Run A) (f : A → Run B) {b : B}
    → bind_run m f ≡ returned b
    → (a : A) × (m ≡ returned a) × (f a ≡ returned b)
bind_run-returned (returned a) f e = (a, refl, e)
bind_run-returned panicked f e = absurd (ground arith)
bind_run-returned out_of_fuel f e = absurd (ground arith)

pub returned-injective : {A : Type 0} {a b : A} → returned a ≡ returned b → a ≡ b
returned-injective e = cc
