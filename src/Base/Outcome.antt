-- ===== src/Base/Outcome.antt =====
-- Rust's `Result`, and its `?` as a bind.
use mathlib.Core.Path.{◌≡◌, refl}

pub data Result {ℓ κ} (A : Type ℓ) (E : Type κ) : Type (ℓ ⊔ κ) where
  ok : A → Result A E
  err : E → Result A E

infixl 5 ◌>>=◌
abbrev pub ◌>>=◌ {ℓ κ μ} :
    {A : Type ℓ} {B : Type κ} {E : Type μ} → Result A E → (A → Result B E) → Result B E
ok a >>= f = f a
err e >>= f = err e

-- `map_err`
abbrev pub map_err {ℓ κ μ} :
    {A : Type ℓ} {E : Type κ} {F : Type μ} → (E → F) → Result A E → Result A F
map_err f (ok a) = ok a
map_err f (err e) = err (f e)

module _ {ℓ} {A E F : Type ℓ} where
  pub map_err_ok : (f : E → F) (r : Result A E) (a : A) → map_err f r ≡ ok a → r ≡ ok a
  map_err_ok f (ok b) a h = cc
  map_err_ok f (err e) a h = cc

module _ {ℓ} {A E : Type ℓ} where
  pub ok-injective : (a b : A) → ◌≡◌ {A = Result A E} (ok a) (ok b) → a ≡ b
  ok-injective a b h = cc

module _ {ℓ} {A B E : Type ℓ} where
  -- A chain that succeeds has succeeded at each step.
  pub and_then_ok :
      (r : Result A E) (f : A → Result B E) (b : B)
      → (r >>= f) ≡ ok b
      → (a : A) × (r ≡ ok a) × (f a ≡ ok b)
  and_then_ok (ok a) f b h = (a, refl, h)
  and_then_ok (err e) f b h = absurd (cc)
