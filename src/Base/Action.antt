-- ===== src/Base/Action.antt =====
-- Methods that change a state and may fail. What was changed before the failure stays changed.
use mathlib.Core.Path.{◌≡◌, refl, ap, ◌∙◌}
use mathlib.Core.Logic.{◌⊎◌, inr}
use native.Mathlib.Omega.{arith}
use funtonic.Base.Outcome.{Result, ok, err}

abbrev pub Action {ℓ} : Type ℓ → Type ℓ → Type ℓ → Type ℓ
Action S E A = S → Result A E × S

module _ {ℓ} {S E A : Type ℓ} where
  abbrev pub pure : A → Action S E A
  pure a s = (ok a, s)

  abbrev pub fail : E → Action S E A
  fail e s = (err e, s)

  abbrev pub lift : Result A E → Action S E A
  lift r s = (r, s)

  abbrev pub reads : (S → Result A E) → Action S E A
  reads f s = (f s, s)

module _ {ℓ} {S E A B : Type ℓ} where
  abbrev pub continue : Result A E → (A → Action S E B) → Action S E B
  continue (ok a) f s = f a s
  continue (err e) f s = (err e, s)

  infixl 10 ◌>>=◌ ◌>>◌
  abbrev pub ◌>>=◌ : Action S E A → (A → Action S E B) → Action S E B
  ◌>>=◌ m f s = let (r, s') = m s in continue r f s'

  abbrev pub ◌>>◌ : Action S E A → Action S E B → Action S E B
  m >> n = m >>= λ _. n

  continue_ok :
      (r : Result A E) (f : A → Action S E B) (s : S) (b : B)
      → (continue r f s).0 ≡ ok b
      → (a : A) × (r ≡ ok a) × ((f a s).0 ≡ ok b)
  continue_ok (ok a) f s b h = (a, refl, h)
  continue_ok (err e) f s b h = ground arith

  pub bind_ok :
      (m : Action S E A) (f : A → Action S E B) (s : S) (b : B)
      → ((m >>= f) s).0 ≡ ok b
      → (a : A) × ((m s).0 ≡ ok a) × ((f a (m s).1).0 ≡ ok b)
  bind_ok m f s b h = continue_ok (m s).0 f (m s).1 b h

  pub bind_of_ok :
      (m : Action S E A) (f : A → Action S E B) (s : S) (a : A)
      → (m s).0 ≡ ok a
      → (m >>= f) s ≡ f a (m s).1
  bind_of_ok m f s a h = ap (λ r. continue r f (m s).1) h

  pub bind_of_err :
      (m : Action S E A) (f : A → Action S E B) (s : S) (e : E)
      → (m s).0 ≡ err e
      → (m >>= f) s ≡ (err e, (m s).1)
  bind_of_err m f s e h = ap (λ r. continue r f (m s).1) h

  continue-state :
      (r : Result A E) (f : A → Action S E B) (s : S)
      → ((a : A) (s : S) → (f a s).1 ≡ s)
      → (continue r f s).1 ≡ s
  continue-state (ok a) f s h = h a s
  continue-state (err e) f s h = refl

  -- A sequence of actions that leave the state alone leaves it alone.
  pub bind-state :
      (m : Action S E A) (f : A → Action S E B)
      → ((s : S) → (m s).1 ≡ s)
      → ((a : A) (s : S) → (f a s).1 ≡ s)
      → (s : S) → ((m >>= f) s).1 ≡ s
  bind-state m f h k s = continue-state (m s).0 f (m s).1 k ∙ h s

-- A check that fails ends a sequence of actions with the state as it is; after one that passes, the
-- rest settles the question.
pub check-continue {ℓ κ} :
    {S E A B : Type ℓ} (Passed : Type κ) (r : Result A E) (f : A → Action S E B) (s : S)
    → ((a : A) → r ≡ ok a → Passed ⊎ ((e : E) × (f a s ≡ (err e, s))))
    → Passed ⊎ ((e : E) × (continue r f s ≡ (err e, s)))
check-continue Passed (ok a) f s h = h a refl
check-continue Passed (err e) f s h = inr (e, refl)
