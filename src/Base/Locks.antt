-- ===== src/Base/Locks.antt =====
-- `Mutex` and `RwLock`: a lock is poisoned when a thread panicked while it held it.
use mathlib.Core.Bool.{Bool}
use funtonic.Base.Outcome.{Result, ok, err}
use funtonic.Base.Tests.{if◌then◌else◌}

pub record Lock {ℓ} (A : Type ℓ) : Type ℓ where
  pub poisoned : Bool
  pub inner : A

-- `lock()`, `read()` and `write()`; the caller says what a poisoned lock is to it.
abbrev pub acquire {ℓ κ} : {A : Type ℓ} {E : Type κ} → Lock A → E → Result A E
acquire l e = if l.poisoned then err e else ok l.inner
