-- ===== src/TaskServer/Frame.antt =====
-- Actions of the task server that leave the admin keys and the trusted executor keys alone.
use funtonic.Base.{◌≡◌, ◌∙◌, refl, Bool, true, false, Result, ok, err, if◌then◌else◌}
use funtonic.Base.Action.{Action, pure, fail, lift, reads, ◌>>=◌, ◌>>◌}
use funtonic.Crypto.KeyStore.Memory.{MemoryKeyStore}
use funtonic.TaskServer.Env.{Env}
use funtonic.TaskServer.State.{
  TaskServer, on_unapproved, on_authorized, on_metas, on_world, raise_as,
}

pub record SameKeys {E : Env} (s t : TaskServer E) : Type 0 where
  pub trusted : t.trusted_executor_keystore ≡ s.trusted_executor_keystore
  pub admin : t.authorized_admin_keys ≡ s.authorized_admin_keys

pub record KeepsKeys {E : Env} {X A : Type 0} (m : Action (TaskServer E) X A) : Type 0 where
  pub at : (s : TaskServer E) → SameKeys s (m s).1

pub SameKeys-refl : {E : Env} (s : TaskServer E) → SameKeys s s
SameKeys-refl s = record { trusted = refl; admin = refl }

pub SameKeys-trans : {E : Env} {s t u : TaskServer E} → SameKeys s t → SameKeys t u → SameKeys s u
SameKeys-trans h k = record { trusted = k.trusted ∙ h.trusted; admin = k.admin ∙ h.admin }

module _ {E : Env} {X A : Type 0} where
  pub KeepsKeys-pure : (a : A) → KeepsKeys {E = E} {X = X} (pure a)
  KeepsKeys-pure a = record { at = λ s. SameKeys-refl s }

  pub KeepsKeys-fail : (x : X) → KeepsKeys {E = E} {A = A} (fail x)
  KeepsKeys-fail x = record { at = λ s. SameKeys-refl s }

  pub KeepsKeys-lift : (r : Result A X) → KeepsKeys {E = E} (lift r)
  KeepsKeys-lift r = record { at = λ s. SameKeys-refl s }

  pub KeepsKeys-reads : (f : TaskServer E → Result A X) → KeepsKeys (reads f)
  KeepsKeys-reads f = record { at = λ s. SameKeys-refl s }

  pub KeepsKeys-on_world : (m : Action E.channels.World X A) → KeepsKeys {E = E} (on_world m)
  KeepsKeys-on_world m = record { at = λ s. record { trusted = refl; admin = refl } }

  pub KeepsKeys-on_unapproved :
      (m : Action E.key_database.State X A) → KeepsKeys {E = E} (on_unapproved m)
  KeepsKeys-on_unapproved m = record { at = λ s. record { trusted = refl; admin = refl } }

  pub KeepsKeys-on_authorized :
      (m : Action MemoryKeyStore X A) → KeepsKeys {E = E} (on_authorized m)
  KeepsKeys-on_authorized m = record { at = λ s. record { trusted = refl; admin = refl } }

  pub KeepsKeys-on_metas : (m : Action E.meta_database.State X A) → KeepsKeys {E = E} (on_metas m)
  KeepsKeys-on_metas m = record { at = λ s. record { trusted = refl; admin = refl } }

  pub KeepsKeys-if :
      (b : Bool) (m n : Action (TaskServer E) X A)
      → KeepsKeys m
      → KeepsKeys n
      → KeepsKeys (if b then m else n)
  KeepsKeys-if true m n km kn = km
  KeepsKeys-if false m n km kn = kn

module _ {E : Env} {X Y A : Type 0} where
  pub KeepsKeys-raise_as :
      (f : X → Y) (m : Action (TaskServer E) X A) → KeepsKeys m → KeepsKeys (raise_as f m)
  KeepsKeys-raise_as f m km = record {
    at = λ s. record { trusted = (km.at s).trusted; admin = (km.at s).admin };
  }

module _ {E : Env} {X A B : Type 0} where
  after :
      (r : Result A X) (f : A → Action (TaskServer E) X B)
      → ((a : A) → KeepsKeys (f a))
      → KeepsKeys (lift r >>= f)
  after (ok a) f kf = record { at = λ s. (kf a).at s }
  after (err x) f kf = record { at = λ s. SameKeys-refl s }

  pub KeepsKeys-bind :
      (m : Action (TaskServer E) X A) (f : A → Action (TaskServer E) X B)
      → KeepsKeys m
      → ((a : A) → KeepsKeys (f a))
      → KeepsKeys (m >>= f)
  KeepsKeys-bind m f km kf = record {
    at = λ s. let (r, t) = m s in SameKeys-trans (km.at s) ((after r f kf).at t);
  }

  pub KeepsKeys-then :
      (m : Action (TaskServer E) X A) (n : Action (TaskServer E) X B)
      → KeepsKeys m
      → KeepsKeys n
      → KeepsKeys (m >> n)
  KeepsKeys-then m n km kn = KeepsKeys-bind m (λ _. n) km (λ _. kn)

pub ruleset keeps_rules = (
  KeepsKeys-pure, KeepsKeys-fail, KeepsKeys-lift, KeepsKeys-reads, KeepsKeys-on_world,
  KeepsKeys-on_unapproved, KeepsKeys-on_authorized, KeepsKeys-on_metas, KeepsKeys-if,
  KeepsKeys-raise_as, KeepsKeys-bind, KeepsKeys-then,
)
