-- ===== src/TaskServer/Authority/Trusted.antt =====
-- Where a trusted key of an executor comes from.
use funtonic.Base.{
  ℕ, String, ◌≡◌, ◌∙◌, ◌⊎◌, inl, inr, Result-cases, some, List, [], ◌∷◌, arith, eq_iff, ap, sym,
  ◌==◌, Bool-cases,
}
use funtonic.Crypto.Library.{Bytes}
use funtonic.Crypto.KeyStore.{Keys}
use funtonic.Crypto.KeyStore.Backends.{IsKeyStore}
use funtonic.TaskServer.Env.{Env}
use funtonic.TaskServer.State.{TaskServer}
use funtonic.TaskServer.Keys.{files, approve_executor_key, list_unapproved_executor_keys}
use funtonic.TaskServer.CommanderService.Admin.{approve_all, approve, handle, admin}
use funtonic.Crypto.SignedPayload.{SignedPayload}
use funtonic.TaskServer.Authority.Admin.{Approval, admin-trusted}
use funtonic.Base.HashMap
use funtonic.Crypto.KeyStore.Store
use funtonic.TaskServer.Protocol

module _ (E : Env) (keys : E.key_database.State → Keys) (store : IsKeyStore E.ring (files E) keys)
    (j : String) (k : Bytes) where
  open store use {insert_ok, insert_err, remove_ok, remove_err}

  abbrev pub Trusts : TaskServer E → Type 0
  Trusts s = HashMap.get j (keys s.trusted_executor_keystore) ≡ some k

  abbrev pub Waits : TaskServer E → Type 0
  Waits s = HashMap.get j (keys s.unapproved_executor_keystore) ≡ some k

  -- After an approval the key waits only if it has waited before.
  approve_executor_key-Waits :
      (id : String) (s : TaskServer E) → Waits (approve_executor_key E id s).1 → Waits s
  unfolding approve_executor_key Store.remove_key Store.register_key
  approve_executor_key-Waits id s h =
      elim (Result-cases (Store.remove_key (files E) id s.unapproved_executor_keystore).0) [
        | inl (b, removed) ↦ ground (
          arith,
          removed,
          remove_ok id s.unapproved_executor_keystore b,
          HashMap.get-remove j id (keys s.unapproved_executor_keystore),
          eq_iff id j,
        )
        | inr (e, failed) ↦ ground (
          arith,
          failed,
          remove_err id s.unapproved_executor_keystore e,
          HashMap.get-remove j id (keys s.unapproved_executor_keystore),
          eq_iff id j,
        )
      ]

  -- What the second half of an approval makes trusted.
  insert-Trusts :
      (id : String) (b : Bytes) (t : E.key_database.State)
      → HashMap.get j (keys (Store.register_key (files E) id b t).1) ≡ some k
      → (HashMap.get j (keys t) ≡ some k) ⊎ ((id ≡ j) × (b ≡ k))
  unfolding Store.register_key
  insert-Trusts id b t h = elim (Result-cases (Store.register_key (files E) id b t).0) [
    | inl (_, done) ↦
        ground (arith, done, insert_ok id b t, HashMap.get-insert j id b (keys t), eq_iff id j)
    | inr (e, failed) ↦
        ground (arith, failed, insert_err id b t e, HashMap.get-insert j id b (keys t), eq_iff id j)
  ]

  approve_executor_key-Trusts :
      (id : String) (s : TaskServer E)
      → Trusts (approve_executor_key E id s).1
      → Trusts s ⊎ ((id ≡ j) × Waits s)
  unfolding approve_executor_key Store.remove_key
  approve_executor_key-Trusts id s h =
      elim (Result-cases (Store.remove_key (files E) id s.unapproved_executor_keystore).0) [
        | inl (b, removed) ↦ ground (
          arith,
          removed,
          remove_ok id s.unapproved_executor_keystore b,
          insert-Trusts id b s.trusted_executor_keystore,
        )
        | inr (e, failed) ↦ ground (arith, failed)
      ]

  approve_all-Trusts :
      (now : ℕ) (ids : List String) (s : TaskServer E)
      → Trusts (approve_all E now ids s).1
      → Trusts s ⊎ Waits s
  unfolding approve_all
  approve_all-Trusts now [] s h = inl h
  approve_all-Trusts now (id ∷ ids) s h =
      let t = (approve_executor_key E id s).1 in
      elim (Result-cases (approve_executor_key E id s).0) [
        | inl (_, done) ↦ ground (
          arith,
          done,
          approve_all-Trusts now ids t,
          approve_executor_key-Trusts id s,
          approve_executor_key-Waits id s,
        )
        | inr (e, failed) ↦ ground (arith, failed, approve_executor_key-Trusts id s)
      ]

  -- An approval of the client, or of all that wait.
  abbrev pub Names : String → Type 0
  Names id = (id ≡ j) ⊎ (id ≡ "*")

  approve-Trusts :
      (now : ℕ) (id : String) (s : TaskServer E)
      → Trusts (approve E now id s).1
      → Trusts s ⊎ (Names id × Waits s)
  unfolding approve
  approve-Trusts now id s h = elim (Bool-cases (id == "*")) [
    | inr one ↦ ground (arith, one, approve_executor_key-Trusts id s)
    | inl all ↦ elim (Result-cases (list_unapproved_executor_keys E s)) [
      | inl (waiting, listed) ↦
          ground
            (arith, all, listed, eq_iff id "*", approve_all-Trusts now (HashMap.keys waiting) s)
      | inr (e, failed) ↦ ground (arith, all, failed)
    ]
  ]

  handle-Trusts :
      (now : ℕ) (id : String) (s : TaskServer E)
      → Trusts (handle E now (Protocol.approve_executor_key id) s).1
      → Trusts s ⊎ (Names id × Waits s)
  unfolding handle
  handle-Trusts now id s h = elim (Result-cases (approve E now id s).0) [
    | inl (_, done) ↦ ground (arith, done, approve-Trusts now id s)
    | inr (e, failed) ↦ ground (arith, failed, approve-Trusts now id s)
  ]

  -- After an admin request the key is trusted only if it was before, or if it has waited and the request
  -- decodes, at its time and under an admin key, to an approval that names the client.
  pub admin-Trusts :
      (now : ℕ) (p : SignedPayload) (s : TaskServer E)
      → Trusts (admin E now p s).1
      → Trusts s ⊎ ((id : String) × Approval E now p id s × Names id × Waits s)
  unfolding admin
  admin-Trusts now p s h = elim (admin-trusted E now p s) [
    | inl same ↦ inl (ap (λ t. HashMap.get j (keys t)) (sym same) ∙ h)
    | inr (id, approval) ↦ elim (handle-Trusts now id s (ground (arith, approval))) [
      | inl before ↦ inl before
      | inr (names, waits) ↦ inr (id, approval, names, waits)
    ]
  ]
