-- ===== src/TaskServer/Approval.antt =====
-- How the key of an executor comes to be trusted.
use funtonic.Base.{
  String, ◌≡◌, ◌≢◌, ◌⊎◌, inl, inr, true, false, none, some, ok, arith, eq_iff, Result-cases,
}
use funtonic.Base.HashMap
use funtonic.Crypto.Library.{Bytes}
use funtonic.Crypto.KeyStore.{Keys}
use funtonic.Crypto.KeyStore.Store
use funtonic.Crypto.KeyStore.Backends.{IsKeyStore}
use funtonic.TaskServer.Env.{Env}
use funtonic.TaskServer.State.{TaskServer}
use funtonic.TaskServer.Keys.{files, handle_executor_key, approve_executor_key}
use funtonic.TaskServer.Authority.{handle_executor_key-KeepsKeys}

module _ (E : Env) (keys : E.key_database.State → Keys)
    (store : IsKeyStore E.ring (files E) keys) where
  open store use {insert_ok, remove_ok, has_key_ok}

  pub approve_executor_key_ok :
      (id : String) (s : TaskServer E)
      → (approve_executor_key E id s).0 ≡ ok tt
      → (k : Bytes) × (HashMap.get id (keys s.unapproved_executor_keystore) ≡ some k)
        × (keys (approve_executor_key E id s).1.trusted_executor_keystore
            ≡ HashMap.insert id k (keys s.trusted_executor_keystore))
        × (keys (approve_executor_key E id s).1.unapproved_executor_keystore
            ≡ HashMap.remove id (keys s.unapproved_executor_keystore))
  unfolding approve_executor_key Store.remove_key Store.register_key
  approve_executor_key_ok id s h =
      elim (Result-cases (Store.remove_key (files E) id s.unapproved_executor_keystore).0) [
        | inl (k, removed) ↦ ground (
          arith,
          removed,
          remove_ok id s.unapproved_executor_keystore k,
          insert_ok id k s.trusted_executor_keystore,
        )
        | inr (e, failed) ↦ ground (arith, failed)
      ]

  -- A key that is not trusted is put among those that wait for approval, or is there.
  await_ok :
      (id : String) (k : Bytes) (s : TaskServer E)
      → Store.has_key (files E) id k s.trusted_executor_keystore ≡ ok false
      → (handle_executor_key E id k s).0 ≡ ok tt
      → HashMap.get id (keys (handle_executor_key E id k s).1.unapproved_executor_keystore) ≡ some k
  unfolding handle_executor_key Store.has_key Store.register_key
  await_ok id k s unknown h =
      elim (Result-cases (Store.has_key (files E) id k s.unapproved_executor_keystore)) [
        | inl (true, seen) ↦
            ground (arith, unknown, seen, has_key_ok id k s.unapproved_executor_keystore true seen)
        | inl (false, seen) ↦ ground (
          arith,
          unknown,
          seen,
          insert_ok id k s.unapproved_executor_keystore,
          HashMap.get-insert id id k (keys s.unapproved_executor_keystore),
          eq_iff id id,
        )
        | inr (e, failed) ↦ ground (arith, unknown, failed)
      ]

  pub handle_executor_key_ok :
      (id : String) (k : Bytes) (s : TaskServer E)
      → (handle_executor_key E id k s).0 ≡ ok tt
      → (HashMap.get id (keys s.trusted_executor_keystore) ≡ some k)
        ⊎ ((HashMap.get id (keys s.trusted_executor_keystore) ≢ some k)
            × (HashMap.get id (keys (handle_executor_key E id k s).1.unapproved_executor_keystore)
                ≡ some k))
  unfolding handle_executor_key Store.has_key Store.register_key
  handle_executor_key_ok id k s h =
      elim (Result-cases (Store.has_key (files E) id k s.trusted_executor_keystore)) [
        | inl (true, seen) ↦ ground (arith, has_key_ok id k s.trusted_executor_keystore true seen)
        | inl (false, seen) ↦
            ground (
              arith,
              has_key_ok id k s.trusted_executor_keystore false seen,
              await_ok id k s seen h,
            )
        | inr (e, failed) ↦ ground (arith, failed)
      ]

  -- Approving a client that has just presented a key that was not trusted: this key becomes the
  -- trusted key of the client, the client no longer waits, and no other client's trusted key changes.
  pub approve_executor_key-handle_executor_key :
      (id : String) (k : Bytes) (s : TaskServer E)
      → (handle_executor_key E id k s).0 ≡ ok tt
      → HashMap.get id (keys s.trusted_executor_keystore) ≢ some k
      → (approve_executor_key E id (handle_executor_key E id k s).1).0 ≡ ok tt
      → let t = (approve_executor_key E id (handle_executor_key E id k s).1).1 in
        (HashMap.get id (keys t.trusted_executor_keystore) ≡ some k)
        × (HashMap.get id (keys t.unapproved_executor_keystore) ≡ none)
        × ((j : String)
            → j ≢ id
            → HashMap.get j (keys t.trusted_executor_keystore)
              ≡ HashMap.get j (keys s.trusted_executor_keystore))
  approve_executor_key-handle_executor_key id k s h new g =
      let t = (handle_executor_key E id k s).1 in
      let (k', pending, trusted, unapproved) = approve_executor_key_ok id t g in
      let h' = handle_executor_key_ok id k s h in
      let same = ((handle_executor_key-KeepsKeys E 0 id k).at s).trusted in
      (
        ground (
          arith,
          new,
          h',
          pending,
          trusted,
          HashMap.get-insert id id k' (keys t.trusted_executor_keystore),
          eq_iff id id,
        ),
        ground (
          arith,
          unapproved,
          HashMap.get-remove id id (keys t.unapproved_executor_keystore),
          eq_iff id id,
        ),
        λ j n. ground (
          arith,
          n,
          same,
          trusted,
          HashMap.get-insert j id k' (keys t.trusted_executor_keystore),
          eq_iff id j,
        ),
      )
