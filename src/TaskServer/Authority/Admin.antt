-- ===== src/TaskServer/Authority/Admin.antt =====
-- What the administrators' requests change of the keys.
use funtonic.Base.{
  ℕ, String, ◌≡◌, ◌⊎◌, inl, inr, ap, refl, Option, none, some, List, [], ◌∷◌, Result, ok, err,
  map_err, arith,
}
use funtonic.Base.Action.{lift, ◌>>=◌}
use funtonic.Base.HashMap
use funtonic.Base.HashMap.{HashMap}
use funtonic.Crypto.SignedPayload.{SignedPayload}
use funtonic.Crypto.KeyStore.Store.{decode_payload}
use funtonic.Crypto.KeyStore.{KeyStoreError}
use funtonic.TaskServer.ExecutorService.{required}
use funtonic.TaskServer.Env.{Env, AdminDroppedExecutorJsonResponse}
use funtonic.TaskServer.Protocol.{
  AdminRequest, RequestType, list_connected_executors, list_known_executors, drop_executor,
  approve_executor_key, list_running_tasks, list_executor_keys, list_authorized_keys,
  list_admin_authorized_keys, task_server_status, key_store_status,
}
use funtonic.TaskServer.State.{TaskServer}
use funtonic.TaskServer.Keys
use funtonic.TaskServer.Registry.{Metas, memory, write_executor_meta_database}
use funtonic.TaskServer.CommanderService.Admin.{
  take_meta, disconnect, drop_all, drop_matching, approve_all, approve, handle, admin,
}
use funtonic.TaskServer.Frame.{
  KeepsKeys, keeps_rules, KeepsKeys-bind, KeepsKeys-raise_as, KeepsKeys-on_metas, KeepsKeys-pure,
}

module _ (E : Env) (now : ℕ) where
  disconnect-KeepsKeys : (id : String) → KeepsKeys (disconnect E now id)
  unfolding disconnect
  disconnect-KeepsKeys id = record {
    at = λ s. record { trusted = ground arith; admin = ground arith };
  }

  write_executor_meta_database-KeepsKeys :
      {R : Type 0} (f : Metas → R × Metas) → KeepsKeys (write_executor_meta_database E f)
  unfolding write_executor_meta_database
  write_executor_meta_database-KeepsKeys f = KeepsKeys-raise_as _ _ (KeepsKeys-on_metas _)

  drop_all-KeepsKeys :
      (ids : List String) (acc : HashMap AdminDroppedExecutorJsonResponse)
      → KeepsKeys (drop_all E now ids acc)
  unfolding drop_all
  drop_all-KeepsKeys [] acc = KeepsKeys-pure acc
  drop_all-KeepsKeys (id ∷ ids) acc =
      KeepsKeys-bind _ _
        (KeepsKeys-raise_as task_server_status _
          (write_executor_meta_database-KeepsKeys (take_meta id)))
        (λ known. KeepsKeys-bind _ _ (disconnect-KeepsKeys id) (λ removed. drop_all-KeepsKeys ids (
          HashMap.insert id
            (record { removed_from_connected = removed; removed_from_known = known }) acc)))

  drop_matching-KeepsKeys : (query : String) → KeepsKeys (drop_matching E now query)
  unfolding drop_matching
  drop_matching-KeepsKeys query = search (keeps_rules, drop_all-KeepsKeys) depth 12

  approve_executor_key-admin :
      (id : String) (s : TaskServer E)
      → (Keys.approve_executor_key E id s).1.authorized_admin_keys ≡ s.authorized_admin_keys
  unfolding Keys.approve_executor_key
  approve_executor_key-admin id s = ground arith

  approve_all-admin :
      (ids : List String) (s : TaskServer E)
      → (approve_all E now ids s).1.authorized_admin_keys ≡ s.authorized_admin_keys
  unfolding approve_all
  approve_all-admin [] s = refl
  approve_all-admin (id ∷ ids) s = ground (
    arith,
    approve_executor_key-admin id s,
    approve_all-admin ids (Keys.approve_executor_key E id s).1,
  )

  approve-admin :
      (id : String) (s : TaskServer E)
      → (approve E now id s).1.authorized_admin_keys ≡ s.authorized_admin_keys
  unfolding approve
  approve-admin id s = grind (arith, approve_executor_key-admin, approve_all-admin)

  -- What `handle` does to the keys: nothing, unless the request is an approval.
  handle-KeepsKeys :
      (r : RequestType)
      → KeepsKeys (handle E now r) ⊎ ((id : String) × (r ≡ approve_executor_key id))
  unfolding handle
  handle-KeepsKeys (list_connected_executors q) = inl (search keeps_rules)
  handle-KeepsKeys (list_known_executors q) = inl (search keeps_rules)
  handle-KeepsKeys list_running_tasks = inl (search keeps_rules)
  handle-KeepsKeys (drop_executor q) = inl (search (keeps_rules, drop_matching-KeepsKeys))
  handle-KeepsKeys list_executor_keys = inl (search keeps_rules)
  handle-KeepsKeys (approve_executor_key id) = inr (id, refl)
  handle-KeepsKeys list_authorized_keys = inl (search keeps_rules)
  handle-KeepsKeys list_admin_authorized_keys = inl (search keeps_rules)

  handle_approval-admin :
      (id : String) (s : TaskServer E)
      → (handle E now (approve_executor_key id) s).1.authorized_admin_keys ≡ s.authorized_admin_keys
  unfolding handle
  handle_approval-admin id s = ground (arith, approve-admin id s)

  handle-admin :
      (r : RequestType) (s : TaskServer E)
      → (handle E now r s).1.authorized_admin_keys ≡ s.authorized_admin_keys
  handle-admin r s = elim (handle-KeepsKeys r) [
    | inl keeps ↦ (keeps.at s).admin
    | inr (id, p) ↦ cc (p, handle_approval-admin id s)
  ]

  -- Whatever an administrator asks for, the admin keys stay the same.
  pub admin-admin :
      (p : SignedPayload) (s : TaskServer E)
      → (admin E now p s).1.authorized_admin_keys ≡ s.authorized_admin_keys
  unfolding admin
  admin-admin p s = grind (arith, handle-admin)

  -- The payload decodes under an admin key, and asks to approve the key of `id`.
  abbrev pub Approval : SignedPayload → String → TaskServer E → Type 0
  Approval p id s =
      decode_payload (memory E) E.admin_message E.unix_epoch now p s.authorized_admin_keys
      ≡ ok (record { request_type = some (approve_executor_key id) })

  required-trusted :
      (o : Option RequestType) (s : TaskServer E)
      → (((lift (required "Missing request type" o) >>= handle E now) s).1.trusted_executor_keystore
          ≡ s.trusted_executor_keystore)
        ⊎ ((id : String) × (o ≡ some (approve_executor_key id)))
  required-trusted none s = inl refl
  required-trusted (some r) s = elim (handle-KeepsKeys r) [
    | inl keeps ↦ inl (keeps.at s).trusted
    | inr (id, p) ↦ inr (id, ap some p)
  ]

  pub admin-trusted :
      (p : SignedPayload) (s : TaskServer E)
      → ((admin E now p s).1.trusted_executor_keystore ≡ s.trusted_executor_keystore)
        ⊎ ((id : String) × Approval p id s)
  unfolding admin
  admin-trusted p s = go _
    where
      go :
          (r : Result AdminRequest KeyStoreError)
          → (((lift (map_err key_store_status r) >>= λ request.
                  lift (required "Missing request type" request.request_type) >>= handle E now)
                s).1.trusted_executor_keystore
              ≡ s.trusted_executor_keystore)
            ⊎ ((id : String) × (r ≡ ok (record { request_type = some (approve_executor_key id) })))
      go (err e) = inl refl
      go (ok request) = elim (required-trusted request.request_type s) [
        | inl same ↦ inl same
        | inr (id, p) ↦ inr (id, ap (λ o. ok (record { request_type = o })) p)
      ]
