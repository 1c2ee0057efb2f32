-- ===== src/TaskServer/Keys.antt =====
-- The keys of executors: `handle_executor_key`, `approve_executor_key` and the two listings.
use funtonic.Base.{String, Result, if◌then◌else◌}
use funtonic.Base.Action.{Action, pure, reads, ◌>>=◌}
use funtonic.Base.HashMap.{HashMap}
use funtonic.Crypto.Library.{Bytes}
use funtonic.Crypto.KeyStore.{KeyStoreError, KeyStoreBackend}
use funtonic.Crypto.KeyStore.File.{file_backend}
use funtonic.Crypto.KeyStore.Store.{register_key, remove_key, has_key, list_all}
use funtonic.TaskServer.Env.{Env}
use funtonic.TaskServer.State.{TaskServer, on_trusted, on_unapproved}

module _ (E : Env) where
  abbrev pub files : KeyStoreBackend
  files = file_backend E.key_database E.ring

  -- The second store is asked only if the first does not have the key.
  unfoldable pub handle_executor_key :
      String → Bytes → Action (TaskServer E) KeyStoreError (Unit {0})
  unfolding has_key register_key
  handle_executor_key client_id key_bytes = do
    trusted ← reads (λ s. has_key files client_id key_bytes s.trusted_executor_keystore)
    if trusted then pure tt else do
      unapproved ← reads (λ s. has_key files client_id key_bytes s.unapproved_executor_keystore)
      if unapproved then pure tt else on_unapproved (register_key files client_id key_bytes)

  unfoldable pub approve_executor_key : String → Action (TaskServer E) KeyStoreError (Unit {0})
  unfolding remove_key register_key
  approve_executor_key client_id = do
    key_bytes ← on_unapproved (remove_key files client_id)
    on_trusted (register_key files client_id key_bytes)

  unfoldable pub list_trusted_executor_keys : TaskServer E → Result (HashMap String) KeyStoreError
  unfolding list_all
  list_trusted_executor_keys s = list_all files E.base64 s.trusted_executor_keystore

  unfoldable pub list_unapproved_executor_keys :
      TaskServer E → Result (HashMap String) KeyStoreError
  unfolding list_all
  list_unapproved_executor_keys s = list_all files E.base64 s.unapproved_executor_keystore
