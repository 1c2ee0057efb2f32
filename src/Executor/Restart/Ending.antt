-- ===== src/Executor/Restart/Ending.antt =====
-- How a round of `main` of executor/src/main.rs ends with its configuration written.
use mathlib.Core.List.{Mem, mem-cons_self, mem-cons_of_mem}
use funtonic.Base.{
  ℕ, Option-cases, String, ◌≡◌, refl, sym, ap, ◌∙◌, Option, none, some, List, [], ◌∷◌, Result, ok,
  err, arith, inl, inr, Result-cases,
}
use funtonic.Config.Files.{PathBuf, Files, write}
use funtonic.Base.HashMap.{HashMap}
use funtonic.Crypto.Library.{Base64}
use funtonic.Executor.Connection.{
  Outcome, failed, ended, ConfigurationModification, modify, first_reconnect_time,
  next_reconnect_time, retry,
}
use funtonic.Crypto.KeyStore.Memory.{MemoryKeyStore, memory_keystore, memory_backend}
use funtonic.Crypto.KeyStore.Store.{init_from_map}
use funtonic.Executor.Main.{
  make_endpoint, finish, saved, executor_main, with_keys, ExecutorError, Machine, Surroundings,
}
use funtonic.Crypto.SignedPayload.{Ed25519Key}
use funtonic.Executor.Registration.{ExecutorConfig}

pub retry_ended :
    (base64 : Base64) (keys changed : HashMap String) (time : ℕ) (outcomes : List Outcome)
    → (retry base64 keys time outcomes).1 ≡ some changed
    → (m : ConfigurationModification) × Mem (ended m) outcomes × (changed ≡ modify base64 m keys)
unfolding retry
retry_ended base64 keys changed time [] h = ground arith
retry_ended base64 keys changed time (failed status ∷ outcomes) h =
    let (m, among, changes) =
      retry_ended base64 keys changed (next_reconnect_time status time) outcomes h in
    (m, mem-cons_of_mem (failed status) among, changes)
retry_ended base64 keys changed time (ended m ∷ outcomes) h = (m, mem-cons_self, ground arith)

module _ (M : Machine) (provided : Option PathBuf) where
  pub finish_ok :
      (s : Surroundings) (path : PathBuf) (r : Result (Option ExecutorConfig) ExecutorError)
      (files : Files)
      → (finish M s path r files).0 ≡ ok (saved (ok tt))
      → (changed : ExecutorConfig) × (r ≡ ok (some changed))
        × ((write s.permissions M.config_yaml path changed files).0 ≡ ok (ok tt))
        × ((finish M s path r files).1 ≡ (write s.permissions M.config_yaml path changed files).1)
  unfolding finish
  finish_ok s path (err e) files h = ground arith
  finish_ok s path (ok none) files h = ground arith
  finish_ok s path (ok (some changed)) files h =
      elim (Result-cases (write s.permissions M.config_yaml path changed files).0)
        as (λ _.
          (next : ExecutorConfig) × (◌≡◌ {A = Result (Option ExecutorConfig) ExecutorError}
            (ok (some changed)) (ok (some next)))
          × ((write s.permissions M.config_yaml path next files).0 ≡ ok (ok tt))
          × ((finish M s path (ok (some changed)) files).1
              ≡ (write s.permissions M.config_yaml path next files).1)) [
                | inr (e, refused) ↦ ground arith
                | inl (ok done, through) ↦ (changed, refl, through, ground arith)
                | inl (err e, through) ↦ ground arith
              ]

  -- The outcome by which the retry loop has ended, one of those with the key under the executor's id
  -- and a key store with the keys of the configuration, and what it makes of the configuration.
  pub Ended : Surroundings → ExecutorConfig → Ed25519Key → ExecutorConfig → Type 0
  Ended s config key changed =
      (m : ConfigurationModification) × (store : MemoryKeyStore) × (init_from_map
          (memory_backend M.ring) M.base64 config.authorized_keys memory_keystore
        ≡ (ok tt, store))
      × Mem (ended m) (s.outcomes (record key { id = config.client_id }) store)
      × (changed ≡ record config { authorized_keys = modify M.base64 m config.authorized_keys })

  pub executor_main_ok :
      (s : Surroundings) (config : ExecutorConfig) (key : Ed25519Key) (changed : ExecutorConfig)
      (files : Files)
      → executor_main M s config key files ≡ ok (some changed)
      → Ended s config key changed
  unfolding executor_main Ended with_keys
  executor_main_ok s config key changed files h =
      let (result, store) =
        init_from_map (memory_backend M.ring) M.base64 config.authorized_keys memory_keystore in
      let outcomes : List Outcome = s.outcomes (record key { id = config.client_id }) store in
      let returned : (keys : HashMap String)
          → ((retry M.base64 config.authorized_keys first_reconnect_time outcomes).1 ≡ some keys)
          → (make_endpoint M s.permissions files config ≡ ok tt)
          → (result ≡ ok tt)
          → record config { authorized_keys = keys } ≡ changed =
        λ keys has configured filled. ground arith in
      elim (Result-cases (make_endpoint M s.permissions files config))
        as (λ _. Ended s config key changed) [
          | inr (e, refused) ↦ ground arith
          | inl (_, configured) ↦ elim (Result-cases result) as (λ _. Ended s config key changed) [
            | inr (e, undecoded) ↦ ground arith
            | inl (_, filled) ↦
                elim (Option-cases
                    (retry M.base64 config.authorized_keys first_reconnect_time outcomes).1)
                  as (λ _. Ended s config key changed) [
                    | inl going_on ↦ ground arith
                    | inr (keys, has) ↦
                        let (m, among, changes) =
                          retry_ended M.base64 config.authorized_keys keys first_reconnect_time
                            outcomes has in
                        (
                          m,
                          store,
                          ap (λ r. (r, store)) filled,
                          among,
                          sym (returned keys has configured filled)
                              ∙ ap (λ k. record config { authorized_keys = k }) changes,
                        )
                  ]
          ]
        ]
