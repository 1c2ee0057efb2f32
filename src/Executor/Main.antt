-- ===== src/Executor/Main.antt =====
-- `main` of executor/src/main.rs and `executor_main` of executor/src/lib.rs: an executor starts from its
-- configuration and its key, and keeps what was changed for the next start.
use funtonic.Base.{
  String, Option, none, some, List, [], ◌∷◌, Result, ok, err, map_err, if◌then◌else◌,
}
use funtonic.Base.Action.{Action, pure, lift, reads, ◌>>=◌, ◌>>◌}
use funtonic.Base.HashMap.{HashMap}
use funtonic.Crypto.Library.{Bytes, Base64, Ed25519}
use funtonic.Crypto.SignedPayload.{Ed25519Key}
use funtonic.Crypto.KeyStore.{KeyStoreError}
use funtonic.Crypto.KeyStore.Memory.{MemoryKeyStore, memory_keystore, memory_backend}
use funtonic.Crypto.KeyStore.Store.{init_from_map}
use funtonic.Config.Files.{
  PathBuf, push, Files, exists, Permissions, Yaml, FileError, parse_yaml_from_file, write,
}
use funtonic.Config.Tls.{TlsConfig, ClientTlsConfig, get_client_config}
use funtonic.Config.Location.{ConfigError, file, DefaultLocations, parse, get_config_directory}
use funtonic.Executor.Connection.{Outcome, first_reconnect_time, retry}
use funtonic.Executor.Registration.{ExecutorConfig}

abbrev pub config_name : String
config_name = "executor.yml"

abbrev pub key_name : String
key_name = "executor_ed25519_key.yml"

abbrev pub get_key_path : PathBuf → PathBuf
get_key_path config_dir = push key_name config_dir

-- `generate_base64_encoded_keys`, for the pair that is drawn.
unfoldable pub generate_base64_encoded_keys :
    Base64 → String → Bytes × Bytes → Ed25519Key × HashMap String
generate_base64_encoded_keys base64 name (private, public) = (
  record { id = name; pkcs8 = base64.encode private; public_key = some (base64.encode public) },
  (name, base64.encode public) ∷ [],
)

-- The errors that end `main`; `panic` where no key can be drawn.
pub data MainError : Type 0 where
  not_configured : ConfigError → MainError
  not_written : String → MainError
  panic : MainError

-- What is the same for all rounds. `uri` and `tls_config` say how far an URL and a TLS configuration
-- are refused for the endpoint; the key store is the one of memory.
pub record Machine : Type 1 where
  pub base64 : Base64
  pub ring : Ed25519
  pub locations : DefaultLocations
  pub config_yaml : Yaml ExecutorConfig
  pub key_yaml : Yaml Ed25519Key
  pub expand : String → PathBuf
  pub uri : String → Result (Unit {0}) String
  pub tls_config : ClientTlsConfig → Result (Unit {0}) String

-- What a round meets: the files that it may use, the key pair that it draws, and the outcomes of
-- `do_executor_main` with a signing key.
pub record Surroundings : Type 0 where
  pub permissions : Permissions
  pub pair : Option (Bytes × Bytes)
  pub outcomes : Ed25519Key → MemoryKeyStore → List Outcome

pub data ExecutorError : Type 0 where
  endpoint : String → ExecutorError
  tls_file : FileError → ExecutorError
  key_store : KeyStoreError → ExecutorError

-- How a round of `main` ends: with an error that is waited after, with the connection still tried, or
-- with a configuration and whether it is written.
pub data Round : Type 0 where
  failed : ExecutorError → Round
  running : Round
  saved : Result (Unit {0}) String → Round

unfoldable pub with_keys : ExecutorConfig → Option (HashMap String) → Option ExecutorConfig
with_keys config none = none
with_keys config (some keys) = some (record config { authorized_keys = keys })

unfoldable pub drawn : Option (Bytes × Bytes) → Result (Bytes × Bytes) MainError
drawn none = err panic
drawn (some pair) = ok pair

abbrev pub raised : {A : Type 0} → Action Files FileError A → Action Files MainError A
raised m files =
    let (result, after) = m files in (map_err (λ e. not_configured (file e)) result, after)

module _ (M : Machine) where
  unfoldable pub tls_endpoint :
      Permissions → Files → Option TlsConfig → Result (Unit {0}) ExecutorError
  unfolding get_client_config
  tls_endpoint permissions files none = ok tt
  tls_endpoint permissions files (some tls) =
      elim (get_client_config M.expand permissions files tls) [
        | err e ↦ err (tls_file e)
        | ok client ↦ map_err endpoint (M.tls_config client)
      ]

  -- The URL is parsed first.
  unfoldable pub make_endpoint :
      Permissions → Files → ExecutorConfig → Result (Unit {0}) ExecutorError
  unfolding tls_endpoint
  make_endpoint permissions files config = elim (M.uri config.server_url) [
    | err e ↦ err (endpoint e)
    | ok _ ↦ tls_endpoint permissions files config.tls
  ]

  -- `none` while the retry loop goes on. The metadata of the executor goes to `do_executor_main` only.
  unfoldable pub executor_main :
      Surroundings
      → ExecutorConfig
      → Ed25519Key
      → Files
      → Result (Option ExecutorConfig) ExecutorError
  unfolding retry with_keys init_from_map make_endpoint
  executor_main s config signing_key files = elim (make_endpoint s.permissions files config) [
    | err e ↦ err e
    | ok _ ↦
        let (initialized, store) =
          init_from_map (memory_backend M.ring) M.base64 config.authorized_keys memory_keystore in
        elim initialized [
          | err e ↦ err (key_store e)
          | ok _ ↦ ok (
              with_keys config
                (retry M.base64 config.authorized_keys first_reconnect_time
                  (s.outcomes (record signing_key { id = config.client_id }) store)).1)
        ]
  ]

  -- `to_writer(File::create(key_path)?, &signing_key)?`
  unfoldable pub write_key : Surroundings → PathBuf → Ed25519Key → Action Files MainError Ed25519Key
  unfolding write
  write_key s key_path signing_key = do
    written ← raised (write s.permissions M.key_yaml key_path signing_key)
    lift (map_err not_written written)
    pure signing_key

  unfoldable pub generate_key :
      Surroundings → ExecutorConfig → PathBuf → Action Files MainError Ed25519Key
  unfolding write_key generate_base64_encoded_keys drawn
  generate_key s config key_path = do
    pair ← lift (drawn s.pair)
    write_key s key_path (generate_base64_encoded_keys M.base64 config.client_id pair).0

  unfoldable pub read_key : Surroundings → PathBuf → Action Files MainError Ed25519Key
  unfolding parse_yaml_from_file
  read_key s key_path = reads (λ files.
      map_err (λ e. not_configured (file e))
        (parse_yaml_from_file s.permissions M.key_yaml key_path files))

  -- The key that the file has, or a new one, which is written.
  unfoldable pub get_signing_key :
      Surroundings → ExecutorConfig → PathBuf → Action Files MainError Ed25519Key
  unfolding exists read_key generate_key
  get_signing_key s config key_path files =
      if exists key_path files
      then read_key s key_path files
      else generate_key s config key_path files

  unfoldable pub start :
      Option PathBuf → Surroundings → Action Files MainError (ExecutorConfig × PathBuf × Ed25519Key)
  unfolding parse get_config_directory get_signing_key
  start provided s = do
    parsed ← reads (λ files.
        map_err not_configured
          (parse M.locations s.permissions M.config_yaml provided config_name files))
    dir ← reads (λ files.
        map_err not_configured (get_config_directory M.locations provided config_name files))
    signing_key ← get_signing_key s parsed.0 (get_key_path dir)
    pure (parsed.0, parsed.1, signing_key)

  unfoldable pub finish :
      Surroundings
      → PathBuf
      → Result (Option ExecutorConfig) ExecutorError
      → Action Files MainError Round
  unfolding write
  finish s config_path (err e) = pure (failed e)
  finish s config_path (ok none) = pure running
  finish s config_path (ok (some config)) = do
    written ← raised (write s.permissions M.config_yaml config_path config)
    pure (saved written)

  -- One round of the loop of `main`.
  unfoldable pub main_round : Option PathBuf → Surroundings → Action Files MainError Round
  unfolding start executor_main finish
  main_round provided s = do
    (config, config_path, signing_key) ← start provided s
    (λ files. finish s config_path (executor_main s config signing_key files) files)
