-- ===== src/Executor/Dispatch.antt =====
-- `do_executor_main` of executor/src/lib.rs: registration, and the loop over the tasks that arrive.
use funtonic.Base.{
  ℕ, ◌*◌, String, Option, none, some, List, [], ◌∷◌, ◌++◌, Result, ok, err, map_err, if◌then◌else◌,
}
use funtonic.Base.Action.{Action, pure, fail, lift, ◌>>=◌, ◌>>◌}
use funtonic.Base.HashMap
use funtonic.Base.HashMap.{HashMap}
use funtonic.Crypto.Library.{Bytes, Ed25519, Base64, Message}
use funtonic.Crypto.SignedPayload.{
  SignedPayload, Ed25519Key, EncodePayloadError, encode_and_sign, nanos,
}
use funtonic.Crypto.KeyStore.{KeyStoreError}
use funtonic.Crypto.KeyStore.Memory.{MemoryKeyStore, memory_backend}
use funtonic.Crypto.KeyStore.Store.{decode_payload}
use funtonic.TaskServer.Protocol.{
  RegisterExecutorRequest, GetTasksRequest, GetTaskStreamReply, LaunchTaskRequestPayload, Task,
  execute_command, streaming_payload, authorize_key, revoke_key, ExecutionResult, task_completed,
  task_rejected, TaskExecutionResult,
}
use funtonic.Executor.Connection.{
  LastConnectionStatus, connecting, connected, ConfigurationModification, add_key, unchanged,
}
use funtonic.Executor.Connection

-- What the executor uses and does not implement: the client of the task server, the clock and the
-- random numbers, the libraries of Crypto/Library, and the formatted texts.
pub record Client : Type 1 where
  pub Net : Type 0
  pub connect : Action Net String (Unit {0})
  -- the messages of the stream that `get_tasks` answers with
  pub get_tasks :
      RegisterExecutorRequest → Action Net String (List (Result GetTaskStreamReply String))
  -- under the task id in the metadata
  pub task_execution : String → List SignedPayload → Action Net String (Unit {0})
  pub clock : Net → ℕ
  pub random : Net → ℕ × Net
  -- `AsciiMetadataValue::try_from`
  pub metadata : String → Result (Unit {0}) String
  pub ring : Ed25519
  pub base64 : Base64
  pub launch_message : Message LaunchTaskRequestPayload
  pub tasks_message : Message GetTasksRequest
  pub result_message : Message TaskExecutionResult
  pub unix_epoch : ℕ
  pub undecodable : String → KeyStoreError → String
  pub unknown_key : String → String

-- `anyhow::Error`, by where it comes from. `panic` stands for a panic of the thread.
pub data RunError : Type 0 where
  transport : String → RunError
  signing : EncodePayloadError → RunError
  panic : RunError

-- The network and the last connection status, with the commands handed to `tokio::spawn` under their
-- task ids.
pub record Executor (C : Client) : Type 0 where
  pub net : C.Net
  pub status : LastConnectionStatus
  pub started : List (String × String)

module _ (C : Client) where
  abbrev pub minute : ℕ
  minute = 60 * nanos

  unfoldable pub sign :
      {P : Type 0} → Message P → P → Ed25519Key → Action (Executor C) RunError SignedPayload
  sign message p signing_key s =
      let (nonce, net) = C.random s.net in
      (
        map_err signing (
            encode_and_sign C.ring C.base64 C.unix_epoch message p signing_key minute
              (C.clock s.net) nonce),
        record s { net = net },
      )

  -- A call of the client.
  abbrev pub call : {A : Type 0} → Action C.Net String A → Action (Executor C) RunError A
  call m s = let (r, net) = m s.net in (map_err transport r, record s { net = net })

  unfoldable pub single_execution_result :
      ExecutionResult → String → String → Ed25519Key → Action (Executor C) RunError (Unit {0})
  unfolding sign
  single_execution_result result client_id task_id signing_key = do
    signed ←
        sign C.result_message
          (record { task_id = task_id; client_id = client_id; execution_result = some result })
          signing_key
    lift (map_err transport (C.metadata task_id))
    call (C.task_execution task_id (signed ∷ []))

  -- `tokio::spawn(execute_task(…))`
  unfoldable pub spawn : String → String → Action (Executor C) RunError (Unit {0})
  spawn task_id command s = (ok tt, record s { started = s.started ++ (task_id, command) ∷ [] })

  -- The branches on the task; a modification of the configuration ends the loop.
  unfoldable pub run_task :
      HashMap String
      → String
      → Ed25519Key
      → String
      → Task
      → Action (Executor C) RunError (Option ConfigurationModification)
  unfolding single_execution_result spawn HashMap.contains_key
  run_task authorized_keys client_id signing_key task_id (execute_command command) = do
    spawn task_id command
    pure none
  run_task authorized_keys client_id signing_key task_id (streaming_payload p) = do
    single_execution_result (task_rejected "Streaming not yet implemented") client_id task_id
        signing_key
    pure none
  run_task authorized_keys client_id signing_key task_id (authorize_key public_key) = do
    single_execution_result (task_completed 0) client_id task_id signing_key
    pure (some (add_key public_key.key_id public_key.key_bytes))
  run_task authorized_keys client_id signing_key task_id (revoke_key key_id) =
      if HashMap.contains_key key_id authorized_keys
      then (do
        single_execution_result (task_completed 0) client_id task_id signing_key
        pure (some (Connection.revoke_key key_id)))
      else do
        single_execution_result (task_rejected (C.unknown_key key_id)) client_id task_id signing_key
        pure none

  -- What is done about a decoded payload, or about one that does not decode.
  unfoldable pub run_payload :
      HashMap String
      → String
      → Ed25519Key
      → String
      → Result LaunchTaskRequestPayload KeyStoreError
      → Action (Executor C) RunError (Option ConfigurationModification)
  unfolding run_task
  run_payload authorized_keys client_id signing_key task_id (ok payload) = elim (payload.task) [
    | none ↦ pure none
    | some task ↦ run_task authorized_keys client_id signing_key task_id task
  ]
  run_payload authorized_keys client_id signing_key task_id (err KeyStoreError.panic) = fail panic
  run_payload authorized_keys client_id signing_key task_id (err e) = do
    single_execution_result (task_rejected (C.undecodable task_id e)) client_id task_id signing_key
    pure none

  -- The body of the loop.
  unfoldable pub react :
      HashMap String
      → MemoryKeyStore
      → String
      → Ed25519Key
      → GetTaskStreamReply
      → Action (Executor C) RunError (Option ConfigurationModification)
  unfolding run_payload
  react authorized_keys key_store client_id signing_key reply s = elim (reply.payload) [
    | none ↦ (ok none, s)
    | some signed_payload ↦
        run_payload authorized_keys client_id signing_key reply.task_id
          (decode_payload (memory_backend C.ring) C.launch_message C.unix_epoch (C.clock s.net)
            signed_payload key_store)
          s
  ]

  -- The loop over the messages of the stream, to its end.
  unfoldable pub run :
      HashMap String
      → MemoryKeyStore
      → String
      → Ed25519Key
      → List (Result GetTaskStreamReply String)
      → Action (Executor C) RunError ConfigurationModification
  unfolding react
  run authorized_keys key_store client_id signing_key [] = pure unchanged
  run authorized_keys key_store client_id signing_key (err e ∷ messages) = fail (transport e)
  run authorized_keys key_store client_id signing_key (ok reply ∷ messages) =
      let rest = run authorized_keys key_store client_id signing_key messages in
      react authorized_keys key_store client_id signing_key reply >>= λ change. elim change [
        | none ↦ rest
        | some modification ↦ pure modification
      ]

  abbrev pub set_status : LastConnectionStatus → Action (Executor C) RunError (Unit {0})
  set_status status s = (ok tt, record s { status = status })

  -- The public key of the signing key, which is unwrapped.
  unfoldable pub public_key_bytes : Ed25519Key → Result Bytes RunError
  public_key_bytes signing_key = elim (signing_key.public_key) [
    | none ↦ err panic
    | some text ↦ map_err transport (C.base64.decode text)
  ]

  -- `do_executor_main`; `request` is what `GetTasksRequest::try_from` makes of the configuration.
  unfoldable pub do_executor_main :
      Result GetTasksRequest String
      → HashMap String
      → MemoryKeyStore
      → String
      → Ed25519Key
      → Action (Executor C) RunError ConfigurationModification
  unfolding public_key_bytes sign run
  do_executor_main request authorized_keys key_store client_id signing_key = do
    set_status connecting
    call C.connect
    set_status connected
    public_key ← lift (public_key_bytes signing_key)
    tasks_request ← lift (map_err transport request)
    signed ← sign C.tasks_message tasks_request signing_key
    messages ← call (
        C.get_tasks (record {
          public_key = public_key;
          client_id = client_id;
          get_tasks_request = some signed;
        }))
    run authorized_keys key_store client_id signing_key messages
