-- ===== src/TaskServer/ExecutorService.antt =====
-- common/src/task_server/executor_service_impl.rs: `get_tasks` and `task_execution`.
use funtonic.Base.{
  ◌≡◌, ℕ, String, Bool, true, false, Option, none, some, List, [], ◌∷◌, Result, ok, err, ◌==◌,
  if◌then◌else◌,
}
use funtonic.Base.Action.{Action, pure, fail, lift, reads, ◌>>=◌, ◌>>◌}
use funtonic.Crypto.SignedPayload.{SignedPayload}
use funtonic.Crypto.KeyStore.Store.{decode_payload}
use funtonic.TaskServer.Env.{Env}
use funtonic.TaskServer.Protocol.{
  RegisterExecutorRequest, GetTasksRequest, GetTaskStreamReply, task_execution_result, Status, text,
  invalid_argument, failed_precondition, not_found, panic, key_store_status, task_server_status,
}
use funtonic.TaskServer.State.{TaskServer, on_world, raise_as}
use funtonic.TaskServer.Keys.{files, handle_executor_key}
use funtonic.TaskServer.Registry.{register_executor, register_new_task, get_task_sink}

-- `ok_or(Status::invalid_argument(…))?`
abbrev pub required : {A : Type 0} → String → Option A → Result A Status
required missing none = err (invalid_argument (text missing))
required missing (some a) = ok a

pub required_ok :
    {A : Type 0} (missing : String) (o : Option A) (a : A) → required missing o ≡ ok a → o ≡ some a
required_ok missing none a h = cc
required_ok missing (some b) a h = cc

module _ (E : Env) (now : ℕ) where
  unfoldable pub check_version : GetTasksRequest → Result (Unit {0}) Status
  check_version request =
      if request.client_protocol_version == E.protocol_version
      then ok tt
      else err (failed_precondition (text "Expecting another protocol version"))

  -- `mpsc::unbounded()`
  unfoldable pub new_channel : Action (TaskServer E) Status E.channels.Sender
  new_channel = on_world (λ w. let (sender, w') = E.channels.unbounded w in (ok sender, w'))

  -- `get_tasks`, up to the stream of replies, which is given by the channel that it reads.
  unfoldable pub get_tasks :
      RegisterExecutorRequest → Action (TaskServer E) Status E.channels.Sender
  unfolding check_version new_channel
  get_tasks registration = do
    raise_as key_store_status (handle_executor_key E registration.client_id registration.public_key)
    signed ← lift (required "Missing getTasksRequest" registration.get_tasks_request)
    request ← raise_as key_store_status (
        reads (λ s.
          decode_payload (files E) E.tasks_message E.unix_epoch now signed
            s.trusted_executor_keystore))
    lift (check_version request)
    sender ← new_channel
    raise_as task_server_status (register_executor E request sender)
    pure sender

  -- The closure of the stream of replies: each task is registered and handed to the executor.
  unfoldable pub next_task :
      SignedPayload × E.channels.Sender → Action (TaskServer E) Status GetTaskStreamReply
  unfolding register_new_task
  next_task (payload, sender_to_commander) = do
    task_id ← raise_as task_server_status (register_new_task E sender_to_commander)
    pure (record { task_id = task_id; payload = some payload })

  -- One message of the request stream: an error of the stream or of the decoding ends the handler,
  -- a commander that is gone ends the loop (`false`).
  unfoldable pub report :
      E.channels.Sender → Result SignedPayload Status → Action (TaskServer E) Status Bool
  report sender message = do
    signed_payload ← lift message
    result ← raise_as key_store_status (
        reads (λ s.
          decode_payload (files E) E.result_message E.unix_epoch now signed_payload
            s.trusted_executor_keystore))
    on_world (λ w.
        let (sent, w') = E.channels.send_response sender (task_execution_result result) w in
        (ok (elim sent [ ok _ ↦ true | err _ ↦ false ]), w'))

  -- The `while let` over the messages that arrive.
  unfoldable pub reports :
      E.channels.Sender
      → List (Result SignedPayload Status)
      → Action (TaskServer E) Status (Unit {0})
  unfolding report
  reports sender [] = pure tt
  reports sender (message ∷ messages) =
      let rest = reports sender messages in
      report sender message >>= λ go_on. if go_on then rest else pure tt

  -- `task_execution`: the id comes with the metadata, where `unwrap` panics if it is missing.
  unfoldable pub task_execution :
      Option String → List (Result SignedPayload Status) → Action (TaskServer E) Status (Unit {0})
  unfolding get_task_sink reports
  task_execution none messages = fail panic
  task_execution (some task_id) messages = do
    sink ← raise_as task_server_status (get_task_sink E task_id)
    elim sink [
      | none ↦ fail (not_found (text "task_id not found"))
      | some sender ↦ reports sender messages
    ]
