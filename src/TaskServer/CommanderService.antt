-- ===== src/TaskServer/CommanderService.antt =====
-- common/src/task_server/commander_service_impl.rs: `launch_task`; `admin` is in Admin.
pub mod Admin
use funtonic.Base
use funtonic.Base.{ℕ, suc, String, Option, none, some, List, [], ◌∷◌, Result, ok, err, map_err}
use funtonic.Base.Action.{Action, pure, fail, lift, reads, ◌>>=◌, ◌>>◌}
use funtonic.Base.HashMap
use funtonic.Query.{Query}
use funtonic.Crypto.SignedPayload.{SignedPayload}
use funtonic.Crypto.KeyStore.{KeyStoreError}
use funtonic.Crypto.KeyStore.Store.{decode_payload}
use funtonic.TaskServer.Env.{parse_text, Env}
use funtonic.TaskServer.Protocol.{
  LaunchTaskRequest, LaunchTaskRequestPayload, Task, execute_command, streaming_payload,
  authorize_key, revoke_key, TaskResponse, matching_executors, task_execution_result,
  ExecutionResult, disconnected, task_submitted, Status, Reason, text, key_store, internal,
  invalid_argument, failed_precondition, panic, key_store_status, task_server_status,
}
use funtonic.TaskServer.State.{TaskServer, on_world, raise_as}
use funtonic.TaskServer.Registry.{memory, get_channels_to_matching_executors}
use funtonic.TaskServer.ExecutorService.{required, new_channel}

-- The client ids of the senders.
unfoldable pub client_ids {ℓ} : {A : Type ℓ} → List (String × A) → List String
client_ids [] = []
client_ids ((client_id, _) ∷ senders) = client_id ∷ client_ids senders

-- The error of an admin key that does not decode the payload; a panic stays one.
unfoldable pub admin_key_status : KeyStoreError → Status
admin_key_status KeyStoreError.panic = panic
admin_key_status e = failed_precondition (key_store e)

module _ (E : Env) (now : ℕ) where
  -- Keys are only sent to executors under an admin key.
  unfoldable pub check_admin_key : Task → SignedPayload → Action (TaskServer E) Status (Unit {0})
  check_admin_key (authorize_key k) signed = raise_as admin_key_status (
      reads (λ s.
        decode_payload (memory E) E.unit_message E.unix_epoch now signed s.authorized_admin_keys))
  check_admin_key (revoke_key k) signed = raise_as admin_key_status (
      reads (λ s.
        decode_payload (memory E) E.unit_message E.unix_epoch now signed s.authorized_admin_keys))
  check_admin_key _ signed = pure tt

  unfoldable pub check_implemented : Task → Result (Unit {0}) Status
  check_implemented (streaming_payload p) = err (internal (text "not implemented"))
  check_implemented _ = ok tt

  -- `sender.send(…).await.map_err(…)?`
  unfoldable pub respond :
      E.channels.Sender → TaskResponse → Action (TaskServer E) Status (Unit {0})
  respond sender response =
      raise_as (λ _. internal (text "Unexpected Error"))
        (on_world (E.channels.send_response sender response))

  -- The report about one executor, under a random task id.
  unfoldable pub report_state :
      E.channels.Sender → String → ExecutionResult → Action (TaskServer E) Status (Unit {0})
  unfolding respond
  report_state sender client_id result s =
      respond sender
        (task_execution_result (record {
          task_id = E.random_task_id s.draws;
          client_id = client_id;
          execution_result = some result;
        }))
        (record s { draws = suc s.draws })

  -- What is reported of an executor by whether the task was sent to it.
  unfoldable pub outcome : Result (Unit {0}) (Unit {0}) → ExecutionResult
  outcome (ok _) = task_submitted
  outcome (err _) = disconnected

  unfoldable pub send_one :
      SignedPayload
      → E.channels.Sender
      → String
      → Option E.channels.Sender
      → Action (TaskServer E) Status (Unit {0})
  unfolding report_state outcome
  send_one signed sender client_id none s = report_state sender client_id disconnected s
  send_one signed sender client_id (some executor_sender) s =
      let (sent, w) = E.channels.send_task executor_sender (signed, sender) s.world in
      report_state sender client_id (outcome sent) (record s { world = w })

  -- The loop over the matching executors.
  unfoldable pub send_all :
      SignedPayload
      → E.channels.Sender
      → List (String × Option E.channels.Sender)
      → Action (TaskServer E) Status (Unit {0})
  unfolding send_one
  send_all signed sender [] = pure tt
  send_all signed sender ((client_id, executor_sender) ∷ senders) =
      let rest = send_all signed sender senders in
      send_one signed sender client_id executor_sender >> rest

  -- The checks of `launch_task`: the signed payload, once it may be sent.
  unfoldable pub admit : LaunchTaskRequest → Action (TaskServer E) Status SignedPayload
  unfolding check_admin_key check_implemented
  admit request = do
    signed ← lift (required "Missing signed payload" request.payload)
    payload ← raise_as key_store_status (
        reads (λ s.
          decode_payload (memory E) E.launch_message E.unix_epoch now signed s.authorized_keys))
    task ← lift (required "Missing task" payload.task)
    check_admin_key task signed
    lift (check_implemented task)
    pure signed

  unfoldable pub parse_query : String → Result Query Status
  parse_query query = map_err (λ e. invalid_argument (text e)) (parse_text E query)

  -- `launch_task`: the stream of responses is given by the channel that it reads.
  unfoldable pub launch_task : LaunchTaskRequest → Action (TaskServer E) Status E.channels.Sender
  unfolding admit new_channel parse_query get_channels_to_matching_executors client_ids respond
      send_all
  launch_task request = do
    signed ← admit request
    sender ← new_channel E now
    query ← lift (parse_query request.predicate)
    senders ← raise_as task_server_status (reads (get_channels_to_matching_executors E query))
    respond sender (matching_executors (client_ids senders))
    send_all signed sender senders
    pure sender
