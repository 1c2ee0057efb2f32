-- ===== src/TaskServer/Protocol.antt =====
-- The messages of grpc-service/proto/tasks/tasks.proto that the task server handles, and the errors of
-- its handlers.
use funtonic.Base.{ℕ, String, Option, List}
use funtonic.Crypto.Library.{Bytes}
use funtonic.Crypto.SignedPayload.{SignedPayload}
use funtonic.Crypto.KeyStore.{KeyStoreError}
use funtonic.ExecutorMeta.Proto.{ValueMap}

pub record PublicKey : Type 0 where
  pub key_id : String
  pub key_bytes : Bytes

-- `message StreamingPayload` and its `oneof`
pub data StreamingPart : Type 0 where
  bytes : Bytes → StreamingPart
  eof : StreamingPart

pub record StreamingPayload : Type 0 where
  pub stream_id : String
  pub payload : Option StreamingPart

-- `message LaunchTaskRequestPayload`: its `oneof`
pub data Task : Type 0 where
  execute_command : String → Task
  streaming_payload : StreamingPayload → Task
  authorize_key : PublicKey → Task
  revoke_key : String → Task

pub record LaunchTaskRequestPayload : Type 0 where
  pub task : Option Task

pub record LaunchTaskRequest : Type 0 where
  pub predicate : String
  pub payload : Option SignedPayload

pub record GetTasksRequest : Type 0 where
  pub client_id : String
  pub client_version : String
  pub tags : ValueMap
  pub client_protocol_version : String
  pub authorized_keys : List PublicKey

pub record RegisterExecutorRequest : Type 0 where
  pub public_key : Bytes
  pub client_id : String
  pub get_tasks_request : Option SignedPayload

pub record GetTaskStreamReply : Type 0 where
  pub task_id : String
  pub payload : Option SignedPayload

pub data Output : Type 0 where
  stdout stderr : String → Output

-- `oneof execution_result`; an exit code is kept as its 32 bits.
pub data ExecutionResult : Type 0 where
  task_completed : ℕ → ExecutionResult
  task_output : Option Output → ExecutionResult
  ping disconnected task_submitted task_aborted : ExecutionResult
  task_rejected : String → ExecutionResult

pub record TaskExecutionResult : Type 0 where
  pub task_id : String
  pub client_id : String
  pub execution_result : Option ExecutionResult

-- `oneof task_response`
pub data TaskResponse : Type 0 where
  matching_executors : List String → TaskResponse
  task_execution_result : TaskExecutionResult → TaskResponse

-- `oneof requestType`
pub data RequestType : Type 0 where
  list_connected_executors list_known_executors drop_executor approve_executor_key :
      String → RequestType
  list_running_tasks list_executor_keys list_authorized_keys list_admin_authorized_keys :
      RequestType

pub record AdminRequest : Type 0 where
  pub request_type : Option RequestType

-- `TaskServerError`
pub data TaskServerError : Type 0 where
  lock_error : TaskServerError
  database_error : String → TaskServerError
  key_store_error : KeyStoreError → TaskServerError
  -- a panic of the thread
  panic : TaskServerError

-- What the text of a status is made from.
pub data Reason : Type 0 where
  text : String → Reason
  key_store : KeyStoreError → Reason
  task_server : TaskServerError → Reason

-- `tonic::Status` by its code. `panic` stands for a panic of the handler.
pub data Status : Type 0 where
  internal invalid_argument failed_precondition not_found : Reason → Status
  panic : Status

-- `impl From<KeyStoreError> for Status` and `impl From<TaskServerError> for Status`
unfoldable pub key_store_status : KeyStoreError → Status
key_store_status KeyStoreError.panic = panic
key_store_status e = internal (key_store e)

unfoldable pub task_server_status : TaskServerError → Status
task_server_status panic = panic
task_server_status (key_store_error KeyStoreError.panic) = panic
task_server_status e = internal (task_server e)
