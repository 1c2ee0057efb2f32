-- ===== src/TaskServer/Env.antt =====
-- What the task server uses and does not implement: channels, random task ids, the libraries of
-- Crypto/Library, JSON, and the query parser behind its interface.
use funtonic.Base.{ℕ, String, Bool, true, false, ◌≡◌, List, [], ◌∷◌, ◌++◌, Result, ok, err, map_err}
use mathlib.Core.List.{Mem}
use funtonic.Base.Action.{Action}
use funtonic.Base.HashMap.{HashMap}
use funtonic.Query.{Query}
use funtonic.Query.Parser.Nom.{Nom}
use funtonic.Query.Parser.Grammar as Parser
use funtonic.Query.Parser.Grammar.{display}
use funtonic.ExecutorMeta.{ExecutorMeta}
use funtonic.Crypto.Library.{Ed25519, Base64, Message, Database}
use funtonic.Crypto.SignedPayload.{SignedPayload}
use funtonic.Crypto.KeyStore.{Keys}
use funtonic.TaskServer.Protocol.{
  TaskResponse, LaunchTaskRequestPayload, AdminRequest, GetTasksRequest, TaskExecutionResult,
}

-- `futures::channel::mpsc`: unbounded channels to executors and to commanders. A channel is known by
-- its sender; a send fails once the receiver is gone.
pub record Channels : Type 1 where
  pub World : Type 0
  pub Sender : Type 0
  pub unbounded : World → Sender × World
  pub send_task : Sender → SignedPayload × Sender → Action World (Unit {0}) (Unit {0})
  pub send_response : Sender → TaskResponse → Action World (Unit {0}) (Unit {0})

-- What was sent on a channel and whether it has a receiver.
pub record IsChannels (c : Channels) : Type 0 where
  pub tasks : c.World → c.Sender → List (SignedPayload × c.Sender)
  pub responses : c.World → c.Sender → List TaskResponse
  pub has_receiver : c.World → c.Sender → Bool
  -- a new channel is empty and has its receiver
  pub responses-unbounded : (w : c.World) → responses (c.unbounded w).1 (c.unbounded w).0 ≡ []
  pub has_receiver-unbounded :
      (w : c.World) → has_receiver (c.unbounded w).1 (c.unbounded w).0 ≡ true
  -- a response is delivered to a receiver that is there, behind those sent before
  pub send_response_ok :
      (s : c.Sender) (r : TaskResponse) (w : c.World)
      → has_receiver w s ≡ true
      → ((c.send_response s r w).0 ≡ ok tt)
        × (responses (c.send_response s r w).1 s ≡ responses w s ++ r ∷ [])
  -- a task is taken exactly while there is a receiver, and then it is among those sent
  pub send_task_ok :
      (s : c.Sender) (p : SignedPayload × c.Sender) (w : c.World)
      → has_receiver w s ≡ true
      → ((c.send_task s p w).0 ≡ ok tt) × Mem p (tasks (c.send_task s p w).1 s)
  pub send_task_err :
      (s : c.Sender) (p : SignedPayload × c.Sender) (w : c.World)
      → has_receiver w s ≡ false
      → (c.send_task s p w).0 ≡ err tt
  -- nothing that was sent is lost, and sends connect and disconnect nobody
  pub tasks-send_task :
      (s t : c.Sender) (p q : SignedPayload × c.Sender) (w : c.World)
      → Mem q (tasks w t)
      → Mem q (tasks (c.send_task s p w).1 t)
  pub tasks-send_response :
      (s t : c.Sender) (r : TaskResponse) (w : c.World)
      → tasks (c.send_response s r w).1 t ≡ tasks w t
  pub has_receiver-send_response :
      (s t : c.Sender) (r : TaskResponse) (w : c.World)
      → has_receiver (c.send_response s r w).1 t ≡ has_receiver w t
  pub has_receiver-send_task :
      (s t : c.Sender) (p : SignedPayload × c.Sender) (w : c.World)
      → has_receiver (c.send_task s p w).1 t ≡ has_receiver w t
  pub responses-send_task :
      (s t : c.Sender) (p : SignedPayload × c.Sender) (w : c.World)
      → responses (c.send_task s p w).1 t ≡ responses w t

-- The answers of the admin requests, before they are written as JSON.
pub record AdminDroppedExecutorJsonResponse : Type 0 where
  pub removed_from_connected : Bool
  pub removed_from_known : Bool

pub record AdminListExecutorKeysJsonResponse : Type 0 where
  pub trusted_executor_keys : HashMap String
  pub unapproved_executor_keys : HashMap String

pub data AdminAnswer : Type 0 where
  executors : HashMap ExecutorMeta → AdminAnswer
  running_tasks : List String → AdminAnswer
  dropped : HashMap AdminDroppedExecutorJsonResponse → AdminAnswer
  executor_keys : AdminListExecutorKeysJsonResponse → AdminAnswer
  keys : HashMap String → AdminAnswer

pub record Env : Type 1 where
  pub channels : Channels
  pub ring : Ed25519
  pub base64 : Base64
  pub key_database : Database Keys
  pub meta_database : Database (HashMap ExecutorMeta)
  pub launch_message : Message LaunchTaskRequestPayload
  pub admin_message : Message AdminRequest
  pub tasks_message : Message GetTasksRequest
  pub result_message : Message TaskExecutionResult
  -- prost's `impl Message for ()`, which checks the encoding and keeps nothing
  pub unit_message : Message (Unit {0})
  -- `serde_json::to_string`
  pub to_json : AdminAnswer → Result String String
  pub nom : Nom
  -- the random task id of the n-th draw
  pub random_task_id : ℕ → String
  pub unix_epoch : ℕ
  -- `PROTOCOL_VERSION`
  pub protocol_version : String

-- `query_parser::parse`, with its error as it is displayed.
unfoldable pub parse_text : Env → String → Result Query String
unfolding Parser.parse
parse_text E query = map_err display (Parser.parse E.nom query)
