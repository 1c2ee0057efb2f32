-- ===== src/Commander/Tests/Admin.antt =====
-- Runs of the admin commands of commander/src/admin.rs, and the theorem at a concrete command.
use funtonic.Base.{◌≡◌, refl, String, Option, none, some, [], ◌∷◌, Result, ok, err, arith}
use funtonic.Base.HashMap
use funtonic.Crypto.Library.{Bytes, Message, IsMessage}
use funtonic.Crypto.SignedPayload.{SignedPayload, encode_and_sign, to_sign_from_exploded_payload}
use funtonic.Crypto.Samples.{toy_ring-IsSignature}
use funtonic.ExecutorMeta.{TagMap}
use funtonic.TaskServer.Env.{Env}
use funtonic.TaskServer.State.{TaskServer}
use funtonic.TaskServer.Protocol
use funtonic.TaskServer.Protocol.{AdminRequest, RequestType, Status}
use funtonic.TaskServer.CommanderService.Admin.{handle, admin}
use funtonic.TaskServer.Samples.{toy_env, empty_world, unlocked}
use funtonic.Commander.Display.{
  list_running_tasks, json, human_readable_long, panic, Display, show_tags,
}
use funtonic.Commander.Admin.{
  sign_admin_request, handle_admin_command, request_type_of, served, printed_as_json,
  admin-handle_admin_command,
}
use funtonic.Commander.Tests.{session}

-- Messages for one request.
abbrev encode_request : Option RequestType → Result Bytes String
encode_request (some Protocol.list_running_tasks) = ok (0 ∷ [])
encode_request _ = err "other"

abbrev tasks_request : AdminRequest
tasks_request = record { request_type = some Protocol.list_running_tasks }

abbrev tasks_message : Message AdminRequest
tasks_message = record {
  encode = λ p. encode_request p.request_type;
  decode = λ b. ok tasks_request;
}

encoded_request :
    (o : Option RequestType) (b : Bytes)
    → encode_request o ≡ ok b
    → o ≡ some Protocol.list_running_tasks
encoded_request (some Protocol.list_running_tasks) b h = refl
encoded_request (some _) b h = ground arith
encoded_request none b h = ground arith

tasks_message-IsMessage : IsMessage tasks_message
tasks_message-IsMessage = record {
  decode-encode = λ p b h. ground (arith, encoded_request p.request_type b h);
}

abbrev env : Env
env = record (toy_env) { admin_message = tasks_message }

abbrev server : TaskServer env
server = record {
  executors = unlocked [];
  tasks_sinks = unlocked [];
  executor_meta_database = [];
  authorized_keys = unlocked [];
  authorized_admin_keys = unlocked (("c1", 1 ∷ 2 ∷ []) ∷ []);
  trusted_executor_keystore = [];
  unapproved_executor_keystore = [];
  world = empty_world;
  draws = 0;
}

-- `serde_yaml` writes a map without a tag as `{}` and the end of the line.
abbrev plain_display : Display
plain_display = record {
  green = λ s. s;
  red = λ s. s;
  show_usize = λ n. "many";
  pretty = λ s. ok s;
  read_executors = λ s. ok [];
  read_tokens = λ s. ok [];
  read_dropped = λ s. ok [];
  read_executor_keys =
      λ s. ok (record { trusted_executor_keys = []; unapproved_executor_keys = [] });
  read_keys = λ s. ok [];
  tags_to_json = λ tags. ok "{}";
  tags_to_yaml = λ tags. ok "{}\n";
}

-- The four bytes that are cut off are not there.
no_tags : show_tags plain_display human_readable_long TagMap.empty ≡ err panic
unfolding show_tags
no_tags = refl

abbrev signed : SignedPayload
signed = record {
  payload = 0 ∷ [];
  nonce = 5;
  valid_until_secs = 60;
  signature = 1 ∷ 2 ∷ to_sign_from_exploded_payload (0 ∷ []) 5 60;
  key_id = "c1";
}

signs : sign_admin_request env session plain_display list_running_tasks ≡ ok signed
unfolding sign_admin_request encode_and_sign
signs = refl

knows : HashMap.get "c1" server.authorized_admin_keys.inner ≡ some (1 ∷ 2 ∷ [])
unfolding HashMap.get
knows = refl

abbrev show_status : Status → String
show_status e = "status"

admin-handle_admin_command_example :
    (admin env 1000 signed server ≡ handle env 1000 (request_type_of list_running_tasks) server)
    × (handle_admin_command env session plain_display
          (λ p. served show_status (admin env 1000 p server).0)
          list_running_tasks
          json
          []
        ≡ printed_as_json show_status
            (handle env 1000 (request_type_of list_running_tasks) server).0
            [])
admin-handle_admin_command_example =
    admin-handle_admin_command env session plain_display toy_ring-IsSignature
      tasks_message-IsMessage (1 ∷ 2 ∷ []) (1 ∷ 2 ∷ []) refl refl list_running_tasks signed server
      1000 show_status [] signs refl knows (omega arith) (omega arith)
