-- ===== src/Commander/Tests.antt =====
-- Runs of the commander, and the theorems at concrete inputs.
mod Admin
mod Interactive
mod Remote
use funtonic.Base.{
  ◌≤◌, String, ◌≡◌, ◌↔◌, refl, true, false, ◌==◌, eq_iff, Option, none, some, List, [], ◌∷◌, Result,
  ok, err, arith, if◌then◌else◌,
}
use funtonic.Crypto.Library.{Bytes, Message, IsMessage}
use funtonic.Crypto.SignedPayload.{SignedPayload, encode_and_sign, to_sign_from_exploded_payload}
use funtonic.Crypto.KeyStore.Store.{max_system_secs}
use funtonic.Crypto.Samples.{toy_ring-IsSignature}
use funtonic.Query.Parser.Samples.{toy_nom}
use funtonic.TaskServer.Env.{parse_text, Env}
use funtonic.TaskServer.State.{TaskServer}
use funtonic.TaskServer.Protocol.{
  TaskResponse, matching_executors, task_execution_result, task_completed, ping, LaunchTaskRequest,
  LaunchTaskRequestPayload, Task, execute_command,
}
use funtonic.TaskServer.CommanderService.{admit}
use funtonic.TaskServer.Samples.{toy_env, empty_world, unlocked}
use funtonic.Commander.Results.{
  ExecutorState, success, CommandOptions, Progress, at_start, collect, exit, do_handle_cmd,
}
use funtonic.Commander.Verdict.{client_state, do_handle_cmd-eq-exit_iff}
use funtonic.Commander.Requests.{run, safeguard, confirms, Session, handle_cmd}
use funtonic.Commander.Delivery.{safeguard-eq-ok_iff, admit-handle_cmd}
use funtonic.Base.HashMap

abbrev plain : CommandOptions
plain = record { raw = false; group = false; no_progress = true; no_std_process_return = false }

abbrev messages : List (Result (Option TaskResponse) String)
messages =
    ok (some (matching_executors ("e1" ∷ [])))
    ∷ ok (
        some (
          task_execution_result
            (record { task_id = "t"; client_id = "e1"; execution_result = some ping })))
    ∷ ok (
        some (
          task_execution_result (record {
            task_id = "t";
            client_id = "e1";
            execution_result = some (task_completed 0);
          })))
    ∷ []

abbrev final : Progress
final = record { executors = ("e1", success) ∷ []; executors_output = []; pb = none }

collects : collect plain false (λ t. t) messages at_start ≡ ok final
unfolding collect
collects = refl

do_handle_cmd-eq-exit_iff_example : (do_handle_cmd plain false (λ t. t) messages ≡ ok (exit 0)) ↔ (
    ((j : String) × (st : ExecutorState) × (client_state false j messages none ≡ some st))
    × ((j : String) (st : ExecutorState)
        → client_state false j messages none ≡ some st
        → st ≡ success))
do_handle_cmd-eq-exit_iff_example =
    do_handle_cmd-eq-exit_iff plain false (λ t. t) messages final refl collects

refuses : confirms "n" ≡ false
unfolding confirms
refuses = refl

-- Nobody is asked about the second command, behind an empty one.
safeguard-eq-ok_iff_example :
    (safeguard true (ok "n") ([] ∷ ("rm" ∷ "-rf" ∷ []) ∷ []) ≡ ok tt) ↔ Unit {0}
safeguard-eq-ok_iff_example = safeguard-eq-ok_iff "n" refuses ([] ∷ ("rm" ∷ "-rf" ∷ []) ∷ [])

-- Messages for one task.
abbrev encode_task : Option Task → Result Bytes String
encode_task (some (execute_command c)) = if c == "uptime" then ok (0 ∷ []) else err "other"
encode_task _ = err "other"

abbrev uptime_message : Message LaunchTaskRequestPayload
uptime_message = record {
  encode = λ p. encode_task p.task;
  decode = λ b. ok (record { task = some (execute_command "uptime") });
}

encoded_task :
    (o : Option Task) (b : Bytes) → encode_task o ≡ ok b → o ≡ some (execute_command "uptime")
encoded_task (some (execute_command c)) b h = ground (arith, eq_iff c "uptime")
encoded_task (some (Task.streaming_payload p)) b h = ground arith
encoded_task (some (Task.authorize_key k)) b h = ground arith
encoded_task (some (Task.revoke_key k)) b h = ground arith
encoded_task none b h = ground arith

uptime_message-IsMessage : IsMessage uptime_message
uptime_message-IsMessage = record {
  decode-encode = λ p b h. ground (arith, encoded_task p.task b h);
}

abbrev env : Env
env = record (toy_env) { launch_message = uptime_message }

abbrev server : TaskServer env
server = record {
  executors = unlocked [];
  tasks_sinks = unlocked [];
  executor_meta_database = [];
  authorized_keys = unlocked (("c1", 1 ∷ 2 ∷ []) ∷ []);
  authorized_admin_keys = unlocked [];
  trusted_executor_keystore = [];
  unapproved_executor_keystore = [];
  world = empty_world;
  draws = 0;
}

abbrev session : Session
session = record {
  ed25519_key = record { id = "c1"; pkcs8 = "AQI="; public_key = none };
  now = 0;
  nonce = 5;
  multiparse = λ line. some ((line ∷ []) ∷ []);
  stdin_is_tty = true;
  answer = ok "n";
}

abbrev signed : SignedPayload
signed = record {
  payload = 0 ∷ [];
  nonce = 5;
  valid_until_secs = 60;
  signature = 1 ∷ 2 ∷ to_sign_from_exploded_payload (0 ∷ []) 5 60;
  key_id = "c1";
}

abbrev request : LaunchTaskRequest
request = record { predicate = "*"; payload = some signed }

handles : handle_cmd env session (run plain "*" ("uptime" ∷ [])) ≡ ok (request, plain)
unfolding handle_cmd encode_and_sign parse_text toy_nom
handles = refl

knows : HashMap.get "c1" server.authorized_keys.inner ≡ some (1 ∷ 2 ∷ [])
unfolding HashMap.get
knows = refl

admit-handle_cmd_example :
    (signed : SignedPayload) × (request.payload ≡ some signed)
    × (signed.valid_until_secs ≤ max_system_secs → (admit env 1000 request server).0 ≡ ok signed)
admit-handle_cmd_example =
    admit-handle_cmd env session toy_ring-IsSignature uptime_message-IsMessage (1 ∷ 2 ∷ [])
      (1 ∷ 2 ∷ []) refl refl (run plain "*" ("uptime" ∷ [])) request plain server handles tt
      (refl, knows) (record { decode-encode = λ p b h. refl }) 1000 (omega arith)
