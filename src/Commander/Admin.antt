-- ===== src/Commander/Admin.antt =====
-- `handle_admin_command` of commander/src/admin.rs: the request for an admin command, and what becomes
-- of its answer; and that the task server does what it asks.
use funtonic.Base.{
  ℕ, ◌+◌, ◌*◌, ◌≤◌, String, ◌≡◌, refl, Option, none, some, List, [], ◌∷◌, Result, ok, err, map_err,
  map_err_ok, ◌++◌, false,
}
use funtonic.Base.Action.{pure, lift, fail, ◌>>=◌, ◌>>◌}
use funtonic.Base.HashMap
use funtonic.Crypto.Library.{Bytes, IsSignature, IsMessage}
use funtonic.Crypto.SignedPayload.{SignedPayload, encode_and_sign, nanos}
use funtonic.Crypto.KeyStore.Store.{max_system_secs}
use funtonic.Crypto.KeyStore.RoundTrip
use funtonic.TaskServer.Env.{Env}
use funtonic.TaskServer.State.{TaskServer}
use funtonic.TaskServer.Protocol
use funtonic.TaskServer.Protocol.{AdminRequest, RequestType, Status}
use funtonic.TaskServer.CommanderService.Admin.{handle, admin}
use funtonic.Commander.Requests.{Session}
use funtonic.Commander.Display.{
  AdminCommand, list_connected_executors, list_known_executors, list_running_tasks,
  list_executor_keys, list_authorized_keys, list_admin_authorized_keys, drop_executor,
  approve_executor_key, query_or_all, AdminCommandOutputMode, json, Printed, line, Console,
  AdminError, signing, status, panic, Display, print, display_formatted_output,
}

unfoldable pub request_type_of : AdminCommand → RequestType
unfolding query_or_all
request_type_of (list_connected_executors query) =
    Protocol.list_connected_executors (query_or_all query)
request_type_of (list_known_executors query) = Protocol.list_known_executors (query_or_all query)
request_type_of list_running_tasks = Protocol.list_running_tasks
request_type_of (drop_executor query) = Protocol.drop_executor query
request_type_of list_executor_keys = Protocol.list_executor_keys
request_type_of (approve_executor_key executor) = Protocol.approve_executor_key executor
request_type_of list_authorized_keys = Protocol.list_authorized_keys
request_type_of list_admin_authorized_keys = Protocol.list_admin_authorized_keys

-- `ResponseKind` of `AdminRequestResponse`
pub data ResponseKind : Type 0 where
  error json_response : String → ResponseKind

-- `CommanderSyntheticOutput::Admin`, or the process exits with a code after writing to the standard
-- error.
pub data AdminOutcome : Type 0 where
  answered : String → AdminOutcome
  exit : ℕ → String → AdminOutcome

module _ (E : Env) (session : Session) (D : Display) where
  unfoldable pub sign_admin_request : AdminCommand → Result SignedPayload AdminError
  unfolding request_type_of
  sign_admin_request command = map_err signing (
      encode_and_sign E.ring E.base64 E.unix_epoch E.admin_message
        (record { request_type = some (request_type_of command) }) session.ed25519_key (60 * nanos)
        session.now session.nonce)

  unfoldable pub finish :
      AdminCommand → AdminCommandOutputMode → Option ResponseKind → Console AdminOutcome
  unfolding display_formatted_output
  finish command output_mode none = fail panic
  finish command output_mode (some (error e)) = pure (exit 1 (D.red e))
  finish command output_mode (some (json_response j)) = do
    display_formatted_output D command j output_mode
    pure (answered j)

  -- `call` is `client.admin`, with the response's kind or the text of a status.
  unfoldable pub handle_admin_command :
      (SignedPayload → Result (Option ResponseKind) String)
      → AdminCommand
      → AdminCommandOutputMode
      → Console AdminOutcome
  unfolding sign_admin_request finish
  handle_admin_command call command output_mode = do
    request ← lift (sign_admin_request command)
    response_kind ← lift (map_err status (call request))
    finish command output_mode response_kind

-- What the client is given of the task server's answer.
abbrev pub served : (Status → String) → Result String Status → Result (Option ResponseKind) String
served show (ok answer) = ok (some (json_response answer))
served show (err e) = err (show e)

-- What the commander makes of it where it prints the JSON as it is.
abbrev pub printed_as_json : (Status → String) → Result String Status → Console AdminOutcome
printed_as_json show (ok answer) printed = (ok (answered answer), printed ++ line answer ∷ [])
printed_as_json show (err e) printed = (err (status (show e)), printed)

module _ (E : Env) (session : Session) (D : Display) (law : IsSignature E.ring)
    (codec : IsMessage E.admin_message) (bytes : Bytes) (pair : E.ring.KeyPair)
    (decoded : E.base64.decode session.ed25519_key.pkcs8 ≡ ok bytes)
    (parsed : E.ring.from_pkcs8 bytes ≡ ok pair) where
  admin_lem :
      (command : AdminCommand) (signed : SignedPayload) (s : TaskServer E) (later : ℕ)
      → sign_admin_request E session D command ≡ ok signed
      → s.authorized_admin_keys.poisoned ≡ false
      → HashMap.get session.ed25519_key.id s.authorized_admin_keys.inner
        ≡ some (E.ring.public_key pair)
      → signed.valid_until_secs ≤ max_system_secs
      → later + nanos ≤ session.now + 60 * nanos
      → admin E later signed s ≡ handle E later (request_type_of command) s
  unfolding sign_admin_request admin
  admin_lem command signed s later made healthy known small in_time =
      let request : AdminRequest = record { request_type = some (request_type_of command) } in
      let accepted =
        RoundTrip.decode_payload-encode_and_sign E.ring E.base64 E.unix_epoch E.admin_message
          request session.ed25519_key (60 * nanos) session.now session.nonce signed bytes pair
          decoded parsed (map_err_ok signing _ signed made) law codec s.authorized_admin_keys
          healthy known small later in_time in
      rw accepted refl

  -- The task server does for an admin command's request what its handler does for the command's
  -- request type, whatever that changes, up to a second before the minute of the request's validity is
  -- over, if the commander's key is among its admin keys and the time of expiry can be represented. In
  -- the mode `json` the commander prints the JSON that the handler answers and nothing else, and where
  -- the handler fails it ends with its status and prints nothing.
  pub admin-handle_admin_command :
      (command : AdminCommand) (signed : SignedPayload) (s : TaskServer E) (later : ℕ)
      (show : Status → String) (printed : List Printed)
      → sign_admin_request E session D command ≡ ok signed
      → s.authorized_admin_keys.poisoned ≡ false
      → HashMap.get session.ed25519_key.id s.authorized_admin_keys.inner
        ≡ some (E.ring.public_key pair)
      → signed.valid_until_secs ≤ max_system_secs
      → later + nanos ≤ session.now + 60 * nanos
      → (admin E later signed s ≡ handle E later (request_type_of command) s)
        × (handle_admin_command E session D
              (λ p. served show (admin E later p s).0)
              command
              json
              printed
            ≡ printed_as_json show (handle E later (request_type_of command) s).0 printed)
  unfolding handle_admin_command print
  admin-handle_admin_command command signed s later show printed made healthy known small in_time =
      let same = admin_lem command signed s later made healthy known small in_time in
      (same, rw (made, same) (answer (handle E later (request_type_of command) s).0))
    where
      answer :
          (r : Result String Status)
          → (do
            response_kind ← lift (map_err status (served show r))
            finish E session D command json response_kind)
              printed
            ≡ printed_as_json show r printed
      answer (ok j) = refl
      answer (err e) = refl
