-- ===== src/Commander/Requests.antt =====
-- `handle_cmd` and `safeguard_command` of commander/src/cmd.rs: what is sent for a command line.
use mathlib.Core.Bool.{not}
use funtonic.Base.{
  ℕ, ◌*◌, String, Bool, ◌||◌, ◌==◌, Option, none, some, List, [], ◌∷◌, Result, ok, err, ◌>>=◌,
  map_err, any, if◌then◌else◌,
}
use funtonic.Crypto.SignedPayload.{Ed25519Key, EncodePayloadError, encode_and_sign, nanos}
use funtonic.TaskServer.Protocol.{
  LaunchTaskRequest, Task, execute_command, authorize_key, revoke_key,
}
use funtonic.TaskServer.Env.{parse_text, Env}
use funtonic.Commander.Results.{CommandOptions}
use funtonic.Commander.Words.{ends_with, join}

pub data KeyCmd : Type 0 where
  authorize : String → String → KeyCmd
  revoke : String → KeyCmd

-- `Cmd`, less its interactive mode.
pub data Cmd : Type 0 where
  run : CommandOptions → String → List String → Cmd
  keys : CommandOptions → String → KeyCmd → Cmd

-- The errors, by where they come from.
pub data HandleError : Type 0 where
  query readline decoding : String → HandleError
  signing : EncodePayloadError → HandleError
  cancelled : HandleError

unfoldable pub is_unsafe : String → Bool
unfolding ends_with
is_unsafe command = ends_with command "reboot" || ends_with command "rm" || ends_with command "halt"

-- `eq_ignore_ascii_case` with "y" and "yes"
abbrev pub yes : List String
yes = "y" ∷ "Y" ∷ "yes" ∷ "yeS" ∷ "yEs" ∷ "yES" ∷ "Yes" ∷ "YeS" ∷ "YEs" ∷ "YES" ∷ []

unfoldable pub confirms : String → Bool
confirms line = any yes (λ v. v == line)

-- The user is asked at most once.
unfoldable pub ask : Bool → Result String String → Result (Unit {0}) HandleError
unfolding confirms
ask stdin_is_tty answer =
    if not stdin_is_tty
    then ok tt
    else map_err readline answer >>= λ line. if confirms line then ok tt else err cancelled

-- The loop over the parsed commands: it ends at a command without a word.
unfoldable pub safeguard :
    Bool → Result String String → List (List String) → Result (Unit {0}) HandleError
unfolding is_unsafe ask
safeguard stdin_is_tty answer [] = ok tt
safeguard stdin_is_tty answer ([] ∷ commands) = ok tt
safeguard stdin_is_tty answer ((command ∷ words) ∷ commands) =
    let rest = safeguard stdin_is_tty answer commands in
    if is_unsafe command then ask stdin_is_tty answer else rest

-- `parsed` is what the shell parser makes of the command line, `none` if it cannot be parsed.
unfoldable pub safeguard_command :
    Option (List (List String)) → Bool → Result String String → Result (Unit {0}) HandleError
unfolding safeguard
safeguard_command none stdin_is_tty answer = ok tt
safeguard_command (some commands) stdin_is_tty answer = safeguard stdin_is_tty answer commands

-- The key, the reading of the clock and the nonce for the request, and what the terminal gives.
pub record Session : Type 0 where
  pub ed25519_key : Ed25519Key
  pub now : ℕ
  pub nonce : ℕ
  pub multiparse : String → Option (List (List String))
  pub stdin_is_tty : Bool
  pub answer : Result String String

module _ (E : Env) (session : Session) where
  unfoldable pub launch_request : Task → String → Result LaunchTaskRequest HandleError
  launch_request task predicate = do
    signed ← map_err signing (
        encode_and_sign E.ring E.base64 E.unix_epoch E.launch_message (record { task = some task })
          session.ed25519_key (60 * nanos) session.now session.nonce)
    ok (record { predicate = predicate; payload = some signed })

  unfoldable pub handle_key_cmd : String → KeyCmd → Result LaunchTaskRequest HandleError
  unfolding launch_request
  handle_key_cmd predicate (authorize key_id public_key) = do
    key_bytes ← map_err decoding (E.base64.decode public_key)
    launch_request (authorize_key (record { key_id = key_id; key_bytes = key_bytes })) predicate
  handle_key_cmd predicate (revoke key_id) = launch_request (revoke_key key_id) predicate

  -- The request that `handle_cmd` hands to `do_handle_cmd`, with the options.
  unfoldable pub handle_cmd : Cmd → Result (LaunchTaskRequest × CommandOptions) HandleError
  unfolding launch_request handle_key_cmd safeguard_command join
  handle_cmd (run options predicate words) = do
    parsed ← map_err query (parse_text E predicate)
    allowed ←
        safeguard_command (session.multiparse (join words)) session.stdin_is_tty session.answer
    request ← launch_request (execute_command (join words)) predicate
    ok (request, options)
  handle_cmd (keys options predicate key_cmd) = do
    parsed ← map_err query (parse_text E predicate)
    request ← handle_key_cmd predicate key_cmd
    ok (request, options)
