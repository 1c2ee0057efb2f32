-- ===== src/Commander/Delivery/Remote.antt =====
-- From the command line of a commander, by the checks of the task server, to the start of the command
-- on an executor: commander/src/cmd.rs, common/src/task_server and executor/src/lib.rs.
use mathlib.Core.Path.{subst}
use mathlib.Core.Option.{some-injective}
use mathlib.Core.List.{Forall₂}
use funtonic.Base.{ℕ, ◌*◌, ◌+◌, ◌≤◌, String, ◌≡◌, ◌∙◌, sym, refl, some, List, [], ◌∷◌, ◌++◌, ok}
use funtonic.Base.HashMap.{HashMap}
use funtonic.Crypto.Library.{Bytes, IsSignature, IsMessage}
use funtonic.Crypto.SignedPayload.{SignedPayload, Ed25519Key, nanos}
use funtonic.Crypto.KeyStore.Memory.{MemoryKeyStore}
use funtonic.Crypto.KeyStore.Store.{max_system_secs}
use funtonic.TaskServer.Env.{Env}
use funtonic.TaskServer.State.{TaskServer}
use funtonic.TaskServer.Protocol.{LaunchTaskRequest, execute_command}
use funtonic.TaskServer.CommanderService.{admit}
use funtonic.Commander.Results.{CommandOptions}
use funtonic.Commander.Words.{join}
use funtonic.Commander.Requests.{Session, handle_cmd}
use funtonic.Commander.Delivery.{Knows, Made, run-Made, accepted, checks, admit_made}
use funtonic.Executor.Connection.{unchanged}
use funtonic.Executor.Dispatch.{Client, Executor, run}
use funtonic.Executor.Loop.{run_commands}
use funtonic.Commander.Requests

-- An executor with the libraries of the task server.
abbrev pub peer : Env → Client → Client
peer E C = record C { ring = E.ring; launch_message = E.launch_message; unix_epoch = E.unix_epoch }

module _ (E : Env) (C : Client) (session : Session) (law : IsSignature E.ring)
    (codec : IsMessage E.launch_message) (bytes : Bytes) (pair : E.ring.KeyPair)
    (decoded : E.base64.decode session.ed25519_key.pkcs8 ≡ ok bytes)
    (parsed : E.ring.from_pkcs8 bytes ≡ ok pair) where
  abbrev KnowsKey : MemoryKeyStore → Type 0
  KnowsKey = Knows E session law codec bytes pair decoded parsed

  -- A command line from which `handle_cmd` makes a request: its payload passes the checks of a task
  -- server that has the commander's key, and an executor that has the key too and gets the payload
  -- under a task id starts just this command under this id, if both get it up to a second before the
  -- minute of its validity is over.
  pub run-handle_cmd :
      (options o : CommandOptions) (predicate : String) (words : List String)
      (r : LaunchTaskRequest) (signed : SignedPayload)
      → handle_cmd E session (Requests.run options predicate words) ≡ ok (r, o)
      → r.payload ≡ some signed
      → signed.valid_until_secs ≤ max_system_secs
      → (server : TaskServer E) → KnowsKey server.authorized_keys
      → (at_server : ℕ) → at_server + nanos ≤ session.now + 60 * nanos
      → (keys : HashMap String) (store : MemoryKeyStore) → KnowsKey store
      → (client_id : String) (key : Ed25519Key) (x : Executor (peer E C))
      → C.clock x.net + nanos ≤ session.now + 60 * nanos
      → (task_id : String)
      → ((admit E at_server r server).0 ≡ ok signed)
        × (run
              (peer E C)
              keys
              store
              client_id
              key
              (ok (record { task_id = task_id; payload = some signed }) ∷ [])
              x
            ≡ (ok unchanged, record x { started = x.started ++ (task_id, join words) ∷ [] }))
  run-handle_cmd options o predicate words r signed h given small server trusted at_server in_time
        keys store known client_id key x on_time task_id =
      let (made_payload, made, sent) =
        run-Made E session law codec bytes pair decoded parsed options predicate words r o h in
      let task = execute_command (join words) in
      let signed_as =
        subst (Made E session law codec bytes pair decoded parsed task)
          (some-injective made_payload signed (sym sent ∙ given)) made in
      let accepts = accepted E session law codec bytes pair decoded parsed task signed in
      let (checked, implemented) =
        checks E session law codec bytes pair decoded parsed task signed server at_server signed_as
          tt small in_time in
      (
        admit_made E session law codec bytes pair decoded parsed task signed r server at_server
            given (accepts server.authorized_keys at_server signed_as trusted small in_time) checked
            implemented,
        run_commands (peer E C) keys store client_id key
            (ok (record { task_id = task_id; payload = some signed }) ∷ [])
            ((task_id, join words) ∷ []) x
            (Forall₂.cons
              (
                record { task_id = task_id; payload = some signed },
                signed,
                refl,
                refl,
                refl,
                accepts store (C.clock x.net) signed_as known small on_time,
              )
              Forall₂.nil),
      )
