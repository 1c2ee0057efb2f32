-- ===== src/TaskServer/Tests/Trust.antt =====
-- The theorems about keys at concrete inputs.
use funtonic.Base.{bytes_eq, String, ◌≡◌, ◌≢◌, ◌⊎◌, refl, none, some, [], ◌∷◌, ok, arith}
use funtonic.Crypto.SignedPayload.{SignedPayload}
use funtonic.Crypto.LittleEndian.{le_bytes}
use funtonic.Crypto.KeyStore.{Keys}
use funtonic.Crypto.KeyStore.Store.{decode_payload}
use funtonic.Crypto.KeyStore.Backends.{IsKeyStore, file_backend-IsKeyStore}
use funtonic.Crypto.Samples.{toy_ring, toy_database, toy_database-IsDatabase}
use funtonic.TaskServer.Protocol.{RegisterExecutorRequest, GetTasksRequest}
use funtonic.TaskServer.State.{TaskServer}
use funtonic.TaskServer.Keys.{files, handle_executor_key, approve_executor_key}
use funtonic.TaskServer.Registry.{register_executor}
use funtonic.TaskServer.ExecutorService.{get_tasks}
use funtonic.TaskServer.CommanderService.Admin.{approve, handle, admin}
use funtonic.TaskServer.Samples.{toy_env, server, signed_by, unlocked, empty_world}
use funtonic.TaskServer.Start.{new, Configured, Reach-new}
use funtonic.TaskServer.Authority.Reach.{Reach, Step, ApprovedIn, Reach-trusted}
use funtonic.TaskServer.Authority.Trusted.{Trusts}
use funtonic.TaskServer.Approval.{approve_executor_key-handle_executor_key}
use funtonic.TaskServer.Registration.{Vouched, Registers, Refused, get_tasks_ok}
use funtonic.Base.HashMap
use funtonic.Crypto.KeyStore
use funtonic.Crypto.KeyStore.File
use funtonic.Crypto.KeyStore.Memory
use funtonic.Crypto.KeyStore.Store

-- An administrator approves the executor "e2".
abbrev approval : SignedPayload
approval = signed_by "a1" (6 ∷ []) (0 ∷ [])

abbrev keys : Keys → Keys
keys = (toy_database-IsDatabase Keys).contents

store : IsKeyStore toy_ring (files toy_env) keys
store = file_backend-IsKeyStore toy_ring (toy_database Keys) (toy_database-IsDatabase Keys)

-- An executor registers with a key that is not trusted, and an administrator approves it.
abbrev stranger_registration : RegisterExecutorRequest
stranger_registration = record {
  public_key = 8 ∷ [];
  client_id = "e2";
  get_tasks_request = some (signed_by "e2" (8 ∷ []) []);
}

abbrev presented : TaskServer toy_env
presented = (get_tasks toy_env 0 stranger_registration server).1

abbrev later : TaskServer toy_env
later = (admin toy_env 0 approval presented).1

later-Reach : Reach toy_env server later
later-Reach =
    Reach.step presented later
      (Reach.step server presented Reach.start (Step.get_tasks 0 stranger_registration server))
      (Step.admin 0 approval presented)

trusts : Trusts toy_env keys store "e2" (8 ∷ []) later
unfolding get_tasks handle_executor_key decode_payload Store.has_key Store.register_key
    Store.remove_key File.has_key File.insert_key File.remove_key File.verify KeyStore.stored_as
    KeyStore.take_key KeyStore.verify_signature Memory.verify HashMap.get HashMap.insert
    HashMap.remove bytes_eq le_bytes register_executor admin handle approve approve_executor_key
    toy_database-IsDatabase
trusts = refl

Reach-trusted_example :
    Trusts toy_env keys store "e2" (8 ∷ []) server
    ⊎ ApprovedIn toy_env keys store "e2"
        (8 ∷ [])
        server.authorized_admin_keys.inner
        server
        later
        later-Reach
Reach-trusted_example =
    Reach-trusted toy_env keys store "e2" (8 ∷ []) server later later-Reach trusts

-- A second executor presents its key, and is approved.
handles : (handle_executor_key toy_env "e2" (8 ∷ []) server).0 ≡ ok tt
unfolding handle_executor_key Store.has_key Store.register_key File.has_key File.insert_key
    KeyStore.stored_as HashMap.get HashMap.insert bytes_eq
handles = refl

approves :
    (approve_executor_key toy_env "e2" (handle_executor_key toy_env "e2" (8 ∷ []) server).1).0
    ≡ ok tt
unfolding handle_executor_key approve_executor_key Store.has_key Store.register_key Store.remove_key
    File.has_key File.insert_key File.remove_key KeyStore.stored_as KeyStore.take_key HashMap.get
    HashMap.insert bytes_eq
approves = refl

stranger : HashMap.get "e2" (keys server.trusted_executor_keystore) ≢ some (8 ∷ [])
unfolding HashMap.get toy_database-IsDatabase
stranger h = ground arith

approve_executor_key-handle_executor_key_example :
    let t =
      (approve_executor_key toy_env "e2" (handle_executor_key toy_env "e2" (8 ∷ []) server).1).1 in
    (HashMap.get "e2" (keys t.trusted_executor_keystore) ≡ some (8 ∷ []))
    × (HashMap.get "e2" (keys t.unapproved_executor_keystore) ≡ none)
    × ((j : String)
        → j ≢ "e2"
        → HashMap.get j (keys t.trusted_executor_keystore)
          ≡ HashMap.get j (keys server.trusted_executor_keystore))
approve_executor_key-handle_executor_key_example =
    approve_executor_key-handle_executor_key toy_env keys store "e2" (8 ∷ []) server handles
      stranger approves

abbrev registration : RegisterExecutorRequest
registration = record {
  public_key = 7 ∷ [];
  client_id = "e1";
  get_tasks_request = some (signed_by "e1" (7 ∷ []) []);
}

registers : (get_tasks toy_env 0 registration server).0 ≡ ok 1
unfolding get_tasks handle_executor_key decode_payload File.has_key KeyStore.stored_as File.verify
    KeyStore.verify_signature le_bytes register_executor
registers = refl

get_tasks_ok_example :
    ((request : GetTasksRequest) × Vouched toy_env keys store 0 registration request server
      × Registers toy_env keys store request.client_id server
          (get_tasks toy_env 0 registration server))
    ⊎ Refused toy_env keys store server (get_tasks toy_env 0 registration server)
get_tasks_ok_example = get_tasks_ok toy_env keys store 0 registration server

-- A server that was just made, and has answered one request.
abbrev fresh : TaskServer toy_env
fresh = record {
  executors = unlocked [];
  tasks_sinks = unlocked [];
  executor_meta_database = [];
  authorized_keys = unlocked [];
  authorized_admin_keys = unlocked (("a1", 1 ∷ 2 ∷ []) ∷ []);
  trusted_executor_keystore = [];
  unapproved_executor_keystore = [];
  world = empty_world;
  draws = 0;
}

makes : new toy_env [] (("a1", "AQI=") ∷ []) [] [] [] empty_world 0 ≡ ok fresh
unfolding new Memory.insert_key
makes = refl

one_admin : HashMap.NodupKeys {V = String} (("a1", "AQI=") ∷ [])
unfolding HashMap.contains_key HashMap.get
one_admin = (refl, tt)

abbrev answered : TaskServer toy_env
answered = (admin toy_env 0 approval fresh).1

Reach-new_example :
    Configured toy_env
      (("a1", "AQI=") ∷ [])
      "a1"
      none
      (HashMap.get "a1" answered.authorized_admin_keys.inner)
Reach-new_example =
    Reach-new toy_env [] (("a1", "AQI=") ∷ []) [] [] [] empty_world 0 fresh answered one_admin makes
      (Reach.step fresh answered Reach.start (Step.admin 0 approval fresh)) "a1"
