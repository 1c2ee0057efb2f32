-- ===== src/TaskServer/CommanderService/Admin.antt =====
-- `admin` of common/src/task_server/commander_service_impl.rs.
use funtonic.Base
use funtonic.Base.{
  ℕ, String, Bool, true, false, ◌&&◌, Option, none, some, List, [], ◌∷◌, Result, ok, err, map_err,
  acquire, ◌==◌, if◌then◌else◌,
}
use funtonic.Base.Action.{Action, pure, lift, reads, ◌>>=◌, ◌>>◌}
use funtonic.Base.HashMap
use funtonic.Base.HashMap.{HashMap}
use funtonic.Crypto.SignedPayload.{SignedPayload}
use funtonic.Crypto.KeyStore.Store.{decode_payload, list_all}
use funtonic.TaskServer.Env.{
  Env, AdminAnswer, executors, running_tasks, dropped, executor_keys, keys,
  AdminDroppedExecutorJsonResponse,
}
use funtonic.TaskServer.Protocol.{
  RequestType, list_connected_executors, list_known_executors, drop_executor, approve_executor_key,
  list_running_tasks, list_executor_keys, list_authorized_keys, list_admin_authorized_keys, Status,
  text, internal, key_store_status, task_server_status,
}
use funtonic.TaskServer.State.{TaskServer, raise_as}
use funtonic.TaskServer.Keys
use funtonic.TaskServer.Registry.{
  Metas, memory, matching, read_executor_meta_database, write_executor_meta_database,
  get_running_tasks,
}
use funtonic.TaskServer.ExecutorService.{required}
use funtonic.TaskServer.CommanderService.{parse_query}

-- The entries whose key is in the other map.
unfoldable pub connected {ℓ} : {A : Type ℓ} → HashMap A → Metas → Metas
unfolding HashMap.contains_key
connected senders [] = []
connected senders ((client_id, meta) ∷ metas) =
    let rest = connected senders metas in
    if HashMap.contains_key client_id senders then (client_id, meta) ∷ rest else rest

-- `data.remove(&client_id).is_some()`
unfoldable pub take_meta : String → Metas → Bool × Metas
unfolding HashMap.contains_key HashMap.remove
take_meta client_id metas = (HashMap.contains_key client_id metas, HashMap.remove client_id metas)

module _ (E : Env) (now : ℕ) where
  -- The clients that have a sender.
  unfoldable pub connected_executors : TaskServer E → Result (HashMap E.channels.Sender) Status
  connected_executors s = acquire s.executors (internal (text "Unable to lock"))

  unfoldable pub list_connected : String → TaskServer E → Result AdminAnswer Status
  unfolding connected_executors parse_query read_executor_meta_database matching connected
  list_connected query s = Base.◌>>=◌ (connected_executors s) (λ senders.
      Base.◌>>=◌ (parse_query E now query) (λ query.
        Base.◌>>=◌ (map_err task_server_status (read_executor_meta_database E s))
          (λ metas. ok (executors (connected senders (matching query metas))))))

  unfoldable pub list_known : String → TaskServer E → Result AdminAnswer Status
  unfolding parse_query read_executor_meta_database matching
  list_known query s = Base.◌>>=◌ (parse_query E now query) (λ query.
      Base.◌>>=◌ (map_err task_server_status (read_executor_meta_database E s))
        (λ metas. ok (executors (matching query metas))))

  -- Removes the sender of a client, and says whether there was one.
  unfoldable pub disconnect : String → Action (TaskServer E) Status Bool
  unfolding HashMap.contains_key HashMap.remove
  disconnect client_id s =
      if s.executors.poisoned then (err (internal (text "Unable to lock")), s) else (
        ok (HashMap.contains_key client_id s.executors.inner),
        record s {
          executors = record (s.executors) { inner = HashMap.remove client_id s.executors.inner };
        },
      )

  -- The fold over the ids; the database is not saved.
  unfoldable pub drop_all :
      List String
      → HashMap AdminDroppedExecutorJsonResponse
      → Action (TaskServer E) Status (HashMap AdminDroppedExecutorJsonResponse)
  unfolding take_meta write_executor_meta_database disconnect HashMap.insert
  drop_all [] acc = pure acc
  drop_all (client_id ∷ client_ids) acc = do
    removed_from_known ←
        raise_as task_server_status (write_executor_meta_database E (take_meta client_id))
    removed_from_connected ← disconnect client_id
    drop_all client_ids (
        HashMap.insert client_id
          (record {
            removed_from_connected = removed_from_connected;
            removed_from_known = removed_from_known;
          })
          acc)

  unfoldable pub drop_matching : String → Action (TaskServer E) Status AdminAnswer
  unfolding parse_query read_executor_meta_database matching HashMap.keys drop_all
  drop_matching query = do
    query ← lift (parse_query E now query)
    metas ← raise_as task_server_status (reads (read_executor_meta_database E))
    result ← drop_all (HashMap.keys (matching query metas)) []
    pure (dropped result)

  unfoldable pub list_keys : TaskServer E → Result AdminAnswer Status
  unfolding Keys.list_trusted_executor_keys
  list_keys s = map_err key_store_status (
      Base.◌>>=◌ (Keys.list_trusted_executor_keys E s) (λ trusted.
        Base.◌>>=◌ (Keys.list_unapproved_executor_keys E s) (λ unapproved. ok (
          executor_keys
            (record { trusted_executor_keys = trusted; unapproved_executor_keys = unapproved })))))

  -- The batch approval stops at the first error.
  unfoldable pub approve_all : List String → Action (TaskServer E) Status (Unit {0})
  unfolding Keys.approve_executor_key
  approve_all [] = pure tt
  approve_all (client_id ∷ client_ids) = do
    raise_as key_store_status (Keys.approve_executor_key E client_id)
    approve_all client_ids

  unfoldable pub approve : String → Action (TaskServer E) Status (Unit {0})
  unfolding approve_all HashMap.keys
  approve client_id =
      if client_id == "*"
      then (do
        unapproved ← raise_as key_store_status (reads (Keys.list_unapproved_executor_keys E))
        approve_all (HashMap.keys unapproved))
      else raise_as key_store_status (Keys.approve_executor_key E client_id)

  -- `serde_json::to_string(…).map_err(…)?`
  unfoldable pub json : AdminAnswer → Result String Status
  json answer = map_err (λ e. internal (text e)) (E.to_json answer)

  -- The branches of `admin`: each ends in the JSON of its answer.
  unfoldable pub handle : RequestType → Action (TaskServer E) Status String
  unfolding list_connected list_known get_running_tasks drop_matching list_keys approve json
      list_all
  handle (list_connected_executors query) = do
    answer ← reads (list_connected query)
    lift (json answer)
  handle (list_known_executors query) = do answer ← reads (list_known query); lift (json answer)
  handle list_running_tasks = do
    tasks ← raise_as task_server_status (reads (get_running_tasks E))
    lift (json (running_tasks tasks))
  handle (drop_executor query) = do answer ← drop_matching query; lift (json answer)
  handle list_executor_keys = do answer ← reads list_keys; lift (json answer)
  handle (approve_executor_key client_id) = do approve client_id; pure "{}"
  handle list_authorized_keys = do
    listed ← raise_as key_store_status (reads (λ s. list_all (memory E) E.base64 s.authorized_keys))
    lift (json (keys listed))
  handle list_admin_authorized_keys = do
    listed ←
        raise_as key_store_status
          (reads (λ s. list_all (memory E) E.base64 s.authorized_admin_keys))
    lift (json (keys listed))

  -- `admin`: the response is the text under `ResponseKind::JsonResponse`.
  unfoldable pub admin : SignedPayload → Action (TaskServer E) Status String
  unfolding handle
  admin signed_payload = do
    request ← raise_as key_store_status (
        reads (λ s.
          decode_payload (memory E) E.admin_message E.unix_epoch now signed_payload
            s.authorized_admin_keys))
    request_type ← lift (required "Missing request type" request.request_type)
    handle request_type
