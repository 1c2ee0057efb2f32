-- ===== src/TaskServer/Registry.antt =====
-- Registration of executors and tasks: `register_executor`, `get_channels_to_matching_executors`,
-- `get_running_tasks`, `register_new_task`, `get_task_sink`.
use mathlib.Core.Option
use funtonic.Base
use funtonic.Base.{
  ℕ, suc, String, Bool, true, false, Option, none, some, List, [], ◌∷◌, Result, ok, err, Lock,
  acquire, map_err, if◌then◌else◌,
}
use funtonic.Base.Action.{Action, pure, fail, ◌>>◌}
use funtonic.Base.HashMap
use funtonic.Base.HashMap.{HashMap}
use funtonic.Query.{Query}
use funtonic.Query.MatchResult.{matches}
use funtonic.ExecutorMeta.{ExecutorMeta, qmatches}
use funtonic.ExecutorMeta.Proto.{from_value_map}
use funtonic.Crypto.KeyStore.{KeyStoreBackend}
use funtonic.Crypto.KeyStore.Memory.{memory_backend}
use funtonic.Crypto.KeyStore.Store.{register_key}
use funtonic.TaskServer.Env.{Env}
use funtonic.TaskServer.Protocol.{
  GetTasksRequest, PublicKey, TaskServerError, lock_error, database_error, key_store_error, panic,
}
use funtonic.TaskServer.State.{TaskServer, on_authorized, on_metas, raise_as}

abbrev pub Metas : Type 0
Metas = HashMap ExecutorMeta

-- `impl From<&GetTasksRequest> for ExecutorMeta`; `none` is the panic on a tag that is not set.
unfoldable pub meta_of_request : GetTasksRequest → Option ExecutorMeta
unfolding from_value_map
meta_of_request r =
    Option.map (λ tags. record { client_id = r.client_id; version = r.client_version; tags = tags })
      (from_value_map r.tags)

-- `executors.iter().filter(|(_, meta)| meta.qmatches(query).matches())`
unfoldable pub matching : Query → Metas → Metas
matching query [] = []
matching query ((client_id, meta) ∷ metas) =
    let rest = matching query metas in
    if matches (qmatches meta query) then (client_id, meta) ∷ rest else rest

-- Each client id with its sender, if there is one.
unfoldable pub with_senders {ℓ} : {A : Type ℓ} → HashMap A → List String → List (String × Option A)
unfolding HashMap.get
with_senders senders [] = []
with_senders senders (client_id ∷ client_ids) =
    (client_id, HashMap.get client_id senders) ∷ with_senders senders client_ids

module _ (E : Env) where
  abbrev pub memory : KeyStoreBackend
  memory = memory_backend E.ring

  unfoldable pub read_executor_meta_database : TaskServer E → Result Metas TaskServerError
  read_executor_meta_database s =
      map_err database_error (E.meta_database.read s.executor_meta_database)

  unfoldable pub write_executor_meta_database :
      {R : Type 0} → (Metas → R × Metas) → Action (TaskServer E) TaskServerError R
  write_executor_meta_database f = raise_as database_error (on_metas (E.meta_database.write f))

  -- `lock().unwrap()` panics on a poisoned lock.
  unfoldable pub get_channels_to_matching_executors :
      Query → TaskServer E → Result (List (String × Option E.channels.Sender)) TaskServerError
  unfolding matching with_senders HashMap.keys
  get_channels_to_matching_executors query s =
      Base.◌>>=◌ (map_err database_error (E.meta_database.read s.executor_meta_database)) (λ metas.
        Base.◌>>=◌ (acquire s.executors panic)
          (λ senders. ok (with_senders senders (HashMap.keys (matching query metas)))))

  -- `lock().unwrap().insert`
  unfoldable pub insert_executor :
      String → E.channels.Sender → Action (TaskServer E) TaskServerError (Unit {0})
  unfolding HashMap.insert
  insert_executor client_id sender s = if s.executors.poisoned then (err panic, s) else (
    ok tt,
    record s {
      executors = record (s.executors) {
        inner = HashMap.insert client_id sender s.executors.inner;
      };
    },
  )

  unfoldable pub register_keys : List PublicKey → Action (TaskServer E) TaskServerError (Unit {0})
  unfolding register_key
  register_keys [] = pure tt
  register_keys (public_key ∷ public_keys) = do
    raise_as key_store_error
        (on_authorized (register_key memory public_key.key_id public_key.key_bytes))
    register_keys public_keys

  unfoldable pub register_meta :
      GetTasksRequest
      → E.channels.Sender
      → ExecutorMeta
      → Action (TaskServer E) TaskServerError (Unit {0})
  unfolding insert_executor register_keys write_executor_meta_database HashMap.insert
  register_meta request sender executor_meta = do
    insert_executor executor_meta.client_id sender
    write_executor_meta_database
        (λ executors. (tt, HashMap.insert executor_meta.client_id executor_meta executors))
    register_keys request.authorized_keys
    raise_as database_error (on_metas E.meta_database.save)

  unfoldable pub register_executor :
      GetTasksRequest → E.channels.Sender → Action (TaskServer E) TaskServerError (Unit {0})
  unfolding meta_of_request register_meta
  register_executor request sender = elim (meta_of_request request) [
    | none ↦ fail panic
    | some executor_meta ↦ register_meta request sender executor_meta
  ]

  unfoldable pub get_running_tasks : TaskServer E → Result (List String) TaskServerError
  unfolding HashMap.keys
  get_running_tasks s =
      Base.◌>>=◌ (acquire s.tasks_sinks lock_error) (λ sinks. ok (HashMap.keys sinks))

  -- `register_new_task`; the id is drawn before the lock is taken.
  unfoldable pub register_new_task :
      E.channels.Sender → Action (TaskServer E) TaskServerError String
  unfolding HashMap.insert
  register_new_task sender_to_commander s =
      let task_id = E.random_task_id s.draws in
      let drawn = record s { draws = suc s.draws } in
      if s.tasks_sinks.poisoned then (err panic, drawn) else (
        ok task_id,
        record drawn {
          tasks_sinks = record (s.tasks_sinks) {
            inner = HashMap.insert task_id sender_to_commander s.tasks_sinks.inner;
          };
        },
      )

  -- `get_task_sink` takes the sink out.
  unfoldable pub get_task_sink :
      String → Action (TaskServer E) TaskServerError (Option E.channels.Sender)
  unfolding HashMap.get HashMap.remove
  get_task_sink task_id s = if s.tasks_sinks.poisoned then (err panic, s) else (
    ok (HashMap.get task_id s.tasks_sinks.inner),
    record s {
      tasks_sinks = record (s.tasks_sinks) { inner = HashMap.remove task_id s.tasks_sinks.inner };
    },
  )
