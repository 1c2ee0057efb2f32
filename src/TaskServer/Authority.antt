-- ===== src/TaskServer/Authority.antt =====
-- Who may change which keys of the task server.
pub mod Admin
pub mod Trusted
pub mod Reach
use funtonic.Base.{
  ℕ, String, ◌≡◌, refl, Bool, true, false, Option, none, some, List, [], ◌∷◌, Result, ok, err,
  if◌then◌else◌, Bool-cases, arith,
}
use funtonic.Base.Action.{Action, pure, fail, lift, reads, ◌>>=◌, ◌>>◌}
use funtonic.Crypto.Library.{Bytes}
use funtonic.ExecutorMeta.{ExecutorMeta}
use funtonic.Crypto.SignedPayload.{SignedPayload}
use funtonic.TaskServer.Env.{Env}
use funtonic.TaskServer.Protocol.{
  RegisterExecutorRequest, GetTasksRequest, PublicKey, LaunchTaskRequest, Status, TaskServerError,
  Task, streaming_payload, authorize_key, revoke_key, execute_command, TaskResponse,
  ExecutionResult, disconnected, not_found, text, panic,
}
use funtonic.TaskServer.State.{TaskServer, on_world, raise_as}
use funtonic.TaskServer.Keys.{handle_executor_key}
use funtonic.TaskServer.Registry.{
  insert_executor, write_executor_meta_database, register_keys, register_meta, meta_of_request,
  register_executor, register_new_task, get_task_sink,
}
use funtonic.TaskServer.ExecutorService.{
  new_channel, get_tasks, next_task, report, reports, task_execution,
}
use funtonic.TaskServer.CommanderService.{
  check_admin_key, respond, report_state, send_one, send_all, admit, launch_task,
}
use funtonic.TaskServer.Frame.{
  SameKeys, SameKeys-refl, SameKeys-trans, KeepsKeys, keeps_rules, KeepsKeys-bind, KeepsKeys-if,
  KeepsKeys-then, KeepsKeys-raise_as, KeepsKeys-on_authorized, KeepsKeys-fail, KeepsKeys-pure,
  KeepsKeys-on_world, KeepsKeys-reads, KeepsKeys-lift,
}

module _ (E : Env) (now : ℕ) where
  pub handle_executor_key-KeepsKeys :
      (id : String) (k : Bytes) → KeepsKeys (handle_executor_key E id k)
  unfolding handle_executor_key
  handle_executor_key-KeepsKeys id k = search keeps_rules

  insert_executor-KeepsKeys :
      (id : String) (c : E.channels.Sender) → KeepsKeys (insert_executor E id c)
  unfolding insert_executor
  insert_executor-KeepsKeys id c = record {
    at = λ s. record { trusted = ground arith; admin = ground arith };
  }

  register_keys-KeepsKeys : (ks : List PublicKey) → KeepsKeys (register_keys E ks)
  unfolding register_keys
  register_keys-KeepsKeys [] = search keeps_rules
  register_keys-KeepsKeys (k ∷ ks) =
      KeepsKeys-then _ _ (KeepsKeys-raise_as _ _ (KeepsKeys-on_authorized _))
        (register_keys-KeepsKeys ks)

  register_meta-KeepsKeys :
      (r : GetTasksRequest) (c : E.channels.Sender) (m : ExecutorMeta)
      → KeepsKeys (register_meta E r c m)
  unfolding register_meta write_executor_meta_database
  register_meta-KeepsKeys r c m =
      search (keeps_rules, insert_executor-KeepsKeys, register_keys-KeepsKeys) depth 12

  register_some-KeepsKeys :
      (r : GetTasksRequest) (c : E.channels.Sender) (m : Option ExecutorMeta)
      → KeepsKeys {E = E} {X = TaskServerError} {A = Unit {0}}
          (elim m [ none ↦ fail panic | some executor_meta ↦ register_meta E r c executor_meta ])
  register_some-KeepsKeys r c none = KeepsKeys-fail panic
  register_some-KeepsKeys r c (some m) = register_meta-KeepsKeys r c m

  register_executor-KeepsKeys :
      (r : GetTasksRequest) (c : E.channels.Sender) → KeepsKeys (register_executor E r c)
  unfolding register_executor
  register_executor-KeepsKeys r c = register_some-KeepsKeys r c (meta_of_request r)

  -- Registering an executor changes no trusted key and no admin key.
  pub get_tasks-KeepsKeys : (r : RegisterExecutorRequest) → KeepsKeys (get_tasks E now r)
  unfolding get_tasks
  get_tasks-KeepsKeys r =
      search (keeps_rules, handle_executor_key-KeepsKeys, register_executor-KeepsKeys) depth 12

  register_new_task-KeepsKeys : (c : E.channels.Sender) → KeepsKeys (register_new_task E c)
  unfolding register_new_task
  register_new_task-KeepsKeys c = record {
    at = λ s. record { trusted = ground arith; admin = ground arith };
  }

  pub get_task_sink-KeepsKeys : (id : String) → KeepsKeys (get_task_sink E id)
  unfolding get_task_sink
  get_task_sink-KeepsKeys id = record {
    at = λ s. record { trusted = ground arith; admin = ground arith };
  }

  pub next_task-KeepsKeys : (t : SignedPayload × E.channels.Sender) → KeepsKeys (next_task E now t)
  unfolding next_task
  next_task-KeepsKeys (p, c) = search (keeps_rules, register_new_task-KeepsKeys)

  pub report-KeepsKeys :
      (c : E.channels.Sender) (m : Result SignedPayload Status) → KeepsKeys (report E now c m)
  unfolding report
  report-KeepsKeys c m = search keeps_rules depth 12

  reports-KeepsKeys :
      (c : E.channels.Sender) (ms : List (Result SignedPayload Status))
      → KeepsKeys (reports E now c ms)
  unfolding reports
  reports-KeepsKeys c [] = KeepsKeys-pure tt
  reports-KeepsKeys c (m ∷ ms) =
      KeepsKeys-bind _ _ (report-KeepsKeys c m)
        (λ b. KeepsKeys-if b _ _ (reports-KeepsKeys c ms) (KeepsKeys-pure tt))

  report_to-KeepsKeys :
      (sink : Option E.channels.Sender) (ms : List (Result SignedPayload Status))
      → KeepsKeys {E = E} {X = Status} {A = Unit {0}} (elim sink [
        | none ↦ fail (not_found (text "task_id not found"))
        | some sender ↦ reports E now sender ms
      ])
  report_to-KeepsKeys none ms = KeepsKeys-fail _
  report_to-KeepsKeys (some c) ms = reports-KeepsKeys c ms

  task_execution-KeepsKeys :
      (id : Option String) (ms : List (Result SignedPayload Status))
      → KeepsKeys (task_execution E now id ms)
  unfolding task_execution
  task_execution-KeepsKeys none ms = KeepsKeys-fail _
  task_execution-KeepsKeys (some id) ms =
      KeepsKeys-bind _ _ (KeepsKeys-raise_as _ _ (get_task_sink-KeepsKeys id))
        (λ sink. report_to-KeepsKeys sink ms)

  respond-KeepsKeys : (c : E.channels.Sender) (r : TaskResponse) → KeepsKeys (respond E now c r)
  unfolding respond
  respond-KeepsKeys c r = search keeps_rules

  report_state-KeepsKeys :
      (c : E.channels.Sender) (id : String) (r : ExecutionResult)
      → KeepsKeys (report_state E now c id r)
  unfolding report_state respond
  report_state-KeepsKeys c id r = record { at = λ s. record { trusted = refl; admin = refl } }

  send_one-KeepsKeys :
      (p : SignedPayload) (c : E.channels.Sender) (id : String) (e : Option E.channels.Sender)
      → KeepsKeys (send_one E now p c id e)
  unfolding send_one report_state respond
  send_one-KeepsKeys p c id none = report_state-KeepsKeys c id disconnected
  send_one-KeepsKeys p c id (some e) = record { at = λ s. record { trusted = refl; admin = refl } }

  send_all-KeepsKeys :
      (p : SignedPayload) (c : E.channels.Sender) (es : List (String × Option E.channels.Sender))
      → KeepsKeys (send_all E now p c es)
  unfolding send_all
  send_all-KeepsKeys p c [] = KeepsKeys-pure tt
  send_all-KeepsKeys p c ((id, e) ∷ es) =
      KeepsKeys-then _ _ (send_one-KeepsKeys p c id e) (send_all-KeepsKeys p c es)

  check_admin_key-KeepsKeys : (t : Task) (p : SignedPayload) → KeepsKeys (check_admin_key E now t p)
  unfolding check_admin_key
  check_admin_key-KeepsKeys (execute_command c) p = search keeps_rules
  check_admin_key-KeepsKeys (streaming_payload b) p = search keeps_rules
  check_admin_key-KeepsKeys (authorize_key k) p = search keeps_rules
  check_admin_key-KeepsKeys (revoke_key k) p = search keeps_rules

  admit-KeepsKeys : (r : LaunchTaskRequest) → KeepsKeys (admit E now r)
  unfolding admit
  admit-KeepsKeys r = search (keeps_rules, check_admin_key-KeepsKeys) depth 16

  -- Launching a task changes no trusted key and no admin key.
  pub launch_task-KeepsKeys : (r : LaunchTaskRequest) → KeepsKeys (launch_task E now r)
  unfolding launch_task
  launch_task-KeepsKeys r =
      search (keeps_rules, admit-KeepsKeys, respond-KeepsKeys, send_all-KeepsKeys) depth 20
