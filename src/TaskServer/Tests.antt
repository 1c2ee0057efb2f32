-- ===== src/TaskServer/Tests.antt =====
-- Runs of the task server, and the theorems at concrete inputs; those about keys are in
-- Trust.
mod Trust
use mathlib.Core.List.{Forall₂}
use funtonic.Base.{
  ℕ, bytes_eq, ◌+◌, ◌*◌, String, ◌≡◌, ◌⊎◌, refl, true, none, some, List, [], ◌∷◌, ◌++◌, Result, ok,
  err,
}
use funtonic.Query.{Query, wildcard}
use funtonic.ExecutorMeta.{ExecutorMeta, qmatches}
use funtonic.Query.MatchResult.{matches}
use funtonic.Crypto.SignedPayload.{
  SignedPayload, payload_bytes_to_sign, to_sign_from_exploded_payload,
}
use funtonic.Crypto.LittleEndian.{le_bytes}
use funtonic.Crypto.KeyStore.Store.{decode_payload}
use funtonic.Crypto.Samples.{toy_database-IsDatabase}
use funtonic.Query.Parser.Samples.{toy_nom}
use funtonic.TaskServer.Env.{parse_text, AdminAnswer, dropped}
use funtonic.TaskServer.Protocol.{
  LaunchTaskRequest, Task, TaskResponse, matching_executors, not_found, text, invalid_argument,
  Status,
}
use funtonic.TaskServer.State.{TaskServer}
use funtonic.TaskServer.Registry.{memory, matching, with_senders}
use funtonic.TaskServer.ExecutorService.{next_task, reports, task_execution}
use funtonic.TaskServer.CommanderService.{admit, check_admin_key, check_implemented, launch_task}
use funtonic.TaskServer.CommanderService.Admin.{drop_matching}
use funtonic.TaskServer.Samples.{
  toy_env, empty_world, toy_channels-IsChannels, server, signed_by, toy_result,
}
use funtonic.TaskServer.Admission.{MayBeSent}
use funtonic.TaskServer.Launch.{launch_task_rejected, launch_task_admitted, launch_task_ok}
use funtonic.TaskServer.Sending.{Reported}
use funtonic.TaskServer.Sinks.{
  without_sink, Decodes, forwarded, task_execution-next_task, reports_ok,
}
use funtonic.TaskServer.Dropping.{unlisted, drop_matching_ok}
use funtonic.Base.HashMap
use funtonic.Crypto.KeyStore
use funtonic.Crypto.KeyStore.Memory
use funtonic.Crypto.KeyStore.File
use funtonic.Crypto.KeyStore.Store

abbrev uptime : SignedPayload
uptime = signed_by "c1" (5 ∷ []) (0 ∷ [])

abbrev request : LaunchTaskRequest
request = record { predicate = "*"; payload = some uptime }

admits : (admit toy_env 0 request server).0 ≡ ok uptime
unfolding admit decode_payload payload_bytes_to_sign to_sign_from_exploded_payload le_bytes
    Memory.verify KeyStore.verify_signature HashMap.get check_admin_key check_implemented bytes_eq
admits = refl

abbrev launched : Result ℕ Status × TaskServer toy_env
launched = launch_task toy_env 0 request server

launch_task_ok_example :
    (c : ℕ) × (reports : List TaskResponse) × (launched.0 ≡ ok c)
    × (toy_channels-IsChannels.responses launched.1.world c
        ≡ matching_executors (HashMap.keys (matching wildcard server.executor_meta_database))
          ∷ reports)
    × Forall₂
        (Reported toy_env 0 toy_channels-IsChannels uptime c launched.1.world)
        (with_senders server.executors.inner
          (HashMap.keys (matching wildcard server.executor_meta_database)))
        reports
unfolding parse_text toy_nom
launch_task_ok_example =
    launch_task_ok toy_env 0 toy_channels-IsChannels request server uptime wildcard
      server.executor_meta_database admits refl refl refl

launch_task_admitted_example :
    ((signed : SignedPayload) × (task : Task) × (some uptime ≡ some signed)
      × (decode_payload (memory toy_env) toy_env.launch_message 0 0 signed server.authorized_keys
          ≡ ok (record { task = some task }))
      × MayBeSent toy_env 0 task signed server)
    ⊎ ((e : Status) × (launched ≡ (err e, server)))
launch_task_admitted_example = launch_task_admitted toy_env 0 request server

-- Without a payload.
abbrev unsigned : LaunchTaskRequest
unsigned = record { predicate = "*"; payload = none }

rejects :
    (admit toy_env 0 unsigned server).0 ≡ err (invalid_argument (text "Missing signed payload"))
unfolding admit
rejects = refl

launch_task_rejected_example :
    launch_task toy_env 0 unsigned server
    ≡ (err (invalid_argument (text "Missing signed payload")), server)
launch_task_rejected_example =
    launch_task_rejected toy_env 0 unsigned server
      (invalid_argument (text "Missing signed payload")) rejects

abbrev trusted_report : SignedPayload
trusted_report = signed_by "e1" (7 ∷ []) (3 ∷ [])

task_execution-next_task_example :
    let (reply, t) = next_task toy_env 0 (uptime, 1) server in
    (reply ≡ ok (record { task_id = "task"; payload = some uptime }))
    × (task_execution toy_env 0 (some "task") (ok trusted_report ∷ []) t
        ≡ reports toy_env 0 1 (ok trusted_report ∷ []) (without_sink toy_env 0 "task" t))
    × (task_execution toy_env 0
          (some "task")
          (ok trusted_report ∷ [])
          (without_sink toy_env 0 "task" t)
        ≡ (
          err (not_found (text "task_id not found")),
          without_sink toy_env 0 "task" (without_sink toy_env 0 "task" t),
        ))
task_execution-next_task_example =
    task_execution-next_task toy_env 0 uptime 1 (ok trusted_report ∷ []) server refl

decodes :
    Forall₂
      (Decodes toy_env 0 toy_channels-IsChannels server.trusted_executor_keystore)
      (ok trusted_report ∷ [])
      (toy_result ∷ [])
unfolding decode_payload File.verify KeyStore.verify_signature le_bytes payload_bytes_to_sign
    to_sign_from_exploded_payload HashMap.get bytes_eq
decodes = Forall₂.cons (trusted_report, refl, refl) Forall₂.nil

listens : toy_channels-IsChannels.has_receiver server.world 0 ≡ true
listens = toy_channels-IsChannels.has_receiver-unbounded empty_world

reports_ok_example :
    ((reports toy_env 0 0 (ok trusted_report ∷ []) server).0 ≡ ok tt)
    × (toy_channels-IsChannels.responses
          (reports toy_env 0 0 (ok trusted_report ∷ []) server).1.world
          0
        ≡ toy_channels-IsChannels.responses server.world 0
          ++ forwarded toy_env 0 toy_channels-IsChannels (toy_result ∷ []))
reports_ok_example =
    reports_ok toy_env 0 toy_channels-IsChannels 0 (ok trusted_report ∷ []) (toy_result ∷ []) server
      listens decodes

abbrev dropped_e1 : AdminAnswer
dropped_e1 =
    dropped (("e1", record { removed_from_connected = true; removed_from_known = true }) ∷ [])

drops : (drop_matching toy_env 0 "*" server).0 ≡ ok dropped_e1
unfolding drop_matching matches qmatches parse_text toy_nom
drops = refl

abbrev metas_of : HashMap.HashMap ExecutorMeta → HashMap.HashMap ExecutorMeta
metas_of = (toy_database-IsDatabase (HashMap.HashMap ExecutorMeta)).contents

drop_matching_ok_example :
    let t = (drop_matching toy_env 0 "*" server).1 in
    (query : Query) × (parse_text toy_env "*" ≡ ok query)
    × ((j : String)
        → let ids = HashMap.keys (matching query (metas_of server.executor_meta_database)) in
          (HashMap.get j t.executors.inner ≡ unlisted ids j (HashMap.get j server.executors.inner))
          × (HashMap.get j (metas_of t.executor_meta_database)
              ≡ unlisted ids j (HashMap.get j (metas_of server.executor_meta_database))))
drop_matching_ok_example =
    drop_matching_ok toy_env 0 (toy_database-IsDatabase (HashMap.HashMap ExecutorMeta)) "*" server
      dropped_e1 drops
