-- ===== src/Executor/Tests.antt =====
-- Runs of the executor, and the theorems at concrete inputs.
mod Main
use mathlib.Core.List.{Forall₂}
use funtonic.Base.{
  ℕ, suc, String, ◌≡◌, none, ◌⊎◌, refl, Bool, true, false, ◌&&◌, ◌==◌, Option, some, List, [], ◌∷◌,
  Result, ok, err, arith, All, bytes_eq, eq_iff, if◌then◌else◌,
}
use funtonic.Base.HashMap
use funtonic.Crypto.Library.{Bytes, Message, IsMessage}
use funtonic.Crypto.SignedPayload.{
  SignedPayload, Ed25519Key, payload_bytes_to_sign, to_sign_from_exploded_payload, encode_and_sign,
}
use funtonic.Crypto.LittleEndian.{le_bytes}
use funtonic.Crypto.KeyStore
use funtonic.Crypto.KeyStore.{Keys}
use funtonic.Crypto.KeyStore.Memory
use funtonic.Crypto.KeyStore.Memory.{MemoryKeyStore}
use funtonic.Crypto.KeyStore.Store.{decode_payload}
use funtonic.Crypto.Samples.{toy_ring, toy_ring-IsSignature, toy_base64, toy_database}
use funtonic.TaskServer.Protocol.{GetTaskStreamReply, TaskExecutionResult, ExecutionResult, ping}
use funtonic.TaskServer.Samples.{toy_launch, toy_tasks, signed_by, unlocked}
use funtonic.Executor.Connection.{
  connected, revoke_key, unchanged, ConfigurationModification, failed, ended, retry, Bounded,
  refusals, wait, waits, first_reconnect_time, retry_ok,
}
use funtonic.Executor.Dispatch.{Client, RunError, Executor, run}
use funtonic.Executor.Orders.{Obeys, Caused}
use funtonic.Executor.Loop.{Brings, run-Accounted, run_commands}
use funtonic.ExecutorMeta.{Tag, TagMap}
use funtonic.ExecutorMeta.Proto.{to_value_map}
use funtonic.TaskServer.Registry.{meta_of_request}
use funtonic.TaskServer.Protocol.{GetTasksRequest}
use funtonic.ExecutorMeta.Interfaces.{Info, Interface, tag_of_info, tag_of_interfaces}
use funtonic.ExecutorMeta.Samples.{interfaces}
use funtonic.Executor.Registration.{
  ExecutorConfig, all_tags, get_tasks_request, Decodes, meta_of_request-get_tasks_request,
}
use funtonic.Exec.{started}
use funtonic.Executor.Reporting.{
  Sample, result_of_event, execution_stream, ReadsAs, CanSign, sign_event, execution_stream_ok,
}

retry_ok_example :
    Bounded
      (retry toy_base64 [] first_reconnect_time (failed connected ∷ ended (revoke_key "k") ∷ [])).0
    × ((n : ℕ)
        → let (times, result) =
            retry toy_base64 [] (wait n) (failed connected ∷ ended (revoke_key "k") ∷ []) in
          retry toy_base64 [] first_reconnect_time
            (refusals n (failed connected ∷ ended (revoke_key "k") ∷ []))
          ≡ (waits 1 n times, result))
retry_ok_example = retry_ok toy_base64 [] (failed connected ∷ ended (revoke_key "k") ∷ [])

-- Reads one report.
abbrev alive : TaskExecutionResult
alive = record { task_id = "task"; client_id = "e1"; execution_result = some ping }

abbrev is_ping : Option ExecutionResult → Bool
is_ping (some ping) = true
is_ping _ = false

abbrev encode_alive : TaskExecutionResult → Result Bytes String
encode_alive p =
    if is_ping p.execution_result && (p.task_id == "task") && (p.client_id == "e1")
    then ok []
    else err "other"

ping_of : (o : Option ExecutionResult) → is_ping o ≡ true → o ≡ some ping
ping_of o h = ground arith

abbrev alive_message : Message TaskExecutionResult
alive_message = record { encode = encode_alive; decode = λ b. ok alive }

alive_message-IsMessage : IsMessage alive_message
alive_message-IsMessage = record {
  decode-encode = λ p b h.
      ground (arith, ping_of p.execution_result, eq_iff p.task_id "task", eq_iff p.client_id "e1");
}

abbrev toy_client : Client
toy_client = record {
  Net = ℕ;
  connect = λ n. (ok tt, n);
  get_tasks = λ r n. (ok [], n);
  task_execution = λ id reports n. (ok tt, n);
  clock = λ n. 0;
  random = λ n. (n, suc n);
  metadata = λ id. ok tt;
  ring = toy_ring;
  base64 = toy_base64;
  launch_message = record { encode = λ p. err "unused"; decode = toy_launch };
  tasks_message = record { encode = λ p. ok []; decode = λ b. ok toy_tasks };
  result_message = alive_message;
  unix_epoch = 0;
  undecodable = λ id e. id;
  unknown_key = λ id. id;
}

abbrev key : Ed25519Key
key = record { id = "e1"; pkcs8 = "AQI="; public_key = some "AQI=" }

abbrev store : MemoryKeyStore
store = unlocked (("c1", 5 ∷ []) ∷ [])

abbrev idle : Executor toy_client
idle = record { net = 0; status = connected; started = [] }

abbrev uptime : SignedPayload
uptime = signed_by "c1" (5 ∷ []) (0 ∷ [])

abbrev reply : GetTaskStreamReply
reply = record { task_id = "task"; payload = some uptime }

-- The second is signed by nobody that the executor knows.
abbrev messages : List (Result GetTaskStreamReply String)
messages =
    ok reply ∷ ok (record { task_id = "evil"; payload = some (signed_by "x" [] (0 ∷ [])) }) ∷ []

abbrev ran : Result ConfigurationModification RunError × Executor toy_client
ran = run toy_client [] store "e1" key messages idle

run-Accounted_example :
    Obeys toy_client [] store "e1" key messages [] ran.1.started
    × ((m : ConfigurationModification)
        → ran.0 ≡ ok m
        → (m ≡ unchanged) ⊎ Caused toy_client [] store "e1" key messages m)
run-Accounted_example = run-Accounted toy_client [] store "e1" key messages idle

brings : Forall₂ (Brings toy_client [] store "e1" key 0) (ok reply ∷ []) (("task", "uptime") ∷ [])
unfolding decode_payload payload_bytes_to_sign to_sign_from_exploded_payload le_bytes Memory.verify
    KeyStore.verify_signature HashMap.get bytes_eq
brings = Forall₂.cons (reply, uptime, refl, refl, refl, refl) Forall₂.nil

run_commands_example :
    run toy_client [] store "e1" key (ok reply ∷ []) idle
    ≡ (ok unchanged, record { net = 0; status = connected; started = ("task", "uptime") ∷ [] })
run_commands_example =
    run_commands toy_client [] store "e1" key (ok reply ∷ []) (("task", "uptime") ∷ []) idle brings

abbrev sample : Sample
sample = record { event = started; now = 0; nonce = 3 }

abbrev trusted : Keys
trusted = ("e1", 1 ∷ 2 ∷ []) ∷ []

can_sign : All (CanSign toy_client "task" "e1" key) (sample ∷ [])
unfolding sign_event encode_and_sign to_sign_from_exploded_payload le_bytes result_of_event
can_sign = ((_, refl, omega arith), tt)

known : HashMap.get "e1" trusted ≡ some (1 ∷ 2 ∷ [])
unfolding HashMap.get
known = refl

execution_stream_ok_example :
    Forall₂
      (ReadsAs toy_client "task" "e1" key (toy_database Keys) trusted)
      (sample ∷ [])
      (execution_stream toy_client "task" "e1" key (sample ∷ []))
execution_stream_ok_example =
    execution_stream_ok toy_client "task" "e1" key toy_ring-IsSignature alive_message-IsMessage
      (1 ∷ 2 ∷ []) (1 ∷ 2 ∷ []) refl refl (toy_database Keys) trusted trusted refl known
      (sample ∷ []) can_sign

abbrev toy_config : ExecutorConfig
toy_config = record {
  tls = none;
  server_url = "http://localhost:10010";
  client_id = "host";
  tags = TagMap.entry "env" (Tag.value "prod") TagMap.empty;
  authorized_keys = ("boss", "AQI=") ∷ [];
}

-- The grains take the place of a tag of the configuration.
abbrev toy_grains : TagMap
toy_grains = TagMap.entry "env" (Tag.value "test") TagMap.empty

abbrev linux : Info
linux = record { os_type = "Linux"; version = "6.1" }

abbrev toy_request : Result GetTasksRequest String
toy_request =
    get_tasks_request toy_base64 "1.0" "1" (some toy_grains) linux (ok interfaces) toy_config

abbrev toy_sent : GetTasksRequest
toy_sent = record {
  client_id = "host";
  client_version = "1.0";
  tags = to_value_map (
      TagMap.entry "env" (Tag.value "test") (
        TagMap.entry "os_info" (tag_of_info linux)
          (TagMap.entry "network_interfaces" (tag_of_interfaces interfaces) TagMap.empty)));
  client_protocol_version = "1";
  authorized_keys = record { key_id = "boss"; key_bytes = 1 ∷ 2 ∷ [] } ∷ [];
}

toy_request_lem : toy_request ≡ ok toy_sent
unfolding get_tasks_request
toy_request_lem = refl

meta_of_request-get_tasks_request_example :
    (found : List Interface) × (◌≡◌ {A = Result (List Interface) String} (ok interfaces) (ok found))
    × (meta_of_request toy_sent
        ≡ some (record {
          client_id = "host";
          version = "1.0";
          tags =
              all_tags
                (some toy_grains)
                (tag_of_info linux)
                (tag_of_interfaces found)
                toy_config.tags;
        }))
    × Forall₂ (Decodes toy_base64) toy_config.authorized_keys toy_sent.authorized_keys
meta_of_request-get_tasks_request_example =
    meta_of_request-get_tasks_request toy_base64 "1.0" "1" (some toy_grains) linux (ok interfaces)
      toy_config toy_sent toy_request_lem
