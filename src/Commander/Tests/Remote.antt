-- ===== src/Commander/Tests/Remote.antt =====
-- A command line of a commander that a task server and an executor get.
use funtonic.Base.{ℕ, suc, ◌≡◌, refl, some, [], ◌∷◌, ok, err, arith}
use funtonic.Crypto.SignedPayload.{Ed25519Key}
use funtonic.Crypto.Samples.{toy_ring, toy_ring-IsSignature, toy_base64}
use funtonic.TaskServer.CommanderService.{admit}
use funtonic.Executor.Connection.{unchanged, connected}
use funtonic.Executor.Dispatch.{Client, Executor, run}
use funtonic.Commander.Words.{join}
use funtonic.Commander.Delivery.Remote.{peer, run-handle_cmd}
use funtonic.Commander.Tests.{
  env, session, server, request, signed, plain, handles, knows, uptime_message-IsMessage,
  uptime_message,
}

-- An executor that has been connected; it says nothing.
abbrev client : Client
client = record {
  Net = ℕ;
  connect = λ n. (ok tt, n);
  get_tasks = λ r n. (ok [], n);
  task_execution = λ id reports n. (ok tt, n);
  clock = λ n. 2000;
  random = λ n. (n, suc n);
  metadata = λ id. ok tt;
  ring = toy_ring;
  base64 = toy_base64;
  launch_message = uptime_message;
  tasks_message = record { encode = λ p. err "unused"; decode = λ b. err "unused" };
  result_message = record { encode = λ p. err "unused"; decode = λ b. err "unused" };
  unix_epoch = 0;
  undecodable = λ id e. id;
  unknown_key = λ id. id;
}

abbrev idle : Executor (peer env client)
idle = record { net = 0; status = connected; started = [] }

abbrev key : Ed25519Key
key = record { id = "e1"; pkcs8 = "AQI="; public_key = some "AQI=" }

run-handle_cmd_example :
    ((admit env 1000 request server).0 ≡ ok signed)
    × (run
          (peer env client)
          []
          server.authorized_keys
          "e1"
          key
          (ok (record { task_id = "t"; payload = some signed }) ∷ [])
          idle
        ≡ (ok unchanged, record { net = 0; status = connected; started = ("t", "uptime") ∷ [] }))
unfolding join
run-handle_cmd_example =
    run-handle_cmd env client session toy_ring-IsSignature uptime_message-IsMessage (1 ∷ 2 ∷ [])
      (1 ∷ 2 ∷ []) refl refl plain plain "*" ("uptime" ∷ []) request signed handles refl
      (omega arith) server (refl, knows) 1000 (omega arith) [] server.authorized_keys (refl, knows)
      "e1" key idle (omega arith) "t"
