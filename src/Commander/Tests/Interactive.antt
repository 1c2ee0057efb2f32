-- ===== src/Commander/Tests/Interactive.antt =====
-- Runs of the interactive mode of commander/src/cmd.rs, and the theorem for one of them.
use funtonic.Base.{◌≡◌, refl, true, false, some, List, [], ◌∷◌, ok, err}
use funtonic.Crypto.SignedPayload.{encode_and_sign, to_sign_from_exploded_payload}
use funtonic.Query.Parser.Samples.{toy_nom}
use funtonic.TaskServer.Env.{Env, parse_text}
use funtonic.TaskServer.Protocol.{execute_command}
use funtonic.TaskServer.Samples.{toy_env}
use funtonic.Commander.Results.{CommandOptions}
use funtonic.Commander.Requests.{launch_request, safeguard_command}
use funtonic.Commander.Outcome.{exited}
use funtonic.Commander.Interactive.{Moment, Input, typed, end_of_file, Sent, quiet, interactive}
use funtonic.Commander.Tests.{session, messages, plain}

-- Every command is encoded in the same way.
abbrev env : Env
env = record (toy_env) {
  launch_message = record {
    encode = λ p. ok (0 ∷ []);
    decode = λ b. ok (record { task = some (execute_command "") });
  };
}

abbrev moment : Moment
moment = record { now = 0; nonce = 5; answer = ok "n" }

abbrev sent : CommandOptions → Sent
sent options = (
  record {
    predicate = "*";
    payload = some (record {
      payload = 0 ∷ [];
      nonce = 5;
      valid_until_secs = 60;
      signature = 1 ∷ 2 ∷ to_sign_from_exploded_payload (0 ∷ []) 5 60;
      key_id = "c1";
    });
  },
  options,
)

abbrev later : CommandOptions
later = record (plain) { no_std_process_return = true }

abbrev inputs : List Input
inputs = typed "uptime" moment ∷ typed "rm" moment ∷ typed "uptime" moment ∷ end_of_file ∷ []

-- "rm" is not sent, and what follows it is.
interactive_run :
    interactive env session false (λ t. t) (λ _. ok messages) plain "*" moment inputs []
    ≡ (err (exited 0), sent quiet ∷ sent later ∷ sent later ∷ [])
unfolding interactive encode_and_sign parse_text toy_nom launch_request safeguard_command
interactive_run = refl
