-- ===== src/Commander/Interactive.antt =====
-- The interactive mode of `handle_cmd` of commander/src/cmd.rs: lines are read and sent one by one.
pub mod Wanted
pub mod Serving
use funtonic.Base.{
  ℕ, String, true, false, List, [], ◌∷◌, ◌++◌, Result, ok, err, map_err, Option, Bool,
}
use funtonic.Base.Action.{Action, pure, fail, lift, ◌>>=◌, ◌>>◌}
use funtonic.TaskServer.Protocol.{LaunchTaskRequest, TaskResponse, execute_command}
use funtonic.TaskServer.Env.{Env, parse_text}
use funtonic.Commander.Results.{CommandOptions}
use funtonic.Commander.Outcome.{SessionEnd, refused, exited, outcome}
use funtonic.Commander.Requests.{HandleError, query, safeguard_command, Session, launch_request}

-- When a line is sent: the clock, the nonce, and the answer of the user, if one is asked for.
pub record Moment : Type 0 where
  pub now : ℕ
  pub nonce : ℕ
  pub answer : Result String String

-- What `readline` gives; `end_of_file` and the errors end the session.
pub data Input : Type 0 where
  typed : String → Moment → Input
  interrupted end_of_file : Input
  failed : String → Input

abbrev pub Sent : Type 0
Sent = LaunchTaskRequest × CommandOptions

-- `CommandOptions::default()` with `no_std_process_return`
abbrev pub quiet : CommandOptions
quiet = record { raw = false; group = false; no_progress = false; no_std_process_return = true }

-- `launch_task` is the method of the client: the messages of the answer, or a status.
module _ (E : Env) (session : Session) (stdout_is_tty : Bool) (stderr_line : String → String)
    (launch_task : LaunchTaskRequest
      → Result (List (Result (Option TaskResponse) String)) String) where
  abbrev Conversation : Type 0
  Conversation = Action (List Sent) SessionEnd (Unit {0})

  abbrev pub at : Moment → Session
  at m = record session { now = m.now; nonce = m.nonce; answer = m.answer }

  unfoldable send : LaunchTaskRequest → CommandOptions → Conversation
  unfolding outcome
  send request options sent = (
    outcome stdout_is_tty stderr_line launch_task request options,
    sent ++ (request, options) ∷ [],
  )

  unfoldable send_line : CommandOptions → String → String → Moment → Conversation
  unfolding send
  send_line options predicate line m = do
    request ← lift (map_err refused (launch_request E (at m) (execute_command line) predicate))
    send request options

  -- A line that is not let through is not sent, and the session goes on.
  unfoldable if_safe : Result (Unit {0}) HandleError → Conversation → Conversation → Conversation
  if_safe (ok _) sending more sent = (sending >> more) sent
  if_safe (err e) sending more sent = more sent

  unfoldable converse : CommandOptions → String → List Input → Conversation
  unfolding send_line if_safe
  converse options predicate [] = pure tt
  converse options predicate (typed line m ∷ more) =
      let rest = converse options predicate more in
      if_safe (safeguard_command (session.multiparse line) session.stdin_is_tty m.answer)
        (send_line options predicate line m) rest
  converse options predicate (interrupted ∷ more) = pure tt
  converse options predicate (end_of_file ∷ more) = pure tt
  converse options predicate (failed e ∷ more) = pure tt

  -- `handle_cmd` with `Cmd::Int`: the process exits with 0 when the reading ends. The first
  -- command, an empty one, lists the executors.
  unfoldable pub interactive : CommandOptions → String → Moment → List Input → Conversation
  unfolding send_line converse
  interactive options predicate first inputs = do
    parsed ← lift (map_err (λ e. refused (query e)) (parse_text E predicate))
    send_line quiet predicate "" first
    converse (record options { no_std_process_return = true }) predicate inputs
    fail (exited 0)
